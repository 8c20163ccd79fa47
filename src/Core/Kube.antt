-- ===== src/Core/Kube.antt =====
-- The Kubernetes API types, with the fields that the program reads. `rest` stands for the fields
-- that it only carries along; a time is a timestamp in seconds.
use simkube.Common.{String, Bool, Option, none, some, List, ◌≡◌}
use simkube.Common.Int.{ℤ}
use simkube.Common.Map.{Map}
use simkube.Core.Json.{Value}

pub record OwnerReference : Type 0 where
  pub api_version : String
  pub kind : String
  pub name : String
  pub uid : String
  pub block_owner_deletion : Option Bool

pub record ObjectMeta : Type 0 where
  pub name : Option String
  pub namespace : Option String
  pub labels : Option (Map String String)
  pub annotations : Option (Map String String)
  pub owner_references : Option (List OwnerReference)
  pub creation_timestamp : Option ℤ
  pub deletion_timestamp : Option ℤ
  pub deletion_grace_period_seconds : Option ℤ
  pub generation : Option ℤ
  pub managed_fields : Option Value
  pub resource_version : Option String
  pub uid : Option String

abbrev pub default_meta : ObjectMeta
default_meta = record {
  name = none;
  namespace = none;
  labels = none;
  annotations = none;
  owner_references = none;
  creation_timestamp = none;
  deletion_timestamp = none;
  deletion_grace_period_seconds = none;
  generation = none;
  managed_fields = none;
  resource_version = none;
  uid = none;
}

pub record TypeMeta : Type 0 where
  pub api_version : String
  pub kind : String

pub record DynamicObject : Type 0 where
  pub types : Option TypeMeta
  pub metadata : ObjectMeta
  pub content : Value

pub record ContainerStateRunning : Type 0 where
  pub started_at : Option ℤ

pub record ContainerStateTerminated : Type 0 where
  pub started_at : Option ℤ
  pub finished_at : Option ℤ

pub record ContainerState : Type 0 where
  pub running : Option ContainerStateRunning
  pub terminated : Option ContainerStateTerminated
  pub waiting : Option (Unit {0})

pub record ContainerStatus : Type 0 where
  pub name : String
  pub state : Option ContainerState

pub record PodStatus : Type 0 where
  pub init_container_statuses : Option (List ContainerStatus)
  pub container_statuses : Option (List ContainerStatus)

-- A volume, or a volume mount: its name and the rest.
pub record Volume : Type 0 where
  pub name : String
  pub rest : Value

pub record Container : Type 0 where
  pub volume_mounts : Option (List Volume)
  pub ports : Option Value
  pub rest : Value

pub record PodSpec : Type 0 where
  pub volumes : Option (List Volume)
  pub node_name : Option String
  pub service_account : Option String
  pub service_account_name : Option String
  pub init_containers : Option (List Container)
  pub containers : List Container
  pub tolerations : Option Value
  pub rest : Value

pub record Pod : Type 0 where
  pub metadata : ObjectMeta
  pub spec : Option PodSpec
  pub status : Option PodStatus

pub record LabelSelectorRequirement : Type 0 where
  pub key : String
  pub operator : String
  pub values : Option (List String)

pub record LabelSelector : Type 0 where
  pub match_expressions : Option (List LabelSelectorRequirement)
  pub match_labels : Option (Map String String)

-- What the program takes from the `kube` crate to name an object. `name_any` is the name if it is
-- set; what it returns of a generated name is left open.
pub record Naming : Type 0 where
  pub name_any : ObjectMeta → String
  pub name_any_of_name : (m : ObjectMeta) (n : String) → m.name ≡ some n → name_any m ≡ n
