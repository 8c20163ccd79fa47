-- ===== src/Fixtures.antt =====
-- Concrete objects and interfaces, on which the tests run the models.
use simkube.Common.{
  Option, List, sym, ◌≡◌, ◌≢◌, refl, arith, String, Outcome, false, none, some, [], ◌∷◌, ok,
  unwrap_or, length, ◌==◌, string_eq, if◌then◌else◌,
}
use simkube.Common.Int.{ℤ, pos}
use text.Mathlib.TextEquality.{eq_iff}
use simkube.Common.Map
use simkube.Core.Lease.{Lease, build_lease}
use simkube.Core.Util.{Owner, build_object_meta, build_object_meta_helper, add_common_metadata}
use simkube.Core.Json.{object, end}
use simkube.Core.Hash.{Hasher}
use simkube.Core.Kube.{
  OwnerReference, ObjectMeta, default_meta, DynamicObject, Pod, PodSpec, PodStatus, Container,
  ContainerState, Naming,
}
use simkube.Core.ApiSet.{Scope, namespaced, Api}
use simkube.Core.ApiSet
use simkube.Common.Text.{split}
use simkube.Core.Patch.{Pointers}
use simkube.Core.Owners.{Server, OwnersCache}
use simkube.Store.TraceStore.{SpecEncoder}
use simkube.Store.Event.{ExportFilters}
use simkube.Store.Export.{Codec, Exported}

instance abbrev pub test_naming : Naming
test_naming = record {
  name_any = λ m. unwrap_or m.name "";
  name_any_of_name = λ m n e i. unwrap_or (e i) "";
}

-- A weak hash: how much was fed.
instance abbrev pub test_hasher : Hasher
test_hasher = record { finish = λ ts. length ts }

instance abbrev pub test_encoder : SpecEncoder
test_encoder = record { to_value = λ spec. ok (object end) }

-- An encoding that keeps everything.
instance abbrev pub test_codec : Codec
test_codec = record {
  Bytes = Exported;
  to_vec = λ x. ok x;
  from_slice = λ x. ok x;
  from_slice-to_vec = λ x bytes e. sym e;
  duration_to_ts_from = λ start duration. ok (pos 7);
}

abbrev pub named_meta : String → String → ObjectMeta
named_meta ns name = record default_meta { namespace = some ns; name = some name }

abbrev pub test_object : String → DynamicObject
test_object name = record {
  types = none;
  metadata = named_meta "default" name;
  content = object end;
}

abbrev pub ref_to : String → OwnerReference
ref_to name = record {
  api_version = "apps/v1";
  kind = "Deployment";
  name = name;
  uid = "1";
  block_owner_deletion = none;
}

abbrev pub no_filters : ExportFilters
no_filters = record { excluded_namespaces = []; excluded_labels = []; exclude_daemonsets = false }

-- A server that knows every kind and holds no object.
abbrev pub empty_server : Server
empty_server = record { discover = λ g. ok namespaced; list = λ api sel. ok [] }

abbrev pub empty_cache : OwnersCache
empty_cache = record { apiset = ApiSet.new; owners = [] }

abbrev pub test_container : Container
test_container = record { volume_mounts = none; ports = none; rest = object end }

abbrev pub test_spec : PodSpec
test_spec = record {
  volumes = none;
  node_name = some "node-1";
  service_account = none;
  service_account_name = none;
  init_containers = none;
  containers = test_container ∷ [];
  tolerations = none;
  rest = object end;
}

-- The state of a container that started at this time.
abbrev pub started : ℤ → ContainerState
started ts = record {
  running = some (record { started_at = some ts });
  terminated = none;
  waiting = none;
}

abbrev pub test_status : PodStatus
test_status = record {
  init_container_statuses = none;
  container_statuses = some (record { name = "main"; state = some (started (pos 5)) } ∷ []);
}

abbrev pub test_pod : Pod
test_pod = record {
  metadata = named_meta "default" "pod-1";
  spec = some test_spec;
  status = some test_status;
}

-- Pointers whose tokens are the names between slashes, with no escapes and no indices.
abbrev pub tokens_of : List String → Option (List String)
tokens_of [] = none
tokens_of (whole ∷ []) = if whole == "" then some [] else none
tokens_of (before ∷ token ∷ tokens) = if before == "" then some (token ∷ tokens) else none

instance abbrev pub test_pointers : Pointers
test_pointers = record { tokens = λ path. tokens_of (split b'/' path); parse_index = λ token. none }

abbrev pub sim_root : Owner
sim_root = record {
  api_version = "simkube.io/v1";
  kind = "SimulationRoot";
  metadata = record default_meta { name = some "root"; uid = some "7" };
}

-- A lease that the simulation of this name took at time 10, for 60 seconds.
abbrev pub lease_of : String → Lease
lease_of holder = record {
  metadata = named_meta "simkube" "sk-lease";
  spec = some (record {
    holder_identity = some holder;
    acquire_time = some (pos 10);
    renew_time = some (pos 10);
    lease_duration_seconds = some (pos 60);
  });
}

abbrev pub some_lease : Outcome Lease → Lease
some_lease (ok lease) = lease
some_lease _ = lease_of ""

abbrev pub sim_lease : Lease
unfolding build_lease build_object_meta build_object_meta_helper add_common_metadata Map.insert
sim_lease = some_lease (build_lease "sim" sim_root "simkube" (pos 20))

pub builds : build_lease "sim" sim_root "simkube" (pos 20) ≡ ok sim_lease
unfolding build_lease build_object_meta add_common_metadata Map.insert sim_lease
builds = refl

abbrev pub mine : String
mine = "sim"

abbrev pub theirs : String
theirs = "other"

pub sim_ne_other : mine ≢ theirs
sim_ne_other e = absurd (ground (arith, eq_iff mine theirs))
