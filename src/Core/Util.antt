-- ===== src/Core/Util.antt =====
-- sk-core/src/k8s/util.rs: names and metadata of objects, and label selectors.
pub mod Names
pub mod Labels
use simkube.Common.{
  ℕ, ◌≡◌, refl, Bool, true, false, not, Option, none, some, List, [], ◌∷◌, ◌++◌, String, Outcome,
  ok, err, panic, unwrap, unwrap_or, message, malformed_label_selector, ◌>>=◌, ◌==◌, string_eq,
  option_beq, is_empty, any, if◌then◌else◌,
}
use simkube.Common.Text.{append, split_once}
use simkube.Common.Map
use simkube.Common.Map.{Map}
use simkube.Core.Json
use simkube.Core.Constants.{simulation_label_key, app_kubernetes_io_name_key}
use simkube.Core.Kube.{
  OwnerReference, ObjectMeta, default_meta, TypeMeta, DynamicObject, LabelSelectorRequirement,
  LabelSelector, Naming,
}

-- `ResourceExt::labels` and `owner_references`: a missing map or list is an empty one.
abbrev pub labels_of : ObjectMeta → Map String String
labels_of m = unwrap_or m.labels []

abbrev pub owners_of : ObjectMeta → List OwnerReference
owners_of m = unwrap_or m.owner_references []

-- The object that owns another, of a type with a fixed API version and kind.
pub record Owner : Type 0 where
  pub api_version : String
  pub kind : String
  pub metadata : ObjectMeta

module _ ⦃n : Naming⦄ where
  unfoldable pub namespaced_name : ObjectMeta → String
  namespaced_name m = elim m.namespace [
    | some ns ↦ append ns (append "/" (n.name_any m))
    | none ↦ n.name_any m
  ]

  -- A missing name of the object, or uid of the owner, is a panic.
  unfoldable pub add_common_metadata : String → Owner → ObjectMeta → Outcome ObjectMeta
  add_common_metadata sim_name owner meta = do
    name ← unwrap meta.name
    uid ← unwrap owner.metadata.uid
    let labels = Map.insert (labels_of meta) simulation_label_key sim_name
    let owner_ref : OwnerReference = record {
      api_version = owner.api_version;
      kind = owner.kind;
      name = n.name_any owner.metadata;
      uid = uid;
      block_owner_deletion = some true;
    }
    ok (record meta {
      labels = some (Map.insert labels app_kubernetes_io_name_key name);
      owner_references = some (owners_of meta ++ owner_ref ∷ []);
    })

  unfoldable pub build_object_meta_helper :
      Option String → String → String → Owner → Outcome ObjectMeta
  build_object_meta_helper namespace name sim_name owner =
      add_common_metadata sim_name owner
        (record default_meta { namespace = namespace; name = some name })

  unfoldable pub build_global_object_meta : String → String → Owner → Outcome ObjectMeta
  unfolding build_object_meta_helper
  build_global_object_meta name sim_name owner = build_object_meta_helper none name sim_name owner

  unfoldable pub build_object_meta : String → String → String → Owner → Outcome ObjectMeta
  unfolding build_object_meta_helper
  build_object_meta namespace name sim_name owner =
      build_object_meta_helper (some namespace) name sim_name owner

unfoldable pub build_containment_label_selector : String → List String → LabelSelector
build_containment_label_selector key labels = record {
  match_expressions = some (record { key = key; operator = "In"; values = some labels } ∷ []);
  match_labels = none;
}

unfoldable pub split_namespaced_name : String → String × String
split_namespaced_name name = elim (split_once b'/' name) [
  | some (namespace, rest) ↦ (namespace, rest)
  | none ↦ ("", name)
]

unfoldable pub build_deletable : String → DynamicObject
unfolding split_namespaced_name
build_deletable ns_name =
    let (ns, name) = split_namespaced_name ns_name in
    record {
      types = none;
      metadata = record default_meta { namespace = some ns; name = some name };
      content = Json.null;
    }

abbrev pub last_applied_config_label_key : String
last_applied_config_label_key = "kubectl.kubernetes.io/last-applied-configuration"

abbrev pub depl_revision_label_key : String
depl_revision_label_key = "deployment.kubernetes.io/revision"

abbrev without_bookkeeping : Option (Map String String) → Option (Map String String)
without_bookkeeping none = none
without_bookkeeping (some a) =
    some (Map.remove (Map.remove a last_applied_config_label_key) depl_revision_label_key)

unfoldable pub sanitize_obj : DynamicObject → String → String → DynamicObject
sanitize_obj obj api_version kind = record obj {
  metadata = record (obj.metadata) {
    creation_timestamp = none;
    deletion_timestamp = none;
    deletion_grace_period_seconds = none;
    generation = none;
    managed_fields = none;
    owner_references = none;
    resource_version = none;
    uid = none;
    annotations = without_bookkeeping obj.metadata.annotations;
  };
  types = some (record { api_version = api_version; kind = kind });
}

-- Whether the values of a requirement are there and not empty.
abbrev some_values : Option (List String) → Option (List String)
some_values none = none
some_values (some []) = none
some_values (some (v ∷ vs)) = some (v ∷ vs)

malformed : LabelSelectorRequirement → Outcome Bool
malformed expr = err (malformed_label_selector expr.key)

abbrev contains : List String → String → Bool
contains vs v = any (λ w. w == v) vs

-- `In` and `NotIn` read the values only where the label is there.
one_of : Map String String → LabelSelectorRequirement → Bool → Outcome Bool
unfolding malformed
one_of labels expr wanted = elim (Map.get labels expr.key) [
  | none ↦ ok (not wanted)
  | some v ↦ elim (some_values expr.values) [
    | none ↦ malformed expr
    | some vs ↦ ok (if wanted then contains vs v else not (contains vs v))
  ]
]

present : Map String String → LabelSelectorRequirement → Bool → Outcome Bool
unfolding malformed
present labels expr wanted = elim (some_values expr.values) [
  | some vs ↦ malformed expr
  | none ↦
      ok (
        if wanted then Map.contains_key labels expr.key else not (Map.contains_key labels expr.key))
]

unfoldable pub label_expr_match : Map String String → LabelSelectorRequirement → Outcome Bool
unfolding one_of present
label_expr_match labels expr =
    if expr.operator == "In"
    then one_of labels expr true
    else if expr.operator == "NotIn"
    then one_of labels expr false
    else if expr.operator == "Exists"
    then present labels expr true
    else if expr.operator == "DoesNotExist"
    then present labels expr false
    else err (message "malformed label selector expression")

-- The loop over the expressions stops at the first that fails or does not match.
match_all : Map String String → List LabelSelectorRequirement → Outcome Bool
match_all labels [] = ok true
match_all labels (expr ∷ exprs) =
    let rest = match_all labels exprs in
    do matched ← label_expr_match labels expr; if matched then rest else ok false

labels_match : Map String String → Map String String → Bool
labels_match labels [] = true
labels_match labels ((k, v) ∷ wanted) =
    if option_beq (Map.get labels k) (some v) then labels_match labels wanted else false

unfoldable pub matches : ObjectMeta → LabelSelector → Outcome Bool
unfolding match_all labels_match
matches meta sel = do
  matched ← match_all (labels_of meta) (unwrap_or sel.match_expressions [])
  ok (if matched then labels_match (labels_of meta) (unwrap_or sel.match_labels []) else false)
