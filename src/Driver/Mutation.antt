-- ===== src/Driver/Mutation.antt =====
-- sk-driver/src/mutation.rs: what the admission webhook does to a pod of the simulation.
pub mod Sequence
use simkube.Common.{
  ℕ, zero, suc, ◌+◌, ◌≡◌, Bool, true, false, not, Option, none, some, List, [], ◌∷◌, ◌++◌, String,
  Outcome, ok, err, panic, Error, ◌>>=◌, ◌==◌, string_eq, nat_eq, any, if◌then◌else◌,
}
use simkube.Common.Text.{append}
use simkube.Common.Map
use simkube.Common.Map.{Map}
use simkube.Core.Constants.{
  simulation_label_key, orig_namespace_annotation_key, virtual_node_toleration_key,
}
use simkube.Core.Hash.{Hasher}
use simkube.Core.Json.{Value, string, array, object, nil, end, field}
use simkube.Core.Kube.{Pod, OwnerReference, Naming}
use simkube.Core.Lifecycle.{PodLifecycleData, pod_spec}
use simkube.Core.Owners.{Server, OwnersCache, compute_owner_chain}
use simkube.Core.PatchExt.{AddOperation, escape, to_annotation_patch}
use simkube.Store.TraceStore.{TraceStore, SpecEncoder, has_obj, lookup_pod_lifecycle, pod_hash}

-- `MutationData`: how many pods of each hash there were, less one.
abbrev pub MutationData : Type 0
MutationData = Map ℕ ℕ

abbrev pub new : MutationData
new = []

unfoldable pub count : MutationData → ℕ → ℕ × MutationData
count counts hash = elim (Map.get counts hash) [
  | some seen ↦ (seen + 1, Map.insert counts hash (seen + 1))
  | none ↦ (0, Map.insert counts hash 0)
]

-- The fields of `DriverContext` that the webhook reads.
pub record DriverContext : Type 0 where
  pub name : String
  pub root_name : String
  pub store : TraceStore

abbrev add_op : String → Value → AddOperation
add_op path value = record { path = path; value = value }

abbrev add_if_missing {ℓ} : {A : Type ℓ} → Option A → String → Value → List AddOperation
add_if_missing none path value = add_op path value ∷ []
add_if_missing (some x) path value = []

unfoldable pub add_simulation_labels : DriverContext → Pod → List AddOperation → List AddOperation
add_simulation_labels ctx pod patches =
    patches
    ++ add_if_missing pod.metadata.labels "/metadata/labels" (object end)
    ++ (add_op (append "/metadata/labels/" (escape simulation_label_key)) (string ctx.name) ∷ [])

module _ ⦃h : Hasher⦄ ⦃e : SpecEncoder⦄ where
  -- The patches for a lifecycle that was found; none means that the loop goes on.
  lifecycle_patches : Pod → PodLifecycleData → Option (List AddOperation)
  lifecycle_patches pod lifecycle = elim (to_annotation_patch lifecycle) [
    | none ↦ none
    | some patch ↦
        some (
          add_if_missing pod.metadata.annotations "/metadata/annotations" (object end)
          ++ patch ∷ [])
  ]

  -- The loop over the owners: the first that is in the store and has a finished lifecycle for the
  -- next position in the sequence of this hash. The count goes up for each that is in the store.
  unfoldable pub lifecycle_of_owners :
      DriverContext
      → String
      → Pod
      → List OwnerReference
      → MutationData
      → List AddOperation
      → Outcome (List AddOperation) × MutationData
  unfolding lifecycle_patches
  lifecycle_of_owners ctx orig_ns pod [] counts patches = (ok patches, counts)
  lifecycle_of_owners ctx orig_ns pod (owner ∷ owners) counts patches =
      let ns_name = append orig_ns (append "/" owner.name) in
      elim (has_obj ctx.store ns_name) [
        | false ↦ lifecycle_of_owners ctx orig_ns pod owners counts patches
        | true ↦ elim (pod_hash pod) [
          | ok hash ↦
              let (seq, counts') = count counts hash in
              elim (lookup_pod_lifecycle ctx.store ns_name hash seq) [
                | ok lifecycle ↦ elim (lifecycle_patches pod lifecycle) [
                  | some more ↦ (ok (patches ++ more), counts')
                  | none ↦ lifecycle_of_owners ctx orig_ns pod owners counts' patches
                ]
                | err x ↦ (err x, counts')
                | panic ↦ (panic, counts')
              ]
          | err x ↦ (err x, counts)
          | panic ↦ (panic, counts)
        ]
      ]

  abbrev orig_namespace : Pod → Option String
  orig_namespace pod = elim pod.metadata.annotations [
    | none ↦ none
    | some annotations ↦ Map.get annotations orig_namespace_annotation_key
  ]

  unfoldable pub add_lifecycle_annotation :
      DriverContext
      → Pod
      → List OwnerReference
      → MutationData
      → List AddOperation
      → Outcome (List AddOperation) × MutationData
  add_lifecycle_annotation ctx pod owners counts patches = elim (orig_namespace pod) [
    | some orig_ns ↦ lifecycle_of_owners ctx orig_ns pod owners counts patches
    | none ↦ (ok patches, counts)
  ]

abbrev node_selector : Value
node_selector = object (field "type" (string "virtual") end)

abbrev toleration : Value
toleration = object (
    field "key" (string virtual_node_toleration_key)
      (field "operator" (string "Exists") (field "effect" (string "NoSchedule") end)))

unfoldable pub add_node_selector_tolerations : Pod → List AddOperation → Outcome (List AddOperation)
add_node_selector_tolerations pod patches = do
  spec ← pod_spec pod
  ok (
      patches
      ++ add_if_missing spec.tolerations "/spec/tolerations" (array nil)
      ++ (add_op "/spec/nodeSelector" node_selector ∷ add_op "/spec/tolerations/-" toleration ∷ []))

-- The parts of an `AdmissionResponse` that are set.
pub record AdmissionResponse : Type 0 where
  pub uid : String
  pub allowed : Bool
  pub patch : Option (List AddOperation)

-- The state that the requests share.
pub record Shared : Type 0 where
  pub owners_cache : OwnersCache
  pub counts : MutationData

module _ ⦃h : Hasher⦄ ⦃n : Naming⦄ ⦃e : SpecEncoder⦄ where
  all_patches :
      DriverContext
      → Pod
      → List OwnerReference
      → MutationData
      → Outcome (List AddOperation) × MutationData
  all_patches ctx pod owners counts =
      let (annotated, counts') =
        add_lifecycle_annotation ctx pod owners counts (add_simulation_labels ctx pod []) in
      (annotated >>= λ patches. add_node_selector_tolerations pod patches, counts')

  unfoldable pub mutate_pod :
      ℕ
      → Server
      → DriverContext
      → AdmissionResponse
      → Pod
      → Shared
      → Outcome AdmissionResponse × Shared
  unfolding all_patches
  mutate_pod depth sv ctx resp pod s =
      let (chain, cache) = compute_owner_chain depth sv s.owners_cache pod.metadata in
      elim chain [
        | ok owners ↦
            let (patches, counts) = all_patches ctx pod owners s.counts in
            if not (any (λ o. o.name == ctx.root_name) owners)
            then (ok resp, record s { owners_cache = cache })
            else (
              patches >>= λ ps. ok (record resp { patch = some ps }),
              record { owners_cache = cache; counts = counts },
            )
        | err x ↦ (err x, record s { owners_cache = cache })
        | panic ↦ (panic, record s { owners_cache = cache })
      ]

  -- An error of the mutation denies the pod; a request with no object is let through. A review that
  -- is no request is denied too, with no identifier to answer to.
  unfoldable pub handler :
      ℕ
      → Server
      → DriverContext
      → Outcome (String × Option Pod)
      → Shared
      → Outcome AdmissionResponse × Shared
  handler depth sv ctx (ok (uid, none)) s =
      (ok (record { uid = uid; allowed = true; patch = none }), s)
  handler depth sv ctx (ok (uid, some pod)) s =
      let (r, s') =
        mutate_pod depth sv ctx (record { uid = uid; allowed = true; patch = none }) pod s in
      elim r [
        | ok resp ↦ (ok resp, s')
        | err x ↦ (ok (record { uid = uid; allowed = false; patch = none }), s')
        | panic ↦ (panic, s')
      ]
  handler depth sv ctx (err x) s = (ok (record { uid = ""; allowed = false; patch = none }), s)
  handler depth sv ctx panic s = (panic, s)
