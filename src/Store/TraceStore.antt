-- ===== src/Store/TraceStore.antt =====
-- sk-store/src/trace_store.rs: the in-memory trace and its operations.
pub mod Replay
pub mod Sorted
pub mod Refresh
use simkube.Common.{
  ℕ, zero, suc, ◌+◌, ◌-◌, ◌%◌, ◌≡◌, refl, Bool, true, false, not, ◌&&◌, Option, none, some, List,
  [], ◌∷◌, ◌++◌, map, String, Outcome, ok, err, panic, message, unwrap, ◌>>=◌, ◌==◌, string_eq,
  nat_eq, option_beq, or_else, head?, last?, length, get_elem?, filter, nat_beq, ltb, if◌then◌else◌,
}
use simkube.Common.Int.{ℤ, int_eq, ltb_ℤ, leb_ℤ}
use simkube.Common.Text.{append}
use simkube.Common.Map
use simkube.Common.Map.{Map, keys}
use simkube.Core.Json
use simkube.Core.Json.{Value}
use simkube.Core.Hash.{Hasher, hash, hash_option}
use simkube.Core.Kube.{DynamicObject, Pod, PodSpec, OwnerReference, Naming}
use simkube.Core.Util.{namespaced_name, build_deletable}
use simkube.Core.PodExt.{stable_spec}
use simkube.Core.Gvk.{from_owner_ref}
use simkube.Core.Lifecycle.{PodLifecycleData, empty}
use simkube.Store.Config.{TracerConfig, default_config, track_lifecycle_for}
use simkube.Store.Event.{
  TraceAction, object_applied, object_deleted, TraceEvent, ExportFilters, filter_event,
}
use simkube.Store.PodOwnersMap.{
  PodLifecyclesMap, PodOwnersMap, default_owners, new_from_parts, has_pod, lifecycle_data_for,
  store_new_pod_lifecycle, update_pod_lifecycle, filter_owners,
}

pub record TraceStore : Type 0 where
  pub config : TracerConfig
  pub events : List TraceEvent
  pub pod_owners : PodOwnersMap
  pub index : Map String ℕ

unfoldable pub new : TracerConfig → TraceStore
new config = record { config = config; events = []; pod_owners = default_owners; index = [] }

abbrev add_to : TraceEvent → DynamicObject → TraceAction → TraceEvent
add_to evt obj object_applied = record evt { applied_objs = evt.applied_objs ++ obj ∷ [] }
add_to evt obj object_deleted = record evt { deleted_objs = evt.deleted_objs ++ obj ∷ [] }

abbrev event_of : ℤ → DynamicObject → TraceAction → TraceEvent
event_of ts obj object_applied = record { ts = ts; applied_objs = obj ∷ []; deleted_objs = [] }
event_of ts obj object_deleted = record { ts = ts; applied_objs = []; deleted_objs = obj ∷ [] }

-- The match on `back_mut()`: the last event takes the object if it has the same timestamp.
unfoldable pub append_to : List TraceEvent → ℤ → DynamicObject → TraceAction → List TraceEvent
append_to [] ts obj action = event_of ts obj action ∷ []
append_to (evt ∷ []) ts obj action =
    if evt.ts == ts then add_to evt obj action ∷ [] else evt ∷ event_of ts obj action ∷ []
append_to (evt ∷ next ∷ events) ts obj action = evt ∷ append_to (next ∷ events) ts obj action

unfoldable pub append_event : TraceStore → ℤ → DynamicObject → TraceAction → TraceStore
append_event s ts obj action = record s { events = append_to s.events ts obj action }

-- `obj.data.get("spec")`, hashed.
abbrev pub spec_hash : ⦃h : Hasher⦄ → DynamicObject → ℕ
spec_hash obj = hash_option (Json.get obj.content "spec")

module _ ⦃h : Hasher⦄ ⦃n : Naming⦄ where
  abbrev pub name_of : DynamicObject → String
  name_of obj = namespaced_name obj.metadata

  unfoldable pub create_or_update_obj : TraceStore → DynamicObject → ℤ → Option ℕ → TraceStore
  create_or_update_obj s obj ts maybe_old_hash =
      let old_hash = or_else maybe_old_hash (Map.get s.index (name_of obj)) in
      let t =
        if option_beq (some (spec_hash obj)) old_hash
        then s
        else append_event s ts obj object_applied in
      record t { index = Map.insert t.index (name_of obj) (spec_hash obj) }

  unfoldable pub delete_obj : TraceStore → DynamicObject → ℤ → TraceStore
  delete_obj s obj ts =
      let t = append_event s ts obj object_deleted in
      record t { index = Map.remove t.index (name_of obj) }

  -- The first loop of `update_all_objs`: each listed object leaves the old index.
  unfoldable pub update_listed :
      TraceStore → Map String ℕ → List DynamicObject → ℤ → TraceStore × Map String ℕ
  update_listed s old_index [] ts = (s, old_index)
  update_listed s old_index (obj ∷ objs) ts =
      update_listed (create_or_update_obj s obj ts (Map.get old_index (name_of obj)))
        (Map.remove old_index (name_of obj)) objs ts

  -- The second loop: what is left in the old index was deleted.
  unfoldable pub delete_missing : TraceStore → List String → ℤ → TraceStore
  delete_missing s [] ts = s
  delete_missing s (ns_name ∷ names) ts =
      delete_missing (delete_obj s (build_deletable ns_name) ts) names ts

  unfoldable pub update_all_objs : TraceStore → List DynamicObject → ℤ → TraceStore
  update_all_objs s objs ts =
      let (t, old_index) = update_listed (record s { index = [] }) s.index objs ts in
      delete_missing t (keys old_index) ts

unfoldable pub lookup_pod_lifecycle : TraceStore → String → ℕ → ℕ → Outcome PodLifecycleData
lookup_pod_lifecycle s owner pod_hash seq = elim (lifecycle_data_for s.pod_owners owner pod_hash) [
  | some lifecycles ↦ unwrap (get_elem? lifecycles (seq % length lifecycles))
  | none ↦ ok empty
]

-- `serde_json::to_value` of a pod spec.
pub record SpecEncoder : Type 0 where
  pub to_value : PodSpec → Outcome Value

module _ ⦃h : Hasher⦄ ⦃e : SpecEncoder⦄ where
  unfoldable pub pod_hash : Pod → Outcome ℕ
  pod_hash pod = do spec ← stable_spec pod; value ← e.to_value spec; ok (hash value)

  -- The loop over the owners: the first that is tracked gets the pod.
  unfoldable pub record_for_owner :
      TraceStore → String → Pod → List OwnerReference → PodLifecycleData → Outcome TraceStore
  record_for_owner s ns_name pod [] lifecycle = ok s
  record_for_owner s ns_name pod (rf ∷ owners) lifecycle =
      let rest = record_for_owner s ns_name pod owners lifecycle in
      do
        ns ← unwrap pod.metadata.namespace
        let owner_ns_name = append ns (append "/" rf.name)
        if not (Map.contains_key s.index owner_ns_name) then rest else do
          gvk ← from_owner_ref rf
          if not (track_lifecycle_for s.config gvk) then rest else do
            hash ← pod_hash pod
            ok (record s {
              pod_owners =
                  store_new_pod_lifecycle s.pod_owners ns_name owner_ns_name hash lifecycle;
            })

  unfoldable pub record_pod_lifecycle :
      TraceStore → String → Option Pod → List OwnerReference → PodLifecycleData → Outcome TraceStore
  record_pod_lifecycle s ns_name maybe_pod owners lifecycle =
      if has_pod s.pod_owners ns_name
      then (do
        pod_owners ← update_pod_lifecycle s.pod_owners ns_name lifecycle
        ok (record s { pod_owners = pod_owners }))
      else elim maybe_pod [
        | some pod ↦ record_for_owner s ns_name pod owners lifecycle
        | none ↦ err (message "no pod ownership data found, cannot store")
      ]

unfoldable pub has_obj : TraceStore → String → Bool
has_obj s ns_name = Map.contains_key s.index ns_name

unfoldable pub start_ts : TraceStore → Option ℤ
start_ts s = elim (head? s.events) [ none ↦ none | some evt ↦ some evt.ts ]

unfoldable pub end_ts : TraceStore → Option ℤ
end_ts s = elim (last? s.events) [ none ↦ none | some evt ↦ some evt.ts ]
