-- ===== src/Store/Export.antt =====
-- sk-store/src/trace_store.rs: the events of a window (`collect_events`), export and import.
pub mod Window
pub mod Import
use simkube.Common.{
  ℕ, ◌≡◌, refl, Bool, true, false, Option, none, some, List, [], ◌∷◌, ◌++◌, map, String, Outcome,
  ok, err, panic, ◌>>=◌, string_eq, nat_eq, head?, last?, filter, if◌then◌else◌,
}
use simkube.Common.Int.{ℤ, ltb_ℤ, leb_ℤ}
use simkube.Common.Map
use simkube.Common.Map.{Map}
use simkube.Core.Hash.{Hasher}
use simkube.Core.Kube.{DynamicObject, Naming}
use simkube.Store.Config.{TracerConfig}
use simkube.Store.Event.{TraceEvent, ExportFilters, filter_event}
use simkube.Store.PodOwnersMap.{PodLifecyclesMap, new_from_parts, filter_owners}
use simkube.Store.TraceStore.{TraceStore, spec_hash, name_of}

-- The variables of the loop. The event that the source puts first, and fills at the end, is added
-- at the end here.
pub record Collected : Type 0 where
  pub events : List TraceEvent
  pub flattened_objects : Map String DynamicObject
  pub index : Map String ℕ

abbrev pub nothing_collected : Collected
nothing_collected = record { events = []; flattened_objects = []; index = [] }

abbrev values {ℓ κ} : {K : Type ℓ} {V : Type κ} → Map K V → List V
values m = map (λ e. e.1) m

module _ ⦃h : Hasher⦄ ⦃n : Naming⦄ where
  unfoldable pub apply_objs : Bool → Collected → List DynamicObject → Collected
  apply_objs early c [] = c
  apply_objs early c (obj ∷ objs) =
      apply_objs early
        (record c {
          flattened_objects =
              if early
              then Map.insert c.flattened_objects (name_of obj) obj
              else c.flattened_objects;
          index = Map.insert c.index (name_of obj) (spec_hash obj);
        })
        objs

  unfoldable pub delete_objs : Bool → Bool → Collected → List DynamicObject → Collected
  delete_objs early keep_deleted c [] = c
  delete_objs early keep_deleted c (obj ∷ objs) =
      delete_objs early keep_deleted
        (record c {
          flattened_objects =
              if early then Map.remove c.flattened_objects (name_of obj) else c.flattened_objects;
          index = if keep_deleted then c.index else Map.remove c.index (name_of obj);
        })
        objs

  -- One event: the objects that the filter leaves are applied, and all deleted ones deleted.
  unfoldable pub collect_event : ℤ → Bool → Collected → TraceEvent → Option TraceEvent → Collected
  unfolding apply_objs delete_objs
  collect_event start keep_deleted c evt none = c
  collect_event start keep_deleted c evt (some new_evt) =
      let early = ltb_ℤ new_evt.ts start in
      let d =
        delete_objs early keep_deleted (apply_objs early c new_evt.applied_objs) evt.deleted_objs in
      if leb_ℤ start new_evt.ts then record d { events = d.events ++ new_evt ∷ [] } else d

  -- The loop, which ends at the first event of the window's end or later.
  unfoldable pub collect_loop :
      ℤ → ℤ → ExportFilters → Bool → Collected → List TraceEvent → Outcome Collected
  collect_loop start end f keep_deleted c [] = ok c
  collect_loop start end f keep_deleted c (evt ∷ events) =
      let rest = filter_event evt f >>= λ new_evt.
      collect_loop start end f keep_deleted (collect_event start keep_deleted c evt new_evt)
        events in
      if leb_ℤ end evt.ts then ok c else rest

  unfoldable pub collect_events :
      TraceStore → ℤ → ℤ → ExportFilters → Bool → Outcome (List TraceEvent × Map String ℕ)
  collect_events s start end f keep_deleted = do
    c ← collect_loop start end f keep_deleted nothing_collected s.events
    ok (
      record { ts = start; applied_objs = values c.flattened_objects; deleted_objs = [] }
          ∷ c.events,
      c.index,
    )

-- What a trace file holds.
pub record Exported : Type 0 where
  pub config : TracerConfig
  pub events : List TraceEvent
  pub index : Map String ℕ
  pub lifecycle_data : Map String PodLifecyclesMap

-- MessagePack, by `rmp_serde`, and the parser of durations. What was encoded is decoded.
pub record Codec : Type 1 where
  pub Bytes : Type 0
  pub to_vec : Exported → Outcome Bytes
  pub from_slice : Bytes → Outcome Exported
  pub from_slice-to_vec :
      (x : Exported) (bytes : Bytes) → to_vec x ≡ ok bytes → from_slice bytes ≡ ok x
  pub duration_to_ts_from : ℤ → String → Outcome ℤ

abbrev pub blank_event : ℤ → TraceEvent
blank_event ts = record { ts = ts; applied_objs = []; deleted_objs = [] }

abbrev pub first_ts : List TraceEvent → ℤ → ℤ
first_ts [] now = now
first_ts (evt ∷ events) now = evt.ts

module _ ⦃c : Codec⦄ where
  unfoldable pub export :
      ⦃h : Hasher⦄ ⦃n : Naming⦄ → TraceStore → ℤ → ℤ → ExportFilters → Outcome c.Bytes
  export s start end f = do
    (events, index) ← collect_events s start end f true
    c.to_vec (record {
      config = s.config;
      events = events;
      index = index;
      lifecycle_data = filter_owners s.pod_owners start end index;
    })

  -- The events of a trace that is cut short: those before its end, and an empty one at its end.
  unfoldable pub limit_events : List TraceEvent → Option String → ℤ → Outcome (List TraceEvent)
  limit_events events none now = ok events
  limit_events events (some duration) now = do
    trace_end_ts ← c.duration_to_ts_from (first_ts events now) duration
    ok (filter (λ evt. ltb_ℤ evt.ts trace_end_ts) events ++ blank_event trace_end_ts ∷ [])

  -- `now` is what the clock shows, read only of a trace with no event.
  unfoldable pub import : c.Bytes → Option String → ℤ → Outcome TraceStore
  import bytes maybe_duration now = do
    x ← c.from_slice bytes
    events ← limit_events x.events maybe_duration now
    ok (record {
      config = x.config;
      events = events;
      pod_owners = new_from_parts x.lifecycle_data [];
      index = x.index;
    })
