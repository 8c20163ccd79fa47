-- ===== src/Store/Export/Import.antt =====
-- What is read back of an exported trace.
use simkube.Common.{
  ℕ, ◌≡◌, refl, ap, sym, ◌∙◌, inl, inr, Bool, true, false, none, some, List, [], ◌∷◌, ◌++◌, String,
  ok, ◌>>=◌, arith, string_eq, All, filter, Bool-cases, last?, last?-append,
}
use simkube.Common.Int.{ℤ, ltb_ℤ, leb_ℤ, ◌≤ℤ◌}
use simkube.Common.Map.{Map}
use simkube.Core.Hash.{Hasher}
use simkube.Core.Kube.{Naming}
use simkube.Store.Event.{TraceEvent, ExportFilters}
use simkube.Store.PodOwnersMap.{new_from_parts, filter_owners}
use simkube.Store.TraceStore.{TraceStore}
use simkube.Store.TraceStore.Sorted.{IsSorted}
use simkube.Store.TraceStore.Replay.{live_from, is_live}
use simkube.Store.Export.{
  Codec, Exported, collect_events, export, import, limit_events, first_ts, blank_event,
}
use simkube.Store.Export.Window.{upto, Untouched, collect_events-is_live}

module _ ⦃c : Codec⦄ ⦃h : Hasher⦄ ⦃n : Naming⦄ where
  abbrev exported_by : TraceStore → ℤ → ℤ → List TraceEvent → Map String ℕ → Exported
  exported_by s start end events index = record {
    config = s.config;
    events = events;
    index = index;
    lifecycle_data = filter_owners s.pod_owners start end index;
  }

  export-bytes :
      (s : TraceStore) (start end : ℤ) (f : ExportFilters) (bytes : c.Bytes)
      (events : List TraceEvent) (index : Map String ℕ)
      → collect_events s start end f true ≡ ok (events, index)
      → export s start end f ≡ ok bytes
      → c.to_vec (exported_by s start end events index) ≡ ok bytes
  unfolding export
  export-bytes s start end f bytes events index e x =
      sym (ap (λ o. o >>= λ (evts, i). c.to_vec (exported_by s start end evts i)) e) ∙ x

  -- A trace that was exported for a window is imported without error, with the same configuration,
  -- and with an event at the start of the window. Its replay leaves live what the replay of the
  -- original up to the end of the window does, and it has the lifecycles that the export selects.
  -- The timestamps of the original grow strictly, and the filters exclude nothing of it.
  pub import-export :
      (s : TraceStore) (start end now : ℤ) (f : ExportFilters) (bytes : c.Bytes)
      → IsSorted s.events
      → All (Untouched f) s.events
      → export s start end f ≡ ok bytes
      → (t : TraceStore) × (import bytes none now ≡ ok t)
        × (t.config ≡ s.config)
        × (first_ts t.events now ≡ start)
        × (t.pod_owners ≡ new_from_parts (filter_owners s.pod_owners start end t.index) [])
        × ((k : String) → is_live t.events k ≡ is_live (upto end s.events) k)
  unfolding import limit_events
  import-export s start end now f bytes sorted u x =
      let (first, events, index, e, at_start, lives) =
        collect_events-is_live s start end f true sorted u in
      let back : c.from_slice bytes ≡ ok (exported_by s start end (first ∷ events) index) =
        c.from_slice-to_vec _ bytes (export-bytes s start end f bytes (first ∷ events) index e x) in
      (
        record {
          config = s.config;
          events = first ∷ events;
          pod_owners = new_from_parts (filter_owners s.pod_owners start end index) [];
          index = index;
        },
        rw back refl,
        refl,
        at_start,
        refl,
        lives,
      )

abbrev before : ℤ → List TraceEvent → List TraceEvent
before end events = filter (λ evt. ltb_ℤ evt.ts end) events

before-none :
    (end : ℤ) (events : List TraceEvent) (evt : TraceEvent)
    → end ≤ℤ evt.ts
    → IsSorted (evt ∷ events)
    → before end events ≡ []
before-none end [] evt l s = refl
before-none end (e ∷ events) evt l s =
    let late : ltb_ℤ e.ts end ≡ false = ground (arith, s.0) in
    rw late (before-none end events e (omega (arith, s.0)) s.1)

before-upto :
    (end : ℤ) (events : List TraceEvent) → IsSorted events → before end events ≡ upto end events
before-upto end [] s = refl
before-upto end (evt ∷ []) s = ground arith
before-upto end (evt ∷ e ∷ events) s = elim (Bool-cases (leb_ℤ end evt.ts)) [
  | inl over ↦
      let late : ltb_ℤ evt.ts end ≡ false = ground arith in
      rw (over, late) (before-none end (e ∷ events) evt (ground arith) s)
  | inr on ↦
      let early : ltb_ℤ evt.ts end ≡ true = ground arith in
      rw (on, early) (ap (λ es. evt ∷ es) (before-upto end (e ∷ events) s.1))
]

IsSorted-end :
    (end : ℤ) (events : List TraceEvent)
    → IsSorted events
    → IsSorted (upto end events ++ blank_event end ∷ [])
IsSorted-end end [] s = tt
IsSorted-end end (evt ∷ []) s = ground arith
IsSorted-end end (evt ∷ e ∷ events) s = ground (arith, IsSorted-end end (e ∷ events) s.1)

live-end :
    ⦃h : Hasher⦄ ⦃n : Naming⦄ (events : List TraceEvent) (live : Bool) (end : ℤ) (k : String)
    → live_from live (events ++ blank_event end ∷ []) k ≡ live_from live events k
unfolding live_from
live-end [] live end k = ground arith
live-end (evt ∷ events) live end k = live-end events _ end k

-- A trace that is cut short at the end of its duration ends with an event at that time. Its
-- timestamps grow strictly as before, and its replay leaves live what the replay of the events up
-- to that time does.
pub limit_events-is_live :
    ⦃c : Codec⦄ ⦃h : Hasher⦄ ⦃n : Naming⦄ (events : List TraceEvent) (duration : String)
    (now end : ℤ)
    → IsSorted events
    → c.duration_to_ts_from (first_ts events now) duration ≡ ok end
    → (limited : List TraceEvent) × (limit_events events (some duration) now ≡ ok limited)
      × IsSorted limited
      × (last? limited ≡ some (blank_event end))
      × ((k : String) → is_live limited k ≡ is_live (upto end events) k)
unfolding limit_events
limit_events-is_live events duration now end s e = (
  upto end events ++ blank_event end ∷ [],
  rw (e, before-upto end events s) refl,
  IsSorted-end end events s,
  last?-append (upto end events) (blank_event end),
  λ k. live-end (upto end events) false end k,
)
