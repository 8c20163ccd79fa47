-- ===== src/Store/TraceStore/Sorted.antt =====
-- The order of events in the trace, by their timestamps.
use simkube.Common.{ℕ, ◌≡◌, refl, false, Option, List, [], ◌∷◌, String, arith, string_eq}
use simkube.Common.Int.{ℤ, int_eq, beq_ℤ_iff, ◌≤ℤ◌, ◌<ℤ◌}
use simkube.Common.Map
use simkube.Common.Map.{Map, keys}
use simkube.Core.Util.{build_deletable}
use simkube.Core.Hash.{Hasher}
use simkube.Core.Kube.{DynamicObject, Naming}
use simkube.Store.Event.{TraceEvent, TraceAction, object_applied, object_deleted}
use simkube.Store.TraceStore.{
  TraceStore, append_to, append_event, create_or_update_obj, delete_obj, update_listed,
  delete_missing, update_all_objs, name_of,
}
use simkube.Store.TraceStore.Replay.{deleted_at}

-- Timestamps grow strictly.
abbrev pub IsSorted : List TraceEvent → Type 0
IsSorted [] = Unit
IsSorted (evt ∷ []) = Unit
IsSorted (evt ∷ next ∷ events) = (evt.ts <ℤ next.ts) × IsSorted (next ∷ events)

-- The last event is not later than this time.
abbrev pub EndsBy : List TraceEvent → ℤ → Type 0
EndsBy [] ts = Unit
EndsBy (evt ∷ []) ts = evt.ts ≤ℤ ts
EndsBy (evt ∷ next ∷ events) ts = EndsBy (next ∷ events) ts

abbrev pub EndsBefore : List TraceEvent → ℤ → Type 0
EndsBefore [] ts = Unit
EndsBefore (evt ∷ []) ts = evt.ts <ℤ ts
EndsBefore (evt ∷ next ∷ events) ts = EndsBefore (next ∷ events) ts

-- Appending at a time that is not before the last event keeps the order, and ends at that time.
pub append_to-IsSorted :
    (events : List TraceEvent) (ts : ℤ) (obj : DynamicObject) (action : TraceAction)
    → IsSorted events
    → EndsBy events ts
    → IsSorted (append_to events ts obj action) × EndsBy (append_to events ts obj action) ts
unfolding append_to
append_to-IsSorted [] ts obj object_applied s e = (tt, omega arith)
append_to-IsSorted [] ts obj object_deleted s e = (tt, omega arith)
append_to-IsSorted (evt ∷ []) ts obj object_applied s e = ground (arith, beq_ℤ_iff evt.ts ts)
append_to-IsSorted (evt ∷ []) ts obj object_deleted s e = ground (arith, beq_ℤ_iff evt.ts ts)
append_to-IsSorted (evt ∷ next ∷ []) ts obj object_applied s e =
    ground (arith, beq_ℤ_iff next.ts ts)
append_to-IsSorted (evt ∷ next ∷ []) ts obj object_deleted s e =
    ground (arith, beq_ℤ_iff next.ts ts)
append_to-IsSorted (evt ∷ next ∷ third ∷ events) ts obj action s e =
    let rest = append_to-IsSorted (next ∷ third ∷ events) ts obj action s.1 e in
    ((s.0, rest.0), rest.1)

-- No object was deleted at a time later than the last event.
pub EndsBefore→not-deleted_at :
    ⦃h : Hasher⦄ ⦃n : Naming⦄ (events : List TraceEvent) (ts : ℤ) (k : String)
    → EndsBefore events ts
    → deleted_at events ts k ≡ false
unfolding deleted_at
EndsBefore→not-deleted_at [] ts k e = refl
EndsBefore→not-deleted_at (evt ∷ []) ts k e = ground (arith, beq_ℤ_iff evt.ts ts)
EndsBefore→not-deleted_at (evt ∷ next ∷ events) ts k e =
    EndsBefore→not-deleted_at (next ∷ events) ts k e

pub EndsBefore→EndsBy :
    (events : List TraceEvent) (ts : ℤ) → EndsBefore events ts → EndsBy events ts
EndsBefore→EndsBy [] ts e = tt
EndsBefore→EndsBy (evt ∷ []) ts e = omega arith
EndsBefore→EndsBy (evt ∷ next ∷ events) ts e = EndsBefore→EndsBy (next ∷ events) ts e

pub EndsBy→EndsBefore :
    (events : List TraceEvent) (ts ts' : ℤ) → EndsBy events ts → ts <ℤ ts' → EndsBefore events ts'
EndsBy→EndsBefore [] ts ts' e h = tt
EndsBy→EndsBefore (evt ∷ []) ts ts' e h = omega arith
EndsBy→EndsBefore (evt ∷ next ∷ events) ts ts' e h = EndsBy→EndsBefore (next ∷ events) ts ts' e h

-- Sorted events that end by a time.
abbrev pub SortedBy : List TraceEvent → ℤ → Type 0
SortedBy events ts = IsSorted events × EndsBy events ts

module _ ⦃h : Hasher⦄ ⦃n : Naming⦄ where
  pub create-SortedBy :
      (s : TraceStore) (obj : DynamicObject) (ts : ℤ) (o : Option ℕ)
      → SortedBy s.events ts
      → SortedBy (create_or_update_obj s obj ts o).events ts
  unfolding create_or_update_obj append_event
  create-SortedBy s obj ts o e =
      ground (arith, append_to-IsSorted s.events ts obj object_applied e.0 e.1)

  pub delete-SortedBy :
      (s : TraceStore) (obj : DynamicObject) (ts : ℤ)
      → SortedBy s.events ts
      → SortedBy (delete_obj s obj ts).events ts
  unfolding delete_obj append_event
  delete-SortedBy s obj ts e = append_to-IsSorted s.events ts obj object_deleted e.0 e.1

  listed-SortedBy :
      (objs : List DynamicObject) (s : TraceStore) (old : Map String ℕ) (ts : ℤ)
      → SortedBy s.events ts
      → SortedBy (update_listed s old objs ts).0.events ts
  unfolding update_listed
  listed-SortedBy [] s old ts e = e
  listed-SortedBy (obj ∷ objs) s old ts e =
      listed-SortedBy objs (create_or_update_obj s obj ts (Map.get old (name_of obj)))
        (Map.remove old (name_of obj)) ts (create-SortedBy s obj ts _ e)

  missing-SortedBy :
      (names : List String) (s : TraceStore) (ts : ℤ)
      → SortedBy s.events ts
      → SortedBy (delete_missing s names ts).events ts
  unfolding delete_missing
  missing-SortedBy [] s ts e = e
  missing-SortedBy (x ∷ names) s ts e =
      missing-SortedBy names (delete_obj s (build_deletable x) ts) ts
        (delete-SortedBy s (build_deletable x) ts e)

  pub update_all_objs-SortedBy :
      (s : TraceStore) (objs : List DynamicObject) (ts : ℤ)
      → SortedBy s.events ts
      → SortedBy (update_all_objs s objs ts).events ts
  unfolding update_all_objs
  update_all_objs-SortedBy s objs ts e =
      missing-SortedBy _ _ ts (listed-SortedBy objs (record s { index = [] }) s.index ts e)
