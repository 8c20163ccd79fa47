-- ===== src/Store/Iterator.antt =====
-- sk-store/src/trace_store.rs: the iterator over the events, each with the time of the next.
use mathlib.Core.List.{append_assoc}
use simkube.Common.{
  ℕ, zero, suc, ◌+◌, ◌-◌, ◌<◌, ◌≡◌, refl, ap, ◌∙◌, false, Option, none, some, List, [], ◌∷◌, ◌++◌,
  arith, length, length-append, get_elem?, is_empty, ltb, nat_beq, if◌then◌else◌,
}
use simkube.Common.Int.{ℤ}
use simkube.Store.Event.{TraceEvent}

pub record TraceIterator : Type 0 where
  pub events : List TraceEvent
  pub idx : ℕ

abbrev pub iter : List TraceEvent → TraceIterator
iter events = record { events = events; idx = 0 }

abbrev Item : Type 0
Item = TraceEvent × Option ℤ

abbrev ts_at : List TraceEvent → ℕ → Option ℤ
ts_at events i = elim (get_elem? events i) [ none ↦ none | some evt ↦ some evt.ts ]

-- The indexings are in range by the tests: a miss would be a panic, and is `none` here.
item_at : List TraceEvent → ℕ → Option Item
item_at events i = elim (get_elem? events i) [
  | none ↦ none
  | some evt ↦ some (evt, ts_at events (i + 1))
]

last_item : List TraceEvent → ℕ → Option Item
last_item events i = elim (get_elem? events i) [ none ↦ none | some evt ↦ some (evt, none) ]

unfoldable pub next : TraceIterator → Option Item × TraceIterator
unfolding item_at last_item
next it = if is_empty it.events then (none, it) else (
  if ltb it.idx (length it.events - 1)
      then item_at it.events it.idx
      else if nat_beq it.idx (length it.events - 1)
      then last_item it.events it.idx
      else none,
  record it { idx = it.idx + 1 },
)

-- A `for` loop over the iterator, with fuel for its turns.
unfoldable pub drain : ℕ → TraceIterator → List Item
drain zero it = []
drain (suc fuel) it =
    let (item, it') = next it in elim item [ none ↦ [] | some x ↦ x ∷ drain fuel it' ]

-- Every event, beside the timestamp of the one behind it.
abbrev pub paired : List TraceEvent → List Item
paired [] = []
paired (evt ∷ []) = (evt, none) ∷ []
paired (evt ∷ succ ∷ events) = (evt, some succ.ts) ∷ paired (succ ∷ events)

at_end :
    {A : Type 0} (pre : List A) (x : A) (rest : List A)
    → get_elem? (pre ++ x ∷ rest) (length pre) ≡ some x
at_end [] x rest = refl
at_end (p ∷ pre) x rest = at_end pre x rest

at_next :
    {A : Type 0} (pre : List A) (x y : A) (rest : List A)
    → get_elem? (pre ++ x ∷ y ∷ rest) (length pre + 1) ≡ some y
at_next [] x y rest = refl
at_next (p ∷ pre) x y rest = ground (arith, at_next pre x y rest)

abbrev from : List TraceEvent → List TraceEvent → TraceIterator
from pre rest = record { events = pre ++ rest; idx = length pre }

nonempty :
    (pre : List TraceEvent) (x : TraceEvent) (rest : List TraceEvent)
    → is_empty (pre ++ x ∷ rest) ≡ false
nonempty [] x rest = refl
nonempty (p ∷ pre) x rest = refl

from-step :
    (pre : List TraceEvent) (x : TraceEvent) (rest : List TraceEvent)
    → (next (from pre (x ∷ rest))).1 ≡ from (pre ++ x ∷ []) rest
unfolding next
from-step pre x rest =
    rw (nonempty pre x rest, append_assoc) (ground (arith, length-append pre (x ∷ [])))

next-end : (pre : List TraceEvent) → (next (from pre [])).0 ≡ none
unfolding next
next-end [] = refl
next-end (p ∷ pre) = ground (arith, length-append pre [])

next-last : (pre : List TraceEvent) (x : TraceEvent) → (next (from pre (x ∷ []))).0 ≡ some (x, none)
unfolding next
next-last pre x = ground (arith, nonempty pre x [], length-append pre (x ∷ []), at_end pre x [])

next-more :
    (pre : List TraceEvent) (x y : TraceEvent) (rest : List TraceEvent)
    → (next (from pre (x ∷ y ∷ rest))).0 ≡ some (x, some y.ts)
unfolding next
next-more pre x y rest = ground (
  arith,
  nonempty pre x (y ∷ rest),
  length-append pre (x ∷ y ∷ rest),
  at_end pre x (y ∷ rest),
  at_next pre x y rest,
)

drain-some :
    (fuel : ℕ) (it : TraceIterator) (item : Item)
    → (next it).0 ≡ some item
    → drain (suc fuel) it ≡ item ∷ drain fuel (next it).1
unfolding drain
drain-some fuel it item e = ground arith

drain-from :
    (rest pre : List TraceEvent) (fuel : ℕ)
    → length rest < fuel
    → drain fuel (from pre rest) ≡ paired rest
unfolding drain
drain-from rest pre zero h = absurd (omega arith)
drain-from [] pre (suc fuel) h = ground (arith, next-end pre)
drain-from (x ∷ []) pre (suc fuel) h =
    drain-some fuel (from pre (x ∷ [])) _ (next-last pre x)
    ∙ ap (λ r. (x, none) ∷ r)
        (ap (drain fuel) (from-step pre x []) ∙ drain-from [] (pre ++ x ∷ []) fuel (omega arith))
drain-from (x ∷ y ∷ rest) pre (suc fuel) h =
    drain-some fuel (from pre (x ∷ y ∷ rest)) _ (next-more pre x y rest)
    ∙ ap (λ r. (x, some y.ts) ∷ r)
        (ap (drain fuel) (from-step pre x (y ∷ rest))
          ∙ drain-from (y ∷ rest) (pre ++ x ∷ []) fuel (omega arith))

-- A loop over the iterator sees every event once and in order, with the timestamp of the next one,
-- and none with the last; one turn more than there are events is enough for it to end.
pub drain-iter :
    (events : List TraceEvent) (fuel : ℕ)
    → length events < fuel
    → drain fuel (iter events) ≡ paired events
drain-iter events fuel h = drain-from events [] fuel h
