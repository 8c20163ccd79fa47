-- ===== src/Cli/Validation/Status.antt =====
-- The check for objects with a status.
use simkube.Common.{
  ℕ, suc, ◌≡◌, ◌↔◌, ◌⊎◌, inl, inr, refl, ap, Bool, true, false, not, Option, none, some, List, [],
  ◌∷◌, ◌++◌, String, ok, ◌∙◌, ok_injective, Member, length, arith, if◌then◌else◌,
}
use simkube.Common.BTreeMap
use simkube.Common.Decimal.{padded}
use simkube.Common.Map.{Map}
use simkube.Core.Json.{
  Value, null, boolean, number, string, array, object, is_null, get_field, Fields,
}
use simkube.Core.Kube.{DynamicObject}
use simkube.Cli.Validation.{
  with_code, annotate, add_count, default, AnnotatedTraceEvent, AnnotatedTrace, ValidationStore,
  is_some_and, status_populated, populated_from, check_status, validator, check_event, check_events,
  validate_trace,
}

-- The content of an object is a map.
abbrev pub IsObject : DynamicObject → Type 0
IsObject obj = (fs : Fields) × (obj.content ≡ object fs)

abbrev pub AllObjects : List DynamicObject → Type 0
AllObjects [] = Unit
AllObjects (obj ∷ objs) = IsObject obj × AllObjects objs

-- The object has a status that is not null.
abbrev pub HasStatus : DynamicObject → Type 0
HasStatus obj =
    (fs : Fields) × (v : Value) × (obj.content ≡ object fs)
    × (get_field fs "status" ≡ some v)
    × (is_null v ≡ false)

-- The object at a place, counted from another, has a status.
abbrev pub StatusAt : ℕ → List DynamicObject → ℕ → Type 0
StatusAt start [] i = ⊥
StatusAt start (obj ∷ objs) i = ((i ≡ start) × HasStatus obj) ⊎ StatusAt (suc start) objs i

some-not_null :
    (o : Option Value)
    → is_some_and (λ v. not (is_null v)) o ≡ true
    → (v : Value) × (o ≡ some v) × (is_null v ≡ false)
some-not_null none e = absurd (ground arith)
some-not_null (some v) e = (v, refl, ground arith)

populated-HasStatus :
    (obj : DynamicObject) (content : Value)
    → obj.content ≡ content
    → status_populated content ≡ ok true
    → HasStatus obj
populated-HasStatus obj (object fs) c e =
    let (v, field, there) = some-not_null (get_field fs "status") (ok_injective _ _ e) in
    (fs, v, c, field, there)
populated-HasStatus obj null c e = absurd (ground arith)
populated-HasStatus obj (boolean b) c e = absurd (ground arith)
populated-HasStatus obj (number n) c e = absurd (ground arith)
populated-HasStatus obj (string t) c e = absurd (ground arith)
populated-HasStatus obj (array xs) c e = absurd (ground arith)

HasStatus-populated : (obj : DynamicObject) → HasStatus obj → status_populated obj.content ≡ ok true
HasStatus-populated obj (fs, v, content, field, there) =
    rw content
      (ap (λ o. ok (is_some_and (λ v. not (is_null v)) o)) field ∙ ap (λ b. ok (not b)) there)

pub IsObject-decided :
    (obj : DynamicObject) → IsObject obj → (b : Bool) × (status_populated obj.content ≡ ok b)
IsObject-decided obj (fs, e) =
    (is_some_and (λ v. not (is_null v)) (get_field fs "status"), rw e refl)

-- The places that are found are those of the objects with a status, and nothing fails.
populated_from-StatusAt :
    (start : ℕ) (objs : List DynamicObject)
    → AllObjects objs
    → (is : List ℕ) × (populated_from start objs ≡ ok is)
      × ((i : ℕ) → Member i is ↔ StatusAt start objs i)
unfolding populated_from
populated_from-StatusAt start [] h = ([], refl, λ i. (λ m. m, λ m. m))
populated_from-StatusAt start (obj ∷ objs) h =
    let (b, e) = IsObject-decided obj h.0 in
    let (is, rest, same) = populated_from-StatusAt (suc start) objs h.1 in
    (
      if b then start ∷ is else is,
      rw (e, rest) refl,
      λ i. (here b e is i (same i).0, there b e is i (same i).1),
    )
  where
    here :
        (b : Bool)
        → status_populated obj.content ≡ ok b
        → (is : List ℕ) (i : ℕ) → (Member i is → StatusAt (suc start) objs i)
        → Member i (if b then start ∷ is else is)
        → StatusAt start (obj ∷ objs) i
    here true e is i f (inl p) = inl (p, populated-HasStatus obj obj.content refl e)
    here true e is i f (inr m) = inr (f m)
    here false e is i f m = inr (f m)

    there :
        (b : Bool)
        → status_populated obj.content ≡ ok b
        → (is : List ℕ) (i : ℕ) → (StatusAt (suc start) objs i → Member i is)
        → StatusAt start (obj ∷ objs) i
        → Member i (if b then start ∷ is else is)
    there true e is i f (inl p) = inl p.0
    there true e is i f (inr m) = inr (f m)
    there false e is i f (inl p) = absurd (ground (arith, HasStatus-populated obj p.1, e))
    there false e is i f (inr m) = f m

abbrev pub AllObjectEvents : List AnnotatedTraceEvent → Type 0
AllObjectEvents [] = Unit
AllObjectEvents (evt ∷ events) = AllObjects evt.data_.applied_objs × AllObjectEvents events

-- An event that was checked: the same, with the objects that have a status marked.
abbrev pub IsMarked : AnnotatedTraceEvent → AnnotatedTraceEvent → Type 0
IsMarked before after =
    (after.data_ ≡ before.data_)
    × (is : List ℕ) × (after.annotations ≡ before.annotations ++ with_code "W0000" is)
    × ((i : ℕ) → Member i is ↔ StatusAt 0 before.data_.applied_objs i)

abbrev pub AllMarked : List AnnotatedTraceEvent → List AnnotatedTraceEvent → Type 0
AllMarked [] [] = Unit
AllMarked (a ∷ before) (b ∷ after) = IsMarked a b × AllMarked before after
AllMarked _ _ = ⊥

abbrev pub only : ValidationStore
only = ("W0000", validator) ∷ []

pub default-only : default ≡ only
unfolding default padded BTreeMap.insert
default-only = refl

check_event-marks :
    (evt : AnnotatedTraceEvent) (summary : Map String ℕ)
    → AllObjects evt.data_.applied_objs
    → (after : AnnotatedTraceEvent) × (summary' : Map String ℕ) × (check_event only evt summary
        ≡ ok (only, after, summary'))
      × IsMarked evt after
unfolding check_event check_status
check_event-marks evt summary h =
    let (is, found, same) = populated_from-StatusAt 0 evt.data_.applied_objs h in
    (
      annotate evt (with_code "W0000" is),
      add_count summary "W0000" (length (with_code "W0000" is)),
      rw found refl,
      (refl, is, refl, same),
    )

check_events-marks :
    (events : List AnnotatedTraceEvent) (summary : Map String ℕ)
    → AllObjectEvents events
    → (after : List AnnotatedTraceEvent) × (summary' : Map String ℕ) × (check_events only events
          summary
        ≡ ok (only, after, summary'))
      × AllMarked events after
unfolding check_events
check_events-marks [] summary h = ([], summary, refl, tt)
check_events-marks (evt ∷ events) summary h =
    let (after, summary', first, marked) = check_event-marks evt summary h.0 in
    let (rest, summary'', tail, more) = check_events-marks events summary' h.1 in
    (after ∷ rest, summary'', rw (first, tail) refl, (marked, more))

-- The tool's own checks go through a trace whose applied objects are maps without failing, and mark
-- in each event, with the code W0000, exactly the places of applied objects with a status that is not
-- null; the rest of the trace stays.
pub validate_trace-default :
    (trace : AnnotatedTrace)
    → AllObjectEvents trace.events
    → (after : List AnnotatedTraceEvent) × (summary : Map String ℕ) × (validate_trace default trace
        ≡ ok (default, record trace { events = after; summary = summary }))
      × AllMarked trace.events after
unfolding validate_trace check_status check_events-marks
validate_trace-default trace h =
    let (after, summary, e, marked) = check_events-marks trace.events trace.summary h in
    (after, summary, rw (default-only, validate_trace, e) refl, marked)
