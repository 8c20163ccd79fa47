-- ===== src/Cli/Validation/Counts.antt =====
-- What the summary of a checked trace counts.
use simkube.Common.{
  ℕ, suc, ◌+◌, ◌≡◌, refl, ap, List, [], ◌∷◌, ◌++◌, String, ok, bind-eq-ok, ok_injective, ◌==◌,
  string_eq, length, unwrap_or, arith, if◌then◌else◌,
}
use mathlib.Core.Path.{subst}
use text.Mathlib.TextEquality.{eq_iff}
use simkube.Common.BTreeMap.{get-insert}
use simkube.Common.Map
use simkube.Common.Map.{Map}
use simkube.Cli.Validation.{
  with_code, AnnotatedTraceEvent, AnnotatedTrace, Validator, ValidationStore, reset_all, add_count,
  annotate, Checked, check_event, check_events, validate_trace,
}

-- How many annotations of a list, and of all events, have this code.
abbrev pub tagged : String → List (ℕ × String) → ℕ
tagged code [] = 0
tagged code ((i, c) ∷ xs) = (if c == code then 1 else 0) + tagged code xs

abbrev pub annotated : String → List AnnotatedTraceEvent → ℕ
annotated code [] = 0
annotated code (evt ∷ events) = tagged code evt.annotations + annotated code events

abbrev pub count_of : Map String ℕ → String → ℕ
count_of summary code = unwrap_or (Map.get summary code) 0

-- A check that leaves the annotations of the event to the store.
abbrev pub Keeps : Validator → Type 0
Keeps v =
    (s : v.diagnostic.State) (evt : AnnotatedTraceEvent)
    (r : List ℕ × v.diagnostic.State × AnnotatedTraceEvent)
    → v.diagnostic.check_next_event s evt ≡ ok r
    → (r.2).annotations ≡ evt.annotations

abbrev pub AllKeep : ValidationStore → Type 0
AllKeep [] = Unit
AllKeep ((code, v) ∷ vs) = Keeps v × AllKeep vs

tagged-append :
    (code : String) (xs ys : List (ℕ × String))
    → tagged code (xs ++ ys) ≡ tagged code xs + tagged code ys
tagged-append code [] ys = omega arith
tagged-append code ((i, c) ∷ xs) ys = omega (arith, tagged-append code xs ys)

tagged-map :
    (code c : String) (is : List ℕ)
    → tagged code (with_code c is) ≡ (if c == code then length is else 0)
tagged-map code c [] = ground arith
tagged-map code c (i ∷ is) = ground (arith, tagged-map code c is)

-- The length of what is added to a list of annotations is what is added to the summary.
add_count-tagged :
    (code c : String) (summary : Map String ℕ) (xs : List (ℕ × String)) (is : List ℕ)
    → count_of (add_count summary c (length (with_code c is))) code + tagged code xs
      ≡ count_of summary code + tagged code (xs ++ with_code c is)
add_count-tagged code c summary xs is = ground (
  arith,
  eq_iff c code,
  get-insert summary c code (count_of summary c + length (with_code c is)),
  tagged-append code xs (with_code c is),
  tagged-map code c is,
  length-map is,
)
  where
    length-map : (is : List ℕ) → length (with_code c is) ≡ length is
    length-map [] = refl
    length-map (i ∷ is) = ap suc (length-map is)

check_event-counts :
    (vs : ValidationStore) (evt : AnnotatedTraceEvent) (summary : Map String ℕ) (r : Checked)
    → AllKeep vs
    → check_event vs evt summary ≡ ok r
    → AllKeep (r.0)
      × ((code : String)
          → count_of (r.2) code + tagged code evt.annotations
            ≡ count_of summary code + tagged code (r.1).annotations)
unfolding check_event
check_event-counts [] evt summary r keep e =
    let same : r ≡ ([], evt, summary) = ground (arith, e) in rw same (tt, λ code. refl)
check_event-counts ((c, v) ∷ vs) evt summary r keep e =
    let (found, checked, e1) = bind-eq-ok (v.diagnostic.check_next_event v.state evt) _ e in
    let affected = with_code c (found.0) in
    let (rest, tail, last) =
      bind-eq-ok
        (check_event vs (annotate (found.2) affected) (add_count summary c (length affected))) _
        e1 in
    let (kept, counts) =
      check_event-counts vs (annotate (found.2) affected) (add_count summary c (length affected))
        rest (keep.1) tail in
    let same = ok_injective ((c, record v { state = found.1 }) ∷ rest.0, rest.1, rest.2) r last in
    subst (λ (q : Checked). Conclusion q) same
      (
        (keep.0, kept),
        λ code. ground (
          arith,
          counts code,
          add_count-tagged code c summary (found.2).annotations (found.0),
          keep.0 v.state evt found checked,
        ),
      )
  where
    Conclusion : Checked → Type 0
    Conclusion q =
        AllKeep (q.0)
        × ((code : String)
            → count_of (q.2) code + tagged code evt.annotations
              ≡ count_of summary code + tagged code (q.1).annotations)

check_events-counts :
    (vs : ValidationStore) (events : List AnnotatedTraceEvent) (summary : Map String ℕ)
    (r : ValidationStore × List AnnotatedTraceEvent × Map String ℕ)
    → AllKeep vs
    → check_events vs events summary ≡ ok r
    → (code : String)
    → count_of (r.2) code + annotated code events ≡ count_of summary code + annotated code (r.1)
unfolding check_events
check_events-counts vs [] summary r keep e code =
    let same = ok_injective (vs, [], summary) r e in
    subst
      (λ (q : ValidationStore × List AnnotatedTraceEvent × Map String ℕ).
        count_of (q.2) code + 0 ≡ count_of summary code + annotated code (q.1))
      same refl
check_events-counts vs (evt ∷ events) summary r keep e code =
    let (checked, first, e1) = bind-eq-ok (check_event vs evt summary) _ e in
    let (rest, tail, last) = bind-eq-ok (check_events (checked.0) events (checked.2)) _ e1 in
    let (kept, counts) = check_event-counts vs evt summary checked keep first in
    let more = check_events-counts (checked.0) events (checked.2) rest kept tail code in
    let same = ok_injective (rest.0, checked.1 ∷ rest.1, rest.2) r last in
    subst
      (λ (q : ValidationStore × List AnnotatedTraceEvent × Map String ℕ).
        count_of (q.2) code + annotated code (evt ∷ events)
        ≡ count_of summary code + annotated code (q.1))
      same (omega (arith, counts code, more))

reset_all-AllKeep : (vs : ValidationStore) → AllKeep vs → AllKeep (reset_all vs)
reset_all-AllKeep [] keep = tt
reset_all-AllKeep ((code, v) ∷ vs) keep = (keep.0, reset_all-AllKeep vs keep.1)

-- A validation that ends without an error adds to the summary, for every code, as many as it adds annotations with this code to
-- the events of the trace, whatever the checks find, if no check changes annotations itself.
pub validate_trace-counts :
    (vs : ValidationStore) (trace : AnnotatedTrace) (r : ValidationStore × AnnotatedTrace)
    → AllKeep vs
    → validate_trace vs trace ≡ ok r
    → (code : String)
    → count_of (r.1).summary code + annotated code trace.events
      ≡ count_of trace.summary code + annotated code (r.1).events
unfolding validate_trace
validate_trace-counts vs trace r keep e code =
    let (done, checked, last) =
      bind-eq-ok (check_events (reset_all vs) trace.events trace.summary) _ e in
    let same = ok_injective (done.0, record trace { events = done.1; summary = done.2 }) r last in
    subst
      (λ (q : ValidationStore × AnnotatedTrace).
        count_of (q.1).summary code + annotated code trace.events
        ≡ count_of trace.summary code + annotated code (q.1).events)
      same
      (check_events-counts (reset_all vs) trace.events trace.summary done
        (reset_all-AllKeep vs keep) checked code)
