-- ===== src/Cli/Validation/Cmd.antt =====
-- sk-cli/src/validation/mod.rs: the subcommand, from the bytes of a trace to the lines it prints.
use native.Mathlib.Nat.{zero-add}
use simkube.Common.{
  ℕ, suc, ◌+◌, ◌≡◌, refl, sym, ap, ◌∙◌, Bool, true, false, not, ◌||◌, none, List, [], ◌∷◌, map,
  String, Outcome, ok, ◌>>=◌, length, arith, string_eq, is_empty, if◌then◌else◌, ok_injective,
}
use simkube.Common.BTreeMap
use simkube.Common.Map
use simkube.Common.Map.{Map}
use simkube.Common.Int.{ℤ}
use simkube.Core.Json.{Value, null, boolean, number, string, array, object, is_null, get_field}
use simkube.Core.Kube.{DynamicObject}
use simkube.Store.Event.{TraceEvent}
use simkube.Store.Export.{Codec, import}
use simkube.Store.Iterator.{paired, drain-iter}
use simkube.Store.TraceStore.{TraceStore}
use simkube.Cli.Validation
use simkube.Cli.Validation.{
  with_code, annotate, add_count, default, AnnotatedTraceEvent, AnnotatedTrace, not_annotated, new,
  ValidationStore, status_populated, populated_from, check_status, validator, check_event,
  check_events, validate_trace, print_summary, lookup, PrintFormat, is_some_and,
}
use simkube.Cli.Validation.Status.{AllObjects, IsObject-decided, only, default-only}

pub data ValidateSubcommand : Type 0 where
  check : String → ValidateSubcommand
  explain : String → ValidateSubcommand
  print : PrintFormat → ValidateSubcommand

-- What is printed: a summary, or lines.
pub data Printed : Type 0 where
  summary : List (String × String × ℕ) → Printed
  lines : List String → Printed

-- `fetch` reads a path from the object store.
unfoldable pub cmd :
    ⦃c : Codec⦄
    → (String → Outcome c.Bytes)
    → (PrintFormat → ValidationStore → Outcome String)
    → ℤ
    → ValidateSubcommand
    → Outcome Printed
cmd fetch encode now (check path) = new path (fetch path) now >>= λ trace.
    validate_trace default trace >>= λ r.
    print_summary (r.0) (r.1).summary >>= λ counts. ok (summary counts)
cmd fetch encode now (explain code) = Validation.explain default code >>= λ text. ok (lines text)
cmd fetch encode now (print format) =
    Validation.print encode format default >>= λ text. ok (lines text)

-- How many applied objects have a status that is not null.
abbrev pub has_status : Value → Bool
has_status (object fs) = is_some_and (λ v. not (is_null v)) (get_field fs "status")
has_status _ = false

abbrev pub with_status : List DynamicObject → ℕ
with_status [] = 0
with_status (obj ∷ objs) = (if has_status obj.content then 1 else 0) + with_status objs

abbrev pub all_with_status : List TraceEvent → ℕ
all_with_status [] = 0
all_with_status (evt ∷ events) = with_status evt.applied_objs + all_with_status events

decided :
    (obj : DynamicObject) (content : Value) (b : Bool)
    → status_populated content ≡ ok b
    → has_status content ≡ b
decided obj (object fs) b e = ok_injective _ _ e
decided obj null b e = absurd (ground arith)
decided obj (boolean x) b e = absurd (ground arith)
decided obj (number n) b e = absurd (ground arith)
decided obj (string t) b e = absurd (ground arith)
decided obj (array xs) b e = absurd (ground arith)

populated_from-length :
    (start : ℕ) (objs : List DynamicObject)
    → AllObjects objs
    → (is : List ℕ) × (populated_from start objs ≡ ok is) × (length is ≡ with_status objs)
unfolding populated_from
populated_from-length start [] h = ([], refl, refl)
populated_from-length start (obj ∷ objs) h =
    let (b, e) = IsObject-decided obj h.0 in
    let (is, rest, len) = populated_from-length (suc start) objs h.1 in
    (
      if b then start ∷ is else is,
      rw (e, rest) refl,
      counted b is len (decided obj obj.content b e),
    )
  where
    counted :
        (b : Bool) (is : List ℕ)
        → length is ≡ with_status objs
        → has_status obj.content ≡ b
        → length (if b then start ∷ is else is) ≡ with_status (obj ∷ objs)
    counted true is len s = ground arith
    counted false is len s = ground arith

-- The summary, if the loop saw an event, and if it counted so many.
abbrev counted : Bool → ℕ → Map String ℕ
counted false n = []
counted true n = ("W0000", n) ∷ []

add_count-counted :
    (seen : Bool) (n k : ℕ)
    → (seen ≡ false → n ≡ 0)
    → add_count (counted seen n) "W0000" k ≡ counted true (n + k)
unfolding BTreeMap.insert Map.get
add_count-counted false n k h = ap (λ m. ("W0000", m + k) ∷ []) (sym (h refl))
add_count-counted true n k h = refl

length-with_code : (code : String) (is : List ℕ) → length (with_code code is) ≡ length is
length-with_code code [] = refl
length-with_code code (i ∷ is) = ap suc (length-with_code code is)

check_event-counted :
    (evt : TraceEvent) (seen : Bool) (n : ℕ)
    → AllObjects evt.applied_objs
    → (seen ≡ false → n ≡ 0)
    → (after : AnnotatedTraceEvent) × (check_event only (not_annotated evt) (counted seen n)
        ≡ ok (only, after, counted true (n + with_status evt.applied_objs)))
unfolding check_event check_status
check_event-counted evt seen n h z =
    let (is, found, len) = populated_from-length 0 evt.applied_objs h in
    let total =
      add_count-counted seen n (length (with_code "W0000" is)) z
      ∙ ap (λ k. counted true (n + k)) (length-with_code "W0000" is ∙ len) in
    (annotate (not_annotated evt) (with_code "W0000" is), rw (found, total) refl)

abbrev pub ObjectEvents : List TraceEvent → Type 0
ObjectEvents [] = Unit
ObjectEvents (evt ∷ events) = AllObjects evt.applied_objs × ObjectEvents events

counted_seen : (seen : Bool) (n k : ℕ) → n ≡ k → counted true n ≡ counted (seen || true) k
counted_seen true n k e = ap (counted true) e
counted_seen false n k e = ap (counted true) e

check_events-counted :
    (events : List TraceEvent) (seen : Bool) (n : ℕ)
    → ObjectEvents events
    → (seen ≡ false → n ≡ 0)
    → (after : List AnnotatedTraceEvent) × (check_events only
          (map not_annotated events)
          (counted seen n)
        ≡ ok (only, after, counted (seen || not (is_empty events)) (n + all_with_status events)))
unfolding check_events
check_events-counted [] true n h z = ([], ap (λ k. ok (only, [], ("W0000", k) ∷ [])) (omega arith))
check_events-counted [] false n h z = ([], refl)
check_events-counted (evt ∷ events) seen n h z =
    let (after, first) = check_event-counted evt seen n h.0 z in
    let (rest, tail) =
      check_events-counted events true (n + with_status evt.applied_objs) h.1
        (λ e. absurd (ground arith)) in
    (
      after ∷ rest,
      rw (first, tail) (ap (λ m. ok (only, after ∷ rest, m)) (counted_seen seen _ _ (omega arith))),
    )

firsts :
    (events : List TraceEvent)
    → map (λ item. not_annotated (item.0)) (paired events) ≡ map not_annotated events
firsts [] = refl
firsts (evt ∷ []) = refl
firsts (evt ∷ succ ∷ events) = ap (λ t. not_annotated evt ∷ t) (firsts (succ ∷ events))

-- A trace is annotated event by event.
new-annotates :
    ⦃c : Codec⦄ (path : String) (bytes : c.Bytes) (now : ℤ) (base : TraceStore)
    → import bytes none now ≡ ok base
    → new path (ok bytes) now
      ≡ ok (record {
        base = base;
        path = path;
        events = map not_annotated base.events;
        summary = [];
      })
unfolding new
new-annotates path bytes now base e = rw e (
    ap (λ events. ok (record { base = base; path = path; events = events; summary = [] }))
      (ap (map (λ item. not_annotated (item.0)))
          (drain-iter base.events (suc (length base.events)) (omega arith))
        ∙ firsts base.events))

printed :
    (b : Bool) (n : ℕ)
    → print_summary only (counted (not b) n)
      ≡ ok (if b then [] else ("status_field_populated", "W0000", n) ∷ [])
unfolding print_summary Map.get
printed true n = refl
printed false n = refl

-- The check of a trace that can be fetched and read, and whose applied objects are maps, ends without
-- an error and prints for its one rule how many applied objects of the whole trace have a status that
-- is not null; for a trace with no event it prints nothing.
pub cmd-check :
    ⦃c : Codec⦄ (fetch : String → Outcome c.Bytes)
    (encode : PrintFormat → ValidationStore → Outcome String) (now : ℤ) (path : String)
    (bytes : c.Bytes) (base : TraceStore)
    → fetch path ≡ ok bytes
    → import bytes none now ≡ ok base
    → ObjectEvents base.events
    → cmd fetch encode now (check path)
      ≡ ok (
          summary (
            if is_empty base.events
            then []
            else ("status_field_populated", "W0000", all_with_status base.events) ∷ []))
unfolding cmd validate_trace
cmd-check fetch encode now path bytes base fetched imported h =
    let (after, e) = check_events-counted base.events false 0 h (λ _. refl) in
    rw
      (
        fetched,
        new-annotates path bytes now base imported,
        default-only,
        e,
        printed (is_empty base.events) (0 + all_with_status base.events),
        zero-add,
      )
      refl
