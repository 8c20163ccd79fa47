-- ===== src/Cli/Validation.antt =====
-- sk-cli/src/validation: the checks of a trace file, and what they find.
pub mod Counts
pub mod Status
pub mod Codes
pub mod Cmd
use simkube.Common.{
  ℕ, zero, suc, ◌+◌, ◌≡◌, refl, Bool, true, false, not, Option, none, some, List, [], ◌∷◌, ◌++◌,
  map, String, Outcome, ok, err, panic, message, ◌>>=◌, string_eq, length, unwrap_or, ok_or,
  is_some, if◌then◌else◌,
}
use simkube.Common.BTreeMap
use simkube.Common.Decimal.{padded}
use simkube.Common.Int.{ℤ}
use simkube.Common.Map
use simkube.Common.Map.{Map}
use simkube.Common.Text.{append, replace}
use simkube.Core.Json.{Value, object, is_null, get_field}
use simkube.Core.Kube.{DynamicObject}
use simkube.Store.Event.{TraceEvent}
use simkube.Store.Export.{Codec, import}
use simkube.Store.Iterator.{iter, drain}
use simkube.Store.TraceStore.{TraceStore}

pub record AnnotatedTraceEvent : Type 0 where
  pub data_ : TraceEvent
  pub annotations : List (ℕ × String)

pub record AnnotatedTrace : Type 0 where
  pub base : TraceStore
  pub path : String
  pub events : List AnnotatedTraceEvent
  pub summary : Map String ℕ

abbrev pub not_annotated : TraceEvent → AnnotatedTraceEvent
not_annotated evt = record { data_ = evt; annotations = [] }

-- `trace_data` is what the object store gives for the path.
unfoldable pub new : ⦃c : Codec⦄ → String → Outcome c.Bytes → ℤ → Outcome AnnotatedTrace
new path trace_data now = do
  bytes ← trace_data
  base ← import bytes none now
  ok (record {
    base = base;
    path = path;
    events =
        map (λ item. not_annotated item.0) (drain (suc (length base.events)) (iter base.events));
    summary = [];
  })

pub data ValidatorType : Type 0 where
  warning error : ValidatorType

abbrev pub show_type : ValidatorType → String
show_type warning = "W"
show_type error = "E"

-- `dyn Diagnostic`: a check may keep a state, and change the event that it is shown.
pub record Diagnostic : Type 1 where
  pub State : Type 0
  pub check_next_event :
      State → AnnotatedTraceEvent → Outcome (List ℕ × State × AnnotatedTraceEvent)
  pub reset : State → State

pub record Validator : Type 1 where
  pub type_ : ValidatorType
  pub name : String
  pub help : String
  pub diagnostic : Diagnostic
  pub state : diagnostic.State

abbrev pub ValidationStore : Type 1
ValidationStore = Map String Validator

abbrev reset : Validator → Validator
reset v = record v { state = v.diagnostic.reset v.state }

abbrev pub reset_all : ValidationStore → ValidationStore
reset_all [] = []
reset_all ((code, v) ∷ vs) = (code, reset v) ∷ reset_all vs

abbrev pub add_count : Map String ℕ → String → ℕ → Map String ℕ
add_count summary code n = BTreeMap.insert summary code (unwrap_or (Map.get summary code) 0 + n)

abbrev pub annotate : AnnotatedTraceEvent → List (ℕ × String) → AnnotatedTraceEvent
annotate evt affected = record evt { annotations = evt.annotations ++ affected }

abbrev pub with_code : String → List ℕ → List (ℕ × String)
with_code code is = map (λ i. (i, code)) is

abbrev pub Checked : Type 1
Checked = ValidationStore × AnnotatedTraceEvent × Map String ℕ

-- The inner loop, over the validators.
unfoldable pub check_event : ValidationStore → AnnotatedTraceEvent → Map String ℕ → Outcome Checked
check_event [] evt summary = ok ([], evt, summary)
check_event ((code, v) ∷ vs) evt summary = v.diagnostic.check_next_event v.state evt >>= λ found.
    let affected_indices = with_code code (found.0) in
    check_event vs (annotate (found.2) affected_indices)
      (add_count summary code (length affected_indices))
    >>= λ rest. ok ((code, record v { state = found.1 }) ∷ rest.0, rest.1, rest.2)

unfoldable pub check_events :
    ValidationStore
    → List AnnotatedTraceEvent
    → Map String ℕ
    → Outcome (ValidationStore × List AnnotatedTraceEvent × Map String ℕ)
check_events vs [] summary = ok (vs, [], summary)
check_events vs (evt ∷ events) summary = check_event vs evt summary >>= λ checked.
    check_events (checked.0) events (checked.2) >>= λ rest. ok (rest.0, checked.1 ∷ rest.1, rest.2)

unfoldable pub validate_trace :
    ValidationStore → AnnotatedTrace → Outcome (ValidationStore × AnnotatedTrace)
unfolding check_events
validate_trace vs trace = check_events (reset_all vs) trace.events trace.summary >>= λ r.
    ok (r.0, record trace { events = r.1; summary = r.2 })

unfoldable pub lookup : ValidationStore → String → Outcome Validator
lookup vs code = ok_or (Map.get vs code) (message "code not found")

abbrev pub code_of : ValidationStore → Validator → String
code_of vs v = append (show_type v.type_) (padded 4 (length vs))

unfoldable pub register : ValidationStore → Validator → ValidationStore
register vs v = BTreeMap.insert vs (code_of vs v) v

-- The lines that are printed: the name, the code and the count.
unfoldable pub print_summary : ValidationStore → Map String ℕ → Outcome (List (String × String × ℕ))
unfolding lookup
print_summary vs [] = ok []
print_summary vs ((code, count) ∷ summary) =
    let rest = print_summary vs summary in
    do v ← lookup vs code; lines ← rest; ok ((v.name, code, count) ∷ lines)

-- status_field_populated.rs
abbrev pub is_some_and {ℓ} : {A : Type ℓ} → (A → Bool) → Option A → Bool
is_some_and p none = false
is_some_and p (some a) = p a

-- Content that is not a map is a panic.
abbrev pub status_populated : Value → Outcome Bool
status_populated (object fs) = ok (is_some_and (λ v. not (is_null v)) (get_field fs "status"))
status_populated _ = panic

unfoldable pub populated_from : ℕ → List DynamicObject → Outcome (List ℕ)
populated_from i [] = ok []
populated_from i (obj ∷ objs) =
    let rest = populated_from (suc i) objs in
    do found ← status_populated obj.content; is ← rest; ok (if found then i ∷ is else is)

unfoldable pub check_status :
    Unit {0} → AnnotatedTraceEvent → Outcome (List ℕ × Unit {0} × AnnotatedTraceEvent)
check_status s evt = populated_from 0 evt.data_.applied_objs >>= λ is. ok (is, s, evt)

abbrev pub status_field_populated : Diagnostic
status_field_populated = record { State = Unit; check_next_event = check_status; reset = λ s. s }

abbrev help_text : String
help_text =
    "Indicates that the status field of a Kubernetes object in\nthe trace is non-empty; status fields are updated by their controlling objects\nand shouldn't be applied \"by hand\".  This is probably \"fine\" but it would be\nbetter to clean them up (and also they take up a lot of space."

abbrev pub validator : Validator
validator = record {
  type_ = warning;
  name = "status_field_populated";
  help = help_text;
  diagnostic = status_field_populated;
  state = tt;
}

unfoldable pub default : ValidationStore
unfolding register
default = register [] validator

-- What `help` makes of a text: its lines in one.
abbrev help_of : Validator → String
help_of v = replace 10 " " v.help

print_list : ValidationStore → List String
print_list [] = []
print_list ((code, v) ∷ vs) =
    append code (append " (" (append v.name (append "): " (help_of v)))) ∷ print_list vs

table_rows : ValidationStore → List String
table_rows [] = []
table_rows ((code, v) ∷ vs) =
    append "| "
      (append code (append " | " (append v.name (append " | " (append (help_of v) " |")))))
    ∷ table_rows vs

pub data PrintFormat : Type 0 where
  json list table yaml : PrintFormat

-- `encode` writes a store as JSON or YAML, on one line here.
unfoldable pub print :
    (PrintFormat → ValidationStore → Outcome String)
    → PrintFormat
    → ValidationStore
    → Outcome (List String)
unfolding print_list table_rows
print encode json vs = encode json vs >>= λ text. ok (text ∷ [])
print encode list vs = ok (print_list vs)
print encode table vs = ok ("| code | name | description |" ∷ "|---|---|---|" ∷ table_rows vs)
print encode yaml vs = encode yaml vs >>= λ text. ok (text ∷ [])

-- The name and code, a rule below them, and the help.
unfoldable pub explain : ValidationStore → String → Outcome (List String)
unfolding lookup
explain vs code = lookup vs code >>= λ v. ok (
    append v.name (append " (" (append code ")"))
    ∷ "================================================================================"
    ∷ v.help
    ∷ [])
