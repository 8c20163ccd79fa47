-- ===== src/Tests/Cli.antt =====
-- Runs of the command line's checks and viewer.
use simkube.Common.{
  ℕ, zero, suc, ◌+◌, ◌≡◌, refl, sym, ap, true, Option, none, some, List, [], ◌∷◌, String, Outcome,
  ok, bind-eq-ok, ok_injective, nat_eq, string_eq, leb, if◌then◌else◌,
}
use simkube.Common.BTreeMap
use simkube.Common.Decimal.{padded}
use simkube.Common.Int.{pos}
use simkube.Common.Map
use simkube.Core.Json.{get_field, string, object, end, field}
use simkube.Core.Kube.{DynamicObject}
use simkube.Cli.Validation.{
  AnnotatedTraceEvent, AnnotatedTrace, ValidationStore, not_annotated, validator, validate_trace,
  PrintFormat, check_event, check_events, check_status, populated_from,
}
use simkube.Cli.Validation.Cmd.{ObjectEvents, summary, cmd, check, all_with_status, cmd-check}
use simkube.Cli.Validation.Counts.{Keeps, count_of, annotated, validate_trace-counts}
use simkube.Cli.Xray.App.{App, Rect, Lists, key, char, KeyCode, down_arrow, press}
use simkube.Cli.Xray.Duration.{format_duration}
use simkube.Cli.Xray.Loop.{Turn}
use simkube.Cli.Xray.View.{Screen}
use simkube.Store.Config.{default_config}
use simkube.Store.Event.{TraceEvent}
use simkube.Store.Export.{Exported, import, limit_events}
use simkube.Store.PodOwnersMap.{new_from_parts}
use simkube.Store.TraceStore.{TraceStore}
use simkube.Fixtures.{test_naming, test_codec, test_object}

shows_days : format_duration (pos 93784) ≡ "1d 02:03:04"
unfolding format_duration padded
shows_days = refl

abbrev a : DynamicObject
a = test_object "a"

-- An object with a status.
abbrev b : DynamicObject
b = record a { content = object (field "status" (string "ready") end) }

abbrev two_events : List TraceEvent
two_events =
    record { ts = pos 1; applied_objs = a ∷ b ∷ []; deleted_objs = [] }
    ∷ record { ts = pos 4; applied_objs = []; deleted_objs = a ∷ [] }
    ∷ []

abbrev bytes : Exported
bytes = record { config = default_config; events = two_events; index = []; lifecycle_data = [] }

abbrev base : TraceStore
base = record {
  config = default_config;
  events = two_events;
  pod_owners = new_from_parts [] [];
  index = [];
}

reads : import bytes none (pos 9) ≡ ok base
unfolding import limit_events
reads = refl

abbrev encode : PrintFormat → ValidationStore → Outcome String
encode format vs = ok "{}"

two_events-ObjectEvents : ObjectEvents two_events
two_events-ObjectEvents =
    (((end, refl), ((field "status" (string "ready") end, refl), tt)), (tt, tt))

cmd-check_example :
    cmd (λ path. ok bytes) encode (pos 9) (check "trace")
    ≡ ok (summary (("status_field_populated", "W0000", all_with_status two_events) ∷ []))
cmd-check_example =
    cmd-check (λ path. ok bytes) encode (pos 9) "trace" bytes base refl reads
      two_events-ObjectEvents

abbrev trace : AnnotatedTrace
trace = record {
  base = base;
  path = "trace";
  events =
      not_annotated (record { ts = pos 1; applied_objs = a ∷ b ∷ []; deleted_objs = [] })
      ∷ not_annotated (record { ts = pos 4; applied_objs = []; deleted_objs = a ∷ [] })
      ∷ [];
  summary = [];
}

abbrev only : ValidationStore
only = ("W0000", validator) ∷ []

check_status-Keeps : Keeps validator
unfolding check_status
check_status-Keeps s evt r e =
    let (is, _, last) = bind-eq-ok (populated_from 0 evt.data_.applied_objs) _ e in
    ap (λ (q : List ℕ × Unit {0} × AnnotatedTraceEvent). (q.2).annotations)
      (sym (ok_injective _ r last))

abbrev checked : AnnotatedTrace
checked = record trace {
  events =
      record (not_annotated (record { ts = pos 1; applied_objs = a ∷ b ∷ []; deleted_objs = [] })) {
        annotations = (1, "W0000") ∷ [];
      }
      ∷ not_annotated (record { ts = pos 4; applied_objs = []; deleted_objs = a ∷ [] })
      ∷ [];
  summary = ("W0000", 1) ∷ [];
}

checks : validate_trace only trace ≡ ok (only, checked)
unfolding validate_trace check_events check_event check_status populated_from get_field
    BTreeMap.insert Map.get
checks = refl

validate_trace-counts_example :
    count_of (("W0000", 1) ∷ []) "W0000" + annotated "W0000" trace.events
    ≡ count_of [] "W0000" + annotated "W0000" checked.events
validate_trace-counts_example =
    validate_trace-counts only trace (only, checked) (check_status-Keeps, tt) checks "W0000"

-- A terminal with room everywhere.
abbrev succ : Option ℕ → Option ℕ
succ none = some 0
succ (some i) = some (suc i)

abbrev pred : Option ℕ → Option ℕ
pred none = some 0
pred (some zero) = some 0
pred (some (suc i)) = some i

abbrev clamp : ℕ → Option ℕ → Option ℕ
clamp zero s = none
clamp (suc n) none = none
clamp (suc n) (some i) = some (if leb i n then i else n)

succ-some : (s : Option ℕ) → (i : ℕ) × (succ s ≡ some i)
succ-some none = (0, refl)
succ-some (some i) = (suc i, refl)

pred-some : (s : Option ℕ) → (i : ℕ) × (pred s ≡ some i)
pred-some none = (0, refl)
pred-some (some zero) = (0, refl)
pred-some (some (suc i)) = (i, refl)

abbrev lists : Lists
lists = record {
  select_next = succ;
  select_previous = pred;
  has_room = λ area. true;
  render = λ area n s. clamp n s;
  select_next_some = succ-some;
  select_previous_some = pred-some;
  render_clamps = λ area n i room. refl;
}

abbrev screen : Screen
screen = record {
  lists = lists;
  top = λ area. area;
  halves = λ area. (area, area);
  inner = λ area. area;
  nested = λ area a b. (area, area, area);
  is_duration = λ d. true;
  to_string_pretty = λ obj. ok "{}";
}

abbrev area : Rect
area = record { x = 0; y = 0; width = 200; height = 50 }

abbrev press_key : KeyCode → Turn
press_key code = record { area = area; drawn = ok tt; event = ok (key code press) }

abbrev keys : List Turn
keys = press_key down_arrow ∷ press_key (char b' ') ∷ press_key (char b' ') ∷ []

abbrev nothing : AnnotatedTraceEvent
nothing = not_annotated (record { ts = pos 1; applied_objs = []; deleted_objs = [] })

abbrev empty_trace : AnnotatedTrace
empty_trace = record trace { events = nothing ∷ [] }
