-- ===== src/Cli/Xray/View.antt =====
-- sk-cli/src/xray/view.rs: the drawing of the viewer.
pub mod Areas
pub mod Safe
pub mod Empty
use simkube.Common.{
  ℕ, zero, suc, ◌+◌, ◌-◌, ◌*◌, ◌/◌, ◌%◌, ◌≡◌, refl, Bool, true, false, ◌||◌, Option, none, some,
  List, [], ◌∷◌, ◌++◌, map, String, Outcome, ok, err, panic, ◌>>=◌, length, unwrap, unwrap_or,
  get_elem?, is_empty, ltb, leb, if◌then◌else◌,
}
use simkube.Common.Decimal.{padded}
use simkube.Common.Int.{ℤ, pos, ◌-ℤ◌}
use simkube.Common.Text.{append, split}
use simkube.Core.Kube.{DynamicObject, Naming}
use simkube.Core.Util.{namespaced_name}
use simkube.Cli.Validation.{AnnotatedTraceEvent, AnnotatedTrace}
use simkube.Cli.Xray.Duration.{format_duration}
use simkube.Store.TraceStore.{start_ts}
use simkube.Cli.Xray.App.{Mode, root_view, event_selected, object_selected, App, Rect, Lists}

-- Layouts, the durations that can be made of seconds, and the printing of objects.
pub record Screen : Type 0 where
  pub lists : Lists
  pub top : Rect → Rect
  pub halves : Rect → Rect × Rect
  pub inner : Rect → Rect
  pub nested : Rect → ℕ → ℕ → Rect × Rect × Rect
  pub is_duration : ℤ → Bool
  pub to_string_pretty : DynamicObject → Outcome String

-- What a drawing shows: the events up to the selected one, its objects, the other events, and the lines
-- of an object.
pub record Drawn : Type 0 where
  pub part_one : List String
  pub sublist : List String
  pub part_two : List String
  pub contents : Option (List String)

-- The event that is selected, and how many events the first part of the list has.
selection : App → Outcome (ℕ × Option AnnotatedTraceEvent)
selection app =
    let sel_event = unwrap app.event_list_state >>= λ sel_index.
    unwrap (get_elem? app.trace.events sel_index) >>= λ evt. ok (sel_index + 1, some evt) in
    elim app.mode [ root_view ↦ ok (length app.trace.events, none) | _ ↦ sel_event ]

describe : ℤ → AnnotatedTraceEvent → String
describe d evt = append (format_duration d) (
    append " (" (
      append (padded 1 (length evt.data_.applied_objs))
        (append " applied/" (append (padded 1 (length evt.data_.deleted_objs)) " deleted)"))))

abbrev pub Parts : Type 0
Parts = List String × List String

-- The loop over the events; `TimeDelta::new(…).unwrap()` is a panic for what is no duration.
pub root_items : (ℤ → Bool) → ℤ → ℕ → ℕ → List AnnotatedTraceEvent → Outcome Parts
unfolding describe
root_items is_duration start n i [] = ok ([], [])
root_items is_duration start n i (evt ∷ events) =
    let d = evt.data_.ts -ℤ start in
    let rest = root_items is_duration start n (suc i) events >>= λ parts. ok (
      if ltb i n
      then (describe d evt ∷ parts.0, parts.1)
      else (parts.0, describe d evt ∷ parts.1)) in
    if is_duration d then rest else panic

-- `len() as u16`
abbrev pub u16 : ℕ → ℕ
u16 k = k % 65536

abbrev or_blank : List String → List String
or_blank [] = "" ∷ []
or_blank (item ∷ items) = item ∷ items

module _ ⦃n : Naming⦄ where
  object_line : String → DynamicObject → String
  object_line op obj = append "  " (append op (append " " (namespaced_name obj.metadata)))

  pub sublist_items : Option AnnotatedTraceEvent → List String
  unfolding object_line
  sublist_items none = []
  sublist_items (some evt) =
      or_blank (
        map (object_line "+") evt.data_.applied_objs
        ++ map (object_line "-") evt.data_.deleted_objs)

  -- The two lists are drawn in areas of their length.
  abbrev shown_lists : Screen → App → Rect → Parts → List String → App × Drawn
  shown_lists s app layout parts items =
      let area = s.nested layout (u16 (length parts.0)) (u16 (length items)) in
      (
        record app {
          event_list_state = s.lists.render (area.0) (length parts.0) app.event_list_state;
          object_list_state = s.lists.render (area.1) (length items) app.object_list_state;
        },
        record { part_one = parts.0; sublist = items; part_two = parts.1; contents = none },
      )

  unfoldable pub render_event_list : Screen → App → Rect → Outcome (App × Drawn)
  unfolding selection root_items sublist_items
  render_event_list s app layout = do
    let start = unwrap_or (start_ts app.trace.base) (pos 0)
    sel ← selection app
    parts ← root_items s.is_duration start (sel.0) 0 app.trace.events
    ok (shown_lists s app layout parts (sublist_items (sel.1)))

-- Indexing, with a panic out of range.
abbrev index : List DynamicObject → ℕ → Outcome (Option DynamicObject)
index objs i = unwrap (get_elem? objs i) >>= λ obj. ok (some obj)

-- The object at a place among the applied and then the deleted ones; `none` is the early return.
unfoldable pub object_at : AnnotatedTraceEvent → ℕ → Outcome (Option DynamicObject)
object_at evt obj_idx =
    let applied_len = length evt.data_.applied_objs in
    let deleted_len = length evt.data_.deleted_objs in
    if leb applied_len obj_idx
    then (if ltb deleted_len (obj_idx - applied_len)
        then ok none
        else index evt.data_.deleted_objs (obj_idx - applied_len))
    else index evt.data_.applied_objs obj_idx

abbrev unwrap_text : Outcome String → Outcome String
unwrap_text (ok t) = ok t
unwrap_text _ = panic

show_object : Screen → App → Rect → Drawn → Option DynamicObject → Outcome (App × Drawn)
show_object s app layout d none = ok (app, d)
show_object s app layout d (some obj) = do
  obj_str ← unwrap_text (s.to_string_pretty obj)
  let contents = split 10 obj_str
  ok (
    record app {
      object_contents_list_state =
          s.lists.render layout (length contents) app.object_contents_list_state;
    },
    record d { contents = some contents },
  )

unfoldable pub render_object : Screen → App → Rect → Drawn → Outcome (App × Drawn)
unfolding object_at show_object
render_object s app layout d = do
  evt_idx ← unwrap app.event_list_state
  obj_idx ← unwrap app.object_list_state
  evt ← unwrap (get_elem? app.trace.events evt_idx)
  obj ← object_at evt obj_idx
  show_object s app layout d obj

-- The popup over a narrow screen.
abbrev popup : Rect → Rect
popup top = record {
  x = top.width / 10;
  y = top.height / 10;
  width = 4 * top.width / 5;
  height = 4 * top.height / 5;
}

view_wide : ⦃n : Naming⦄ → Screen → App → Rect → Outcome (App × Drawn)
view_wide s app top = render_event_list s app (s.inner ((s.halves top).0)) >>= λ r.
    let object = render_object s (r.0) (s.inner ((s.halves top).1)) (r.1) in
    elim (r.0).mode [ root_view ↦ ok r | _ ↦ object ]

view_narrow : ⦃n : Naming⦄ → Screen → App → Rect → Outcome (App × Drawn)
view_narrow s app top = render_event_list s app (s.inner top) >>= λ r.
    let object = render_object s (r.0) (s.inner (popup top)) (r.1) in
    elim (r.0).mode [ object_selected ↦ object | _ ↦ ok r ]

unfoldable pub view : ⦃n : Naming⦄ → Screen → App → Rect → Outcome (App × Drawn)
unfolding view_wide view_narrow
view s app area =
    if ltb 120 (s.top area).width
    then view_wide s app (s.top area)
    else view_narrow s app (s.top area)
