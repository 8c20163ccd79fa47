-- ===== src/Cli/Xray/App.antt =====
-- sk-cli/src/xray/app.rs, update.rs and event.rs: the state of the viewer and what keys do to it.
use simkube.Common.{
  ℕ, suc, ◌≡◌, Bool, true, false, Option, none, some, ◌==◌, nat_eq, leb, if◌then◌else◌,
}
use simkube.Cli.Validation.{AnnotatedTrace}

pub data Mode : Type 0 where
  root_view event_selected object_selected : Mode

-- The state of a list is the item that is selected. The store of validators, which is never read, is
-- left out.
pub record App : Type 0 where
  pub running : Bool
  pub mode : Mode
  pub trace : AnnotatedTrace
  pub event_list_state : Option ℕ
  pub object_list_state : Option ℕ
  pub object_contents_list_state : Option ℕ

unfoldable pub new : AnnotatedTrace → App
new trace = record {
  running = true;
  mode = root_view;
  trace = trace;
  event_list_state = some 0;
  object_list_state = none;
  object_contents_list_state = none;
}

pub record Rect : Type 0 where
  pub x : ℕ
  pub y : ℕ
  pub width : ℕ
  pub height : ℕ

-- The selection in a list (`ListState` of the terminal library), and how a list is drawn: in an area
-- with room, a selection past the end of a list that is not empty is put on its last item.
pub record Lists : Type 0 where
  pub select_next : Option ℕ → Option ℕ
  pub select_previous : Option ℕ → Option ℕ
  pub has_room : Rect → Bool
  pub render : Rect → ℕ → Option ℕ → Option ℕ
  pub select_next_some : (s : Option ℕ) → (i : ℕ) × (select_next s ≡ some i)
  pub select_previous_some : (s : Option ℕ) → (i : ℕ) × (select_previous s ≡ some i)
  pub render_clamps :
      (area : Rect) (n i : ℕ)
      → has_room area ≡ true
      → render area (suc n) (some i) ≡ some (if leb i n then i else n)

pub data Message : Type 0 where
  deselect down quit select unknown up : Message

unfoldable pub update : Lists → App → Message → App
update l app deselect = elim app.mode [
  | object_selected ↦ record app { mode = event_selected; object_contents_list_state = none }
  | event_selected ↦ record app { mode = root_view }
  | root_view ↦ app
]
update l app down = elim app.mode [
  | object_selected ↦ record app {
    object_contents_list_state = l.select_next app.object_contents_list_state;
  }
  | event_selected ↦ record app { object_list_state = l.select_next app.object_list_state }
  | root_view ↦ record app { event_list_state = l.select_next app.event_list_state }
]
update l app quit = record app { running = false }
update l app select = elim app.mode [
  | event_selected ↦ record app { mode = object_selected; object_contents_list_state = some 0 }
  | root_view ↦ record app { mode = event_selected; object_list_state = some 0 }
  | object_selected ↦ app
]
update l app unknown = app
update l app up = elim app.mode [
  | object_selected ↦ record app {
    object_contents_list_state = l.select_previous app.object_contents_list_state;
  }
  | event_selected ↦ record app { object_list_state = l.select_previous app.object_list_state }
  | root_view ↦ record app { event_list_state = l.select_previous app.event_list_state }
]

pub data KeyCode : Type 0 where
  char : ℕ → KeyCode
  down_arrow up_arrow esc other : KeyCode

pub data KeyEventKind : Type 0 where
  press repeat release : KeyEventKind

pub data Event : Type 0 where
  key : KeyCode → KeyEventKind → Event
  not_key : Event

message_of : KeyCode → Message
message_of (char c) =
    if c == b' '
    then select
    else if c == b'j'
    then down
    else if c == b'k'
    then up
    else if c == b'q'
    then quit
    else unknown
message_of down_arrow = down
message_of up_arrow = up
message_of esc = deselect
message_of other = unknown

unfoldable pub handle_event : Event → Message
unfolding message_of
handle_event (key code press) = message_of code
handle_event (key code repeat) = unknown
handle_event (key code release) = unknown
handle_event not_key = unknown
