-- ===== src/Cli/Xray/Loop/Ends.antt =====
-- The loop of the viewer runs without a panic, and ends when it is told to.
use simkube.Common.{ℕ, ◌≡◌, Bool, false, Option, List, ok, length}
use simkube.Cli.Validation.{AnnotatedTrace}
use simkube.Cli.Xray.App.{Mode, App, Lists, Message, quit, update, Event, handle_event}
use simkube.Cli.Xray.View.{Screen}
use simkube.Cli.Xray.View.Areas.{Selected, IsRoomy, state}
use simkube.Cli.Xray.Loop.{Turn}

-- A turn in which the terminal has room, shows the drawing and gives an event.
abbrev pub IsGood : Screen → AnnotatedTrace → Turn → Type 0
IsGood s trace t =
    IsRoomy s (length trace.events) t.area × (t.drawn ≡ ok tt) × (e : Event) × (t.event ≡ ok e)

-- The event of a turn asks to quit.
abbrev pub IsQuit : Turn → Type 0
IsQuit t = (e : Event) × (t.event ≡ ok e) × (handle_event e ≡ quit)

abbrev stays : Bool → Message → Bool
stays running quit = false
stays running _ = running

-- What a message makes of a state: one that can be drawn again, and is stopped by `quit` alone.
abbrev Updated :
    AnnotatedTrace → Lists → Message → Bool → Mode → Option ℕ → Option ℕ → Option ℕ → Type 0
Updated trace l msg running mode evt obj line =
    (mode' : Mode) × (evt' : Option ℕ) × (obj' : Option ℕ) × (line' : Option ℕ) × (update l
        (state trace running mode evt obj line) msg
      ≡ state trace (stays running msg) mode' evt' obj' line')
    × Selected (length trace.events) mode' evt' obj'
