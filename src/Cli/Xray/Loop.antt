-- ===== src/Cli/Xray/Loop.antt =====
-- sk-cli/src/xray/mod.rs: the loop that draws, waits for a key and updates.
pub mod Ends
use simkube.Common.{
  ℕ, zero, suc, ◌+◌, ◌-◌, ◌*◌, ◌/◌, ◌%◌, ◌≡◌, refl, Bool, true, false, ◌||◌, Option, none, some,
  List, [], ◌∷◌, ◌++◌, map, String, Outcome, ok, err, panic, ◌>>=◌, length, unwrap, unwrap_or,
  get_elem?, is_empty, ltb, leb, if◌then◌else◌,
}
use simkube.Common.Decimal.{padded}
use simkube.Common.Int.{ℤ, pos, ◌-ℤ◌}
use simkube.Common.Text.{append, split}
use simkube.Core.Kube.{DynamicObject, Naming}
use simkube.Core.Util.{namespaced_name}
use simkube.Cli.Validation.{AnnotatedTraceEvent, AnnotatedTrace}
use simkube.Cli.Xray.Duration.{format_duration}
use simkube.Store.TraceStore.{start_ts}
use simkube.Cli.Xray.App.{App, Rect, Message, Event, update, handle_event}
use simkube.Cli.Xray.View.{Screen, Drawn, view}

-- One turn of the loop: the area of the terminal, whether the drawing reaches it, and the event that is
-- read, or what goes wrong.
pub record Turn : Type 0 where
  pub area : Rect
  pub drawn : Outcome (Unit {0})
  pub event : Outcome Event

-- How far the loop is: it has ended, or waits for the next turn.
pub data Progress : Type 0 where
  ended waiting : App → Progress

unfoldable pub turn : ⦃n : Naming⦄ → Screen → App → Turn → Outcome App
turn s app t = do
  r ← view s app t.area
  shown ← t.drawn
  event ← t.event
  ok (update s.lists (r.0) (handle_event event))

unfoldable pub run_loop : ⦃n : Naming⦄ → Screen → App → List Turn → Outcome Progress
run_loop s app [] = ok (if app.running then waiting app else ended app)
run_loop s app (t ∷ turns) =
    let rest = turn s app t >>= λ app'. run_loop s app' turns in
    if app.running then rest else ok (ended app)
