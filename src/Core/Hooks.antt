-- ===== src/Core/Hooks.antt =====
-- sk-core/src/hooks.rs: the commands that a simulation has run at its stages.
use simkube.Common.{
  Bool, false, Option, none, some, List, [], ◌∷◌, String, Outcome, ok, err, message, ◌>>=◌,
  unwrap_or, if◌then◌else◌,
}

pub record SimulationHook : Type 0 where
  pub cmd : String
  pub args : List String
  pub ignore_failure : Option Bool
  pub send_sim : Option Bool

pub record SimulationHooksConfig : Type 0 where
  pub pre_start_hooks : Option (List SimulationHook)
  pub pre_run_hooks : Option (List SimulationHook)
  pub post_run_hooks : Option (List SimulationHook)
  pub post_stop_hooks : Option (List SimulationHook)

pub data HookType : Type 0 where
  pre_start pre_run post_run post_stop : HookType

-- Running a command, with what it is sent: an error to start or feed it, or whether it succeeds.
abbrev pub Shell : Type 0
Shell = SimulationHook → Outcome Bool

unfoldable pub hooks_of : SimulationHooksConfig → HookType → Option (List SimulationHook)
hooks_of c pre_start = c.pre_start_hooks
hooks_of c pre_run = c.pre_run_hooks
hooks_of c post_run = c.post_run_hooks
hooks_of c post_stop = c.post_stop_hooks

unfoldable pub run_hooks : Shell → List SimulationHook → Outcome (Unit {0})
run_hooks shell [] = ok tt
run_hooks shell (hook ∷ hooks) =
    let rest = run_hooks shell hooks in
    shell hook >>= λ success.
    if unwrap_or hook.ignore_failure false
    then rest
    else if success
    then rest
    else err (message "hook failed")

unfoldable pub execute : Shell → Option SimulationHooksConfig → HookType → Outcome (Unit {0})
unfolding hooks_of run_hooks
execute shell none type_ = ok tt
execute shell (some config) type_ = run_hooks shell (unwrap_or (hooks_of config type_) [])
