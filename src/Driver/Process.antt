-- ===== src/Driver/Process.antt =====
-- sk-driver/src/main.rs: the run of the driver, from its options to the end of its trace.
pub mod Stages
use simkube.Common.{
  ℕ, ◌≡◌, Bool, true, false, Option, none, some, List, [], ◌∷◌, ◌++◌, String, Outcome, ok, err,
  panic, message, ◌>>>◌, if◌then◌else◌,
}
use simkube.Common.Int.{ℤ}
use simkube.Core.Hooks.{HookType, pre_run, post_run, Shell, execute}
use simkube.Core.Simulation.{Simulation}
use simkube.Core.Storage
use simkube.Core.Storage.{Backend, SkObjectStore, driver}
use simkube.Driver.Main.{Options}
use simkube.Store.Export.{Codec, import}
use simkube.Store.TraceStore.{TraceStore}

-- What the driver does, in order: the hooks of a type, or running a trace.
pub data Stage : Type 0 where
  hooks : HookType → Stage
  trace : TraceStore → Stage

-- What is around the driver: the variable with its name, the simulation of a name, what a store holds, the
-- commands of the hooks, and whether the webhook's server ends before the run of the trace does.
pub record Process ⦃c : Codec⦄ ⦃b : Backend⦄ : Type 0 where
  pub name : Outcome String
  pub get_sim : String → Outcome Simulation
  pub fetch : SkObjectStore → Outcome c.Bytes
  pub shell : Shell
  pub server_ends : Bool
  pub run_trace : String → TraceStore → Outcome (Unit {0})
  pub now : ℤ

module _ ⦃c : Codec⦄ ⦃b : Backend⦄ where
  run_hooks_of : Process → Simulation → HookType → List Stage → Outcome (Unit {0}) × List Stage
  run_hooks_of env sim type_ log = (execute env.shell sim.spec.hooks type_, log ++ hooks type_ ∷ [])

  -- `tokio::select!` between the server and the run of the trace.
  select : Process → String → TraceStore → List Stage → Outcome (Unit {0}) × List Stage
  select env name store log =
      let ran = env.run_trace name store in
      (if env.server_ends then err (message "server terminated") else ran, log ++ trace store ∷ [])

  unfoldable pub run : Process → Options → List Stage → Outcome (Unit {0}) × List Stage
  unfolding run_hooks_of select
  run env opts log = (env.name, log) >>> λ name log. (env.get_sim opts.sim_name, log) >>> λ sim log.
      (Storage.new driver opts.trace_path, log) >>> λ object_store log.
      (env.fetch object_store, log) >>> λ trace_data log.
      (import trace_data sim.spec.duration env.now, log) >>> λ store log.
      run_hooks_of env sim pre_run log >>> λ u log.
      select env name store log >>> λ u log. run_hooks_of env sim post_run log
