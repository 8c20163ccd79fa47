-- ===== src/Driver/Process/Stages.antt =====
-- The stages of a run of the driver.
use simkube.Common.{
  ◌≡◌, sym, ap, Bool, true, false, List, [], ◌∷◌, String, Outcome, ok, err, message, ◌>>>◌,
  seq-eq-ok, if◌then◌else◌, arith,
}
use simkube.Core.Hooks.{pre_run, post_run, execute}
use simkube.Core.Simulation.{Simulation}
use simkube.Core.Storage
use simkube.Core.Storage.{Backend, SkObjectStore, driver}
use simkube.Driver.Main.{Options}
use simkube.Driver.Process.{Stage, hooks, trace, Process, run, run_hooks_of, select}
use simkube.Store.Export.{Codec, import}
use simkube.Store.TraceStore.{TraceStore}

module _ ⦃c : Codec⦄ ⦃b : Backend⦄ (env : Process) (opts : Options) where
  -- The trace that the driver runs: it was read from the place of the options and cut to the duration
  -- of the simulation.
  abbrev pub IsReplayed : Simulation → TraceStore → Type 0
  IsReplayed sim store =
      (object_store : SkObjectStore) × (data_ : c.Bytes) × (env.get_sim opts.sim_name ≡ ok sim)
      × (Storage.new driver opts.trace_path ≡ ok object_store)
      × (env.fetch object_store ≡ ok data_)
      × (import data_ sim.spec.duration env.now ≡ ok store)

  selected :
      (ends : Bool) (x : Outcome (Unit {0}))
      → (if ends then err (message "server terminated") else x) ≡ ok tt
      → x ≡ ok tt
  selected true x e = absurd (ground arith)
  selected false x e = e

  -- What is left to do after the import.
  after_import : String → Simulation → TraceStore → Outcome (Unit {0}) × List Stage
  after_import name sim store = run_hooks_of env sim pre_run [] >>> λ u log.
      select env name store log >>> λ u log. run_hooks_of env sim post_run log

  after_import-stages :
      (name : String) (sim : Simulation) (store : TraceStore) (log : List Stage)
      → after_import name sim store ≡ (ok tt, log)
      → (execute env.shell sim.spec.hooks pre_run ≡ ok tt)
        × (env.run_trace name store ≡ ok tt)
        × (execute env.shell sim.spec.hooks post_run ≡ ok tt)
        × (log ≡ hooks pre_run ∷ trace store ∷ hooks post_run ∷ [])
  unfolding after_import run_hooks_of select
  after_import-stages name sim store log e =
      let (_, before, e1) = seq-eq-ok (execute env.shell sim.spec.hooks pre_run) _ _ e in
      let ended =
        if env.server_ends then err (message "server terminated") else env.run_trace name store in
      let (_, ran, e2) = seq-eq-ok ended _ _ e1 in
      (
        before,
        selected env.server_ends (env.run_trace name store) ran,
        ap (λ p. p.0) e2,
        sym (ap (λ p. p.1) e2),
      )

  -- A run of the driver that succeeds has run the hooks of the simulation for its start, the imported trace
  -- to its end, and then the hooks for its end, each with success.
  pub run-stages :
      (log : List Stage)
      → run env opts [] ≡ (ok tt, log)
      → (name : String) × (sim : Simulation) × (store : TraceStore) × (env.name ≡ ok name)
        × IsReplayed sim store
        × (execute env.shell sim.spec.hooks pre_run ≡ ok tt)
        × (env.run_trace name store ≡ ok tt)
        × (execute env.shell sim.spec.hooks post_run ≡ ok tt)
        × (log ≡ hooks pre_run ∷ trace store ∷ hooks post_run ∷ [])
  unfolding run after_import
  run-stages log e =
      let (name, n, e1) = seq-eq-ok env.name _ _ e in
      let (sim, s, e2) = seq-eq-ok (env.get_sim opts.sim_name) _ _ e1 in
      let (object_store, o, e3) = seq-eq-ok (Storage.new driver opts.trace_path) _ _ e2 in
      let (data_, d, e4) = seq-eq-ok (env.fetch object_store) _ _ e3 in
      let (store, i, e5) = seq-eq-ok (import data_ sim.spec.duration env.now) _ _ e4 in
      let (before, ran, behind, stages) = after_import-stages name sim store log e5 in
      (name, sim, store, n, (object_store, data_, s, o, d, i), before, ran, behind, stages)
