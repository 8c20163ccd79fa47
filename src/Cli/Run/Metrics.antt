-- ===== src/Cli/Run/Metrics.antt =====
-- What the controller makes of the metrics of a simulation that the command line created.
use simkube.Common.{
  ◌≡◌, refl, sym, ap, ◌∙◌, true, false, Option, none, some, List, [], ◌∷◌, String, Outcome, ok, any,
  ◌==◌, string_eq, bind-eq-ok, ok_injective,
}
use mathlib.Core.Path.{subst}
use simkube.Core.Hooks.{SimulationHooksConfig, execute, pre_start}
use simkube.Core.Kube.{Naming}
use simkube.Core.Simulation.{
  Simulation, SimulationRoot, SimulationMetricsConfig, PrometheusRemoteWrite, metrics_ns,
  initializing, failed, root_owner,
}
use simkube.Core.Util.{build_object_meta}
use simkube.Cli.Run.{
  Args, remote_write, remote_writes, metrics_config, simulation_of, cmd, hooks_of,
}
use simkube.Ctrl.Cluster.{Cluster, Surroundings, patch_status, await_change}
use simkube.Ctrl.Controller.{left, fetch_driver_state, status_of, run_once}
use simkube.Ctrl.Controller.Ends.{run_once-no_metrics_ns}
use simkube.Ctrl.Objects.{Prometheus, build_prometheus, configure_remote_write}
use simkube.Ctrl.Objects.Owned.{prometheus-IsOf}

module _ (read_hooks : String → Outcome (Option SimulationHooksConfig))
    (create : Simulation → Outcome (Unit {0})) (args : Args) (sim : Simulation)
    (made : cmd read_hooks create args ≡ ok sim) where
  created : (hooks : Option SimulationHooksConfig) × (sim ≡ simulation_of args hooks)
  unfolding cmd
  created =
      let (hooks, _, e) = bind-eq-ok (hooks_of read_hooks args.hooks) _ made in
      let (_, _, last) = bind-eq-ok (create (simulation_of args hooks)) _ e in
      (hooks, sym (ok_injective _ sim last))

  disabled-metrics_ns : args.disable_metrics ≡ true → metrics_ns sim ≡ "monitoring"
  unfolding metrics_ns simulation_of metrics_config
  disabled-metrics_ns disabled =
      let (hooks, same) = created in
      subst (λ s. metrics_ns s ≡ "monitoring") (sym same) (rw disabled refl)

  -- A simulation that was created with its metrics disabled still needs the namespace `monitoring`: without
  -- it, the simulation fails for good when it is to be set up. The root of the simulation is there, the
  -- server takes the status, and the hooks for the start succeed.
  pub cmd-disabled_metrics :
      ⦃n : Naming⦄ (env : Surroundings) (c after : Cluster)
      → args.disable_metrics ≡ true
      → c.metaroot ≡ true
      → fetch_driver_state env sim c ≡ (ok (left initializing none none), after)
      → env.accepts patch_status ≡ ok tt
      → execute env.shell sim.spec.hooks pre_start ≡ ok tt
      → any (λ ns. ns == "monitoring") after.namespaces ≡ false
      → (sim.spec.metrics ≡ none)
        × (run_once env sim c ≡ (
          ok await_change,
          record after {
            status =
                some (record (status_of sim (left initializing none none)) { state = some failed });
          },
        ))
  unfolding simulation_of metrics_config
  cmd-disabled_metrics env c after disabled rooted fetched accepted hooked missing =
      let (hooks, same) = created in
      (
        ap (λ s. s.spec.metrics) same ∙ rw disabled refl,
        run_once-no_metrics_ns env sim c after rooted fetched accepted hooked
            (rw (disabled-metrics_ns disabled) missing),
      )

  enabled-metrics_ns : args.disable_metrics ≡ false → metrics_ns sim ≡ args.metrics_namespace
  unfolding metrics_ns simulation_of metrics_config
  enabled-metrics_ns enabled =
      let (hooks, same) = created in
      subst (λ s. metrics_ns s ≡ args.metrics_namespace) (sym same) (rw enabled refl)

  remotes : Option SimulationMetricsConfig → List PrometheusRemoteWrite
  remotes none = []
  remotes (some mc) = mc.remote_write_configs

  enabled-remotes :
      (mc : SimulationMetricsConfig) (url : String)
      → args.disable_metrics ≡ false
      → args.remote_write_endpoint ≡ some url
      → sim.spec.metrics ≡ some mc
      → mc.remote_write_configs ≡ remote_write url ∷ []
  unfolding remotes simulation_of metrics_config remote_writes
  enabled-remotes mc url enabled endpoint config =
      let (hooks, same) = created in
      let configured : remotes (metrics_config args) ≡ remote_write url ∷ [] =
        rw (enabled, endpoint) refl in
      ap remotes (sym config) ∙ ap (λ s. remotes s.spec.metrics) same ∙ configured

  -- Prometheus, for a simulation that was created with metrics and an endpoint, stands in the namespace of
  -- the arguments, and writes to that endpoint alone, with the name of the simulation as a label.
  pub cmd-remote_write :
      ⦃n : Naming⦄ (root : SimulationRoot) (prom_name url : String) (mc : SimulationMetricsConfig)
      (prom : Prometheus)
      → args.disable_metrics ≡ false
      → args.remote_write_endpoint ≡ some url
      → sim.spec.metrics ≡ some mc
      → build_prometheus prom_name sim root mc ≡ ok prom
      → (prom.metadata.namespace ≡ some args.metrics_namespace)
        × (prom.spec.remote_write ≡ some (configure_remote_write args.name (remote_write url) ∷ []))
  unfolding build_prometheus simulation_of
  cmd-remote_write ⦃n⦄ root prom_name url mc prom enabled endpoint config built =
      let (hooks, same) = created in
      let named : n.name_any sim.metadata ≡ args.name =
        n.name_any_of_name sim.metadata args.name (ap (λ s. s.metadata.name) same) in
      let (space, _, _, _, _, _, _, _) = prometheus-IsOf prom_name sim root mc prom built in
      let (meta, _, last) =
        bind-eq-ok
          (build_object_meta (metrics_ns sim) prom_name (n.name_any sim.metadata) (root_owner root))
          _ built in
      let remote = enabled-remotes mc url enabled endpoint config in
      (
        space ∙ ap some (enabled-metrics_ns enabled),
        ap (λ p. p.spec.remote_write) (sym (ok_injective _ prom last)) ∙ rw (remote, named) refl,
      )
