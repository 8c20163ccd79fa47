-- ===== src/Ctrl/Controller/Ready.antt =====
-- What a simulation waits for before its driver gets a job.
use simkube.Common.{
  ◌≡◌, refl, sym, ◌∙◌, ◌⊎◌, inl, inr, Bool, true, false, not, Option, none, some, [], ◌∷◌, String,
  Outcome, ◌>>>◌, ok, err, any, is_some, ◌==◌, string_eq, arith, if◌then◌else◌, namespace_not_found,
}
use simkube.Core.Constants.{retry_delay_seconds}
use simkube.Common.Int.{ℤ, pos, ltb_ℤ→lt, ◌<ℤ◌}
use simkube.Core.Hooks.{execute, pre_start}
use simkube.Core.Simulation.{Simulation, metrics_ns, SimulationMetricsConfig}
use simkube.Ctrl.Cluster.{Cluster, Surroundings, create_namespace, Action, requeue}
use simkube.Ctrl.Controller.{driver_ns_step, prometheus_step, service_step, write, setup_simulation}
use simkube.Ctrl.Controller.Order.{bind_ind, create-keeps, service_step-job}

prometheus_step-job :
    (env : Surroundings) (sim : Simulation) (c : Cluster)
    → ((prometheus_step env sim c).1).job ≡ c.job
unfolding prometheus_step write
prometheus_step-job env sim c = ground arith

prometheus_step-secrets :
    (env : Surroundings) (sim : Simulation) (c : Cluster)
    → ((prometheus_step env sim c).1).secrets ≡ c.secrets
unfolding prometheus_step write
prometheus_step-secrets env sim c = ground arith

-- Prometheus is not asked for, or has replicas.
unfoldable pub PrometheusReady : Simulation → Cluster → Type 0
PrometheusReady sim c =
    (sim.spec.metrics ≡ none) ⊎ ((reps : ℤ) × (c.prometheus ≡ some (some reps)) × (pos 0 <ℤ reps))

prometheus_step-Ready :
    (env : Surroundings) (sim : Simulation) (c : Cluster)
    → (prometheus_step env sim c).0 ≡ ok true
    → PrometheusReady sim c
unfolding prometheus_step PrometheusReady write
prometheus_step-Ready env sim c e = go sim.spec.metrics c.prometheus refl refl
  where
    go :
        (m : Option SimulationMetricsConfig) (p : Option (Option ℤ))
        → sim.spec.metrics ≡ m
        → c.prometheus ≡ p
        → PrometheusReady sim c
    go none p h k = inl h
    go (some m) none h k = absurd (ground arith)
    go (some m) (some none) h k = absurd (ground arith)
    go (some m) (some (some reps)) h k = inr (reps, k, ltb_ℤ→lt (pos 0) reps (ground arith))

driver_ns_step-keeps :
    {B : Type 0} (f : Cluster → B) (env : Surroundings) (sim : Simulation) (c : Cluster)
    → f (record c { namespaces = sim.spec.driver.namespace ∷ c.namespaces }) ≡ f c
    → f ((driver_ns_step env sim c).1) ≡ f c
unfolding driver_ns_step
driver_ns_step-keeps f env sim c e =
    create-keeps f env (any (λ n. n == sim.spec.driver.namespace) c.namespaces) create_namespace
      (record c { namespaces = sim.spec.driver.namespace ∷ c.namespaces }) c e

-- When a set-up makes the job of the driver, the metrics namespace is there, Prometheus is not
-- wanted or has replicas, the secret is there and is the only one, and the driver's service and the
-- webhook are there at the end.
pub setup_simulation-job :
    (env : Surroundings) (sim : Simulation) (c : Cluster)
    → c.job ≡ none
    → is_some ((setup_simulation env sim c).1).job ≡ true
    → (any (λ ns. ns == metrics_ns sim) c.namespaces ≡ true)
      × PrometheusReady sim c
      × (((setup_simulation env sim c).1).webhook ≡ true)
      × (((setup_simulation env sim c).1).service ≡ true)
      × (s : String) × (c.secrets ≡ s ∷ [])
unfolding setup_simulation PrometheusReady
setup_simulation-job env sim c absent =
    bind_ind Good (execute env.shell sim.spec.hooks pre_start, c) after_hooks (no_job c refl)
      (λ u ran. hooked)
  where
    Good : Cluster → Type 0
    Good d =
        is_some d.job ≡ true
        → (any (λ ns. ns == metrics_ns sim) c.namespaces ≡ true)
          × PrometheusReady sim c
          × (d.webhook ≡ true)
          × (d.service ≡ true)
          × (s : String) × (c.secrets ≡ s ∷ [])

    no_job : (d : Cluster) → d.job ≡ c.job → Good d
    no_job d e present = absurd (ground (arith, absent))

    if_ready : Bool → Cluster → Outcome Action × Cluster
    if_ready ready d = if ready then service_step env d else (ok (requeue retry_delay_seconds), d)

    after_ns : Unit {0} → Cluster → Outcome Action × Cluster
    after_ns u d = prometheus_step env sim d >>> if_ready

    after_hooks : Unit {0} → Cluster → Outcome Action × Cluster
    after_hooks u d =
        if not (any (λ ns. ns == metrics_ns sim) d.namespaces)
        then (err (namespace_not_found (metrics_ns sim)), d)
        else driver_ns_step env sim d >>> after_ns

    ns : Outcome (Unit {0}) × Cluster
    ns = driver_ns_step env sim c

    keeps :
        {B : Type 0} (f : Cluster → B)
        → f (record c { namespaces = sim.spec.driver.namespace ∷ c.namespaces }) ≡ f c
        → f (ns.1) ≡ f c
    keeps f e = driver_ns_step-keeps f env sim c e

    prom : Outcome Bool × Cluster
    prom = prometheus_step env sim (ns.1)

    prom_job : (prom.1).job ≡ c.job
    prom_job = prometheus_step-job env sim (ns.1) ∙ keeps (λ d. d.job) refl

    prom_secrets : (prom.1).secrets ≡ c.secrets
    prom_secrets = prometheus_step-secrets env sim (ns.1) ∙ keeps (λ d. d.secrets) refl

    ready_before : PrometheusReady sim (ns.1) → PrometheusReady sim c
    ready_before (inl e) = inl e
    ready_before (inr (reps, e, positive)) =
        inr (reps, sym (keeps (λ d. d.prometheus) refl) ∙ e, positive)

    served :
        any (λ ns. ns == metrics_ns sim) c.namespaces ≡ true
        → (b : Bool) → prom.0 ≡ ok b
        → Good ((if_ready b (prom.1)).1)
    served valid false e present = no_job (prom.1) prom_job present
    served valid true e present =
        let (webhook, service, secret, one) =
          service_step-job env (prom.1) (prom_job ∙ absent) present in
        (
          valid,
          ready_before (prometheus_step-Ready env sim (ns.1) e),
          webhook,
          service,
          secret,
          sym prom_secrets ∙ one,
        )

    hooked : Good ((after_hooks tt c).1)
    hooked = go (any (λ ns. ns == metrics_ns sim) c.namespaces) refl
      where
        go :
            (b : Bool)
            → any (λ ns. ns == metrics_ns sim) c.namespaces ≡ b
            → Good (
                (if not b
                  then (err (namespace_not_found (metrics_ns sim)), c)
                  else ns >>> after_ns).1)
        go false e = no_job c refl
        go true e =
            bind_ind Good ns after_ns (no_job (ns.1) (keeps (λ d. d.job) refl))
              (λ u made. bind_ind Good prom if_ready (no_job (prom.1) prom_job) (served e))
