-- ===== src/Ctrl/Controller/Kept.antt =====
-- What a reconciliation does for the state of the driver leaves the status alone.
use simkube.Common.{
  ℕ, ◌≡◌, refl, ◌∙◌, Bool, true, false, not, ◌||◌, Option, none, some, List, [], ◌∷◌, String,
  Outcome, ok, err, panic, message, namespace_not_found, ◌>>>◌, any, ◌==◌, string_eq, is_some,
  if◌then◌else◌,
}
use simkube.Common.Int.{ℤ, pos, int_eq, ltb_ℤ}
use simkube.Core.Constants.{retry_delay_seconds}
use simkube.Core.Hooks.{execute, pre_start, post_stop}
use simkube.Core.Simulation.{
  SimulationState, SimulationStatus, SimulationMetricsConfig, Simulation, metrics_ns, initializing,
  blocked, running, finished, failed, retrying,
}
use simkube.Ctrl.Cluster.{
  Cluster, Surroundings, Write, Action, requeue, create_job, create_webhook, create_service,
  create_certificate, create_prometheus, delete_metaroot,
}
use simkube.Ctrl.Controller.{
  DriverState, left, right, driver_ns_step, prometheus_step, service_step, secret_step,
  webhook_step, build_job_step, job_step, create, write, logged, setup_simulation,
  cleanup_simulation, act, act_on,
}
use simkube.Ctrl.Controller.Order.{bind_ind, create-keeps}

module _ (env : Surroundings) (sim : Simulation) (s : Option SimulationStatus) where
  abbrev pub Keeps : Cluster → Type 0
  Keeps c = c.status ≡ s

  create-Keeps :
      (present : Bool) (w : Write) (after before : Cluster)
      → after.status ≡ before.status
      → Keeps before
      → Keeps ((create env present w after before).1)
  create-Keeps present w after before same h =
      create-keeps (λ c. c.status) env present w after before same ∙ h

  write-Keeps :
      (w : Write) (after before : Cluster)
      → after.status ≡ before.status
      → Keeps before
      → Keeps ((write env w after before).1)
  unfolding create
  write-Keeps w after before same h = create-Keeps false w after before same h

  then-Keeps :
      {A B : Type 0} (x : Outcome A × Cluster) (k : A → Cluster → Outcome B × Cluster)
      → Keeps (x.1)
      → ((a : A) (c : Cluster) → Keeps c → Keeps ((k a c).1))
      → Keeps ((x >>> k).1)
  then-Keeps x k h later = bind_ind Keeps x k h (λ a e. later a (x.1) h)

  job_step-Keeps : (c : Cluster) → Keeps c → Keeps ((job_step env c).1)
  unfolding job_step
  job_step-Keeps c h =
      then-Keeps (create env (is_some c.job) create_job (record c { job = some none }) c) _
        (create-Keeps _ _ _ c refl h) (λ u d k. k)

  build_job_step-Keeps : (c : Cluster) → Keeps c → Keeps ((build_job_step env c).1)
  unfolding build_job_step
  build_job_step-Keeps c h = go (is_some c.job) env.job_built
    where
      go :
          (b : Bool) (built : Outcome (Unit {0}))
          → Keeps (
              (if b then job_step env c else elim built as (λ _. Outcome Action × Cluster) [
                | ok u ↦ job_step env c
                | err e ↦ (err e, c)
                | panic ↦ (panic, c)
              ]).1)
      go true built = job_step-Keeps c h
      go false (ok u) = job_step-Keeps c h
      go false (err e) = h
      go false panic = h

  webhook_step-Keeps : (c : Cluster) → Keeps c → Keeps ((webhook_step env c).1)
  unfolding webhook_step
  webhook_step-Keeps c h =
      then-Keeps (create env c.webhook create_webhook (record c { webhook = true }) c) _
        (create-Keeps _ _ _ c refl h) (λ u d k. build_job_step-Keeps d k)

  secret_step-Keeps : (c : Cluster) → Keeps c → Keeps ((secret_step env c).1)
  unfolding secret_step
  secret_step-Keeps c h = go c.secrets
    where
      go :
          (secrets : List String)
          → Keeps (
              (elim secrets as (λ _. Outcome Action × Cluster) [
                | [] ↦ (ok (requeue retry_delay_seconds), c)
                | secret ∷ secrets ↦ elim secrets as (λ _. Outcome Action × Cluster) [
                  | [] ↦ webhook_step env c
                  | _ ∷ _ ↦ (err (message "found multiple secrets for experiment"), c)
                ]
              ]).1)
      go [] = h
      go (secret ∷ []) = webhook_step-Keeps c h
      go (secret ∷ other ∷ secrets) = h

  service_step-Keeps : (c : Cluster) → Keeps c → Keeps ((service_step env c).1)
  unfolding service_step
  service_step-Keeps c h =
      then-Keeps (create env c.service create_service (record c { service = true }) c) _
        (create-Keeps _ _ _ c refl h)
        (λ u d k.
          then-Keeps
            (create env (not env.use_cert_manager || d.certificate) create_certificate
              (record d { certificate = true }) d)
            _ (create-Keeps _ _ _ d refl k) (λ v f l. secret_step-Keeps f l))

  prometheus_step-Keeps : (c : Cluster) → Keeps c → Keeps ((prometheus_step env sim c).1)
  unfolding prometheus_step
  prometheus_step-Keeps c h = go sim.spec.metrics c.prometheus
    where
      go :
          (metrics : Option SimulationMetricsConfig) (prometheus : Option (Option ℤ))
          → Keeps (
              (elim metrics as (λ _. Outcome Bool × Cluster) [
                | none ↦ (ok true, c)
                | some mc ↦ elim prometheus as (λ _. Outcome Bool × Cluster) [
                  | none ↦
                      write env create_prometheus (record c { prometheus = some none }) c >>> λ u c.
                      (ok false, c)
                  | some none ↦ (ok false, c)
                  | some (some reps) ↦ (ok (ltb_ℤ (pos 0) reps), c)
                ]
              ]).1)
      go none prometheus = h
      go (some mc) none =
          then-Keeps (write env create_prometheus (record c { prometheus = some none }) c) _
            (write-Keeps create_prometheus (record c { prometheus = some none }) c refl h)
            (λ u d k. k)
      go (some mc) (some none) = h
      go (some mc) (some (some reps)) = h

  after_ns-Keeps :
      (c : Cluster)
      → Keeps c
      → Keeps (
          (prometheus_step env sim c >>> λ ready d.
          if ready then service_step env d else (ok (requeue retry_delay_seconds), d)).1)
  after_ns-Keeps c h =
      then-Keeps (prometheus_step env sim c) _ (prometheus_step-Keeps c h)
        (λ ready d k. go ready d k)
    where
      go :
          (ready : Bool) (d : Cluster)
          → Keeps d
          → Keeps ((if ready then service_step env d else (ok (requeue retry_delay_seconds), d)).1)
      go true d k = service_step-Keeps d k
      go false d k = k

  setup_simulation-Keeps : (c : Cluster) → Keeps c → Keeps ((setup_simulation env sim c).1)
  unfolding setup_simulation driver_ns_step
  setup_simulation-Keeps c h =
      then-Keeps (execute env.shell sim.spec.hooks pre_start, c) _ h
        (λ u d k. go d k (not (any (λ ns. ns == metrics_ns sim) d.namespaces)))
    where
      go :
          (d : Cluster)
          → Keeps d
          → (b : Bool)
          → Keeps (
              (if b
                then (err (namespace_not_found (metrics_ns sim)), d)
                else driver_ns_step env sim d >>> λ u f. prometheus_step env sim f >>> λ ready f.
                    if ready then service_step env f else (ok (requeue retry_delay_seconds), f)).1)
      go d k true = k
      go d k false =
          then-Keeps (driver_ns_step env sim d) _ (create-Keeps _ _ _ d refl k)
            (λ u f l. after_ns-Keeps f l)

  logged-Keeps : (x : Outcome (Unit {0}) × Cluster) → Keeps (x.1) → Keeps ((logged x).1)
  logged-Keeps (ok u, c) h = h
  logged-Keeps (err e, c) h = h
  logged-Keeps (panic, c) h = h

  cleanup_simulation-Keeps : (c : Cluster) → Keeps c → Keeps ((cleanup_simulation env sim c).1)
  unfolding cleanup_simulation
  cleanup_simulation-Keeps c h =
      then-Keeps (logged (write env delete_metaroot (record c { metaroot = false }) c)) _
        (logged-Keeps (write env delete_metaroot (record c { metaroot = false }) c)
          (write-Keeps delete_metaroot (record c { metaroot = false }) c refl h))
        (λ u d k. logged-Keeps (execute env.shell sim.spec.hooks post_stop, d) k)

  act-Keeps :
      (state : SimulationState) (t : ℕ) (c : Cluster) → Keeps c → Keeps ((act env sim state t c).1)
  unfolding act
  act-Keeps initializing t c h = setup_simulation-Keeps c h
  act-Keeps blocked t c h = h
  act-Keeps running t c h = h
  act-Keeps finished t c h =
      then-Keeps (cleanup_simulation env sim c) _ (cleanup_simulation-Keeps c h) (λ u d k. k)
  act-Keeps failed t c h =
      then-Keeps (cleanup_simulation env sim c) _ (cleanup_simulation-Keeps c h) (λ u d k. k)
  act-Keeps retrying t c h = h

  pub act_on-Keeps :
      (state : DriverState) (c : Cluster) → Keeps c → Keeps ((act_on env sim state c).1)
  unfolding act_on
  act_on-Keeps (left state st et) c h = act-Keeps state 0 c h
  act_on-Keeps (right state t) c h = act-Keeps state t c h
