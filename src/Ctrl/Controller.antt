-- ===== src/Ctrl/Controller.antt =====
-- sk-ctrl/src/controller.rs: the reconciliation of a simulation with the cluster.
pub mod Blocked
pub mod Ended
pub mod Ends
pub mod Kept
pub mod Observed
pub mod Order
pub mod Ready
use simkube.Common.{
  ℕ, ◌≡◌, Bool, true, false, not, ◌||◌, Option, none, some, List, [], ◌∷◌, String, Outcome, ok, err,
  panic, Error, message, namespace_not_found, ◌>>=◌, ◌>>>◌, ◌==◌, string_eq, any, is_some,
  unwrap_or, if◌then◌else◌,
}
use simkube.Common.Int.{ℤ, pos, ltb_ℤ, int_eq}
use simkube.Core.Constants.{retry_delay_seconds, error_retry_delay_seconds, default_metrics_ns}
use simkube.Core.Hooks.{SimulationHooksConfig, Shell, execute, pre_start, post_stop}
use simkube.Core.Kube.{Naming}
use simkube.Core.Lease.{
  Lease, LeaseState, unknown, claimed, waiting_for_claim, Commit, try_claim_lease,
}
use simkube.Core.Util.{Owner}
use simkube.Core.Simulation.{
  SimulationState, blocked, initializing, finished, failed, retrying, running, is_terminal,
  Simulation, metrics_ns, SimulationStatus,
}
use simkube.Ctrl.Cluster.{
  Condition, JobStatus, Cluster, Write, create_metaroot, create_namespace, create_prometheus,
  create_service, create_certificate, create_webhook, create_job, patch_status, delete_metaroot,
  Surroundings, Action, requeue, await_change,
}

pub write : Surroundings → Write → Cluster → Cluster → Outcome (Unit {0}) × Cluster
write env w after before = elim (env.accepts w) [
  | ok u ↦ (ok tt, after)
  | err e ↦ (err e, before)
  | panic ↦ (panic, before)
]

pub create : Surroundings → Bool → Write → Cluster → Cluster → Outcome (Unit {0}) × Cluster
create env true w after before = (ok tt, before)
create env false w after before = write env w after before

pub setup_sim_metaroot : Surroundings → Cluster → Outcome (Unit {0}) × Cluster
setup_sim_metaroot env c = create env c.metaroot create_metaroot (record c { metaroot = true }) c

pub data DriverState : Type 0 where
  left : SimulationState → Option ℤ → Option ℤ → DriverState
  right : SimulationState → ℕ → DriverState

abbrev find_condition : List Condition → Option Condition
find_condition [] = none
find_condition (cond ∷ conds) =
    if cond.type_ == "Complete" || cond.type_ == "Failed" then some cond else find_condition conds

state_of_status : JobStatus → DriverState
state_of_status status = elim (find_condition (unwrap_or status.conditions [])) [
  | none ↦ left running status.start_time none
  | some cond ↦
      left (if cond.type_ == "Complete" then finished else failed) status.start_time
        cond.last_transition_time
]

unfoldable pub state_of_job : Option (Option JobStatus) → DriverState
unfolding state_of_status
state_of_job none = left initializing none none
state_of_job (some none) = left running none none
state_of_job (some (some status)) = state_of_status status

after_claim :
    DriverState → Cluster → Outcome LeaseState → Option Lease → Outcome DriverState × Cluster
after_claim state c (ok claimed) lease = (ok state, record c { lease = lease })
after_claim state c (ok (waiting_for_claim t)) lease =
    (ok (right blocked t), record c { lease = lease })
after_claim state c (ok unknown) lease =
    (err (message "unknown lease state"), record c { lease = lease })
after_claim state c (err e) lease = (err e, record c { lease = lease })
after_claim state c panic lease = (panic, record c { lease = lease })

claim :
    ⦃n : Naming⦄ → Surroundings → Simulation → DriverState → Cluster → Outcome DriverState × Cluster
unfolding after_claim
claim ⦃n⦄ env sim state c =
    let (r, lease) =
      try_claim_lease env.commit (n.name_any sim.metadata) env.metaroot env.ctrl_ns env.now
        c.lease in
    after_claim state c r lease

unfoldable pub terminal : DriverState → Bool
unfolding is_terminal
terminal (left state st et) = is_terminal state
terminal (right state t) = false

unfoldable pub fetch_driver_state :
    ⦃n : Naming⦄ → Surroundings → Simulation → Cluster → Outcome DriverState × Cluster
unfolding state_of_job state_of_status claim terminal
fetch_driver_state env sim c =
    let state = state_of_job c.job in
    let claiming = claim env sim state c in if terminal state then (ok state, c) else claiming

-- The namespace of the driver.
driver_ns_step : Surroundings → Simulation → Cluster → Outcome (Unit {0}) × Cluster
driver_ns_step env sim c =
    create env (any (λ ns. ns == sim.spec.driver.namespace) c.namespaces) create_namespace
      (record c { namespaces = sim.spec.driver.namespace ∷ c.namespaces }) c

-- Whether the metrics collector is ready; it is made if it is missing.
prometheus_step : Surroundings → Simulation → Cluster → Outcome Bool × Cluster
prometheus_step env sim c = elim sim.spec.metrics as (λ _. Outcome Bool × Cluster) [
  | none ↦ (ok true, c)
  | some mc ↦ elim c.prometheus as (λ _. Outcome Bool × Cluster) [
    | none ↦
        write env create_prometheus (record c { prometheus = some none }) c >>> λ u c. (ok false, c)
    | some none ↦ (ok false, c)
    | some (some reps) ↦ (ok (ltb_ℤ (pos 0) reps), c)
  ]
]

-- The job of the driver, for a secret.
job_step : Surroundings → Cluster → Outcome Action × Cluster
job_step env c = create env (is_some c.job) create_job (record c { job = some none }) c >>> λ u c.
    (ok await_change, c)

build_job_step : Surroundings → Cluster → Outcome Action × Cluster
build_job_step env c =
    let step = job_step env c in
    if is_some c.job
    then step
    else elim env.job_built [ ok u ↦ step | err e ↦ (err e, c) | panic ↦ (panic, c) ]

webhook_step : Surroundings → Cluster → Outcome Action × Cluster
webhook_step env c = create env c.webhook create_webhook (record c { webhook = true }) c >>> λ u c.
    build_job_step env c

secret_step : Surroundings → Cluster → Outcome Action × Cluster
secret_step env c = elim c.secrets as (λ _. Outcome Action × Cluster) [
  | [] ↦ (ok (requeue retry_delay_seconds), c)
  | secret ∷ secrets ↦ elim secrets as (λ _. Outcome Action × Cluster) [
    | [] ↦ webhook_step env c
    | _ ∷ _ ↦ (err (message "found multiple secrets for experiment"), c)
  ]
]

pub service_step : Surroundings → Cluster → Outcome Action × Cluster
service_step env c = create env c.service create_service (record c { service = true }) c >>> λ u c.
    create env (not env.use_cert_manager || c.certificate) create_certificate
      (record c { certificate = true }) c
    >>> λ u c. secret_step env c

unfoldable pub setup_simulation : Surroundings → Simulation → Cluster → Outcome Action × Cluster
unfolding driver_ns_step prometheus_step service_step secret_step webhook_step build_job_step
    job_step create write
setup_simulation env sim c = (execute env.shell sim.spec.hooks pre_start, c) >>> λ u c.
    if not (any (λ ns. ns == metrics_ns sim) c.namespaces)
    then (err (namespace_not_found (metrics_ns sim)), c)
    else driver_ns_step env sim c >>> λ u c. prometheus_step env sim c >>> λ ready c.
        if ready then service_step env c else (ok (requeue retry_delay_seconds), c)

-- Errors of the clean-up are logged.
abbrev logged : Outcome (Unit {0}) × Cluster → Outcome (Unit {0}) × Cluster
logged (ok u, c) = (ok u, c)
logged (err e, c) = (ok tt, c)
logged (panic, c) = (panic, c)

unfoldable pub cleanup_simulation :
    Surroundings → Simulation → Cluster → Outcome (Unit {0}) × Cluster
unfolding write
cleanup_simulation env sim c =
    logged (write env delete_metaroot (record c { metaroot = false }) c) >>> λ u c.
    logged (execute env.shell sim.spec.hooks post_stop, c)

abbrev pub status_of : Simulation → DriverState → SimulationStatus
status_of sim (left state st et) = record {
  observed_generation = unwrap_or sim.metadata.generation (pos 1);
  start_time = st;
  end_time = et;
  state = some state;
}
status_of sim (right state t) = record {
  observed_generation = unwrap_or sim.metadata.generation (pos 1);
  start_time = none;
  end_time = none;
  state = some state;
}

pub act : Surroundings → Simulation → SimulationState → ℕ → Cluster → Outcome Action × Cluster
act env sim initializing t c = setup_simulation env sim c
act env sim blocked t c = (ok (requeue t), c)
act env sim running t c = (ok await_change, c)
act env sim finished t c = cleanup_simulation env sim c >>> λ u c. (ok await_change, c)
act env sim failed t c = cleanup_simulation env sim c >>> λ u c. (ok await_change, c)
act env sim retrying t c = (panic, c)

pub act_on : Surroundings → Simulation → DriverState → Cluster → Outcome Action × Cluster
act_on env sim (left state st et) c = act env sim state 0 c
act_on env sim (right state t) c = act env sim state t c

unfoldable pub reconcile :
    ⦃n : Naming⦄ → Surroundings → Simulation → Cluster → Outcome Action × Cluster
unfolding setup_sim_metaroot create write act_on act
reconcile env sim c = setup_sim_metaroot env c >>> λ u c.
    fetch_driver_state env sim c >>> λ state c.
    write env patch_status (record c { status = some (status_of sim state) }) c >>> λ u c.
    act_on env sim state c

-- `err.is::<SkControllerError>()`: of the errors of the controller, the one that it raises.
is_controller_error : Error → Bool
is_controller_error (namespace_not_found ns) = true
is_controller_error _ = false

-- The patch names the state alone: the schema of simulations has the server refuse it while there is no
-- status, and the refusal is logged.
patch_state : Surroundings → SimulationState → Option SimulationStatus → Cluster → Cluster
patch_state env state none c = c
patch_state env state (some status) c = elim (env.accepts patch_status) [
  | ok u ↦ record c { status = some (record status { state = some state }) }
  | _ ↦ c
]

unfoldable pub error_policy : Surroundings → Error → Cluster → Action × Cluster
unfolding is_controller_error patch_state
error_policy env e c =
    if is_controller_error e
    then (await_change, patch_state env failed c.status c)
    else (requeue error_retry_delay_seconds, patch_state env retrying c.status c)

-- The controller's loop: `reconcile`, and after an error the policy for errors.
after_error : Surroundings → Outcome Action × Cluster → Outcome Action × Cluster
after_error env (ok action, c) = (ok action, c)
after_error env (err e, c) = let (action, after) = error_policy env e c in (ok action, after)
after_error env (panic, c) = (panic, c)

unfoldable pub run_once :
    ⦃n : Naming⦄ → Surroundings → Simulation → Cluster → Outcome Action × Cluster
unfolding after_error
run_once env sim c = after_error env (reconcile env sim c)

-- sk-ctrl/src/main.rs: the events of simulations that are passed on, which are not those of a status alone.
observed : Option SimulationStatus → ℤ
observed none = pos 0
observed (some status) = status.observed_generation

unfoldable pub passes : Simulation → Bool
unfolding observed
passes sim = not (observed sim.status == unwrap_or sim.metadata.generation (pos 1))
