-- ===== src/Ctrl/Controller/Ends.antt =====
-- What state the controller finds, and how a simulation ends by an error.
use simkube.Common.{
  ◌≡◌, ◌≢◌, inl, inr, refl, sym, ap, ◌∙◌, Bool, true, false, Option, none, some, [], Outcome, ok,
  err, panic, any, ok_injective, Bool-cases, ◌==◌, string_eq, arith, if◌then◌else◌, unwrap_or,
}
use simkube.Core.Hooks.{execute, pre_start}
use simkube.Core.Kube.{Naming}
use simkube.Core.Lease.{Lease, LeaseState, claimed, waiting_for_claim, unknown}
use simkube.Core.Simulation.{
  SimulationState, blocked, initializing, finished, failed, retrying, running, Simulation,
  metrics_ns,
}
use simkube.Ctrl.Cluster.{JobStatus, Condition, Cluster, Surroundings, patch_status, await_change}
use simkube.Ctrl.Controller.Order.{setup_sim_metaroot-present, patch_accepted}
use simkube.Ctrl.Controller.{
  DriverState, find_condition, left, right, state_of_status, state_of_job, terminal, claim,
  after_claim, fetch_driver_state, setup_simulation, act_on, act, reconcile, status_of, run_once,
  error_policy, is_controller_error, patch_state, after_error, after_error,
}

abbrev pub state_in : DriverState → SimulationState
state_in (left state st et) = state
state_in (right state t) = state

state_of_job-not_retrying :
    (job : Option (Option JobStatus)) → state_in (state_of_job job) ≢ retrying
unfolding state_of_job state_of_status
state_of_job-not_retrying none e = absurd (ground arith)
state_of_job-not_retrying (some none) e = absurd (ground arith)
state_of_job-not_retrying (some (some status)) e =
    go (find_condition (unwrap_or status.conditions [])) e
  where
    go :
        (cond : Option Condition)
        → state_in (elim cond [
          | none ↦ left running status.start_time none
          | some cond ↦
              left
                (if cond.type_ == "Complete" then finished else failed)
                status.start_time
                cond.last_transition_time
        ])
          ≢ retrying
    go none e = absurd (ground arith)
    go (some cond) e = of_type (cond.type_ == "Complete") e
      where
        of_type : (b : Bool) → (if b then finished else failed) ≢ retrying
        of_type true e = absurd (ground arith)
        of_type false e = absurd (ground arith)

after_claim-not_retrying :
    (state s : DriverState) (c after : Cluster) (r : Outcome LeaseState) (lease : Option Lease)
    → state_in state ≢ retrying
    → after_claim state c r lease ≡ (ok s, after)
    → state_in s ≢ retrying
unfolding after_claim
after_claim-not_retrying state s c after (ok claimed) lease h e f =
    h (ap state_in (ok_injective state s (ap (λ p. p.0) e)) ∙ f)
after_claim-not_retrying state s c after (ok (waiting_for_claim t)) lease h e f =
    let same = ap state_in (ok_injective (right blocked t) s (ap (λ p. p.0) e)) ∙ f in
    absurd (ground arith)
after_claim-not_retrying state s c after (ok unknown) lease h e f = absurd (ground arith)
after_claim-not_retrying state s c after (err x) lease h e f = absurd (ground arith)
after_claim-not_retrying state s c after panic lease h e f = absurd (ground arith)

module _ ⦃n : Naming⦄ (env : Surroundings) (sim : Simulation) where
  -- The state that a reconciliation finds is never `retrying`, for which it has no answer but a panic.
  pub fetch_driver_state-not_retrying :
      (c after : Cluster) (state : DriverState)
      → fetch_driver_state env sim c ≡ (ok state, after)
      → state_in state ≢ retrying
  unfolding fetch_driver_state claim
  fetch_driver_state-not_retrying c after state e =
      elim (Bool-cases (terminal (state_of_job c.job))) [
        | inl done ↦
            let found : fetch_driver_state env sim c ≡ (ok (state_of_job c.job), c) =
              rw done refl in
            λ f. state_of_job-not_retrying c.job (
              ap state_in (ok_injective (state_of_job c.job) state (ap (λ p. p.0) (sym found ∙ e)))
              ∙ f)
        | inr going ↦
            let found : fetch_driver_state env sim c ≡ claim env sim (state_of_job c.job) c =
              rw going refl in
            after_claim-not_retrying (state_of_job c.job) state c after _ _
              (state_of_job-not_retrying c.job) (sym found ∙ e)
      ]

  -- A simulation that is to be set up, whose metrics namespace is not there, fails for good: nothing is made
  -- for it after its hooks for the start, its status says that it failed, and it is not looked at again
  -- before a change. The server takes the status, and the hooks succeed.
  pub run_once-no_metrics_ns :
      (c after : Cluster)
      → c.metaroot ≡ true
      → fetch_driver_state env sim c ≡ (ok (left initializing none none), after)
      → env.accepts patch_status ≡ ok tt
      → execute env.shell sim.spec.hooks pre_start ≡ ok tt
      → any (λ ns. ns == metrics_ns sim) after.namespaces ≡ false
      → run_once env sim c ≡ (
        ok await_change,
        record after {
          status =
              some (record (status_of sim (left initializing none none)) { state = some failed });
        },
      )
  unfolding run_once after_error reconcile act_on act setup_simulation error_policy
      is_controller_error patch_state
  run_once-no_metrics_ns c after rooted fetched accepted hooked missing =
      let noted = record after { status = some (status_of sim (left initializing none none)) } in
      rw
        (
          setup_sim_metaroot-present env c rooted,
          fetched,
          patch_accepted env after noted accepted,
          hooked,
          missing,
          accepted,
        )
        refl
