-- ===== src/Ctrl/Controller/Ended.antt =====
-- How the controller ends a simulation whose driver's job is over.
use text.Mathlib.TextEquality.{eq_iff}
use simkube.Common.Int.{ℤ, pos}
use simkube.Common.{
  All, String, ◌++◌, ◌≡◌, ◌≢◌, refl, true, false, Option, some, List, [], ◌∷◌, Outcome, ok, err,
  panic, ◌==◌, string_eq, arith, ◌>>>◌, if◌then◌else◌, unwrap_or,
}
use simkube.Core.Hooks.{execute, post_stop}
use simkube.Core.Kube.{Naming}
use simkube.Core.Simulation.{
  SimulationState, blocked, initializing, finished, failed, retrying, running, Simulation,
  SimulationStatus, is_terminal,
}
use simkube.Ctrl.Cluster.{
  JobStatus, Condition, Cluster, Surroundings, patch_status, delete_metaroot, await_change,
}
use simkube.Ctrl.Controller.Order.{setup_sim_metaroot-present, patch_accepted}
use simkube.Ctrl.Controller.{
  DriverState, find_condition, left, right, state_of_status, state_of_job, terminal,
  fetch_driver_state, write, logged, cleanup_simulation, act_on, act, reconcile, status_of,
}

-- What a condition of a job says: that the job ended in this state of the simulation, or nothing of it.
pub data EndsIn : String → SimulationState → Type 0 where
  complete : EndsIn "Complete" finished
  stopped : EndsIn "Failed" failed

abbrev pub GoesOn : Condition → Type 0
GoesOn cond = (cond.type_ ≢ "Complete") × (cond.type_ ≢ "Failed")

-- An error is caught, and a panic is not.
abbrev pub caught {ℓ} : {A : Type ℓ} → A → Outcome (Unit {0}) → Outcome A
caught a (ok u) = ok a
caught a (err e) = ok a
caught a panic = panic

logged-caught : (x : Outcome (Unit {0})) (c : Cluster) → logged (x, c) ≡ (caught tt x, c)
logged-caught (ok u) c = refl
logged-caught (err e) c = refl
logged-caught panic c = refl

find_condition-first :
    (before later : List Condition) (cond : Condition) (state : SimulationState)
    → All GoesOn before
    → EndsIn cond.type_ state
    → find_condition (before ++ cond ∷ later) ≡ some cond
find_condition-first [] later cond state all ends = of_type cond.type_ refl state ends
  where
    of_type :
        (t : String)
        → cond.type_ ≡ t
        → (state : SimulationState) → EndsIn t state
        → find_condition (cond ∷ later) ≡ some cond
    of_type _ e _ complete = rw (find_condition, e) refl
    of_type _ e _ stopped = rw (find_condition, e) refl
find_condition-first (b ∷ before) later cond state ((c, f), all) ends = ground (
  arith,
  eq_iff b.type_ "Complete",
  eq_iff b.type_ "Failed",
  c,
  f,
  find_condition-first before later cond state all ends,
)

state_of_type :
    (t : String) (state : SimulationState)
    → EndsIn t state
    → (if t == "Complete" then finished else failed) ≡ state
state_of_type _ _ complete = refl
state_of_type _ _ stopped = refl

state_of_job-EndsIn :
    (job : JobStatus) (before later : List Condition) (cond : Condition) (state : SimulationState)
    → job.conditions ≡ some (before ++ cond ∷ later)
    → All GoesOn before
    → EndsIn cond.type_ state
    → state_of_job (some (some job)) ≡ left state job.start_time cond.last_transition_time
unfolding state_of_job state_of_status
state_of_job-EndsIn job before later cond state conds goes_on ends =
    rw
      (
        state_of_job,
        state_of_status,
        conds,
        find_condition-first before later cond state goes_on ends,
        state_of_type cond.type_ state ends,
      )
      refl

terminal-EndsIn :
    (t : String) (state : SimulationState) (st et : Option ℤ)
    → EndsIn t state
    → terminal (left state st et) ≡ true
unfolding terminal is_terminal
terminal-EndsIn _ _ st et complete = refl
terminal-EndsIn _ _ st et stopped = refl

module _ ⦃n : Naming⦄ (env : Surroundings) (sim : Simulation) where
  -- The root is deleted, then the hooks for the stop run: an error of either is not one of the clean-up, and a
  -- panic of the hooks is.
  cleanup_simulation-Cleaned :
      (c : Cluster)
      → env.accepts delete_metaroot ≢ panic
      → (after : Cluster) × (cleanup_simulation env sim c
          ≡ (caught tt (execute env.shell sim.spec.hooks post_stop), after))
        × (after.status ≡ c.status)
        × (after.lease ≡ c.lease)
        × (env.accepts delete_metaroot ≡ ok tt → after.metaroot ≡ false)
  unfolding cleanup_simulation write
  cleanup_simulation-Cleaned c deletes = go (env.accepts delete_metaroot) refl
    where
      hooks : Outcome (Unit {0})
      hooks = execute env.shell sim.spec.hooks post_stop

      go :
          (x : Outcome (Unit {0}))
          → env.accepts delete_metaroot ≡ x
          → (after : Cluster) × (cleanup_simulation env sim c ≡ (caught tt hooks, after))
            × (after.status ≡ c.status)
            × (after.lease ≡ c.lease)
            × (env.accepts delete_metaroot ≡ ok tt → after.metaroot ≡ false)
      go (ok u) e = (
        record c { metaroot = false },
        rw (cleanup_simulation, write, e) (logged-caught hooks (record c { metaroot = false })),
        refl,
        refl,
        λ f. refl,
      )
      go (err x) e = (
        c,
        rw (cleanup_simulation, write, e) (logged-caught hooks c),
        refl,
        refl,
        λ f. absurd (ground (arith, e, f)),
      )
      go panic e = absurd (deletes e)

  awaits :
      (x : Outcome (Unit {0})) (c : Cluster)
      → ((caught tt x, c) >>> λ u c. (ok await_change, c)) ≡ (caught await_change x, c)
  awaits (ok u) c = refl
  awaits (err e) c = refl
  awaits panic c = refl

  act_on-terminal :
      (state : DriverState) (c : Cluster)
      → terminal state ≡ true
      → act_on env sim state c ≡ (cleanup_simulation env sim c >>> λ u c. (ok await_change, c))
  unfolding act_on act terminal is_terminal
  act_on-terminal (left finished st et) c h = refl
  act_on-terminal (left failed st et) c h = refl
  act_on-terminal (left blocked st et) c h = absurd (ground arith)
  act_on-terminal (left initializing st et) c h = absurd (ground arith)
  act_on-terminal (left retrying st et) c h = absurd (ground arith)
  act_on-terminal (left running st et) c h = absurd (ground arith)
  act_on-terminal (right state t) c h = absurd (ground arith)

  -- When the first condition of the driver's job that says that it is over says that it is complete, or that it
  -- failed, a reconciliation of a simulation that has its root notes in the status that the simulation is
  -- finished, or that it failed, with the start of the job and the time of that condition. It then cleans up, with
  -- the hooks for the stop, and waits for no more than a change: whoever holds the lease, and also if a hook fails,
  -- but not if running the hooks is a panic. If the server deletes the root, it is gone. The server takes the
  -- status, and the deletion is no panic.
  pub reconcile-ended :
      (c : Cluster) (job : JobStatus) (before later : List Condition) (cond : Condition)
      (state : SimulationState)
      → c.metaroot ≡ true
      → c.job ≡ some (some job)
      → job.conditions ≡ some (before ++ cond ∷ later)
      → All GoesOn before
      → EndsIn cond.type_ state
      → env.accepts patch_status ≡ ok tt
      → env.accepts delete_metaroot ≢ panic
      → (after : Cluster) × (status : SimulationStatus) × (reconcile env sim c
          ≡ (caught await_change (execute env.shell sim.spec.hooks post_stop), after))
        × ((after.status ≡ some status)
            × (status.state ≡ some state)
            × (status.start_time ≡ job.start_time)
            × (status.end_time ≡ cond.last_transition_time)
            × (status.observed_generation ≡ unwrap_or sim.metadata.generation (pos 1)))
        × (after.lease ≡ c.lease)
        × (env.accepts delete_metaroot ≡ ok tt → after.metaroot ≡ false)
  unfolding reconcile fetch_driver_state
  reconcile-ended c job before later cond state rooted has conds goes_on ends accepted deletes =
      let found = state_of_job-EndsIn job before later cond state conds goes_on ends in
      let fetched : fetch_driver_state env sim c
          ≡ (ok (left state job.start_time cond.last_transition_time), c) =
        rw
          (
            fetch_driver_state,
            has,
            found,
            terminal-EndsIn cond.type_ state job.start_time cond.last_transition_time ends,
          )
          refl in
      let noted = record c {
        status = some (status_of sim (left state job.start_time cond.last_transition_time));
      } in
      let (after, cleaned, status, lease, gone) = cleanup_simulation-Cleaned noted deletes in
      let acting =
        act_on-terminal (left state job.start_time cond.last_transition_time) noted
          (terminal-EndsIn cond.type_ state job.start_time cond.last_transition_time ends) in
      (
        after,
        status_of sim (left state job.start_time cond.last_transition_time),
        rw
            (
              setup_sim_metaroot-present env c rooted,
              fetched,
              patch_accepted env c noted accepted,
              acting,
              cleaned,
            )
            (awaits (execute env.shell sim.spec.hooks post_stop) after),
        (status, refl, refl, refl, refl),
        lease,
        gone,
      )
