-- ===== src/Ctrl/Controller/Blocked.antt =====
-- What the controller does while the lease is taken.
use simkube.Common.{ℕ, ◌≡◌, ◌≢◌, ◌≤◌, refl, ap, true, false, Option, none, some, String, ok, arith}
use simkube.Core.Kube.{Naming}
use simkube.Core.Lease.{Lease, waiting_for_claim, build_lease, try_claim_lease}
use simkube.Core.Lease.Exclusion.{holder_of, try_claim_lease-held}
use simkube.Core.Simulation.{Simulation, blocked}
use simkube.Ctrl.Cluster.{Cluster, Surroundings, patch_status, requeue}
use simkube.Ctrl.Controller.Order.{setup_sim_metaroot-present, patch_accepted}
use simkube.Ctrl.Controller.{
  DriverState, right, state_of_job, terminal, claim, fetch_driver_state, act_on, act, reconcile,
  status_of,
}

module _ ⦃n : Naming⦄ (env : Surroundings) (sim : Simulation) (lease_obj : Lease) (holder : String)
    (built : build_lease (n.name_any sim.metadata) env.metaroot env.ctrl_ns env.now ≡ ok lease_obj)
    (other : n.name_any sim.metadata ≢ holder) where
  entry-held :
      (entry : Option Lease)
      → holder_of entry ≡ some holder
      → (t : ℕ) × (try_claim_lease env.commit
            (n.name_any sim.metadata)
            env.metaroot
            env.ctrl_ns
            env.now
            entry
          ≡ (ok (waiting_for_claim t), entry))
        × (1 ≤ t)
  entry-held none e = absurd (ground arith)
  entry-held (some lease) e =
      try_claim_lease-held (n.name_any sim.metadata) env.ctrl_ns env.metaroot env.now lease_obj
        built env.commit lease holder e other

  claim-held :
      (state : DriverState) (c : Cluster)
      → holder_of c.lease ≡ some holder
      → (t : ℕ) × (claim env sim state c ≡ (ok (right blocked t), c)) × (1 ≤ t)
  unfolding claim
  claim-held state c held =
      let (t, e, positive) = entry-held c.lease held in
      (t, rw (claim, ap (λ p. p.0) e, ap (λ p. p.1) e) refl, positive)

  fetch-held :
      (c : Cluster)
      → holder_of c.lease ≡ some holder
      → terminal (state_of_job c.job) ≡ false
      → (t : ℕ) × (fetch_driver_state env sim c ≡ (ok (right blocked t), c)) × (1 ≤ t)
  unfolding fetch_driver_state
  fetch-held c held going =
      let (t, e, positive) = claim-held (state_of_job c.job) c held in (t, rw going e, positive)

  -- While another simulation holds the lease and the driver of this one has no job that is complete or
  -- failed, a reconciliation of a simulation that has its root only marks it as blocked, if the server
  -- takes the status, and waits at least a second.
  pub reconcile-blocked :
      (c : Cluster)
      → c.metaroot ≡ true
      → holder_of c.lease ≡ some holder
      → terminal (state_of_job c.job) ≡ false
      → env.accepts patch_status ≡ ok tt
      → (t : ℕ) × (reconcile env sim c
          ≡ (ok (requeue t), record c { status = some (status_of sim (right blocked t)) }))
        × (1 ≤ t)
  unfolding reconcile act_on act
  reconcile-blocked c rooted held going accepted =
      let (t, e, positive) = fetch-held c held going in
      let patched =
        patch_accepted env c (record c { status = some (status_of sim (right blocked t)) })
          accepted in
      (t, rw (setup_sim_metaroot-present env c rooted, e, patched) refl, positive)
