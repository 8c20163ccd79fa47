-- ===== src/Ctrl/Controller/Observed.antt =====
-- A reconciliation is not followed by another because of its own status.
use simkube.Common.{
  ◌≡◌, ◌≢◌, refl, sym, ap, ◌∙◌, true, false, not, some, Outcome, ok, err, panic, ◌>>>◌, ◌==◌,
  string_eq, unwrap_or, seq-eq-ok, arith, Bool-cases, inl, inr,
}
use simkube.Common.Int.{ℤ, pos, int_eq, beq_ℤ_iff}
use simkube.Core.Kube.{Naming}
use simkube.Core.Simulation.{Simulation}
use simkube.Ctrl.Cluster.{Cluster, Surroundings, Write, Action, patch_status}
use simkube.Ctrl.Controller.{
  DriverState, left, right, write, act_on, status_of, reconcile, setup_sim_metaroot,
  fetch_driver_state, passes, observed,
}
use simkube.Ctrl.Controller.Kept.{act_on-Keeps}

-- The status notes the generation of the simulation.
status_of-observed :
    (sim : Simulation) (state : DriverState)
    → (status_of sim state).observed_generation ≡ unwrap_or sim.metadata.generation (pos 1)
status_of-observed sim (left state st et) = refl
status_of-observed sim (right state t) = refl

beq_refl : (g : ℤ) → (g == g) ≡ true
beq_refl g = (beq_ℤ_iff g g).1 refl

write-ok :
    (env : Surroundings) (w : Write) (after before : Cluster) {u : Unit {0}}
    → (write env w after before).0 ≡ ok u
    → (write env w after before).1 ≡ after
unfolding write
write-ok env w after before e = go (env.accepts w) e
  where
    go :
        (x : Outcome (Unit {0})) {u : Unit {0}}
        → (elim x as (λ _. Outcome (Unit {0}) × Cluster) [
          | ok u ↦ (ok tt, after)
          | err e ↦ (err e, before)
          | panic ↦ (panic, before)
        ]).0
          ≡ ok u
        → (elim x as (λ _. Outcome (Unit {0}) × Cluster) [
          | ok u ↦ (ok tt, after)
          | err e ↦ (err e, before)
          | panic ↦ (panic, before)
        ]).1
          ≡ after
    go (ok u) f = refl
    go (err m) f = absurd (ground arith)
    go panic f = absurd (ground arith)

-- After a reconciliation without an error, the simulation with the status that it wrote is not passed on, so
-- that writing a status leads to no other reconciliation; a simulation of another generation with this
-- status is.
pub reconcile-passes :
    ⦃n : Naming⦄ (env : Surroundings) (sim : Simulation) (c after : Cluster) (action : Action)
    → reconcile env sim c ≡ (ok action, after)
    → (passes (record sim { status = after.status }) ≡ false)
      × ((newer : Simulation)
          → unwrap_or newer.metadata.generation (pos 1) ≢ unwrap_or sim.metadata.generation (pos 1)
          → passes (record newer { status = after.status }) ≡ true)
unfolding reconcile write passes observed
reconcile-passes env sim c after action e =
    let (u, _, e1) = seq-eq-ok ((setup_sim_metaroot env c).0) ((setup_sim_metaroot env c).1) _ e in
    written (fetch_driver_state env sim ((setup_sim_metaroot env c).1)) e1
  where
    noted :
        (state : DriverState)
        → after.status ≡ some (status_of sim state)
        → (passes (record sim { status = after.status }) ≡ false)
          × ((newer : Simulation)
              → unwrap_or newer.metadata.generation (pos 1)
                ≢ unwrap_or sim.metadata.generation (pos 1)
              → passes (record newer { status = after.status }) ≡ true)
    noted state h =
        let generation = unwrap_or sim.metadata.generation (pos 1) in
        let at : observed after.status ≡ generation =
          ap observed h ∙ status_of-observed sim state in
        (
          ap (λ o. not (o == generation)) at ∙ ap not (beq_refl generation),
          λ newer differs.
              elim (Bool-cases
                (observed after.status == unwrap_or newer.metadata.generation (pos 1))) [
                  | inl same ↦ absurd (
                      differs (
                        sym (
                          (beq_ℤ_iff (observed after.status)
                              (unwrap_or newer.metadata.generation (pos 1))).0
                            same)
                        ∙ at))
                  | inr other ↦ ap not other
                ],
        )

    written :
        (x : Outcome DriverState × Cluster)
        → (x >>> λ state c.
            write env patch_status (record c { status = some (status_of sim state) }) c >>> λ u c.
            act_on env sim state c)
          ≡ (ok action, after)
        → (passes (record sim { status = after.status }) ≡ false)
          × ((newer : Simulation)
              → unwrap_or newer.metadata.generation (pos 1)
                ≢ unwrap_or sim.metadata.generation (pos 1)
              → passes (record newer { status = after.status }) ≡ true)
    written x f =
        let (state, _, f1) = seq-eq-ok (x.0) (x.1) _ f in
        let before = x.1 in
        let patched = record before { status = some (status_of sim state) } in
        let (_, accepted, f2) =
          seq-eq-ok ((write env patch_status patched before).0)
            ((write env patch_status patched before).1) _ f1 in
        let kept : ((write env patch_status patched before).1).status ≡ some (status_of sim state) =
          ap (λ d. d.status) (write-ok env patch_status patched before accepted) in
        noted state (
          ap (λ r. (r.1).status) (sym f2)
          ∙ act_on-Keeps env sim (some (status_of sim state)) state
              ((write env patch_status patched before).1) kept)
