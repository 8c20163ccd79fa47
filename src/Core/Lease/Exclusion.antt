-- ===== src/Core/Lease/Exclusion.antt =====
-- Who holds the lease, and how long the others wait.
use simkube.Common.{
  ℕ, ◌≡◌, ◌≢◌, ◌≤◌, ◌⊎◌, refl, inl, inr, true, false, Option, none, some, String, ok, arith, ◌==◌,
  string_eq, unwrap_or,
}
use text.Mathlib.TextEquality.{eq_iff}
use simkube.Common.Int.{ℤ, pos, ◌+ℤ◌, ◌-ℤ◌, ◌<ℤ◌, ◌≤ℤ◌, to_ℕ}
use simkube.Core.Constants.{retry_delay_seconds}
use simkube.Core.Kube.{Naming}
use simkube.Core.Util.{Owner}
use simkube.Core.Lease.{
  LeaseSpec, Lease, claimed, waiting_for_claim, build_lease, modify_spec, modify_entry,
  commit_entry, compute_remaining_lease_time, Commit, try_claim_lease,
}

-- The name that holds this lease.
abbrev pub holder_of : Option Lease → Option String
holder_of none = none
holder_of (some lease) = elim lease.spec [ none ↦ none | some spec ↦ spec.holder_identity ]

-- The time that is left of a lease, with a margin of the retry delay, is what is waited for; if it
-- is over, the wait is the retry delay. So no wait is zero or negative.
pub compute_remaining_lease_time_lem :
    (d r : Option ℤ) (now : ℤ)
    → let wait = compute_remaining_lease_time d r now in
      let left = unwrap_or r now +ℤ (unwrap_or d (pos 0) +ℤ pos retry_delay_seconds) -ℤ now in
      (pos 0 <ℤ wait)
      × ((pos 0 <ℤ left) → wait ≡ left)
      × ((left ≤ℤ pos 0) → wait ≡ pos retry_delay_seconds)
unfolding compute_remaining_lease_time
compute_remaining_lease_time_lem d r now = ground arith

module _ ⦃n : Naming⦄ (sim owner_ns : String) (owner : Owner) (now : ℤ) (lease_obj : Lease)
    (built : build_lease sim owner owner_ns now ≡ ok lease_obj) where
  spec-held :
      (lease : Lease) (holder : String)
      → holder_of (some lease) ≡ some holder
      → (spec : LeaseSpec) × (lease.spec ≡ some spec) × (spec.holder_identity ≡ some holder)
  spec-held lease holder e = go lease.spec refl
    where
      go :
          (o : Option LeaseSpec)
          → lease.spec ≡ o
          → (spec : LeaseSpec) × (lease.spec ≡ some spec) × (spec.holder_identity ≡ some holder)
      go none f = absurd (ground arith)
      go (some spec) f = (spec, f, rw f at e)

  -- While another simulation holds the lease, a claim changes nothing and says how long to wait,
  -- which is at least a second, whatever the server would answer to a write.
  pub try_claim_lease-held :
      (commit : Commit) (lease : Lease) (holder : String)
      → holder_of (some lease) ≡ some holder
      → sim ≢ holder
      → (t : ℕ) × (try_claim_lease commit sim owner owner_ns now (some lease)
          ≡ (ok (waiting_for_claim t), some lease))
        × (1 ≤ t)
  unfolding try_claim_lease modify_spec commit_entry
  try_claim_lease-held commit lease holder e ne =
      let (spec, f, g) = spec-held lease holder e in
      let other : (sim == holder) ≡ false = ground (arith, eq_iff sim holder) in
      let (positive, _, _) =
        compute_remaining_lease_time_lem spec.lease_duration_seconds spec.renew_time now in
      (
        to_ℕ (compute_remaining_lease_time spec.lease_duration_seconds spec.renew_time now),
        rw (try_claim_lease, built, modify_entry, modify_spec, f, g, other, commit_entry) refl,
        ground (arith, positive),
      )

  build-holder : holder_of (some lease_obj) ≡ some sim
  unfolding build_lease
  build-holder = ground (arith, built)

  -- A claim of a lease that nobody holds, or that this simulation holds already, succeeds if the
  -- server takes the write, and this simulation holds the lease then.
  pub try_claim_lease-free :
      (entry : Option Lease)
      → (holder_of entry ≡ none) ⊎ (holder_of entry ≡ some sim)
      → (after : Option Lease) × (try_claim_lease (ok tt) sim owner owner_ns now entry
          ≡ (ok claimed, after))
        × (holder_of after ≡ some sim)
  unfolding try_claim_lease modify_entry modify_spec commit_entry
  try_claim_lease-free none free = (some lease_obj, rw (try_claim_lease, built) refl, build-holder)
  try_claim_lease-free (some lease) (inr held) =
      let (spec, f, g) = spec-held lease sim held in
      let same : (sim == sim) ≡ true = ground (arith, eq_iff sim sim) in
      (
        some lease,
        rw (try_claim_lease, built, modify_entry, modify_spec, f, g, same, commit_entry) refl,
        held,
      )
  try_claim_lease-free (some lease) (inl free) = go lease.spec refl
    where
      Goal : Type 0
      Goal =
          (after : Option Lease) × (try_claim_lease (ok tt) sim owner owner_ns now (some lease)
            ≡ (ok claimed, after))
          × (holder_of after ≡ some sim)

      go : (o : Option LeaseSpec) → lease.spec ≡ o → Goal
      go none f = (
        some lease_obj,
        rw (try_claim_lease, built, modify_entry, modify_spec, f, commit_entry) refl,
        build-holder,
      )
      go (some spec) f =
          let g : spec.holder_identity ≡ none = rw f at free in
          (
            some lease_obj,
            rw (try_claim_lease, built, modify_entry, modify_spec, f, g, commit_entry) refl,
            build-holder,
          )
