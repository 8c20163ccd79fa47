-- ===== src/Core/Lease.antt =====
-- sk-core/src/k8s/lease.rs: the lease that one simulation at a time holds. Each function is one
-- transaction with the server; a write that the server refuses is `commit`'s error.
pub mod Exclusion
use simkube.Common.{
  ℕ, ◌≡◌, Bool, Option, none, some, String, Outcome, ok, err, panic, Error, lease_held_by_other,
  ◌>>=◌, ◌==◌, string_eq, not, unwrap_or, if◌then◌else◌, external,
}
use simkube.Common.Int.{ℤ, pos, ◌+ℤ◌, ◌-ℤ◌, leb_ℤ, to_ℕ}
use simkube.Core.Constants.{retry_delay_seconds, sk_lease_name}
use simkube.Core.Kube.{ObjectMeta, Naming}
use simkube.Core.Util.{Owner, build_object_meta}

pub record LeaseSpec : Type 0 where
  pub holder_identity : Option String
  pub acquire_time : Option ℤ
  pub renew_time : Option ℤ
  pub lease_duration_seconds : Option ℤ

pub record Lease : Type 0 where
  pub metadata : ObjectMeta
  pub spec : Option LeaseSpec

pub data LeaseState : Type 0 where
  unknown claimed : LeaseState
  waiting_for_claim : ℕ → LeaseState

-- `sim_name` is `sim.name_any()`.
unfoldable pub build_lease : ⦃n : Naming⦄ → String → Owner → String → ℤ → Outcome Lease
build_lease sim_name owner ns now = do
  meta ← build_object_meta ns sk_lease_name sim_name owner
  ok (record {
    metadata = meta;
    spec = some (record {
      holder_identity = some sim_name;
      acquire_time = some now;
      renew_time = some now;
      lease_duration_seconds = none;
    });
  })

unfoldable pub compute_remaining_lease_time : Option ℤ → Option ℤ → ℤ → ℤ
compute_remaining_lease_time maybe_duration maybe_renew_time now =
    let duration = unwrap_or maybe_duration (pos 0) +ℤ pos retry_delay_seconds in
    let sleep_time = unwrap_or maybe_renew_time now +ℤ duration -ℤ now in
    if leb_ℤ sleep_time (pos 0) then pos retry_delay_seconds else sleep_time

-- The closure of `and_modify`: what becomes of the entry, and the state that it sets.
modify_spec : String → Lease → ℤ → Lease → Option LeaseSpec → LeaseState × Lease
modify_spec sim_name new_lease now lease none = (unknown, new_lease)
modify_spec sim_name new_lease now lease (some spec) = elim spec.holder_identity [
  | some holder ↦ if sim_name == holder then (claimed, lease) else (
    waiting_for_claim
        (to_ℕ (compute_remaining_lease_time spec.lease_duration_seconds spec.renew_time now)),
    lease,
  )
  | none ↦ (unknown, new_lease)
]

modify_entry : String → Lease → ℤ → Option Lease → LeaseState × Lease
modify_entry sim_name new_lease now none = (unknown, new_lease)
modify_entry sim_name new_lease now (some lease) =
    modify_spec sim_name new_lease now lease lease.spec

-- The server's answer to a write, and the lease that it has afterwards.
abbrev pub Commit : Type 0
Commit = Outcome (Unit {0})

commit_entry : Commit → LeaseState → Lease → Option Lease → Outcome LeaseState × Option Lease
commit_entry (ok u) unknown lease entry = (ok claimed, some lease)
commit_entry (err e) unknown lease entry = (err e, entry)
commit_entry panic unknown lease entry = (panic, entry)
commit_entry commit claimed lease entry = (ok claimed, entry)
commit_entry commit (waiting_for_claim t) lease entry = (ok (waiting_for_claim t), entry)

unfoldable pub try_claim_lease :
    ⦃n : Naming⦄
    → Commit
    → String
    → Owner
    → String
    → ℤ
    → Option Lease
    → Outcome LeaseState × Option Lease
unfolding modify_entry modify_spec commit_entry
try_claim_lease commit sim_name owner ns now entry = elim (build_lease sim_name owner ns now) [
  | ok lease_obj ↦
      let (state, lease) = modify_entry sim_name lease_obj now entry in
      commit_entry commit state lease entry
  | err e ↦ (err e, entry)
  | panic ↦ (panic, entry)
]

-- The lease is held, and by another.
held_by_other : String → Option LeaseSpec → Option String
held_by_other sim_name none = none
held_by_other sim_name (some spec) = elim spec.holder_identity [
  | some holder ↦ if not (holder == sim_name) then some holder else none
  | none ↦ none
]

abbrev no_spec : LeaseSpec
no_spec = record {
  holder_identity = none;
  acquire_time = none;
  renew_time = none;
  lease_duration_seconds = none;
}

-- The merge patch sets two fields of the spec, and makes a spec if there is none.
patch_lease : ℤ → ℤ → Lease → Lease
patch_lease duration now lease = record lease {
  spec = some (record (unwrap_or lease.spec no_spec) {
    lease_duration_seconds = some duration;
    renew_time = some now;
  });
}

unfoldable pub try_update_lease :
    Commit → String → ℤ → ℤ → Option Lease → Outcome (Unit {0}) × Option Lease
unfolding held_by_other patch_lease
try_update_lease commit sim_name duration now none = (err (external 404), none)
try_update_lease commit sim_name duration now (some lease) =
    elim (held_by_other sim_name lease.spec) [
      | some holder ↦ (err (lease_held_by_other holder), some lease)
      | none ↦ elim commit [
        | ok u ↦ (ok tt, some (patch_lease duration now lease))
        | err e ↦ (err e, some lease)
        | panic ↦ (panic, some lease)
      ]
    ]
