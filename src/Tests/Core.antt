-- ===== src/Tests/Core.antt =====
-- Runs of the models of sk-core.
mod Owners
use simkube.Common.{
  ℕ, ◌≡◌, ◌≤◌, ◌<◌, refl, inl, true, Option, none, some, List, ◌++◌, ok, arith, length, string_eq,
  invalid_pointer,
}
use simkube.Common.Int.{pos}
use simkube.Common.Map
use simkube.Common.Text.{append, has_char, split}
use simkube.Core.Json
use simkube.Core.Json.{Value, array, object, nil, cons, end, null, field}
use simkube.Core.Patch.{add, patch_ext_helper, change_targets, add_to}
use simkube.Core.Patch.Added.{IsAdded}
use simkube.Core.Patch.Lens.{Along, add-Along}
use simkube.Core.Kube.{OwnerReference, ObjectMeta}
use simkube.Core.Lifecycle.{PodLifecycleData, new_for}
use simkube.Core.Lifecycle.Containers.{
  Describes, starts, ends, init_states, main_states, new_for-Describes,
}
use simkube.Core.Gvk.{serialize, visit_str, visit_str-serialize}
use simkube.Core.Util.{namespaced_name, build_deletable}
use simkube.Core.Util.Names.{namespaced_name-build_deletable}
use simkube.Core.PodExt.{stabilize, stabilize_idem}
use simkube.Core.Lease.{Lease, claimed, waiting_for_claim, try_claim_lease}
use simkube.Core.Lease.Exclusion.{holder_of, try_claim_lease-held, try_claim_lease-free}
use simkube.Fixtures.{
  sim_root, lease_of, sim_lease, builds, sim_ne_other, test_naming, test_pointers, test_hasher,
  named_meta, test_pod, test_spec, test_status,
}

new_for-Describes_example :
    (l : PodLifecycleData) × (new_for test_pod ≡ ok l)
    × Describes l
        (starts (init_states test_status) ++ starts (main_states test_status))
        (ends (init_states test_status) ++ ends (main_states test_status))
        (length (ends (main_states test_status)))
        (length test_spec.containers)
new_for-Describes_example = new_for-Describes test_pod test_status test_spec refl refl

visit_str-serialize_example :
    (visit_str (serialize (record { group = "apps.io"; version = "v1"; kind = "Deployment" }))
      ≡ ok (record { group = "apps.io"; version = "v1"; kind = "Deployment" }))
    × (visit_str (append "/" (append "v1" (append "." "Deployment")))
        ≡ ok (record { group = ""; version = "v1"; kind = "Deployment" }))
unfolding has_char
visit_str-serialize_example =
    visit_str-serialize "v1" "Deployment" refl refl refl refl "apps.io" refl

namespaced_name-build_deletable_example :
    namespaced_name (build_deletable (namespaced_name (named_meta "default" "a"))).metadata
    ≡ namespaced_name (named_meta "default" "a")
unfolding has_char
namespaced_name-build_deletable_example =
    namespaced_name-build_deletable (named_meta "default" "a") "default" refl refl

stabilize_idem_example : stabilize (stabilize test_spec) ≡ stabilize test_spec
stabilize_idem_example = stabilize_idem test_spec

try_claim_lease-held_example :
    (t : ℕ) × (try_claim_lease (ok tt) "sim" sim_root "simkube" (pos 20) (some (lease_of "other"))
      ≡ (ok (waiting_for_claim t), some (lease_of "other")))
    × (1 ≤ t)
try_claim_lease-held_example =
    try_claim_lease-held "sim" "simkube" sim_root (pos 20) sim_lease builds (ok tt)
      (lease_of "other") "other" refl sim_ne_other

try_claim_lease-free_example :
    (after : Option Lease) × (try_claim_lease (ok tt) "sim" sim_root "simkube" (pos 20) none
      ≡ (ok claimed, after))
    × (holder_of after ≡ some "sim")
try_claim_lease-free_example =
    try_claim_lease-free "sim" "simkube" sim_root (pos 20) sim_lease builds none (inl refl)

-- {"foo": [{}, {}]}
abbrev two_empty : Value
two_empty = object (field "foo" (array (cons (object end) (cons (object end) nil))) end)

abbrev with_bar : Value
with_bar = object (field "bar" null end)

abbrev two_with_bar : Value
two_with_bar = object (field "foo" (array (cons with_bar (cons with_bar nil))) end)

adds : add "/foo/*" "bar" null two_empty true ≡ ok two_with_bar
unfolding add patch_ext_helper change_targets add_to split Json.get_field
adds = refl

add-Along_example : Along (IsAdded "bar" null true) (split b'*' "/foo/*") two_empty two_with_bar
add-Along_example = add-Along "/foo/*" "bar" null two_empty two_with_bar true adds
