-- ===== src/Core/PodExt.antt =====
-- sk-core/src/k8s/pod_ext.rs: the part of a pod spec that identifies its kind of pod.
use simkube.Common.{
  ◌≡◌, refl, ap, Bool, not, Option, none, some, List, [], ◌∷◌, map, Outcome, ok, ◌>>=◌, filter,
  filter_of_All, All-filter, unwrap_or,
}
use text.Mathlib.Text.{starts_with}
use simkube.Core.Kube.{Volume, Container, PodSpec, Pod}
use simkube.Core.Lifecycle.{pod_spec}

-- Volumes that the API server adds for service accounts.
abbrev injected : Volume → Bool
injected v = starts_with v.name "kube-api-access"

-- The macro `filter_volumes!`: a missing list is read as an empty one.
abbrev filter_volumes : Option (List Volume) → List Volume
filter_volumes vols = filter (λ v. not (injected v)) (unwrap_or vols [])

stable_init : Container → Container
stable_init c = record c { volume_mounts = some (filter_volumes c.volume_mounts) }

stable_main : Container → Container
stable_main c = record c { volume_mounts = some (filter_volumes c.volume_mounts); ports = none }

abbrev each_init : Option (List Container) → Option (List Container)
each_init none = none
each_init (some cs) = some (map stable_init cs)

unfoldable pub stabilize : PodSpec → PodSpec
unfolding stable_init stable_main
stabilize spec = record spec {
  volumes = some (filter_volumes spec.volumes);
  node_name = none;
  service_account = none;
  service_account_name = none;
  init_containers = each_init spec.init_containers;
  containers = map stable_main spec.containers;
}

unfoldable pub stable_spec : Pod → Outcome PodSpec
unfolding stabilize
stable_spec pod = do spec ← pod_spec pod; ok (stabilize spec)

filter_idem :
    (o : Option (List Volume)) → filter_volumes (some (filter_volumes o)) ≡ filter_volumes o
filter_idem o =
    filter_of_All (λ v. not (injected v)) (filter_volumes o)
      (All-filter (λ v. not (injected v)) (unwrap_or o []))

main_idem : (cs : List Container) → map stable_main (map stable_main cs) ≡ map stable_main cs
unfolding stable_main
main_idem [] = refl
main_idem (c ∷ cs) = λ i.
    record c { volume_mounts = some (filter_idem c.volume_mounts i); ports = none } ∷ main_idem cs i

init_idem : (cs : List Container) → map stable_init (map stable_init cs) ≡ map stable_init cs
unfolding stable_init
init_idem [] = refl
init_idem (c ∷ cs) =
    λ i. record c { volume_mounts = some (filter_idem c.volume_mounts i) } ∷ init_idem cs i

each_idem : (o : Option (List Container)) → each_init (each_init o) ≡ each_init o
each_idem none = refl
each_idem (some cs) = ap some (init_idem cs)

-- A spec that was made stable stays as it is, so the hash of a pod does not depend on how often
-- that is done.
pub stabilize_idem : (spec : PodSpec) → stabilize (stabilize spec) ≡ stabilize spec
unfolding stabilize
stabilize_idem spec = λ i. record spec {
  volumes = some (filter_idem spec.volumes i);
  node_name = none;
  service_account = none;
  service_account_name = none;
  init_containers = each_idem spec.init_containers i;
  containers = main_idem spec.containers i;
}
