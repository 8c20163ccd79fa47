-- ===== src/Store/PodOwnersMap.antt =====
-- sk-store/src/pod_owners_map.rs: lifecycle data of the pods of each owning object, by the hash of
-- the pod spec and in order of launch, with an index from a pod's name to its place.
pub mod Places
pub mod Refines
pub mod Filtered
use simkube.Common.{
  ℕ, ◌+◌, ◌-◌, ◌≡◌, Bool, true, false, Option, none, some, List, [], ◌∷◌, ◌++◌, String, Outcome, ok,
  err, message, ok_or, ◌>>=◌, string_eq, nat_eq, length, get_elem?, set, filter, is_empty,
  filter_map, unwrap_or, is_some, if◌then◌else◌,
}
use simkube.Common.Int.{ℤ}
use simkube.Common.Map
use simkube.Common.Map.{Map}
use simkube.Core.Lifecycle.{PodLifecycleData, overlaps}

abbrev pub PodLifecyclesMap : Type 0
PodLifecyclesMap = Map ℕ (List PodLifecycleData)

-- The owner, the hash and the position in its sequence.
abbrev pub Place : Type 0
Place = String × ℕ × ℕ

pub record PodOwnersMap : Type 0 where
  pub m : Map String PodLifecyclesMap
  pub index : Map String Place

abbrev pub new_from_parts : Map String PodLifecyclesMap → Map String Place → PodOwnersMap
new_from_parts m index = record { m = m; index = index }

abbrev pub default_owners : PodOwnersMap
default_owners = record { m = []; index = [] }

unfoldable pub has_pod : PodOwnersMap → String → Bool
has_pod p ns_name = Map.contains_key p.index ns_name

unfoldable pub lifecycle_data_for : PodOwnersMap → String → ℕ → Option (List PodLifecycleData)
lifecycle_data_for p owner hash = elim (Map.get p.m owner) [
  | none ↦ none
  | some lifecycles ↦ Map.get lifecycles hash
]

-- `e.get_mut().entry(hash).or_insert(vec![])`, then `push`.
abbrev sequence_of : PodLifecyclesMap → ℕ → List PodLifecycleData
sequence_of lifecycles hash = unwrap_or (Map.get lifecycles hash) []

abbrev push : PodLifecyclesMap → ℕ → PodLifecycleData → PodLifecyclesMap
push lifecycles hash data_ = Map.insert lifecycles hash (sequence_of lifecycles hash ++ data_ ∷ [])

unfoldable pub store_new_pod_lifecycle :
    PodOwnersMap → String → String → ℕ → PodLifecycleData → PodOwnersMap
store_new_pod_lifecycle p ns_name owner hash data_ = elim (Map.get p.m owner) [
  | none ↦ record {
    m = Map.insert p.m owner ((hash, data_ ∷ []) ∷ []);
    index = Map.insert p.index ns_name (owner, hash, 0);
  }
  | some lifecycles ↦ record {
    m = Map.insert p.m owner (push lifecycles hash data_);
    index =
        Map.insert p.index ns_name
          (owner, hash, length (sequence_of lifecycles hash ++ data_ ∷ []) - 1);
  }
]

-- The write through the chain of `get_mut`; each missing link is an error.
write_at : PodOwnersMap → Place → PodLifecycleData → Outcome PodOwnersMap
write_at p (owner, hash, idx) data_ = do
  lifecycles ← ok_or (Map.get p.m owner) (message "no owner entry for pod")
  pods ← ok_or (Map.get lifecycles hash) (message "no entry for pod matching hash")
  _ ← ok_or (get_elem? pods idx) (message "no sequence index for pod matching hash")
  ok (record p { m = Map.insert p.m owner (Map.insert lifecycles hash (set pods idx data_)) })

unfoldable pub update_pod_lifecycle :
    PodOwnersMap → String → PodLifecycleData → Outcome PodOwnersMap
unfolding write_at
update_pod_lifecycle p ns_name data_ = elim (Map.get p.index ns_name) [
  | none ↦ err (message "pod not present in index")
  | some place ↦ write_at p place data_
]

-- The lifecycles of one hash that overlap the window, if there are any.
unfoldable pub filter_sequence : ℤ → ℤ → List PodLifecycleData → Option (List PodLifecycleData)
filter_sequence start end lifecycles =
    let kept = filter (λ l. overlaps l start end) lifecycles in
    if is_empty kept then none else some kept

unfoldable pub filter_lifecycles_map : ℤ → ℤ → PodLifecyclesMap → Option PodLifecyclesMap
filter_lifecycles_map start end lifecycles =
    let kept = Map.filter_values (λ hash ls. filter_sequence start end ls) lifecycles in
    if is_empty kept then none else some kept

unfoldable pub filter_owners : PodOwnersMap → ℤ → ℤ → Map String ℕ → Map String PodLifecyclesMap
filter_owners p start end index =
    Map.filter_values
      (λ owner lifecycles.
        if Map.contains_key index owner then filter_lifecycles_map start end lifecycles else none)
      p.m
