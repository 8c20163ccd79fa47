-- ===== src/Store/PodOwnersMap/Places.antt =====
-- The sequences of a `PodOwnersMap` after each write, by owner and hash.
use simkube.Common.{
  ℕ, ◌-◌, ◌≡◌, refl, inl, inr, ◌&&◌, Option, some, List, [], ◌∷◌, ◌++◌, String, ok, arith, ◌==◌,
  string_eq, nat_eq, nat_beq_iff, length, length-append, get_elem?, set, unwrap_or, Option-cases,
  if◌then◌else◌,
}
use text.Mathlib.TextEquality.{eq_iff}
use simkube.Common.Map
use simkube.Common.Map.{Map, get-insert}
use simkube.Core.Lifecycle.{PodLifecycleData}
use simkube.Store.PodOwnersMap.{
  Place, PodOwnersMap, lifecycle_data_for, sequence_of, push, store_new_pod_lifecycle,
  update_pod_lifecycle,
}

-- The sequence of an owner and a hash, empty where there is none.
abbrev pub sequence : PodOwnersMap → String → ℕ → List PodLifecycleData
sequence p owner hash = unwrap_or (lifecycle_data_for p owner hash) []

-- What stands at a place.
abbrev pub at : PodOwnersMap → Place → Option PodLifecycleData
at p (owner, hash, idx) = get_elem? (sequence p owner hash) idx

pub sequence-store :
    (p : PodOwnersMap) (ns owner : String) (hash : ℕ) (d : PodLifecycleData) (owner' : String)
    (hash' : ℕ)
    → sequence (store_new_pod_lifecycle p ns owner hash d) owner' hash' ≡ (
        if owner == owner' && hash == hash'
        then sequence p owner hash ++ d ∷ []
        else sequence p owner' hash')
unfolding store_new_pod_lifecycle lifecycle_data_for Map.get
sequence-store p ns owner hash d owner' hash' = elim (Option-cases (Map.get p.m owner)) [
  | inl e ↦ ground (
    arith,
    eq_iff owner owner',
    nat_beq_iff hash hash',
    get-insert p.m owner owner' ((hash, d ∷ []) ∷ []),
  )
  | inr (ls, e) ↦ ground (
    arith,
    eq_iff owner owner',
    nat_beq_iff hash hash',
    get-insert p.m owner owner' (push ls hash d),
    get-insert ls hash hash' (sequence_of ls hash ++ d ∷ []),
  )
]

pub index-store :
    (p : PodOwnersMap) (ns owner : String) (hash : ℕ) (d : PodLifecycleData) (ns' : String)
    → Map.get (store_new_pod_lifecycle p ns owner hash d).index ns' ≡ (
        if ns == ns'
        then some (owner, hash, length (sequence p owner hash))
        else Map.get p.index ns')
unfolding store_new_pod_lifecycle lifecycle_data_for
index-store p ns owner hash d ns' = elim (Option-cases (Map.get p.m owner)) [
  | inl e ↦ ground (arith, get-insert p.index ns ns' (owner, hash, 0))
  | inr (ls, e) ↦ ground (
    arith,
    length-append (sequence_of ls hash) (d ∷ []),
    get-insert p.index ns ns' (owner, hash, length (sequence_of ls hash ++ d ∷ []) - 1),
  )
]

-- A write at a place that exists succeeds, leaves the index alone, and changes one element.
pub update_at :
    (p : PodOwnersMap) (ns owner : String) (hash idx : ℕ) (d old : PodLifecycleData)
    → Map.get p.index ns ≡ some (owner, hash, idx)
    → at p (owner, hash, idx) ≡ some old
    → (p' : PodOwnersMap) × (update_pod_lifecycle p ns d ≡ ok p')
      × (p'.index ≡ p.index)
      × ((owner' : String) (hash' : ℕ)
          → sequence p' owner' hash' ≡ (
              if owner == owner' && hash == hash'
              then set (sequence p owner hash) idx d
              else sequence p owner' hash'))
unfolding update_pod_lifecycle lifecycle_data_for
update_at p ns owner hash idx d old here was = elim (Option-cases (Map.get p.m owner)) [
  | inl e ↦ absurd (ground arith)
  | inr (ls, e) ↦ elim (Option-cases (Map.get ls hash)) [
    | inl f ↦ absurd (ground arith)
    | inr (pods, f) ↦ (
      record p { m = Map.insert p.m owner (Map.insert ls hash (set pods idx d)) },
      ground arith,
      refl,
      λ owner' hash'. ground (
        arith,
        eq_iff owner owner',
        nat_beq_iff hash hash',
        get-insert p.m owner owner' (Map.insert ls hash (set pods idx d)),
        get-insert ls hash hash' (set pods idx d),
      ),
    )
  ]
]
