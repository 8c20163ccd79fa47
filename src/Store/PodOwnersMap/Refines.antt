-- ===== src/Store/PodOwnersMap/Refines.antt =====
-- A `PodOwnersMap` stands for a map from pods to lifecycles: the specification of its writes.
use simkube.Common.{
  ℕ, ◌<◌, ◌≡◌, refl, ap, sym, ◌∙◌, inl, inr, true, false, ◌&&◌, Option, none, some, [], ◌∷◌, String,
  ok, arith, ◌==◌, string_eq, nat_eq, nat_beq_iff, length, set, Bool-cases, get_elem?-append_left,
  get_elem?-append_end, get_elem?-set_self, get_elem?-set_ne, get_elem?_of_lt, length-set,
  length-append, if◌then◌else◌,
}
use text.Mathlib.TextEquality.{eq_iff}
use simkube.Common.Map
use simkube.Common.Map.{Map}
use simkube.Core.Lifecycle.{PodLifecycleData}
use simkube.Store.PodOwnersMap.{
  Place, PodOwnersMap, has_pod, store_new_pod_lifecycle, update_pod_lifecycle,
}
use simkube.Store.PodOwnersMap.Places.{sequence, at, sequence-store, index-store, update_at}

-- The abstract view: the data of a pod, by its name.
unfoldable pub pod_data : PodOwnersMap → String → Option PodLifecycleData
pod_data p ns = elim (Map.get p.index ns) [ none ↦ none | some place ↦ at p place ]

-- Each pod of the index has a place that exists, and no two pods share one.
pub record IsIndexed (p : PodOwnersMap) : Type 0 where
  pub placed :
      (ns owner : String) (hash idx : ℕ)
      → Map.get p.index ns ≡ some (owner, hash, idx)
      → idx < length (sequence p owner hash)
  pub apart :
      (ns ns' : String) (place : Place)
      → Map.get p.index ns ≡ some place
      → Map.get p.index ns' ≡ some place
      → ns ≡ ns'

module _ (p : PodOwnersMap) (valid : IsIndexed p) (ns owner : String) (hash : ℕ)
    (d : PodLifecycleData) (fresh : Map.get p.index ns ≡ none) where
  store-placed :
      (ns' owner' : String) (hash' idx : ℕ)
      → Map.get (store_new_pod_lifecycle p ns owner hash d).index ns' ≡ some (owner', hash', idx)
      → idx < length (sequence (store_new_pod_lifecycle p ns owner hash d) owner' hash')
  store-placed ns' owner' hash' idx e = ground (
    arith,
    index-store p ns owner hash d ns',
    sequence-store p ns owner hash d owner' hash',
    eq_iff owner owner',
    nat_beq_iff hash hash',
    valid.placed ns' owner' hash' idx,
    length-append (sequence p owner hash) (d ∷ []),
  )

  store-apart :
      (ns' ns'' : String) (place : Place)
      → Map.get (store_new_pod_lifecycle p ns owner hash d).index ns' ≡ some place
      → Map.get (store_new_pod_lifecycle p ns owner hash d).index ns'' ≡ some place
      → ns' ≡ ns''
  store-apart ns' ns'' (owner', hash', idx) e f = ground (
    arith,
    index-store p ns owner hash d ns',
    index-store p ns owner hash d ns'',
    eq_iff ns ns',
    eq_iff ns ns'',
    valid.placed ns' owner' hash' idx,
    valid.placed ns'' owner' hash' idx,
    valid.apart ns' ns'' (owner', hash', idx),
  )

  -- Storing a new pod keeps the index sound.
  pub store-IsIndexed : IsIndexed (store_new_pod_lifecycle p ns owner hash d)
  store-IsIndexed = record { placed = store-placed; apart = store-apart }

  -- Storing a pod that the index does not have gives that pod its data, and every other pod keeps
  -- its own, also one of the same owner and hash.
  pub pod_data-store :
      (ns' : String)
      → pod_data (store_new_pod_lifecycle p ns owner hash d) ns'
        ≡ (if ns == ns' then some d else pod_data p ns')
  unfolding pod_data
  pod_data-store ns' = elim (Bool-cases (ns == ns')) [
    | inl e ↦ ground (
      arith,
      index-store p ns owner hash d ns',
      sequence-store p ns owner hash d owner hash,
      eq_iff owner owner,
      nat_beq_iff hash hash,
      get_elem?-append_end (sequence p owner hash) d,
    )
    | inr e ↦ kept (Map.get p.index ns') refl e
  ]
    where
      kept :
          (o : Option Place)
          → Map.get p.index ns' ≡ o
          → (ns == ns') ≡ false
          → pod_data (store_new_pod_lifecycle p ns owner hash d) ns'
            ≡ (if ns == ns' then some d else pod_data p ns')
      kept none e f = ground (arith, index-store p ns owner hash d ns')
      kept (some (owner', hash', idx)) e f = ground (
        arith,
        index-store p ns owner hash d ns',
        sequence-store p ns owner hash d owner' hash',
        eq_iff owner owner',
        nat_beq_iff hash hash',
        valid.placed ns' owner' hash' idx,
        get_elem?-append_left (sequence p owner hash) (d ∷ []) idx,
      )

module _ (p p' : PodOwnersMap) (valid : IsIndexed p) (ns owner : String) (hash idx : ℕ)
    (d : PodLifecycleData) (here : Map.get p.index ns ≡ some (owner, hash, idx))
    (same : p'.index ≡ p.index)
    (written : (owner' : String) (hash' : ℕ)
      → sequence p' owner' hash' ≡ (
          if owner == owner' && hash == hash'
          then set (sequence p owner hash) idx d
          else sequence p owner' hash')) where
  index_same : (ns' : String) → Map.get p'.index ns' ≡ Map.get p.index ns'
  index_same ns' = ap (λ i. Map.get i ns') same

  write-IsIndexed : IsIndexed p'
  write-IsIndexed = record {
    placed = λ ns' owner' hash' idx' e. ground (
      arith,
      index_same ns',
      written owner' hash',
      eq_iff owner owner',
      nat_beq_iff hash hash',
      valid.placed ns' owner' hash' idx',
      length-set (sequence p owner hash) idx d,
    );
    apart = λ ns' ns'' place e f.
        valid.apart ns' ns'' place (sym (index_same ns') ∙ e) (sym (index_same ns'') ∙ f);
  }

  pod_data-write : (ns' : String) → pod_data p' ns' ≡ (if ns == ns' then some d else pod_data p ns')
  unfolding pod_data
  pod_data-write ns' = elim (Bool-cases (ns == ns')) [
    | inl e ↦ ground (
      arith,
      index_same ns',
      written owner hash,
      eq_iff ns ns',
      eq_iff owner owner,
      nat_beq_iff hash hash,
      get_elem?-set_self (sequence p owner hash) idx d (valid.placed ns owner hash idx here),
    )
    | inr e ↦ kept (Map.get p.index ns') refl e
  ]
    where
      kept :
          (o : Option Place)
          → Map.get p.index ns' ≡ o
          → (ns == ns') ≡ false
          → pod_data p' ns' ≡ (if ns == ns' then some d else pod_data p ns')
      kept none e f = ground (arith, index_same ns')
      kept (some (owner', hash', idx')) e f = ground (
        arith,
        index_same ns',
        written owner' hash',
        eq_iff ns ns',
        eq_iff owner owner',
        nat_beq_iff hash hash',
        nat_beq_iff idx idx',
        valid.apart ns ns' (owner', hash', idx'),
        get_elem?-set_ne (sequence p owner hash) idx idx' d,
      )

-- Updating a pod that the index has always succeeds, keeps the index sound, gives that pod its new
-- data, and leaves every other pod's data alone.
pub pod_data-update :
    (p : PodOwnersMap) (ns : String) (d : PodLifecycleData)
    → IsIndexed p
    → has_pod p ns ≡ true
    → (p' : PodOwnersMap) × (update_pod_lifecycle p ns d ≡ ok p')
      × IsIndexed p'
      × ((ns' : String) → pod_data p' ns' ≡ (if ns == ns' then some d else pod_data p ns'))
unfolding has_pod
pod_data-update p ns d valid h = go (Map.get p.index ns) refl
  where
    go :
        (o : Option Place)
        → Map.get p.index ns ≡ o
        → (p' : PodOwnersMap) × (update_pod_lifecycle p ns d ≡ ok p')
          × IsIndexed p'
          × ((ns' : String) → pod_data p' ns' ≡ (if ns == ns' then some d else pod_data p ns'))
    go none e = absurd (ground arith)
    go (some (owner, hash, idx)) e =
        let (old, was) =
          get_elem?_of_lt (sequence p owner hash) idx (valid.placed ns owner hash idx e) in
        let (p', done, same, written) = update_at p ns owner hash idx d old e was in
        (
          p',
          done,
          write-IsIndexed p p' valid ns owner hash idx d e same written,
          pod_data-write p p' valid ns owner hash idx d e same written,
        )
