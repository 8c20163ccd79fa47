-- ===== src/Common/Map.antt =====
-- `HashMap` and `BTreeMap` as association lists. A list holds a key once (`IsMap`); where the code
-- iterates over a map, the order of the list stands for the order that the map happens to have.
use simkube.Common.Tests.{Eq, ◌==◌, beq_refl, beq_of_ne, Bool-cases, is_some, if◌then◌else◌}
use simkube.Common.Lists.{All}
use mathlib.Core.Path.{◌≡◌, refl}
use mathlib.Core.Logic.{◌≢◌, inl, inr}
use mathlib.Core.Bool.{Bool}
use mathlib.Core.Option.{Option, none, some}
use mathlib.Core.List.{List, [], ◌∷◌, map}
use native.Mathlib.Omega.{arith}

abbrev pub Map {ℓ κ} : Type ℓ → Type κ → Type (ℓ ⊔ κ)
Map K V = List (K × V)

abbrev pub keys {ℓ κ} : {K : Type ℓ} {V : Type κ} → Map K V → List K
keys m = map (λ e. e.0) m

module _ {ℓ κ} {K : Type ℓ} {V : Type κ} ⦃e : Eq K⦄ where
  unfoldable pub get : Map K V → K → Option V
  get [] k = none
  get ((j, v) ∷ m) k = if j == k then some v else get m k

  unfoldable pub insert : Map K V → K → V → Map K V
  insert [] k v = (k, v) ∷ []
  insert ((j, w) ∷ m) k v = if j == k then (k, v) ∷ m else (j, w) ∷ insert m k v

  unfoldable pub remove : Map K V → K → Map K V
  remove [] k = []
  remove ((j, w) ∷ m) k = if j == k then remove m k else (j, w) ∷ remove m k

  abbrev pub contains_key : Map K V → K → Bool
  contains_key m k = is_some (get m k)

  pub get-insert :
      (m : Map K V) (k j : K) (v : V) → get (insert m k v) j ≡ (if k == j then some v else get m j)
  unfolding get insert
  get-insert [] k j v = refl
  get-insert ((i, w) ∷ m) k j v =
      ground (arith, e.beq_iff k j, e.beq_iff i k, e.beq_iff i j, get-insert m k j v)

  pub get-remove : (m : Map K V) (k j : K) → get (remove m k) j ≡ (if k == j then none else get m j)
  unfolding get remove
  get-remove [] k j = ground arith
  get-remove ((i, w) ∷ m) k j =
      ground (arith, e.beq_iff k j, e.beq_iff i k, e.beq_iff i j, get-remove m k j)

  pub get-insert_self : (m : Map K V) (k : K) (v : V) → get (insert m k v) k ≡ some v
  get-insert_self m k v = rw (get-insert m k k v, beq_refl k)

  pub get-insert_ne : (m : Map K V) (k j : K) (v : V) → k ≢ j → get (insert m k v) j ≡ get m j
  get-insert_ne m k j v h = rw (get-insert m k j v, beq_of_ne k j h)

  pub get-remove_self : (m : Map K V) (k : K) → get (remove m k) k ≡ none
  get-remove_self m k = rw (get-remove m k k, beq_refl k)

  pub get-remove_ne : (m : Map K V) (k j : K) → k ≢ j → get (remove m k) j ≡ get m j
  get-remove_ne m k j h = rw (get-remove m k j, beq_of_ne k j h)

  -- No key stands twice.
  abbrev pub IsMap : Map K V → Type κ
  IsMap [] = Unit
  IsMap ((k, v) ∷ m) = (get m k ≡ none) × IsMap m

  pub insert-IsMap : (m : Map K V) (k : K) (v : V) → IsMap m → IsMap (insert m k v)
  unfolding insert get
  insert-IsMap [] k v h = (refl, tt)
  insert-IsMap ((j, w) ∷ m) k v h =
      ground (arith, e.beq_iff j k, e.beq_iff k j, insert-IsMap m k v, get-insert m k j v)

  pub remove-IsMap : (m : Map K V) (k : K) → IsMap m → IsMap (remove m k)
  unfolding remove
  remove-IsMap [] k h = tt
  remove-IsMap ((j, w) ∷ m) k h = ground (arith, remove-IsMap m k, get-remove m k j)

  pub remove_absent : (m : Map K V) (k : K) → get m k ≡ none → remove m k ≡ m
  unfolding remove get
  remove_absent [] k h = refl
  remove_absent ((j, w) ∷ m) k h = ground (arith, remove_absent m k)

pub ruleset map_laws = (get-insert, get-remove)

module _ {ℓ κ μ} {K : Type ℓ} {V : Type κ} ⦃e : Eq K⦄ (P : K → Type μ) where
  pub All-keys-insert :
      (m : Map K V) (k : K) (v : V) → All P (keys m) → P k → All P (keys (insert m k v))
  unfolding insert
  All-keys-insert [] k v r p = (p, tt)
  All-keys-insert ((j, w) ∷ m) k v r p = elim (Bool-cases (j == k)) [
    | inl e ↦ rw e (p, r.1)
    | inr e ↦ rw e (r.0, All-keys-insert m k v r.1 p)
  ]

  pub All-keys-remove : (m : Map K V) (k : K) → All P (keys m) → All P (keys (remove m k))
  unfolding remove
  All-keys-remove [] k r = tt
  All-keys-remove ((j, w) ∷ m) k r = elim (Bool-cases (j == k)) [
    | inl e ↦ rw e (All-keys-remove m k r.1)
    | inr e ↦ rw e (r.0, All-keys-remove m k r.1)
  ]

-- `iter().filter_map(…).collect()` from a map into a map with the same keys.
abbrev pub filter_values {ℓ κ μ} :
    {K : Type ℓ} {V : Type κ} {W : Type μ} → (K → V → Option W) → Map K V → Map K W
filter_values f [] = []
filter_values f ((k, v) ∷ m) = elim (f k v) [
  | none ↦ filter_values f m
  | some w ↦ (k, w) ∷ filter_values f m
]

module _ {ℓ κ μ} {K : Type ℓ} {V : Type κ} {W : Type μ} ⦃e : Eq K⦄ (f : K → V → Option W) where
  abbrev pub at_key : K → Option V → Option W
  at_key k none = none
  at_key k (some v) = f k v

  pub get-filter_values-none :
      (m : Map K V) (k : K) → get m k ≡ none → get (filter_values f m) k ≡ none
  unfolding get
  get-filter_values-none [] k h = refl
  get-filter_values-none ((j, v) ∷ m) k h = ground (arith, get-filter_values-none m k)

  -- An entry of the result is what `f` makes of the entry with its key.
  pub get-filter_values :
      (m : Map K V) (k : K) → IsMap m → get (filter_values f m) k ≡ at_key k (get m k)
  unfolding get
  get-filter_values [] k h = refl
  get-filter_values ((j, v) ∷ m) k h = ground (
    arith,
    e.beq_iff j k,
    get-filter_values m k h.1,
    get-filter_values-none m k,
    get-filter_values-none m j h.0,
  )
