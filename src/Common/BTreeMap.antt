-- ===== src/Common/BTreeMap.antt =====
-- `BTreeMap` with texts as keys: an association list in the order of the keys.
use Prim.Native.String
use Prim.Native.String.{String}
use Prim.Native.Nat.{suc}
use mathlib.Core.Path.{◌≡◌, refl}
use mathlib.Core.Option.{none, some}
use mathlib.Core.List.{[], ◌∷◌}
use native.Mathlib.Omega.{arith}
use text.Mathlib.Text.{is_lt}
use text.Mathlib.TextEquality.{eq_iff}
use simkube.Common.Tests.{◌==◌, string_eq, if◌then◌else◌}
use simkube.Common.Lists.{length}
use simkube.Common.Map.{Map, get}

module _ {ℓ} {V : Type ℓ} where
  unfoldable pub insert : Map String V → String → V → Map String V
  insert [] k v = (k, v) ∷ []
  insert ((j, w) ∷ m) k v =
      let rest = (j, w) ∷ insert m k v in
      if j == k
      then (k, v) ∷ m
      else if is_lt (String.compare k j)
      then (k, v) ∷ (j, w) ∷ m
      else rest

  pub get-insert :
      (m : Map String V) (k j : String) (v : V)
      → get (insert m k v) j ≡ (if k == j then some v else get m j)
  unfolding insert get
  get-insert [] k j v = refl
  get-insert ((i, w) ∷ m) k j v =
      ground (arith, eq_iff k j, eq_iff i k, eq_iff i j, get-insert m k j v)

  -- A key that is new makes the map longer.
  pub length-insert_absent :
      (m : Map String V) (k : String) (v : V)
      → get m k ≡ none
      → length (insert m k v) ≡ suc (length m)
  unfolding insert get
  length-insert_absent [] k v h = refl
  length-insert_absent ((i, w) ∷ m) k v h = ground (arith, eq_iff i k, length-insert_absent m k v)
