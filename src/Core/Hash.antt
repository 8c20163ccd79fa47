-- ===== src/Core/Hash.antt =====
-- sk-core/src/jsonutils/hash.rs: what a JSON value feeds to the hasher. The hasher itself is the
-- standard library's; a model of it is any function of what it was fed.
use simkube.Common.{ℕ, ◌≡◌, refl, ap, sym, Bool, Option, none, some, List, [], ◌∷◌, ◌++◌, String}
use mathlib.Core.List.{append_assoc}
use simkube.Common.Int.{ℤ}
use simkube.Core.Json.{
  Value, Values, Fields, null, boolean, number, string, array, object, nil, cons, end, field,
}

-- One call of `Hash::hash` on a primitive.
pub data Token : Type 0 where
  absent : Token
  bit : Bool → Token
  int : ℤ → Token
  str : String → Token

pub record Hasher : Type 0 where
  pub finish : List Token → ℕ

unfoldable mutual
  pub tokens : Value → List Token
  tokens null = absent ∷ []
  tokens (boolean b) = bit b ∷ []
  tokens (number n) = int n ∷ []
  tokens (string s) = str s ∷ []
  tokens (array a) = tokens_all a
  tokens (object o) = tokens_fields o

  pub tokens_all : Values → List Token
  tokens_all nil = []
  tokens_all (cons v a) = tokens v ++ tokens_all a

  pub tokens_fields : Fields → List Token
  tokens_fields end = []
  tokens_fields (field k v o) = str k ∷ tokens v ++ tokens_fields o

module _ ⦃h : Hasher⦄ where
  unfoldable pub hash : Value → ℕ
  hash v = h.finish (tokens v)

  unfoldable pub hash_option : Option Value → ℕ
  hash_option none = h.finish (tokens null)
  hash_option (some v) = h.finish (tokens v)

abbrev pub join : Values → Values → Values
join nil ys = ys
join (cons x xs) ys = cons x (join xs ys)

tokens-join : (xs ys : Values) → tokens_all (join xs ys) ≡ tokens_all xs ++ tokens_all ys
unfolding tokens_all
tokens-join nil ys = refl
tokens-join (cons x xs) ys = rw (tokens-join xs ys, append_assoc)

-- Neither the length of an array nor its end is hashed. So for every hasher an array has the hash
-- of the array whose first element is spread into it, and the empty array that of the empty object.
pub hash-nested :
    ⦃h : Hasher⦄ (xs ys : Values)
    → (hash (array (cons (array xs) ys)) ≡ hash (array (join xs ys)))
      × (hash (array nil) ≡ hash (object end))
unfolding hash tokens
hash-nested ⦃h⦄ xs ys = (ap h.finish (sym (tokens-join xs ys)), refl)
