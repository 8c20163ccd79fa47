-- ===== src/Cli/Validation/Codes.antt =====
-- The codes under which validators are registered.
use Prim.Native.String
use Prim.Native.String.{count}
use text.Mathlib.Text.{is_lt}
use text.Mathlib.TextLemmas.{append_inj}
use text.Mathlib.TextEquality.{eq_iff}
use simkube.Common.{
  ℕ, suc, ◌<◌, ◌≡◌, ◌≢◌, refl, sym, ◌∙◌, Bool, true, false, none, [], ◌∷◌, String, ok, length,
  arith, ◌==◌, string_eq, if◌then◌else◌,
}
use simkube.Common.BTreeMap
use simkube.Common.BTreeMap.{get-insert, length-insert_absent}
use simkube.Common.Decimal.{padded, padded_injective}
use simkube.Common.Map
use simkube.Common.Text.{append}
use simkube.Cli.Validation.{
  ValidatorType, warning, error, show_type, Validator, ValidationStore, code_of, lookup, register,
}

-- The keys were made by `register`, for fewer validators than there are now.
abbrev pub HasCode : ℕ → String → Type 0
HasCode n key = (t : ValidatorType) × (i : ℕ) × (i < n) × (key ≡ append (show_type t) (padded 4 i))

abbrev pub KeysBelow : ℕ → ValidationStore → Type 0
KeysBelow n [] = Unit
KeysBelow n ((key, v) ∷ vs) = HasCode n key × KeysBelow n vs

abbrev pub IsRegistered : ValidationStore → Type 0
IsRegistered vs = KeysBelow (length vs) vs

show_type-count : (t u : ValidatorType) → count (show_type t) ≡ count (show_type u)
show_type-count warning warning = refl
show_type-count warning error = refl
show_type-count error warning = refl
show_type-count error error = refl

code_injective :
    (t u : ValidatorType) (i j : ℕ)
    → append (show_type t) (padded 4 i) ≡ append (show_type u) (padded 4 j)
    → i ≡ j
code_injective t u i j e = padded_injective 4 i j (append_inj e (show_type-count t u)).1

KeysBelow-fresh :
    (n : ℕ) (vs : ValidationStore) (t : ValidatorType)
    → KeysBelow n vs
    → Map.get vs (append (show_type t) (padded 4 n)) ≡ none
unfolding Map.get
KeysBelow-fresh n [] t h = refl
KeysBelow-fresh n ((key, v) ∷ vs) t h =
    let (u, i, less, made) = h.0 in
    let other : key ≢ append (show_type t) (padded 4 n) =
      λ e. absurd (omega (arith, code_injective u t i n (sym made ∙ e))) in
    ground
      (arith, eq_iff key (append (show_type t) (padded 4 n)), other, KeysBelow-fresh n vs t h.1)

KeysBelow-suc : (n : ℕ) (vs : ValidationStore) → KeysBelow n vs → KeysBelow (suc n) vs
KeysBelow-suc n [] h = tt
KeysBelow-suc n ((key, v) ∷ vs) h = ((h.0.0, h.0.1, omega arith, h.0.3), KeysBelow-suc n vs h.1)

KeysBelow-if :
    (n : ℕ) (b : Bool) (vs ws : ValidationStore)
    → KeysBelow n vs
    → KeysBelow n ws
    → KeysBelow n (if b then vs else ws)
KeysBelow-if n true vs ws h k = h
KeysBelow-if n false vs ws h k = k

KeysBelow-insert :
    (n : ℕ) (vs : ValidationStore) (key : String) (v : Validator)
    → HasCode n key
    → KeysBelow n vs
    → KeysBelow n (BTreeMap.insert vs key v)
unfolding BTreeMap.insert
KeysBelow-insert n [] key v code h = (code, tt)
KeysBelow-insert n ((k, w) ∷ vs) key v code h =
    KeysBelow-if n (k == key) _ _ (code, h.1)
      (KeysBelow-if n (is_lt (String.compare key k)) _ _ (code, h)
        (h.0, KeysBelow-insert n vs key v code h.1))

-- A store to which validators are only added by `register` gives each a code of its own: a new one is
-- found under its code, all others are found under theirs as before, and there is one more.
pub register-lookup :
    (vs : ValidationStore) (v : Validator)
    → IsRegistered vs
    → IsRegistered (register vs v)
      × (length (register vs v) ≡ suc (length vs))
      × (lookup (register vs v) (code_of vs v) ≡ ok v)
      × ((code : String) (w : Validator)
          → lookup vs code ≡ ok w
          → lookup (register vs v) code ≡ ok w)
unfolding register lookup
register-lookup vs v h =
    let fresh = KeysBelow-fresh (length vs) vs v.type_ h in
    let longer = length-insert_absent vs (code_of vs v) v fresh in
    let n = length vs in
    (
      rw longer (
          KeysBelow-insert (suc n) vs (code_of vs v) v (v.type_, n, omega arith, refl)
            (KeysBelow-suc n vs h)),
      longer,
      ground (
        arith,
        get-insert vs (code_of vs v) (code_of vs v) v,
        eq_iff (code_of vs v) (code_of vs v),
      ),
      λ code w found.
          ground (arith, get-insert vs (code_of vs v) code v, eq_iff (code_of vs v) code, fresh),
    )
