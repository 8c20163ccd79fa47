-- ===== src/Common/Results.antt =====
-- `anyhow::Result`, with a panic told apart from an error value: no handler of the program
-- catches a panic.
use Prim.Native.Nat.{ℕ}
use Prim.Native.String.{String}
use mathlib.Core.Option.{Option, none, some}
use mathlib.Core.Path.{◌≡◌, refl, ap}
use native.Mathlib.Omega.{arith}

-- One constructor for each error that the code raises; `message` is a bare `bail!` or `anyhow!`,
-- and `external` an error of a library, by the library's own code.
pub data Error : Type 0 where
  field_not_found lease_held_by_other malformed_label_selector : String → Error
  malformed_container_state : Error
  invalid_pointer out_of_bounds unexpected_type : String → Error
  namespace_not_found cleanup_failed cleanup_timeout message : String → Error
  external : ℕ → Error

pub data Outcome {ℓ} (A : Type ℓ) : Type ℓ where
  ok : A → Outcome A
  err : Error → Outcome A
  panic : Outcome A

infixl 5 ◌>>=◌ ◌>>◌
abbrev pub ◌>>=◌ {ℓ κ} : {A : Type ℓ} {B : Type κ} → Outcome A → (A → Outcome B) → Outcome B
ok a >>= f = f a
err e >>= f = err e
panic >>= f = panic

abbrev pub ◌>>◌ {ℓ κ} : {A : Type ℓ} {B : Type κ} → Outcome A → Outcome B → Outcome B
m >> k = m >>= λ _. k

-- With a state, an error leaves what was changed before it.
infixl 5 ◌>>>◌
abbrev pub ◌>>>◌ {ℓ κ} :
    {S : Type κ} {A : Type ℓ} {B : Type ℓ} → Outcome A × S → (A → S → Outcome B × S) → Outcome B × S
(ok a, s) >>> k = k a s
(err e, s) >>> k = (err e, s)
(panic, s) >>> k = (panic, s)

-- `o.ok_or(e)?`
abbrev pub ok_or {ℓ} : {A : Type ℓ} → Option A → Error → Outcome A
ok_or none e = err e
ok_or (some a) e = ok a

-- `o.unwrap()`
abbrev pub unwrap {ℓ} : {A : Type ℓ} → Option A → Outcome A
unwrap none = panic
unwrap (some a) = ok a

abbrev pub ok? {ℓ} : {A : Type ℓ} → Outcome A → Option A
ok? (ok a) = some a
ok? (err e) = none
ok? panic = none

-- Inversion of a successful bind.
pub bind-eq-ok {ℓ κ} :
    {A : Type ℓ} {B : Type κ} (m : Outcome A) (f : A → Outcome B) {b : B}
    → (m >>= f) ≡ ok b
    → (a : A) × (m ≡ ok a) × (f a ≡ ok b)
bind-eq-ok (ok a) f h = (a, refl, h)
bind-eq-ok (err e) f h = absurd (ground arith)
bind-eq-ok panic f h = absurd (ground arith)

pub ok_injective {ℓ} : {A : Type ℓ} (a b : A) → ok a ≡ ok b → a ≡ b
ok_injective a b h = ap (λ o. elim o [ ok x ↦ x | err e ↦ a | panic ↦ a ]) h

pub seq-eq-ok {ℓ κ} :
    {S : Type κ} {A : Type ℓ} {B : Type ℓ} (x : Outcome A) (s : S) (k : A → S → Outcome B × S)
    {b : B} {s' : S}
    → ((x, s) >>> k) ≡ (ok b, s')
    → (a : A) × (x ≡ ok a) × (k a s ≡ (ok b, s'))
seq-eq-ok (ok a) s k h = (a, refl, h)
seq-eq-ok (err e) s k h = absurd (ground arith)
seq-eq-ok panic s k h = absurd (ground arith)

pub ok_or-some {ℓ} : {A : Type ℓ} (o : Option A) (x : Error) (a : A) → ok_or o x ≡ ok a → o ≡ some a
ok_or-some none x a e = absurd (ground arith)
ok_or-some (some b) x a e = ap some (ok_injective b a e)

pub unwrap-some {ℓ} : {A : Type ℓ} (o : Option A) (a : A) → unwrap o ≡ ok a → o ≡ some a
unwrap-some none a e = absurd (ground arith)
unwrap-some (some b) a e = ap some (ok_injective b a e)
