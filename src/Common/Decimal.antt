-- ===== src/Common/Decimal.antt =====
-- Numbers as `format!` writes them: in decimal, padded with zeros in front.
use Prim.Native.Char.{Char, code}
use Prim.Native.String.{String}
use Prim.Native.Nat.{ℕ, zero, suc, ◌+◌, ◌-◌, ◌*◌, ◌/◌, ◌%◌, ◌<◌}
use mathlib.Core.Path.{◌≡◌, refl, sym, ap, ◌∙◌}
use mathlib.Core.Logic.{inl, inr}
use native.Mathlib.Omega.{arith}
use simkube.Common.Tests.{ltb, Bool-cases, if◌then◌else◌}
use simkube.Common.Text.{push_front}

digit : ℕ → Char
digit zero = "0"
digit (suc zero) = "1"
digit (suc (suc zero)) = "2"
digit (suc (suc (suc zero))) = "3"
digit (suc (suc (suc (suc zero)))) = "4"
digit (suc (suc (suc (suc (suc zero))))) = "5"
digit (suc (suc (suc (suc (suc (suc zero)))))) = "6"
digit (suc (suc (suc (suc (suc (suc (suc zero))))))) = "7"
digit (suc (suc (suc (suc (suc (suc (suc (suc zero)))))))) = "8"
digit _ = "9"

code-digit : (d : ℕ) → d < 10 → code (digit d) ≡ 48 + d
unfolding digit
code-digit zero h = refl
code-digit (suc zero) h = refl
code-digit (suc (suc zero)) h = refl
code-digit (suc (suc (suc zero))) h = refl
code-digit (suc (suc (suc (suc zero)))) h = refl
code-digit (suc (suc (suc (suc (suc zero))))) h = refl
code-digit (suc (suc (suc (suc (suc (suc zero)))))) h = refl
code-digit (suc (suc (suc (suc (suc (suc (suc zero))))))) h = refl
code-digit (suc (suc (suc (suc (suc (suc (suc (suc zero)))))))) h = refl
code-digit (suc (suc (suc (suc (suc (suc (suc (suc (suc d))))))))) h =
    let e : d ≡ 0 = omega arith in rw e refl

-- The digits of a number in front of a text, with fuel for the digits.
digits : ℕ → ℕ → String → String
digits zero n s = s
digits (suc fuel) n s =
    let rest = digits fuel (n / 10) (push_front (digit (n % 10)) s) in
    if ltb n 10 then push_front (digit n) s else rest

abbrev chars : String → ℕ
chars String.[] = 0
chars (String.◌∷◌ c s) = suc (chars s)

zeros : ℕ → String → String
zeros zero s = s
zeros (suc k) s = push_front "0" (zeros k s)

-- `{:0w}`
unfoldable pub padded : ℕ → ℕ → String
unfolding digits zeros digit
padded w n = let s = digits (suc n) n "" in zeros (w - chars s) s

-- What a row of digits stands for, behind a number.
value : ℕ → String → ℕ
value a String.[] = a
value a (String.◌∷◌ c s) = value (a * 10 + (code c - 48)) s

value-digits : (fuel n : ℕ) (s : String) → n < fuel → value 0 (digits fuel n s) ≡ value n s
unfolding digits value
value-digits zero n s h = absurd (omega arith)
value-digits (suc fuel) n s h = elim (Bool-cases (ltb n 10)) [
  | inl e ↦ rw e (ap (λ k. value k s) (ground (arith, code-digit n)))
  | inr e ↦ rw e (
      value-digits fuel (n / 10) (push_front (digit (n % 10)) s) (ground arith)
      ∙ ap (λ k. value k s) (ground (arith, code-digit (n % 10))))
]

value-zeros : (k : ℕ) (s : String) → value 0 (zeros k s) ≡ value 0 s
unfolding zeros value
value-zeros zero s = refl
value-zeros (suc k) s = value-zeros k s

-- Different numbers are written differently, whatever the width.
pub padded_injective : (w n m : ℕ) → padded w n ≡ padded w m → n ≡ m
unfolding padded value
padded_injective w n m e = sym (read n) ∙ ap (value 0) e ∙ read m
  where
    read : (k : ℕ) → value 0 (padded w k) ≡ k
    read k =
        value-zeros (w - chars (digits (suc k) k "")) (digits (suc k) k "")
        ∙ value-digits (suc k) k "" (omega arith)
