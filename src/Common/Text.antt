-- ===== src/Common/Text.antt =====
-- `str` methods of the standard library, by recursion on the characters.
use Prim.Native.Char.{Char, code}
use Prim.Native.String.{◌++◌}
use Prim.Native.String
use Prim.Native.String.{String}
use text.Mathlib.TextLemmas.{nil-append, cons-append}
use mathlib.Core.Path.{◌≡◌, refl}
use mathlib.Core.Bool.{Bool, false, ◌||◌}
use mathlib.Core.Option.{Option, none, some}
use mathlib.Core.List.{List, [], ◌∷◌}
use native.Mathlib.Omega.{arith}
use Prim.Native.Nat.{ℕ}
use simkube.Common.Tests.{nat_beq, if◌then◌else◌}

abbrev pub append : String → String → String
append = String.◌++◌

-- A character in front of a text.
abbrev pub push_front : Char → String → String
push_front = String.◌∷◌

unfoldable pub has_char : ℕ → String → Bool
has_char c String.[] = false
has_char c (String.◌∷◌ d s) = nat_beq (code d) c || has_char c s

abbrev before : Char → Option (String × String) → Option (String × String)
before d none = none
before d (some (a, b)) = some (push_front d a, b)

-- `s.split_once(c)`
unfoldable pub split_once : ℕ → String → Option (String × String)
split_once c String.[] = none
split_once c (String.◌∷◌ d s) =
    if nat_beq (code d) c then some ("", s) else before d (split_once c s)

abbrev onto_first : Char → List String → List String
onto_first d [] = push_front d "" ∷ []
onto_first d (p ∷ ps) = push_front d p ∷ ps

-- `s.split(c).collect()`, which is never empty.
unfoldable pub split : ℕ → String → List String
split c String.[] = "" ∷ []
split c (String.◌∷◌ d s) =
    let rest = split c s in if nat_beq (code d) c then "" ∷ rest else onto_first d rest

-- `s.replace(c, with)` for a character `c`.
unfoldable pub replace : ℕ → String → String → String
replace c with String.[] = ""
replace c with (String.◌∷◌ d s) =
    let rest = replace c with s in
    if nat_beq (code d) c then append with rest else push_front d rest

-- A text splits at the first separator, if its first part has none.
pub split_once-append :
    (c : ℕ) (d : Char) (s t : String)
    → code d ≡ c
    → has_char c s ≡ false
    → split_once c (append s (push_front d t)) ≡ some (s, t)
unfolding split_once has_char
split_once-append c d String.[] t e h = rw nil-append (ground arith)
split_once-append c d (String.◌∷◌ a s) t e h =
    rw cons-append (ground (arith, split_once-append c d s t e))

pub split_once_absent : (c : ℕ) (s : String) → has_char c s ≡ false → split_once c s ≡ none
unfolding split_once has_char
split_once_absent c String.[] h = refl
split_once_absent c (String.◌∷◌ a s) h = ground (arith, split_once_absent c s)

pub split_whole : (c : ℕ) (s : String) → has_char c s ≡ false → split c s ≡ s ∷ []
unfolding split has_char
split_whole c String.[] h = refl
split_whole c (String.◌∷◌ a s) h = ground (arith, split_whole c s)

pub split-append :
    (c : ℕ) (d : Char) (s t : String)
    → code d ≡ c
    → has_char c s ≡ false
    → split c (append s (push_front d t)) ≡ s ∷ split c t
unfolding split has_char
split-append c d String.[] t e h = rw nil-append (ground arith)
split-append c d (String.◌∷◌ a s) t e h = rw cons-append (ground (arith, split-append c d s t e))

pub has_char-append :
    (c : ℕ) (s t : String) → has_char c (append s t) ≡ (has_char c s || has_char c t)
unfolding has_char
has_char-append c String.[] t = rw nil-append refl
has_char-append c (String.◌∷◌ a s) t = rw cons-append (ground (arith, has_char-append c s t))
