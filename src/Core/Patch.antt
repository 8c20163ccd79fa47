-- ===== src/Core/Patch.antt =====
-- sk-core/src/jsonutils/patch_ext.rs: `add` and `remove` at every value that a path with stars names.
pub mod Added
pub mod Lens
use Prim.Native.Char.{Char, code}
use Prim.Native.String
use simkube.Common.{
  ℕ, zero, suc, ◌+◌, ◌-◌, ◌*◌, Bool, true, false, not, ◌&&◌, ◌||◌, Option, none, some, List, [],
  ◌∷◌, ◌++◌, String, Outcome, ok, err, panic, Error, invalid_pointer, out_of_bounds,
  unexpected_type, ok_or, unwrap, ◌>>=◌, ◌==◌, string_eq, nat_beq, ltb, leb, is_some, if◌then◌else◌,
}
use simkube.Common.Text.{append, push_front, split}
use simkube.Core.Json.{
  Value, Values, Fields, null, boolean, number, string, array, object, nil, cons, end, field,
  get_field,
}

-- How `serde_json` reads a JSON pointer: its tokens, if it is one, and a token as an index.
pub record Pointers : Type 0 where
  pub tokens : String → Option (List String)
  pub parse_index : String → Option ℕ

abbrev pub set_field : Fields → String → Value → Fields
set_field end key v = field key v end
set_field (field k w fs) key v = if k == key then field key v fs else field k w (set_field fs key v)

abbrev pub remove_field : Fields → String → Fields
remove_field end key = end
remove_field (field k w fs) key =
    if k == key then remove_field fs key else field k w (remove_field fs key)

abbrev pub nth : Values → ℕ → Option Value
nth nil i = none
nth (cons v vs) zero = some v
nth (cons v vs) (suc i) = nth vs i

abbrev pub set_nth : Values → ℕ → Value → Values
set_nth nil i w = nil
set_nth (cons v vs) zero w = cons w vs
set_nth (cons v vs) (suc i) w = cons v (set_nth vs i w)

abbrev pub count : Values → ℕ
count nil = 0
count (cons v vs) = suc (count vs)

-- `vec.insert(idx, value)`; at the length it is a push.
abbrev pub insert_at : Values → ℕ → Value → Values
insert_at vs zero w = cons w vs
insert_at nil (suc i) w = cons w nil
insert_at (cons v vs) (suc i) w = cons v (insert_at vs i w)

-- A name without its last character, which is to be of one byte.
pub drop_last : String → Option String
drop_last String.[] = none
drop_last (String.◌∷◌ c s) = elim (drop_last s) [
  | none ↦ if s == "" then (if ltb (code c) 128 then some "" else none) else none
  | some t ↦ some (push_front c t)
]

-- `key.parse::<usize>()`, of 64 bits: digits, with a plus sign or without.
parse_digits : ℕ → String → Option ℕ
parse_digits n String.[] = if ltb n 18446744073709551616 then some n else none
parse_digits n (String.◌∷◌ c s) =
    let rest = parse_digits (10 * n + (code c - 48)) s in
    if leb 48 (code c) && leb (code c) 57 then rest else none

unsigned : String → Option ℕ
unsigned String.[] = none
unsigned (String.◌∷◌ c s) = parse_digits 0 (push_front c s)

pub parse_usize : String → Option ℕ
parse_usize String.[] = none
parse_usize (String.◌∷◌ c s) =
    if nat_beq (code c) b'+' then unsigned s else unsigned (push_front c s)

module _ ⦃p : Pointers⦄ where
  at_index : Values → Option ℕ → Option Value
  at_index vs none = none
  at_index vs (some i) = nth vs i

  child : Value → String → Option Value
  child (object fs) t = get_field fs t
  child (array vs) t = at_index vs (p.parse_index t)
  child _ t = none

  write_index : Values → Option ℕ → Value → Values
  write_index vs none w = vs
  write_index vs (some i) w = set_nth vs i w

  set_child : Value → String → Value → Value
  set_child (object fs) t w = object (set_field fs t w)
  set_child (array vs) t w = array (write_index vs (p.parse_index t) w)
  set_child v t w = v

  -- What `pointer_mut` refers to.
  resolve : List String → Value → Option Value
  resolve [] v = some v
  resolve (t ∷ ts) v = elim (child v t) [ none ↦ none | some c ↦ resolve ts c ]

  pointer : Error → String → Value → Outcome Value
  pointer bad path v = do ts ← ok_or (p.tokens path) bad; ok_or (resolve ts v) bad

  -- What a change through that reference makes of the whole.
  change : (Value → Outcome Value) → List String → Value → Outcome Value
  change f [] v = f v
  change f (t ∷ ts) v = elim (child v t) [
    | none ↦ ok v
    | some c ↦ do c' ← change f ts c; ok (set_child v t c')
  ]

  change_pointer : Error → (Value → Outcome Value) → String → Value → Outcome Value
  change_pointer bad f path v = do ts ← ok_or (p.tokens path) bad; change f ts v

  each_target : (Value → Outcome (List Value)) → Values → Outcome (List Value)
  each_target f nil = ok []
  each_target f (cons v vs) = do xs ← f v; ys ← each_target f vs; ok (xs ++ ys)

  of_array : Error → (Value → Outcome (List Value)) → Value → Outcome (List Value)
  of_array bad f (array vs) = each_target f vs
  of_array bad f _ = err bad

  -- The values that the parts of a path refer to. A part before a star loses its last character; an
  -- empty part there is a panic.
  unfoldable pub patch_ext_helper : Error → List String → Value → Outcome (List Value)
  unfolding pointer of_array drop_last resolve child at_index each_target
  patch_ext_helper bad [] v = panic
  patch_ext_helper bad (part ∷ []) v = do x ← pointer bad part v; ok (x ∷ [])
  patch_ext_helper bad (part ∷ next ∷ parts) v = do
    prefix ← unwrap (drop_last part)
    x ← pointer bad prefix v
    of_array bad (patch_ext_helper bad (next ∷ parts)) x

  each_changed : (Value → Outcome Value) → Values → Outcome Values
  each_changed f nil = ok nil
  each_changed f (cons v vs) = do w ← f v; ws ← each_changed f vs; ok (cons w ws)

  change_array : (Value → Outcome Value) → Value → Outcome Value
  change_array f (array vs) = do ws ← each_changed f vs; ok (array ws)
  change_array f v = ok v

  -- What changing each of them makes of the whole.
  unfoldable pub change_targets :
      Error → (Value → Outcome Value) → List String → Value → Outcome Value
  unfolding change_pointer change_array drop_last change child at_index set_child write_index
      each_changed
  change_targets bad f [] v = panic
  change_targets bad f (part ∷ []) v = change_pointer bad f part v
  change_targets bad f (part ∷ next ∷ parts) v = do
    prefix ← unwrap (drop_last part)
    change_pointer bad (change_array (change_targets bad f (next ∷ parts))) prefix v

  -- The body of the loop of `add`.
  unfoldable pub add_to : String → String → Value → Bool → Value → Outcome Value
  unfolding parse_usize unsigned parse_digits
  add_to path key value overwrite (object fs) = ok (
      object (if overwrite || not (is_some (get_field fs key)) then set_field fs key value else fs))
  add_to path key value overwrite (array vs) =
      if key == "-" then ok (array (insert_at vs (count vs) value)) else elim (parse_usize key) [
        | some idx ↦
            if leb idx (count vs)
            then ok (array (insert_at vs idx value))
            else err (out_of_bounds (append path (append "/" key)))
        | none ↦ err (out_of_bounds path)
      ]
  add_to path key value overwrite _ = err (unexpected_type path)

  unfoldable pub remove_from : String → String → Value → Outcome Value
  remove_from path key (object fs) = ok (object (remove_field fs key))
  remove_from path key _ = err (unexpected_type path)

  -- All the references are taken first; then each value is changed in turn, up to an error.
  unfoldable pub add : String → String → Value → Value → Bool → Outcome Value
  add path key value obj overwrite = do
    _ ← patch_ext_helper (invalid_pointer path) (split b'*' path) obj
    change_targets (invalid_pointer path) (add_to path key value overwrite) (split b'*' path) obj

  unfoldable pub remove : String → String → Value → Outcome Value
  remove path key obj = do
    _ ← patch_ext_helper (invalid_pointer path) (split b'*' path) obj
    change_targets (invalid_pointer path) (remove_from path key) (split b'*' path) obj
