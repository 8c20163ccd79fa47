-- ===== src/Core/Patch/Added.antt =====
-- What the extended patch `add` makes of one value.
use simkube.Common.{
  ℕ, zero, suc, ◌≡◌, ◌≢◌, ◌≤◌, ◌<◌, ◌⊎◌, inl, inr, refl, ap, Bool, true, false, not, ◌||◌, is_some,
  Option, none, some, String, ok, arith, string_eq, ◌==◌, Bool-cases, ok_injective, leb,
  if◌then◌else◌,
}
use mathlib.Core.Path.{subst}
use text.Mathlib.TextEquality.{eq_iff}
use simkube.Core.Json.{
  Value, Values, Fields, null, boolean, number, string, array, object, nil, cons, end, field,
  get_field,
}
use simkube.Core.Patch.{Pointers, set_field, nth, set_nth, insert_at, count, parse_usize, add_to}

pub get_field-set_field :
    (fs : Fields) (k : String) (v : Value) → get_field (set_field fs k v) k ≡ some v
unfolding get_field
get_field-set_field end k v = ground (arith, eq_iff k k)
get_field-set_field (field j w fs) k v = ground (arith, eq_iff k k, get_field-set_field fs k v)

pub get_field-set_field_other :
    (fs : Fields) (k key : String) (v : Value)
    → k ≢ key
    → get_field (set_field fs key v) k ≡ get_field fs k
unfolding get_field
get_field-set_field_other end k key v h = ground (arith, eq_iff key k, eq_iff k key, h)
get_field-set_field_other (field j w fs) k key v h = ground (
  arith,
  eq_iff key k,
  eq_iff k key,
  eq_iff j key,
  eq_iff j k,
  h,
  get_field-set_field_other fs k key v h,
)

pub nth-set_nth :
    (vs : Values) (i : ℕ) (v w : Value) → nth vs i ≡ some v → nth (set_nth vs i w) i ≡ some w
nth-set_nth nil i v w e = absurd (ground arith)
nth-set_nth (cons x vs) zero v w e = refl
nth-set_nth (cons x vs) (suc i) v w e = nth-set_nth vs i v w e

pub nth-set_nth_other :
    (vs : Values) (i j : ℕ) (w : Value) → j ≢ i → nth (set_nth vs i w) j ≡ nth vs j
nth-set_nth_other nil i j w h = refl
nth-set_nth_other (cons x vs) zero zero w h = absurd (h refl)
nth-set_nth_other (cons x vs) zero (suc j) w h = refl
nth-set_nth_other (cons x vs) (suc i) zero w h = refl
nth-set_nth_other (cons x vs) (suc i) (suc j) w h = nth-set_nth_other vs i j w (λ e. h (ap suc e))

-- A value stands at a place of a longer array, and the others keep their order around it.
pub record IsInserted (vs vs' : Values) (i : ℕ) (w : Value) : Type 0 where
  pub there : nth vs' i ≡ some w
  pub below : (j : ℕ) → j < i → nth vs' j ≡ nth vs j
  pub above : (j : ℕ) → i ≤ j → nth vs' (suc j) ≡ nth vs j

insert_at-IsInserted :
    (vs : Values) (i : ℕ) (w : Value) → i ≤ count vs → IsInserted vs (insert_at vs i w) i w
insert_at-IsInserted vs zero w l = record {
  there = refl;
  below = λ j m. absurd (omega arith);
  above = λ j m. refl;
}
insert_at-IsInserted nil (suc i) w l = absurd (omega arith)
insert_at-IsInserted (cons v vs) (suc i) w l =
    let ih = insert_at-IsInserted vs i w (omega arith) in
    record { there = ih.there; below = before ih; above = behind ih }
  where
    before :
        IsInserted vs (insert_at vs i w) i w
        → (j : ℕ) → j < suc i
        → nth (cons v (insert_at vs i w)) j ≡ nth (cons v vs) j
    before ih zero m = refl
    before ih (suc j) m = ih.below j (omega arith)

    behind :
        IsInserted vs (insert_at vs i w) i w
        → (j : ℕ) → suc i ≤ j
        → nth (insert_at vs i w) j ≡ nth (cons v vs) j
    behind ih zero m = absurd (omega arith)
    behind ih (suc j) m = ih.above j (omega arith)

-- What `add` makes of one value: a field is set if it may be, a value is pushed or inserted.
pub data IsAdded (key : String) (value : Value) (overwrite : Bool) : Value → Value → Type 0 where
  is_set :
      {fs fs' : Fields}
      → (overwrite ≡ true) ⊎ (get_field fs key ≡ none)
      → get_field fs' key ≡ some value
      → ((k : String) → k ≢ key → get_field fs' k ≡ get_field fs k)
      → IsAdded key value overwrite (object fs) (object fs')
  is_kept :
      {fs : Fields} {w : Value}
      → overwrite ≡ false
      → get_field fs key ≡ some w
      → IsAdded key value overwrite (object fs) (object fs)
  is_pushed :
      {vs vs' : Values}
      → key ≡ "-"
      → IsInserted vs vs' (count vs) value
      → IsAdded key value overwrite (array vs) (array vs')
  is_inserted :
      {vs vs' : Values} {i : ℕ}
      → key ≢ "-"
      → parse_usize key ≡ some i
      → i ≤ count vs
      → IsInserted vs vs' i value
      → IsAdded key value overwrite (array vs) (array vs')

add_to-field :
    (path key : String) (value : Value) (overwrite : Bool) (fs : Fields) (o : Option Value)
    → get_field fs key ≡ o
    → (b : Bool) → overwrite ≡ b
    → IsAdded key value overwrite
        (object fs)
        (object (if b || not (is_some o) then set_field fs key value else fs))
add_to-field path key value overwrite fs o e true f =
    is_set (inl f) (get_field-set_field fs key value)
      (λ k. get_field-set_field_other fs k key value)
add_to-field path key value overwrite fs none e false f =
    is_set (inr e) (get_field-set_field fs key value)
      (λ k. get_field-set_field_other fs k key value)
add_to-field path key value overwrite fs (some w) e false f = is_kept f e

pub add_to-IsAdded :
    ⦃p : Pointers⦄ (path key : String) (value : Value) (overwrite : Bool) (v v' : Value)
    → add_to path key value overwrite v ≡ ok v'
    → IsAdded key value overwrite v v'
unfolding add_to
add_to-IsAdded path key value overwrite (object fs) v' e =
    subst (IsAdded key value overwrite (object fs)) (ok_injective _ v' e)
      (add_to-field path key value overwrite fs (get_field fs key) refl overwrite refl)
add_to-IsAdded path key value overwrite (array vs) v' e = elim (Bool-cases (key == "-")) [
  | inl dash ↦
      let at_end : ok (array (insert_at vs (count vs) value)) ≡ ok v' = ground (arith, dash, e) in
      subst (IsAdded key value overwrite (array vs)) (ok_injective _ v' at_end) (
        is_pushed (ground (arith, dash, eq_iff key "-"))
          (insert_at-IsInserted vs (count vs) value (omega arith)))
  | inr other ↦ of_index other (parse_usize key) refl
]
  where
    of_index :
        (key == "-") ≡ false
        → (o : Option ℕ) → parse_usize key ≡ o
        → IsAdded key value overwrite (array vs) v'
    of_index other none p = absurd (ground (arith, other, p, e))
    of_index other (some i) p = elim (Bool-cases (leb i (count vs))) [
      | inl fits ↦
          let at : ok (array (insert_at vs i value)) ≡ ok v' = ground (arith, other, p, fits, e) in
          subst (IsAdded key value overwrite (array vs)) (ok_injective _ v' at) (
            is_inserted (λ d. absurd (ground (arith, other, eq_iff key "-", d))) p
              (ground (arith, fits)) (insert_at-IsInserted vs i value (ground (arith, fits))))
      | inr beyond ↦ absurd (ground (arith, other, p, beyond, e))
    ]
add_to-IsAdded path key value overwrite null v' e = absurd (ground arith)
add_to-IsAdded path key value overwrite (boolean b) v' e = absurd (ground arith)
add_to-IsAdded path key value overwrite (number n) v' e = absurd (ground arith)
add_to-IsAdded path key value overwrite (string s) v' e = absurd (ground arith)
