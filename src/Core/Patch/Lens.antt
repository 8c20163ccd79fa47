-- ===== src/Core/Patch/Lens.antt =====
-- The extended patches change the values that their path names, each in its place, and nothing else.
use mathlib.Core.Path.{subst}
use simkube.Common.{
  ℕ, ◌≡◌, ◌≢◌, refl, sym, ap, ◌∙◌, Bool, Option, none, some, List, [], ◌∷◌, String, Outcome, ok,
  Error, invalid_pointer, arith, string_eq, bind-eq-ok, ok_or-some, unwrap-some, ok_injective,
  ok_or, unwrap,
}
use simkube.Common.Text.{split}
use simkube.Core.Json.{
  Value, Values, Fields, null, boolean, number, string, array, object, nil, cons, get_field,
}
use simkube.Core.Patch.{
  Pointers, set_field, nth, drop_last, at_index, child, write_index, set_child, resolve, pointer,
  change, change_pointer, each_target, of_array, patch_ext_helper, each_changed, change_array,
  change_targets, add_to, add,
}
use simkube.Core.Patch.Added.{
  IsAdded, add_to-IsAdded, get_field-set_field, get_field-set_field_other, nth-set_nth,
  nth-set_nth_other,
}

-- Two arrays are of one length, and their values are related each to the one in its place.
abbrev pub AllItems : (Value → Value → Type 0) → Values → Values → Type 0
AllItems R nil nil = Unit
AllItems R (cons v vs) (cons v' vs') = R v v' × AllItems R vs vs'
AllItems R _ _ = ⊥

abbrev pub InArray : (Value → Value → Type 0) → Value → Value → Type 0
InArray R (array vs) (array vs') = AllItems R vs vs'
InArray R _ _ = ⊥

module _ ⦃p : Pointers⦄ where
  -- Two values differ in one place, which the tokens of a pointer lead to, and what is there is related.
  pub data At (R : Value → Value → Type 0) : List String → Value → Value → Type 0 where
    here : {v v' : Value} → R v v' → At R [] v v'
    in_object :
        {t : String} {ts : List String} {fs fs' : Fields} {c c' : Value}
        → get_field fs t ≡ some c
        → get_field fs' t ≡ some c'
        → ((k : String) → k ≢ t → get_field fs' k ≡ get_field fs k)
        → At R ts c c'
        → At R (t ∷ ts) (object fs) (object fs')
    in_array :
        {t : String} {ts : List String} {vs vs' : Values} {c c' : Value} {i : ℕ}
        → p.parse_index t ≡ some i
        → nth vs i ≡ some c
        → nth vs' i ≡ some c'
        → ((j : ℕ) → j ≢ i → nth vs' j ≡ nth vs j)
        → At R ts c c'
        → At R (t ∷ ts) (array vs) (array vs')

  -- Two values differ in the places that the parts of a path between stars name. A part before a star, without
  -- its last character, and the last part are pointers; a star stands for each value of an array.
  abbrev pub Along : (Value → Value → Type 0) → List String → Value → Value → Type 0
  Along R [] v v' = ⊥
  Along R (part ∷ []) v v' = (ts : List String) × (p.tokens part ≡ some ts) × At R ts v v'
  Along R (part ∷ next ∷ parts) v v' =
      (prefix : String) × (ts : List String) × (drop_last part ≡ some prefix)
      × (p.tokens prefix ≡ some ts)
      × At (InArray (Along R (next ∷ parts))) ts v v'

  change-At :
      (R : Value → Value → Type 0) (f : Value → Outcome Value) (ts : List String) (v x v' : Value)
      → resolve ts v ≡ some x
      → ((x' : Value) → f x ≡ ok x' → R x x')
      → change f ts v ≡ ok v'
      → At R ts v v'
  unfolding resolve change child set_child at_index write_index
  change-At R f [] v x v' r h c =
      let same : x ≡ v = ground (arith, r) in here (subst (λ x. R x v') same (h v' (ap f same ∙ c)))
  change-At R f (t ∷ ts) (object fs) x v' r h c =
      go (λ y y' s. change-At R f ts y x y' s h) (get_field fs t) refl
    where
      go :
          ((y y' : Value) → resolve ts y ≡ some x → change f ts y ≡ ok y' → At R ts y y')
          → (o : Option Value) → get_field fs t ≡ o
          → At R (t ∷ ts) (object fs) v'
      go ih none e = absurd (ground (arith, e, r))
      go ih (some y) e =
          let (y', changed, made) =
            bind-eq-ok (change f ts y) (λ y'. ok (object (set_field fs t y')))
              (rw (change, child, e) at c) in
          subst (At R (t ∷ ts) (object fs)) (ok_injective _ v' made) (
            in_object e (get_field-set_field fs t y') (λ k. get_field-set_field_other fs k t y')
              (ih y y' (rw (resolve, child, e) at r) changed))
  change-At R f (t ∷ ts) (array vs) x v' r h c =
      by_index (λ y y' s. change-At R f ts y x y' s h) (p.parse_index t) refl
    where
      go :
          ((y y' : Value) → resolve ts y ≡ some x → change f ts y ≡ ok y' → At R ts y y')
          → (i : ℕ) → p.parse_index t ≡ some i
          → (o : Option Value) → nth vs i ≡ o
          → At R (t ∷ ts) (array vs) v'
      go ih i q none e = let f = rw (resolve, child, at_index, q, e) at r in absurd (ground arith)
      go ih i q (some y) e =
          let (y', changed, made) =
            bind-eq-ok (change f ts y) (λ y'. ok (set_child (array vs) t y'))
              (rw (change, child, at_index, q, e) at c) in
          subst (At R (t ∷ ts) (array vs))
            (ap (λ o. array (write_index vs o y')) (sym q) ∙ ok_injective _ v' made)
            (in_array q e (nth-set_nth vs i y y' e) (λ j. nth-set_nth_other vs i j y')
              (ih y y' (rw (resolve, child, at_index, q, e) at r) changed))

      by_index :
          ((y y' : Value) → resolve ts y ≡ some x → change f ts y ≡ ok y' → At R ts y y')
          → (o : Option ℕ) → p.parse_index t ≡ o
          → At R (t ∷ ts) (array vs) v'
      by_index ih none q = absurd (ground (arith, q, r))
      by_index ih (some i) q = go ih i q (nth vs i) refl
  change-At R f (t ∷ ts) null x v' r h c = absurd (ground arith)
  change-At R f (t ∷ ts) (boolean b) x v' r h c = absurd (ground arith)
  change-At R f (t ∷ ts) (number n) x v' r h c = absurd (ground arith)
  change-At R f (t ∷ ts) (string s) x v' r h c = absurd (ground arith)

  pointer-resolve :
      (bad : Error) (path : String) (v x : Value)
      → pointer bad path v ≡ ok x
      → (ts : List String) × (p.tokens path ≡ some ts) × (resolve ts v ≡ some x)
  unfolding pointer
  pointer-resolve bad path v x e =
      let (ts, found, e1) = bind-eq-ok (ok_or (p.tokens path) bad) _ e in
      (ts, ok_or-some (p.tokens path) bad ts found, ok_or-some (resolve ts v) bad x e1)

  change_pointer-At :
      (R : Value → Value → Type 0) (bad : Error) (f : Value → Outcome Value) (path : String)
      (v x v' : Value)
      → pointer bad path v ≡ ok x
      → ((x' : Value) → f x ≡ ok x' → R x x')
      → change_pointer bad f path v ≡ ok v'
      → (ts : List String) × (p.tokens path ≡ some ts) × At R ts v v'
  unfolding change_pointer
  change_pointer-At R bad f path v x v' e h c =
      let (ts, found, there) = pointer-resolve bad path v x e in
      (ts, found, change-At R f ts v x v' there h (rw (change_pointer, found) at c))

  -- What is changed where something was read is related.
  abbrev Relates :
      (Value → Value → Type 0) → (Value → Outcome (List Value)) → (Value → Outcome Value) → Type 0
  Relates R reads changes =
      (v : Value) (xs : List Value) (v' : Value) → reads v ≡ ok xs → changes v ≡ ok v' → R v v'

  each-AllItems :
      (R : Value → Value → Type 0) (reads : Value → Outcome (List Value))
      (changes : Value → Outcome Value)
      → Relates R reads changes
      → (vs : Values) (xs : List Value) (vs' : Values) → each_target reads vs ≡ ok xs
      → each_changed changes vs ≡ ok vs'
      → AllItems R vs vs'
  unfolding each_target each_changed
  each-AllItems R reads changes h nil xs vs' r c =
      subst (AllItems R nil) (ok_injective nil vs' c) tt
  each-AllItems R reads changes h (cons v vs) xs vs' r c =
      let (ys, read, r1) = bind-eq-ok (reads v) _ r in
      let (zs, others, _) = bind-eq-ok (each_target reads vs) _ r1 in
      let (w, changed, c1) = bind-eq-ok (changes v) _ c in
      let (ws, all_changed, c2) = bind-eq-ok (each_changed changes vs) _ c1 in
      subst (AllItems R (cons v vs)) (ok_injective _ vs' c2)
        (h v ys w read changed, each-AllItems R reads changes h vs zs ws others all_changed)

  array-InArray :
      (R : Value → Value → Type 0) (bad : Error) (reads : Value → Outcome (List Value))
      (changes : Value → Outcome Value)
      → Relates R reads changes
      → Relates (InArray R) (of_array bad reads) (change_array changes)
  unfolding of_array change_array
  array-InArray R bad reads changes h (array vs) xs v' r c =
      let (ws, all_changed, made) = bind-eq-ok (each_changed changes vs) _ c in
      subst (InArray R (array vs)) (ok_injective (array ws) v' made)
        (each-AllItems R reads changes h vs xs ws r all_changed)
  array-InArray R bad reads changes h null xs v' r c = absurd (ground arith)
  array-InArray R bad reads changes h (boolean b) xs v' r c = absurd (ground arith)
  array-InArray R bad reads changes h (number n) xs v' r c = absurd (ground arith)
  array-InArray R bad reads changes h (string s) xs v' r c = absurd (ground arith)
  array-InArray R bad reads changes h (object fs) xs v' r c = absurd (ground arith)

  targets-Along :
      (R : Value → Value → Type 0) (bad : Error) (f : Value → Outcome Value)
      → ((v v' : Value) → f v ≡ ok v' → R v v')
      → (parts : List String)
      → Relates (Along R parts) (patch_ext_helper bad parts) (change_targets bad f parts)
  unfolding patch_ext_helper change_targets
  targets-Along R bad f h [] v xs v' r c = absurd (ground arith)
  targets-Along R bad f h (part ∷ []) v xs v' r c =
      let (x, read, _) = bind-eq-ok (pointer bad part v) _ r in
      change_pointer-At R bad f part v x v' read (h x) c
  targets-Along R bad f h (part ∷ next ∷ parts) v xs v' r c =
      let (prefix, dropped, r1) = bind-eq-ok (unwrap (drop_last part)) _ r in
      let (x, read, r2) = bind-eq-ok (pointer bad prefix v) _ r1 in
      let without = unwrap-some (drop_last part) prefix dropped in
      let (ts, found, differ) =
        change_pointer-At (InArray (Along R (next ∷ parts))) bad
          (change_array (change_targets bad f (next ∷ parts))) prefix v x v' read
          (λ x' e.
            array-InArray (Along R (next ∷ parts)) bad (patch_ext_helper bad (next ∷ parts))
              (change_targets bad f (next ∷ parts)) (targets-Along R bad f h (next ∷ parts)) x xs x'
              r2 e)
          (rw (change_targets, without) at c) in
      (prefix, ts, without, found, differ)

  -- When `add` succeeds, the values before and after it differ only in the places that its path names. A map there
  -- has the value under the key, and its other fields as before, unless it had the key and is not to be
  -- overwritten, and is as before then; an array there has the value after its end for the key `-`, or at the
  -- index that the key is, and its other values around it.
  pub add-Along :
      (path key : String) (value obj obj' : Value) (overwrite : Bool)
      → add path key value obj overwrite ≡ ok obj'
      → Along (IsAdded key value overwrite) (split b'*' path) obj obj'
  unfolding add
  add-Along path key value obj obj' overwrite e =
      let (xs, read, changed) =
        bind-eq-ok (patch_ext_helper (invalid_pointer path) (split b'*' path) obj) _ e in
      targets-Along (IsAdded key value overwrite) (invalid_pointer path)
        (add_to path key value overwrite) (add_to-IsAdded path key value overwrite)
        (split b'*' path) obj xs obj' read changed
