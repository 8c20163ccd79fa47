-- ===== src/Core/Owners/Depth.antt =====
-- The depth of `compute_owner_chain` makes no difference if it is enough.
use simkube.Common.{
  ℕ, zero, suc, ◌<◌, ◌≡◌, Member, inl, inr, refl, ap, ◌∙◌, none, some, List, [], ◌∷◌, ◌++◌, Outcome,
  ok, err, panic, arith, string_eq,
}
use simkube.Common.Map
use simkube.Core.Kube.{ObjectMeta, OwnerReference, Naming}
use simkube.Core.Util.{namespaced_name, owners_of}
use simkube.Core.Owners.{
  Server, OwnersCache, find_owner, Computation, extend_owners, finish, compute_owner_chain,
}
use simkube.Core.Owners.Chain.{Found, IsOn, Found-IsOn}

module _ (sv : Server) where
  -- Two computations that agree on the owners that are found extend a chain alike.
  extend-agree :
      (compute compute' : Computation) (obj : ObjectMeta)
      → (refs : List OwnerReference)
      → ((rf : OwnerReference) (owner : ObjectMeta) (c : OwnersCache)
          → Member rf refs
          → Found sv obj rf owner
          → compute c owner ≡ compute' c owner)
      → (c : OwnersCache) (owners : List OwnerReference)
      → extend_owners compute sv obj refs c owners ≡ extend_owners compute' sv obj refs c owners
  unfolding extend_owners
  extend-agree compute compute' obj [] agree c owners = refl
  extend-agree compute compute' obj (rf ∷ refs) agree c owners =
      go (extend-agree compute compute' obj refs (λ rf' owner c m f. agree rf' owner c (inr m) f))
        (find_owner sv c obj rf).0 refl
    where
      c1 : OwnersCache
      c1 = (find_owner sv c obj rf).1

      Rest : Type 0
      Rest =
          (c : OwnersCache) (owners : List OwnerReference)
          → extend_owners compute sv obj refs c owners ≡ extend_owners compute' sv obj refs c owners

      Same : Type 0
      Same =
          extend_owners compute sv obj (rf ∷ refs) c owners
          ≡ extend_owners compute' sv obj (rf ∷ refs) c owners

      inner :
          Rest
          → (owner : ObjectMeta) → (find_owner sv c obj rf).0 ≡ ok owner
          → (r : Outcome (List OwnerReference)) → (compute' (find_owner sv c obj rf).1 owner).0 ≡ r
          → Same
      inner ih owner e (ok more) f =
          rw (extend_owners, e, agree rf owner (find_owner sv c obj rf).1 (inl refl) (c, e), f)
            (ih _ (owners ++ more)
              ∙ ap (λ r. extend_owners compute' sv obj refs r.1 (owners ++ more))
                  (agree rf owner (find_owner sv c obj rf).1 (inl refl) (c, e)))
      inner ih owner e (err x) f =
          rw (extend_owners, e, agree rf owner (find_owner sv c obj rf).1 (inl refl) (c, e), f)
            (ap (λ r. (err x, r.1)) (agree rf owner (find_owner sv c obj rf).1 (inl refl) (c, e)))
      inner ih owner e panic f =
          rw (extend_owners, e, agree rf owner (find_owner sv c obj rf).1 (inl refl) (c, e), f)
            (ap (λ r. (panic, r.1)) (agree rf owner (find_owner sv c obj rf).1 (inl refl) (c, e)))

      go : Rest → (r : Outcome ObjectMeta) → (find_owner sv c obj rf).0 ≡ r → Same
      go ih (ok owner) e = inner ih owner e (compute' (find_owner sv c obj rf).1 owner).0 refl
      go ih (err x) e = rw (extend_owners, e) refl
      go ih panic e = rw (extend_owners, e) refl

  -- If the owner that the server has for a reference of an object has a lower rank than the object, as it has
  -- unless objects own each other, a depth above the rank of an object of the server is enough: every such
  -- depth gives the same result and the same cache.
  pub compute_owner_chain-depth :
      ⦃n : Naming⦄ (rank : ObjectMeta → ℕ)
      → ((obj owner : ObjectMeta) (rf : OwnerReference)
          → IsOn sv obj
          → Member rf (owners_of obj)
          → Found sv obj rf owner
          → rank owner < rank obj)
      → (depth depth' : ℕ) (c : OwnersCache) (obj : ObjectMeta) → IsOn sv obj
      → rank obj < depth
      → rank obj < depth'
      → compute_owner_chain depth sv c obj ≡ compute_owner_chain depth' sv c obj
  unfolding compute_owner_chain
  compute_owner_chain-depth rank lower zero depth' c obj on l l' = absurd (omega arith)
  compute_owner_chain-depth rank lower (suc depth) zero c obj on l l' = absurd (omega arith)
  compute_owner_chain-depth rank lower (suc depth) (suc depth') c obj on l l' =
      let same =
        extend-agree (compute_owner_chain depth sv) (compute_owner_chain depth' sv) obj
          (owners_of obj)
          (λ rf owner c' m found.
            let less = lower obj owner rf on m found in
            compute_owner_chain-depth rank lower depth depth' c' owner
              (Found-IsOn sv obj owner rf found) (omega arith) (omega arith))
          c (owners_of obj) in
      ap
        (λ r.
          elim (Map.get c.owners (namespaced_name obj))
            as (λ _. Outcome (List OwnerReference) × OwnersCache) [
              | some owners ↦ (ok owners, c)
              | none ↦ finish (namespaced_name obj) r
            ])
        same
