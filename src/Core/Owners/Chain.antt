-- ===== src/Core/Owners/Chain.antt =====
-- What `compute_owner_chain` computes.
use simkube.Common.{
  ◌≡◌, refl, ap, ◌∙◌, some, List, [], ◌∷◌, ◌++◌, String, Outcome, ok, err, panic, arith, string_eq,
  ◌>>=◌, bind-eq-ok, ok_injective,
}
use simkube.Common.Map
use simkube.Common.Map.{Map}
use simkube.Core.Kube.{ObjectMeta, OwnerReference, Naming}
use simkube.Core.Util.{namespaced_name, owners_of}
use simkube.Core.ApiSet.{Api, Scope, unnamespaced_api_by_gvk}
use simkube.Core.Gvk.{Gvk, from_owner_ref}
use simkube.Core.Owners.{single, build_owner_selector, Server, OwnersCache, find_owner, Computation}

-- The server has one object that the reference names.
abbrev pub Found : Server → ObjectMeta → OwnerReference → ObjectMeta → Type 0
Found sv obj rf owner = (c : OwnersCache) × ((find_owner sv c obj rf).0 ≡ ok owner)

-- An object of the server: the one that it lists for some selector.
abbrev pub IsOn : Server → ObjectMeta → Type 0
IsOn sv obj = (api : Api) × (sel : String) × (sv.list api sel ≡ ok (obj ∷ []))

single-ok :
    (items : List ObjectMeta) (owner : ObjectMeta) → single items ≡ ok owner → items ≡ owner ∷ []
unfolding single
single-ok [] owner e = absurd (ground arith)
single-ok (x ∷ []) owner e = ap (λ y. y ∷ []) (ok_injective x owner e)
single-ok (x ∷ y ∷ items) owner e = absurd (ground arith)

pub Found-listed :
    (sv : Server) (obj owner : ObjectMeta) (rf : OwnerReference)
    → Found sv obj rf owner
    → (api : Api) × (cap : Scope) × (sel : String) × (build_owner_selector rf.name obj cap ≡ ok sel)
      × (sv.list api sel ≡ ok (owner ∷ []))
unfolding find_owner
Found-listed sv obj owner rf (c, e) = of_kind (from_owner_ref rf) refl
  where
    Listed : Type 0
    Listed =
        (api : Api) × (cap : Scope) × (sel : String) × (build_owner_selector rf.name obj cap
          ≡ ok sel)
        × (sv.list api sel ≡ ok (owner ∷ []))

    listed :
        (r : Outcome (Api × Scope))
        → (r >>= λ (api, cap).
            build_owner_selector rf.name obj cap >>= λ sel. sv.list api sel >>= single)
          ≡ ok owner
        → Listed
    listed r f =
        let ((api, cap), _, f1) = bind-eq-ok r _ f in
        let (sel, selects, f2) = bind-eq-ok (build_owner_selector rf.name obj cap) _ f1 in
        let (items, has, f3) = bind-eq-ok (sv.list api sel) _ f2 in
        (api, cap, sel, selects, has ∙ ap ok (single-ok items owner f3))

    of_kind : (k : Outcome Gvk) → from_owner_ref rf ≡ k → Listed
    of_kind (ok gvk) k =
        listed (unnamespaced_api_by_gvk sv.discover c.apiset gvk).0 (rw (find_owner, k) at e)
    of_kind (err x) k = let f = rw (find_owner, k) at e in absurd (ground arith)
    of_kind panic k = let f = rw (find_owner, k) at e in absurd (ground arith)

pub Found-IsOn :
    (sv : Server) (obj owner : ObjectMeta) (rf : OwnerReference)
    → Found sv obj rf owner
    → IsOn sv owner
Found-IsOn sv obj owner rf found =
    let (api, cap, sel, _, has) = Found-listed sv obj owner rf found in (api, sel, has)

module _ ⦃n : Naming⦄ (sv : Server) where
  -- What the owners that these references of an object name add to a chain: for each, its own references
  -- and what their owners add.
  pub data Adds : ObjectMeta → List OwnerReference → List OwnerReference → Type 0 where
    nothing : {obj : ObjectMeta} → Adds obj [] []
    owned :
        {obj owner : ObjectMeta} {rf : OwnerReference} {refs more rest : List OwnerReference}
        → Found sv obj rf owner
        → Adds owner (owners_of owner) more
        → Adds obj refs rest
        → Adds obj (rf ∷ refs) ((owners_of owner ++ more) ++ rest)

  -- The chain of an object: its references, and after them what its owners add.
  abbrev pub IsChain : ObjectMeta → List OwnerReference → Type 0
  IsChain obj owners =
      (more : List OwnerReference) × (owners ≡ owners_of obj ++ more)
      × Adds obj (owners_of obj) more

  -- The objects of the server are told apart by their names.
  abbrev pub IsNamed : Type 0
  IsNamed =
      (a b : ObjectMeta) → IsOn sv a → IsOn sv b → namespaced_name a ≡ namespaced_name b → a ≡ b

  -- What is kept under the name of an object of the server is its chain.
  abbrev pub IsSound : OwnersCache → Type 0
  IsSound c =
      (obj : ObjectMeta) (owners : List OwnerReference)
      → IsOn sv obj
      → Map.get c.owners (namespaced_name obj) ≡ some owners
      → IsChain obj owners

  abbrev pub Computes : Computation → Type 0
  Computes compute =
      (c : OwnersCache) (obj : ObjectMeta)
      → IsSound c
      → IsOn sv obj
      → IsSound (compute c obj).1
        × ((owners : List OwnerReference) → (compute c obj).0 ≡ ok owners → IsChain obj owners)

  abbrev Extends :
      ObjectMeta
      → List OwnerReference
      → List OwnerReference
      → Outcome (List OwnerReference) × OwnersCache
      → Type 0
  Extends obj refs owners r =
      IsSound r.1
      × ((all : List OwnerReference)
          → r.0 ≡ ok all
          → (more : List OwnerReference) × (all ≡ owners ++ more) × Adds obj refs more)
