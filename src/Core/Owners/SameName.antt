-- ===== src/Core/Owners/SameName.antt =====
-- Objects of one name share a chain in the cache.
use simkube.Common.{
  ℕ, zero, suc, ◌≡◌, refl, Option, none, some, List, String, Outcome, ok, err, panic, arith,
  string_eq,
}
use text.Mathlib.TextEquality.{eq_iff}
use simkube.Common.Map
use simkube.Common.Map.{Map, get-insert}
use simkube.Core.Kube.{ObjectMeta, OwnerReference, Naming}
use simkube.Core.Util.{namespaced_name, owners_of}
use simkube.Core.Owners.{Server, OwnersCache, extend_owners, finish, compute_owner_chain}

module _ ⦃n : Naming⦄ (sv : Server) where
  finish-stored :
      (ns_name : String) (r : Outcome (List OwnerReference) × OwnersCache)
      (owners : List OwnerReference)
      → (finish ns_name r).0 ≡ ok owners
      → Map.get (finish ns_name r).1.owners ns_name ≡ some owners
  finish-stored ns_name (ok os, c) owners e =
      ground (arith, get-insert c.owners ns_name ns_name os, eq_iff ns_name ns_name)
  finish-stored ns_name (err x, c) owners e = absurd (ground arith)
  finish-stored ns_name (panic, c) owners e = absurd (ground arith)

  compute-stored :
      (depth : ℕ) (c : OwnersCache) (obj : ObjectMeta) (owners : List OwnerReference)
      → (compute_owner_chain depth sv c obj).0 ≡ ok owners
      → Map.get (compute_owner_chain depth sv c obj).1.owners (namespaced_name obj) ≡ some owners
  unfolding compute_owner_chain
  compute-stored zero c obj owners e = absurd (ground arith)
  compute-stored (suc depth) c obj owners e =
      go (Map.get c.owners (namespaced_name obj)) refl _ refl e
    where
      go :
          (o : Option (List OwnerReference))
          → Map.get c.owners (namespaced_name obj) ≡ o
          → (r : Outcome (List OwnerReference) × OwnersCache)
          → finish (namespaced_name obj) (
              extend_owners (compute_owner_chain depth sv) sv obj (owners_of obj) c (owners_of obj))
            ≡ r
          → (compute_owner_chain (suc depth) sv c obj).0 ≡ ok owners
          → Map.get (compute_owner_chain (suc depth) sv c obj).1.owners (namespaced_name obj)
            ≡ some owners
      go (some found) f r g e = ground arith
      go none f r g e =
          let stored =
            finish-stored (namespaced_name obj)
              (extend_owners (compute_owner_chain depth sv) sv obj (owners_of obj) c
                (owners_of obj))
              owners in
          ground (arith, stored)

  -- What was computed for an object is the answer for every object of the same name from then on,
  -- also for one of another kind with other owners.
  pub compute_owner_chain-same_name :
      (depth depth' : ℕ) (c : OwnersCache) (obj obj' : ObjectMeta) (owners : List OwnerReference)
      → (compute_owner_chain depth sv c obj).0 ≡ ok owners
      → namespaced_name obj' ≡ namespaced_name obj
      → let c' = (compute_owner_chain depth sv c obj).1 in
        compute_owner_chain (suc depth') sv c' obj' ≡ (ok owners, c')
  unfolding compute_owner_chain
  compute_owner_chain-same_name depth depth' c obj obj' owners e same =
      ground (arith, same, compute-stored depth c obj owners e)
