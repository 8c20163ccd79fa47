-- ===== src/Core/Owners.antt =====
-- sk-core/src/k8s/owners.rs: the owners of an object, and theirs, with a cache by name.
pub mod Chain
pub mod Depth
pub mod Ends
pub mod SameName
use simkube.Common.{
  ℕ, zero, suc, ◌≡◌, Bool, Option, none, some, List, [], ◌∷◌, ◌++◌, String, Outcome, ok, err, panic,
  message, unwrap, ◌>>=◌, string_eq,
}
use simkube.Common.Text.{append}
use simkube.Common.Map
use simkube.Common.Map.{Map}
use simkube.Core.Kube.{ObjectMeta, OwnerReference, Naming}
use simkube.Core.Util.{namespaced_name, owners_of}
use simkube.Core.Gvk.{Gvk, from_owner_ref}
use simkube.Core.ApiSet.{
  ApiSet, Api, Scope, cluster, namespaced, Discovery, unnamespaced_api_by_gvk,
}

-- The server, as it is during a computation: the kinds it knows, and what it lists by a field
-- selector.
pub record Server : Type 0 where
  pub discover : Discovery
  pub list : Api → String → Outcome (List ObjectMeta)

pub record OwnersCache : Type 0 where
  pub apiset : ApiSet
  pub owners : Map String (List OwnerReference)

-- A namespaced owner of an object with no namespace is a panic.
unfoldable pub build_owner_selector : String → ObjectMeta → Scope → Outcome String
build_owner_selector name obj cluster = ok (append "metadata.name=" name)
build_owner_selector name obj namespaced = do
  ns ← unwrap obj.namespace
  ok (append "metadata.namespace=" (append ns (append ",metadata.name=" name)))

single : List ObjectMeta → Outcome ObjectMeta
single (owner ∷ []) = ok owner
single _ = err (message "could not find single owner")

-- The object that a reference names.
unfoldable pub find_owner :
    Server → OwnersCache → ObjectMeta → OwnerReference → Outcome ObjectMeta × OwnersCache
unfolding build_owner_selector single
find_owner sv c obj rf = elim (from_owner_ref rf) [
  | ok gvk ↦
      let (r, apiset) = unnamespaced_api_by_gvk sv.discover c.apiset gvk in
      (
        do
          (api, cap) ← r
          sel ← build_owner_selector rf.name obj cap
          items ← sv.list api sel
          single items,
        record c { apiset = apiset },
      )
  | err e ↦ (err e, c)
  | panic ↦ (panic, c)
]

abbrev pub Computation : Type 0
Computation = OwnersCache → ObjectMeta → Outcome (List OwnerReference) × OwnersCache

-- The loop over the references of an object: the owners of each owner join those so far.
unfoldable pub extend_owners :
    Computation
    → Server
    → ObjectMeta
    → List OwnerReference
    → OwnersCache
    → List OwnerReference
    → Outcome (List OwnerReference) × OwnersCache
unfolding find_owner
extend_owners compute sv obj [] c owners = (ok owners, c)
extend_owners compute sv obj (rf ∷ refs) c owners =
    let (found, c1) = find_owner sv c obj rf in
    elim found [
      | ok owner ↦
          let (r, c2) = compute c1 owner in
          elim r [
            | ok more ↦ extend_owners compute sv obj refs c2 (owners ++ more)
            | err e ↦ (err e, c2)
            | panic ↦ (panic, c2)
          ]
      | err e ↦ (err e, c1)
      | panic ↦ (panic, c1)
    ]

module _ ⦃n : Naming⦄ where
  abbrev finish :
      String
      → Outcome (List OwnerReference) × OwnersCache
      → Outcome (List OwnerReference) × OwnersCache
  finish ns_name (ok owners, c) =
      (ok owners, record c { owners = Map.insert c.owners ns_name owners })
  finish ns_name (err e, c) = (err e, c)
  finish ns_name (panic, c) = (panic, c)

  -- The depth bounds the recursion, which owners that own each other would keep from ending.
  unfoldable pub compute_owner_chain : ℕ → Server → Computation
  unfolding extend_owners
  compute_owner_chain zero sv c obj = (panic, c)
  compute_owner_chain (suc depth) sv c obj =
      let computed =
        finish (namespaced_name obj)
          (extend_owners (compute_owner_chain depth sv) sv obj (owners_of obj) c (owners_of obj)) in
      elim (Map.get c.owners (namespaced_name obj)) [
        | some owners ↦ (ok owners, c)
        | none ↦ computed
      ]

unfoldable pub lookup : OwnersCache → String → Option (List OwnerReference)
lookup c ns_name = Map.get c.owners ns_name
