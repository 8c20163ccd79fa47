-- ===== src/Core/Owners/Ends.antt =====
-- That the computation of owners ends.
use simkube.Common.{
  Option, ◌>>=◌, ◌≡◌, ◌≢◌, String, refl, none, some, List, [], ◌∷◌, Outcome, ok, err, panic, arith,
  string_eq,
}
use simkube.Common.Map
use simkube.Core.Kube.{ObjectMeta, OwnerReference}
use simkube.Core.ApiSet.{Api, Scope, cluster, namespaced, unnamespaced_api_by_gvk}
use simkube.Core.Gvk.{Gvk, gvk_eq, from_owner_ref}
use simkube.Core.Owners.{single, build_owner_selector, Server, OwnersCache, find_owner}

from_owner_ref-no_panic : (rf : OwnerReference) → from_owner_ref rf ≢ panic
unfolding from_owner_ref
from_owner_ref-no_panic rf e = absurd (ground arith)

module _ (sv : Server) where
  -- A look-up is no panic if no answer of the server is, and the object has a namespace.
  pub find_owner-no_panic :
      (obj : ObjectMeta) (rf : OwnerReference) (c : OwnersCache) (ns : String)
      → obj.namespace ≡ some ns
      → ((gvk : Gvk) → sv.discover gvk ≢ panic)
      → ((api : Api) (sel : String) → sv.list api sel ≢ panic)
      → (find_owner sv c obj rf).0 ≢ panic
  unfolding find_owner single build_owner_selector unnamespaced_api_by_gvk
  find_owner-no_panic obj rf c ns spaced discovers lists = of_kind (from_owner_ref rf) refl
    where
      of_items : (x : Outcome (List ObjectMeta)) → x ≢ panic → (x >>= single) ≢ panic
      of_items (ok []) h e = absurd (ground arith)
      of_items (ok (o ∷ [])) h e = absurd (ground arith)
      of_items (ok (o ∷ o' ∷ os)) h e = absurd (ground arith)
      of_items (err x) h e = absurd (ground arith)
      of_items panic h e = h refl

      of_api :
          (r : Outcome (Api × Scope))
          → r ≢ panic
          → (r >>= λ (api, cap).
              build_owner_selector rf.name obj cap >>= λ sel. sv.list api sel >>= single)
            ≢ panic
      of_api (ok (api, cluster)) h = of_items _ (lists api _)
      of_api (ok (api, namespaced)) h = rw (build_owner_selector, spaced) (of_items _ (lists api _))
      of_api (err x) h = λ e. absurd (ground arith)
      of_api panic h = λ e. h refl

      of_meta :
          (gvk : Gvk) (o : Option Scope)
          → Map.get c.apiset.resources gvk ≡ o
          → (d : Outcome Scope) → sv.discover gvk ≡ d
          → d ≢ panic
          → (unnamespaced_api_by_gvk sv.discover c.apiset gvk).0 ≢ panic
      of_meta gvk (some scope) e d f h g = absurd (ground arith)
      of_meta gvk none e (ok scope) f h g = absurd (ground arith)
      of_meta gvk none e (err x) f h g = absurd (ground arith)
      of_meta gvk none e panic f h g = h refl

      of_kind : (k : Outcome Gvk) → from_owner_ref rf ≡ k → (find_owner sv c obj rf).0 ≢ panic
      of_kind (ok gvk) k =
          rw (find_owner, k)
            (of_api _ (
              of_meta gvk (Map.get c.apiset.resources gvk) refl (sv.discover gvk) refl
                (discovers gvk)))
      of_kind (err x) k = rw (find_owner, k) (λ g. absurd (ground arith))
      of_kind panic k = absurd (from_owner_ref-no_panic rf k)
