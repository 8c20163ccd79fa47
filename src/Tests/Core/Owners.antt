-- ===== src/Tests/Core/Owners.antt =====
-- Runs of the computation of owners, on a server with a pod and its owner.
use simkube.Common.{
  ℕ, ◌≡◌, refl, some, List, [], ◌∷◌, String, ok, ◌==◌, string_eq, if◌then◌else◌, length,
}
use simkube.Common.Map
use simkube.Common.Text.{split}
use simkube.Core.ApiSet.{Api, namespaced, all_with, unnamespaced_api_by_gvk}
use simkube.Core.Gvk.{from_owner_ref}
use simkube.Core.Kube.{ObjectMeta}
use simkube.Core.Owners.{Server, find_owner, compute_owner_chain}
use simkube.Core.Util.{namespaced_name, owners_of}
use simkube.Fixtures.{test_naming, named_meta, ref_to, empty_cache}

abbrev dep : ObjectMeta
dep = named_meta "default" "dep"

abbrev pod : ObjectMeta
pod = record (named_meta "default" "pod-1") { owner_references = some (ref_to "dep" ∷ []) }

abbrev listing : String → List ObjectMeta
listing sel =
    if sel == "metadata.namespace=default,metadata.name=pod-1"
    then pod ∷ []
    else if sel == "metadata.namespace=default,metadata.name=dep"
    then dep ∷ []
    else []

abbrev server : Server
server = record { discover = λ g. ok namespaced; list = λ api sel. ok (listing sel) }

abbrev handle : Api
handle = all_with (record { group = ""; version = "v1"; kind = "Pod" })

first : List ObjectMeta → ObjectMeta → ObjectMeta
first [] d = d
first (x ∷ xs) d = x

chain_of_pod : (compute_owner_chain 3 server empty_cache pod).0 ≡ ok (ref_to "dep" ∷ [])
unfolding compute_owner_chain find_owner from_owner_ref unnamespaced_api_by_gvk namespaced_name
    Map.get Map.insert split
chain_of_pod = refl

-- The pod is above its owner.
rank : ObjectMeta → ℕ
rank obj = length (owners_of obj)
