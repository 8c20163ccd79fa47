-- ===== src/Driver/Runner/Virtual.antt =====
-- The objects of the simulation that stand for those of the trace, and how they are addressed.
use simkube.Common.{
  ◌≡◌, inl, refl, sym, ap, ◌∙◌, none, some, Member, Member-append_right, true, String, Outcome, ok,
  err, panic, unwrap, string_eq, bind-eq-ok, unwrap-some, ok_injective, arith,
}
use text.Mathlib.TextEquality.{eq_iff}
use simkube.Common.Map
use simkube.Common.Map.{get-insert}
use simkube.Core.ApiSet.{
  Api, ApiSet, Scope, Discovery, namespaced_with, IsCache, api_meta_for, api_for_gvk, api_for_obj,
  api_for_gvk-handle,
}
use simkube.Core.Constants.{virtual_label_key}
use simkube.Core.Gvk.{Gvk, TypeParser, from_dynamic_obj}
use simkube.Core.Kube.{OwnerReference, DynamicObject, Naming}
use simkube.Core.Patch.{Pointers}
use simkube.Core.Util.{labels_of, owners_of, add_common_metadata}
use simkube.Driver.Runner.{Driver, build_virtual_obj, patched, template_patches, virtual_name}
use simkube.Store.Config.{pod_spec_template_path}

-- The handle for an object with a namespace is the one for its kind and this namespace, if the cache was
-- sound, and then it stays sound.
pub api_for_obj-handle :
    (parse : TypeParser) (discover : Discovery) (s : ApiSet) (obj : DynamicObject) (gvk : Gvk)
    (ns : String) (api : Api)
    → from_dynamic_obj parse obj ≡ ok gvk
    → obj.metadata.namespace ≡ some ns
    → (api_for_obj parse discover s obj).0 ≡ ok api
    → IsCache s
    → (api ≡ namespaced_with ns gvk) × IsCache (api_for_obj parse discover s obj).1
unfolding api_for_obj
api_for_obj-handle parse discover s obj gvk ns api typed there found sound =
    go (api_meta_for discover s gvk).0 refl
  where
    by_gvk : api_for_obj parse discover s obj ≡ api_for_gvk discover s gvk (some ns)
    by_gvk = rw (api_for_obj, typed, there) refl

    found_by_gvk : (api_for_gvk discover s gvk (some ns)).0 ≡ ok api
    found_by_gvk = ap (λ r. r.0) (sym by_gvk) ∙ found

    go :
        (cap : Outcome Scope)
        → (api_meta_for discover s gvk).0 ≡ cap
        → (api ≡ namespaced_with ns gvk) × IsCache (api_for_obj parse discover s obj).1
    go (ok scope) e =
        let (handled, kept) = api_for_gvk-handle discover s gvk (some ns) scope sound e in
        (ok_injective api _ (sym found_by_gvk ∙ handled), rw by_gvk kept)
    go (err x) e = let f = rw (api_for_gvk, e) at found_by_gvk in absurd (ground arith)
    go panic e = let f = rw (api_for_gvk, e) at found_by_gvk in absurd (ground arith)

pub api_for_obj-typed :
    (parse : TypeParser) (discover : Discovery) (s : ApiSet) (obj : DynamicObject) (api : Api)
    → (api_for_obj parse discover s obj).0 ≡ ok api
    → (gvk : Gvk) × (from_dynamic_obj parse obj ≡ ok gvk)
unfolding api_for_obj
api_for_obj-typed parse discover s obj api found = go (from_dynamic_obj parse obj) refl
  where
    go :
        (k : Outcome Gvk)
        → from_dynamic_obj parse obj ≡ k
        → (gvk : Gvk) × (from_dynamic_obj parse obj ≡ ok gvk)
    go (ok gvk) e = (gvk, e)
    go (err x) e = let f = rw (api_for_obj, e) at found in absurd (ground arith)
    go panic e = let f = rw (api_for_obj, e) at found in absurd (ground arith)

pub from_dynamic_obj-types :
    (parse : TypeParser) (obj vobj : DynamicObject)
    → obj.types ≡ vobj.types
    → from_dynamic_obj parse obj ≡ from_dynamic_obj parse vobj
unfolding from_dynamic_obj
from_dynamic_obj-types parse obj vobj same = rw same refl

module _ ⦃n : Naming⦄ ⦃p : Pointers⦄ (ctx : Driver) where
  -- What stands for an object: it has its type and its name, in the virtual namespace, the label for virtual
  -- objects, and the root as an owner. Its content is changed only if its kind has a pod template.
  pub record IsVirtual (gvk : Gvk) (ns : String) (obj vobj : DynamicObject) : Type 0 where
    pub types : vobj.types ≡ obj.types
    pub name : vobj.metadata.name ≡ obj.metadata.name
    pub namespace : vobj.metadata.namespace ≡ some (virtual_name ctx ns)
    pub labelled : Map.get (labels_of vobj.metadata) virtual_label_key ≡ some "true"
    pub owned :
        (rf : OwnerReference) × Member rf (owners_of vobj.metadata)
        × (rf.kind ≡ ctx.root.kind)
        × (ctx.root.metadata.uid ≡ some rf.uid)
    pub untouched : pod_spec_template_path ctx.store.config gvk ≡ none → vobj.content ≡ obj.content
    pub templated :
        (path : String)
        → pod_spec_template_path ctx.store.config gvk ≡ some path
        → template_patches path ns obj.content ≡ ok vobj.content

  pub build_virtual_obj-IsVirtual :
      (gvk : Gvk) (ns : String) (obj vobj : DynamicObject)
      → build_virtual_obj ctx ns
          (virtual_name ctx ns)
          obj
          (pod_spec_template_path ctx.store.config gvk)
        ≡ ok vobj
      → IsVirtual gvk ns obj vobj × (n.name_any vobj.metadata ≡ n.name_any obj.metadata)
  unfolding build_virtual_obj add_common_metadata patched
  build_virtual_obj-IsVirtual gvk ns obj vobj e =
      let (meta, common, e1) =
        bind-eq-ok (add_common_metadata ctx.name ctx.root obj.metadata) _ e in
      let (content, changed, last) =
        bind-eq-ok (patched (pod_spec_template_path ctx.store.config gvk) ns obj.content) _ e1 in
      let (name, named, e2) = bind-eq-ok (unwrap obj.metadata.name) _ common in
      let (uid, identified, e3) = bind-eq-ok (unwrap ctx.root.metadata.uid) _ e2 in
      let before = unwrap-some obj.metadata.name name named in
      let same = sym (ok_injective _ vobj last) in
      let same_meta = sym (ok_injective _ meta e3) in
      let after : vobj.metadata.name ≡ some name =
        ap (λ o. o.metadata.name) same ∙ ap (λ m. m.name) same_meta ∙ before in
      (
        record {
          types = ap (λ o. o.types) same;
          name = after ∙ sym before;
          namespace = ap (λ o. o.metadata.namespace) same;
          labelled =
              ap (λ o. Map.get (labels_of o.metadata) virtual_label_key) same
              ∙ at_inserted (labels_of meta);
          owned = (
            root_ref uid,
            rw (same, same_meta) (Member-append_right _ (owners_of obj.metadata) _ (inl refl)),
            refl,
            unwrap-some ctx.root.metadata.uid uid identified,
          );
          untouched = λ bare.
              ap (λ o. o.content) same
              ∙ sym (
                  ok_injective obj.content content
                    (ap (λ path. patched path ns obj.content) (sym bare) ∙ changed));
          templated = λ path has.
              ap (λ path. patched path ns obj.content) (sym has)
              ∙ changed
              ∙ ap (λ o. ok o.content) (sym same);
        },
        n.name_any_of_name vobj.metadata name after
            ∙ sym (n.name_any_of_name obj.metadata name before),
      )
    where
      root_ref : String → OwnerReference
      root_ref uid = record {
        api_version = ctx.root.api_version;
        kind = ctx.root.kind;
        name = n.name_any ctx.root.metadata;
        uid = uid;
        block_owner_deletion = some true;
      }

      at_inserted :
          (labels : Map.Map String String)
          → Map.get (Map.insert labels virtual_label_key "true") virtual_label_key ≡ some "true"
      at_inserted labels = ground (
        arith,
        get-insert labels virtual_label_key virtual_label_key "true",
        eq_iff virtual_label_key virtual_label_key,
      )
