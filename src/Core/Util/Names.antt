-- ===== src/Core/Util/Names.antt =====
-- Names of objects: what `split_namespaced_name` and `build_deletable` recover, and sanitising.
use Prim.Native.Char.{Char}
use Prim.Native.String.{count}
use text.Mathlib.TextLemmas.{nil-append, cons-append, length-append}
use simkube.Common.{
  ◌≡◌, ◌≢◌, refl, ap, sym, ◌∙◌, false, Option, none, some, String, arith, string_eq,
}
use simkube.Common.Text.{append, push_front, has_char, split_once-append, split_once_absent}
use simkube.Common.Map
use simkube.Common.Map.{Map, get-remove, remove_absent}
use simkube.Core.Kube.{ObjectMeta, DynamicObject, Naming}
use simkube.Core.Util.{
  namespaced_name, split_namespaced_name, build_deletable, sanitize_obj, without_bookkeeping,
  last_applied_config_label_key, depl_revision_label_key,
}

abbrev slash : Char
slash = "/"

slash-append : (s t : String) → append s (append "/" t) ≡ append s (push_front slash t)
slash-append s t = ap (append s) (cons-append slash "" t ∙ ap (push_front slash) (nil-append t))

split-full_name :
    (ns name : String)
    → has_char b'/' ns ≡ false
    → split_namespaced_name (append ns (append "/" name)) ≡ (ns, name)
unfolding split_namespaced_name
split-full_name ns name h =
    rw (slash-append ns name)
      (rw (split_once-append b'/' slash ns name refl h, split_namespaced_name))

split_bare : (name : String) → has_char b'/' name ≡ false → split_namespaced_name name ≡ ("", name)
unfolding split_namespaced_name
split_bare name h = rw (split_once_absent b'/' name h, split_namespaced_name)

slash_in_front : (s : String) → append "/" s ≢ s
slash_in_front s e = omega (arith, ap count e, length-append "/" s)

module _ ⦃n : Naming⦄ where
  full_name :
      (m : ObjectMeta) (ns : String)
      → m.namespace ≡ some ns
      → namespaced_name m ≡ append ns (append "/" (n.name_any m))
  unfolding namespaced_name
  full_name m ns e = ground arith

  bare_name : (m : ObjectMeta) → m.namespace ≡ none → namespaced_name m ≡ n.name_any m
  unfolding namespaced_name
  bare_name m e = ground arith

  -- The name of what `build_deletable` makes, from the two parts that it found.
  deletable_name :
      (full ns name : String)
      → split_namespaced_name full ≡ (ns, name)
      → namespaced_name (build_deletable full).metadata ≡ append ns (append "/" name)
  unfolding build_deletable
  deletable_name full ns name e =
      full_name (build_deletable full).metadata ns (ap (λ p. some p.0) e)
      ∙ ap (λ x. append ns (append "/" x))
          (n.name_any_of_name (build_deletable full).metadata name (ap (λ p. some p.1) e))

  -- The object that stands for a deleted one has the full name that it was made from, if the
  -- deleted object has a namespace.
  pub namespaced_name-build_deletable :
      (m : ObjectMeta) (ns : String)
      → m.namespace ≡ some ns
      → has_char b'/' ns ≡ false
      → namespaced_name (build_deletable (namespaced_name m)).metadata ≡ namespaced_name m
  namespaced_name-build_deletable m ns e h =
      rw (full_name m ns e)
        (deletable_name _ ns (n.name_any m) (split-full_name ns (n.name_any m) h))

  -- Of an object with no namespace, whose name has no slash, it has another name: a slash stands in
  -- front of it.
  pub build_deletable_cluster_scoped :
      (m : ObjectMeta)
      → m.namespace ≡ none
      → has_char b'/' (n.name_any m) ≡ false
      → (namespaced_name (build_deletable (namespaced_name m)).metadata
          ≡ append "/" (namespaced_name m))
        × (namespaced_name (build_deletable (namespaced_name m)).metadata ≢ namespaced_name m)
  build_deletable_cluster_scoped m e h = rw (bare_name m e) (
      let f =
        deletable_name _ "" (n.name_any m) (split_bare (n.name_any m) h)
        ∙ nil-append (append "/" (n.name_any m)) in
      (f, λ same. slash_in_front (n.name_any m) (sym f ∙ same)))

cleaned_idem :
    (o : Option (Map String String))
    → without_bookkeeping (without_bookkeeping o) ≡ without_bookkeeping o
cleaned_idem none = refl
cleaned_idem (some a) =
    let x = last_applied_config_label_key in
    let y = depl_revision_label_key in
    let b = Map.remove (Map.remove a x) y in
    ap some (
      ap (λ m. Map.remove m y)
        (remove_absent b x (simp (get-remove (Map.remove a x) y x, Map.get-remove_self a x)))
      ∙ remove_absent b y (Map.get-remove_self (Map.remove a x) y))

-- Sanitising twice is sanitising once, with the type of the second call.
pub sanitize_obj_idem :
    (o : DynamicObject) (api_version kind api_version' kind' : String)
    → sanitize_obj (sanitize_obj o api_version' kind') api_version kind
      ≡ sanitize_obj o api_version kind
unfolding sanitize_obj
sanitize_obj_idem o a k a' k' =
    ap
      (λ m. record o {
        metadata = record (o.metadata) {
          creation_timestamp = none;
          deletion_timestamp = none;
          deletion_grace_period_seconds = none;
          generation = none;
          managed_fields = none;
          owner_references = none;
          resource_version = none;
          uid = none;
          annotations = m;
        };
        types = some (record { api_version = a; kind = k });
      })
      (cleaned_idem o.metadata.annotations)
