-- ===== src/Store/Event.antt =====
-- sk-store/src/lib.rs and trace_filter.rs: events of a trace, and the export filters of
-- sk-api/src/v1/export_filters.rs.
pub mod Filter
use simkube.Common.{
  ◌≡◌, refl, ap, Bool, true, false, not, ◌&&◌, ◌||◌, Option, none, some, List, [], ◌∷◌, String,
  Outcome, ok, err, panic, ◌>>=◌, ◌==◌, string_eq, any, is_empty, unwrap_or, if◌then◌else◌,
}
use simkube.Common.Int.{ℤ}
use simkube.Core.Kube.{DynamicObject, OwnerReference, LabelSelector}
use simkube.Core.Util.{matches}

pub data TraceAction : Type 0 where
  object_applied object_deleted : TraceAction

pub record TraceEvent : Type 0 where
  pub ts : ℤ
  pub applied_objs : List DynamicObject
  pub deleted_objs : List DynamicObject

pub record ExportFilters : Type 0 where
  pub excluded_namespaces : List String
  pub excluded_labels : List LabelSelector
  pub exclude_daemonsets : Bool

excluded_namespace : List String → Option String → Bool
excluded_namespace nss none = false
excluded_namespace nss (some ns) = any (λ x. x == ns) nss

owned_by_daemonset : Option (List OwnerReference) → Bool
owned_by_daemonset none = false
owned_by_daemonset (some owners) = any (λ o. o.kind == "DaemonSet") owners

-- `any(|sel| obj.matches(sel).unwrap())`: a selector that is not valid is a panic, unless one
-- before it matches.
excluded_label : DynamicObject → List LabelSelector → Outcome Bool
excluded_label obj [] = ok false
excluded_label obj (sel ∷ sels) =
    let rest = excluded_label obj sels in
    elim (matches obj.metadata sel) [ ok true ↦ ok true | ok false ↦ rest | _ ↦ panic ]

unfoldable pub obj_matches_filter : DynamicObject → ExportFilters → Outcome Bool
unfolding excluded_namespace owned_by_daemonset excluded_label
obj_matches_filter obj f =
    let labels = excluded_label obj f.excluded_labels in
    if excluded_namespace f.excluded_namespaces obj.metadata.namespace
    then ok true
    else if owned_by_daemonset obj.metadata.owner_references
    then ok true
    else labels

-- The objects that no filter excludes.
unfoldable pub keep_objs : ExportFilters → List DynamicObject → Outcome (List DynamicObject)
keep_objs f [] = ok []
keep_objs f (obj ∷ objs) =
    let rest = keep_objs f objs in
    do excluded ← obj_matches_filter obj f; kept ← rest; ok (if excluded then kept else obj ∷ kept)

-- An event with nothing left is dropped.
unfoldable pub filter_event : TraceEvent → ExportFilters → Outcome (Option TraceEvent)
filter_event evt f = do
  applied ← keep_objs f evt.applied_objs
  deleted ← keep_objs f evt.deleted_objs
  ok (
      if is_empty applied && is_empty deleted
      then none
      else some (record { ts = evt.ts; applied_objs = applied; deleted_objs = deleted }))
