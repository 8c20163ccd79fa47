-- ===== src/Store/Event/Filter.antt =====
-- What the export filters keep.
use simkube.Common.{
  ◌≡◌, refl, ◌∙◌, Bool, true, false, ◌&&◌, none, some, List, [], ◌∷◌, Outcome, ok, err, panic,
  arith, All, is_empty, if◌then◌else◌,
}
use mathlib.Core.Path.{subst}
use simkube.Core.Kube.{DynamicObject}
use simkube.Store.Event.{TraceEvent, ExportFilters, obj_matches_filter, keep_objs, filter_event}

-- The filter decides about this object, and keeps it.
abbrev pub Kept : ExportFilters → DynamicObject → Type 0
Kept f obj = obj_matches_filter obj f ≡ ok false

Kept-All :
    (f : ExportFilters) (objs kept : List DynamicObject)
    → keep_objs f objs ≡ ok kept
    → All (Kept f) kept
unfolding keep_objs
Kept-All f [] kept e = ground arith
Kept-All f (obj ∷ objs) kept e =
    go (obj_matches_filter obj f) refl (keep_objs f objs) refl (Kept-All f objs)
  where
    go :
        (m : Outcome Bool)
        → obj_matches_filter obj f ≡ m
        → (r : Outcome (List DynamicObject)) → keep_objs f objs ≡ r
        → ((k : List DynamicObject) → keep_objs f objs ≡ ok k → All (Kept f) k)
        → All (Kept f) kept
    go (ok true) p (ok rest) q ih =
        let same : rest ≡ kept = ground arith in subst (All (Kept f)) same (ih rest q)
    go (ok false) p (ok rest) q ih =
        let same : obj ∷ rest ≡ kept = ground arith in subst (All (Kept f)) same (p, ih rest q)
    go (ok b) p (err x) q ih = absurd (ground arith)
    go (ok b) p panic q ih = absurd (ground arith)
    go (err x) p r q ih = absurd (ground arith)
    go panic p r q ih = absurd (ground arith)

pub keep_objs-All :
    (f : ExportFilters) (objs : List DynamicObject) → All (Kept f) objs → keep_objs f objs ≡ ok objs
unfolding keep_objs
keep_objs-All f [] h = refl
keep_objs-All f (obj ∷ objs) h = rw (h.0, keep_objs-All f objs h.1) refl

abbrev HasObjs : TraceEvent → Type 0
HasObjs evt = (is_empty evt.applied_objs && is_empty evt.deleted_objs) ≡ false

-- An event of which nothing is excluded is kept whole, if it has objects.
pub filter_event-All :
    (evt : TraceEvent) (f : ExportFilters)
    → All (Kept f) evt.applied_objs
    → All (Kept f) evt.deleted_objs
    → filter_event evt f
      ≡ ok (if is_empty evt.applied_objs && is_empty evt.deleted_objs then none else some evt)
unfolding filter_event
filter_event-All evt f a d =
    rw (keep_objs-All f evt.applied_objs a, keep_objs-All f evt.deleted_objs d) refl

left_over :
    (evt : TraceEvent) (f : ExportFilters) (kept : TraceEvent)
    → filter_event evt f ≡ ok (some kept)
    → All (Kept f) kept.applied_objs × All (Kept f) kept.deleted_objs × HasObjs kept
unfolding filter_event
left_over evt f kept e = go (keep_objs f evt.applied_objs) refl (keep_objs f evt.deleted_objs) refl
  where
    go :
        (a : Outcome (List DynamicObject))
        → keep_objs f evt.applied_objs ≡ a
        → (d : Outcome (List DynamicObject)) → keep_objs f evt.deleted_objs ≡ d
        → All (Kept f) kept.applied_objs × All (Kept f) kept.deleted_objs × HasObjs kept
    go (ok a) p (ok d) q =
        let sa : a ≡ kept.applied_objs = ground arith in
        let sd : d ≡ kept.deleted_objs = ground arith in
        (
          subst (All (Kept f)) sa (Kept-All f evt.applied_objs a p),
          subst (All (Kept f)) sd (Kept-All f evt.deleted_objs d q),
          ground arith,
        )
    go (ok a) p (err x) q = absurd (ground arith)
    go (ok a) p panic q = absurd (ground arith)
    go (err x) p d q = absurd (ground arith)
    go panic p d q = absurd (ground arith)

-- What is left of an event is not empty, holds no object that the filters exclude, and is kept
-- whole when it is filtered again.
pub filter_event_idem :
    (evt : TraceEvent) (f : ExportFilters) (kept : TraceEvent)
    → filter_event evt f ≡ ok (some kept)
    → HasObjs kept
      × All (Kept f) kept.applied_objs
      × All (Kept f) kept.deleted_objs
      × (filter_event kept f ≡ ok (some kept))
filter_event_idem evt f kept e =
    let (a, d, some_objs) = left_over evt f kept e in
    (some_objs, a, d, filter_event-All kept f a d ∙ rw some_objs refl)

keep_objs_daemonsets :
    (f : ExportFilters) (b : Bool) (objs : List DynamicObject)
    → keep_objs (record f { exclude_daemonsets = b }) objs ≡ keep_objs f objs
unfolding keep_objs obj_matches_filter
keep_objs_daemonsets f b [] = refl
keep_objs_daemonsets f b (obj ∷ objs) = rw (keep_objs_daemonsets f b objs) refl

-- The answer does not depend on `exclude_daemonsets`: objects of a daemon set are left out always.
pub filter_event_daemonsets :
    (evt : TraceEvent) (f : ExportFilters) (b : Bool)
    → filter_event evt (record f { exclude_daemonsets = b }) ≡ filter_event evt f
unfolding filter_event
filter_event_daemonsets evt f b =
    rw (keep_objs_daemonsets f b evt.applied_objs, keep_objs_daemonsets f b evt.deleted_objs) refl
