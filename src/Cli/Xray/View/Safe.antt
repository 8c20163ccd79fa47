-- ===== src/Cli/Xray/View/Safe.antt =====
-- The viewer does not panic on a trace whose events all have objects.
use simkube.Common.{
  ℕ, zero, suc, ◌+◌, ◌<◌, ◌≡◌, refl, ap, inl, inr, ◌∙◌, Bool, Option, none, some, List, [], ◌∷◌,
  String, ok, length, get_elem?, get_elem?_of_lt, ltb, arith, Bool-cases, All, All-imp,
}
use simkube.Common.Text.{split}
use simkube.Core.Kube.{DynamicObject, Naming}
use simkube.Cli.Validation.{AnnotatedTraceEvent, AnnotatedTrace}
use simkube.Cli.Xray.App.{Mode, root_view, event_selected, object_selected, Rect}
use simkube.Cli.Xray.View.{
  Screen, Drawn, selection, sublist_items, render_event_list, show_object, render_object, view,
  view_wide, view_narrow, popup,
}
use simkube.Cli.Xray.View.Areas.{
  objects, IsShown, start_of, AllTimed, root_items-length, object_at-some, clamped, lines-length,
  Roomy, Selected, IsRoomy, state, Drawing, lists_lem,
}

module _ ⦃n : Naming⦄ (s : Screen) (trace : AnnotatedTrace)
    (pretty : (obj : DynamicObject) → (t : String) × (s.to_string_pretty obj ≡ ok t))
    (shown : All (IsShown s.is_duration (start_of trace)) trace.events)
    (events : 0 < length trace.events) (few : length trace.events < 65536) where
  timed : AllTimed s.is_duration (start_of trace) trace.events
  timed = All-imp (λ evt h. h.2) trace.events shown

  render_root :
      (running : Bool) (i : ℕ) (obj line : Option ℕ) (layout : Rect)
      → Roomy s (length trace.events) layout
      → (j : ℕ) × (obj' : Option ℕ) × (d : Drawn) × (render_event_list s
            (state trace running root_view (some i) obj line)
            layout
          ≡ ok (state trace running root_view (some j) obj' line, d))
        × (j < length trace.events)
  unfolding render_event_list selection sublist_items
  render_root running i obj line layout roomy =
      let (parts, e, len) =
        root_items-length s.is_duration (start_of trace) (length trace.events) 0 trace.events timed
          (omega arith) in
      let area = s.nested layout (length trace.events) 0 in
      let (j, first, inside, _) =
        clamped s.lists area.0 (length trace.events) i
          ((roomy (length trace.events) 0).0 events (omega arith)) events in
      let drawn =
        lists_lem s trace running root_view (some i) obj line layout parts [] (length trace.events)
          0 (some j) (s.lists.render area.1 0 obj) (omega arith) few refl (omega arith) first
          refl in
      (
        j,
        s.lists.render area.1 0 obj,
        record { part_one = parts.0; sublist = []; part_two = parts.1; contents = none },
        rw e (ap ok drawn),
        inside,
      )

  render_selected :
      (running : Bool) (mode : Mode) (i j : ℕ) (line : Option ℕ) (evt : AnnotatedTraceEvent)
      (layout : Rect)
      → Roomy s (length trace.events) layout
      → selection (state trace running mode (some i) (some j) line) ≡ ok (i + 1, some evt)
      → i < length trace.events
      → IsShown s.is_duration (start_of trace) evt
      → (j' : ℕ) × (d : Drawn) × (render_event_list s
            (state trace running mode (some i) (some j) line)
            layout
          ≡ ok (state trace running mode (some i) (some j') line, d))
        × (j' < objects evt)
  unfolding render_event_list
  render_selected running mode i j line evt layout roomy sel inside fine =
      let (parts, e, len) =
        root_items-length s.is_duration (start_of trace) (i + 1) 0 trace.events timed
          (omega arith) in
      let area = s.nested layout (i + 1) (objects evt) in
      let (i', first, _, same) =
        clamped s.lists area.0 (i + 1) i
          ((roomy (i + 1) (objects evt)).0 (omega arith) (omega arith)) (omega arith) in
      let (j', second, within, _) =
        clamped s.lists area.1 (objects evt) j ((roomy (i + 1) (objects evt)).1 fine.0 fine.1)
          fine.0 in
      let kept : s.lists.render area.0 (i + 1) (some i) ≡ some i =
        first ∙ ap some (same (omega arith)) in
      let drawn =
        lists_lem s trace running mode (some i) (some j) line layout parts
          (sublist_items (some evt)) (i + 1) (objects evt) (some i) (some j') (omega arith)
          (omega arith) (lines-length evt fine.0) fine.1 kept second in
      (
        j',
        record {
          part_one = parts.0;
          sublist = sublist_items (some evt);
          part_two = parts.1;
          contents = none;
        },
        rw (sel, e) (ap ok drawn),
        within,
      )

  -- What is drawn of an object of the selected event.
  render_object_safe :
      (running : Bool) (mode : Mode) (i j : ℕ) (line : Option ℕ) (evt : AnnotatedTraceEvent)
      (layout : Rect) (d : Drawn)
      → get_elem? trace.events i ≡ some evt
      → j < objects evt
      → (line' : Option ℕ) × (d' : Drawn) × (render_object s
            (state trace running mode (some i) (some j) line)
            layout
            d
          ≡ ok (state trace running mode (some i) (some j) line', d'))
  unfolding render_object show_object
  render_object_safe running mode i j line evt layout d found inside =
      let (obj, e) = object_at-some evt j inside in
      let (t, written) = pretty obj in
      (
        s.lists.render layout (length (split 10 t)) line,
        record d { contents = some (split 10 t) },
        rw (found, e, written) refl,
      )

  IsShown-at :
      (i : ℕ) (evt : AnnotatedTraceEvent)
      → get_elem? trace.events i ≡ some evt
      → IsShown s.is_duration (start_of trace) evt
  IsShown-at i evt found = at i trace.events shown found
    where
      at :
          (i : ℕ) (events : List AnnotatedTraceEvent)
          → All (IsShown s.is_duration (start_of trace)) events
          → get_elem? events i ≡ some evt
          → IsShown s.is_duration (start_of trace) evt
      at i [] h e = absurd (ground arith)
      at zero (x ∷ events) h e = ground (arith, h.0)
      at (suc i) (x ∷ events) h e = at i events h.1 e

  wide_root :
      (running : Bool) (i : ℕ) (obj line : Option ℕ) (top : Rect)
      → Roomy s (length trace.events) (s.inner ((s.halves top).0))
      → Drawing trace running root_view
          (view_wide s (state trace running root_view (some i) obj line) top)
  unfolding view_wide
  wide_root running i obj line top roomy =
      let (j, obj', d, e, inside) =
        render_root running i obj line (s.inner ((s.halves top).0)) roomy in
      (some j, obj', line, d, rw e refl, inside)

  narrow_root :
      (running : Bool) (i : ℕ) (obj line : Option ℕ) (top : Rect)
      → Roomy s (length trace.events) (s.inner top)
      → Drawing trace running root_view
          (view_narrow s (state trace running root_view (some i) obj line) top)
  unfolding view_narrow
  narrow_root running i obj line top roomy =
      let (j, obj', d, e, inside) = render_root running i obj line (s.inner top) roomy in
      (some j, obj', line, d, rw e refl, inside)

  wide_event :
      (running : Bool) (i j : ℕ) (line : Option ℕ) (top : Rect)
      → Roomy s (length trace.events) (s.inner ((s.halves top).0))
      → i < length trace.events
      → Drawing trace running event_selected
          (view_wide s (state trace running event_selected (some i) (some j) line) top)
  unfolding view_wide selection
  wide_event running i j line top roomy inside =
      let (evt, found) = get_elem?_of_lt trace.events i inside in
      let (j', d, e, within) =
        render_selected running event_selected i j line evt (s.inner ((s.halves top).0)) roomy
          (rw found refl) inside (IsShown-at i evt found) in
      let (line', d', o) =
        render_object_safe running event_selected i j' line evt (s.inner ((s.halves top).1)) d found
          within in
      (some i, some j', line', d', rw (e, o) refl, inside)

  wide_object :
      (running : Bool) (i j : ℕ) (line : Option ℕ) (top : Rect)
      → Roomy s (length trace.events) (s.inner ((s.halves top).0))
      → i < length trace.events
      → Drawing trace running object_selected
          (view_wide s (state trace running object_selected (some i) (some j) line) top)
  unfolding view_wide selection
  wide_object running i j line top roomy inside =
      let (evt, found) = get_elem?_of_lt trace.events i inside in
      let (j', d, e, within) =
        render_selected running object_selected i j line evt (s.inner ((s.halves top).0)) roomy
          (rw found refl) inside (IsShown-at i evt found) in
      let (line', d', o) =
        render_object_safe running object_selected i j' line evt (s.inner ((s.halves top).1)) d
          found within in
      (some i, some j', line', d', rw (e, o) refl, inside)

  narrow_event :
      (running : Bool) (i j : ℕ) (line : Option ℕ) (top : Rect)
      → Roomy s (length trace.events) (s.inner top)
      → i < length trace.events
      → Drawing trace running event_selected
          (view_narrow s (state trace running event_selected (some i) (some j) line) top)
  unfolding view_narrow selection
  narrow_event running i j line top roomy inside =
      let (evt, found) = get_elem?_of_lt trace.events i inside in
      let (j', d, e, within) =
        render_selected running event_selected i j line evt (s.inner top) roomy (rw found refl)
          inside (IsShown-at i evt found) in
      (some i, some j', line, d, rw e refl, inside)

  narrow_object :
      (running : Bool) (i j : ℕ) (line : Option ℕ) (top : Rect)
      → Roomy s (length trace.events) (s.inner top)
      → i < length trace.events
      → Drawing trace running object_selected
          (view_narrow s (state trace running object_selected (some i) (some j) line) top)
  unfolding view_narrow selection
  narrow_object running i j line top roomy inside =
      let (evt, found) = get_elem?_of_lt trace.events i inside in
      let (j', d, e, within) =
        render_selected running object_selected i j line evt (s.inner top) roomy (rw found refl)
          inside (IsShown-at i evt found) in
      let (line', d', o) =
        render_object_safe running object_selected i j' line evt (s.inner (popup top)) d found
          within in
      (some i, some j', line', d', rw (e, o) refl, inside)

  -- A drawing does not panic, and changes neither the trace nor the mode; the event that is selected is
  -- one of the trace then.
  pub view_safe :
      (running : Bool) (mode : Mode) (evt obj line : Option ℕ) (area : Rect)
      → IsRoomy s (length trace.events) area
      → Selected (length trace.events) mode evt obj
      → Drawing trace running mode (view s (state trace running mode evt obj line) area)
  unfolding view
  view_safe running mode evt obj line area roomy sel =
      elim (Bool-cases (ltb 120 (s.top area).width)) [
        | inl wide ↦ rw wide (in_wide mode evt obj sel)
        | inr narrow ↦ rw narrow (in_narrow mode evt obj sel)
      ]
    where
      in_wide :
          (mode : Mode) (evt obj : Option ℕ)
          → Selected (length trace.events) mode evt obj
          → Drawing trace running mode
              (view_wide s (state trace running mode evt obj line) (s.top area))
      in_wide root_view (some i) obj h = wide_root running i obj line (s.top area) roomy.1
      in_wide event_selected (some i) (some j) h =
          wide_event running i j line (s.top area) roomy.1 h
      in_wide object_selected (some i) (some j) h =
          wide_object running i j line (s.top area) roomy.1 h
      in_wide root_view none obj h = elim h [ ]
      in_wide event_selected none obj h = elim h [ ]
      in_wide object_selected none obj h = elim h [ ]
      in_wide event_selected (some i) none h = elim h [ ]
      in_wide object_selected (some i) none h = elim h [ ]

      in_narrow :
          (mode : Mode) (evt obj : Option ℕ)
          → Selected (length trace.events) mode evt obj
          → Drawing trace running mode
              (view_narrow s (state trace running mode evt obj line) (s.top area))
      in_narrow root_view (some i) obj h = narrow_root running i obj line (s.top area) roomy.0
      in_narrow event_selected (some i) (some j) h =
          narrow_event running i j line (s.top area) roomy.0 h
      in_narrow object_selected (some i) (some j) h =
          narrow_object running i j line (s.top area) roomy.0 h
      in_narrow root_view none obj h = elim h [ ]
      in_narrow event_selected none obj h = elim h [ ]
      in_narrow object_selected none obj h = elim h [ ]
      in_narrow event_selected (some i) none h = elim h [ ]
      in_narrow object_selected (some i) none h = elim h [ ]
