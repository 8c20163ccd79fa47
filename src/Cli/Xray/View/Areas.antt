-- ===== src/Cli/Xray/View/Areas.antt =====
-- The lists of the viewer and the areas that they are drawn in.
use simkube.Common.{
  ℕ, zero, suc, ◌+◌, ◌-◌, ◌<◌, ◌≤◌, ◌≡◌, refl, inl, inr, ◌∙◌, Bool, true, false, Option, none, some,
  List, [], ◌∷◌, ◌++◌, map, String, Outcome, ok, length, length-append, length-map, unwrap_or,
  get_elem?_of_lt, ltb, leb, if◌then◌else◌, arith, Bool-cases, All,
}
use simkube.Common.Int.{ℤ, pos, ◌-ℤ◌}
use simkube.Core.Kube.{DynamicObject, Naming}
use simkube.Store.TraceStore.{start_ts}
use simkube.Cli.Validation.{AnnotatedTraceEvent, AnnotatedTrace}
use simkube.Cli.Xray.App.{Mode, root_view, event_selected, object_selected, App, Rect, Lists}
use simkube.Cli.Xray.View.{
  Screen, Drawn, Parts, root_items, sublist_items, object_line, or_blank, shown_lists, object_at,
  index, u16, describe,
}

abbrev pub objects : AnnotatedTraceEvent → ℕ
objects evt = length evt.data_.applied_objs + length evt.data_.deleted_objs

-- What is asked of an event: that it has objects, and not too many, and that its time can be shown.
abbrev pub IsShown : (ℤ → Bool) → ℤ → AnnotatedTraceEvent → Type 0
IsShown is_duration start evt =
    (0 < objects evt) × (objects evt < 65536) × (is_duration (evt.data_.ts -ℤ start) ≡ true)

abbrev pub start_of : AnnotatedTrace → ℤ
start_of trace = unwrap_or (start_ts trace.base) (pos 0)

-- The times of all events can be shown.
abbrev pub AllTimed : (ℤ → Bool) → ℤ → List AnnotatedTraceEvent → Type 0
AllTimed is_duration start events = All (λ evt. is_duration (evt.data_.ts -ℤ start) ≡ true) events

pub root_items-length :
    (is_duration : ℤ → Bool) (start : ℤ) (n i : ℕ) (events : List AnnotatedTraceEvent)
    → AllTimed is_duration start events
    → n ≤ i + length events
    → (parts : Parts) × (root_items is_duration start n i events ≡ ok parts)
      × (length parts.0 ≡ n - i)
unfolding root_items
root_items-length is_duration start n i [] h high = (([], []), refl, omega arith)
root_items-length is_duration start n i (evt ∷ events) h high =
    let (parts, e, len) = root_items-length is_duration start n (suc i) events h.1 (omega arith) in
    elim (Bool-cases (ltb i n)) [
      | inl more ↦ (
        (describe (evt.data_.ts -ℤ start) evt ∷ parts.0, parts.1),
        rw (h.0, e, more) refl,
        ground arith,
      )
      | inr done ↦ (
        (parts.0, describe (evt.data_.ts -ℤ start) evt ∷ parts.1),
        rw (h.0, e, done) refl,
        ground arith,
      )
    ]

pub index-some :
    (objs : List DynamicObject) (i : ℕ)
    → i < length objs
    → (obj : DynamicObject) × (index objs i ≡ ok (some obj))
index-some objs i h = let (obj, e) = get_elem?_of_lt objs i h in (obj, rw e refl)

pub object_at-some :
    (evt : AnnotatedTraceEvent) (i : ℕ)
    → i < objects evt
    → (obj : DynamicObject) × (object_at evt i ≡ ok (some obj))
unfolding object_at
object_at-some evt i h = elim (Bool-cases (leb (length evt.data_.applied_objs) i)) [
  | inl past ↦
      let (obj, e) =
        index-some evt.data_.deleted_objs (i - length evt.data_.applied_objs) (ground arith) in
      let inside : ltb (length evt.data_.deleted_objs) (i - length evt.data_.applied_objs) ≡ false =
        ground arith in
      (obj, rw (past, inside) e)
  | inr applied ↦
      let (obj, e) = index-some evt.data_.applied_objs i (ground arith) in (obj, rw applied e)
]

-- A selection is put inside a list that is not empty, and left alone if it is inside.
pub clamped :
    (l : Lists) (area : Rect) (n i : ℕ)
    → l.has_room area ≡ true
    → 0 < n
    → (j : ℕ) × (l.render area n (some i) ≡ some j) × (j < n) × (i < n → j ≡ i)
clamped l area zero i room some_ = absurd (omega arith)
clamped l area (suc n) i room some_ =
    (if leb i n then i else n, l.render_clamps area n i room, ground arith, λ h. ground arith)

pub or_blank-length :
    (items : List String) → 0 < length items → length (or_blank items) ≡ length items
or_blank-length [] h = absurd (omega arith)
or_blank-length (item ∷ items) h = refl

-- The lines of an event that has objects: one for each.
pub lines-length :
    ⦃n : Naming⦄ (evt : AnnotatedTraceEvent)
    → 0 < objects evt
    → length (sublist_items (some evt)) ≡ objects evt
unfolding sublist_items
lines-length evt h =
    let lines =
      map (object_line "+") evt.data_.applied_objs
      ++ map (object_line "-") evt.data_.deleted_objs in
    let all : length lines ≡ objects evt = omega (
      arith,
      length-append (map (object_line "+") evt.data_.applied_objs)
          (map (object_line "-") evt.data_.deleted_objs),
      length-map (object_line "+") evt.data_.applied_objs,
      length-map (object_line "-") evt.data_.deleted_objs,
    ) in
    or_blank-length lines (omega arith) ∙ all

-- Two lists of known lengths are drawn in areas of these lengths.
pub fitted :
    (s : Screen) (layout : Rect) (a b n m : ℕ) (o q : Option ℕ)
    → a ≡ n
    → n < 65536
    → b ≡ m
    → m < 65536
    → (s.lists.render (s.nested layout (u16 a) (u16 b)).0 a o
        ≡ s.lists.render (s.nested layout n m).0 n o)
      × (s.lists.render (s.nested layout (u16 a) (u16 b)).1 b q
          ≡ s.lists.render (s.nested layout n m).1 m q)
fitted s layout a b n m o q e small f small' =
    let w : u16 n ≡ n = omega arith in
    let v : u16 m ≡ m = omega arith in rw (e, f, w, v) (refl, refl)

-- Lists that are not empty, and not longer than those of the trace, have room in their areas.
abbrev pub Roomy : Screen → ℕ → Rect → Type 0
Roomy s events layout =
    (a b : ℕ)
    → (0 < a → a ≤ events → s.lists.has_room (s.nested layout a b).0 ≡ true)
      × (0 < b → b < 65536 → s.lists.has_room (s.nested layout a b).1 ≡ true)

-- An event is selected, and below the root of the viewer one of the trace, and an object of it.
abbrev pub Selected : ℕ → Mode → Option ℕ → Option ℕ → Type 0
Selected n root_view (some i) obj = Unit
Selected n event_selected (some i) (some j) = i < n
Selected n object_selected (some i) (some j) = i < n
Selected n _ _ _ = ⊥

-- After a drawing, the event that is selected is one of the trace in every mode.
abbrev pub OnScreen : ℕ → Mode → Option ℕ → Option ℕ → Type 0
OnScreen n root_view (some i) obj = i < n
OnScreen n event_selected (some i) (some j) = i < n
OnScreen n object_selected (some i) (some j) = i < n
OnScreen n _ _ _ = ⊥

-- The lists of a trace of so many events have room where they are drawn.
abbrev pub IsRoomy : Screen → ℕ → Rect → Type 0
IsRoomy s events area =
    Roomy s events (s.inner (s.top area)) × Roomy s events (s.inner ((s.halves (s.top area)).0))

abbrev pub state : AnnotatedTrace → Bool → Mode → Option ℕ → Option ℕ → Option ℕ → App
state trace running mode evt obj line = record {
  running = running;
  mode = mode;
  trace = trace;
  event_list_state = evt;
  object_list_state = obj;
  object_contents_list_state = line;
}

-- A drawing that succeeds, and leaves the trace and the mode.
abbrev pub Drawing : AnnotatedTrace → Bool → Mode → Outcome (App × Drawn) → Type 0
Drawing trace running mode r =
    (evt : Option ℕ) × (obj : Option ℕ) × (line : Option ℕ) × (d : Drawn) × (r
      ≡ ok (state trace running mode evt obj line, d))
    × OnScreen (length trace.events) mode evt obj

module _ ⦃n : Naming⦄ (s : Screen) (trace : AnnotatedTrace) where
  pub lists_lem :
      (running : Bool) (mode : Mode) (i j line : Option ℕ) (layout : Rect) (parts : Parts)
      (items : List String) (a b : ℕ) (i' j' : Option ℕ)
      → length parts.0 ≡ a
      → a < 65536
      → length items ≡ b
      → b < 65536
      → s.lists.render (s.nested layout a b).0 a i ≡ i'
      → s.lists.render (s.nested layout a b).1 b j ≡ j'
      → shown_lists s (state trace running mode i j line) layout parts items ≡ (
        state trace running mode i' j' line,
        record { part_one = parts.0; sublist = items; part_two = parts.1; contents = none },
      )
  lists_lem running mode i j line layout parts items a b i' j' e small f small' x y =
      let (p, q) = fitted s layout (length parts.0) (length items) a b i j e small f small' in
      ground (arith, p, q)
