-- ===== src/Store/Export/Window.antt =====
-- What `collect_events` and `import` make of a window of the trace.
use simkube.Common.{
  ℕ, ◌≡◌, refl, ap, sym, ◌∙◌, ◌⊎◌, inl, inr, Bool, true, false, not, ◌&&◌, ◌||◌, some, List, [],
  ◌∷◌, ◌++◌, String, ok, arith, string_eq, nat_eq, All, is_empty, Bool-cases, if◌then◌else◌,
}
use simkube.Common.Int.{ℤ, ltb_ℤ, leb_ℤ, ◌≤ℤ◌}
use simkube.Common.Map
use simkube.Common.Map.{Map, get-insert, get-remove}
use simkube.Core.Hash.{Hasher}
use simkube.Core.Kube.{DynamicObject, Naming}
use simkube.Store.Event.{TraceEvent, ExportFilters}
use simkube.Store.Event.Filter.{Kept, filter_event-All}
use simkube.Store.TraceStore.{TraceStore, spec_hash, name_of}
use simkube.Store.TraceStore.Sorted.{IsSorted}
use simkube.Store.TraceStore.Replay.{named, after_event, live_from, is_live}
use simkube.Store.Export.{
  Collected, nothing_collected, values, apply_objs, delete_objs, collect_event, collect_loop,
  collect_events,
}

-- The events before a time, up to the first that is not.
abbrev pub upto : ℤ → List TraceEvent → List TraceEvent
upto end [] = []
upto end (evt ∷ events) = if leb_ℤ end evt.ts then [] else evt ∷ upto end events

module _ ⦃h : Hasher⦄ ⦃n : Naming⦄ where
  -- Each object of the map stands at its own name.
  abbrev Keyed : Map String DynamicObject → Type 0
  Keyed m = All (λ e. name_of e.1 ≡ e.0) m

  insert-Keyed :
      (m : Map String DynamicObject) (obj : DynamicObject)
      → Keyed m
      → Keyed (Map.insert m (name_of obj) obj)
  unfolding Map.insert
  insert-Keyed [] obj k = (refl, tt)
  insert-Keyed ((j, o) ∷ m) obj k = ground (arith, insert-Keyed m obj k.1)

  remove-Keyed : (m : Map String DynamicObject) (j : String) → Keyed m → Keyed (Map.remove m j)
  unfolding Map.remove
  remove-Keyed [] j k = tt
  remove-Keyed ((i, o) ∷ m) j k = ground (arith, remove-Keyed m j k.1)

  named-values :
      (m : Map String DynamicObject) (j : String)
      → Keyed m
      → named j (values m) ≡ Map.contains_key m j
  unfolding Map.get
  named-values [] j k = refl
  named-values ((i, o) ∷ m) j k = ground (arith, named-values m j k.1, k.0)

  -- What is collected leaves this object live.
  abbrev alive : Collected → String → Bool
  alive c k = live_from (Map.contains_key c.flattened_objects k) c.events k

  apply-early :
      (objs : List DynamicObject) (c : Collected) (k : String)
      → Keyed c.flattened_objects
      → Keyed (apply_objs true c objs).flattened_objects
        × ((apply_objs true c objs).events ≡ c.events)
        × (Map.contains_key (apply_objs true c objs).flattened_objects k
            ≡ (Map.contains_key c.flattened_objects k || named k objs))
  unfolding apply_objs
  apply-early [] c k kd = (kd, refl, ground arith)
  apply-early (obj ∷ objs) c k kd =
      let c' = record c {
        flattened_objects = Map.insert c.flattened_objects (name_of obj) obj;
        index = Map.insert c.index (name_of obj) (spec_hash obj);
      } in
      let (a, b, d) = apply-early objs c' k (insert-Keyed c.flattened_objects obj kd) in
      (a, b, ground (arith, d, get-insert c.flattened_objects (name_of obj) k obj))

  apply-late :
      (objs : List DynamicObject) (c : Collected)
      → ((apply_objs false c objs).flattened_objects ≡ c.flattened_objects)
        × ((apply_objs false c objs).events ≡ c.events)
  unfolding apply_objs
  apply-late [] c = (refl, refl)
  apply-late (obj ∷ objs) c =
      apply-late objs (record c { index = Map.insert c.index (name_of obj) (spec_hash obj) })

  delete-early :
      (objs : List DynamicObject) (keep : Bool) (c : Collected) (k : String)
      → Keyed c.flattened_objects
      → Keyed (delete_objs true keep c objs).flattened_objects
        × ((delete_objs true keep c objs).events ≡ c.events)
        × (Map.contains_key (delete_objs true keep c objs).flattened_objects k
            ≡ (Map.contains_key c.flattened_objects k && not (named k objs)))
  unfolding delete_objs
  delete-early [] keep c k kd = (kd, refl, ground arith)
  delete-early (obj ∷ objs) keep c k kd =
      let c' = record c {
        flattened_objects = Map.remove c.flattened_objects (name_of obj);
        index = if keep then c.index else Map.remove c.index (name_of obj);
      } in
      let (a, b, d) =
        delete-early objs keep c' k (remove-Keyed c.flattened_objects (name_of obj) kd) in
      (a, b, ground (arith, d, get-remove c.flattened_objects (name_of obj) k))

  delete-late :
      (objs : List DynamicObject) (keep : Bool) (c : Collected)
      → ((delete_objs false keep c objs).flattened_objects ≡ c.flattened_objects)
        × ((delete_objs false keep c objs).events ≡ c.events)
  unfolding delete_objs
  delete-late [] keep c = (refl, refl)
  delete-late (obj ∷ objs) keep c =
      delete-late objs keep
        (record c { index = if keep then c.index else Map.remove c.index (name_of obj) })

  live-append :
      (events : List TraceEvent) (live : Bool) (evt : TraceEvent) (k : String)
      → live_from live (events ++ evt ∷ []) k ≡ after_event (live_from live events k) evt k
  unfolding live_from
  live-append [] live evt k = refl
  live-append (e ∷ events) live evt k = live-append events (after_event live e k) evt k

  -- No event is collected yet, or none of these is earlier than the start.
  abbrev Ready : ℤ → Collected → List TraceEvent → Type 0
  Ready start c events = (c.events ≡ []) ⊎ All (λ evt. start ≤ℤ evt.ts) events

  -- The filters leave everything of this event.
  abbrev pub Untouched : ExportFilters → TraceEvent → Type 0
  Untouched f evt = All (Kept f) evt.applied_objs × All (Kept f) evt.deleted_objs

  later-All :
      (start : ℤ) (events : List TraceEvent) (evt : TraceEvent)
      → start ≤ℤ evt.ts
      → IsSorted (evt ∷ events)
      → All (λ e. start ≤ℤ e.ts) events
  later-All start [] evt l s = tt
  later-All start (e ∷ events) evt l s =
      let l' : start ≤ℤ e.ts = omega (arith, s.0) in (l', later-All start events e l' s.1)

  tail-IsSorted :
      (events : List TraceEvent) (evt : TraceEvent) → IsSorted (evt ∷ events) → IsSorted events
  tail-IsSorted [] evt s = tt
  tail-IsSorted (e ∷ events) evt s = s.1

  -- What the loop has after an event that is left whole.
  abbrev Stepped : ℤ → Collected → TraceEvent → List TraceEvent → String → Collected → Type 0
  Stepped start c evt events k c' =
      Keyed c'.flattened_objects
      × Ready start c' events
      × (alive c' k ≡ after_event (alive c k) evt k)

  alive-none :
      (c : Collected) (k : String)
      → c.events ≡ []
      → alive c k ≡ Map.contains_key c.flattened_objects k
  unfolding live_from
  alive-none c k e = ap (λ events. live_from (Map.contains_key c.flattened_objects k) events k) e

  step-early :
      (start : ℤ) (keep : Bool) (c : Collected) (evt : TraceEvent) (events : List TraceEvent)
      (k : String)
      → ltb_ℤ evt.ts start ≡ true
      → Keyed c.flattened_objects
      → Ready start c (evt ∷ events)
      → Stepped start c evt events k (collect_event start keep c evt (some evt))
  unfolding collect_event
  step-early start keep c evt events k early kd (inr ready) = absurd (ground (arith, ready.0))
  step-early start keep c evt events k early kd (inl none_yet) =
      let (a, b, d) = apply-early evt.applied_objs c k kd in
      let (a', b', d') =
        delete-early evt.deleted_objs keep (apply_objs true c evt.applied_objs) k a in
      let not_late : leb_ℤ start evt.ts ≡ false = ground arith in
      let c' = delete_objs true keep (apply_objs true c evt.applied_objs) evt.deleted_objs in
      let none_yet' : c'.events ≡ [] = b' ∙ b ∙ none_yet in
      let lives : alive c' k ≡ after_event (alive c k) evt k =
        alive-none c' k none_yet'
        ∙ d'
        ∙ ap (λ l. l && not (named k evt.deleted_objs))
            (d ∙ ap (λ l. l || named k evt.applied_objs) (sym (alive-none c k none_yet))) in
      rw (early, not_late) (a', inl none_yet', lives)

  step-late :
      (start : ℤ) (keep : Bool) (c : Collected) (evt : TraceEvent) (events : List TraceEvent)
      (k : String)
      → ltb_ℤ evt.ts start ≡ false
      → Keyed c.flattened_objects
      → IsSorted (evt ∷ events)
      → Stepped start c evt events k (collect_event start keep c evt (some evt))
  unfolding collect_event
  step-late start keep c evt events k late kd s =
      let (a, b) = apply-late evt.applied_objs c in
      let (a', b') = delete-late evt.deleted_objs keep (apply_objs false c evt.applied_objs) in
      let l : leb_ℤ start evt.ts ≡ true = ground arith in
      rw (late, l)
        (
          rw (a', a) kd,
          inr (later-All start events evt (ground arith) s),
          rw (a', a, b', b) (live-append c.events _ evt k),
        )

  step :
      (start : ℤ) (keep : Bool) (c : Collected) (evt : TraceEvent) (events : List TraceEvent)
      (k : String)
      → Keyed c.flattened_objects
      → Ready start c (evt ∷ events)
      → IsSorted (evt ∷ events)
      → Stepped start c evt events k (collect_event start keep c evt (some evt))
  step start keep c evt events k kd ready s = elim (Bool-cases (ltb_ℤ evt.ts start)) [
    | inl early ↦ step-early start keep c evt events k early kd ready
    | inr late ↦ step-late start keep c evt events k late kd s
  ]

  Ready-tail :
      (start : ℤ) (c : Collected) (evt : TraceEvent) (events : List TraceEvent)
      → Ready start c (evt ∷ events)
      → Ready start c events
  Ready-tail start c evt events (inl e) = inl e
  Ready-tail start c evt events (inr r) = inr r.1

  after-empty :
      (evt : TraceEvent) (live : Bool) (k : String)
      → (is_empty evt.applied_objs && is_empty evt.deleted_objs) ≡ true
      → after_event live evt k ≡ live
  after-empty evt live k e = go evt.applied_objs evt.deleted_objs e
    where
      go :
          (a d : List DynamicObject)
          → (is_empty a && is_empty d) ≡ true
          → ((live || named k a) && not (named k d)) ≡ live
      go [] [] e = ground arith
      go [] (x ∷ d) e = absurd (ground arith)
      go (x ∷ a) d e = absurd (ground arith)

  abbrev Loops : ℤ → ℤ → ExportFilters → Bool → Collected → List TraceEvent → Type 0
  Loops start end f keep c events =
      (c' : Collected) × (collect_loop start end f keep c events ≡ ok c')
      × Keyed c'.flattened_objects
      × ((k : String) → alive c' k ≡ live_from (alive c k) (upto end events) k)

  loop :
      (start end : ℤ) (f : ExportFilters) (keep : Bool) (events : List TraceEvent) (c : Collected)
      → All (Untouched f) events
      → IsSorted events
      → Keyed c.flattened_objects
      → Ready start c events
      → Loops start end f keep c events
  unfolding collect_loop live_from collect_event
  loop start end f keep [] c u s kd ready = (c, refl, kd, λ k. refl)
  loop start end f keep (evt ∷ events) c (u, us) s kd ready = elim (Bool-cases (leb_ℤ end evt.ts)) [
    | inl over ↦ (c, rw over refl, kd, λ k. rw over refl)
    | inr on ↦ elim (Bool-cases (is_empty evt.applied_objs && is_empty evt.deleted_objs)) [
      | inl e ↦
          let (c', r, kd', lives) =
            loop start end f keep events c us (tail-IsSorted events evt s) kd
              (Ready-tail start c evt events ready) in
          (
            c',
            rw (on, filter_event-All evt f u.0 u.1, e) r,
            kd',
            λ k. rw on (
                lives k
                ∙ sym
                    (ap (λ l. live_from l (upto end events) k) (after-empty evt (alive c k) k e))),
          )
      | inr e ↦
          let c1 = collect_event start keep c evt (some evt) in
          let at : (k : String) → Stepped start c evt events k c1 =
            λ k. step start keep c evt events k kd ready s in
          let (c', r, kd', lives) =
            loop start end f keep events c1 us (tail-IsSorted events evt s) (at "").0 (at "").1 in
          (
            c',
            rw (on, filter_event-All evt f u.0 u.1, e) r,
            kd',
            λ k. rw on (lives k ∙ ap (λ l. live_from l (upto end events) k) (at k).2),
          )
    ]
  ]

  and_true : (b : Bool) → (b && true) ≡ b
  and_true b = ground arith

  -- From a trace whose timestamps grow strictly and of which the filters exclude nothing, events are
  -- collected without error, the first of them at the start of the window. What their replay leaves
  -- live is what the replay of the trace up to the end of the window leaves live.
  pub collect_events-is_live :
      (s : TraceStore) (start end : ℤ) (f : ExportFilters) (keep_deleted : Bool)
      → IsSorted s.events
      → All (Untouched f) s.events
      → (first : TraceEvent) × (events : List TraceEvent) × (index : Map String ℕ) × (collect_events
            s start end f keep_deleted
          ≡ ok (first ∷ events, index))
        × (first.ts ≡ start)
        × ((k : String) → is_live (first ∷ events) k ≡ is_live (upto end s.events) k)
  unfolding collect_events live_from Map.get
  collect_events-is_live s start end f keep_deleted sorted u =
      let (c, r, kd, lives) =
        loop start end f keep_deleted s.events nothing_collected u sorted tt (inl refl) in
      (
        record { ts = start; applied_objs = values c.flattened_objects; deleted_objs = [] },
        c.events,
        c.index,
        rw r refl,
        refl,
        λ k.
            ap (λ l. live_from (l && true) c.events k) (named-values c.flattened_objects k kd)
            ∙ ap (λ l. live_from l c.events k) (and_true (Map.contains_key c.flattened_objects k))
            ∙ lives k,
      )
