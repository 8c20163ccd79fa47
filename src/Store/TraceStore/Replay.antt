-- ===== src/Store/TraceStore/Replay.antt =====
-- What a reader of the trace makes of it: the names that are live after its events. The store keeps
-- its events and its index in step.
use simkube.Common.{
  ℕ, ◌≡◌, Bool, true, false, not, ◌&&◌, ◌||◌, none, List, [], ◌∷◌, ◌++◌, String, arith, ◌==◌,
  string_eq, nat_eq, any, if◌then◌else◌,
}
use text.Mathlib.TextEquality.{eq_iff}
use simkube.Common.Int.{ℤ, int_eq}
use simkube.Common.Map
use simkube.Common.Map.{Map, get-insert, get-remove}
use simkube.Core.Hash.{Hasher}
use simkube.Core.Kube.{DynamicObject, Naming}
use simkube.Store.Event.{TraceEvent, object_applied, object_deleted}
use simkube.Store.TraceStore.{
  TraceStore, append_to, append_event, spec_hash, name_of, create_or_update_obj, delete_obj,
}

any-append {ℓ} :
    {A : Type ℓ} (p : A → Bool) (xs : List A) (x : A) → any p (xs ++ x ∷ []) ≡ (any p xs || p x)
any-append p [] x = ground arith
any-append p (y ∷ xs) x = ground (arith, any-append p xs x)

module _ ⦃h : Hasher⦄ ⦃n : Naming⦄ where
  abbrev pub named : String → List DynamicObject → Bool
  named k objs = any (λ obj. name_of obj == k) objs

  -- An event applies its objects, and then deletes its deleted ones.
  abbrev pub after_event : Bool → TraceEvent → String → Bool
  after_event live evt k = (live || named k evt.applied_objs) && not (named k evt.deleted_objs)

  unfoldable pub live_from : Bool → List TraceEvent → String → Bool
  live_from live [] k = live
  live_from live (evt ∷ events) k = live_from (after_event live evt k) events k

  -- The object of this name is live at the end of the trace.
  abbrev pub is_live : List TraceEvent → String → Bool
  is_live events k = live_from false events k

  -- The last event has this timestamp and deletes the object of this name.
  unfoldable pub deleted_at : List TraceEvent → ℤ → String → Bool
  deleted_at [] ts k = false
  deleted_at (evt ∷ []) ts k = evt.ts == ts && named k evt.deleted_objs
  deleted_at (evt ∷ next ∷ events) ts k = deleted_at (next ∷ events) ts k

  pub live-deleted :
      (events : List TraceEvent) (live : Bool) (ts : ℤ) (obj : DynamicObject) (k : String)
      → live_from live (append_to events ts obj object_deleted) k
        ≡ (if name_of obj == k then false else live_from live events k)
  unfolding live_from append_to
  live-deleted [] live ts obj k = ground arith
  live-deleted (evt ∷ []) live ts obj k =
      ground (arith, any-append (λ o. name_of o == k) evt.deleted_objs obj)
  live-deleted (evt ∷ next ∷ events) live ts obj k =
      live-deleted (next ∷ events) (after_event live evt k) ts obj k

  pub live-applied :
      (events : List TraceEvent) (live : Bool) (ts : ℤ) (obj : DynamicObject) (k : String)
      → deleted_at events ts (name_of obj) ≡ false
      → live_from live (append_to events ts obj object_applied) k
        ≡ (if name_of obj == k then true else live_from live events k)
  unfolding live_from append_to deleted_at
  live-applied [] live ts obj k c = ground arith
  live-applied (evt ∷ []) live ts obj k c =
      ground (arith, any-append (λ o. name_of o == k) evt.applied_objs obj, eq_iff (name_of obj) k)
  live-applied (evt ∷ next ∷ events) live ts obj k c =
      live-applied (next ∷ events) (after_event live evt k) ts obj k c

  -- Applying an object deletes none.
  pub deleted_at-applied :
      (events : List TraceEvent) (ts : ℤ) (obj : DynamicObject) (k : String)
      → deleted_at events ts k ≡ false
      → deleted_at (append_to events ts obj object_applied) ts k ≡ false
  unfolding append_to deleted_at
  deleted_at-applied [] ts obj k c = ground arith
  deleted_at-applied (evt ∷ []) ts obj k c = ground arith
  deleted_at-applied (evt ∷ next ∷ []) ts obj k c =
      ground (arith, deleted_at-applied (next ∷ []) ts obj k c)
  deleted_at-applied (evt ∷ next ∷ e ∷ events) ts obj k c =
      deleted_at-applied (next ∷ e ∷ events) ts obj k c

  -- The trace and the index name the same live objects; `old` is an index that is being replaced.
  abbrev pub Agrees : TraceStore → Map String ℕ → Type 0
  Agrees s old =
      (k : String) → is_live s.events k ≡ (Map.contains_key s.index k || Map.contains_key old k)

  abbrev pub Replays : TraceStore → Type 0
  Replays s = (k : String) → is_live s.events k ≡ Map.contains_key s.index k

  pub create-Agrees :
      (s : TraceStore) (old : Map String ℕ) (obj : DynamicObject) (ts : ℤ)
      → Agrees s old
      → deleted_at s.events ts (name_of obj) ≡ false
      → Agrees
          (create_or_update_obj s obj ts (Map.get old (name_of obj)))
          (Map.remove old (name_of obj))
  unfolding create_or_update_obj append_event
  create-Agrees s old obj ts agrees c k = ground (
    arith,
    agrees k,
    agrees (name_of obj),
    eq_iff (name_of obj) k,
    live-applied s.events false ts obj k c,
    get-insert s.index (name_of obj) k (spec_hash obj),
    get-remove old (name_of obj) k,
  )

  -- An applied object leaves the trace and the index in step, unless the last event has the same
  -- timestamp and deletes it.
  pub create-Replays :
      (s : TraceStore) (obj : DynamicObject) (ts : ℤ)
      → Replays s
      → deleted_at s.events ts (name_of obj) ≡ false
      → Replays (create_or_update_obj s obj ts none)
  unfolding create_or_update_obj append_event
  create-Replays s obj ts replays c k = ground (
    arith,
    replays k,
    replays (name_of obj),
    eq_iff (name_of obj) k,
    live-applied s.events false ts obj k c,
    get-insert s.index (name_of obj) k (spec_hash obj),
  )

  dead_applied :
      (events : List TraceEvent) (live : Bool) (ts : ℤ) (obj : DynamicObject)
      → deleted_at events ts (name_of obj) ≡ true
      → live_from live (append_to events ts obj object_applied) (name_of obj) ≡ false
  unfolding live_from append_to deleted_at
  dead_applied [] live ts obj c = ground arith
  dead_applied (evt ∷ []) live ts obj c = ground arith
  dead_applied (evt ∷ next ∷ events) live ts obj c =
      dead_applied (next ∷ events) (after_event live evt (name_of obj)) ts obj c

  -- If it does, a new object of that name is in the index, and not live in the trace: within one
  -- event a reader applies before it deletes, whatever came first.
  pub create_after_delete :
      (s : TraceStore) (obj : DynamicObject) (ts : ℤ)
      → Map.get s.index (name_of obj) ≡ none
      → deleted_at s.events ts (name_of obj) ≡ true
      → (Map.contains_key (create_or_update_obj s obj ts none).index (name_of obj) ≡ true)
        × (is_live (create_or_update_obj s obj ts none).events (name_of obj) ≡ false)
  unfolding create_or_update_obj append_event
  create_after_delete s obj ts absent c = (
    ground (
      arith,
      get-insert s.index (name_of obj) (name_of obj) (spec_hash obj),
      eq_iff (name_of obj) (name_of obj),
    ),
    ground (arith, absent, dead_applied s.events false ts obj c),
  )

  pub delete-Replays :
      (s : TraceStore) (obj : DynamicObject) (ts : ℤ) → Replays s → Replays (delete_obj s obj ts)
  unfolding delete_obj append_event
  delete-Replays s obj ts replays k =
      ground
        (arith, replays k, live-deleted s.events false ts obj k, get-remove s.index (name_of obj) k)
