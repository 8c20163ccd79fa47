-- ===== src/Store/TraceStore/Refresh.antt =====
-- `update_all_objs`: the list of all objects that a watcher gets when it starts again.
use simkube.Common.{
  ℕ, ◌≡◌, refl, ap, Bool, false, not, ◌&&◌, ◌||◌, Option, List, [], ◌∷◌, String, arith, ◌==◌,
  string_eq, nat_eq, any, All,
}
use simkube.Common.Int.{ℤ}
use simkube.Common.Map
use simkube.Common.Map.{Map, keys, get-insert, get-remove, All-keys-insert, All-keys-remove}
use simkube.Core.Hash.{Hasher}
use simkube.Core.Kube.{DynamicObject, Naming}
use simkube.Core.Util.{build_deletable}
use simkube.Store.TraceStore.{
  TraceStore, append_event, spec_hash, name_of, create_or_update_obj, delete_obj, update_listed,
  delete_missing, update_all_objs,
}
use simkube.Store.TraceStore.Replay.{
  named, is_live, deleted_at, live-deleted, deleted_at-applied, Agrees, Replays, create-Agrees,
}

module _ ⦃h : Hasher⦄ ⦃n : Naming⦄ where
  -- The object that stands for a deleted one has its name.
  abbrev pub Recoverable : String → Type 0
  Recoverable k = name_of (build_deletable k) ≡ k

  create-deleted_at :
      (s : TraceStore) (o : Option ℕ) (obj : DynamicObject) (ts : ℤ) (k : String)
      → deleted_at s.events ts k ≡ false
      → deleted_at (create_or_update_obj s obj ts o).events ts k ≡ false
  unfolding create_or_update_obj append_event
  create-deleted_at s o obj ts k c = ground (arith, deleted_at-applied s.events ts obj k c)

  -- After the first loop the trace agrees with the new index and what is left of the old one.
  listed-Agrees :
      (objs : List DynamicObject) (s : TraceStore) (old : Map String ℕ) (ts : ℤ)
      → Agrees s old
      → ((k : String) → deleted_at s.events ts k ≡ false)
      → Agrees (update_listed s old objs ts).0 (update_listed s old objs ts).1
  unfolding update_listed
  listed-Agrees [] s old ts agrees c = agrees
  listed-Agrees (obj ∷ objs) s old ts agrees c =
      listed-Agrees objs _ _ ts (create-Agrees s old obj ts agrees (c (name_of obj)))
        (λ k. create-deleted_at s _ obj ts k (c k))

  create-index :
      (s : TraceStore) (o : Option ℕ) (obj : DynamicObject) (ts : ℤ) (k : String)
      → Map.contains_key (create_or_update_obj s obj ts o).index k
        ≡ (name_of obj == k || Map.contains_key s.index k)
  unfolding create_or_update_obj append_event
  create-index s o obj ts k = ground (arith, get-insert s.index (name_of obj) k (spec_hash obj))

  listed-index :
      (objs : List DynamicObject) (s : TraceStore) (old : Map String ℕ) (ts : ℤ) (k : String)
      → (Map.contains_key (update_listed s old objs ts).0.index k
          ≡ (named k objs || Map.contains_key s.index k))
        × (Map.contains_key (update_listed s old objs ts).1 k
            ≡ (Map.contains_key old k && not (named k objs)))
  unfolding update_listed
  listed-index [] s old ts k = ground arith
  listed-index (obj ∷ objs) s old ts k = ground (
    arith,
    create-index s (Map.get old (name_of obj)) obj ts k,
    get-remove old (name_of obj) k,
    listed-index objs (create_or_update_obj s obj ts (Map.get old (name_of obj)))
        (Map.remove old (name_of obj)) ts k,
  )

  among : String → List String → Bool
  among k names = any (λ x. x == k) names

  delete-effect :
      (s : TraceStore) (obj : DynamicObject) (ts : ℤ) (k : String)
      → (is_live (delete_obj s obj ts).events k ≡ (is_live s.events k && not (name_of obj == k)))
        × (Map.contains_key (delete_obj s obj ts).index k
            ≡ (Map.contains_key s.index k && not (name_of obj == k)))
  unfolding delete_obj append_event
  delete-effect s obj ts k =
      ground (arith, live-deleted s.events false ts obj k, get-remove s.index (name_of obj) k)

  missing-effect :
      (names : List String) (s : TraceStore) (ts : ℤ) (k : String)
      → All Recoverable names
      → (is_live (delete_missing s names ts).events k ≡ (is_live s.events k && not (among k names)))
        × (Map.contains_key (delete_missing s names ts).index k
            ≡ (Map.contains_key s.index k && not (among k names)))
  unfolding delete_missing among
  missing-effect [] s ts k r = ground arith
  missing-effect (x ∷ names) s ts k r = ground (
    arith,
    missing-effect names (delete_obj s (build_deletable x) ts) ts k r.1,
    delete-effect s (build_deletable x) ts k,
    ap (λ y. y == k) r.0,
  )

  among-keys : (m : Map String ℕ) (k : String) → among k (keys m) ≡ Map.contains_key m k
  unfolding among Map.get
  among-keys [] k = refl
  among-keys ((j, v) ∷ m) k = ground (arith, among-keys m k)

  listed-Recoverable :
      (objs : List DynamicObject) (s : TraceStore) (old : Map String ℕ) (ts : ℤ)
      → All Recoverable (keys old)
      → All Recoverable (keys (update_listed s old objs ts).1)
  unfolding update_listed
  listed-Recoverable [] s old ts r = r
  listed-Recoverable (obj ∷ objs) s old ts r =
      listed-Recoverable objs _ _ ts (All-keys-remove Recoverable old (name_of obj) r)

  -- After a refresh the index names exactly the listed objects, and the trace, read to its end,
  -- leaves exactly those live. That holds if the trace and the index agreed before, no object was
  -- deleted at the time of the refresh, and an object made to stand for a name of the old index has
  -- that name.
  pub update_all_objs-Replays :
      (s : TraceStore) (objs : List DynamicObject) (ts : ℤ)
      → Replays s
      → ((k : String) → deleted_at s.events ts k ≡ false)
      → All Recoverable (keys s.index)
      → (k : String)
      → (Map.contains_key (update_all_objs s objs ts).index k ≡ named k objs)
        × (is_live (update_all_objs s objs ts).events k ≡ named k objs)
  unfolding update_all_objs Map.get
  update_all_objs-Replays s objs ts replays c r k =
      let t = update_listed (record s { index = [] }) s.index objs ts in
      ground (
        arith,
        missing-effect (keys t.1) t.0 ts k
            (listed-Recoverable objs (record s { index = [] }) s.index ts r),
        among-keys t.1 k,
        listed-index objs (record s { index = [] }) s.index ts k,
        listed-Agrees objs (record s { index = [] }) s.index ts empty_index c k,
      )
    where
      empty_index : Agrees (record s { index = [] }) s.index
      empty_index = replays

  pub create-names :
      (s : TraceStore) (o : Option ℕ) (obj : DynamicObject) (ts : ℤ)
      → Recoverable (name_of obj)
      → All Recoverable (keys s.index)
      → All Recoverable (keys (create_or_update_obj s obj ts o).index)
  unfolding create_or_update_obj append_event
  create-names s o obj ts r all =
      ground (arith, All-keys-insert Recoverable s.index (name_of obj) (spec_hash obj) all r)

  pub delete-names :
      (s : TraceStore) (obj : DynamicObject) (ts : ℤ)
      → All Recoverable (keys s.index)
      → All Recoverable (keys (delete_obj s obj ts).index)
  unfolding delete_obj append_event
  delete-names s obj ts all = All-keys-remove Recoverable s.index (name_of obj) all

  listed-names :
      (objs : List DynamicObject) (s : TraceStore) (old : Map String ℕ) (ts : ℤ)
      → All (λ obj. Recoverable (name_of obj)) objs
      → All Recoverable (keys s.index)
      → All Recoverable (keys (update_listed s old objs ts).0.index)
  unfolding update_listed
  listed-names [] s old ts r all = all
  listed-names (obj ∷ objs) s old ts r all =
      listed-names objs (create_or_update_obj s obj ts (Map.get old (name_of obj)))
        (Map.remove old (name_of obj)) ts r.1 (create-names s _ obj ts r.0 all)

  missing-names :
      (names : List String) (s : TraceStore) (ts : ℤ)
      → All Recoverable (keys s.index)
      → All Recoverable (keys (delete_missing s names ts).index)
  unfolding delete_missing
  missing-names [] s ts all = all
  missing-names (x ∷ names) s ts all =
      missing-names names (delete_obj s (build_deletable x) ts) ts
        (delete-names s (build_deletable x) ts all)

  pub update_all_objs-names :
      (s : TraceStore) (objs : List DynamicObject) (ts : ℤ)
      → All (λ obj. Recoverable (name_of obj)) objs
      → All Recoverable (keys (update_all_objs s objs ts).index)
  unfolding update_all_objs
  update_all_objs-names s objs ts r =
      missing-names _ _ ts (listed-names objs (record s { index = [] }) s.index ts r tt)
