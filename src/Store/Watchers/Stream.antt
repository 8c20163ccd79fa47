-- ===== src/Store/Watchers/Stream.antt =====
-- The trace that the object watcher records, over a whole stream of events.
use simkube.Common.{
  ◌≡◌, refl, sym, ◌∙◌, Option, none, some, List, [], ◌∷◌, arith, All, string_eq, nat_eq,
  if◌then◌else◌,
}
use simkube.Common.Int.{ℤ, ◌<ℤ◌}
use simkube.Common.Map
use simkube.Common.Map.{Map, keys}
use simkube.Core.Hash.{Hasher}
use simkube.Core.Kube.{DynamicObject, Naming}
use simkube.Store.Config.{TracerConfig}
use simkube.Store.TraceStore
use simkube.Store.TraceStore.{
  TraceStore, name_of, create_or_update_obj, delete_obj, update_all_objs,
}
use simkube.Store.TraceStore.Replay.{Replays, create-Replays, delete-Replays, live_from}
use simkube.Store.TraceStore.Sorted.{
  IsSorted, EndsBefore, SortedBy, EndsBefore→not-deleted_at, EndsBefore→EndsBy, EndsBy→EndsBefore,
  create-SortedBy, delete-SortedBy, update_all_objs-SortedBy,
}
use simkube.Store.TraceStore.Refresh.{
  Recoverable, update_all_objs-Replays, update_all_objs-names, create-names, delete-names,
}
use simkube.Store.Watchers.DynObj.{
  Event, applied, deleted, restarted, DynObjWatcher, Arrival, handle_arrival, start, fresh_watcher,
}

module _ ⦃h : Hasher⦄ ⦃n : Naming⦄ where
  -- An object made to stand for one of these has the same name.
  abbrev pub NamesRecoverable : Option (Event DynamicObject) → Type 0
  NamesRecoverable none = Unit
  NamesRecoverable (some (applied obj)) = Recoverable (name_of obj)
  NamesRecoverable (some (deleted obj)) = Unit
  NamesRecoverable (some (restarted objs)) = All (λ obj. Recoverable (name_of obj)) objs

  -- Each arrival is later than the one before it.
  abbrev pub Later : ℤ → List Arrival → Type 0
  Later ts [] = Unit
  Later ts ((ts', evt) ∷ arrivals) = (ts <ℤ ts') × NamesRecoverable evt × Later ts' arrivals

  pub record InStep (s : TraceStore) (ts : ℤ) : Type 0 where
    pub replays : Replays s
    pub sorted : SortedBy s.events ts
    pub names : All Recoverable (keys s.index)

  module _ (s : TraceStore) (ts ts' : ℤ) (inv : InStep s ts) (later : ts <ℤ ts') where
    before : EndsBefore s.events ts'
    before = EndsBy→EndsBefore s.events ts ts' inv.sorted.1 later

    by : SortedBy s.events ts'
    by = (inv.sorted.0, EndsBefore→EndsBy s.events ts' before)

    pub create-InStep :
        (obj : DynamicObject)
        → Recoverable (name_of obj)
        → InStep (create_or_update_obj s obj ts' none) ts'
    create-InStep obj r = record {
      replays =
          create-Replays s obj ts' inv.replays (EndsBefore→not-deleted_at s.events ts' _ before);
      sorted = create-SortedBy s obj ts' none by;
      names = create-names s none obj ts' r inv.names;
    }

    pub delete-InStep : (obj : DynamicObject) → InStep (delete_obj s obj ts') ts'
    delete-InStep obj = record {
      replays = delete-Replays s obj ts' inv.replays;
      sorted = delete-SortedBy s obj ts' by;
      names = delete-names s obj ts' inv.names;
    }

    pub refresh-InStep :
        (objs : List DynamicObject)
        → All (λ obj. Recoverable (name_of obj)) objs
        → InStep (update_all_objs s objs ts') ts'
    refresh-InStep objs r = record {
      replays = λ k.
          let both =
            update_all_objs-Replays s objs ts' inv.replays
              (λ j. EndsBefore→not-deleted_at s.events ts' j before) inv.names k in
          both.1 ∙ sym both.0;
      sorted = update_all_objs-SortedBy s objs ts' by;
      names = update_all_objs-names s objs ts' r;
    }

  -- A watcher has sent its one message exactly if it is ready.
  abbrev pub ReadyOnce : DynObjWatcher → Type 0
  ReadyOnce w = w.ready_sent ≡ (if w.is_ready then 1 else 0)

  arrival-InStep :
      (w : DynObjWatcher) (ts ts' : ℤ) (evt : Option (Event DynamicObject))
      → InStep w.store ts
      → ReadyOnce w
      → ts <ℤ ts'
      → NamesRecoverable evt
      → InStep (handle_arrival w (ts', evt)).store ts' × ReadyOnce (handle_arrival w (ts', evt))
  unfolding handle_arrival
  arrival-InStep w ts ts' none inv once later r = (
    record { replays = inv.replays; sorted = by w.store ts ts' inv later; names = inv.names },
    once,
  )
  arrival-InStep w ts ts' (some (applied obj)) inv once later r =
      (create-InStep w.store ts ts' inv later obj r, once)
  arrival-InStep w ts ts' (some (deleted obj)) inv once later r =
      (delete-InStep w.store ts ts' inv later obj, once)
  arrival-InStep w ts ts' (some (restarted objs)) inv once later r =
      ground (arith, refresh-InStep w.store ts ts' inv later objs r)

  start-InStep :
      (arrivals : List Arrival) (w : DynObjWatcher) (ts : ℤ)
      → InStep w.store ts
      → ReadyOnce w
      → Later ts arrivals
      → Replays (start w arrivals).store
        × IsSorted (start w arrivals).store.events
        × ReadyOnce (start w arrivals)
  unfolding start
  start-InStep [] w ts inv once later = (inv.replays, inv.sorted.0, once)
  start-InStep ((ts', evt) ∷ arrivals) w ts inv once (l, r, rest) =
      let (inv', once') = arrival-InStep w ts ts' evt inv once l r in
      start-InStep arrivals (handle_arrival w (ts', evt)) ts' inv' once' rest

  -- A watcher that starts with an empty store records, over any stream of events that come at
  -- different times, a trace with strictly growing timestamps, whose replay leaves live exactly the
  -- objects of the index. It sends one message that it is ready if it is, and none otherwise. The
  -- applied and listed objects have names that can be taken apart again.
  pub start-Replays :
      (config : TracerConfig) (ts : ℤ) (arrivals : List Arrival)
      → Later ts arrivals
      → let w = start (fresh_watcher config) arrivals in
        Replays w.store × IsSorted w.store.events × ReadyOnce w
  unfolding TraceStore.new Map.get live_from
  start-Replays config ts arrivals later =
      start-InStep arrivals (fresh_watcher config) ts
        (record { replays = λ k. refl; sorted = (tt, tt); names = tt }) refl later
