-- ===== src/Store/Watchers/DynObj.antt =====
-- sk-store/src/watchers/dyn_obj_watcher.rs: objects of the tracked kinds.
use simkube.Common.{
  ℕ, ◌+◌, Bool, true, false, Option, none, some, List, [], ◌∷◌, string_eq, nat_eq, if◌then◌else◌,
}
use simkube.Common.Int.{ℤ}
use simkube.Core.Hash.{Hasher}
use simkube.Core.Kube.{DynamicObject, Naming}
use simkube.Store.Config.{TracerConfig}
use simkube.Store.TraceStore
use simkube.Store.TraceStore.{
  TraceStore, name_of, create_or_update_obj, delete_obj, update_all_objs,
}

-- `kube::runtime::watcher::Event`.
pub data Event (A : Type 0) : Type 0 where
  applied : A → Event A
  deleted : A → Event A
  restarted : List A → Event A

-- `ready_sent` counts the messages on the `ready_tx` channel; a failure to send is only logged.
pub record DynObjWatcher : Type 0 where
  pub store : TraceStore
  pub is_ready : Bool
  pub ready_sent : ℕ

abbrev mark_ready : DynObjWatcher → DynObjWatcher
mark_ready w = if w.is_ready then w else record w { is_ready = true; ready_sent = w.ready_sent + 1 }

-- A result of the stream with the time at which it came; an error is logged.
abbrev pub Arrival : Type 0
Arrival = ℤ × Option (Event DynamicObject)

module _ ⦃h : Hasher⦄ ⦃n : Naming⦄ where
  unfoldable pub handle_obj_event : DynObjWatcher → Event DynamicObject → ℤ → DynObjWatcher
  handle_obj_event w (applied obj) ts = record w {
    store = create_or_update_obj w.store obj ts none;
  }
  handle_obj_event w (deleted obj) ts = record w { store = delete_obj w.store obj ts }
  handle_obj_event w (restarted objs) ts =
      mark_ready (record w { store = update_all_objs w.store objs ts })

  unfoldable pub handle_arrival : DynObjWatcher → Arrival → DynObjWatcher
  unfolding handle_obj_event
  handle_arrival w (ts, none) = w
  handle_arrival w (ts, some evt) = handle_obj_event w evt ts

  unfoldable pub start : DynObjWatcher → List Arrival → DynObjWatcher
  unfolding handle_arrival
  start w [] = w
  start w (arrival ∷ arrivals) = start (handle_arrival w arrival) arrivals

abbrev pub fresh_watcher : TracerConfig → DynObjWatcher
unfolding TraceStore.new
fresh_watcher config = record { store = TraceStore.new config; is_ready = false; ready_sent = 0 }
