-- ===== src/Tests/Store.antt =====
-- Runs of the models of sk-store.
use simkube.Common.{
  ◌≡◌, ◌⊎◌, refl, true, false, none, some, List, [], ◌∷◌, String, Outcome, ok, arith, All, ◌==◌,
  string_eq, nat_eq, if◌then◌else◌,
}
use simkube.Common.Int.{ℤ, pos}
use simkube.Common.Text.{has_char}
use simkube.Common.Map
use simkube.Common.Map.{Map}
use simkube.Core.Kube.{DynamicObject}
use simkube.Core.Util.{namespaced_name}
use simkube.Core.Util.Names.{namespaced_name-build_deletable}
use simkube.Core.Lifecycle.{PodLifecycleData, running, finished, is_finished, new_for}
use simkube.Core.Lifecycle.Order.{Advances, stored}
use simkube.Core.Owners.{lookup}
use simkube.Store.Config.{default_config}
use simkube.Store.Event.{TraceEvent, filter_event, obj_matches_filter, keep_objs}
use simkube.Store.Event.Filter.{Kept}
use simkube.Store.PodOwnersMap.{
  PodLifecyclesMap, PodOwnersMap, default_owners, new_from_parts, has_pod, store_new_pod_lifecycle,
  update_pod_lifecycle, filter_owners,
}
use simkube.Store.PodOwnersMap.Refines.{pod_data, IsIndexed, store-IsIndexed, pod_data-update}
use simkube.Store.TraceStore
use simkube.Store.TraceStore.{TraceStore, name_of, create_or_update_obj, update_all_objs}
use simkube.Store.TraceStore.Replay.{
  Replays, is_live, live_from, named, deleted_at, create_after_delete,
}
use simkube.Store.TraceStore.Sorted.{IsSorted}
use simkube.Store.TraceStore.Refresh.{Recoverable, update_all_objs-Replays}
use simkube.Store.Watchers.DynObj.{deleted, restarted, Arrival, start, fresh_watcher}
use simkube.Store.Watchers.Stream.{ReadyOnce, start-Replays}
use simkube.Store.Watchers.PodWatcher.{
  PodWatcher, Surroundings, handle_pod_applied, handle_pod_event, delete_old,
}
use simkube.Store.Watchers.PodWatcher.Owned.{NoneEmpty, handle_pod_applied-Advances}
use simkube.Store.Watchers.PodWatcher.Restart.{delete_old-untracked}
use simkube.Store.Watchers.PodWatcher.Stored.{handle_pod_event-deleted}
use simkube.Store.Export.{
  Exported, collect_events, collect_loop, collect_event, apply_objs, delete_objs, export, import,
  first_ts,
}
use simkube.Store.Export.Window.{upto, Untouched}
use simkube.Store.Export.Import.{import-export}
use simkube.Store.Iterator.{drain, iter, paired, drain-iter}
use simkube.Fixtures.{
  test_naming, test_hasher, test_encoder, test_codec, test_object, no_filters, named_meta, test_pod,
  empty_server, empty_cache,
}

abbrev a : DynamicObject
a = test_object "a"

a-Recoverable : Recoverable (name_of a)
unfolding has_char
a-Recoverable = namespaced_name-build_deletable (named_meta "default" "a") "default" refl refl

abbrev arrivals : List Arrival
arrivals = (pos 1, some (restarted (a ∷ []))) ∷ (pos 2, none) ∷ (pos 3, some (deleted a)) ∷ []

start-Replays_example :
    let w = start (fresh_watcher default_config) arrivals in
    Replays w.store × IsSorted w.store.events × ReadyOnce w
start-Replays_example =
    start-Replays default_config (pos 0) arrivals
      (omega arith, (a-Recoverable, tt), (omega arith, tt, (omega arith, tt, tt)))

abbrev event_at : ℤ → List DynamicObject → List DynamicObject → TraceEvent
event_at ts applied_objs deleted_objs = record {
  ts = ts;
  applied_objs = applied_objs;
  deleted_objs = deleted_objs;
}

abbrev two_events : List TraceEvent
two_events = event_at (pos 1) (a ∷ []) [] ∷ event_at (pos 4) [] (a ∷ []) ∷ []

abbrev recorded : TraceStore
recorded = record {
  config = default_config;
  events = two_events;
  pod_owners = default_owners;
  index = [];
}

two_events-IsSorted : IsSorted two_events
two_events-IsSorted = (omega arith, tt)

a-Kept : Kept no_filters a
unfolding obj_matches_filter
a-Kept = refl

two_events-Untouched : All (Untouched no_filters) two_events
two_events-Untouched = (((a-Kept, tt), tt), ((tt, (a-Kept, tt)), tt))

abbrev exported_or : Outcome Exported → Exported
exported_or (ok x) = x
exported_or _ = record { config = default_config; events = []; index = []; lifecycle_data = [] }

abbrev exported_bytes : Exported
unfolding export
exported_bytes = exported_or (export recorded (pos 2) (pos 9) no_filters)

exports : export recorded (pos 2) (pos 9) no_filters ≡ ok exported_bytes
unfolding exported_bytes export collect_events collect_loop collect_event apply_objs delete_objs
    filter_event keep_objs obj_matches_filter
exports = refl

import-export_example :
    (t : TraceStore) × (import exported_bytes none (pos 99) ≡ ok t)
    × (t.config ≡ default_config)
    × (first_ts t.events (pos 99) ≡ pos 2)
    × (t.pod_owners ≡ new_from_parts (filter_owners default_owners (pos 2) (pos 9) t.index) [])
    × ((k : String) → is_live t.events k ≡ is_live (upto (pos 9) two_events) k)
import-export_example =
    import-export recorded (pos 2) (pos 9) (pos 99) no_filters exported_bytes two_events-IsSorted
      two_events-Untouched exports

nothing_deleted : (k : String) → deleted_at [] (pos 5) k ≡ false
unfolding deleted_at
nothing_deleted k = refl

nothing_live : Replays (TraceStore.new default_config)
unfolding TraceStore.new live_from Map.get
nothing_live k = refl

update_all_objs-Replays_example :
    (Map.contains_key
        (update_all_objs (record recorded { events = [] }) (a ∷ []) (pos 5)).index
        "default/a"
      ≡ named "default/a" (a ∷ []))
    × (is_live
          (update_all_objs (record recorded { events = [] }) (a ∷ []) (pos 5)).events
          "default/a"
        ≡ named "default/a" (a ∷ []))
unfolding TraceStore.new
update_all_objs-Replays_example =
    update_all_objs-Replays (record recorded { events = [] }) (a ∷ []) (pos 5) nothing_live
      nothing_deleted tt "default/a"

a_absent : Map.get recorded.index (name_of a) ≡ none
unfolding Map.get
a_absent = refl

a_deleted : deleted_at two_events (pos 4) (name_of a) ≡ true
unfolding deleted_at namespaced_name
a_deleted = refl

create_after_delete_example :
    (Map.contains_key (create_or_update_obj recorded a (pos 4) none).index (name_of a) ≡ true)
    × (is_live (create_or_update_obj recorded a (pos 4) none).events (name_of a) ≡ false)
create_after_delete_example = create_after_delete recorded a (pos 4) a_absent a_deleted

drain-iter_example : drain 3 (iter two_events) ≡ paired two_events
drain-iter_example = drain-iter two_events 3 (omega arith)

no_pods-IsIndexed : IsIndexed default_owners
unfolding Map.get
no_pods-IsIndexed = record {
  placed = λ ns owner hash idx e. absurd (ground arith);
  apart = λ ns ns' place e f. absurd (ground arith);
}

no_pod : Map.get default_owners.index "default/pod-1" ≡ none
unfolding Map.get
no_pod = refl

abbrev pod_1 : String
pod_1 = "default/pod-1"

-- One pod of the owner "default/dep", which runs since 5.
abbrev one_pod : PodOwnersMap
unfolding store_new_pod_lifecycle
one_pod = store_new_pod_lifecycle default_owners "default/pod-1" "default/dep" 3 (running (pos 5))

one_pod-IsIndexed : IsIndexed one_pod
unfolding one_pod
one_pod-IsIndexed =
    store-IsIndexed default_owners no_pods-IsIndexed "default/pod-1" "default/dep" 3
      (running (pos 5)) no_pod

has_one : has_pod one_pod "default/pod-1" ≡ true
unfolding one_pod store_new_pod_lifecycle has_pod Map.get Map.insert
has_one = refl

pod_data-update_example :
    (p' : PodOwnersMap) × (update_pod_lifecycle one_pod "default/pod-1" (finished (pos 5) (pos 8))
      ≡ ok p')
    × IsIndexed p'
    × ((ns : String)
        → pod_data p' ns ≡ (
            if "default/pod-1" == ns then some (finished (pos 5) (pos 8)) else pod_data one_pod ns))
pod_data-update_example =
    pod_data-update one_pod "default/pod-1" (finished (pos 5) (pos 8)) one_pod-IsIndexed has_one

abbrev owner_map : Map String PodLifecyclesMap
owner_map = ("default/dep", (3, running (pos 5) ∷ []) ∷ []) ∷ []

abbrev env : Surroundings
env = record { server = empty_server; depth = 4; now = pos 9 }

-- A watcher that tracks this pod, with no owners, in a store that has it.
abbrev watching : PodWatcher
watching = record {
  owned_pods = ("default/pod-1", running (pos 5)) ∷ [];
  owners_cache = record empty_cache { owners = ("default/pod-1", []) ∷ [] };
  store = record recorded { pod_owners = one_pod };
  is_ready = true;
  ready_sent = 1;
}

tracked : Map.get watching.owned_pods (namespaced_name test_pod.metadata) ≡ some (running (pos 5))
unfolding Map.get namespaced_name
tracked = refl

cached : lookup watching.owners_cache (namespaced_name test_pod.metadata) ≡ some []
unfolding lookup Map.get namespaced_name
cached = refl

has_tracked : has_pod watching.store.pod_owners (namespaced_name test_pod.metadata) ≡ true
unfolding one_pod store_new_pod_lifecycle has_pod Map.get Map.insert namespaced_name
has_tracked = refl

handle_pod_event-deleted_example :
    let ns = namespaced_name test_pod.metadata in
    (w' : PodWatcher) × (l : PodLifecycleData) × (handle_pod_event env watching (deleted test_pod)
      ≡ ok w')
    × (is_finished l ≡ true)
    × ((k : String)
        → Map.get w'.owned_pods k ≡ (if ns == k then none else Map.get watching.owned_pods k))
    × IsIndexed w'.store.pod_owners
    × ((k : String)
        → pod_data w'.store.pod_owners k ≡ (if ns == k then some l else pod_data one_pod k))
handle_pod_event-deleted_example =
    handle_pod_event-deleted env watching test_pod (pos 5) [] tracked cached has_tracked
      one_pod-IsIndexed

running-nonempty : NoneEmpty watching.owned_pods
running-nonempty = (λ e. absurd (ground arith), tt)

delete_old-untracked_example :
    (w' : PodWatcher) × (delete_old env watching watching.owned_pods ≡ ok w')
    × ((k : String)
        → Map.get w'.owned_pods k ≡ (
            if Map.contains_key watching.owned_pods k then none else Map.get watching.owned_pods k))
delete_old-untracked_example =
    delete_old-untracked env watching watching.owned_pods running-nonempty

handle_pod_applied-Advances_example :
    let was = Map.get watching.owned_pods "default/pod-1" in
    let is =
      Map.get
        (handle_pod_applied env watching "default/pod-1" test_pod).1.owned_pods
        "default/pod-1" in
    (is ≡ was)
    ⊎ ((pod_1 ≡ pod_1) × (new_for test_pod ≡ ok (stored is)) × Advances (stored was) (stored is))
handle_pod_applied-Advances_example =
    handle_pod_applied-Advances env watching "default/pod-1" test_pod "default/pod-1"
