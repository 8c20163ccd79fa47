-- ===== src/Store/Watchers/PodWatcher.antt =====
-- sk-store/src/watchers/pod_watcher.rs: pods, and their lifecycles as they change.
pub mod Owned
pub mod Restart
pub mod Stored
use simkube.Common.{
  ℕ, ◌+◌, ◌≡◌, Bool, true, false, Option, none, some, List, [], ◌∷◌, String, Outcome, ok, err,
  panic, message, unwrap, ◌>>=◌, string_eq, if◌then◌else◌,
}
use simkube.Common.Int.{ℤ}
use simkube.Common.Map
use simkube.Common.Map.{Map}
use simkube.Core.Hash.{Hasher}
use simkube.Core.Kube.{Pod, OwnerReference, Naming}
use simkube.Core.Util.{namespaced_name}
use simkube.Core.Lifecycle.{
  PodLifecycleData, finished, is_finished, start_ts, new_for, guess_finished_lifecycle, gt_option,
}
use simkube.Core.Owners.{Server, OwnersCache, compute_owner_chain, lookup}
use simkube.Store.TraceStore.{TraceStore, SpecEncoder, record_pod_lifecycle}
use simkube.Store.Watchers.DynObj.{Event, applied, deleted, restarted}

-- The watcher has the store for itself here: the mutex around it serialises the two watchers.
pub record PodWatcher : Type 0 where
  pub owned_pods : Map String PodLifecycleData
  pub owners_cache : OwnersCache
  pub store : TraceStore
  pub is_ready : Bool
  pub ready_sent : ℕ

-- What is around while an event is handled: the server, a depth for chains of owners, the clock.
pub record Surroundings : Type 0 where
  pub server : Server
  pub depth : ℕ
  pub now : ℤ

-- A handler's result and the state that it leaves, which an error does not undo.
abbrev pub Handled : Type 0
Handled = Outcome (Unit {0}) × PodWatcher

-- An error is logged, and what was changed before it stays.
abbrev pub swallow : Handled → Outcome PodWatcher
swallow (ok u, w) = ok w
swallow (err x, w) = ok w
swallow (panic, w) = panic

abbrev mark_ready : PodWatcher → PodWatcher
mark_ready w = if w.is_ready then w else record w { is_ready = true; ready_sent = w.ready_sent + 1 }

module _ ⦃n : Naming⦄ where
  owner_refs :
      Surroundings → OwnersCache → String → Option Pod → Outcome (List OwnerReference) × OwnersCache
  owner_refs env c ns_name maybe_pod = elim (lookup c ns_name) [
    | some owners ↦ (ok owners, c)
    | none ↦ elim maybe_pod [
      | some pod ↦ compute_owner_chain env.depth env.server c pod.metadata
      | none ↦ (err (message "could not determine owner chain"), c)
    ]
  ]

module _ ⦃h : Hasher⦄ ⦃n : Naming⦄ ⦃e : SpecEncoder⦄ where
  record_in : PodWatcher → String → Option Pod → List OwnerReference → PodLifecycleData → Handled
  record_in w ns_name maybe_pod owners lifecycle =
      elim (record_pod_lifecycle w.store ns_name maybe_pod owners lifecycle) [
        | ok store ↦ (ok tt, record w { store = store })
        | err x ↦ (err x, w)
        | panic ↦ (panic, w)
      ]

  unfoldable pub store_pod_lifecycle_data :
      Surroundings → PodWatcher → String → Option Pod → PodLifecycleData → Handled
  unfolding owner_refs record_in
  store_pod_lifecycle_data env w ns_name maybe_pod lifecycle =
      let (owners, cache) = owner_refs env w.owners_cache ns_name maybe_pod in
      let w' = record w { owners_cache = cache } in
      elim owners [
        | ok owners ↦ record_in w' ns_name maybe_pod owners lifecycle
        | err x ↦ (err x, w')
        | panic ↦ (panic, w')
      ]

  unfoldable pub handle_pod_applied : Surroundings → PodWatcher → String → Pod → Handled
  handle_pod_applied env w ns_name pod = elim (new_for pod) [
    | ok l ↦
        if gt_option l (Map.get w.owned_pods ns_name)
        then store_pod_lifecycle_data env
            (record w { owned_pods = Map.insert w.owned_pods ns_name l }) ns_name (some pod) l
        else (ok tt, w)
    | err x ↦ (err x, w)
    | panic ↦ (panic, w)
  ]

  -- The lifecycle that a deleted pod ends with.
  final_lifecycle : Surroundings → Option Pod → PodLifecycleData → Outcome PodLifecycleData
  final_lifecycle env none current = do
    start ← unwrap (start_ts current)
    ok (finished start env.now)
  final_lifecycle env (some pod) current = guess_finished_lifecycle pod current env.now

  unfoldable pub handle_pod_deleted :
      Surroundings → PodWatcher → String → Option Pod → PodLifecycleData → Handled
  unfolding final_lifecycle
  handle_pod_deleted env w ns_name maybe_pod current =
      let w' = record w { owned_pods = Map.remove w.owned_pods ns_name } in
      let stored = elim (final_lifecycle env maybe_pod current) as (λ _. Handled) [
        | ok l ↦ store_pod_lifecycle_data env w' ns_name maybe_pod l
        | err x ↦ (err x, w')
        | panic ↦ (panic, w')
      ] in
      if is_finished current then (ok tt, w') else stored

  -- The first loop of a restart: a listed pod moves back from the old map.
  unfoldable pub restart_pods :
      Surroundings
      → PodWatcher
      → Map String PodLifecycleData
      → List Pod
      → Outcome (PodWatcher × Map String PodLifecycleData)
  restart_pods env w old [] = ok (w, old)
  restart_pods env w old (pod ∷ pods) =
      let ns_name = namespaced_name pod.metadata in
      let w' = elim (Map.get old ns_name) as (λ _. PodWatcher) [
        | some l ↦ record w { owned_pods = Map.insert w.owned_pods ns_name l }
        | none ↦ w
      ] in
      swallow (handle_pod_applied env w' ns_name pod) >>= λ w''.
      restart_pods env w'' (Map.remove old ns_name) pods

  -- The second loop: what is left in the old map was deleted.
  unfoldable pub delete_old :
      Surroundings → PodWatcher → Map String PodLifecycleData → Outcome PodWatcher
  delete_old env w [] = ok w
  delete_old env w ((ns_name, current) ∷ old) =
      swallow (handle_pod_deleted env w ns_name none current) >>= λ w'. delete_old env w' old

  unfoldable pub handle_pod_event : Surroundings → PodWatcher → Event Pod → Outcome PodWatcher
  handle_pod_event env w (applied pod) =
      swallow (handle_pod_applied env w (namespaced_name pod.metadata) pod)
  handle_pod_event env w (deleted pod) =
      elim (Map.get w.owned_pods (namespaced_name pod.metadata)) [
        | none ↦ ok w
        | some current ↦
            swallow (handle_pod_deleted env w (namespaced_name pod.metadata) (some pod) current)
      ]
  handle_pod_event env w (restarted pods) = do
    (w1, old) ← restart_pods env (record w { owned_pods = [] }) w.owned_pods pods
    w2 ← delete_old env w1 old
    ok (mark_ready w2)

  -- The loop over the stream; an error on the stream is logged.
  unfoldable pub start : PodWatcher → List (Surroundings × Option (Event Pod)) → Outcome PodWatcher
  start w [] = ok w
  start w ((env, none) ∷ arrivals) = start w arrivals
  start w ((env, some evt) ∷ arrivals) = handle_pod_event env w evt >>= λ w'. start w' arrivals
