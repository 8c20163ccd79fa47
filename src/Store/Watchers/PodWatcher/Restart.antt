-- ===== src/Store/Watchers/PodWatcher/Restart.antt =====
-- The pod watcher over whole events: what it tracks, and that pods which went away are no panic.
use simkube.Common.{
  ◌≡◌, ◌≢◌, refl, ap, Option, none, some, List, [], ◌∷◌, String, Outcome, ok, err, panic, arith,
  string_eq, if◌then◌else◌,
}
use mathlib.Core.Path.{subst}
use simkube.Common.Map
use simkube.Common.Map.{Map, get-remove}
use simkube.Core.Hash.{Hasher}
use simkube.Core.Kube.{Pod, OwnerReference, Naming}
use simkube.Core.Util.{namespaced_name}
use simkube.Core.Lifecycle.{PodLifecycleData, empty, running, finished, is_finished, start_ts}
use simkube.Core.Owners.{lookup}
use simkube.Store.PodOwnersMap.{PodOwnersMap, update_pod_lifecycle}
use simkube.Store.TraceStore.{TraceStore, SpecEncoder, record_pod_lifecycle}
use simkube.Store.Watchers.DynObj.{Event, applied, deleted, restarted}
use simkube.Store.Watchers.PodWatcher.{
  PodWatcher, Surroundings, Handled, owner_refs, record_in, store_pod_lifecycle_data,
  handle_pod_applied, final_lifecycle, handle_pod_deleted, swallow, restart_pods, delete_old,
  mark_ready, handle_pod_event, start,
}
use simkube.Store.Watchers.PodWatcher.Owned.{
  NoneEmpty, insert-NoneEmpty, remove-NoneEmpty, get-NoneEmpty, applied-NoneEmpty, deleted-owned,
}

swallow-state : (r : Handled) (w : PodWatcher) → swallow r ≡ ok w → r.1 ≡ w
swallow-state (ok u, w') w e = ground arith
swallow-state (err x, w') w e = ground arith
swallow-state (panic, w') w e = absurd (ground arith)

update-no_panic :
    (p : PodOwnersMap) (ns : String) (d : PodLifecycleData) → update_pod_lifecycle p ns d ≢ panic
unfolding update_pod_lifecycle
update-no_panic p ns d e = ground arith

module _ ⦃h : Hasher⦄ ⦃n : Naming⦄ ⦃e : SpecEncoder⦄ where
  record-no_panic :
      (s : TraceStore) (ns : String) (owners : List OwnerReference) (l : PodLifecycleData)
      → record_pod_lifecycle s ns none owners l ≢ panic
  unfolding record_pod_lifecycle
  record-no_panic s ns owners l x = ground (arith, update-no_panic s.pod_owners ns l)

  store-no_panic :
      (env : Surroundings) (w : PodWatcher) (ns : String) (l : PodLifecycleData)
      → (store_pod_lifecycle_data env w ns none l).0 ≢ panic
  unfolding store_pod_lifecycle_data record_in owner_refs
  store-no_panic env w ns l = go (lookup w.owners_cache ns) refl
    where
      go :
          (o : Option (List OwnerReference))
          → lookup w.owners_cache ns ≡ o
          → (store_pod_lifecycle_data env w ns none l).0 ≢ panic
      go none f x = ground arith
      go (some owners) f x = ground (arith, record-no_panic w.store ns owners l)

  deleted-no_panic :
      (env : Surroundings) (w : PodWatcher) (ns : String) (l : PodLifecycleData)
      → l ≢ empty
      → (handle_pod_deleted env w ns none l).0 ≢ panic
  unfolding handle_pod_deleted final_lifecycle is_finished start_ts
  deleted-no_panic env w ns empty ne x = ne refl
  deleted-no_panic env w ns (running s) ne x =
      store-no_panic env (record w { owned_pods = Map.remove w.owned_pods ns }) ns
        (finished s env.now) x
  deleted-no_panic env w ns (finished s f) ne x = ground arith

  swallowed : (r : Handled) → r.0 ≢ panic → swallow r ≡ ok r.1
  swallowed (ok u, w) ne = refl
  swallowed (err x, w) ne = refl
  swallowed (panic, w) ne = absurd (ne refl)

  -- Pods that went away while the stream was interrupted are handled without a panic, and are
  -- tracked no longer; the lifecycles that were tracked of them are not empty.
  pub delete_old-untracked :
      (env : Surroundings) (w : PodWatcher) (old : Map String PodLifecycleData)
      → NoneEmpty old
      → (w' : PodWatcher) × (delete_old env w old ≡ ok w')
        × ((k : String)
            → Map.get w'.owned_pods k
              ≡ (if Map.contains_key old k then none else Map.get w.owned_pods k))
  unfolding delete_old Map.get
  delete_old-untracked env w [] a = (w, refl, λ k. refl)
  delete_old-untracked env w ((ns, l) ∷ old) (a, rest) =
      let w1 = (handle_pod_deleted env w ns none l).1 in
      let done = swallowed (handle_pod_deleted env w ns none l) (deleted-no_panic env w ns l a) in
      let (w', runs, gone) = delete_old-untracked env w1 old rest in
      (
        w',
        rw done runs,
        λ k. ground (
          arith,
          gone k,
          ap (λ m. Map.get m k) (deleted-owned env w ns none l),
          get-remove w.owned_pods ns k,
        ),
      )

  abbrev Both : PodWatcher → Map String PodLifecycleData → Type 0
  Both w old = NoneEmpty w.owned_pods × NoneEmpty old

  back-NoneEmpty :
      (w : PodWatcher) (old : Map String PodLifecycleData) (k : String)
      (o : Option PodLifecycleData)
      → Map.get old k ≡ o
      → Both w old
      → NoneEmpty
          (elim o as (λ _. PodWatcher) [
            | some l ↦ record w { owned_pods = Map.insert w.owned_pods k l }
            | none ↦ w
          ]).owned_pods
  back-NoneEmpty w old k none f (a, b) = a
  back-NoneEmpty w old k (some l) f (a, b) =
      insert-NoneEmpty w.owned_pods k l a (get-NoneEmpty old k l b f)

  restart-NoneEmpty :
      (env : Surroundings) (pods : List Pod) (w : PodWatcher) (old : Map String PodLifecycleData)
      (w' : PodWatcher) (old' : Map String PodLifecycleData)
      → restart_pods env w old pods ≡ ok (w', old')
      → Both w old
      → Both w' old'
  unfolding restart_pods
  restart-NoneEmpty env [] w old w' old' f (a, b) =
      let same : w ≡ w' = ground arith in
      let same_old : old ≡ old' = ground arith in
      (subst (λ w. NoneEmpty w.owned_pods) same a, subst NoneEmpty same_old b)
  restart-NoneEmpty env (pod ∷ pods) w old w' old' f (a, b) =
      go (restart-NoneEmpty env pods) (swallow (handle_pod_applied env back ns pod)) refl
    where
      ns : String
      ns = namespaced_name pod.metadata

      back : PodWatcher
      back = elim (Map.get old (namespaced_name pod.metadata)) as (λ _. PodWatcher) [
        | some l ↦ record w {
          owned_pods = Map.insert w.owned_pods (namespaced_name pod.metadata) l;
        }
        | none ↦ w
      ]

      go :
          ((v : PodWatcher) (o : Map String PodLifecycleData) (v' : PodWatcher)
              (o' : Map String PodLifecycleData)
            → restart_pods env v o pods ≡ ok (v', o')
            → Both v o
            → Both v' o')
          → (r : Outcome PodWatcher) → swallow (handle_pod_applied env back ns pod) ≡ r
          → Both w' old'
      go ih (ok v) g =
          let same = swallow-state (handle_pod_applied env back ns pod) v g in
          ih v (Map.remove old ns) w' old' (rw g at f) (
            subst (λ w. NoneEmpty w.owned_pods) same
                (applied-NoneEmpty env back ns pod
                  (back-NoneEmpty w old ns (Map.get old ns) refl (a, b))),
            remove-NoneEmpty old ns b,
          )
      go ih (err x) g = absurd (ground arith)
      go ih panic g = absurd (ground arith)

  delete_old-NoneEmpty :
      (env : Surroundings) (old : Map String PodLifecycleData) (w w' : PodWatcher)
      → delete_old env w old ≡ ok w'
      → Both w old
      → NoneEmpty w'.owned_pods
  unfolding delete_old
  delete_old-NoneEmpty env [] w w' f (a, b) =
      let same : w ≡ w' = ground arith in subst (λ w. NoneEmpty w.owned_pods) same a
  delete_old-NoneEmpty env ((ns, l) ∷ old) w w' f (a, b) =
      let runs = swallowed (handle_pod_deleted env w ns none l) (deleted-no_panic env w ns l b.0) in
      delete_old-NoneEmpty env old (handle_pod_deleted env w ns none l).1 w' (rw runs at f)
        (rw (deleted-owned env w ns none l) (remove-NoneEmpty w.owned_pods ns a), b.1)

  mark_ready-owned : (w : PodWatcher) → (mark_ready w).owned_pods ≡ w.owned_pods
  mark_ready-owned w = ground arith

  event-NoneEmpty :
      (env : Surroundings) (w : PodWatcher) (evt : Event Pod) (w' : PodWatcher)
      → handle_pod_event env w evt ≡ ok w'
      → NoneEmpty w.owned_pods
      → NoneEmpty w'.owned_pods
  unfolding handle_pod_event
  event-NoneEmpty env w (applied pod) w' f a =
      let same = swallow-state (handle_pod_applied env w (namespaced_name pod.metadata) pod) w' f in
      subst (λ w. NoneEmpty w.owned_pods) same
        (applied-NoneEmpty env w (namespaced_name pod.metadata) pod a)
  event-NoneEmpty env w (deleted pod) w' f a =
      go (Map.get w.owned_pods (namespaced_name pod.metadata)) refl
    where
      ns : String
      ns = namespaced_name pod.metadata

      go :
          (o : Option PodLifecycleData)
          → Map.get w.owned_pods (namespaced_name pod.metadata) ≡ o
          → NoneEmpty w'.owned_pods
      go none g = let same : w ≡ w' = ground arith in subst (λ w. NoneEmpty w.owned_pods) same a
      go (some l) g =
          let same =
            swallow-state (handle_pod_deleted env w ns (some pod) l) w'
              (rw (handle_pod_event, g) at f) in
          subst (λ w. NoneEmpty w.owned_pods) same
            (rw (deleted-owned env w ns (some pod) l) (remove-NoneEmpty w.owned_pods ns a))
  event-NoneEmpty env w (restarted pods) w' f a =
      go (restart_pods env (record w { owned_pods = [] }) w.owned_pods pods) refl
    where
      last :
          (w1 : PodWatcher) (old : Map String PodLifecycleData)
          → restart_pods env (record w { owned_pods = [] }) w.owned_pods pods ≡ ok (w1, old)
          → (r : Outcome PodWatcher) → delete_old env w1 old ≡ r
          → NoneEmpty w'.owned_pods
      last w1 old g (ok w2) k =
          let both =
            restart-NoneEmpty env pods (record w { owned_pods = [] }) w.owned_pods w1 old g
              (tt, a) in
          let same : mark_ready w2 ≡ w' = ground arith in
          subst (λ w. NoneEmpty w.owned_pods) same
            (rw (mark_ready-owned w2) (delete_old-NoneEmpty env old w1 w2 k both))
      last w1 old g (err x) k = absurd (ground arith)
      last w1 old g panic k = absurd (ground arith)

      go :
          (r : Outcome (PodWatcher × Map String PodLifecycleData))
          → restart_pods env (record w { owned_pods = [] }) w.owned_pods pods ≡ r
          → NoneEmpty w'.owned_pods
      go (ok (w1, old)) g = last w1 old g (delete_old env w1 old) refl
      go (err x) g = absurd (ground arith)
      go panic g = absurd (ground arith)

  -- Over any stream of events the watcher tracks no lifecycle that is empty, if it tracks none at
  -- first and no event is a panic.
  pub start-NoneEmpty :
      (arrivals : List (Surroundings × Option (Event Pod))) (w w' : PodWatcher)
      → NoneEmpty w.owned_pods
      → start w arrivals ≡ ok w'
      → NoneEmpty w'.owned_pods
  unfolding start
  start-NoneEmpty [] w w' a f =
      let same : w ≡ w' = ground arith in subst (λ w. NoneEmpty w.owned_pods) same a
  start-NoneEmpty ((env, none) ∷ arrivals) w w' a f = start-NoneEmpty arrivals w w' a f
  start-NoneEmpty ((env, some evt) ∷ arrivals) w w' a f =
      go (start-NoneEmpty arrivals) (handle_pod_event env w evt) refl
    where
      go :
          ((v v' : PodWatcher)
            → NoneEmpty v.owned_pods
            → start v arrivals ≡ ok v'
            → NoneEmpty v'.owned_pods)
          → (r : Outcome PodWatcher) → handle_pod_event env w evt ≡ r
          → NoneEmpty w'.owned_pods
      go ih (ok v) g = ih v w' (event-NoneEmpty env w evt v g a) (rw g at f)
      go ih (err x) g = absurd (ground arith)
      go ih panic g = absurd (ground arith)
