-- ===== src/Store/Watchers/PodWatcher/Stored.antt =====
-- What reaches the store when a pod is deleted.
use simkube.Common.{
  ◌≡◌, refl, ap, ◌∙◌, true, Option, none, some, List, String, ok, ◌==◌, string_eq, if◌then◌else◌,
}
use simkube.Common.Int.{ℤ}
use simkube.Common.Map
use simkube.Common.Map.{Map, get-remove}
use simkube.Core.Hash.{Hasher}
use simkube.Core.Kube.{Pod, OwnerReference, Naming}
use simkube.Core.Util.{namespaced_name}
use simkube.Core.Lifecycle.{PodLifecycleData, running, is_finished, start_ts}
use simkube.Core.Lifecycle.Order.{guess-is_finished}
use simkube.Core.Owners.{OwnersCache, lookup}
use simkube.Store.PodOwnersMap.{PodOwnersMap, has_pod}
use simkube.Store.PodOwnersMap.Refines.{pod_data, IsIndexed, pod_data-update}
use simkube.Store.TraceStore.{SpecEncoder, record_pod_lifecycle}
use simkube.Store.Watchers.DynObj.{deleted}
use simkube.Store.Watchers.PodWatcher.{
  PodWatcher, Surroundings, owner_refs, record_in, store_pod_lifecycle_data, final_lifecycle,
  handle_pod_deleted, handle_pod_event,
}

module _ ⦃h : Hasher⦄ ⦃n : Naming⦄ ⦃e : SpecEncoder⦄ where
  -- The store has exactly one lifecycle changed.
  abbrev Changed : PodOwnersMap → PodOwnersMap → String → PodLifecycleData → Type 0
  Changed p p' ns l = (k : String) → pod_data p' k ≡ (if ns == k then some l else pod_data p k)

  cached-same :
      (env : Surroundings) (c : OwnersCache) (ns : String) (pod : Option Pod)
      (owners : List OwnerReference)
      → lookup c ns ≡ some owners
      → (owner_refs env c ns pod).1 ≡ c
  unfolding owner_refs
  cached-same env c ns pod owners cached = rw (owner_refs, cached) refl

  store-known :
      (env : Surroundings) (w : PodWatcher) (ns : String) (pod : Option Pod) (l : PodLifecycleData)
      (owners : List OwnerReference)
      → lookup w.owners_cache ns ≡ some owners
      → has_pod w.store.pod_owners ns ≡ true
      → IsIndexed w.store.pod_owners
      → (w' : PodWatcher) × (store_pod_lifecycle_data env w ns pod l ≡ (ok tt, w'))
        × (w'.owned_pods ≡ w.owned_pods)
        × IsIndexed w'.store.pod_owners
        × Changed w.store.pod_owners w'.store.pod_owners ns l
  unfolding store_pod_lifecycle_data owner_refs record_in record_pod_lifecycle
  store-known env w ns pod l owners cached has valid =
      let (p', done, valid', changed) = pod_data-update w.store.pod_owners ns l valid has in
      (
        record w { store = record w.store { pod_owners = p' } },
        rw
            (
              store_pod_lifecycle_data, owner_refs, cached, record_in, record_pod_lifecycle, has,
              done,
            )
            (ap
              (λ c.
                (ok tt, record w { owners_cache = c; store = record w.store { pod_owners = p' } }))
              (cached-same env w.owners_cache ns pod owners cached)),
        refl,
        valid',
        changed,
      )

  -- A deleted pod that is tracked as running, whose owners are cached and which the store has, is
  -- tracked no longer and has a finished lifecycle in the store. What is tracked and stored of other
  -- pods stays, and so does the soundness of the store's index.
  pub handle_pod_event-deleted :
      (env : Surroundings) (w : PodWatcher) (pod : Pod) (s : ℤ) (owners : List OwnerReference)
      → let ns = namespaced_name pod.metadata in
        Map.get w.owned_pods ns ≡ some (running s)
        → lookup w.owners_cache ns ≡ some owners
        → has_pod w.store.pod_owners ns ≡ true
        → IsIndexed w.store.pod_owners
        → (w' : PodWatcher) × (l : PodLifecycleData) × (handle_pod_event env w (deleted pod)
            ≡ ok w')
          × (is_finished l ≡ true)
          × ((k : String)
              → Map.get w'.owned_pods k ≡ (if ns == k then none else Map.get w.owned_pods k))
          × IsIndexed w'.store.pod_owners
          × Changed w.store.pod_owners w'.store.pod_owners ns l
  unfolding handle_pod_event handle_pod_deleted final_lifecycle is_finished start_ts
  handle_pod_event-deleted env w pod s owners tracked cached has valid =
      let ns = namespaced_name pod.metadata in
      let (l, guessed, fin) = guess-is_finished pod (running s) env.now s refl in
      let (w', done, owned, valid', changed) =
        store-known env (record w { owned_pods = Map.remove w.owned_pods ns }) ns (some pod) l
          owners cached has valid in
      (
        w',
        l,
        rw (handle_pod_event, tracked, handle_pod_deleted, guessed, done) refl,
        fin,
        λ k. ap (λ m. Map.get m k) owned ∙ get-remove w.owned_pods ns k,
        valid',
        changed,
      )
