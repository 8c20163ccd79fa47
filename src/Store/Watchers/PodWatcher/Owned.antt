-- ===== src/Store/Watchers/PodWatcher/Owned.antt =====
-- The lifecycles that the pod watcher tracks.
use simkube.Common.{
  ◌≡◌, ◌≢◌, ◌⊎◌, refl, ap, ◌∙◌, inl, inr, true, Option, some, [], ◌∷◌, String, Outcome, ok, err,
  panic, arith, ◌==◌, string_eq, All, Bool-cases,
}
use text.Mathlib.TextEquality.{eq_iff}
use simkube.Common.Map
use simkube.Common.Map.{Map, get-insert, get-remove}
use simkube.Core.Hash.{Hasher}
use simkube.Core.Kube.{Pod, Naming}
use simkube.Core.Lifecycle.{PodLifecycleData, empty, running, finished, new_for, gt_option}
use simkube.Core.Lifecycle.Order.{Advances, stored, gt_option→Advances}
use simkube.Store.TraceStore.{SpecEncoder}
use simkube.Store.Watchers.PodWatcher.{
  PodWatcher, Surroundings, record_in, store_pod_lifecycle_data, handle_pod_applied,
  final_lifecycle, handle_pod_deleted,
}

module _ ⦃h : Hasher⦄ ⦃n : Naming⦄ ⦃e : SpecEncoder⦄ where
  -- Storing a lifecycle leaves the tracked pods alone.
  pub store-owned :
      (env : Surroundings) (w : PodWatcher) (ns : String) (pod : Option Pod) (l : PodLifecycleData)
      → (store_pod_lifecycle_data env w ns pod l).1.owned_pods ≡ w.owned_pods
  unfolding store_pod_lifecycle_data record_in
  store-owned env w ns pod l = ground arith

  -- Either nothing was tracked, or a lifecycle that follows the tracked one.
  applied-owned :
      (env : Surroundings) (w : PodWatcher) (ns : String) (pod : Pod)
      → ((handle_pod_applied env w ns pod).1.owned_pods ≡ w.owned_pods)
        ⊎ ((l : PodLifecycleData) × (new_for pod ≡ ok l)
            × (gt_option l (Map.get w.owned_pods ns) ≡ true)
            × ((handle_pod_applied env w ns pod).1.owned_pods ≡ Map.insert w.owned_pods ns l))
  unfolding handle_pod_applied
  applied-owned env w ns pod = go (new_for pod) refl
    where
      Goal : Type 0
      Goal =
          ((handle_pod_applied env w ns pod).1.owned_pods ≡ w.owned_pods)
          ⊎ ((l : PodLifecycleData) × (new_for pod ≡ ok l)
              × (gt_option l (Map.get w.owned_pods ns) ≡ true)
              × ((handle_pod_applied env w ns pod).1.owned_pods ≡ Map.insert w.owned_pods ns l))

      go : (r : Outcome PodLifecycleData) → new_for pod ≡ r → Goal
      go (ok l) f = elim (Bool-cases (gt_option l (Map.get w.owned_pods ns))) [
        | inl g ↦ inr (l, f, g, rw (handle_pod_applied, f, g) (store-owned env _ ns (some pod) l))
        | inr g ↦ inl (rw (handle_pod_applied, f, g) refl)
      ]
      go (err x) f = inl (rw (handle_pod_applied, f) refl)
      go panic f = inl (rw (handle_pod_applied, f) refl)

  -- A pod that is applied changes nothing of another pod. Of itself it changes the tracked
  -- lifecycle only to that of the pod, and only if this follows in the life of the pod, whether
  -- storing it succeeds or not.
  pub handle_pod_applied-Advances :
      (env : Surroundings) (w : PodWatcher) (ns : String) (pod : Pod) (k : String)
      → let was = Map.get w.owned_pods k in
        let is = Map.get (handle_pod_applied env w ns pod).1.owned_pods k in
        (is ≡ was) ⊎ ((k ≡ ns) × (new_for pod ≡ ok (stored is)) × Advances (stored was) (stored is))
  handle_pod_applied-Advances env w ns pod k = elim (applied-owned env w ns pod) [
    | inl same ↦ inl (ap (λ m. Map.get m k) same)
    | inr (l, f, g, owned) ↦
        let is_get = ap (λ m. Map.get m k) owned ∙ get-insert w.owned_pods ns k l in
        elim (Bool-cases (ns == k)) [
          | inl at ↦
              let k_ns : k ≡ ns = ground (arith, eq_iff ns k) in
              let now : Map.get (handle_pod_applied env w ns pod).1.owned_pods k ≡ some l =
                ground (arith, is_get) in
              inr
                (k_ns, rw now f, rw (now, k_ns) (gt_option→Advances l (Map.get w.owned_pods ns) g))
          | inr off ↦ inl (ground (arith, is_get))
        ]
  ]

  -- The watcher tracks no lifecycle that is empty.
  abbrev pub NoneEmpty : Map String PodLifecycleData → Type 0
  NoneEmpty m = All (λ e. e.1 ≢ empty) m

  pub insert-NoneEmpty :
      (m : Map String PodLifecycleData) (k : String) (l : PodLifecycleData)
      → NoneEmpty m
      → l ≢ empty
      → NoneEmpty (Map.insert m k l)
  unfolding Map.insert
  insert-NoneEmpty [] k l a ne = (ne, tt)
  insert-NoneEmpty ((j, d) ∷ m) k l (a, rest) ne = elim (Bool-cases (j == k)) [
    | inl e ↦ rw e (ne, rest)
    | inr e ↦ rw e (a, insert-NoneEmpty m k l rest ne)
  ]

  pub remove-NoneEmpty :
      (m : Map String PodLifecycleData) (k : String) → NoneEmpty m → NoneEmpty (Map.remove m k)
  unfolding Map.remove
  remove-NoneEmpty [] k a = tt
  remove-NoneEmpty ((j, d) ∷ m) k (a, rest) = elim (Bool-cases (j == k)) [
    | inl e ↦ rw e (remove-NoneEmpty m k rest)
    | inr e ↦ rw e (a, remove-NoneEmpty m k rest)
  ]

  pub get-NoneEmpty :
      (m : Map String PodLifecycleData) (k : String) (l : PodLifecycleData)
      → NoneEmpty m
      → Map.get m k ≡ some l
      → l ≢ empty
  unfolding Map.get
  get-NoneEmpty [] k l a e = absurd (ground arith)
  get-NoneEmpty ((j, d) ∷ m) k l (a, rest) e = elim (Bool-cases (j == k)) [
    | inl f ↦ λ x. a (ground arith)
    | inr f ↦ get-NoneEmpty m k l rest (ground arith)
  ]

  not-empty : (was l : PodLifecycleData) → Advances was l → l ≢ empty
  not-empty empty (running s) a x = ground arith
  not-empty empty (finished s f) a x = ground arith
  not-empty (running s) (finished s' f) a x = ground arith
  not-empty _ _ a x = absurd a

  pub applied-NoneEmpty :
      (env : Surroundings) (w : PodWatcher) (ns : String) (pod : Pod)
      → NoneEmpty w.owned_pods
      → NoneEmpty (handle_pod_applied env w ns pod).1.owned_pods
  applied-NoneEmpty env w ns pod a = elim (applied-owned env w ns pod) [
    | inl same ↦ rw same a
    | inr (l, f, g, owned) ↦
        rw owned (insert-NoneEmpty w.owned_pods ns l a (not-empty _ l (gt_option→Advances l _ g)))
  ]

  pub deleted-owned :
      (env : Surroundings) (w : PodWatcher) (ns : String) (pod : Option Pod) (l : PodLifecycleData)
      → (handle_pod_deleted env w ns pod l).1.owned_pods ≡ Map.remove w.owned_pods ns
  unfolding handle_pod_deleted
  deleted-owned env w ns pod l = go (final_lifecycle env pod l) refl
    where
      w' : PodWatcher
      w' = record w { owned_pods = Map.remove w.owned_pods ns }

      go :
          (r : Outcome PodLifecycleData)
          → final_lifecycle env pod l ≡ r
          → (handle_pod_deleted env w ns pod l).1.owned_pods ≡ Map.remove w.owned_pods ns
      go (ok d) f =
          ground
            (arith, store-owned env (record w { owned_pods = Map.remove w.owned_pods ns }) ns pod d)
      go (err x) f = ground arith
      go panic f = ground arith
