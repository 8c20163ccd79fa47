-- ===== src/Core/Lifecycle/Order.antt =====
-- The order on lifecycle data (`partial_cmp`), by which the pod watcher accepts updates, and what
-- `guess_finished_lifecycle` makes of a deleted pod.
use Prim.Native.Nat.{Ordering}
use Prim.Native.Nat.Ordering.{lt, gt}
use simkube.Common.{◌≡◌, refl, ◌≢◌, ◌↔◌, true, Option, none, some, ok, arith}
use simkube.Common.Int.{ℤ, beq_ℤ_iff}
use simkube.Core.Kube.{Pod}
use simkube.Core.Lifecycle.{
  PodLifecycleData, empty, running, finished, is_finished, start_ts, partial_cmp, gt_option, is_gt,
  guess_finished_lifecycle, fallback_start, unwrap_lifecycle, new_for,
}

-- The transitions of a pod that keep what was recorded: its start, and then its end.
abbrev pub Advances : PodLifecycleData → PodLifecycleData → Type 0
Advances empty (running _) = Unit
Advances empty (finished _ _) = Unit
Advances (running s) (finished s' _) = s ≡ s'
Advances _ _ = ⊥

gt→Advances : (a b : PodLifecycleData) → partial_cmp b a ≡ some gt → Advances a b
unfolding partial_cmp
gt→Advances empty empty h = ground arith
gt→Advances empty (running s) h = tt
gt→Advances empty (finished s e) h = tt
gt→Advances (running s) empty h = ground arith
gt→Advances (running s) (running s') h = ground arith
gt→Advances (running s) (finished s' e) h = ground (arith, beq_ℤ_iff s' s)
gt→Advances (finished s e) empty h = ground arith
gt→Advances (finished s e) (running s') h = ground arith
gt→Advances (finished s e) (finished s' e') h = ground arith

Advances→gt : (a b : PodLifecycleData) → Advances a b → partial_cmp b a ≡ some gt
unfolding partial_cmp
Advances→gt empty (running s) h = refl
Advances→gt empty (finished s e) h = refl
Advances→gt (running s) (finished s' e) h = ground (arith, beq_ℤ_iff s' s)
Advances→gt _ _ h = absurd h

-- `b > a` exactly when `b` follows `a` in the life of one pod: from nothing to a start or to an
-- end, or from a start to an end with the same start.
pub partial_cmp-gt_iff : (a b : PodLifecycleData) → (partial_cmp b a ≡ some gt) ↔ Advances a b
partial_cmp-gt_iff a b = (gt→Advances a b, Advances→gt a b)

Advances-trans : (a b c : PodLifecycleData) → Advances a b → Advances b c → Advances a c
Advances-trans empty (running s) (finished s' e) h k = tt
Advances-trans empty (running s) c h k = absurd k
Advances-trans (running s) (finished s' e) c h k = absurd k
Advances-trans empty (finished s e) c h k = absurd k
Advances-trans _ _ _ h k = absurd h

-- `>` on lifecycle data is transitive, and never holds both ways, so never between equals.
pub gt_strict :
    (a b c : PodLifecycleData)
    → partial_cmp b a ≡ some gt
    → (partial_cmp c b ≡ some gt → partial_cmp c a ≡ some gt) × (partial_cmp a b ≢ some gt)
gt_strict a b c h = (
  λ k. Advances→gt a c (Advances-trans a b c ab (gt→Advances b c k)),
  λ k. no a b ab (gt→Advances b a k),
)
  where
    ab : Advances a b
    ab = gt→Advances a b h

    no : (x y : PodLifecycleData) → Advances x y → Advances y x → ⊥
    no empty (running s) p q = q
    no empty (finished s e) p q = q
    no (running s) (finished s' e) p q = q
    no _ _ p q = p

-- The two directions of the order disagree about a running pod and a finished one with another
-- start: the first is less than the second, and the second is not greater than the first.
pub partial_cmp-not_dual :
    (s s' e : ℤ)
    → s' ≢ s
    → (partial_cmp (running s) (finished s' e) ≡ some lt)
      × (partial_cmp (finished s' e) (running s) ≡ none)
unfolding partial_cmp
partial_cmp-not_dual s s' e h = (refl, ground (arith, beq_ℤ_iff s' s))

-- An optional value that is missing counts as `empty`.
abbrev pub stored : Option PodLifecycleData → PodLifecycleData
stored none = empty
stored (some l) = l

-- `new > current` of the pod watcher is `Advances`, a missing current value being `empty`.
pub gt_option→Advances :
    (l : PodLifecycleData) (o : Option PodLifecycleData)
    → gt_option l o ≡ true
    → Advances (stored o) l
unfolding gt_option
gt_option→Advances empty none h = ground arith
gt_option→Advances (running s) none h = tt
gt_option→Advances (finished s e) none h = tt
gt_option→Advances l (some o) h = gt→Advances o l (is_gt_eq (partial_cmp l o) h)
  where
    is_gt_eq : (c : Option Ordering) → is_gt c ≡ true → c ≡ some gt
    is_gt_eq (some gt) h = refl
    is_gt_eq _ h = ground arith

-- A deleted pod whose start is known, from its containers, from what was recorded or from its
-- creation, gets an end: the result is always a finished lifecycle, and never an error.
pub guess-is_finished :
    (pod : Pod) (current : PodLifecycleData) (now s : ℤ)
    → start_ts current ≡ some s
    → (l : PodLifecycleData) × (guess_finished_lifecycle pod current now ≡ ok l)
      × (is_finished l ≡ true)
unfolding guess_finished_lifecycle fallback_start is_finished
guess-is_finished pod current now s h = go (unwrap_lifecycle (new_for pod)) refl
  where
    go :
        (n : PodLifecycleData)
        → unwrap_lifecycle (new_for pod) ≡ n
        → (l : PodLifecycleData) × (guess_finished_lifecycle pod current now ≡ ok l)
          × (is_finished l ≡ true)
    go empty e = (finished s now, rw (e, guess_finished_lifecycle) (rw (h, fallback_start)), refl)
    go (running r) e = (finished r now, rw (e, guess_finished_lifecycle), refl)
    go (finished r f) e = (finished r f, rw (e, guess_finished_lifecycle), refl)
