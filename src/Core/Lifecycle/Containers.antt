-- ===== src/Core/Lifecycle/Containers.antt =====
-- `new_for` against a description: the earliest start and the latest end over all containers.
use mathlib.Core.List.{append_assoc, append-nil}
use simkube.Common.{
  ℕ, ◌+◌, ◌≡◌, ◌≢◌, refl, ◌⊎◌, inl, inr, Option, none, some, List, [], ◌∷◌, ◌++◌, All, All-append,
  Member, Member-append_left, Member-append_end, All-imp, length, filter_map, ok, arith, nat_beq,
  Bool-cases, if◌then◌else◌,
}
use simkube.Common.Int.{ℤ, ◌≤ℤ◌, leb_ℤ}
use simkube.Core.Kube.{Pod, PodStatus, PodSpec, ContainerState}
use simkube.Core.Lifecycle.{
  PodLifecycleData, empty, running, finished, new, min_some, max_option, get_start_end_ts, Seen,
  see_init, see_main, see_all, see_status, states, nothing_seen, new_for,
}

-- The timestamps of the containers, in order; a container may have none.
abbrev pub starts : List ContainerState → List ℤ
starts = filter_map (λ s. (get_start_end_ts s).0)

abbrev pub ends : List ContainerState → List ℤ
ends = filter_map (λ s. (get_start_end_ts s).1)

-- All containers of a pod, the init containers first.
abbrev pub init_states : PodStatus → List ContainerState
init_states s = states s.init_container_statuses

abbrev pub main_states : PodStatus → List ContainerState
main_states s = states s.container_statuses

abbrev pub IsLeast : ℤ → List ℤ → Type 0
IsLeast a xs = Member a xs × All (λ x. a ≤ℤ x) xs

abbrev pub IsGreatest : ℤ → List ℤ → Type 0
IsGreatest a xs = Member a xs × All (λ x. x ≤ℤ a) xs

-- The least of a list that may be empty.
abbrev Least? : Option ℤ → List ℤ → Type 0
Least? none xs = xs ≡ []
Least? (some a) xs = IsLeast a xs

abbrev Greatest? : Option ℤ → List ℤ → Type 0
Greatest? none xs = xs ≡ []
Greatest? (some a) xs = IsGreatest a xs

Least?-min_some :
    (m : Option ℤ) (s : ℤ) (xs : List ℤ) → Least? m xs → Least? (min_some (some s) m) (xs ++ s ∷ [])
unfolding min_some
Least?-min_some none s [] h = (inl refl, (omega arith, tt))
Least?-min_some none s (x ∷ xs) h = absurd (ground arith)
Least?-min_some (some a) s xs h = elim (Bool-cases (leb_ℤ s a)) [
  | inl e ↦ rw e (
    Member-append_end s xs,
    All-append (λ x. s ≤ℤ x) xs (s ∷ []) (All-imp (λ x p. ground arith) xs h.1) (omega arith, tt),
  )
  | inr e ↦ rw e (
    Member-append_left a xs (s ∷ []) h.0,
    All-append (λ x. a ≤ℤ x) xs (s ∷ []) h.1 (ground arith, tt),
  )
]

Greatest?-max_option :
    (m : Option ℤ) (s : ℤ) (xs : List ℤ)
    → Greatest? m xs
    → Greatest? (max_option m (some s)) (xs ++ s ∷ [])
unfolding max_option
Greatest?-max_option none s [] h = (inl refl, (omega arith, tt))
Greatest?-max_option none s (x ∷ xs) h = absurd (ground arith)
Greatest?-max_option (some a) s xs h = elim (Bool-cases (leb_ℤ a s)) [
  | inl e ↦ rw e (
    Member-append_end s xs,
    All-append (λ x. x ≤ℤ s) xs (s ∷ []) (All-imp (λ x p. ground arith) xs h.1) (omega arith, tt),
  )
  | inr e ↦ rw e (
    Member-append_left a xs (s ∷ []) h.0,
    All-append (λ x. x ≤ℤ a) xs (s ∷ []) h.1 (ground arith, tt),
  )
]

max_option-none : (m : Option ℤ) → max_option m none ≡ m
unfolding max_option
max_option-none none = refl
max_option-none (some a) = refl

abbrev to_list : Option ℤ → List ℤ
to_list none = []
to_list (some t) = t ∷ []

Least?-step : (o m : Option ℤ) (xs : List ℤ) → Least? m xs → Least? (min_some o m) (xs ++ to_list o)
unfolding min_some
Least?-step none m xs h = rw append-nil h
Least?-step (some s) m xs h = Least?-min_some m s xs h

Greatest?-step :
    (o m : Option ℤ) (xs : List ℤ) → Greatest? m xs → Greatest? (max_option m o) (xs ++ to_list o)
Greatest?-step none m xs h = rw (append-nil, max_option-none m) h
Greatest?-step (some s) m xs h = Greatest?-max_option m s xs h

filter_map-cons {ℓ} :
    {A : Type ℓ} (f : A → Option ℤ) (x : A) (xs : List A)
    → filter_map f (x ∷ xs) ≡ to_list (f x) ++ filter_map f xs
filter_map-cons f x xs = ground arith

-- What a turn of either loop does to the two timestamps.
module _ (see : Seen → ContainerState → Seen)
    (starts_by : (seen : Seen) (state : ContainerState)
      → (see seen state).earliest_start_ts
        ≡ min_some (get_start_end_ts state).0 seen.earliest_start_ts)
    (ends_by : (seen : Seen) (state : ContainerState)
      → (see seen state).latest_end_ts
        ≡ max_option seen.latest_end_ts (get_start_end_ts state).1) where
  see_all-Least? :
      (seen : Seen) (cs : List ContainerState) (xs : List ℤ)
      → Least? seen.earliest_start_ts xs
      → Least? (see_all see seen cs).earliest_start_ts (xs ++ starts cs)
  unfolding see_all
  see_all-Least? seen [] xs h = rw append-nil h
  see_all-Least? seen (c ∷ cs) xs h =
      rw (filter_map-cons (λ s. (get_start_end_ts s).0) c cs, ← append_assoc)
        (see_all-Least? (see seen c) cs (xs ++ to_list (get_start_end_ts c).0)
          (rw (starts_by seen c) (Least?-step _ _ xs h)))

  see_all-Greatest? :
      (seen : Seen) (cs : List ContainerState) (xs : List ℤ)
      → Greatest? seen.latest_end_ts xs
      → Greatest? (see_all see seen cs).latest_end_ts (xs ++ ends cs)
  unfolding see_all
  see_all-Greatest? seen [] xs h = rw append-nil h
  see_all-Greatest? seen (c ∷ cs) xs h =
      rw (filter_map-cons (λ s. (get_start_end_ts s).1) c cs, ← append_assoc)
        (see_all-Greatest? (see seen c) cs (xs ++ to_list (get_start_end_ts c).1)
          (rw (ends_by seen c) (Greatest?-step _ _ xs h)))

init_count :
    (seen : Seen) (cs : List ContainerState)
    → (see_all see_init seen cs).terminated_container_count ≡ seen.terminated_container_count
unfolding see_all see_init
init_count seen [] = refl
init_count seen (c ∷ cs) = init_count (see_init seen c) cs

main_count :
    (seen : Seen) (cs : List ContainerState)
    → (see_all see_main seen cs).terminated_container_count
      ≡ seen.terminated_container_count + length (ends cs)
unfolding see_all see_main
main_count seen [] = omega arith
main_count seen (c ∷ cs) = ground (arith, main_count (see_main seen c) cs)

-- What the loops have found at their end.
see_status-Least? :
    (s : PodStatus)
    → Least? (see_status s).earliest_start_ts (starts (init_states s) ++ starts (main_states s))
unfolding see_status
see_status-Least? s =
    see_all-Least? see_main (λ a b. refl) (λ a b. refl) _ (main_states s) _
      (see_all-Least? see_init (λ a b. refl) (λ a b. refl) nothing_seen (init_states s) [] refl)

see_status-Greatest? :
    (s : PodStatus)
    → Greatest? (see_status s).latest_end_ts (ends (init_states s) ++ ends (main_states s))
unfolding see_status
see_status-Greatest? s =
    see_all-Greatest? see_main (λ a b. refl) (λ a b. refl) _ (main_states s) _
      (see_all-Greatest? see_init (λ a b. refl) (λ a b. refl) nothing_seen (init_states s) [] refl)

see_status-count :
    (s : PodStatus) → (see_status s).terminated_container_count ≡ length (ends (main_states s))
unfolding see_status
see_status-count s = omega (
  arith,
  main_count (see_all see_init nothing_seen (init_states s)) (main_states s),
  init_count nothing_seen (init_states s),
)

-- Lifecycle data against the containers of the pod: `total` is the number of main containers that
-- the spec lists, `ended` the number of those with an end.
abbrev pub Describes : PodLifecycleData → List ℤ → List ℤ → ℕ → ℕ → Type 0
Describes empty ss es ended total = ss ≡ []
Describes (running s) ss es ended total = IsLeast s ss × ((ended ≢ total) ⊎ (es ≡ []))
Describes (finished s e) ss es ended total = IsLeast s ss × IsGreatest e es × (ended ≡ total)

new-Describes :
    (start end : Option ℤ) (ss es : List ℤ) (ended total : ℕ)
    → Least? start ss
    → Greatest? end es
    → Describes (new start (if nat_beq ended total then end else none)) ss es ended total
unfolding new
new-Describes none end ss es ended total h k = h
new-Describes (some s) none ss es ended total h k = ground arith
new-Describes (some s) (some e) ss es ended total h k = ground arith

-- Of a pod with a status and a spec, `new_for` says `empty` if no container has started. Otherwise
-- it gives the earliest start of all containers, with the latest end of all of them exactly when one
-- has ended and as many main containers have ended as the spec lists.
pub new_for-Describes :
    (pod : Pod) (status : PodStatus) (spec : PodSpec)
    → pod.status ≡ some status
    → pod.spec ≡ some spec
    → (l : PodLifecycleData) × (new_for pod ≡ ok l)
      × Describes l
          (starts (init_states status) ++ starts (main_states status))
          (ends (init_states status) ++ ends (main_states status))
          (length (ends (main_states status)))
          (length spec.containers)
unfolding new_for
new_for-Describes pod status spec p q = (
  new (see_status status).earliest_start_ts (
      if nat_beq (see_status status).terminated_container_count (length spec.containers)
      then (see_status status).latest_end_ts
      else none),
  rw (p, q),
  rw (see_status-count status)
      (new-Describes _ _ _ _ _ _ (see_status-Least? status) (see_status-Greatest? status)),
)
