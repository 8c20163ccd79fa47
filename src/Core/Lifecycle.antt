-- ===== src/Core/Lifecycle.antt =====
-- sk-core/src/k8s/pod_lifecycle.rs: the lifecycle of a pod, as far as it was seen.
pub mod Order
pub mod Window
pub mod Containers
use Prim.Native.Nat.{Ordering}
use Prim.Native.Nat.Ordering.{lt, eq, gt}
use simkube.Common.{
  ℕ, zero, suc, ◌+◌, ◌≡◌, refl, Bool, true, false, not, ◌&&◌, ◌||◌, Option, none, some, List, [],
  ◌∷◌, String, Outcome, ok, err, panic, message, field_not_found, ok_or, ok?, unwrap_or, ◌>>=◌,
  nat_beq, length, filter_map, ◌==◌, if◌then◌else◌, is_some,
}
use simkube.Common.Int.{ℤ, int_eq, ltb_ℤ, leb_ℤ, beq_ℤ, min_ℤ, max_ℤ}
use simkube.Core.Kube.{Pod, PodStatus, PodSpec, ContainerStatus, ContainerState}
use simkube.Core.ContainerState

pub data PodLifecycleData : Type 0 where
  empty : PodLifecycleData
  running : ℤ → PodLifecycleData
  finished : ℤ → ℤ → PodLifecycleData

unfoldable pub new : Option ℤ → Option ℤ → PodLifecycleData
new none _ = empty
new (some ts) none = running ts
new (some start) (some end) = finished start end

-- The source's `empty()`, `running()` and `finished()`.
unfoldable pub is_empty : PodLifecycleData → Bool
is_empty empty = true
is_empty _ = false

unfoldable pub is_running : PodLifecycleData → Bool
is_running (running _) = true
is_running _ = false

unfoldable pub is_finished : PodLifecycleData → Bool
is_finished (finished _ _) = true
is_finished _ = false

unfoldable pub end_ts : PodLifecycleData → Option ℤ
end_ts (finished _ ts) = some ts
end_ts _ = none

unfoldable pub start_ts : PodLifecycleData → Option ℤ
start_ts (running ts) = some ts
start_ts (finished ts _) = some ts
start_ts _ = none

unfoldable pub overlaps : PodLifecycleData → ℤ → ℤ → Bool
overlaps (running ts) start end = ltb_ℤ ts end
overlaps (finished s e) start end = leb_ℤ start s && ltb_ℤ s end || leb_ℤ start e && ltb_ℤ e end
overlaps empty start end = false

-- The least of the two that are there.
unfoldable pub min_some : Option ℤ → Option ℤ → Option ℤ
min_some none o2 = o2
min_some (some a) none = some a
min_some (some a) (some b) = some (min_ℤ a b)

-- `max` of the derived order on options: `None` is below every `Some`.
unfoldable pub max_option : Option ℤ → Option ℤ → Option ℤ
max_option none o2 = o2
max_option (some a) none = some a
max_option (some a) (some b) = some (max_ℤ a b)

-- An error is logged and read as no timestamp.
abbrev logged : Outcome (Option ℤ) → Option ℤ
logged (ok ts) = ts
logged _ = none

unfoldable pub get_start_end_ts : ContainerState → Option ℤ × Option ℤ
get_start_end_ts state =
    (logged (ContainerState.start_ts state), logged (ContainerState.end_ts state))

-- The variables of `new_for`'s loops.
pub record Seen : Type 0 where
  pub earliest_start_ts : Option ℤ
  pub latest_end_ts : Option ℤ
  pub terminated_container_count : ℕ

-- One turn of the loop over the init containers, which does not count.
see_init : Seen → ContainerState → Seen
unfolding get_start_end_ts min_some max_option
see_init seen state =
    let (start, end) = get_start_end_ts state in
    record seen {
      earliest_start_ts = min_some start seen.earliest_start_ts;
      latest_end_ts = max_option seen.latest_end_ts end;
    }

-- One turn of the loop over the main containers.
see_main : Seen → ContainerState → Seen
unfolding get_start_end_ts min_some max_option
see_main seen state =
    let (start, end) = get_start_end_ts state in
    record {
      earliest_start_ts = min_some start seen.earliest_start_ts;
      latest_end_ts = max_option seen.latest_end_ts end;
      terminated_container_count =
          if is_some end
          then seen.terminated_container_count + 1
          else seen.terminated_container_count;
    }

see_all : (Seen → ContainerState → Seen) → Seen → List ContainerState → Seen
see_all see seen [] = seen
see_all see seen (state ∷ states) = see_all see (see seen state) states

-- The states of an optional list of containers; a container with no state is passed over.
abbrev states : Option (List ContainerStatus) → List ContainerState
states none = []
states (some cs) = filter_map (λ c. c.state) cs

abbrev nothing_seen : Seen
nothing_seen = record {
  earliest_start_ts = none;
  latest_end_ts = none;
  terminated_container_count = 0;
}

unfoldable pub see_status : PodStatus → Seen
unfolding see_all see_init see_main
see_status status =
    see_all see_main (see_all see_init nothing_seen (states status.init_container_statuses))
      (states status.container_statuses)

unfoldable pub pod_status : Pod → Outcome PodStatus
pod_status pod = ok_or pod.status (field_not_found "pod status")

unfoldable pub pod_spec : Pod → Outcome PodSpec
pod_spec pod = ok_or pod.spec (field_not_found "pod spec")

unfoldable pub new_for : Pod → Outcome PodLifecycleData
unfolding pod_status pod_spec new
new_for pod = do
  status ← pod_status pod
  let seen = see_status status
  spec ← pod_spec pod
  let latest_end_ts =
      if nat_beq seen.terminated_container_count (length spec.containers)
      then seen.latest_end_ts
      else none
  ok (new seen.earliest_start_ts latest_end_ts)

-- The start of a pod whose containers say nothing.
fallback_start : Pod → PodLifecycleData → Outcome ℤ
unfolding start_ts
fallback_start pod current = elim (start_ts current) [
  | some ts ↦ ok ts
  | none ↦ ok_or pod.metadata.creation_timestamp (message "could not determine final pod lifecycle")
]

abbrev unwrap_lifecycle : Outcome PodLifecycleData → PodLifecycleData
unwrap_lifecycle (ok l) = l
unwrap_lifecycle _ = empty

-- `now` is what the clock shows.
unfoldable pub guess_finished_lifecycle : Pod → PodLifecycleData → ℤ → Outcome PodLifecycleData
unfolding fallback_start
guess_finished_lifecycle pod current now = elim (unwrap_lifecycle (new_for pod)) [
  | finished s e ↦ ok (finished s e)
  | running start ↦ ok (finished start now)
  | empty ↦ do start ← fallback_start pod current; ok (finished start now)
]

-- `PartialOrd for PodLifecycleData`.
unfoldable pub partial_cmp : PodLifecycleData → PodLifecycleData → Option Ordering
unfolding is_empty
partial_cmp empty other = if not (is_empty other) then some lt else some eq
partial_cmp (running ts) empty = some gt
partial_cmp (running ts) (running other) = if ts == other then some eq else none
partial_cmp (running ts) (finished _ _) = some lt
partial_cmp (finished s e) empty = some gt
partial_cmp (finished s e) (running other) = if s == other then some gt else none
partial_cmp (finished s e) (finished s' e') = if s == s' && e == e' then some eq else none

-- `PartialEq` and `PartialOrd` against an optional reference: a missing one counts as `empty`.
unfoldable pub lifecycle_beq : PodLifecycleData → PodLifecycleData → Bool
lifecycle_beq empty empty = true
lifecycle_beq (running a) (running b) = a == b
lifecycle_beq (finished a b) (finished c d) = a == c && b == d
lifecycle_beq _ _ = false

unfoldable pub eq_option : PodLifecycleData → Option PodLifecycleData → Bool
unfolding is_empty lifecycle_beq
eq_option empty none = true
eq_option empty (some plt) = is_empty plt
eq_option l none = false
eq_option l (some plt) = lifecycle_beq plt l

unfoldable pub partial_cmp_option : PodLifecycleData → Option PodLifecycleData → Option Ordering
unfolding partial_cmp
partial_cmp_option empty none = some eq
partial_cmp_option l none = some gt
partial_cmp_option l (some other) = partial_cmp l other

abbrev is_gt : Option Ordering → Bool
is_gt (some gt) = true
is_gt _ = false

-- `new_lifecycle_data > current_lifecycle_data`.
unfoldable pub gt_option : PodLifecycleData → Option PodLifecycleData → Bool
unfolding partial_cmp_option
gt_option l o = is_gt (partial_cmp_option l o)
