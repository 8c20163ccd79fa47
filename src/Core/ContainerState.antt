-- ===== src/Core/ContainerState.antt =====
-- sk-core/src/k8s/container_state.rs: when a container started and ended. A state with more than
-- one of `running`, `terminated` and `waiting` set, or none, is malformed.
use simkube.Common.{
  Option, none, some, Outcome, ok, err, field_not_found, malformed_container_state,
}
use simkube.Common.Int.{ℤ}
use simkube.Core.Kube.{ContainerState, ContainerStateRunning, ContainerStateTerminated}

-- The field of a time that must be there.
abbrev required : Option ℤ → Outcome (Option ℤ)
required (some time) = ok (some time)
required none = err (field_not_found "started_at")

abbrev required_end : Option ℤ → Outcome (Option ℤ)
required_end (some time) = ok (some time)
required_end none = err (field_not_found "finished_at")

start_ts_of :
    Option ContainerStateRunning
    → Option ContainerStateTerminated
    → Option (Unit {0})
    → Outcome (Option ℤ)
start_ts_of (some r) none none = required r.started_at
start_ts_of none (some t) none = required t.started_at
start_ts_of none none (some _) = ok none
start_ts_of _ _ _ = err malformed_container_state

unfoldable pub start_ts : ContainerState → Outcome (Option ℤ)
unfolding start_ts_of
start_ts s = start_ts_of s.running s.terminated s.waiting

end_ts_of :
    Option ContainerStateRunning
    → Option ContainerStateTerminated
    → Option (Unit {0})
    → Outcome (Option ℤ)
end_ts_of (some _) none none = ok none
end_ts_of none (some t) none = required_end t.finished_at
end_ts_of none none (some _) = ok none
end_ts_of _ _ _ = err malformed_container_state

unfoldable pub end_ts : ContainerState → Outcome (Option ℤ)
unfolding end_ts_of
end_ts s = end_ts_of s.running s.terminated s.waiting
