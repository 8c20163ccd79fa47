-- ===== src/Tests/Driver.antt =====
-- Runs of the models of sk-driver.
use simkube.Common.{
  ℕ, ◌%◌, ◌≡◌, ◌≢◌, refl, true, none, some, List, [], ◌∷◌, ◌++◌, String, ok, arith, string_eq,
  nat_eq, get_elem?, length, zero, suc, ◌*◌, ◌≤◌, inl,
}
use simkube.Common.Int.{ℤ, pos}
use simkube.Common.Map
use simkube.Common.Map.{Map}
use simkube.Core.Constants.{orig_namespace_annotation_key}
use simkube.Core.Kube.{Pod}
use simkube.Core.Hash.{hash, tokens}
use simkube.Core.Lifecycle.{PodLifecycleData, finished, is_finished, pod_spec}
use simkube.Core.PatchExt.{show_ℤ, escape}
use simkube.Common.Text.{replace}
use simkube.Core.PodExt.{stable_spec}
use simkube.Store.Config.{default_config}
use simkube.Store.PodOwnersMap.{lifecycle_data_for, new_from_parts}
use simkube.Store.TraceStore.{has_obj, pod_hash}
use simkube.Driver.Mutation.{new, count, DriverContext, add_lifecycle_annotation}
use simkube.Driver.Mutation.Sequence.{
  AllFinished, counted, lifetime_patch, add_lifecycle_annotation-cyclic,
}
use simkube.Core.ApiSet
use simkube.Core.ApiSet.{namespaced}
use simkube.Core.Kube.{default_meta}
use simkube.Core.Util.{build_deletable}
use simkube.Store.Event.{TraceEvent}
use simkube.Driver.Runner.{Deletion, pending, over, Turns, cleanup_trace, Driver, World, run_events}
use simkube.Driver.Runner.Cleanup.{Sleeps, EndsAt, cleanup_trace-EndsAt}
use simkube.Driver.Runner.Untyped.{run_events-DeletesUntyped}
use simkube.Common.Int.{+ℤ_parts, ◌+ℤ◌, ◌≤ℤ◌}
use simkube.Driver.Runner.Steps.{Step, steps, Asked, IsHandle}
use simkube.Driver.Runner.Asked.{run_events-Asked}
use simkube.Driver.Runner.Sleeps.{total, run_events-total}
use simkube.Store.Iterator.{paired}
use simkube.Core.Kube.{DynamicObject}
use simkube.Common.{Outcome}
use simkube.Driver.Runner.{apply_obj, delete_obj, perform, build_virtual_ns, build_virtual_obj}
use simkube.Core.Gvk.{from_dynamic_obj}
use simkube.Core.Util.{build_global_object_meta, add_common_metadata}
use simkube.Store.Config.{pod_spec_template_path}
use simkube.Fixtures.{
  test_naming, test_pointers, test_object, test_hasher, test_encoder, named_meta, ref_to, test_pod,
}

abbrev from_default : Map String String
from_default = (orig_namespace_annotation_key, "default") ∷ []

abbrev virtual_pod : Pod
virtual_pod = record test_pod {
  metadata = record (named_meta "virtual-default" "pod-1") { annotations = some from_default };
}

abbrev two_lifecycles : List PodLifecycleData
two_lifecycles = finished (pos 1) (pos 4) ∷ finished (pos 2) (pos 9) ∷ []

-- Both owners are in the trace; it has lifecycles of the second only, of the hash 0.
abbrev ctx : DriverContext
ctx = record {
  name = "sim-1";
  root_name = "sim-1-root";
  store = record {
    config = default_config;
    events = [];
    pod_owners = new_from_parts (("default/dep", (0, two_lifecycles) ∷ []) ∷ []) [];
    index = ("default/rs", 1) ∷ ("default/dep", 2) ∷ [];
  };
}

from_ns : Map.get from_default orig_namespace_annotation_key ≡ some "default"
unfolding Map.get
from_ns = refl

hashed : pod_hash virtual_pod ≡ ok 0
unfolding pod_hash stable_spec pod_spec hash tokens
hashed = refl

has_dep : has_obj ctx.store "default/dep" ≡ true
unfolding has_obj Map.get
has_dep = refl

dep_known : lifecycle_data_for ctx.store.pod_owners "default/dep" 0 ≡ some two_lifecycles
unfolding lifecycle_data_for Map.get
dep_known = refl

lifecycles-nonempty : two_lifecycles ≢ []
lifecycles-nonempty e = absurd (ground arith)

lifecycles-AllFinished : AllFinished two_lifecycles
unfolding is_finished
lifecycles-AllFinished = (refl, (refl, tt))

add_lifecycle_annotation-cyclic_example :
    (s : ℤ) × (e : ℤ) × (get_elem? two_lifecycles (counted new 0 % length two_lifecycles)
      ≡ some (finished s e))
    × (add_lifecycle_annotation ctx virtual_pod (ref_to "dep" ∷ []) new []
        ≡ (ok ([] ++ lifetime_patch s e ∷ []), (count new 0).1))
add_lifecycle_annotation-cyclic_example =
    add_lifecycle_annotation-cyclic ctx "default" virtual_pod from_default refl from_ns 0 hashed
      (ref_to "dep") [] new [] two_lifecycles has_dep dep_known lifecycles-nonempty
      lifecycles-AllFinished

test_show : show_ℤ (pos 1070) ≡ "1070"
unfolding show_ℤ
test_show = refl

test_escape : escape "a~b/c" ≡ "a~0b~1c"
unfolding escape replace
test_escape = refl

-- The deletion is over at the third turn.
abbrev answers : ℕ → Deletion
answers zero = pending
answers (suc zero) = pending
answers (suc (suc i)) = over

abbrev turns : Turns
turns = record { now = λ i. pos (5 * i); answer = answers }

turns-Sleeps : Sleeps turns
turns-Sleeps i = omega (arith, +ℤ_parts (pos (5 * i)) (pos 5))

in_time : pos 300 ≤ℤ (pos (5 * 0) +ℤ pos (5 * 60))
unfolding ◌+ℤ◌
in_time = omega arith

cleanup_trace-EndsAt_example :
    (i : ℕ) × (0 ≤ i)
    × EndsAt "root" turns (pos 300) 0 i (cleanup_trace 61 "root" turns (pos 300) 0)
cleanup_trace-EndsAt_example = cleanup_trace-EndsAt "root" turns (pos 300) turns-Sleeps 60 0 in_time

abbrev test_driver : Driver
test_driver = record {
  name = "sim-1";
  root = record {
    api_version = "simkube.io/v1";
    kind = "SimulationRoot";
    metadata = record default_meta { name = some "root"; uid = some "7" };
  };
  virtual_ns_prefix = "virtual";
  store = ctx.store;
  parse = λ t. ok (record { group = ""; version = t.api_version; kind = t.kind });
  discover = λ g. ok namespaced;
  accepts = λ call. ok tt;
  at_speed = λ time. time;
}

abbrev idle : World
idle = record { namespaces = []; apiset = ApiSet.new; calls = [] }

abbrev lost_event : TraceEvent
lost_event = record { ts = pos 1; applied_objs = []; deleted_objs = test_object "a" ∷ [] }

run_events-DeletesUntyped_example :
    (run_events test_driver idle (pos 0) ((lost_event, none) ∷ []) ≢ ok idle)
    × ((k : String) → (build_deletable k).types ≡ none)
run_events-DeletesUntyped_example =
    run_events-DeletesUntyped test_driver ((lost_event, none) ∷ []) idle idle (pos 0)
      (inl (test_object "a", refl, inl refl))

abbrev typed : DynamicObject
typed = record (test_object "a") { types = some (record { api_version = "v1"; kind = "Pod" }) }

abbrev made : TraceEvent
made = record { ts = pos 1; applied_objs = typed ∷ []; deleted_objs = [] }

abbrev gone : TraceEvent
gone = record { ts = pos 4; applied_objs = []; deleted_objs = typed ∷ [] }

abbrev world_of : Outcome World → World
world_of (ok w) = w
world_of _ = idle

abbrev replayed : World
replayed = world_of (run_events test_driver idle (pos 1) (paired (made ∷ gone ∷ [])))

replays : run_events test_driver idle (pos 1) (paired (made ∷ gone ∷ [])) ≡ ok replayed
unfolding run_events apply_obj from_dynamic_obj build_virtual_ns build_global_object_meta
    add_common_metadata perform build_virtual_obj pod_spec_template_path Map.get ApiSet.api_for_obj
    delete_obj Map.insert
replays = refl

run_events-Asked_example :
    (added : List Step) × Asked test_driver IsHandle (pos 1) (paired (made ∷ gone ∷ [])) added
    × (steps replayed.calls ≡ steps idle.calls ++ added)
run_events-Asked_example =
    run_events-Asked test_driver idle replayed (pos 1) (paired (made ∷ gone ∷ []))
      ApiSet.new-IsCache replays

run_events-total_example : pos 1 +ℤ pos (total (steps replayed.calls)) ≡ pos 4 +ℤ pos 0
run_events-total_example =
    run_events-total test_driver idle replayed made (gone ∷ []) (λ k. refl) (omega arith, tt)
      replays
