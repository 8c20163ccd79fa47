-- ===== src/Tests/Ctrl.antt =====
-- Runs of the controller.
mod Objects
mod Created
use simkube.Common.{
  ℕ, ◌≡◌, ◌≢◌, ◌≤◌, refl, arith, panic, unwrap_or, true, false, none, some, [], ◌∷◌, String, ok,
  any, is_some, ◌==◌, string_eq,
}
use simkube.Common.Int.{pos}
use simkube.Core.Hooks.{execute, post_stop}
use simkube.Core.Simulation.{
  Simulation, SimulationStatus, finished, SimulationMetricsConfig, metrics_ns, blocked,
}
use simkube.Ctrl.Cluster.{Cluster, Surroundings, requeue}
use simkube.Ctrl.Controller.{state_of_job, terminal, setup_simulation, reconcile, status_of, right}
use simkube.Ctrl.Controller.Blocked.{reconcile-blocked}
use simkube.Ctrl.Controller.Ready.{PrometheusReady, setup_simulation-job}
use simkube.Core.Json.{null}
use simkube.Core.Kube.{default_meta}
use simkube.Ctrl.Controller.Ended.{complete, caught, reconcile-ended}
use simkube.Ctrl.Cluster.{JobStatus, await_change, delete_metaroot}
use simkube.Ctrl.Controller.{fetch_driver_state, passes, cleanup_simulation}
use simkube.Ctrl.Controller.Observed.{reconcile-passes}
use simkube.Fixtures.{test_naming, sim_root, lease_of, sim_lease, builds, sim_ne_other}

abbrev no_metrics : SimulationMetricsConfig
no_metrics = record {
  namespace = none;
  service_account = none;
  prometheus_shards = none;
  pod_monitor_names = none;
  pod_monitor_namespaces = none;
  service_monitor_names = none;
  service_monitor_namespaces = none;
  remote_write_configs = [];
}

abbrev sim : Simulation
sim = record {
  metadata = record default_meta { name = some "sim"; uid = some "3"; generation = some (pos 2) };
  spec = record {
    driver = record {
      namespace = "simkube";
      image = "driver:1";
      trace_path = "file:///data/trace";
      port = pos 8888;
      speed = null;
    };
    metrics = some no_metrics;
    duration = none;
    repetitions = some (pos 1);
    hooks = none;
  };
  status = none;
}

abbrev env : Surroundings
env = record {
  accepts = λ w. ok tt;
  commit = ok tt;
  job_built = ok tt;
  shell = λ hook. ok true;
  use_cert_manager = true;
  metaroot = sim_root;
  ctrl_ns = "simkube";
  now = pos 20;
}

abbrev cluster : Cluster
cluster = record {
  metaroot = true;
  lease = none;
  namespaces = "monitoring" ∷ [];
  prometheus = some (some (pos 1));
  service = false;
  certificate = false;
  secrets = "cert" ∷ [];
  webhook = false;
  job = none;
  status = none;
}

job_made : is_some ((setup_simulation env sim cluster).1).job ≡ true
unfolding setup_simulation metrics_ns execute
job_made = refl

setup_simulation-job_example :
    (any (λ ns. ns == metrics_ns sim) ("monitoring" ∷ []) ≡ true)
    × PrometheusReady sim cluster
    × (((setup_simulation env sim cluster).1).webhook ≡ true)
    × (((setup_simulation env sim cluster).1).service ≡ true)
    × (s : String) × (("cert" ∷ []) ≡ s ∷ [])
setup_simulation-job_example = setup_simulation-job env sim cluster refl job_made

abbrev waiting : Cluster
waiting = record cluster { lease = some (lease_of "other") }

reconcile-blocked_example :
    (t : ℕ) × (reconcile env sim waiting
      ≡ (ok (requeue t), record waiting { status = some (status_of sim (right blocked t)) }))
    × (1 ≤ t)
unfolding state_of_job terminal
reconcile-blocked_example =
    reconcile-blocked env sim sim_lease "other" builds sim_ne_other waiting refl refl refl refl

-- A simulation whose driver is done, and one whose metrics namespace is not there.
abbrev done : JobStatus
done = record {
  start_time = some (pos 11);
  conditions = some (record { type_ = "Complete"; last_transition_time = some (pos 19) } ∷ []);
}

abbrev over : Cluster
over = record cluster { lease = some (lease_of "other"); job = some (some done) }

ok_ne_panic : {A : Type 0} (a : A) → ok a ≢ panic
ok_ne_panic a e = absurd (ground arith)

reconcile-ended_example :
    (after : Cluster) × (status : SimulationStatus) × (reconcile env sim over
      ≡ (caught await_change (execute env.shell sim.spec.hooks post_stop), after))
    × ((after.status ≡ some status)
        × (status.state ≡ some finished)
        × (status.start_time ≡ some (pos 11))
        × (status.end_time ≡ some (pos 19))
        × (status.observed_generation ≡ unwrap_or sim.metadata.generation (pos 1)))
    × (after.lease ≡ over.lease)
    × (env.accepts delete_metaroot ≡ ok tt → after.metaroot ≡ false)
reconcile-ended_example =
    reconcile-ended env sim over done [] []
      (record { type_ = "Complete"; last_transition_time = some (pos 19) }) finished refl refl refl
      tt complete refl (ok_ne_panic tt)

abbrev ended : Cluster
ended = (reconcile env sim over).1

ends : reconcile env sim over ≡ (ok await_change, ended)
unfolding reconcile fetch_driver_state state_of_job terminal cleanup_simulation execute
ends = refl

reconcile-passes_example :
    (passes (record sim { status = ended.status }) ≡ false)
    × ((newer : Simulation)
        → unwrap_or newer.metadata.generation (pos 1) ≢ pos 2
        → passes (record newer { status = ended.status }) ≡ true)
reconcile-passes_example = reconcile-passes env sim over ended await_change ends
