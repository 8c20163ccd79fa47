-- ===== src/Tests/Ctrl/Created.antt =====
-- Runs of the command that creates a simulation.
use simkube.Common.{
  ◌≡◌, Option, refl, Outcome, true, false, none, some, [], String, ok, any, ◌==◌, string_eq,
}
use simkube.Common.Int.{pos}
use simkube.Core.Hooks.{execute}
use simkube.Core.Simulation.{Simulation}
use simkube.Ctrl.Cluster.{Cluster}
use simkube.Ctrl.Controller.{state_of_job, terminal, status_of}
use simkube.Core.Json.{null}
use simkube.Core.Util.{build_object_meta, add_common_metadata}
use simkube.Common.Map
use simkube.Ctrl.Cluster.{await_change}
use simkube.Ctrl.Controller.{left, fetch_driver_state, run_once}
use simkube.Core.Simulation.{initializing, failed}
use simkube.Core.Lease.{try_claim_lease, build_lease}
use simkube.Cli.Run
use simkube.Cli.Run.{simulation_of}
use simkube.Cli.Run.Metrics.{cmd-disabled_metrics}
use simkube.Core.Hooks.{SimulationHooksConfig}
use simkube.Fixtures.{test_naming}
use simkube.Tests.Ctrl.{cluster, env}

-- Simulations that the command line creates, without and with metrics.
abbrev args : Run.Args
args = record {
  name = "sim";
  duration = none;
  speed = null;
  repetitions = pos 1;
  driver_image = "driver:1";
  driver_port = pos 8888;
  trace_path = "file:///data/trace";
  driver_namespace = "simkube";
  hooks = none;
  disable_metrics = true;
  metrics_namespace = "metrics";
  metrics_service_account = "account";
  metrics_pod_monitor_namespaces = none;
  metrics_pod_monitor_names = none;
  metrics_service_monitor_namespaces = none;
  metrics_service_monitor_names = none;
  prometheus_shards = none;
  remote_write_endpoint = some "http://receiver";
}

abbrev no_hooks : String → Outcome (Option SimulationHooksConfig)
no_hooks file = ok none

abbrev accept : Simulation → Outcome (Unit {0})
accept s = ok tt

abbrev plain : Simulation
plain = simulation_of args none

abbrev bare : Cluster
bare = record cluster { namespaces = []; lease = none }

abbrev plain_after : Cluster
plain_after = (fetch_driver_state env plain bare).1

plain_claims : fetch_driver_state env plain bare ≡ (ok (left initializing none none), plain_after)
unfolding simulation_of fetch_driver_state state_of_job terminal try_claim_lease build_lease
    build_object_meta add_common_metadata Map.insert
plain_claims = refl

plain_missing : any (λ ns. ns == "monitoring") plain_after.namespaces ≡ false
unfolding simulation_of fetch_driver_state state_of_job terminal try_claim_lease build_lease
    build_object_meta add_common_metadata Map.insert
plain_missing = refl

cmd-disabled_metrics_example :
    (plain.spec.metrics ≡ none)
    × (run_once env plain bare ≡ (
      ok await_change,
      record plain_after {
        status =
            some (record (status_of plain (left initializing none none)) { state = some failed });
      },
    ))
unfolding Run.cmd simulation_of execute
cmd-disabled_metrics_example =
    cmd-disabled_metrics no_hooks accept args plain refl env bare plain_after refl refl plain_claims
      refl refl plain_missing
