-- ===== src/Cli/Run.antt =====
-- sk-cli/src/run.rs: the simulation that the command makes of its arguments.
pub mod Metrics
use simkube.Common.{
  Bool, true, false, Option, none, some, List, [], ◌∷◌, String, Outcome, ok, err, panic, ◌>>=◌,
  if◌then◌else◌,
}
use simkube.Common.Int.{ℤ}
use simkube.Core.Hooks.{SimulationHooksConfig}
use simkube.Core.Json.{Value}
use simkube.Core.Kube.{default_meta}
use simkube.Core.Simulation.{Simulation, SimulationMetricsConfig, PrometheusRemoteWrite}

-- The hooks are the name of a file. The speed, a floating point number, is only carried along.
pub record Args : Type 0 where
  pub name : String
  pub duration : Option String
  pub speed : Value
  pub repetitions : ℤ
  pub driver_image : String
  pub driver_port : ℤ
  pub trace_path : String
  pub driver_namespace : String
  pub hooks : Option String
  pub disable_metrics : Bool
  pub metrics_namespace : String
  pub metrics_service_account : String
  pub metrics_pod_monitor_namespaces : Option (List String)
  pub metrics_pod_monitor_names : Option (List String)
  pub metrics_service_monitor_namespaces : Option (List String)
  pub metrics_service_monitor_names : Option (List String)
  pub prometheus_shards : Option ℤ
  pub remote_write_endpoint : Option String

-- `PrometheusRemoteWrite { url, ..Default::default() }`
abbrev pub remote_write : String → PrometheusRemoteWrite
remote_write url = record {
  url = url;
  send_exemplars = none;
  send_native_histograms = none;
  remote_timeout = none;
  write_relabel_configs = none;
}

remote_writes : Option String → List PrometheusRemoteWrite
remote_writes none = []
remote_writes (some url) = remote_write url ∷ []

unfoldable pub metrics_config : Args → Option SimulationMetricsConfig
unfolding remote_writes
metrics_config args =
    if args.disable_metrics
    then none
    else some (record {
      namespace = some args.metrics_namespace;
      service_account = some args.metrics_service_account;
      pod_monitor_namespaces = args.metrics_pod_monitor_namespaces;
      pod_monitor_names = args.metrics_pod_monitor_names;
      service_monitor_namespaces = args.metrics_service_monitor_namespaces;
      service_monitor_names = args.metrics_service_monitor_names;
      prometheus_shards = args.prometheus_shards;
      remote_write_configs = remote_writes args.remote_write_endpoint;
    })

-- `read_hooks` reads and parses a file.
hooks_of :
    (String → Outcome (Option SimulationHooksConfig))
    → Option String
    → Outcome (Option SimulationHooksConfig)
hooks_of read_hooks none = ok none
hooks_of read_hooks (some f) = read_hooks f

unfoldable pub simulation_of : Args → Option SimulationHooksConfig → Simulation
simulation_of args hooks = record {
  metadata = record default_meta { name = some args.name };
  spec = record {
    driver = record {
      namespace = args.driver_namespace;
      image = args.driver_image;
      trace_path = args.trace_path;
      port = args.driver_port;
      speed = args.speed;
    };
    metrics = metrics_config args;
    duration = args.duration;
    repetitions = some args.repetitions;
    hooks = hooks;
  };
  status = none;
}

-- The simulation that the server is asked to create.
unfoldable pub cmd :
    (String → Outcome (Option SimulationHooksConfig))
    → (Simulation → Outcome (Unit {0}))
    → Args
    → Outcome Simulation
unfolding hooks_of
cmd read_hooks create args = do
  hooks ← hooks_of read_hooks args.hooks
  let sim = simulation_of args hooks
  created ← create sim
  ok sim
