-- ===== src/Core/Simulation.antt =====
-- sk-api/src/v1/simulations.rs and sk-core/src/k8s/sim.rs: simulations, and what is read of them.
use simkube.Common.{
  Bool, true, false, Option, none, some, List, String, Outcome, ok, unwrap_or, ◌>>=◌,
}
use simkube.Common.Int.{ℤ}
use simkube.Core.Constants.{default_metrics_ns, default_metrics_svc_account}
use simkube.Core.Hooks.{SimulationHooksConfig}
use simkube.Core.Json.{Value}
use simkube.Core.Kube.{ObjectMeta, Naming}
use simkube.Core.Util.{Owner, build_global_object_meta}

pub data SimulationState : Type 0 where
  blocked initializing finished failed retrying running : SimulationState

-- The speed, a floating point number, is only carried along.
pub record SimulationDriverConfig : Type 0 where
  pub namespace : String
  pub image : String
  pub trace_path : String
  pub port : ℤ
  pub speed : Value

-- Of sk-api/src/prometheus.rs, the fields that the program reads or writes.
pub record WriteRelabelConfigs : Type 0 where
  pub source_labels : Option (List String)
  pub target_label : Option String
  pub replacement : Option String

pub record PrometheusRemoteWrite : Type 0 where
  pub url : String
  pub send_exemplars : Option Bool
  pub send_native_histograms : Option Bool
  pub remote_timeout : Option String
  pub write_relabel_configs : Option (List WriteRelabelConfigs)

pub record SimulationMetricsConfig : Type 0 where
  pub namespace : Option String
  pub service_account : Option String
  pub prometheus_shards : Option ℤ
  pub pod_monitor_names : Option (List String)
  pub pod_monitor_namespaces : Option (List String)
  pub service_monitor_names : Option (List String)
  pub service_monitor_namespaces : Option (List String)
  pub remote_write_configs : List PrometheusRemoteWrite

pub record SimulationSpec : Type 0 where
  pub driver : SimulationDriverConfig
  pub metrics : Option SimulationMetricsConfig
  pub duration : Option String
  pub repetitions : Option ℤ
  pub hooks : Option SimulationHooksConfig

pub record SimulationStatus : Type 0 where
  pub observed_generation : ℤ
  pub start_time : Option ℤ
  pub end_time : Option ℤ
  pub state : Option SimulationState

pub record Simulation : Type 0 where
  pub metadata : ObjectMeta
  pub spec : SimulationSpec
  pub status : Option SimulationStatus

unfoldable pub metrics_ns : Simulation → String
metrics_ns sim = elim sim.spec.metrics [
  | none ↦ default_metrics_ns
  | some mc ↦ unwrap_or mc.namespace default_metrics_ns
]

unfoldable pub metrics_svc_account : Simulation → String
metrics_svc_account sim = elim sim.spec.metrics [
  | none ↦ default_metrics_svc_account
  | some mc ↦ unwrap_or mc.service_account default_metrics_svc_account
]

unfoldable pub is_terminal : SimulationState → Bool
is_terminal finished = true
is_terminal failed = true
is_terminal _ = false

-- A simulation, and its root, as the owners of objects.
abbrev pub simulation_owner : Simulation → Owner
simulation_owner sim = record {
  api_version = "simkube.io/v1";
  kind = "Simulation";
  metadata = sim.metadata;
}

pub record SimulationRoot : Type 0 where
  pub metadata : ObjectMeta

abbrev pub root_owner : SimulationRoot → Owner
root_owner root = record {
  api_version = "simkube.io/v1";
  kind = "SimulationRoot";
  metadata = root.metadata;
}

unfoldable pub build_simulation_root : ⦃n : Naming⦄ → String → Simulation → Outcome SimulationRoot
build_simulation_root ⦃n⦄ name sim =
    build_global_object_meta name (n.name_any sim.metadata) (simulation_owner sim) >>= λ metadata.
    ok (record { metadata = metadata })
