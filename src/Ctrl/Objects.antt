-- ===== src/Ctrl/Objects.antt =====
-- sk-ctrl/src/objects.rs: the objects that the controller makes for a simulation.
pub mod Job
pub mod Wired
pub mod Owned
pub mod TracePath
use simkube.Common.{
  ℕ, ◌≡◌, Bool, true, false, Option, none, some, List, [], ◌∷◌, ◌++◌, map, String, Outcome, ok, err,
  panic, message, unwrap_or, or_else, ok_or, ◌>>=◌, ◌==◌, string_eq, if◌then◌else◌,
}
use simkube.Common.Int.{ℤ, pos}
use simkube.Common.BTreeMap
use simkube.Common.Map.{Map}
use simkube.Common.Text.{append}
use simkube.Core.Constants.{
  simulation_label_key, app_kubernetes_io_name_key, app_kubernetes_io_component_key,
  kubernetes_io_metadata_name_key, prom2parquet_prefix_key, driver_name_env_var,
}
use simkube.Core.Kube.{ObjectMeta, LabelSelector, Naming}
use simkube.Core.Simulation.{
  Simulation, SimulationRoot, SimulationMetricsConfig, PrometheusRemoteWrite, WriteRelabelConfigs,
  simulation_owner, root_owner, metrics_ns, metrics_svc_account,
}
use simkube.Core.Util.{
  build_containment_label_selector, build_global_object_meta, build_object_meta,
}
use simkube.Ctrl.CertManager.{driver_cert_name}
use simkube.Ctrl.Context.{SimulationContext}

-- The fields that are set; all others are left at their defaults.
pub record Namespace : Type 0 where
  pub metadata : ObjectMeta

unfoldable pub build_driver_namespace :
    ⦃n : Naming⦄ → SimulationContext → Simulation → Outcome Namespace
build_driver_namespace ctx sim =
    build_global_object_meta sim.spec.driver.namespace ctx.name (simulation_owner sim)
    >>= λ metadata. ok (record { metadata = metadata })

pub record PrometheusSpec : Type 0 where
  pub image : Option String
  pub pod_labels : Option (Map String String)
  pub external_labels : Option (Map String String)
  pub shards : Option ℤ
  pub pod_monitor_namespace_selector : Option LabelSelector
  pub pod_monitor_selector : Option LabelSelector
  pub service_monitor_namespace_selector : Option LabelSelector
  pub service_monitor_selector : Option LabelSelector
  pub remote_write : Option (List PrometheusRemoteWrite)
  pub service_account_name : Option String
  pub version : Option String

pub record Prometheus : Type 0 where
  pub metadata : ObjectMeta
  pub spec : PrometheusSpec

-- Defaults for a remote write endpoint, and a label on all that is written.
unfoldable pub configure_remote_write : String → PrometheusRemoteWrite → PrometheusRemoteWrite
configure_remote_write sim_name cfg = record cfg {
  send_exemplars = or_else cfg.send_exemplars (some false);
  send_native_histograms = or_else cfg.send_native_histograms (some false);
  remote_timeout = or_else cfg.remote_timeout (some "30s");
  write_relabel_configs = some (
      unwrap_or cfg.write_relabel_configs []
      ++ record {
        source_labels = some ("__name__" ∷ []);
        target_label = some "simkube_meta";
        replacement = some sim_name;
      }
        ∷ []);
}

-- A selector without expressions and labels matches everything.
abbrev default_selector : LabelSelector
default_selector = record { match_expressions = none; match_labels = none }

abbrev pub selector_for : String → Option (List String) → LabelSelector
selector_for key none = default_selector
selector_for key (some names) = build_containment_label_selector key names

unfoldable pub build_prometheus :
    ⦃n : Naming⦄
    → String
    → Simulation
    → SimulationRoot
    → SimulationMetricsConfig
    → Outcome Prometheus
build_prometheus ⦃n⦄ name sim metaroot mc =
    let sim_name = n.name_any sim.metadata in
    build_object_meta (metrics_ns sim) name sim_name (root_owner metaroot) >>= λ metadata.
    ok (record {
      metadata = metadata;
      spec = record {
        image = some "quay.io/prometheus/prometheus:v2.44.0";
        pod_labels = some (
            BTreeMap.insert (BTreeMap.insert [] simulation_label_key sim_name)
              app_kubernetes_io_component_key "prometheus");
        external_labels = some ((prom2parquet_prefix_key, sim_name) ∷ []);
        shards = or_else mc.prometheus_shards (some (pos 1));
        pod_monitor_namespace_selector =
            some (selector_for kubernetes_io_metadata_name_key mc.pod_monitor_namespaces);
        pod_monitor_selector = some (selector_for app_kubernetes_io_name_key mc.pod_monitor_names);
        service_monitor_namespace_selector =
            some (selector_for kubernetes_io_metadata_name_key mc.service_monitor_namespaces);
        service_monitor_selector =
            some (selector_for app_kubernetes_io_name_key mc.service_monitor_names);
        remote_write = some (map (configure_remote_write sim_name) mc.remote_write_configs);
        service_account_name = some (metrics_svc_account sim);
        version = some "2.44.0";
      };
    })

pub record ServiceReference : Type 0 where
  pub namespace : String
  pub name : String
  pub port : Option ℤ

pub record RuleWithOperations : Type 0 where
  pub api_groups : Option (List String)
  pub api_versions : Option (List String)
  pub operations : Option (List String)
  pub resources : Option (List String)
  pub scope : Option String

pub record MutatingWebhook : Type 0 where
  pub admission_review_versions : List String
  pub service : Option ServiceReference
  pub failure_policy : Option String
  pub name : String
  pub side_effects : String
  pub rules : Option (List RuleWithOperations)

pub record MutatingWebhookConfiguration : Type 0 where
  pub metadata : ObjectMeta
  pub webhooks : Option (List MutatingWebhook)

abbrev pub driver_webhook : SimulationContext → Simulation → MutatingWebhook
driver_webhook ctx sim = record {
  admission_review_versions = "v1" ∷ [];
  service = some (record {
    namespace = sim.spec.driver.namespace;
    name = ctx.driver_svc;
    port = some sim.spec.driver.port;
  });
  failure_policy = some "Ignore";
  name = "mutatepods.simkube.io";
  side_effects = "None";
  rules = some (
      record {
        api_groups = some ("" ∷ []);
        api_versions = some ("v1" ∷ []);
        operations = some ("CREATE" ∷ []);
        resources = some ("pods" ∷ []);
        scope = some "Namespaced";
      }
      ∷ []);
}

abbrev pub inject_key : String
inject_key = "cert-manager.io/inject-ca-from"

unfoldable pub build_mutating_webhook :
    ⦃n : Naming⦄
    → SimulationContext
    → Simulation
    → SimulationRoot
    → Outcome MutatingWebhookConfiguration
build_mutating_webhook ctx sim metaroot =
    build_global_object_meta ctx.webhook_name ctx.name (root_owner metaroot) >>= λ metadata.
    ok (record {
      metadata =
          if ctx.opts.use_cert_manager
          then record metadata {
            annotations = some (
                BTreeMap.insert (unwrap_or metadata.annotations []) inject_key
                  (append sim.spec.driver.namespace (append "/" driver_cert_name)));
          }
          else metadata;
      webhooks = some (driver_webhook ctx sim ∷ []);
    })

pub record ServicePort : Type 0 where
  pub port : ℤ
  pub target_port : Option ℤ

pub record Service : Type 0 where
  pub metadata : ObjectMeta
  pub ports : Option (List ServicePort)
  pub selector : Option (Map String String)

unfoldable pub build_driver_service :
    ⦃n : Naming⦄ → SimulationContext → Simulation → SimulationRoot → Outcome Service
build_driver_service ctx sim metaroot =
    build_object_meta sim.spec.driver.namespace ctx.driver_svc ctx.name (root_owner metaroot)
    >>= λ metadata. ok (record {
      metadata = metadata;
      ports =
          some
            (record { port = sim.spec.driver.port; target_port = some sim.spec.driver.port } ∷ []);
      selector = some (("job-name", ctx.driver_name) ∷ []);
    })
