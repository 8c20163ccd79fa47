-- ===== src/Core/Constants.antt =====
-- sk-core/src/constants.rs: the names and delays that the models use.
use simkube.Common.{ℕ, String}

abbrev pub app_kubernetes_io_name_key : String
app_kubernetes_io_name_key = "app.kubernetes.io/name"

abbrev pub lifetime_annotation_key : String
lifetime_annotation_key = "simkube.io/lifetime-seconds"

abbrev pub orig_namespace_annotation_key : String
orig_namespace_annotation_key = "simkube.io/original-namespace"

abbrev pub simulation_label_key : String
simulation_label_key = "simkube.io/simulation"

abbrev pub virtual_label_key : String
virtual_label_key = "simkube.io/virtual"

abbrev pub virtual_node_toleration_key : String
virtual_node_toleration_key = "kwok-provider"

abbrev pub default_metrics_ns : String
default_metrics_ns = "monitoring"

abbrev pub default_metrics_svc_account : String
default_metrics_svc_account = "prometheus-k8s"

abbrev pub kubernetes_io_metadata_name_key : String
kubernetes_io_metadata_name_key = "kubernetes.io/metadata.name"

abbrev pub app_kubernetes_io_component_key : String
app_kubernetes_io_component_key = "app.kubernetes.io/component"

abbrev pub prom2parquet_prefix_key : String
prom2parquet_prefix_key = "prom2parquet_prefix"

abbrev pub driver_name_env_var : String
driver_name_env_var = "DRIVER_NAME"

abbrev pub driver_admission_webhook_port : String
driver_admission_webhook_port = "8888"

abbrev pub sk_lease_name : String
sk_lease_name = "sk-lease"

abbrev pub retry_delay_seconds : ℕ
retry_delay_seconds = 5

abbrev pub error_retry_delay_seconds : ℕ
error_retry_delay_seconds = 30
