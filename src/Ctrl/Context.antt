-- ===== src/Ctrl/Context.antt =====
-- sk-ctrl/src/context.rs and the options of main.rs: the names of what belongs to a simulation.
pub mod Names
use simkube.Common.{Bool, Option, List, String}
use simkube.Common.Text.{append}
use simkube.Core.Kube.{Naming}
use simkube.Core.Simulation.{Simulation}

pub record Options : Type 0 where
  pub driver_secrets : Option (List String)
  pub use_cert_manager : Bool
  pub cert_manager_issuer : String
  pub verbosity : String

-- The client of the server is left out.
pub record SimulationContext : Type 0 where
  pub opts : Options
  pub name : String
  pub metaroot_name : String
  pub driver_name : String
  pub driver_svc : String
  pub prometheus_name : String
  pub prometheus_svc : String
  pub webhook_name : String

unfoldable pub new : Options → SimulationContext
new opts = record {
  opts = opts;
  name = "";
  metaroot_name = "";
  driver_name = "";
  driver_svc = "";
  prometheus_name = "";
  prometheus_svc = "";
  webhook_name = "";
}

-- `format!("sk-{}…", name)`
abbrev pub sk_name : String → String → String
sk_name name suffix = append "sk-" (append name suffix)

unfoldable pub with_sim : ⦃n : Naming⦄ → SimulationContext → Simulation → SimulationContext
with_sim ⦃n⦄ ctx sim =
    let name = n.name_any sim.metadata in
    record ctx {
      name = name;
      metaroot_name = sk_name name "-metaroot";
      driver_name = sk_name name "-driver";
      driver_svc = sk_name name "-driver-svc";
      prometheus_name = sk_name name "-prom";
      prometheus_svc = sk_name name "-prom-svc";
      webhook_name = sk_name name "-mutatepods";
    }
