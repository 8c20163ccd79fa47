-- ===== src/Ctrl/Cluster.antt =====
-- sk-ctrl/src/controller.rs: what the cluster holds of a simulation, and what the controller may do.
use simkube.Common.{ℕ, Bool, Option, List, String, Outcome}
use simkube.Common.Int.{ℤ}
use simkube.Core.Hooks.{Shell}
use simkube.Core.Lease.{Lease, Commit}
use simkube.Core.Util.{Owner}
use simkube.Core.Simulation.{SimulationStatus}

pub record Condition : Type 0 where
  pub type_ : String
  pub last_transition_time : Option ℤ

pub record JobStatus : Type 0 where
  pub start_time : Option ℤ
  pub conditions : Option (List Condition)

-- What the cluster holds of one simulation: whether the objects with its names exist, the status of
-- the driver's job and of Prometheus, the names of its secrets, and the lease.
pub record Cluster : Type 0 where
  pub metaroot : Bool
  pub lease : Option Lease
  pub namespaces : List String
  pub prometheus : Option (Option ℤ)
  pub service : Bool
  pub certificate : Bool
  pub secrets : List String
  pub webhook : Bool
  pub job : Option (Option JobStatus)
  pub status : Option SimulationStatus

pub data Write : Type 0 where
  create_metaroot create_namespace create_prometheus create_service create_certificate : Write
  create_webhook create_job patch_status delete_metaroot : Write

-- The server's answers to writes, what building the job gives, and the rest of the surroundings.
pub record Surroundings : Type 0 where
  pub accepts : Write → Outcome (Unit {0})
  pub commit : Commit
  pub job_built : Outcome (Unit {0})
  pub shell : Shell
  pub use_cert_manager : Bool
  pub metaroot : Owner
  pub ctrl_ns : String
  pub now : ℤ

pub data Action : Type 0 where
  requeue : ℕ → Action
  await_change : Action
