-- ===== src/Cli/Export.antt =====
-- sk-cli/src/export.rs: the command that asks the tracer for an export.
pub mod Once
pub mod Replays
use simkube.Common.{
  ℕ, Bool, true, false, List, [], ◌∷◌, ◌++◌, String, Outcome, ok, err, panic, message, ◌>>>◌,
  if◌then◌else◌,
}
use simkube.Common.Int.{ℤ}
use simkube.Core.Hash.{Hasher}
use simkube.Core.Kube.{Naming}
use simkube.Core.Storage
use simkube.Core.Storage.{Host, client, Backend, SkObjectStore, Writes, put}
use simkube.Store.Export.{Codec}
use simkube.Store.Event.{ExportFilters}
use simkube.Store.TraceStore.{TraceStore}
use simkube.Tracer
use simkube.Tracer.{ExportRequest, Body, Response, success, failure, Writing}

-- The address of the tracer is left to the network.
pub record Args : Type 0 where
  pub start_time : ℤ
  pub end_time : ℤ
  pub excluded_namespaces : List String
  pub output_path : String

-- Whether the request reaches the tracer, and its answer the client.
pub record Network : Type 0 where
  pub sends : Outcome (Unit {0})
  pub receives : Outcome (Unit {0})

unfoldable pub request : Args → ExportRequest
request args = record {
  start_ts = args.start_time;
  end_ts = args.end_time;
  export_path = args.output_path;
  filters = record {
    excluded_namespaces = args.excluded_namespaces;
    excluded_labels = [];
    exclude_daemonsets = true;
  };
}

module _ ⦃c : Codec⦄ ⦃body : Body⦄ ⦃b : Backend⦄ ⦃h : Hasher⦄ ⦃n : Naming⦄
    (answers : Host → SkObjectStore → Outcome (Unit {0})) where
  -- Data that comes back was not written by the tracer.
  unfoldable pub save : Args → Response c.Bytes → Writes c.Bytes → Writing answers (Unit {0})
  save args (success data_) ws =
      let stored = (Storage.new client args.output_path, ws) >>> λ object_store ws.
      put answers client object_store data_ ws in
      if body.is_empty data_ then (ok tt, ws) else stored
  save args (failure status) ws = (err (message "could not export trace data"), ws)

  unfoldable pub cmd : Network → TraceStore → Args → Writes c.Bytes → Writing answers (Unit {0})
  unfolding save request
  cmd net trace_store args ws = (net.sends, ws) >>> λ u ws.
      let answer = Tracer.export answers (request args) trace_store ws in
      (net.receives, answer.1) >>> λ u ws. save args (answer.0) ws
