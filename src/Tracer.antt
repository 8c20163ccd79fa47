-- ===== src/Tracer.antt =====
-- sk-tracer/src/main.rs and errors.rs: the tracer's answer to a request for an export.
use simkube.Common.{
  ℕ, ◌≡◌, Bool, true, false, String, Outcome, ok, err, panic, ◌>>>◌, if◌then◌else◌,
}
use simkube.Common.Int.{ℤ}
use simkube.Core.Hash.{Hasher}
use simkube.Core.Kube.{Naming}
use simkube.Core.Storage
use simkube.Core.Storage.{
  Host, tracer, ObjectStoreScheme, local, memory, amazon_s3, microsoft_azure, google_cloud_storage,
  http, other, Backend, SkObjectStore, Writes, put,
}
use simkube.Store.Event.{ExportFilters}
use simkube.Store.Export
use simkube.Store.Export.{Codec, Exported}
use simkube.Store.TraceStore.{TraceStore}

pub record ExportRequest : Type 0 where
  pub start_ts : ℤ
  pub end_ts : ℤ
  pub export_path : String
  pub filters : ExportFilters

-- The bodies of messages. An encoded trace has a byte at least.
pub record Body ⦃c : Codec⦄ : Type 0 where
  pub empty : c.Bytes
  pub is_empty : c.Bytes → Bool
  pub is_empty-empty : is_empty empty ≡ true
  pub is_empty-to_vec :
      (x : Exported) (bytes : c.Bytes) → c.to_vec x ≡ ok bytes → is_empty bytes ≡ false

pub data Response (Bytes : Type 0) : Type 0 where
  success : Bytes → Response Bytes
  failure : ℕ → Response Bytes

abbrev pub is_cloud : ObjectStoreScheme → Bool
is_cloud amazon_s3 = true
is_cloud google_cloud_storage = true
is_cloud microsoft_azure = true
is_cloud _ = false

module _ ⦃c : Codec⦄ ⦃body : Body⦄ ⦃b : Backend⦄ ⦃h : Hasher⦄ ⦃n : Naming⦄
    (answers : Host → SkObjectStore → Outcome (Unit {0})) where
  abbrev pub Writing : Type 0 → Type 0
  Writing A = Outcome A × Writes c.Bytes

  -- A cloud provider is written to from here; all else is left to the client.
  unfoldable pub export_helper :
      ExportRequest → TraceStore → SkObjectStore → Writes c.Bytes → Writing c.Bytes
  export_helper req trace_store object_store ws =
      (Export.export trace_store req.start_ts req.end_ts req.filters, ws) >>> λ trace_data ws.
      let written = put answers tracer object_store trace_data ws >>> λ u ws. (ok body.empty, ws) in
      if is_cloud object_store.scheme then written else (ok trace_data, ws)

  -- Every error becomes one of the tracer, with the status 500; a panic is caught by the server.
  unfoldable pub respond : Writing c.Bytes → Response c.Bytes × Writes c.Bytes
  respond (ok data_, ws) = (success data_, ws)
  respond (err e, ws) = (failure 500, ws)
  respond (panic, ws) = (failure 500, ws)

  unfoldable pub export :
      ExportRequest → TraceStore → Writes c.Bytes → Response c.Bytes × Writes c.Bytes
  unfolding export_helper respond
  export req trace_store ws = respond (
      (Storage.new tracer req.export_path, ws) >>> λ object_store ws.
      export_helper req trace_store object_store ws)
