-- ===== src/Cli/Export/Replays.antt =====
-- What the command writes can be replayed.
use simkube.Common.{
  ◌≡◌, inl, inr, ap, ◌∙◌, none, some, String, Outcome, ok, All, last?, last?-append,
}
use simkube.Common.Int.{ℤ}
use simkube.Core.Hash.{Hasher}
use simkube.Core.Kube.{Naming}
use simkube.Core.Storage.{Host, Backend, SkObjectStore, Writes, tracer, client}
use simkube.Cli.Export.{Args, Network, cmd, request}
use simkube.Cli.Export.Once.{WrittenOnce, cmd-WrittenOnce}
use simkube.Store.Export.{Codec, import, first_ts}
use simkube.Store.Export.Import.{import-export}
use simkube.Store.Export.Window.{upto, Untouched}
use simkube.Store.TraceStore.{TraceStore}
use simkube.Store.TraceStore.Replay.{is_live}
use simkube.Store.TraceStore.Sorted.{IsSorted}
use simkube.Tracer.{Body}

module _ ⦃c : Codec⦄ ⦃body : Body⦄ ⦃b : Backend⦄ ⦃h : Hasher⦄ ⦃n : Naming⦄
    (answers : Host → SkObjectStore → Outcome (Unit {0})) (s : TraceStore) (args : Args)
    (ws : Writes c.Bytes) where
  last_written :
      (ws' : Writes c.Bytes)
      → (w : WrittenOnce answers s args ws ws')
      → (host : Host) × (store : SkObjectStore) × (last? ws' ≡ some (host, store, w.0))
  last_written ws' (data_, store, e, made, inl (cloud, same)) =
      (tracer, store, ap last? same ∙ last?-append ws (tracer, store, data_))
  last_written ws' (data_, store, e, made, inr (not_cloud, own, f, same)) =
      (client, own, ap last? same ∙ last?-append ws (client, own, data_))

  -- After an export that succeeds, the last thing that was written is read back, at any time, as a trace with
  -- the tracer's configuration that starts at the start of the window and whose replay leaves live what the
  -- replay of the tracer's events up to the end of the window does. The timestamps of the tracer's events
  -- grow strictly, and the excluded namespaces have none of their objects.
  pub cmd-import :
      (net : Network) (now : ℤ)
      → IsSorted s.events
      → All (Untouched (request args).filters) s.events
      → (cmd answers net s args ws).0 ≡ ok tt
      → (host : Host) × (store : SkObjectStore) × (data_ : c.Bytes) × (t : TraceStore) × (last?
            ((cmd answers net s args ws).1)
          ≡ some (host, store, data_))
        × (import data_ none now ≡ ok t)
        × (t.config ≡ s.config)
        × (first_ts t.events now ≡ args.start_time)
        × ((k : String) → is_live t.events k ≡ is_live (upto args.end_time s.events) k)
  cmd-import net now sorted untouched done =
      let once = (cmd-WrittenOnce answers s args ws net).0 done in
      let (host, store, last) = last_written ((cmd answers net s args ws).1) once in
      let (t, read, config, first, owners, lives) =
        import-export s args.start_time args.end_time now (request args).filters once.0 sorted
          untouched (once.2) in
      (host, store, once.0, t, last, read, config, first, lives)
