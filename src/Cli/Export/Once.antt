-- ===== src/Cli/Export/Once.antt =====
-- An export is written once, by the right program.
use mathlib.Core.Path.{subst}
use simkube.Common.{
  ◌≡◌, ◌⊎◌, inl, inr, refl, sym, true, false, [], ◌∷◌, ◌++◌, Outcome, ok, err, panic, message,
  ◌>>>◌, arith, Bool-cases, bind-eq-ok,
}
use simkube.Core.Hash.{Hasher}
use simkube.Core.Kube.{Naming}
use simkube.Core.Storage
use simkube.Core.Storage.{Host, tracer, client, Backend, SkObjectStore, Writes, put}
use simkube.Store.Export
use simkube.Store.Export.{Codec}
use simkube.Store.TraceStore.{TraceStore}
use simkube.Cli.Export.{Args, Network, save, cmd, request}
use simkube.Tracer
use simkube.Tracer.{
  ExportRequest, Body, Response, success, failure, is_cloud, Writing, export_helper, respond,
}

module _ ⦃c : Codec⦄ ⦃body : Body⦄ ⦃b : Backend⦄ ⦃h : Hasher⦄ ⦃n : Naming⦄
    (answers : Host → SkObjectStore → Outcome (Unit {0})) (s : TraceStore) (args : Args)
    (ws : Writes c.Bytes) where
  -- The data that is exported for the arguments.
  abbrev pub exported : Outcome c.Bytes
  exported = Export.export s args.start_time args.end_time (request args).filters

  -- One write more: of the data, to the store for the path, by the tracer to a cloud provider, and by the
  -- client to any other store.
  abbrev pub WrittenOnce : Writes c.Bytes → Type 0
  WrittenOnce ws' =
      (data_ : c.Bytes) × (store : SkObjectStore) × (exported ≡ ok data_)
      × (Storage.new tracer args.output_path ≡ ok store)
      × (((is_cloud store.scheme ≡ true) × (ws' ≡ ws ++ (tracer, store, data_) ∷ []))
          ⊎ ((is_cloud store.scheme ≡ false)
              × (own : SkObjectStore) × (Storage.new client args.output_path ≡ ok own)
              × (ws' ≡ ws ++ (client, own, data_) ∷ [])))

  -- The answer of the tracer: a failure, that all is written, or the data for the client to write.
  abbrev Answered : Response c.Bytes × Writes c.Bytes → Type 0
  Answered r =
      (r ≡ (failure 500, ws))
      ⊎ ((data_ : c.Bytes) × (store : SkObjectStore) × (exported ≡ ok data_)
          × (Storage.new tracer args.output_path ≡ ok store)
          × (((is_cloud store.scheme ≡ true)
                × (r ≡ (success body.empty, ws ++ (tracer, store, data_) ∷ [])))
              ⊎ ((is_cloud store.scheme ≡ false) × (r ≡ (success data_, ws)))))

  answered : Answered (Tracer.export answers (request args) s ws)
  unfolding Tracer.export export_helper respond put request
  answered = made (Storage.new tracer args.output_path) refl
    where
      written :
          (store : SkObjectStore) (data_ : c.Bytes) (a : Outcome (Unit {0}))
          → Storage.new tracer args.output_path ≡ ok store
          → exported ≡ ok data_
          → is_cloud store.scheme ≡ true
          → answers tracer store ≡ a
          → Answered (Tracer.export answers (request args) s ws)
      written store data_ (ok u) made_ e cloud a =
          inr (data_, store, e, made_, inl (cloud, rw (made_, e, cloud, put, a) refl))
      written store data_ (err x) made_ e cloud a = inl (rw (made_, e, cloud, put, a) refl)
      written store data_ panic made_ e cloud a = inl (rw (made_, e, cloud, put, a) refl)

      encoded :
          (store : SkObjectStore) (x : Outcome c.Bytes)
          → Storage.new tracer args.output_path ≡ ok store
          → exported ≡ x
          → Answered (Tracer.export answers (request args) s ws)
      encoded store (ok data_) made_ e = elim (Bool-cases (is_cloud store.scheme)) [
        | inl cloud ↦ written store data_ (answers tracer store) made_ e cloud refl
        | inr not_cloud ↦
            inr (data_, store, e, made_, inr (not_cloud, rw (made_, e, not_cloud) refl))
      ]
      encoded store (err x) made_ e = inl (rw (made_, e) refl)
      encoded store panic made_ e = inl (rw (made_, e) refl)

      made :
          (x : Outcome SkObjectStore)
          → Storage.new tracer args.output_path ≡ x
          → Answered (Tracer.export answers (request args) s ws)
      made (ok store) e = encoded store exported e refl
      made (err x) e = inl (rw e refl)
      made panic e = inl (rw e refl)

  exported-nonempty : (data_ : c.Bytes) → exported ≡ ok data_ → body.is_empty data_ ≡ false
  unfolding Export.export
  exported-nonempty data_ e =
      let (events, _, last) =
        bind-eq-ok
          (Export.collect_events s args.start_time args.end_time (request args).filters true) _ e in
      body.is_empty-to_vec _ data_ last

  abbrev Good : Writing answers (Unit {0}) → Type 0
  Good r = ((r.0 ≡ ok tt) → WrittenOnce (r.1)) × ((r.1 ≡ ws) ⊎ WrittenOnce (r.1))

  nothing_written : (x : Outcome (Unit {0})) → (x ≡ ok tt → ⊥) → Good (x, ws)
  nothing_written x failed = (λ e. absurd (failed e), inl refl)

  saved :
      (r : Response c.Bytes × Writes c.Bytes) → Answered r → Good (save answers args (r.0) (r.1))
  unfolding save put
  saved r (inl e) =
      rw e
        (nothing_written (err (message "could not export trace data")) (λ f. absurd (ground arith)))
  saved r (inr (data_, store, e, made, inl (cloud, answer))) =
      let once : WrittenOnce (ws ++ (tracer, store, data_) ∷ []) =
        (data_, store, e, made, inl (cloud, refl)) in
      rw (answer, body.is_empty-empty) ((λ f. once), inr once)
  saved r (inr (data_, store, e, made, inr (not_cloud, answer))) =
      rw (answer, exported-nonempty data_ e) (own_made (Storage.new client args.output_path) refl)
    where
      own_run :
          (r : Writing answers (Unit {0}))
          → ((Storage.new client args.output_path, ws) >>> λ o ws. put answers client o data_ ws)
            ≡ r
          → Good r
          → Good
              ((Storage.new client args.output_path, ws) >>> λ o ws. put answers client o data_ ws)
      own_run r run g = subst Good (sym run) g

      own_written :
          (own : SkObjectStore) (a : Outcome (Unit {0}))
          → Storage.new client args.output_path ≡ ok own
          → answers client own ≡ a
          → Good
              ((Storage.new client args.output_path, ws) >>> λ o ws. put answers client o data_ ws)
      own_written own (ok u) f a =
          let once : WrittenOnce (ws ++ (client, own, data_) ∷ []) =
            (data_, store, e, made, inr (not_cloud, own, f, refl)) in
          own_run (ok tt, ws ++ (client, own, data_) ∷ []) (rw (f, put, a) refl)
            ((λ g. once), inr once)
      own_written own (err x) f a =
          own_run (err x, ws) (rw (f, put, a) refl)
            (nothing_written (err x) (λ g. absurd (ground arith)))
      own_written own panic f a =
          own_run (panic, ws) (rw (f, put, a) refl)
            (nothing_written panic (λ g. absurd (ground arith)))

      own_made :
          (x : Outcome SkObjectStore)
          → Storage.new client args.output_path ≡ x
          → Good
              ((Storage.new client args.output_path, ws) >>> λ o ws. put answers client o data_ ws)
      own_made (ok own) f = own_written own (answers client own) f refl
      own_made (err x) f =
          own_run (err x, ws) (rw f refl) (nothing_written (err x) (λ g. absurd (ground arith)))
      own_made panic f =
          own_run (panic, ws) (rw f refl) (nothing_written panic (λ g. absurd (ground arith)))

  lost :
      (r : Response c.Bytes × Writes c.Bytes) (x : Outcome (Unit {0}))
      → (x ≡ ok tt → ⊥)
      → Answered r
      → Good (x, r.1)
  lost r x failed (inl e) = rw e (nothing_written x failed)
  lost r x failed (inr (data_, store, e, made, inl (cloud, answer))) =
      rw answer ((λ f. absurd (failed f)), inr (data_, store, e, made, inl (cloud, refl)))
  lost r x failed (inr (data_, store, e, made, inr (not_cloud, answer))) =
      rw answer (nothing_written x failed)

  -- An export that succeeds has written the exported trace once more, and nothing else: by the tracer, if
  -- the path is one of a cloud provider, and else by the client. An export that does not succeed has
  -- written that, or nothing. The network may lose the request or the answer, and the stores may fail.
  pub cmd-WrittenOnce :
      (net : Network)
      → let r = cmd answers net s args ws in
        ((r.0 ≡ ok tt) → WrittenOnce (r.1)) × ((r.1 ≡ ws) ⊎ WrittenOnce (r.1))
  unfolding cmd
  cmd-WrittenOnce net = sent net.sends refl
    where
      received :
          (x : Outcome (Unit {0}))
          → net.sends ≡ ok tt
          → net.receives ≡ x
          → Good (cmd answers net s args ws)
      received (ok u) sent_ e =
          rw (sent_, e) (saved (Tracer.export answers (request args) s ws) answered)
      received (err x) sent_ e =
          rw (sent_, e)
            (lost (Tracer.export answers (request args) s ws) (err x) (λ f. absurd (ground arith))
              answered)
      received panic sent_ e =
          rw (sent_, e)
            (lost (Tracer.export answers (request args) s ws) panic (λ f. absurd (ground arith))
              answered)

      sent : (x : Outcome (Unit {0})) → net.sends ≡ x → Good (cmd answers net s args ws)
      sent (ok u) e = received net.receives e refl
      sent (err x) e = rw e (nothing_written (err x) (λ f. absurd (ground arith)))
      sent panic e = rw e (nothing_written panic (λ f. absurd (ground arith)))
