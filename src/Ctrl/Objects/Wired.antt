-- ===== src/Ctrl/Objects/Wired.antt =====
-- The objects of a simulation refer to one another by the right names.
use simkube.Common.{
  ◌≡◌, refl, ap, sym, ◌∙◌, Bool, true, false, Option, none, some, List, [], ◌∷◌, String, Outcome,
  ok, bind-eq-ok, ok_injective, arith, if◌then◌else◌, unwrap_or, string_eq,
}
use text.Mathlib.TextEquality.{eq_iff}
use simkube.Common.BTreeMap
use simkube.Common.BTreeMap.{get-insert}
use simkube.Common.Int.{ℤ}
use simkube.Common.Map
use simkube.Common.Text.{append}
use simkube.Core.Constants.{simulation_label_key}
use simkube.Core.Kube.{ObjectMeta, Naming}
use simkube.Core.Simulation.{Simulation, SimulationRoot, root_owner}
use simkube.Core.Util.{build_object_meta, build_global_object_meta}
use simkube.Ctrl.CertManager.{PartialCertificate, build_certificate, driver_cert_name}
use simkube.Ctrl.Context.{SimulationContext}
use simkube.Ctrl.Objects.{
  Service, MutatingWebhook, MutatingWebhookConfiguration, build_driver_service,
  build_mutating_webhook, inject_key, driver_webhook,
}
use simkube.Ctrl.Objects.Job.{Urls, Job, build_driver_job}
use simkube.Ctrl.Objects.Owned.{service-IsOf, job-IsOf, certificate-IsOf}

-- What the objects say of one another.
abbrev pub IsWired :
    SimulationContext → Service → MutatingWebhookConfiguration → PartialCertificate → Job → Type 0
IsWired ctx svc config cert job =
    (ns : String) × (name : String) × (port : ℤ) × ((svc.metadata.namespace ≡ some ns)
      × (svc.metadata.name ≡ some name)
      × (svc.ports ≡ some (record { port = port; target_port = some port } ∷ [])))
    × ((hook : MutatingWebhook) × (config.webhooks ≡ some (hook ∷ []))
        × (hook.service ≡ some (record { namespace = ns; name = name; port = some port })))
    × ((job_name : String) × (svc.selector ≡ some (("job-name", job_name) ∷ []))
        × (job.metadata.name ≡ some job_name)
        × (job.metadata.namespace ≡ some ns))
    × ((cert_name : String) × (cert.metadata.name ≡ some cert_name)
        × (cert.metadata.namespace ≡ some ns)
        × (cert.spec.dns_names ≡ some (append name (append "." (append ns ".svc")) ∷ []))
        × (ctx.opts.use_cert_manager ≡ true
            → Map.get (unwrap_or config.metadata.annotations []) inject_key
              ≡ some (append ns (append "/" cert_name))))
    × (cert.spec.secret_template
        ≡ some
            (record { annotations = none; labels = some ((simulation_label_key, ctx.name) ∷ []) }))

injected :
    (b : Bool) (m : ObjectMeta) (v : String)
    → b ≡ true
    → Map.get
        (unwrap_or
          (if b
            then record m {
              annotations = some (BTreeMap.insert (unwrap_or m.annotations []) inject_key v);
            }
            else m).annotations
          [])
        inject_key
      ≡ some v
injected true m v h = ground (
  arith,
  get-insert (unwrap_or m.annotations []) inject_key inject_key v,
  eq_iff inject_key inject_key,
)
injected false m v h = absurd (ground arith)

module _ ⦃n : Naming⦄ (ctx : SimulationContext) (sim : Simulation) (root : SimulationRoot) where
  -- What a service, a webhook and a certificate hold beside their metadata.
  pub service_fields :
      (svc : Service)
      → build_driver_service ctx sim root ≡ ok svc
      → (svc.ports
          ≡ some (
              record { port = sim.spec.driver.port; target_port = some sim.spec.driver.port } ∷ []))
        × (svc.selector ≡ some (("job-name", ctx.driver_name) ∷ []))
  unfolding build_driver_service
  service_fields svc e =
      let (m, _, last) =
        bind-eq-ok
          (build_object_meta sim.spec.driver.namespace ctx.driver_svc ctx.name (root_owner root)) _
          e in
      (ground (arith, last), ground (arith, last))

  webhook_fields :
      (config : MutatingWebhookConfiguration)
      → build_mutating_webhook ctx sim root ≡ ok config
      → (config.webhooks ≡ some (driver_webhook ctx sim ∷ []))
        × (ctx.opts.use_cert_manager ≡ true
            → Map.get (unwrap_or config.metadata.annotations []) inject_key
              ≡ some (append sim.spec.driver.namespace (append "/" driver_cert_name)))
  unfolding build_mutating_webhook
  webhook_fields config e =
      let (m, _, last) =
        bind-eq-ok (build_global_object_meta ctx.webhook_name ctx.name (root_owner root)) _ e in
      let same = ok_injective _ config last in
      (
        ap (λ c. c.webhooks) (sym same),
        λ used.
            ap (λ c. Map.get (unwrap_or c.metadata.annotations []) inject_key) (sym same)
            ∙ injected ctx.opts.use_cert_manager m
                (append sim.spec.driver.namespace (append "/" driver_cert_name)) used,
      )

  certificate_fields :
      (cert : PartialCertificate)
      → build_certificate ctx sim root ≡ ok cert
      → (cert.spec.dns_names
          ≡ some
              (append ctx.driver_svc (append "." (append sim.spec.driver.namespace ".svc")) ∷ []))
        × (cert.spec.secret_template
            ≡ some (record {
              annotations = none;
              labels = some ((simulation_label_key, ctx.name) ∷ []);
            }))
  unfolding build_certificate
  certificate_fields cert e =
      let (m, _, last) =
        bind-eq-ok
          (build_object_meta sim.spec.driver.namespace driver_cert_name ctx.name (root_owner root))
          _ e in
      let same = ok_injective _ cert last in
      (ap (λ c. c.spec.dns_names) (sym same), ap (λ c. c.spec.secret_template) (sym same))

  -- The webhook calls the service of the driver, by its name, in its namespace and at its port. The
  -- service leads to the pods of the driver's job, which is in the same namespace. The certificate is for
  -- the name of the service, its secret has the label by which the controller looks for it, and with the
  -- certificate manager the webhook takes its authority from that certificate.
  pub objects-Wired :
      ⦃urls : Urls⦄ (secrets : Option (List String)) (cert_secret ctrl_ns : String)
      (account : Outcome String) (svc : Service) (config : MutatingWebhookConfiguration)
      (cert : PartialCertificate) (job : Job)
      → build_driver_service ctx sim root ≡ ok svc
      → build_mutating_webhook ctx sim root ≡ ok config
      → build_certificate ctx sim root ≡ ok cert
      → build_driver_job ctx sim secrets cert_secret ctrl_ns account ≡ ok job
      → IsWired ctx svc config cert job
  objects-Wired secrets cert_secret ctrl_ns account svc config cert job made_svc made_config
        made_cert made_job =
      let (svc_ns, svc_name, _, _, _, _, _, _) = service-IsOf ctx sim root svc made_svc in
      let (job_ns, job_name, _, _, _, _, _, _) =
        job-IsOf ctx sim secrets cert_secret ctrl_ns account job made_job in
      let (cert_ns, cert_name, _, _, _, _, _, _) = certificate-IsOf ctx sim root cert made_cert in
      let (ports, selector) = service_fields svc made_svc in
      let (hooks, inject) = webhook_fields config made_config in
      let (dns, template) = certificate_fields cert made_cert in
      (
        sim.spec.driver.namespace,
        ctx.driver_svc,
        sim.spec.driver.port,
        (svc_ns, svc_name, ports),
        (driver_webhook ctx sim, hooks, refl),
        (ctx.driver_name, selector, job_name, job_ns),
        (driver_cert_name, cert_name, cert_ns, dns, inject),
        template,
      )
