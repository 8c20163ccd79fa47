-- ===== src/Ctrl/Objects/Owned.antt =====
-- Names and owners of the objects that the controller makes.
use simkube.Common.{
  ◌≡◌, refl, Bool, true, false, Option, none, some, List, [], ◌∷◌, String, Outcome, ok, bind-eq-ok,
  ok_injective, arith, if◌then◌else◌,
}
use simkube.Common.Map.{Map}
use simkube.Core.Kube.{ObjectMeta, OwnerReference, Naming}
use simkube.Core.Simulation.{
  Simulation, SimulationRoot, SimulationMetricsConfig, simulation_owner, root_owner, metrics_ns,
}
use simkube.Core.Util.{
  Owner, build_object_meta_helper, build_object_meta, build_global_object_meta, add_common_metadata,
}
use simkube.Ctrl.CertManager.{PartialCertificate, build_certificate, driver_cert_name}
use simkube.Ctrl.Context.{SimulationContext}
use simkube.Ctrl.Objects.{
  Namespace, Service, MutatingWebhookConfiguration, Prometheus, build_driver_namespace,
  build_driver_service, build_mutating_webhook, build_prometheus,
}
use simkube.Ctrl.Objects.Job.{Urls, Job, build_driver_job, build_local_trace_volume}

-- The object has this name and namespace, and one owner: this one.
abbrev pub IsOf : Option String → String → Owner → ObjectMeta → Type 0
IsOf ns name owner m =
    (m.namespace ≡ ns)
    × (m.name ≡ some name)
    × (uid : String) × (owner.metadata.uid ≡ some uid)
    × (ref : OwnerReference) × (m.owner_references ≡ some (ref ∷ []))
    × (ref.kind ≡ owner.kind)
    × (ref.uid ≡ uid)

annotated-IsOf :
    (b : Bool) (ns : Option String) (name : String) (owner : Owner) (m : ObjectMeta)
    (a : Option (Map String String))
    → IsOf ns name owner m
    → IsOf ns name owner (if b then record m { annotations = a } else m)
annotated-IsOf true ns name owner m a h = h
annotated-IsOf false ns name owner m a h = h

module _ ⦃n : Naming⦄ where
  helper-IsOf :
      (ns : Option String) (name sim_name : String) (owner : Owner) (m : ObjectMeta)
      → build_object_meta_helper ns name sim_name owner ≡ ok m
      → IsOf ns name owner m
  unfolding build_object_meta_helper add_common_metadata
  helper-IsOf ns name sim_name owner m e = go owner.metadata.uid refl
    where
      go : (u : Option String) → owner.metadata.uid ≡ u → IsOf ns name owner m
      go none h = absurd (ground arith)
      go (some uid) h = (
        ground arith,
        ground arith,
        uid,
        h,
        record {
          api_version = owner.api_version;
          kind = owner.kind;
          name = n.name_any owner.metadata;
          uid = uid;
          block_owner_deletion = some true;
        },
        ground arith,
        refl,
        refl,
      )

  namespaced-IsOf :
      (ns name sim_name : String) (owner : Owner) (m : ObjectMeta)
      → build_object_meta ns name sim_name owner ≡ ok m
      → IsOf (some ns) name owner m
  unfolding build_object_meta
  namespaced-IsOf ns name sim_name owner m e = helper-IsOf (some ns) name sim_name owner m e

  global-IsOf :
      (name sim_name : String) (owner : Owner) (m : ObjectMeta)
      → build_global_object_meta name sim_name owner ≡ ok m
      → IsOf none name owner m
  unfolding build_global_object_meta
  global-IsOf name sim_name owner m e = helper-IsOf none name sim_name owner m e

  pub namespace-IsOf :
      (ctx : SimulationContext) (sim : Simulation) (obj : Namespace)
      → build_driver_namespace ctx sim ≡ ok obj
      → IsOf none sim.spec.driver.namespace (simulation_owner sim) obj.metadata
  unfolding build_driver_namespace
  namespace-IsOf ctx sim obj e =
      let (m, built, last) =
        bind-eq-ok
          (build_global_object_meta sim.spec.driver.namespace ctx.name (simulation_owner sim)) _
          e in
      let same = ok_injective _ obj last in
      rw (← same) (global-IsOf sim.spec.driver.namespace ctx.name (simulation_owner sim) m built)

  pub service-IsOf :
      (ctx : SimulationContext) (sim : Simulation) (root : SimulationRoot) (obj : Service)
      → build_driver_service ctx sim root ≡ ok obj
      → IsOf (some sim.spec.driver.namespace) ctx.driver_svc (root_owner root) obj.metadata
  unfolding build_driver_service
  service-IsOf ctx sim root obj e =
      let (m, built, last) =
        bind-eq-ok
          (build_object_meta sim.spec.driver.namespace ctx.driver_svc ctx.name (root_owner root)) _
          e in
      let same = ok_injective _ obj last in
      rw (← same) (
        namespaced-IsOf sim.spec.driver.namespace ctx.driver_svc ctx.name (root_owner root) m built)

  pub prometheus-IsOf :
      (name : String) (sim : Simulation) (root : SimulationRoot) (mc : SimulationMetricsConfig)
      (obj : Prometheus)
      → build_prometheus name sim root mc ≡ ok obj
      → IsOf (some (metrics_ns sim)) name (root_owner root) obj.metadata
  unfolding build_prometheus
  prometheus-IsOf name sim root mc obj e =
      let (m, built, last) =
        bind-eq-ok
          (build_object_meta (metrics_ns sim) name (n.name_any sim.metadata) (root_owner root)) _
          e in
      let same = ok_injective _ obj last in
      rw (← same)
        (namespaced-IsOf (metrics_ns sim) name (n.name_any sim.metadata) (root_owner root) m built)

  pub certificate-IsOf :
      (ctx : SimulationContext) (sim : Simulation) (root : SimulationRoot)
      (obj : PartialCertificate)
      → build_certificate ctx sim root ≡ ok obj
      → IsOf (some sim.spec.driver.namespace) driver_cert_name (root_owner root) obj.metadata
  unfolding build_certificate
  certificate-IsOf ctx sim root obj e =
      let (m, built, last) =
        bind-eq-ok
          (build_object_meta sim.spec.driver.namespace driver_cert_name ctx.name (root_owner root))
          _ e in
      let same = ok_injective _ obj last in
      rw (← same) (
        namespaced-IsOf sim.spec.driver.namespace driver_cert_name ctx.name (root_owner root) m
          built)

  pub webhook-IsOf :
      (ctx : SimulationContext) (sim : Simulation) (root : SimulationRoot)
      (obj : MutatingWebhookConfiguration)
      → build_mutating_webhook ctx sim root ≡ ok obj
      → IsOf none ctx.webhook_name (root_owner root) obj.metadata
  unfolding build_mutating_webhook
  webhook-IsOf ctx sim root obj e =
      let (m, built, last) =
        bind-eq-ok (build_global_object_meta ctx.webhook_name ctx.name (root_owner root)) _ e in
      let same = ok_injective _ obj last in
      let known = global-IsOf ctx.webhook_name ctx.name (root_owner root) m built in
      rw (← same)
        (annotated-IsOf ctx.opts.use_cert_manager none ctx.webhook_name (root_owner root) m _ known)

  pub job-IsOf :
      ⦃urls : Urls⦄ (ctx : SimulationContext) (sim : Simulation) (secrets : Option (List String))
      (cert ctrl_ns : String) (account : Outcome String) (obj : Job)
      → build_driver_job ctx sim secrets cert ctrl_ns account ≡ ok obj
      → IsOf (some sim.spec.driver.namespace) ctx.driver_name (simulation_owner sim) obj.metadata
  unfolding build_driver_job
  job-IsOf ctx sim secrets cert ctrl_ns account obj e =
      let (local, _, e1) = bind-eq-ok (build_local_trace_volume sim.spec.driver.trace_path) _ e in
      let (acc, _, e2) = bind-eq-ok account _ e1 in
      let (m, built, last) =
        bind-eq-ok
          (build_object_meta sim.spec.driver.namespace ctx.driver_name ctx.name
            (simulation_owner sim))
          _ e2 in
      let same = ok_injective _ obj last in
      rw (← same) (
        namespaced-IsOf sim.spec.driver.namespace ctx.driver_name ctx.name (simulation_owner sim) m
          built)

  -- The service, the webhook, the certificate and Prometheus are owned by the root of the simulation, so
  -- that they go when the clean-up deletes the root; the driver's namespace and job are owned by the
  -- simulation itself and stay. Each has the name and the namespace by which the controller looks for it.
  pub objects-IsOf :
      ⦃urls : Urls⦄ (ctx : SimulationContext) (sim : Simulation) (root : SimulationRoot)
      (mc : SimulationMetricsConfig) (secrets : Option (List String)) (cert_secret ctrl_ns : String)
      (account : Outcome String) (ns : Namespace) (svc : Service)
      (config : MutatingWebhookConfiguration) (cert : PartialCertificate) (prom : Prometheus)
      (job : Job)
      → build_driver_namespace ctx sim ≡ ok ns
      → build_driver_service ctx sim root ≡ ok svc
      → build_mutating_webhook ctx sim root ≡ ok config
      → build_certificate ctx sim root ≡ ok cert
      → build_prometheus ctx.prometheus_name sim root mc ≡ ok prom
      → build_driver_job ctx sim secrets cert_secret ctrl_ns account ≡ ok job
      → IsOf (some sim.spec.driver.namespace) ctx.driver_svc (root_owner root) svc.metadata
        × IsOf none ctx.webhook_name (root_owner root) config.metadata
        × IsOf (some sim.spec.driver.namespace) driver_cert_name (root_owner root) cert.metadata
        × IsOf (some (metrics_ns sim)) ctx.prometheus_name (root_owner root) prom.metadata
        × IsOf none sim.spec.driver.namespace (simulation_owner sim) ns.metadata
        × IsOf (some sim.spec.driver.namespace) ctx.driver_name (simulation_owner sim) job.metadata
  objects-IsOf ctx sim root mc secrets cert_secret ctrl_ns account ns svc config cert prom job a b c
        d e f =
      (
        service-IsOf ctx sim root svc b,
        webhook-IsOf ctx sim root config c,
        certificate-IsOf ctx sim root cert d,
        prometheus-IsOf ctx.prometheus_name sim root mc prom e,
        namespace-IsOf ctx sim ns a,
        job-IsOf ctx sim secrets cert_secret ctrl_ns account job f,
      )
