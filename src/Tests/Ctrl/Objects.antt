-- ===== src/Tests/Ctrl/Objects.antt =====
-- Runs of the builders of objects, and of the options of the driver.
use simkube.Common.{
  ◌≡◌, ◌↔◌, Option, if◌then◌else◌, refl, ap, sym, arith, ◌⊎◌, List, Bool, Outcome, err, panic,
  unwrap_or, true, false, none, some, [], ◌∷◌, String, ok, ◌==◌, string_eq,
}
use simkube.Common.Int.{pos}
use simkube.Core.Simulation.{SimulationRoot, metrics_ns, simulation_owner, root_owner}
use simkube.Core.Kube.{default_meta}
use simkube.Core.Util.{
  build_object_meta, build_object_meta_helper, build_global_object_meta, add_common_metadata,
}
use simkube.Ctrl.CertManager.{PartialCertificate, build_certificate}
use simkube.Ctrl.Context
use simkube.Ctrl.Context.{SimulationContext, with_sim}
use simkube.Ctrl.Objects.{
  Namespace, Prometheus, Service, MutatingWebhookConfiguration, build_driver_namespace,
  build_prometheus, build_driver_service, build_mutating_webhook,
}
use simkube.Ctrl.Objects.Job.{
  Urls, Job, Volume, Container, VolumeMount, build_driver_job, build_local_trace_volume,
  build_driver_args, is_absolute,
}
use simkube.Ctrl.Objects.Owned.{IsOf, objects-IsOf}
use simkube.Ctrl.Objects.TracePath.{
  HasCertificate, HasFile, IsFile, IsElsewhere, build_driver_job-paths,
}
use simkube.Ctrl.Objects.Wired.{IsWired, objects-Wired}
use simkube.Common.Map
use simkube.Common.Text.{append}
use simkube.Driver.Main.{Options, Clap, arguments_of, parse}
use simkube.Driver.Main.Arguments.{service-reaches_driver}
use simkube.Fixtures.{test_naming}
use simkube.Tests.Ctrl.{no_metrics, sim}

-- The names and the objects of a simulation.
abbrev ctx : SimulationContext
unfolding Context.new with_sim
ctx =
    with_sim
      (Context.new (record {
        driver_secrets = none;
        use_cert_manager = true;
        cert_manager_issuer = "issuer";
        verbosity = "info";
      }))
      sim

abbrev root : SimulationRoot
root = record { metadata = record default_meta { name = some "root"; uid = some "7" } }

-- Every URL is a local file here, at one path.
trace_is_absolute : (p : String) → some (some "/data/trace") ≡ some (some p) → is_absolute p ≡ true
unfolding is_absolute
trace_is_absolute p e = ap (λ o. is_absolute (unwrap_or (unwrap_or o none) "/")) (sym e)

instance abbrev test_urls : Urls
test_urls = record {
  Url = String;
  parse = λ s. ok s;
  is_local = λ s. ok true;
  to_file_path = λ s. some (some "/data/trace");
  to_file_path_absolute = λ u p e. trace_is_absolute p e;
}

abbrev is_ok {ℓ} : {A : Type ℓ} → Outcome A → Bool
is_ok (ok a) = true
is_ok _ = false

from_ok {ℓ} : {A : Type ℓ} (r : Outcome A) → is_ok r ≡ true → A
from_ok (ok a) e = a
from_ok (err x) e = absurd (ground arith)
from_ok panic e = absurd (ground arith)

made {ℓ} : {A : Type ℓ} (r : Outcome A) (e : is_ok r ≡ true) → r ≡ ok (from_ok r e)
unfolding from_ok
made (ok a) e = refl
made (err x) e = absurd (ground arith)
made panic e = absurd (ground arith)

abbrev the_job : Outcome Job
the_job = build_driver_job ctx sim none "cert" "simkube" (ok "account")

makes_namespace : is_ok (build_driver_namespace ctx sim) ≡ true
unfolding build_driver_namespace build_global_object_meta build_object_meta_helper
    add_common_metadata
makes_namespace = refl

makes_service : is_ok (build_driver_service ctx sim root) ≡ true
unfolding build_driver_service build_object_meta build_object_meta_helper add_common_metadata
makes_service = refl

makes_webhook : is_ok (build_mutating_webhook ctx sim root) ≡ true
unfolding build_mutating_webhook build_global_object_meta build_object_meta_helper
    add_common_metadata
makes_webhook = refl

makes_certificate : is_ok (build_certificate ctx sim root) ≡ true
unfolding build_certificate build_object_meta build_object_meta_helper add_common_metadata
makes_certificate = refl

makes_prometheus : is_ok (build_prometheus ctx.prometheus_name sim root no_metrics) ≡ true
unfolding build_prometheus build_object_meta build_object_meta_helper add_common_metadata
makes_prometheus = refl

makes_job : is_ok the_job ≡ true
unfolding build_driver_job build_local_trace_volume build_object_meta build_object_meta_helper
    add_common_metadata
makes_job = refl

abbrev ns : Namespace
ns = from_ok (build_driver_namespace ctx sim) makes_namespace

abbrev svc : Service
svc = from_ok (build_driver_service ctx sim root) makes_service

abbrev config : MutatingWebhookConfiguration
config = from_ok (build_mutating_webhook ctx sim root) makes_webhook

abbrev cert : PartialCertificate
cert = from_ok (build_certificate ctx sim root) makes_certificate

abbrev prom : Prometheus
prom = from_ok (build_prometheus ctx.prometheus_name sim root no_metrics) makes_prometheus

abbrev job : Job
job = from_ok the_job makes_job

objects-IsOf_example :
    IsOf (some "simkube") ctx.driver_svc (root_owner root) svc.metadata
    × IsOf none ctx.webhook_name (root_owner root) config.metadata
    × IsOf (some "simkube") "sk-driver-cert" (root_owner root) cert.metadata
    × IsOf (some (metrics_ns sim)) ctx.prometheus_name (root_owner root) prom.metadata
    × IsOf none "simkube" (simulation_owner sim) ns.metadata
    × IsOf (some "simkube") ctx.driver_name (simulation_owner sim) job.metadata
objects-IsOf_example =
    objects-IsOf ctx sim root no_metrics none "cert" "simkube" (ok "account") ns svc config cert
      prom job (made (build_driver_namespace ctx sim) makes_namespace)
      (made (build_driver_service ctx sim root) makes_service)
      (made (build_mutating_webhook ctx sim root) makes_webhook)
      (made (build_certificate ctx sim root) makes_certificate)
      (made (build_prometheus ctx.prometheus_name sim root no_metrics) makes_prometheus)
      (made the_job makes_job)

objects-Wired_example : IsWired ctx svc config cert job
objects-Wired_example =
    objects-Wired ctx sim root none "cert" "simkube" (ok "account") svc config cert job
      (made (build_driver_service ctx sim root) makes_service)
      (made (build_mutating_webhook ctx sim root) makes_webhook)
      (made (build_certificate ctx sim root) makes_certificate) (made the_job makes_job)

build_driver_job-paths_example :
    (container : Container) × (mounts : List VolumeMount) × (volumes : List Volume)
    × (options : Map.Map String String) × (dir : String) × (trace : String)
    × ((job.template.containers ≡ container ∷ [])
        × (container.volume_mounts ≡ some mounts)
        × (job.template.volumes ≡ some volumes)
        × (container.args ≡ some (arguments_of options)))
    × ((Map.get options "--cert-path" ≡ some (append dir "/tls.crt"))
        × (Map.get options "--key-path" ≡ some (append dir "/tls.key"))
        × (Map.get options "--trace-path" ≡ some trace))
    × HasCertificate mounts volumes "cert" dir
    × ((IsElsewhere "file:///data/trace" × (trace ≡ "file:///data/trace"))
        ⊎ ((host : String) × IsFile "file:///data/trace" host × HasFile mounts volumes host trace))
build_driver_job-paths_example =
    build_driver_job-paths ctx sim none "cert" "simkube" (ok "account") job (made the_job makes_job)

-- A parser that looks for a name and takes what follows it.
abbrev after_name : List String → String → Option String
after_name [] name = none
after_name (arg ∷ []) name = none
after_name (arg ∷ value ∷ args) name = if arg == name then some value else after_name args name

after_name-arguments_of :
    (options : Map.Map String String) (name : String)
    → after_name (arguments_of options) name ≡ Map.get options name
unfolding Map.get
after_name-arguments_of [] name = refl
after_name-arguments_of ((key, value) ∷ options) name =
    ap (λ rest. if key == name then some value else rest) (after_name-arguments_of options name)

abbrev clap : Clap
clap = record {
  option = λ args name. ok (after_name args name);
  parse_u16 = λ s. ok 8888;
  option-arguments_of =
      λ options name values distinct. ap ok (after_name-arguments_of options name);
  parse_u16-port = refl;
}

service-reaches_driver_example :
    (opts : Options) × (parse clap (build_driver_args ctx "/ssl" "/data/trace" "simkube") ≡ ok opts)
    × ((svc.ports
          ≡ some (
              record { port = pos 8888; target_port = some (pos opts.admission_webhook_port) }
              ∷ []))
        ↔ (pos 8888 ≡ pos 8888))
unfolding ctx
service-reaches_driver_example =
    service-reaches_driver clap ctx sim root "/ssl" "/data/trace" "simkube" svc refl
      (made (build_driver_service ctx sim root) makes_service)
