-- ===== src/Driver/Main/Arguments.antt =====
-- The driver reads the arguments that the controller gives it.
use simkube.Common.{
  ◌≡◌, ◌↔◌, refl, sym, ap, ◌∙◌, true, Option, some, List, [], ◌∷◌, String, ok, unwrap_or, string_eq,
}
use simkube.Common.Int.{ℤ, pos}
use simkube.Core.Kube.{Naming}
use simkube.Core.Simulation.{Simulation, SimulationRoot}
use simkube.Ctrl.Objects.{Service, ServicePort, build_driver_service}
use simkube.Ctrl.Objects.Wired.{service_fields}
use simkube.Common.Map
use simkube.Common.Map.{Map}
use simkube.Common.Text.{append}
use simkube.Ctrl.Context.{SimulationContext}
use simkube.Ctrl.Objects.Job.{build_driver_args}
use simkube.Driver.Main.{Options, Clap, are_values, parse, required, with_default}

abbrev pub given : SimulationContext → String → String → String → Map String String
given ctx cert_mount_path trace_path ctrl_ns =
    ("--cert-path", append cert_mount_path "/tls.crt")
    ∷ ("--key-path", append cert_mount_path "/tls.key")
    ∷ ("--trace-path", trace_path)
    ∷ ("--virtual-ns-prefix", "virtual")
    ∷ ("--sim-name", ctx.name)
    ∷ ("--verbosity", ctx.opts.verbosity)
    ∷ ("--controller-ns", ctrl_ns)
    ∷ []

-- The driver takes the arguments of its job for what the controller means by them. It always listens at
-- port 8888. The name of the simulation, the path of the trace, the verbosity, the controller's namespace
-- and the path of the certificate do not begin with a hyphen.
pub parse-build_driver_args :
    (clap : Clap) (ctx : SimulationContext) (cert_mount_path trace_path ctrl_ns : String)
    → are_values (given ctx cert_mount_path trace_path ctrl_ns) ≡ true
    → parse clap (build_driver_args ctx cert_mount_path trace_path ctrl_ns)
      ≡ ok (record {
        sim_name = ctx.name;
        controller_ns = ctrl_ns;
        virtual_ns_prefix = "virtual";
        admission_webhook_port = 8888;
        cert_path = append cert_mount_path "/tls.crt";
        key_path = append cert_mount_path "/tls.key";
        trace_path = trace_path;
        verbosity = ctx.opts.verbosity;
      })
unfolding parse required with_default build_driver_args Map.get
parse-build_driver_args clap ctx cert_mount_path trace_path ctrl_ns values =
    rw
      (
        at "--sim-name",
        at "--controller-ns",
        at "--virtual-ns-prefix",
        at "--admission-webhook-port",
        clap.parse_u16-port,
        at "--cert-path",
        at "--key-path",
        at "--trace-path",
        at "--verbosity",
      )
      refl
  where
    at :
        (name : String)
        → clap.option (build_driver_args ctx cert_mount_path trace_path ctrl_ns) name
          ≡ ok (Map.get (given ctx cert_mount_path trace_path ctrl_ns) name)
    at name =
        clap.option-arguments_of (given ctx cert_mount_path trace_path ctrl_ns) name values refl

target_of : Option (List ServicePort) → ℤ
target_of (some (p ∷ [])) = unwrap_or p.target_port (pos 0)
target_of _ = pos 0

-- The service that the controller makes leads to the port at which the driver listens exactly if the
-- simulation names port 8888: the port of the simulation is not among the arguments of the driver, which
-- are read without an error if no value in them begins with a hyphen.
pub service-reaches_driver :
    ⦃n : Naming⦄ (clap : Clap) (ctx : SimulationContext) (sim : Simulation) (root : SimulationRoot)
    (cert_mount_path trace_path ctrl_ns : String) (svc : Service)
    → are_values (given ctx cert_mount_path trace_path ctrl_ns) ≡ true
    → build_driver_service ctx sim root ≡ ok svc
    → (opts : Options) × (parse clap (build_driver_args ctx cert_mount_path trace_path ctrl_ns)
        ≡ ok opts)
      × ((svc.ports
            ≡ some (
                record {
                  port = sim.spec.driver.port;
                  target_port = some (pos opts.admission_webhook_port);
                }
                ∷ []))
          ↔ (sim.spec.driver.port ≡ pos 8888))
unfolding target_of
service-reaches_driver clap ctx sim root cert_mount_path trace_path ctrl_ns svc values made =
    let (ports, _) = service_fields ctx sim root svc made in
    (
      _,
      parse-build_driver_args clap ctx cert_mount_path trace_path ctrl_ns values,
      (
        λ same. ap target_of (sym ports ∙ same),
        λ h.
            ports
            ∙ ap (λ p. some (record { port = sim.spec.driver.port; target_port = some p } ∷ [])) h,
      ),
    )
