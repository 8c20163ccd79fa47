-- ===== src/Ctrl/Objects/TracePath.antt =====
-- Where the driver finds its certificate and the trace.
use simkube.Common.{
  ◌≡◌, Member, refl, ap, sym, ◌∙◌, ◌⊎◌, inl, inr, Bool-cases, true, false, Option, none, some, List,
  [], ◌∷◌, String, Outcome, ok, ok_or, message, bind-eq-ok, ok_or-some, ok_injective, string_eq,
}
use simkube.Common.Map
use simkube.Common.Map.{Map}
use simkube.Common.Text.{append}
use simkube.Core.Kube.{Naming}
use simkube.Core.Simulation.{Simulation, simulation_owner}
use simkube.Core.Util.{build_object_meta}
use simkube.Ctrl.Context.{SimulationContext}
use simkube.Ctrl.Objects.Job.{
  Urls, VolumeInfo, SecretVolumeSource, is_absolute, VolumeMount, Volume, Container,
  driver_container, build_local_trace_volume, push, trace_path_prefix, trace_volume_name, Job,
  build_driver_job, build_driver_args, ssl_mount_path, build_certificate_volumes, with_trace,
}
use simkube.Driver.Main.{arguments_of}
use simkube.Driver.Main.Arguments.{given}

push-absolute : (host : String) → is_absolute host ≡ true → push trace_path_prefix host ≡ host
unfolding push
push-absolute host e = rw e refl

-- The volume with a file of the host, mounted at a path.
abbrev mounted_at : String → String → VolumeInfo
mounted_at host path = (
  record { name = trace_volume_name; mount_path = path },
  record {
    name = trace_volume_name;
    secret = none;
    host_path = some (record { path = host; type_ = some "File" });
  },
  path,
)

module _ ⦃urls : Urls⦄ where
  -- The trace is a file of the host, or it is kept elsewhere.
  abbrev pub IsFile : String → String → Type 0
  IsFile trace_path host =
      (url : urls.Url) × (urls.parse trace_path ≡ ok url)
      × (urls.is_local url ≡ ok true)
      × (urls.to_file_path url ≡ some (some host))

  abbrev pub IsElsewhere : String → Type 0
  IsElsewhere trace_path =
      (url : urls.Url) × (urls.parse trace_path ≡ ok url) × (urls.is_local url ≡ ok false)

  -- A file is mounted at the path that it has on the host: the prefix for mounted traces has no effect.
  pub build_local_trace_volume-cases :
      (trace_path : String) (local : Option VolumeInfo)
      → build_local_trace_volume trace_path ≡ ok local
      → (IsElsewhere trace_path × (local ≡ none))
        ⊎ ((host : String) × IsFile trace_path host × (local ≡ some (mounted_at host host)))
  unfolding build_local_trace_volume
  build_local_trace_volume-cases trace_path local e =
      let (url, parsed, e1) = bind-eq-ok (urls.parse trace_path) _ e in
      let (b, is_local, e2) = bind-eq-ok (urls.is_local url) _ e1 in
      elim (Bool-cases b) [
        | inl t ↦
            let (fp, found, e3) =
              bind-eq-ok (ok_or (urls.to_file_path url) (message "could not parse trace path")) _
                (rw t at e2) in
            let (host, text, e4) =
              bind-eq-ok (ok_or fp (message "could not parse host path")) _ e3 in
            let path : urls.to_file_path url ≡ some (some host) =
              ok_or-some (urls.to_file_path url) _ fp found ∙ ap some (ok_or-some fp _ host text) in
            inr (
              host,
              (url, parsed, is_local ∙ ap ok t, path),
              sym (ok_injective _ local e4)
                  ∙ ap (λ at. some (mounted_at host at))
                      (push-absolute host (urls.to_file_path_absolute url host path)),
            )
        | inr f ↦
            inl ((url, parsed, is_local ∙ ap ok f), sym (ok_injective none local (rw f at e2)))
      ]

-- A volume of the job is mounted at a path.
abbrev pub IsMounted : List VolumeMount → List Volume → String → Volume → Type 0
IsMounted mounts volumes path volume =
    Member (record { name = volume.name; mount_path = path }) mounts × Member volume volumes

-- The secret of this name holds the files of a directory of the container.
abbrev pub HasCertificate : List VolumeMount → List Volume → String → String → Type 0
HasCertificate mounts volumes secret dir =
    (volume : Volume) × (source : SecretVolumeSource) × IsMounted mounts volumes dir volume
    × (volume.secret ≡ some source)
    × (source.secret_name ≡ some secret)

-- A file of the host is a file of the container.
abbrev pub HasFile : List VolumeMount → List Volume → String → String → Type 0
HasFile mounts volumes host path =
    (volume : Volume) × IsMounted mounts volumes path volume
    × (volume.host_path ≡ some (record { path = host; type_ = some "File" }))

-- The arguments of the driver are options with their values, of which these say where its certificate, the
-- key and the trace are: the certificate and the key in a directory where the secret of the certificate is
-- mounted, and the trace, if it is a file, at the path at which this file of the host is mounted, and else
-- where the simulation says.
pub build_driver_job-paths :
    ⦃urls : Urls⦄ ⦃n : Naming⦄ (ctx : SimulationContext) (sim : Simulation)
    (secrets : Option (List String)) (cert_secret ctrl_ns : String) (account : Outcome String)
    (job : Job)
    → build_driver_job ctx sim secrets cert_secret ctrl_ns account ≡ ok job
    → (container : Container) × (mounts : List VolumeMount) × (volumes : List Volume)
      × (options : Map String String) × (dir : String) × (trace : String)
      × ((job.template.containers ≡ container ∷ [])
          × (container.volume_mounts ≡ some mounts)
          × (job.template.volumes ≡ some volumes)
          × (container.args ≡ some (arguments_of options)))
      × ((Map.get options "--cert-path" ≡ some (append dir "/tls.crt"))
          × (Map.get options "--key-path" ≡ some (append dir "/tls.key"))
          × (Map.get options "--trace-path" ≡ some trace))
      × HasCertificate mounts volumes cert_secret dir
      × ((IsElsewhere sim.spec.driver.trace_path × (trace ≡ sim.spec.driver.trace_path))
          ⊎ ((host : String) × IsFile sim.spec.driver.trace_path host
              × HasFile mounts volumes host trace))
unfolding build_driver_job build_certificate_volumes build_driver_args Map.get
build_driver_job-paths ctx sim secrets cert_secret ctrl_ns account job e =
    let (local, at, e1) = bind-eq-ok (build_local_trace_volume sim.spec.driver.trace_path) _ e in
    let (acc, _, e2) = bind-eq-ok account _ e1 in
    let (m, _, last) =
      bind-eq-ok
        (build_object_meta sim.spec.driver.namespace ctx.driver_name ctx.name
          (simulation_owner sim))
        _ e2 in
    let same = ok_injective _ job last in
    let mounted = with_trace sim (build_certificate_volumes cert_secret) local in
    (
      driver_container ctx sim secrets ctrl_ns mounted,
      mounted.0,
      mounted.1,
      given ctx ssl_mount_path (mounted.2) ctrl_ns,
      ssl_mount_path,
      mounted.2,
      (
        ap (λ j. j.template.containers) (sym same),
        refl,
        ap (λ j. j.template.volumes) (sym same),
        refl,
      ),
      (refl, refl, refl),
      cert_mounted local,
      traced local (build_local_trace_volume-cases sim.spec.driver.trace_path local at),
    )
  where
    cert_mounted :
        (local : Option VolumeInfo)
        → let mounted = with_trace sim (build_certificate_volumes cert_secret) local in
          HasCertificate (mounted.0) (mounted.1) cert_secret ssl_mount_path
    cert_mounted none =
        ((build_certificate_volumes cert_secret).1, _, (inl refl, inl refl), refl, refl)
    cert_mounted (some info) =
        ((build_certificate_volumes cert_secret).1, _, (inl refl, inl refl), refl, refl)

    traced :
        (local : Option VolumeInfo)
        → (IsElsewhere sim.spec.driver.trace_path × (local ≡ none))
          ⊎ ((host : String) × IsFile sim.spec.driver.trace_path host
              × (local ≡ some (mounted_at host host)))
        → let mounted = with_trace sim (build_certificate_volumes cert_secret) local in
          (IsElsewhere sim.spec.driver.trace_path × (mounted.2 ≡ sim.spec.driver.trace_path))
          ⊎ ((host : String) × IsFile sim.spec.driver.trace_path host
              × HasFile (mounted.0) (mounted.1) host (mounted.2))
    traced local (inl (elsewhere, e)) = rw e (inl (elsewhere, refl))
    traced local (inr (host, is_file, e)) =
        rw e
          (inr (host, is_file, ((mounted_at host host).1, (inr (inl refl), inr (inl refl)), refl)))
