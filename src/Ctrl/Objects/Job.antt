-- ===== src/Ctrl/Objects/Job.antt =====
-- sk-ctrl/src/objects.rs: the job of the driver, with its volumes.
use Prim.Native.Char.{code}
use simkube.Common.{
  ℕ, ◌≡◌, Bool, true, false, Option, none, some, List, [], ◌∷◌, map, String, Outcome, ok, message,
  ok_or, ◌>>=◌, nat_beq, if◌then◌else◌,
}
use simkube.Common.Int.{ℤ, pos}
use simkube.Common.Text.{append}
use simkube.Core.Constants.{driver_name_env_var}
use simkube.Core.Kube.{ObjectMeta, Naming}
use simkube.Core.Simulation.{Simulation, simulation_owner}
use simkube.Core.Util.{build_object_meta}
use simkube.Ctrl.Context.{SimulationContext}

pub record VolumeMount : Type 0 where
  pub name : String
  pub mount_path : String

pub record SecretVolumeSource : Type 0 where
  pub secret_name : Option String
  pub default_mode : Option ℕ

pub record HostPathVolumeSource : Type 0 where
  pub path : String
  pub type_ : Option String

pub record Volume : Type 0 where
  pub name : String
  pub secret : Option SecretVolumeSource
  pub host_path : Option HostPathVolumeSource

abbrev pub VolumeInfo : Type 0
VolumeInfo = VolumeMount × Volume × String

abbrev pub driver_cert_volume : String
driver_cert_volume = "driver-cert"

abbrev pub ssl_mount_path : String
ssl_mount_path = "/usr/local/etc/ssl"

abbrev pub trace_volume_name : String
trace_volume_name = "trace-data"

abbrev pub trace_path_prefix : String
trace_path_prefix = "/trace-data"

-- The mode is 0o600.
unfoldable pub build_certificate_volumes : String → VolumeInfo
build_certificate_volumes cert_secret_name = (
  record { name = driver_cert_volume; mount_path = ssl_mount_path },
  record {
    name = driver_cert_volume;
    secret = some (record { secret_name = some cert_secret_name; default_mode = some 384 });
    host_path = none;
  },
  ssl_mount_path,
)

-- `Path::is_absolute`, on the systems that the driver runs on.
unfoldable pub is_absolute : String → Bool
is_absolute String.[] = false
is_absolute (String.◌∷◌ c s) = nat_beq (code c) b'/'

-- `PathBuf::push`: an absolute path takes the place of what is there.
unfoldable pub push : String → String → String
push base path = if is_absolute path then path else append base (append "/" path)

-- URLs and the schemes of the object store. The path of a file is a text if it is in UTF-8, and it is
-- absolute.
pub record Urls : Type 1 where
  pub Url : Type 0
  pub parse : String → Outcome Url
  pub is_local : Url → Outcome Bool
  pub to_file_path : Url → Option (Option String)
  pub to_file_path_absolute :
      (u : Url) (p : String) → to_file_path u ≡ some (some p) → is_absolute p ≡ true

module _ ⦃urls : Urls⦄ where
  unfoldable pub build_local_trace_volume : String → Outcome (Option VolumeInfo)
  build_local_trace_volume trace_path = do
    url ← urls.parse trace_path
    local ← urls.is_local url
    let volume = do
      fp ← ok_or (urls.to_file_path url) (message "could not parse trace path")
      host_path_str ← ok_or fp (message "could not parse host path")
      let mount_path_str = push trace_path_prefix host_path_str
      ok (
          some (
            record { name = trace_volume_name; mount_path = mount_path_str },
            record {
              name = trace_volume_name;
              secret = none;
              host_path = some (record { path = host_path_str; type_ = some "File" });
            },
            mount_path_str,
          ))
    if local then volume else ok none

unfoldable pub build_driver_args : SimulationContext → String → String → String → List String
build_driver_args ctx cert_mount_path trace_path ctrl_ns =
    "--cert-path"
    ∷ append cert_mount_path "/tls.crt"
    ∷ "--key-path"
    ∷ append cert_mount_path "/tls.key"
    ∷ "--trace-path"
    ∷ trace_path
    ∷ "--virtual-ns-prefix"
    ∷ "virtual"
    ∷ "--sim-name"
    ∷ ctx.name
    ∷ "--verbosity"
    ∷ ctx.opts.verbosity
    ∷ "--controller-ns"
    ∷ ctrl_ns
    ∷ []

-- A secret whose keys become variables, which must be there.
pub record EnvFromSource : Type 0 where
  pub secret_name : Option String
  pub optional : Option Bool

pub record EnvVar : Type 0 where
  pub name : String
  pub value : Option String
  pub field_path : Option String

pub record Container : Type 0 where
  pub name : String
  pub command : Option (List String)
  pub args : Option (List String)
  pub image : Option String
  pub env_from : Option (List EnvFromSource)
  pub env : Option (List EnvVar)
  pub volume_mounts : Option (List VolumeMount)

pub record PodSpec : Type 0 where
  pub containers : List Container
  pub restart_policy : Option String
  pub volumes : Option (List Volume)
  pub service_account : Option String

pub record Job : Type 0 where
  pub metadata : ObjectMeta
  pub backoff_limit : Option ℤ
  pub template : PodSpec
  pub parallelism : Option ℤ
  pub completions : Option ℤ

-- The mounts, the volumes and the path of the trace.
abbrev pub with_trace :
    Simulation → VolumeInfo → Option VolumeInfo → List VolumeMount × List Volume × String
with_trace sim (mount, volume, path) none = (mount ∷ [], volume ∷ [], sim.spec.driver.trace_path)
with_trace sim (mount, volume, path) (some (trace_mount, trace_volume, trace_path)) =
    (mount ∷ trace_mount ∷ [], volume ∷ trace_volume ∷ [], trace_path)

abbrev secret_refs : Option (List String) → Option (List EnvFromSource)
secret_refs none = none
secret_refs (some secrets) =
    some (map (λ s. record { secret_name = some s; optional = some false }) secrets)

abbrev pub driver_container :
    SimulationContext
    → Simulation
    → Option (List String)
    → String
    → List VolumeMount × List Volume × String
    → Container
driver_container ctx sim driver_secrets ctrl_ns mounted = record {
  name = "driver";
  command = some ("/sk-driver" ∷ []);
  args = some (build_driver_args ctx ssl_mount_path (mounted.2) ctrl_ns);
  image = some sim.spec.driver.image;
  env_from = secret_refs driver_secrets;
  env = some (
      record { name = "RUST_BACKTRACE"; value = some "1"; field_path = none }
      ∷ record { name = driver_name_env_var; value = none; field_path = some "metadata.name" }
      ∷ []);
  volume_mounts = some (mounted.0);
}

-- `svc_account` is the variable POD_SVC_ACCOUNT.
unfoldable pub build_driver_job :
    ⦃urls : Urls⦄ ⦃n : Naming⦄
    → SimulationContext
    → Simulation
    → Option (List String)
    → String
    → String
    → Outcome String
    → Outcome Job
build_driver_job ctx sim driver_secrets cert_secret_name ctrl_ns svc_account = do
  let cert = build_certificate_volumes cert_secret_name
  local ← build_local_trace_volume sim.spec.driver.trace_path
  let mounted = with_trace sim cert local
  service_account ← svc_account
  metadata ←
      build_object_meta sim.spec.driver.namespace ctx.driver_name ctx.name (simulation_owner sim)
  ok (record {
    metadata = metadata;
    backoff_limit = some (pos 0);
    template = record {
      containers = driver_container ctx sim driver_secrets ctrl_ns mounted ∷ [];
      restart_policy = some "Never";
      volumes = some (mounted.1);
      service_account = some service_account;
    };
    parallelism = some (pos 1);
    completions = sim.spec.repetitions;
  })
