-- ===== src/Driver/Main.antt =====
-- sk-driver/src/main.rs: the options of the driver.
pub mod Arguments
use simkube.Common.{
  ℕ, ◌≡◌, Bool, true, false, not, ◌||◌, ◌&&◌, Option, none, some, List, [], ◌∷◌, String, Outcome,
  ok, err, panic, message, ok_or, ◌>>=◌, nat_beq, string_eq, unwrap_or,
}
use Prim.Native.Char.{code}
use Prim.Native.String
use simkube.Common.Map
use simkube.Core.Constants.{driver_admission_webhook_port}
use simkube.Common.Map.{Map}

-- The speed, which is never read, is left out.
pub record Options : Type 0 where
  pub sim_name : String
  pub controller_ns : String
  pub virtual_ns_prefix : String
  pub admission_webhook_port : ℕ
  pub cert_path : String
  pub key_path : String
  pub trace_path : String
  pub verbosity : String

-- A long option is its name after two hyphens; a value does not begin with one.
abbrev pub arguments_of : Map String String → List String
arguments_of [] = []
arguments_of ((name, value) ∷ options) = name ∷ value ∷ arguments_of options

abbrev begins_with_hyphen : String → Bool
begins_with_hyphen String.[] = false
begins_with_hyphen (String.◌∷◌ c s) = nat_beq (code c) b'-'

abbrev pub are_values : Map String String → Bool
are_values [] = true
are_values ((name, value) ∷ options) = not (begins_with_hyphen value) && are_values options

abbrev pub are_distinct : Map String String → Bool
are_distinct [] = true
are_distinct ((name, value) ∷ options) = not (Map.contains_key options name) && are_distinct options

-- The parser of the command line: what it gives for a long option, and the numbers of sixteen bits. Each
-- option that is given once with a value has that value, and an option that is not given has none.
pub record Clap : Type 0 where
  pub option : List String → String → Outcome (Option String)
  pub parse_u16 : String → Outcome ℕ
  pub option-arguments_of :
      (options : Map String String) (name : String)
      → are_values options ≡ true
      → are_distinct options ≡ true
      → option (arguments_of options) name ≡ ok (Map.get options name)
  pub parse_u16-port : parse_u16 driver_admission_webhook_port ≡ ok 8888

module _ (clap : Clap) (args : List String) where
  required : String → Outcome String
  required name = clap.option args name >>= λ value. ok_or value (message "missing option")

  with_default : String → String → Outcome String
  with_default name value = clap.option args name >>= λ given. ok (unwrap_or given value)

  unfoldable pub parse : Outcome Options
  unfolding required with_default
  parse = do
    sim_name ← required "--sim-name"
    controller_ns ← required "--controller-ns"
    virtual_ns_prefix ← required "--virtual-ns-prefix"
    port ← with_default "--admission-webhook-port" driver_admission_webhook_port
    admission_webhook_port ← clap.parse_u16 port
    cert_path ← required "--cert-path"
    key_path ← required "--key-path"
    trace_path ← required "--trace-path"
    verbosity ← with_default "--verbosity" "info"
    ok (record {
      sim_name = sim_name;
      controller_ns = controller_ns;
      virtual_ns_prefix = virtual_ns_prefix;
      admission_webhook_port = admission_webhook_port;
      cert_path = cert_path;
      key_path = key_path;
      trace_path = trace_path;
      verbosity = verbosity;
    })
