-- ===== src/Tests/Export.antt =====
-- Runs of an export over the command line, the tracer and the driver.
use simkube.Common.{
  ◌≡◌, ◌⊎◌, refl, sym, ap, Bool, true, false, Option, none, some, List, [], ◌∷◌, String, Outcome,
  ok, err, message, ◌>>=◌, All, last?, ◌==◌, string_eq, nat_eq, if◌then◌else◌,
}
use simkube.Common.Int.{pos}
use simkube.Core.Hooks.{execute, pre_run, post_run}
use simkube.Core.Json.{null}
use simkube.Core.Kube.{DynamicObject, default_meta}
use simkube.Core.Simulation.{Simulation}
use simkube.Core.Storage
use simkube.Core.Storage.{
  Host, tracer, client, ObjectStoreScheme, local, amazon_s3, parsed, Backend, SkObjectStore, Writes,
  parse_path, put,
}
use simkube.Cli.Export.{Args, Network, cmd, request, save}
use simkube.Cli.Export.Once.{WrittenOnce, cmd-WrittenOnce}
use simkube.Cli.Export.Replays.{cmd-import}
use simkube.Driver.Main.{Options}
use simkube.Driver.Process.{Stage, hooks, trace, Process, run}
use simkube.Driver.Process.Stages.{IsReplayed, run-stages}
use simkube.Store.Config.{default_config}
use simkube.Store.Event.{TraceEvent, filter_event, obj_matches_filter, keep_objs}
use simkube.Store.PodOwnersMap.{default_owners, new_from_parts}
use simkube.Store.TraceStore.{TraceStore}
use simkube.Store.TraceStore.Replay.{is_live}
use simkube.Store.Export
use simkube.Store.Export.{
  Codec, Exported, collect_events, collect_loop, collect_event, apply_objs, delete_objs, import,
  limit_events, first_ts,
}
use simkube.Store.Export.Window.{upto, Untouched}
use simkube.Tracer
use simkube.Tracer.{Body, export_helper, respond}
use simkube.Fixtures.{test_naming, test_hasher, test_object}

-- A trace, or no bytes at all.
abbrev decode : Option Exported → Outcome Exported
decode none = err (message "no bytes")
decode (some x) = ok x

abbrev none_there : Option Exported → Bool
none_there none = true
none_there (some x) = false

abbrev none_in : Outcome (Option Exported) → Bool
none_in (ok bytes) = none_there bytes
none_in _ = false

instance abbrev option_codec : Codec
option_codec = record {
  Bytes = Option Exported;
  to_vec = λ x. ok (some x);
  from_slice = decode;
  from_slice-to_vec = λ x bytes e. sym (ap (λ o. o >>= decode) e);
  duration_to_ts_from = λ start duration. ok (pos 7);
}

instance abbrev test_body : Body
test_body = record {
  empty = none;
  is_empty = none_there;
  is_empty-empty = refl;
  is_empty-to_vec = λ x bytes e. sym (ap none_in e);
}

instance abbrev test_backend : Backend
test_backend = record {
  Url = String;
  StorePath = String;
  parse = λ s. parsed s;
  absolute = λ host s. ok s;
  from_file_path = λ s. some s;
  parse_scheme = λ s. ok (if s == "s3://bucket/trace" then amazon_s3 else local, s);
  build = λ host scheme s. ok tt;
}

abbrev a : DynamicObject
a = test_object "a"

abbrev events : List TraceEvent
events = record { ts = pos 3; applied_objs = a ∷ []; deleted_objs = [] } ∷ []

abbrev recorded : TraceStore
recorded = record {
  config = default_config;
  events = events;
  pod_owners = default_owners;
  index = [];
}

abbrev args : Args
args = record {
  start_time = pos 1;
  end_time = pos 9;
  excluded_namespaces = [];
  output_path = "s3://bucket/trace";
}

abbrev net : Network
net = record { sends = ok tt; receives = ok tt }

abbrev answers : Host → SkObjectStore → Outcome (Unit {0})
answers host store = ok tt

exports : (cmd answers net recorded args []).0 ≡ ok tt
unfolding cmd save Tracer.export export_helper respond put request Storage.new parse_path
    Export.export collect_events collect_loop collect_event apply_objs delete_objs filter_event
    keep_objs obj_matches_filter
exports = refl

cmd-WrittenOnce_example :
    ((cmd answers net recorded args []).0 ≡ ok tt
      → WrittenOnce answers recorded args [] ((cmd answers net recorded args []).1))
    × (((cmd answers net recorded args []).1 ≡ [])
        ⊎ WrittenOnce answers recorded args [] ((cmd answers net recorded args []).1))
cmd-WrittenOnce_example = cmd-WrittenOnce answers recorded args [] net

events-Untouched : All (Untouched (request args).filters) events
unfolding obj_matches_filter request
events-Untouched = (((refl, tt), tt), tt)

cmd-import_example :
    (host : Host) × (store : SkObjectStore) × (data_ : Option Exported) × (t : TraceStore) × (last?
        ((cmd answers net recorded args []).1)
      ≡ some (host, store, data_))
    × (import data_ none (pos 20) ≡ ok t)
    × (t.config ≡ default_config)
    × (first_ts t.events (pos 20) ≡ pos 1)
    × ((k : String) → is_live t.events k ≡ is_live (upto (pos 9) events) k)
cmd-import_example = cmd-import answers recorded args [] net (pos 20) tt events-Untouched exports

abbrev sim : Simulation
sim = record {
  metadata = record default_meta { name = some "sim" };
  spec = record {
    driver = record {
      namespace = "simkube";
      image = "driver:1";
      trace_path = "s3://bucket/trace";
      port = pos 8888;
      speed = null;
    };
    metrics = none;
    duration = none;
    repetitions = none;
    hooks = none;
  };
  status = none;
}

abbrev bytes : Exported
bytes = record { config = default_config; events = events; index = []; lifecycle_data = [] }

abbrev process : Process
process = record {
  name = ok "driver";
  get_sim = λ name. ok sim;
  fetch = λ store. ok (some bytes);
  shell = λ hook. ok true;
  server_ends = false;
  run_trace = λ name store. ok tt;
  now = pos 20;
}

abbrev opts : Options
opts = record {
  sim_name = "sim";
  controller_ns = "simkube";
  virtual_ns_prefix = "virtual";
  admission_webhook_port = 8888;
  cert_path = "tls.crt";
  key_path = "tls.key";
  trace_path = "s3://bucket/trace";
  verbosity = "info";
}

abbrev imported : TraceStore
imported = record {
  config = default_config;
  events = events;
  pod_owners = new_from_parts [] [];
  index = [];
}

abbrev stages : List Stage
stages = hooks pre_run ∷ trace imported ∷ hooks post_run ∷ []

runs : run process opts [] ≡ (ok tt, stages)
unfolding run Storage.new parse_path import limit_events execute
runs = refl

run-stages_example :
    (name : String) × (s : Simulation) × (store : TraceStore) × (ok "driver" ≡ ok name)
    × IsReplayed process opts s store
    × (execute process.shell s.spec.hooks pre_run ≡ ok tt)
    × (process.run_trace name store ≡ ok tt)
    × (execute process.shell s.spec.hooks post_run ≡ ok tt)
    × (stages ≡ hooks pre_run ∷ trace store ∷ hooks post_run ∷ [])
run-stages_example = run-stages process opts stages runs
