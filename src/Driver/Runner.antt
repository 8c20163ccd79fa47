-- ===== src/Driver/Runner.antt =====
-- sk-driver/src/runner.rs: how a trace is run in the simulation, and what is left is deleted.
pub mod Asked
pub mod Cleanup
pub mod Steps
pub mod Sleeps
pub mod Untyped
pub mod Virtual
use simkube.Common.{
  ℕ, zero, suc, ◌+◌, Bool, true, false, Option, none, some, List, [], ◌∷◌, ◌++◌, String, Outcome,
  ok, err, panic, message, cleanup_failed, cleanup_timeout, ok_or, unwrap, ◌>>=◌, ◌==◌, nat_eq,
  string_eq, any, length, if◌then◌else◌,
}
use simkube.Common.Int.{ℤ, pos, ◌+ℤ◌, ◌-ℤ◌, ltb_ℤ, to_ℕ}
use simkube.Common.Text.{append}
use simkube.Common.Map
use simkube.Core.ApiSet.{ApiSet, Api, Discovery, api_for_obj}
use simkube.Core.Constants.{virtual_label_key, orig_namespace_annotation_key}
use simkube.Core.Gvk.{TypeParser, from_dynamic_obj}
use simkube.Core.Json.{Value, object, string, end}
use simkube.Core.Kube.{ObjectMeta, DynamicObject, Naming}
use simkube.Core.Lease.{Lease, Commit, try_update_lease}
use simkube.Core.Patch.{Pointers, add, remove}
use simkube.Core.Util.{Owner, labels_of, add_common_metadata, build_global_object_meta}
use simkube.Store.Config.{pod_spec_template_path}
use simkube.Store.Event.{TraceEvent}
use simkube.Store.Iterator.{iter, drain}
use simkube.Store.TraceStore
use simkube.Store.TraceStore.{TraceStore}

-- The driver's context, and what is around a run: how the server reads and knows types, whether it
-- takes a call, and the division of a time by the speed.
pub data Call : Type 0 where
  create_namespace : ObjectMeta → Call
  patch_obj : Api → String → DynamicObject → Call
  delete_named : Api → String → Call
  sleep : ℕ → Call

pub record Driver : Type 0 where
  pub name : String
  pub root : Owner
  pub virtual_ns_prefix : String
  pub store : TraceStore
  pub parse : TypeParser
  pub discover : Discovery
  pub accepts : Call → Outcome (Unit {0})
  pub at_speed : ℕ → ℕ

-- The namespaces of the simulated cluster, the cache of handles, and the calls so far.
pub record World : Type 0 where
  pub namespaces : List String
  pub apiset : ApiSet
  pub calls : List Call

unfoldable pub perform : Driver → World → Call → Outcome World
perform ctx w call = do _ ← ctx.accepts call; ok (record w { calls = w.calls ++ call ∷ [] })

-- `klabel_insert!(…, VIRTUAL_LABEL_KEY => "true")`.
abbrev virtual : ObjectMeta → ObjectMeta
virtual m = record m { labels = some (Map.insert (labels_of m) virtual_label_key "true") }

module _ ⦃n : Naming⦄ where
  -- A namespace is its metadata.
  unfoldable pub build_virtual_ns : Driver → String → Outcome ObjectMeta
  build_virtual_ns ctx namespace = do
    meta ← build_global_object_meta namespace ctx.name ctx.root
    ok (virtual meta)

  -- The patches of an object with a pod template at this path.
  pub template_patches : ⦃p : Pointers⦄ → String → String → Value → Outcome Value
  template_patches path original_ns v = do
    v1 ← add path "metadata" (object end) v false
    v2 ← add (append path "/metadata") "annotations" (object end) v1 false
    v3 ←
        add (append path "/metadata/annotations") orig_namespace_annotation_key (string original_ns)
          v2 true
    v4 ← remove "" "status" v3
    remove (append path "/spec/containers/*") "ports" v4

  patched : ⦃p : Pointers⦄ → Option String → String → Value → Outcome Value
  patched none original_ns v = ok v
  patched (some path) original_ns v = template_patches path original_ns v

  unfoldable pub build_virtual_obj :
      ⦃p : Pointers⦄
      → Driver
      → String
      → String
      → DynamicObject
      → Option String
      → Outcome DynamicObject
  unfolding patched template_patches
  build_virtual_obj ctx original_ns virtual_ns obj maybe_path = do
    meta ← add_common_metadata ctx.name ctx.root obj.metadata
    content ← patched maybe_path original_ns obj.content
    ok (record obj {
      metadata = virtual (record meta { namespace = some virtual_ns });
      content = content;
    })

  abbrev pub virtual_name : Driver → String → String
  virtual_name ctx ns = append ctx.virtual_ns_prefix (append "-" ns)

  pub ensure_namespace : Driver → World → String → Outcome World
  ensure_namespace ctx w virtual_ns =
      let created = (do
        vns ← build_virtual_ns ctx virtual_ns
        w' ← perform ctx w (create_namespace vns)
        ok (record w' { namespaces = virtual_ns ∷ w'.namespaces })) in
      if any (λ ns. ns == virtual_ns) w.namespaces then ok w else created

  -- One applied object; one with no namespace is a panic.
  unfoldable pub apply_obj : ⦃p : Pointers⦄ → Driver → World → DynamicObject → Outcome World
  unfolding ensure_namespace
  apply_obj ctx w obj = do
    gvk ← from_dynamic_obj ctx.parse obj
    original_ns ← unwrap obj.metadata.namespace
    let virtual_ns = virtual_name ctx original_ns
    w1 ← ensure_namespace ctx w virtual_ns
    vobj ←
        build_virtual_obj ctx original_ns virtual_ns obj
          (pod_spec_template_path ctx.store.config gvk)
    let (found, apiset) = api_for_obj ctx.parse ctx.discover w1.apiset vobj
    api ← found
    perform ctx (record w1 { apiset = apiset }) (patch_obj api (n.name_any vobj.metadata) vobj)

  unfoldable pub delete_obj : Driver → World → DynamicObject → Outcome World
  delete_obj ctx w obj = do
    ns ← unwrap obj.metadata.namespace
    let vobj = record obj {
      metadata = record (obj.metadata) { namespace = some (virtual_name ctx ns) };
    }
    let (found, apiset) = api_for_obj ctx.parse ctx.discover w.apiset vobj
    api ← found
    perform ctx (record w { apiset = apiset }) (delete_named api (n.name_any obj.metadata))

  abbrev each : (World → DynamicObject → Outcome World) → World → List DynamicObject → Outcome World
  each f w [] = ok w
  each f w (obj ∷ objs) = f w obj >>= λ w'. each f w' objs

  -- The loop over the events. Between two of them it sleeps, for no negative time.
  unfoldable pub run_events :
      ⦃p : Pointers⦄ → Driver → World → ℤ → List (TraceEvent × Option ℤ) → Outcome World
  run_events ctx w sim_ts [] = ok w
  run_events ctx w sim_ts ((evt, none) ∷ items) = do
    w1 ← each (apply_obj ctx) w evt.applied_objs
    w2 ← each (delete_obj ctx) w1 evt.deleted_objs
    run_events ctx w2 sim_ts items
  run_events ctx w sim_ts ((evt, some next_ts) ∷ items) = do
    w1 ← each (apply_obj ctx) w evt.applied_objs
    w2 ← each (delete_obj ctx) w1 evt.deleted_objs
    w3 ← perform ctx w2 (sleep (ctx.at_speed (to_ℕ (next_ts -ℤ sim_ts))))
    run_events ctx w3 next_ts items

-- The server's answer to a deletion: it goes on (`Left`), it is over (`Right`), an error of the API
-- with its code, or another error.
pub data Deletion : Type 0 where
  pending over other_error : Deletion
  api_error : ℕ → Deletion

-- What the clock shows, and what the server answers, at each turn of the loop.
pub record Turns : Type 0 where
  pub now : ℕ → ℤ
  pub answer : ℕ → Deletion

unfoldable pub cleanup_trace : ℕ → String → Turns → ℤ → ℕ → Outcome (Unit {0})
cleanup_trace zero root_name turns timeout i = panic
cleanup_trace (suc fuel) root_name turns timeout i =
    let rest = cleanup_trace fuel root_name turns timeout (i + 1) in
    let result = elim (turns.answer i) as (λ _. Outcome (Unit {0})) [
      | over ↦ ok tt
      | api_error code ↦ if code == 404 then ok tt else err (cleanup_failed root_name)
      | other_error ↦ err (cleanup_failed root_name)
      | pending ↦ rest
    ] in
    if ltb_ℤ (turns.now i) timeout then result else err (cleanup_timeout root_name)

abbrev pub cleanup_timeout_seconds : ℕ
cleanup_timeout_seconds = 300

trace_span : TraceStore → Outcome (ℤ × ℤ)
trace_span store = do
  sim_ts ← ok_or (TraceStore.start_ts store) (message "no trace data")
  sim_end_ts ← ok_or (TraceStore.end_ts store) (message "no trace data")
  ok (sim_ts, sim_end_ts)

-- The lease is first set to the length of the trace. `sim` is the name of the simulation, and its
-- root object is there, or was made; `now` and `ended` are read from the clock before and after the
-- events.
unfoldable pub run_trace :
    ⦃n : Naming⦄ ⦃p : Pointers⦄
    → Driver
    → Commit
    → String
    → ℤ
    → Option Lease
    → World
    → ℤ
    → Turns
    → ℕ
    → String
    → Outcome (Unit {0}) × Option Lease
unfolding trace_span
run_trace ctx commit sim now lease w ended turns fuel root_name = elim (trace_span ctx.store) [
  | ok span ↦
      let (updated, lease') = try_update_lease commit sim (span.1 -ℤ span.0) now lease in
      (
        do
          _ ← updated
          w' ←
              run_events ctx w span.0
                (drain (suc (length ctx.store.events)) (iter ctx.store.events))
          cleanup_trace fuel root_name turns (ended +ℤ pos cleanup_timeout_seconds) 0,
        lease',
      )
  | err x ↦ (err x, lease)
  | panic ↦ (panic, lease)
]
