-- ===== src/Driver/Runner/Asked.antt =====
-- A run of events does what the events ask for.
use mathlib.Core.List.{append-nil, append_assoc}
use simkube.Common.{
  ◌≡◌, inl, inr, refl, sym, ap, ◌∙◌, Option, none, some, List, [], ◌∷◌, ◌++◌, String, Outcome, ok,
  unwrap, any, ◌==◌, string_eq, ◌>>=◌, bind-eq-ok, unwrap-some, ok_injective, arith, Bool-cases,
}
use simkube.Common.Int.{ℤ, ◌-ℤ◌, to_ℕ}
use simkube.Core.ApiSet.{Api, ApiSet, IsCache, api_for_obj}
use simkube.Core.Gvk.{Gvk, from_dynamic_obj}
use simkube.Core.Kube.{DynamicObject, Naming}
use simkube.Core.Patch.{Pointers}
use simkube.Driver.Runner.{
  Call, create_namespace, patch_obj, delete_named, sleep, Driver, World, perform, build_virtual_ns,
  build_virtual_obj, virtual_name, ensure_namespace, apply_obj, delete_obj, each, run_events,
}
use simkube.Driver.Runner.Virtual.{
  api_for_obj-handle, api_for_obj-typed, from_dynamic_obj-types, build_virtual_obj-IsVirtual,
}
use simkube.Store.Config.{pod_spec_template_path}
use simkube.Store.Event.{TraceEvent}
use simkube.Driver.Runner.Steps.{
  Step, applied, deleted, slept, steps, steps-append, Each, IsApplied, IsDeleted, Asked, no_more,
  final, followed, IsHandle,
}

module _ ⦃n : Naming⦄ ⦃p : Pointers⦄ (ctx : Driver) (Handles : String → Gvk → Api → Type 0)
    (IsFine : ApiSet → Type 0)
    (finds : (s : ApiSet) (obj : DynamicObject) (gvk : Gvk) (ns : String) (api : Api)
      → from_dynamic_obj ctx.parse obj ≡ ok gvk
      → obj.metadata.namespace ≡ some ns
      → (api_for_obj ctx.parse ctx.discover s obj).0 ≡ ok api
      → IsFine s
      → Handles ns gvk api × IsFine (api_for_obj ctx.parse ctx.discover s obj).1) where
  -- A world that is later by these steps, in which the cache of handles is fine.
  abbrev Later : World → World → List Step → Type 0
  Later w w' added = (steps w'.calls ≡ steps w.calls ++ added) × IsFine w'.apiset

  Later-trans :
      (w v u : World) (xs ys : List Step) → Later w v xs → Later v u ys → Later w u (xs ++ ys)
  Later-trans w v u xs ys (a, _) (b, s) =
      (b ∙ ap (λ zs. zs ++ ys) a ∙ append_assoc (steps w.calls) xs ys, s)

  Later-refl : (w w' : World) → IsFine w.apiset → w ≡ w' → Later w w' []
  Later-refl w w' s e =
      (ap (λ v. steps v.calls) (sym e) ∙ sym (append-nil (steps w.calls)), rw⁻¹ e s)

  perform-Later :
      (w w' : World) (call : Call)
      → IsFine w.apiset
      → perform ctx w call ≡ ok w'
      → Later w w' (steps (call ∷ []))
  unfolding perform
  perform-Later w w' call s e =
      let (_, _, done) = bind-eq-ok (ctx.accepts call) _ e in
      let same = ok_injective _ w' done in
      (ap (λ v. steps v.calls) (sym same) ∙ steps-append w.calls (call ∷ []), rw⁻¹ same s)

  ensure_namespace-Later :
      (w w' : World) (ns : String)
      → IsFine w.apiset
      → ensure_namespace ctx w ns ≡ ok w'
      → Later w w' []
  unfolding ensure_namespace
  ensure_namespace-Later w w' ns s e = elim (Bool-cases (any (λ x. x == ns) w.namespaces)) [
    | inl there ↦ Later-refl w w' s (ground arith)
    | inr absent ↦ made (sym (rw absent refl) ∙ e)
  ]
    where
      made :
          (build_virtual_ns ctx ns >>= λ vns. perform ctx w (create_namespace vns) >>= λ v.
          ok (record v { namespaces = ns ∷ v.namespaces }))
            ≡ ok w'
          → Later w w' []
      made f =
          let (vns, _, f1) = bind-eq-ok (build_virtual_ns ctx ns) _ f in
          let (v, performed, done) = bind-eq-ok (perform ctx w (create_namespace vns)) _ f1 in
          let (same_steps, sound) = perform-Later w v (create_namespace vns) s performed in
          let same = ok_injective _ w' done in
          (ap (λ u. steps u.calls) (sym same) ∙ same_steps, rw⁻¹ same sound)

  -- A step done for one object.
  abbrev Done : (DynamicObject → Step → Type 0) → World → World → DynamicObject → Type 0
  Done P w w' obj = (x : Step) × P obj x × Later w w' (x ∷ [])

  apply_obj-Done :
      (w w' : World) (obj : DynamicObject)
      → IsFine w.apiset
      → apply_obj ctx w obj ≡ ok w'
      → Done (IsApplied ctx Handles) w w' obj
  unfolding apply_obj from_dynamic_obj
  apply_obj-Done w w' obj s e =
      let (gvk, typed, e1) = bind-eq-ok (from_dynamic_obj ctx.parse obj) _ e in
      let (ns, named, e2) = bind-eq-ok (unwrap obj.metadata.namespace) _ e1 in
      let (w1, ensured, e3) = bind-eq-ok (ensure_namespace ctx w (virtual_name ctx ns)) _ e2 in
      let (vobj, built, e4) =
        bind-eq-ok
          (build_virtual_obj ctx ns (virtual_name ctx ns) obj
            (pod_spec_template_path ctx.store.config gvk))
          _ e3 in
      let (is_virtual, name) = build_virtual_obj-IsVirtual ctx gvk ns obj vobj built in
      let earlier = ensure_namespace-Later w w1 (virtual_name ctx ns) s ensured in
      let (api, found, performed) =
        bind-eq-ok (api_for_obj ctx.parse ctx.discover w1.apiset vobj).0 _ e4 in
      let vtyped : from_dynamic_obj ctx.parse vobj ≡ ok gvk =
        rw (from_dynamic_obj, is_virtual.types) typed in
      let handled =
        finds w1.apiset vobj gvk (virtual_name ctx ns) api vtyped is_virtual.namespace found
          earlier.1 in
      let patched =
        perform-Later (record w1 { apiset = (api_for_obj ctx.parse ctx.discover w1.apiset vobj).1 })
          w' (patch_obj api (n.name_any vobj.metadata) vobj) (handled.1) performed in
      (
        applied api (n.name_any vobj.metadata) vobj,
        (
          gvk,
          ns,
          api,
          vobj,
          ap (λ x. applied api x vobj) name,
          record {
            typed = typed;
            there = unwrap-some obj.metadata.namespace ns named;
            handled = handled.0;
          },
          is_virtual,
        ),
        Later-trans w w1 w' [] _ earlier patched,
      )

  delete_obj-Done :
      (w w' : World) (obj : DynamicObject)
      → IsFine w.apiset
      → delete_obj ctx w obj ≡ ok w'
      → Done (IsDeleted ctx Handles) w w' obj
  unfolding delete_obj
  delete_obj-Done w w' obj s e =
      let (ns, named, e1) = bind-eq-ok (unwrap obj.metadata.namespace) _ e in
      let vobj : DynamicObject = record obj {
        metadata = record (obj.metadata) { namespace = some (virtual_name ctx ns) };
      } in
      let (api, found, performed) =
        bind-eq-ok (api_for_obj ctx.parse ctx.discover w.apiset vobj).0 _ e1 in
      let (gvk, typed) = api_for_obj-typed ctx.parse ctx.discover w.apiset vobj api found in
      let handled = finds w.apiset vobj gvk (virtual_name ctx ns) api typed refl found s in
      (
        deleted api (n.name_any obj.metadata),
        (
          gvk,
          ns,
          api,
          refl,
          record {
            typed = typed_as vobj refl gvk typed;
            there = unwrap-some obj.metadata.namespace ns named;
            handled = handled.0;
          },
        ),
        perform-Later (record w { apiset = (api_for_obj ctx.parse ctx.discover w.apiset vobj).1 })
            w' (delete_named api (n.name_any obj.metadata)) (handled.1) performed,
      )
    where
      typed_as :
          (vobj : DynamicObject)
          → vobj.types ≡ obj.types
          → (gvk : Gvk) → from_dynamic_obj ctx.parse vobj ≡ ok gvk
          → from_dynamic_obj ctx.parse obj ≡ ok gvk
      typed_as vobj same gvk typed = from_dynamic_obj-types ctx.parse obj vobj (sym same) ∙ typed

  each-Later :
      (f : World → DynamicObject → Outcome World) (P : DynamicObject → Step → Type 0)
      → ((w w' : World) (obj : DynamicObject) → IsFine w.apiset → f w obj ≡ ok w' → Done P w w' obj)
      → (w w' : World) (objs : List DynamicObject) → IsFine w.apiset
      → each f w objs ≡ ok w'
      → (xs : List Step) × Each P objs xs × Later w w' xs
  each-Later f P h w w' [] s e = ([], tt, Later-refl w w' s (ok_injective w w' e))
  each-Later f P h w w' (obj ∷ objs) s e =
      let (v, first, rest) = bind-eq-ok (f w obj) _ e in
      let (x, did, later) = h w v obj s first in
      let (xs, others, latest) = each-Later f P h v w' objs later.1 rest in
      (x ∷ xs, (did, others), Later-trans w v w' (x ∷ []) xs later latest)

  pub run_events-Later :
      (w w' : World) (sim_ts : ℤ) (items : List (TraceEvent × Option ℤ))
      → IsFine w.apiset
      → run_events ctx w sim_ts items ≡ ok w'
      → (xs : List Step) × Asked ctx Handles sim_ts items xs × Later w w' xs
  unfolding run_events
  run_events-Later w w' sim_ts [] s e = ([], no_more, Later-refl w w' s (ok_injective w w' e))
  run_events-Later w w' sim_ts ((evt, none) ∷ items) s e =
      let (w1, applying, e1) = bind-eq-ok (each (apply_obj ctx) w evt.applied_objs) _ e in
      let (w2, deleting, e2) = bind-eq-ok (each (delete_obj ctx) w1 evt.deleted_objs) _ e1 in
      let (ys, a, la) =
        each-Later (apply_obj ctx) (IsApplied ctx Handles) apply_obj-Done w w1 evt.applied_objs s
          applying in
      let (ds, d, ld) =
        each-Later (delete_obj ctx) (IsDeleted ctx Handles) delete_obj-Done w1 w2 evt.deleted_objs
          la.1 deleting in
      let (xs, asked, lx) = run_events-Later w2 w' sim_ts items ld.1 e2 in
      (_, final ys ds a d asked, Later-trans w w1 w' ys _ la (Later-trans w1 w2 w' ds xs ld lx))
  run_events-Later w w' sim_ts ((evt, some next_ts) ∷ items) s e =
      let (w1, applying, e1) = bind-eq-ok (each (apply_obj ctx) w evt.applied_objs) _ e in
      let (w2, deleting, e2) = bind-eq-ok (each (delete_obj ctx) w1 evt.deleted_objs) _ e1 in
      let (w3, sleeping, e3) =
        bind-eq-ok (perform ctx w2 (sleep (ctx.at_speed (to_ℕ (next_ts -ℤ sim_ts))))) _ e2 in
      let (ys, a, la) =
        each-Later (apply_obj ctx) (IsApplied ctx Handles) apply_obj-Done w w1 evt.applied_objs s
          applying in
      let (ds, d, ld) =
        each-Later (delete_obj ctx) (IsDeleted ctx Handles) delete_obj-Done w1 w2 evt.deleted_objs
          la.1 deleting in
      let ls = perform-Later w2 w3 _ ld.1 sleeping in
      let (xs, asked, lx) = run_events-Later w3 w' next_ts items ls.1 e3 in
      (
        _,
        followed ys ds a d asked,
        Later-trans w w1 w' ys _ la
            (Later-trans w1 w2 w' ds _ ld (Later-trans w2 w3 w' (slept _ ∷ []) xs ls lx)),
      )

-- A run of events that succeeds has done, apart from making namespaces, exactly what the events ask for and in
-- their order, if the cache of handles was sound before. Each applied object is applied by its name, as the object
-- that stands for it in its virtual namespace, and each deleted object is deleted by its name, both through the
-- handle for their kind in their virtual namespace; and there is a sleep until each next event. What stands for
-- an object has its type, its name, the label for virtual objects, the root as an owner, and its content, with
-- the patches for a template if its kind has a pod template.
pub run_events-Asked :
    ⦃n : Naming⦄ ⦃p : Pointers⦄ (ctx : Driver) (w w' : World) (sim_ts : ℤ)
    (items : List (TraceEvent × Option ℤ))
    → IsCache w.apiset
    → run_events ctx w sim_ts items ≡ ok w'
    → (added : List Step) × Asked ctx IsHandle sim_ts items added
      × (steps w'.calls ≡ steps w.calls ++ added)
run_events-Asked ctx w w' sim_ts items sound e =
    let (added, asked, later) =
      run_events-Later ctx IsHandle IsCache (api_for_obj-handle ctx.parse ctx.discover) w w' sim_ts
        items sound e in
    (added, asked, later.0)
