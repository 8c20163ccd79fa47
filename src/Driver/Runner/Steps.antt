-- ===== src/Driver/Runner/Steps.antt =====
-- What a run of a trace does, in order.
use simkube.Common.{
  ℕ, ◌≡◌, refl, ap, Option, none, some, List, [], ◌∷◌, ◌++◌, String, ok, string_eq,
}
use simkube.Common.Int.{ℤ, ◌-ℤ◌, to_ℕ}
use simkube.Core.ApiSet.{Api, namespaced_with}
use simkube.Core.Gvk.{Gvk, from_dynamic_obj}
use simkube.Core.Kube.{DynamicObject, Naming}
use simkube.Core.Patch.{Pointers}
use simkube.Driver.Runner.{
  Call, create_namespace, patch_obj, delete_named, sleep, Driver, virtual_name,
}
use simkube.Driver.Runner.Virtual.{IsVirtual}
use simkube.Store.Event.{TraceEvent}

-- What a call is for: an object is applied by its name, or deleted, through a handle, or time passes.
pub data Step : Type 0 where
  applied : Api → String → DynamicObject → Step
  deleted : Api → String → Step
  slept : ℕ → Step

-- The calls that make namespaces are passed over.
abbrev pub steps : List Call → List Step
steps [] = []
steps (create_namespace meta ∷ calls) = steps calls
steps (patch_obj api name obj ∷ calls) = applied api name obj ∷ steps calls
steps (delete_named api name ∷ calls) = deleted api name ∷ steps calls
steps (sleep seconds ∷ calls) = slept seconds ∷ steps calls

pub steps-append : (xs ys : List Call) → steps (xs ++ ys) ≡ steps xs ++ steps ys
steps-append [] ys = refl
steps-append (create_namespace meta ∷ xs) ys = steps-append xs ys
steps-append (patch_obj api name obj ∷ xs) ys =
    ap (λ zs. applied api name obj ∷ zs) (steps-append xs ys)
steps-append (delete_named api name ∷ xs) ys = ap (λ zs. deleted api name ∷ zs) (steps-append xs ys)
steps-append (sleep seconds ∷ xs) ys = ap (λ zs. slept seconds ∷ zs) (steps-append xs ys)

-- One step for each object, in their order.
abbrev pub Each : (DynamicObject → Step → Type 0) → List DynamicObject → List Step → Type 0
Each P [] [] = Unit
Each P (obj ∷ objs) (x ∷ xs) = P obj x × Each P objs xs
Each P _ _ = ⊥

module _ ⦃n : Naming⦄ ⦃p : Pointers⦄ (ctx : Driver) (Handles : String → Gvk → Api → Type 0) where
  -- An object of this kind and namespace of the trace is addressed in the virtual namespace, by a handle for
  -- the kind there.
  pub record IsAt (obj : DynamicObject) (gvk : Gvk) (ns : String) (api : Api) : Type 0 where
    pub typed : from_dynamic_obj ctx.parse obj ≡ ok gvk
    pub there : obj.metadata.namespace ≡ some ns
    pub handled : Handles (virtual_name ctx ns) gvk api

  abbrev pub IsApplied : DynamicObject → Step → Type 0
  IsApplied obj x =
      (gvk : Gvk) × (ns : String) × (api : Api) × (vobj : DynamicObject) × (x
        ≡ applied api (n.name_any obj.metadata) vobj)
      × IsAt obj gvk ns api
      × IsVirtual ctx gvk ns obj vobj

  abbrev pub IsDeleted : DynamicObject → Step → Type 0
  IsDeleted obj x =
      (gvk : Gvk) × (ns : String) × (api : Api) × (x ≡ deleted api (n.name_any obj.metadata))
      × IsAt obj gvk ns api

  -- The steps that the events ask for: the applied objects of an event in their order, then the deleted ones,
  -- and then the time until the next event, at the speed of the simulation.
  pub data Asked : ℤ → List (TraceEvent × Option ℤ) → List Step → Type 0 where
    no_more : {sim_ts : ℤ} → Asked sim_ts [] []
    final :
        {sim_ts : ℤ} {evt : TraceEvent} {items : List (TraceEvent × Option ℤ)} {rest : List Step}
        (ys ds : List Step)
        → Each IsApplied evt.applied_objs ys
        → Each IsDeleted evt.deleted_objs ds
        → Asked sim_ts items rest
        → Asked sim_ts ((evt, none) ∷ items) (ys ++ (ds ++ rest))
    followed :
        {sim_ts next_ts : ℤ} {evt : TraceEvent} {items : List (TraceEvent × Option ℤ)}
        {rest : List Step} (ys ds : List Step)
        → Each IsApplied evt.applied_objs ys
        → Each IsDeleted evt.deleted_objs ds
        → Asked next_ts items rest
        → Asked sim_ts
            ((evt, some next_ts) ∷ items)
            (ys ++ (ds ++ (slept (ctx.at_speed (to_ℕ (next_ts -ℤ sim_ts))) ∷ rest)))

-- The handle to objects of a kind in a namespace.
abbrev pub IsHandle : String → Gvk → Api → Type 0
IsHandle ns gvk api = api ≡ namespaced_with ns gvk
