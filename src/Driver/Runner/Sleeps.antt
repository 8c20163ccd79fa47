-- ===== src/Driver/Runner/Sleeps.antt =====
-- How long a run of a trace sleeps.
use simkube.Common.{ℕ, ◌+◌, ◌≡◌, refl, ap, ◌∙◌, List, [], ◌∷◌, ◌++◌, ok, arith, String}
use simkube.Common.Int.{ℤ, pos, ◌+ℤ◌, ◌-ℤ◌, ◌<ℤ◌, to_ℕ, pos_part, neg_part, eq_of_parts, +ℤ_parts}
use simkube.Core.ApiSet.{Api}
use simkube.Core.Gvk.{Gvk}
use simkube.Core.Kube.{DynamicObject, Naming}
use simkube.Core.Patch.{Pointers}
use simkube.Driver.Runner.{Driver, World, run_events}
use simkube.Driver.Runner.Asked.{run_events-Later}
use simkube.Driver.Runner.Steps.{
  Step, applied, deleted, slept, steps, Each, IsApplied, IsDeleted, Asked, final, followed, no_more,
}
use simkube.Store.Event.{TraceEvent}
use simkube.Store.Iterator.{paired}
use simkube.Store.TraceStore.Sorted.{IsSorted}

abbrev pub total : List Step → ℕ
total [] = 0
total (applied api name obj ∷ xs) = total xs
total (deleted api name ∷ xs) = total xs
total (slept seconds ∷ xs) = seconds + total xs

total-append : (xs ys : List Step) → total (xs ++ ys) ≡ total xs + total ys
total-append [] ys = omega arith
total-append (applied api name obj ∷ xs) ys = total-append xs ys
total-append (deleted api name ∷ xs) ys = total-append xs ys
total-append (slept seconds ∷ xs) ys = omega (arith, total-append xs ys)

abbrev pub last_ts : TraceEvent → List TraceEvent → ℤ
last_ts evt [] = evt.ts
last_ts evt (next ∷ events) = last_ts next events

-- The part of a later time after an earlier one.
to_ℕ-sub :
    (a b : ℤ) → a <ℤ b → pos_part (b -ℤ a) + pos_part a + neg_part b ≡ pos_part b + neg_part a
unfolding ◌-ℤ◌
to_ℕ-sub a b h = ground arith

module _ ⦃n : Naming⦄ ⦃p : Pointers⦄ (ctx : Driver) (Handles : String → Gvk → Api → Type 0) where
  total-Each :
      (P : DynamicObject → Step → Type 0)
      → ((obj : DynamicObject) (x : Step) → P obj x → total (x ∷ []) ≡ 0)
      → (objs : List DynamicObject) (xs : List Step) → Each P objs xs
      → total xs ≡ 0
  total-Each P h [] [] each = refl
  total-Each P h (obj ∷ objs) (x ∷ xs) (one, each) =
      omega (arith, total-append (x ∷ []) xs, h obj x one, total-Each P h objs xs each)
  total-Each P h [] (x ∷ xs) each = absurd each
  total-Each P h (obj ∷ objs) [] each = absurd each

  total-applied :
      (obj : DynamicObject) (x : Step) → IsApplied ctx Handles obj x → total (x ∷ []) ≡ 0
  total-applied obj x (gvk, ns, api, vobj, e, _, _) = rw e refl

  total-deleted :
      (obj : DynamicObject) (x : Step) → IsDeleted ctx Handles obj x → total (x ∷ []) ≡ 0
  total-deleted obj x (gvk, ns, api, e, _) = rw e refl

  total-objects :
      (evt : TraceEvent) (ys ds xs : List Step)
      → Each (IsApplied ctx Handles) evt.applied_objs ys
      → Each (IsDeleted ctx Handles) evt.deleted_objs ds
      → total (ys ++ (ds ++ xs)) ≡ total xs
  total-objects evt ys ds xs a d = omega (
    arith,
    total-append ys (ds ++ xs),
    total-append ds xs,
    total-Each (IsApplied ctx Handles) total-applied evt.applied_objs ys a,
    total-Each (IsDeleted ctx Handles) total-deleted evt.deleted_objs ds d,
  )

  -- The time that is slept between events, each of which has the next one's timestamp with it.
  total-Asked :
      (evt : TraceEvent) (events : List TraceEvent) (xs : List Step)
      → ((k : ℕ) → ctx.at_speed k ≡ k)
      → IsSorted (evt ∷ events)
      → Asked ctx Handles evt.ts (paired (evt ∷ events)) xs
      → pos_part evt.ts + total xs + neg_part (last_ts evt events)
        ≡ pos_part (last_ts evt events) + neg_part evt.ts
  total-Asked evt [] _ speed sorted (final ys ds a d no_more) =
      omega (arith, total-objects evt ys ds [] a d)
  total-Asked evt (next ∷ events) _ speed sorted (followed {rest = rest} ys ds a d asked) = omega (
    arith,
    total-objects evt ys ds (slept (ctx.at_speed (to_ℕ (next.ts -ℤ evt.ts))) ∷ rest) a d,
    speed (to_ℕ (next.ts -ℤ evt.ts)),
    to_ℕ-sub evt.ts next.ts sorted.0,
    total-Asked next events rest speed sorted.1 asked,
  )

module _ ⦃n : Naming⦄ (ctx : Driver) where
  -- At the speed of the trace, a run that succeeds sleeps in all exactly from the first timestamp of the
  -- trace to the last one, if the timestamps grow strictly.
  pub run_events-total :
      ⦃p : Pointers⦄ (w w' : World) (evt : TraceEvent) (events : List TraceEvent)
      → ((k : ℕ) → ctx.at_speed k ≡ k)
      → IsSorted (evt ∷ events)
      → run_events ctx w evt.ts (paired (evt ∷ events)) ≡ ok w'
      → evt.ts +ℤ pos (total (steps w'.calls)) ≡ last_ts evt events +ℤ pos (total (steps w.calls))
  run_events-total w w' evt events speed sorted e =
      let (added, asked, ran) =
        run_events-Later ctx (λ ns gvk api. Unit) (λ s. Unit)
          (λ s obj gvk ns api typed there found fine. (tt, tt)) w w' evt.ts (paired (evt ∷ events))
          tt e in
      let whole : total (steps w'.calls) ≡ total (steps w.calls) + total added =
        ap total ran.0 ∙ total-append (steps w.calls) added in
      eq_of_parts _ _ (
        omega (
          arith,
          whole,
          total-Asked ctx (λ ns gvk api. Unit) evt events added speed sorted asked,
          +ℤ_parts evt.ts (pos (total (steps w'.calls))),
          +ℤ_parts (last_ts evt events) (pos (total (steps w.calls))),
        ))
