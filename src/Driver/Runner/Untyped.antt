-- ===== src/Driver/Runner/Untyped.antt =====
-- Deletions that the trace store made up from a name alone.
use simkube.Common.{
  ◌≡◌, ◌≢◌, ◌⊎◌, inl, inr, refl, Option, none, some, List, [], ◌∷◌, String, Outcome, ok, err, panic,
  arith, Member,
}
use mathlib.Core.Path.{subst}
use simkube.Common.Int.{ℤ, ◌-ℤ◌, to_ℕ}
use simkube.Core.ApiSet.{api_for_obj}
use simkube.Core.Gvk.{from_dynamic_obj}
use simkube.Core.Kube.{DynamicObject, Naming}
use simkube.Core.Patch.{Pointers}
use simkube.Core.Util.{build_deletable}
use simkube.Store.Event.{TraceEvent}
use simkube.Driver.Runner.{Driver, World, perform, sleep, apply_obj, delete_obj, each, run_events}

module _ ⦃n : Naming⦄ ⦃p : Pointers⦄ (ctx : Driver) where
  untyped-fails :
      (w w' : World) (obj : DynamicObject) → obj.types ≡ none → delete_obj ctx w obj ≡ ok w' → ⊥
  unfolding delete_obj api_for_obj from_dynamic_obj
  untyped-fails w w' obj t e = go obj.metadata.namespace refl
    where
      go : (o : Option String) → obj.metadata.namespace ≡ o → ⊥
      go none f = absurd (ground (arith, f, e))
      go (some ns) f = absurd (ground (arith, f, t, e))

  each-fails :
      (objs : List DynamicObject) (w w' : World) (obj : DynamicObject)
      → obj.types ≡ none
      → Member obj objs
      → each (delete_obj ctx) w objs ≡ ok w'
      → ⊥
  each-fails [] w w' obj t m e = m
  each-fails (x ∷ objs) w w' obj t m e = go m (each-fails objs) (delete_obj ctx w x) refl
    where
      go :
          (obj ≡ x) ⊎ Member obj objs
          → ((v v' : World) (y : DynamicObject)
              → y.types ≡ none
              → Member y objs
              → each (delete_obj ctx) v objs ≡ ok v'
              → ⊥)
          → (o : Outcome World) → delete_obj ctx w x ≡ o
          → ⊥
      go (inl same) ih (ok v) f = untyped-fails w v x (subst (λ y. y.types ≡ none) same t) f
      go (inr later) ih (ok v) f = ih v w' obj t later (rw f at e)
      go k ih (err z) f = absurd (ground (arith, e, f))
      go k ih panic f = absurd (ground (arith, e, f))

  -- Some event of these deletes an object without a type.
  abbrev pub DeletesUntyped : List (TraceEvent × Option ℤ) → Type 0
  DeletesUntyped [] = ⊥
  DeletesUntyped ((evt, next) ∷ items) =
      ((obj : DynamicObject) × (obj.types ≡ none) × Member obj evt.deleted_objs)
      ⊎ DeletesUntyped items

  abbrev Fails : World → ℤ → List (TraceEvent × Option ℤ) → Type 0
  Fails w ts items = (w' : World) → run_events ctx w ts items ≡ ok w' → ⊥

  abbrev Untyped : TraceEvent → Type 0
  Untyped evt = (obj : DynamicObject) × (obj.types ≡ none) × Member obj evt.deleted_objs

  abbrev applied : World → TraceEvent → Outcome World
  applied w evt = each (apply_obj ctx) w evt.applied_objs

  -- An event whose own calls succeed deletes no object without a type.
  typed :
      (evt : TraceEvent) (w1 w2 : World)
      → each (delete_obj ctx) w1 evt.deleted_objs ≡ ok w2
      → Untyped evt
      → ⊥
  typed evt w1 w2 f (obj, t, m) = each-fails evt.deleted_objs w1 w2 obj t m f

  run-Fails :
      (items : List (TraceEvent × Option ℤ)) (w : World) (ts : ℤ)
      → DeletesUntyped items
      → Fails w ts items
  unfolding run_events
  run-Fails [] w ts d w' e = d
  run-Fails ((evt, none) ∷ items) w ts d w' e = go1 (run-Fails items) d (applied w evt) refl
    where
      go2 :
          ((v : World) (ts : ℤ) → DeletesUntyped items → Fails v ts items)
          → Untyped evt ⊎ DeletesUntyped items
          → (w1 : World) → applied w evt ≡ ok w1
          → (o : Outcome World) → each (delete_obj ctx) w1 evt.deleted_objs ≡ o
          → ⊥
      go2 ih (inl u) w1 f (ok w2) g = typed evt w1 w2 g u
      go2 ih (inr later) w1 f (ok w2) g = ih w2 ts later w' (rw (run_events, f, g) at e)
      go2 ih k w1 f (err z) g = absurd (ground (arith, e, f, g))
      go2 ih k w1 f panic g = absurd (ground (arith, e, f, g))

      go1 :
          ((v : World) (ts : ℤ) → DeletesUntyped items → Fails v ts items)
          → Untyped evt ⊎ DeletesUntyped items
          → (o : Outcome World) → applied w evt ≡ o
          → ⊥
      go1 ih k (ok w1) f = go2 ih k w1 f (each (delete_obj ctx) w1 evt.deleted_objs) refl
      go1 ih k (err z) f = absurd (ground (arith, e, f))
      go1 ih k panic f = absurd (ground (arith, e, f))
  run-Fails ((evt, some next_ts) ∷ items) w ts d w' e = go1 (run-Fails items) d (applied w evt) refl
    where
      call : World → Outcome World
      call w2 = perform ctx w2 (sleep (ctx.at_speed (to_ℕ (next_ts -ℤ ts))))

      go3 :
          ((v : World) (ts : ℤ) → DeletesUntyped items → Fails v ts items)
          → DeletesUntyped items
          → (w1 w2 : World) → applied w evt ≡ ok w1
          → each (delete_obj ctx) w1 evt.deleted_objs ≡ ok w2
          → (o : Outcome World) → perform ctx w2 (sleep (ctx.at_speed (to_ℕ (next_ts -ℤ ts)))) ≡ o
          → ⊥
      go3 ih later w1 w2 f g (ok w3) k = ih w3 next_ts later w' (rw (run_events, f, g, k) at e)
      go3 ih later w1 w2 f g (err z) k = absurd (ground (arith, e, f, g, k))
      go3 ih later w1 w2 f g panic k = absurd (ground (arith, e, f, g, k))

      go2 :
          ((v : World) (ts : ℤ) → DeletesUntyped items → Fails v ts items)
          → Untyped evt ⊎ DeletesUntyped items
          → (w1 : World) → applied w evt ≡ ok w1
          → (o : Outcome World) → each (delete_obj ctx) w1 evt.deleted_objs ≡ o
          → ⊥
      go2 ih (inl u) w1 f (ok w2) g = typed evt w1 w2 g u
      go2 ih (inr later) w1 f (ok w2) g = go3 ih later w1 w2 f g _ refl
      go2 ih k w1 f (err z) g = absurd (ground (arith, e, f, g))
      go2 ih k w1 f panic g = absurd (ground (arith, e, f, g))

      go1 :
          ((v : World) (ts : ℤ) → DeletesUntyped items → Fails v ts items)
          → Untyped evt ⊎ DeletesUntyped items
          → (o : Outcome World) → applied w evt ≡ o
          → ⊥
      go1 ih k (ok w1) f = go2 ih k w1 f (each (delete_obj ctx) w1 evt.deleted_objs) refl
      go1 ih k (err z) f = absurd (ground (arith, e, f))
      go1 ih k panic f = absurd (ground (arith, e, f))

  -- A run never succeeds if some event deletes an object without a type, whatever the server says;
  -- an object that is made up from a name has none.
  pub run_events-DeletesUntyped :
      (items : List (TraceEvent × Option ℤ)) (w w' : World) (sim_ts : ℤ)
      → DeletesUntyped items
      → (run_events ctx w sim_ts items ≢ ok w') × ((k : String) → (build_deletable k).types ≡ none)
  unfolding run_events build_deletable
  run_events-DeletesUntyped items w w' sim_ts d = (λ e. run-Fails items w sim_ts d w' e, λ k. refl)
