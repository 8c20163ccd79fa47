-- ===== src/Ctrl/Context/Names.antt =====
-- Simulations do not share the names of their objects.
use text.Mathlib.TextLemmas.{append_cancel_left, append_cancel_right}
use simkube.Common.{◌≡◌, ◌≢◌, String}
use simkube.Common.Text.{append}
use simkube.Core.Kube.{Naming}
use simkube.Core.Simulation.{Simulation}
use simkube.Ctrl.Context.{SimulationContext, sk_name, with_sim}

sk_name_injective : (a b suffix : String) → sk_name a suffix ≡ sk_name b suffix → a ≡ b
sk_name_injective a b suffix e =
    append_cancel_right a b suffix (append_cancel_left "sk-" (append a suffix) (append b suffix) e)

-- Two simulations of different names have different roots, drivers, services, Prometheus objects and
-- webhooks, so that neither takes what belongs to the other for its own.
pub with_sim_names :
    ⦃n : Naming⦄ (ctx : SimulationContext) (sim other : Simulation)
    → n.name_any sim.metadata ≢ n.name_any other.metadata
    → ((with_sim ctx sim).metaroot_name ≢ (with_sim ctx other).metaroot_name)
      × ((with_sim ctx sim).driver_name ≢ (with_sim ctx other).driver_name)
      × ((with_sim ctx sim).driver_svc ≢ (with_sim ctx other).driver_svc)
      × ((with_sim ctx sim).prometheus_name ≢ (with_sim ctx other).prometheus_name)
      × ((with_sim ctx sim).webhook_name ≢ (with_sim ctx other).webhook_name)
unfolding with_sim
with_sim_names ctx sim other h = (
  λ e. h (sk_name_injective _ _ "-metaroot" e),
  λ e. h (sk_name_injective _ _ "-driver" e),
  λ e. h (sk_name_injective _ _ "-driver-svc" e),
  λ e. h (sk_name_injective _ _ "-prom" e),
  λ e. h (sk_name_injective _ _ "-mutatepods" e),
)
