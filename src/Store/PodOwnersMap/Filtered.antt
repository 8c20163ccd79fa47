-- ===== src/Store/PodOwnersMap/Filtered.antt =====
-- What an export keeps of a `PodOwnersMap`.
use simkube.Common.{
  ℕ, ◌≡◌, Option, none, some, List, [], ◌∷◌, String, string_eq, nat_eq, if◌then◌else◌,
}
use simkube.Common.Int.{ℤ}
use simkube.Common.Map
use simkube.Common.Map.{Map, IsMap}
use simkube.Core.Lifecycle.{PodLifecycleData}
use simkube.Core.Lifecycle.Window.{Overlaps}
use simkube.Store.PodOwnersMap.{
  PodLifecyclesMap, PodOwnersMap, filter_sequence, filter_lifecycles_map,
}

-- The lifecycles of one owner and hash that an export holds.
abbrev pub exported : Map String PodLifecyclesMap → String → ℕ → Option (List PodLifecycleData)
exported m owner hash = elim (Map.get m owner) [ none ↦ none | some ls ↦ Map.get ls hash ]

abbrev sequences : ℤ → ℤ → ℕ → List PodLifecycleData → Option (List PodLifecycleData)
sequences start end hash = filter_sequence start end

abbrev owned : Map String ℕ → ℤ → ℤ → String → PodLifecyclesMap → Option PodLifecyclesMap
owned index start end owner ls =
    if Map.contains_key index owner then filter_lifecycles_map start end ls else none

-- No map of the structure holds a key twice.
pub record IsMaps (p : PodOwnersMap) : Type 0 where
  pub outer : IsMap p.m
  pub inner : (owner : String) (ls : PodLifecyclesMap) → Map.get p.m owner ≡ some ls → IsMap ls

module _ (start end : ℤ) where
  -- Of some lifecycles, in their order, those that the window holds.
  pub data Selects : List PodLifecycleData → List PodLifecycleData → Type 0 where
    nothing : Selects [] []
    kept :
        {l : PodLifecycleData} {ls chosen : List PodLifecycleData}
        → Overlaps l start end
        → Selects ls chosen
        → Selects (l ∷ ls) (l ∷ chosen)
    left_out :
        {l : PodLifecycleData} {ls chosen : List PodLifecycleData}
        → ¬ Overlaps l start end
        → Selects ls chosen
        → Selects (l ∷ ls) chosen
