-- ===== src/Core/Lifecycle/Window.antt =====
-- Which pods a time window holds.
use simkube.Common.{◌≡◌, ◌↔◌, ◌⊎◌, true, false, arith}
use simkube.Common.Int.{ℤ, ◌≤ℤ◌, ◌<ℤ◌}
use simkube.Core.Lifecycle.{PodLifecycleData, empty, running, finished, overlaps}

-- The event at `t` lies in the window, its end excluded.
abbrev pub Within : ℤ → ℤ → ℤ → Type 0
Within start end t = (start ≤ℤ t) × (t <ℤ end)

abbrev pub Overlaps : PodLifecycleData → ℤ → ℤ → Type 0
Overlaps empty start end = ⊥
Overlaps (running s) start end = s <ℤ end
Overlaps (finished s e) start end = Within start end s ⊎ Within start end e

-- A pod with no lifecycle is in no window, one that still runs is in each window that ends after
-- its start, and one that ended is in those that hold its start or its end.
pub overlaps_iff :
    (l : PodLifecycleData) (start end : ℤ) → (overlaps l start end ≡ true) ↔ Overlaps l start end
unfolding overlaps
overlaps_iff empty start end = ground arith
overlaps_iff (running s) start end = ground arith
overlaps_iff (finished s e) start end = ground arith

-- A pod that started before the window and ended at its end or later ran all through it, and is
-- left out; the same pod with no end recorded is counted, if the window is not empty.
pub overlaps_spanning :
    (s e start end : ℤ)
    → s <ℤ start
    → end ≤ℤ e
    → start <ℤ end
    → (overlaps (finished s e) start end ≡ false) × (overlaps (running s) start end ≡ true)
unfolding overlaps
overlaps_spanning s e start end h k l = ground arith
