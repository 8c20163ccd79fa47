-- ===== src/Store/Config.antt =====
-- sk-store/src/config.rs: which kinds of objects are tracked.
use simkube.Common.{Bool, false, Option, none, some, String, []}
use simkube.Common.Map
use simkube.Common.Map.{Map}
use simkube.Core.Gvk.{Gvk, gvk_eq}

pub record TrackedObjectConfig : Type 0 where
  pub pod_spec_template_path : Option String
  pub track_lifecycle : Bool

pub record TracerConfig : Type 0 where
  pub tracked_objects : Map Gvk TrackedObjectConfig

abbrev pub default_config : TracerConfig
default_config = record { tracked_objects = [] }

unfoldable pub pod_spec_template_path : TracerConfig → Gvk → Option String
pod_spec_template_path c gvk = elim (Map.get c.tracked_objects gvk) [
  | none ↦ none
  | some obj ↦ obj.pod_spec_template_path
]

unfoldable pub track_lifecycle_for : TracerConfig → Gvk → Bool
track_lifecycle_for c gvk = elim (Map.get c.tracked_objects gvk) [
  | none ↦ false
  | some obj ↦ obj.track_lifecycle
]
