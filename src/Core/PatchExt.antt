-- ===== src/Core/PatchExt.antt =====
-- sk-core/src/jsonutils/patch_ext.rs: names as parts of a JSON pointer; and the patches that
-- sk-core/src/k8s/pod_lifecycle.rs makes of a lifecycle.
use simkube.Common.{
  ℕ, zero, suc, ◌/◌, ◌%◌, Option, none, some, [], ◌∷◌, String, ltb, unwrap_or, get_elem?,
  if◌then◌else◌,
}
use simkube.Common.Int.{ℤ, pos, negsuc, ◌-ℤ◌}
use simkube.Common.Text.{append, replace}
use simkube.Core.Constants.{lifetime_annotation_key}
use simkube.Core.Json.{Value, string}
use simkube.Core.Lifecycle.{PodLifecycleData, finished}

-- `PatchOperation::Add` of the `json_patch` crate.
pub record AddOperation : Type 0 where
  pub path : String
  pub value : Value

unfoldable pub escape : String → String
escape path = replace b'/' "~1" (replace b'~' "~0" path)

digit : ℕ → String
digit n =
    unwrap_or (get_elem? ("0" ∷ "1" ∷ "2" ∷ "3" ∷ "4" ∷ "5" ∷ "6" ∷ "7" ∷ "8" ∷ "9" ∷ []) n) ""

-- The decimal digits, with fuel for as many as there can be.
digits : ℕ → ℕ → String
digits zero n = ""
digits (suc fuel) n =
    let more = digits fuel (n / 10) in if ltb n 10 then digit n else append more (digit (n % 10))

-- `format!("{}", n)`.
unfoldable pub show_ℤ : ℤ → String
unfolding digits digit
show_ℤ (pos n) = digits (suc n) n
show_ℤ (negsuc n) = append "-" (digits (suc (suc n)) (suc n))

unfoldable pub to_annotation_patch : PodLifecycleData → Option AddOperation
unfolding escape
to_annotation_patch (finished start end) = some (record {
  path = append "/metadata/annotations/" (escape lifetime_annotation_key);
  value = string (show_ℤ (end -ℤ start));
})
to_annotation_patch _ = none
