-- ===== src/Core/Gvk.antt =====
-- sk-core/src/k8s/gvk.rs: group, version and kind of an API type, and its text form.
use Prim.Native.Char.{Char}
use text.Mathlib.TextEquality.{eq_iff}
use text.Mathlib.TextLemmas.{nil-append, cons-append, append_assoc}
use simkube.Common.{
  ◌≡◌, ◌↔◌, inl, inr, Bool-cases, refl, ap, sym, ◌∙◌, Bool, true, false, ◌&&◌, none, some, List, [],
  ◌∷◌, String, Outcome, ok, err, message, arith, Eq, ◌==◌, string_eq, if◌then◌else◌,
}
use simkube.Common.Text.{
  append, push_front, has_char, split, split_whole, split-append, has_char-append,
}
use simkube.Core.Kube.{OwnerReference, TypeMeta, DynamicObject}

pub record Gvk : Type 0 where
  pub group : String
  pub version : String
  pub kind : String

abbrev pub gvk_beq : Gvk → Gvk → Bool
gvk_beq a b = a.group == b.group && a.version == b.version && a.kind == b.kind

pub gvk_beq_iff : (a b : Gvk) → (gvk_beq a b ≡ true) ↔ (a ≡ b)
gvk_beq_iff a b =
    ground (arith, eq_iff a.group b.group, eq_iff a.version b.version, eq_iff a.kind b.kind)

instance abbrev pub gvk_eq : Eq Gvk
gvk_eq = record { beq = gvk_beq; beq_iff = gvk_beq_iff }

-- How the `kube` crate reads an API version and a kind.
abbrev pub TypeParser : Type 0
TypeParser = TypeMeta → Outcome Gvk

unfoldable pub from_dynamic_obj : TypeParser → DynamicObject → Outcome Gvk
from_dynamic_obj parse obj = elim obj.types [
  | some t ↦ parse t
  | none ↦ err (message "no type data present")
]

of_parts : List String → String → Outcome Gvk
of_parts (version ∷ []) kind = ok (record { group = ""; version = version; kind = kind })
of_parts (group ∷ version ∷ []) kind = ok (record { group = group; version = version; kind = kind })
of_parts _ kind = err (message "invalid format for api_version")

unfoldable pub from_owner_ref : OwnerReference → Outcome Gvk
unfolding of_parts
from_owner_ref rf = of_parts (split b'/' rf.api_version) rf.kind

abbrev with_slash : String → String
with_slash group = if group == "" then "" else append group "/"

-- `Serialize`: "group/version.kind", or "version.kind" for the core group.
unfoldable pub serialize : Gvk → String
serialize g = append (with_slash g.group) (append g.version (append "." g.kind))

version_kind : String → List String → Outcome Gvk
version_kind group (version ∷ kind ∷ []) =
    ok (record { group = group; version = version; kind = kind })
version_kind group _ = err (message "invalid format for gvk")

group_rest : List String → Outcome Gvk
unfolding version_kind
group_rest (group ∷ rest ∷ []) = version_kind group (split b'.' rest)
group_rest (rest ∷ []) = version_kind "" (split b'.' rest)
group_rest _ = err (message "invalid format for gvk")

-- `visit_str` of the deserializer.
unfoldable pub visit_str : String → Outcome Gvk
unfolding group_rest
visit_str value = group_rest (split b'/' value)

abbrev dot : Char
dot = "."

abbrev slash : Char
slash = "/"

dotted :
    (version kind : String)
    → append version (append "." kind) ≡ append version (push_front dot kind)
dotted version kind =
    ap (append version) (cons-append dot "" kind ∙ ap (push_front dot) (nil-append kind))

slash_first : (s : String) → append "/" s ≡ push_front slash s
slash_first s = cons-append slash "" s ∙ ap (push_front slash) (nil-append s)

refl_slash : has_char b'/' "" ≡ false
unfolding has_char
refl_slash = refl

module _ (version kind : String) (version_plain : has_char b'.' version ≡ false)
    (kind_plain : has_char b'.' kind ≡ false) (version_flat : has_char b'/' version ≡ false)
    (kind_flat : has_char b'/' kind ≡ false) where
  split_rest : split b'.' (append version (append "." kind)) ≡ version ∷ kind ∷ []
  split_rest = rw (
    dotted version kind,
    split-append b'.' dot version kind refl version_plain,
    split_whole b'.' kind kind_plain,
  )

  rest_flat : has_char b'/' (append version (append "." kind)) ≡ false
  unfolding has_char
  rest_flat =
      rw (dotted version kind, has_char-append b'/' version (push_front dot kind), version_flat)
        kind_flat

  -- What the reader makes of a group, a slash and the rest.
  slash_form :
      (group : String)
      → has_char b'/' group ≡ false
      → visit_str (append group (push_front slash (append version (append "." kind))))
        ≡ ok (record { group = group; version = version; kind = kind })
  unfolding visit_str version_kind
  slash_form group h =
      ap group_rest (
        split-append b'/' slash group (append version (append "." kind)) refl h
        ∙ ap (λ ps. group ∷ ps) (split_whole b'/' (append version (append "." kind)) rest_flat))
      ∙ ap (version_kind group) split_rest

  core_form :
      visit_str (append version (append "." kind))
      ≡ ok (record { group = ""; version = version; kind = kind })
  unfolding visit_str version_kind
  core_form =
      ap group_rest (split_whole b'/' (append version (append "." kind)) rest_flat)
      ∙ ap (version_kind "") split_rest

  serialize_core :
      serialize (record { group = ""; version = version; kind = kind })
      ≡ append version (append "." kind)
  unfolding serialize
  serialize_core = nil-append (append version (append "." kind))

  serialize-slash :
      (group : String)
      → (group == "") ≡ false
      → serialize (record { group = group; version = version; kind = kind })
        ≡ append group (push_front slash (append version (append "." kind)))
  unfolding serialize
  serialize-slash group h =
      ap (λ g. append g (append version (append "." kind)))
        (ap (λ b. if b then "" else append group "/") h)
      ∙ append_assoc group "/" (append version (append "." kind))
      ∙ ap (append group) (slash_first (append version (append "." kind)))

  -- What was serialized is read back, whatever the dots in the group; so is the older form of the
  -- core group, with a slash in front. The texts hold no slash, and the version and the kind no dot.
  pub visit_str-serialize :
      (group : String)
      → has_char b'/' group ≡ false
      → (visit_str (serialize (record { group = group; version = version; kind = kind }))
          ≡ ok (record { group = group; version = version; kind = kind }))
        × (visit_str (append "/" (append version (append "." kind)))
            ≡ ok (record { group = ""; version = version; kind = kind }))
  visit_str-serialize group h = (
    elim (Bool-cases (group == "")) [
      | inl e ↦ rw ((eq_iff group "").0 e) (ap visit_str serialize_core ∙ core_form)
      | inr e ↦ ap visit_str (serialize-slash group e) ∙ slash_form group h
    ],
    ap visit_str (
          slash_first (append version (append "." kind))
          ∙ sym (nil-append (push_front slash (append version (append "." kind)))))
        ∙ slash_form "" refl_slash,
  )
