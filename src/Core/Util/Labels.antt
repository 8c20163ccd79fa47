-- ===== src/Core/Util/Labels.antt =====
-- Label selectors against the meaning that Kubernetes gives to them.
use text.Mathlib.TextEquality.{eq_iff}
use simkube.Common.{
  ◌≡◌, ◌≢◌, refl, ◌↔◌, inl, inr, Bool, true, false, not, Option, none, some, List, [], ◌∷◌, String,
  ok, err, malformed_label_selector, arith, unwrap_or, string_eq, Member, All, option_beq,
  if◌then◌else◌, Option-cases,
}
use simkube.Common.Map
use simkube.Common.Map.{Map}
use simkube.Core.Kube.{ObjectMeta, LabelSelectorRequirement, LabelSelector}
use simkube.Core.Util.{
  labels_of, contains, label_expr_match, build_containment_label_selector, match_all, labels_match,
  matches,
}

contains→Member : (vs : List String) (v : String) → contains vs v ≡ true → Member v vs
contains→Member [] v h = ground arith
contains→Member (w ∷ vs) v h = ground (arith, eq_iff w v, contains→Member vs v)

Member→contains : (vs : List String) (v : String) → Member v vs → contains vs v ≡ true
Member→contains [] v h = elim h [ ]
Member→contains (w ∷ vs) v h = ground (arith, eq_iff w v, Member→contains vs v)

abbrev pub requirement : String → String → Option (List String) → LabelSelectorRequirement
requirement key operator values = record { key = key; operator = operator; values = values }

-- The object has the label, with one of the values.
abbrev pub HasOneOf : Map String String → String → List String → Type 0
HasOneOf labels key vs = (v : String) × (Map.get labels key ≡ some v) × Member v vs

-- With values given, `In` matches exactly the objects whose label has one of them, and `NotIn`
-- exactly the others; neither fails.
pub label_expr_match-In :
    (labels : Map String String) (key : String) (vs : List String)
    → vs ≢ []
    → (b : Bool) × (label_expr_match labels (requirement key "In" (some vs)) ≡ ok b)
      × (label_expr_match labels (requirement key "NotIn" (some vs)) ≡ ok (not b))
      × ((b ≡ true) ↔ HasOneOf labels key vs)
unfolding label_expr_match
label_expr_match-In labels key [] h = absurd (h refl)
label_expr_match-In labels key (w ∷ ws) h = elim (Option-cases (Map.get labels key)) [
  | inl e ↦ (false, ground arith, ground arith, (λ x. ground arith, λ x. ground (arith, x.1)))
  | inr (v, e) ↦ (
    contains (w ∷ ws) v,
    ground arith,
    ground arith,
    (λ x. (v, e, contains→Member (w ∷ ws) v x), λ x. found e x),
  )
]
  where
    found :
        {v : String}
        → Map.get labels key ≡ some v
        → HasOneOf labels key (w ∷ ws)
        → contains (w ∷ ws) v ≡ true
    found e x = ground (arith, Member→contains (w ∷ ws) x.0 x.2)

-- With no values given, `Exists` matches exactly the objects that have the label, and
-- `DoesNotExist` exactly the others; with values given, both fail.
pub label_expr_match-Exists :
    (labels : Map String String) (key : String) (v : String) (vs : List String)
    → (label_expr_match labels (requirement key "Exists" none) ≡ ok (Map.contains_key labels key))
      × (label_expr_match labels (requirement key "DoesNotExist" none)
          ≡ ok (not (Map.contains_key labels key)))
      × (label_expr_match labels (requirement key "Exists" (some (v ∷ vs)))
          ≡ err (malformed_label_selector key))
      × (label_expr_match labels (requirement key "DoesNotExist" (some (v ∷ vs)))
          ≡ err (malformed_label_selector key))
unfolding label_expr_match
label_expr_match-Exists labels key v vs = (refl, refl, refl, refl)

match_all-true :
    (labels : Map String String) (exprs : List LabelSelectorRequirement)
    → (match_all labels exprs ≡ ok true) ↔ All (λ x. label_expr_match labels x ≡ ok true) exprs
unfolding match_all
match_all-true labels [] = (λ h. tt, λ h. refl)
match_all-true labels (x ∷ xs) = ground (arith, match_all-true labels xs)

beq_some_iff : (o : Option String) (v : String) → (option_beq o (some v) ≡ true) ↔ (o ≡ some v)
beq_some_iff none v = ground arith
beq_some_iff (some w) v = ground (arith, eq_iff w v)

labels_match-true :
    (labels wanted : Map String String)
    → (labels_match labels wanted ≡ true) ↔ All (λ w. Map.get labels w.0 ≡ some w.1) wanted
unfolding labels_match
labels_match-true labels [] = (λ h. tt, λ h. refl)
labels_match-true labels ((k, v) ∷ wanted) =
    ground (arith, beq_some_iff (Map.get labels k) v, labels_match-true labels wanted)

-- An object matches a selector exactly when it matches each of its expressions and has each of its
-- labels with the value that is asked for.
pub matches-true :
    (meta : ObjectMeta) (sel : LabelSelector)
    → (matches meta sel ≡ ok true) ↔ (
        All
          (λ x. label_expr_match (labels_of meta) x ≡ ok true)
          (unwrap_or sel.match_expressions [])
        × All (λ w. Map.get (labels_of meta) w.0 ≡ some w.1) (unwrap_or sel.match_labels []))
unfolding matches
matches-true meta sel = ground (
  arith,
  match_all-true (labels_of meta) (unwrap_or sel.match_expressions []),
  labels_match-true (labels_of meta) (unwrap_or sel.match_labels []),
)

-- `In` without values: the label must not be there.
label_expr_match-empty :
    (labels : Map String String) (key : String)
    → label_expr_match labels (requirement key "In" (some []))
      ≡ (if Map.contains_key labels key then err (malformed_label_selector key) else ok false)
unfolding label_expr_match
label_expr_match-empty labels key = elim (Option-cases (Map.get labels key)) [
  | inl e ↦ ground arith
  | inr (v, e) ↦ ground arith
]

-- The selector for the values of a label matches exactly the objects whose label has one of them.
-- With no values it fails on the objects that have the label, and matches no other.
pub matches-build_containment_label_selector :
    (meta : ObjectMeta) (key : String) (vs : List String)
    → ((matches meta (build_containment_label_selector key vs) ≡ ok true)
        ↔ HasOneOf (labels_of meta) key vs)
      × (matches meta (build_containment_label_selector key []) ≡ (
          if Map.contains_key (labels_of meta) key
          then err (malformed_label_selector key)
          else ok false))
unfolding matches build_containment_label_selector match_all labels_match
matches-build_containment_label_selector meta key vs = (of_values vs, without_values)
  where
    without_values : matches meta (build_containment_label_selector key []) ≡ (
        if Map.contains_key (labels_of meta) key
        then err (malformed_label_selector key)
        else ok false)
    without_values = elim (Option-cases (Map.get (labels_of meta) key)) [
      | inl e ↦ ground (arith, label_expr_match-empty (labels_of meta) key)
      | inr (v, e) ↦ ground (arith, label_expr_match-empty (labels_of meta) key)
    ]

    of_values :
        (vs : List String)
        → (matches meta (build_containment_label_selector key vs) ≡ ok true)
          ↔ HasOneOf (labels_of meta) key vs
    of_values [] = (
      λ h. elim (Option-cases (Map.get (labels_of meta) key)) [
        | inl e ↦ absurd (ground (arith, label_expr_match-empty (labels_of meta) key))
        | inr (v, e) ↦ absurd (ground (arith, label_expr_match-empty (labels_of meta) key))
      ],
      λ x. elim x.2 [ ],
    )
    of_values (w ∷ ws) =
        let (b, e, _, same) =
          label_expr_match-In (labels_of meta) key (w ∷ ws) (λ q. absurd (ground arith)) in
        (λ h. same.0 (ground (arith, e)), λ x. ground (arith, e, same.1 x))
