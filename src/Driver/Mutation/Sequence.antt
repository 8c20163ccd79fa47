-- ===== src/Driver/Mutation/Sequence.antt =====
-- The position of a pod in its sequence, and the lifecycle that it gets for it.
use simkube.Common.{
  ℕ, zero, suc, ◌+◌, ◌%◌, ◌<◌, ◌≡◌, ◌≢◌, refl, true, Option, none, some, List, [], ◌∷◌, ◌++◌,
  String, ok, arith, string_eq, nat_eq, nat_beq, nat_beq_iff, length, get_elem?, All, if◌then◌else◌,
}
use simkube.Common.Int.{ℤ, ◌-ℤ◌}
use simkube.Common.Map
use simkube.Common.Map.{Map, get-insert}
use simkube.Common.Text.{append}
use simkube.Core.Hash.{Hasher}
use native.Mathlib.Nat.{mod-lt}
use simkube.Core.Constants.{lifetime_annotation_key, orig_namespace_annotation_key}
use simkube.Core.Json.{string}
use simkube.Core.Kube.{Pod, OwnerReference}
use simkube.Core.Lifecycle.{PodLifecycleData, empty, running, finished, is_finished}
use simkube.Core.PatchExt.{AddOperation, escape, to_annotation_patch, show_ℤ}
use simkube.Store.PodOwnersMap.{lifecycle_data_for}
use simkube.Store.TraceStore.{SpecEncoder, has_obj, lookup_pod_lifecycle, pod_hash}
use simkube.Driver.Mutation.{
  MutationData, new, count, DriverContext, lifecycle_patches, lifecycle_of_owners,
  add_lifecycle_annotation,
}

-- The counts after pods with these hashes.
abbrev pub count_all : MutationData → List ℕ → MutationData
count_all counts [] = counts
count_all counts (hash ∷ hashes) = count_all (count counts hash).1 hashes

abbrev pub occurrences : ℕ → List ℕ → ℕ
occurrences hash [] = 0
occurrences hash (x ∷ xs) = (if nat_beq x hash then 1 else 0) + occurrences hash xs

-- How many pods of this hash were counted.
abbrev pub counted : MutationData → ℕ → ℕ
counted counts hash = elim (Map.get counts hash) [ none ↦ 0 | some seen ↦ suc seen ]

count-counted : (counts : MutationData) (hash : ℕ) → (count counts hash).0 ≡ counted counts hash
unfolding count
count-counted counts hash = ground arith

counted-count :
    (counts : MutationData) (hash k : ℕ)
    → counted (count counts hash).1 k ≡ (if nat_beq hash k then 1 else 0) + counted counts k
unfolding count
counted-count counts hash k = go (Map.get counts hash) refl
  where
    go :
        (o : Option ℕ)
        → Map.get counts hash ≡ o
        → counted (count counts hash).1 k ≡ (if nat_beq hash k then 1 else 0) + counted counts k
    go none e = ground (arith, nat_beq_iff hash k, get-insert counts hash k 0)
    go (some seen) e = ground (arith, nat_beq_iff hash k, get-insert counts hash k (seen + 1))

counted-all :
    (hashes : List ℕ) (counts : MutationData) (k : ℕ)
    → counted (count_all counts hashes) k ≡ occurrences k hashes + counted counts k
counted-all [] counts k = omega arith
counted-all (hash ∷ hashes) counts k =
    ground (arith, counted-all hashes (count counts hash).1 k, counted-count counts hash k)

-- A pod gets as its position the number of pods of its hash that came before it, whatever pods of
-- other hashes came in between.
pub count-occurrences :
    (hashes : List ℕ) (hash : ℕ) → (count (count_all new hashes) hash).0 ≡ occurrences hash hashes
unfolding Map.get
count-occurrences hashes hash =
    ground (arith, count-counted (count_all new hashes) hash, counted-all hashes new hash)

-- What is added for a lifecycle: how long the pod ran.
unfoldable pub lifetime_patch : ℤ → ℤ → AddOperation
unfolding escape
lifetime_patch start end = record {
  path = append "/metadata/annotations/" (escape lifetime_annotation_key);
  value = string (show_ℤ (end -ℤ start));
}

lifecycle-patch :
    ⦃h : Hasher⦄ ⦃enc : SpecEncoder⦄ (pod : Pod) (annotations : Map String String) (s e : ℤ)
    → pod.metadata.annotations ≡ some annotations
    → lifecycle_patches pod (finished s e) ≡ some (lifetime_patch s e ∷ [])
unfolding lifecycle_patches to_annotation_patch lifetime_patch escape
lifecycle-patch pod annotations s e annotated = rw annotated refl

no_patch : ⦃h : Hasher⦄ ⦃enc : SpecEncoder⦄ (pod : Pod) → lifecycle_patches pod empty ≡ none
unfolding lifecycle_patches to_annotation_patch
no_patch pod = refl

-- Only finished lifecycles.
abbrev pub AllFinished : List PodLifecycleData → Type 0
AllFinished ls = All (λ l. is_finished l ≡ true) ls

at-finished :
    (ls : List PodLifecycleData) (i : ℕ)
    → AllFinished ls
    → i < length ls
    → (s : ℤ) × (e : ℤ) × (get_elem? ls i ≡ some (finished s e))
unfolding is_finished
at-finished [] i a l = absurd (omega arith)
at-finished (finished s e ∷ ls) zero (a, rest) l = (s, e, refl)
at-finished (empty ∷ ls) zero (a, rest) l = absurd (ground arith)
at-finished (running r ∷ ls) zero (a, rest) l = absurd (ground arith)
at-finished (x ∷ ls) (suc i) (a, rest) l = at-finished ls i rest (omega arith)

nonempty-length : {A : Type 0} (ls : List A) → ls ≢ [] → 0 < length ls
nonempty-length [] ne = absurd (ne refl)
nonempty-length (x ∷ ls) ne = omega arith

module _ ⦃h : Hasher⦄ ⦃enc : SpecEncoder⦄ (ctx : DriverContext) (orig_ns : String) (pod : Pod)
    (annotations : Map String String) (annotated : pod.metadata.annotations ≡ some annotations)
    (from_ns : Map.get annotations orig_namespace_annotation_key ≡ some orig_ns) (hash : ℕ)
    (hashed : pod_hash pod ≡ ok hash) where
  abbrev name_in : OwnerReference → String
  name_in owner = append orig_ns (append "/" owner.name)

  -- A pod whose first owner is in the store, with recorded lifecycles of its hash that are all
  -- finished, gets the lifetime of one of them: in the order of their record, over and over, by the
  -- number of pods of that hash before it. Its position is counted.
  pub add_lifecycle_annotation-cyclic :
      (owner : OwnerReference) (owners : List OwnerReference) (counts : MutationData)
      (patches : List AddOperation) (ls : List PodLifecycleData)
      → has_obj ctx.store (name_in owner) ≡ true
      → lifecycle_data_for ctx.store.pod_owners (name_in owner) hash ≡ some ls
      → ls ≢ []
      → AllFinished ls
      → (s : ℤ) × (e : ℤ) × (get_elem? ls (counted counts hash % length ls) ≡ some (finished s e))
        × (add_lifecycle_annotation ctx pod (owner ∷ owners) counts patches
            ≡ (ok (patches ++ lifetime_patch s e ∷ []), (count counts hash).1))
  unfolding add_lifecycle_annotation lifecycle_of_owners lookup_pod_lifecycle
  add_lifecycle_annotation-cyclic owner owners counts patches ls has known ne fin =
      let (s, e, at) =
        at-finished ls (counted counts hash % length ls) fin
          (mod-lt (counted counts hash) (nonempty-length ls ne)) in
      (
        s,
        e,
        at,
        rw
            (
              add_lifecycle_annotation,
              annotated,
              from_ns,
              lifecycle_of_owners,
              has,
              hashed,
              lookup_pod_lifecycle,
              known,
              count-counted counts hash,
              at,
              lifecycle-patch pod annotations s e annotated,
            )
            refl,
      )

  -- If the first owner is in the store without any lifecycle of the hash, the pod is counted for it
  -- all the same, and again for the second owner. So it gets the second owner's lifecycle one
  -- position further on than the number of pods before it, and two positions are counted.
  pub add_lifecycle_annotation-counts_twice :
      (first owner : OwnerReference) (owners : List OwnerReference) (counts : MutationData)
      (patches : List AddOperation) (ls : List PodLifecycleData)
      → has_obj ctx.store (name_in first) ≡ true
      → lifecycle_data_for ctx.store.pod_owners (name_in first) hash ≡ none
      → has_obj ctx.store (name_in owner) ≡ true
      → lifecycle_data_for ctx.store.pod_owners (name_in owner) hash ≡ some ls
      → ls ≢ []
      → AllFinished ls
      → (s : ℤ) × (e : ℤ) × (counts' : MutationData) × (get_elem? ls
            ((1 + counted counts hash) % length ls)
          ≡ some (finished s e))
        × (add_lifecycle_annotation ctx pod (first ∷ owner ∷ owners) counts patches
            ≡ (ok (patches ++ lifetime_patch s e ∷ []), counts'))
        × (counted counts' hash ≡ 2 + counted counts hash)
  unfolding add_lifecycle_annotation lifecycle_of_owners lookup_pod_lifecycle
  add_lifecycle_annotation-counts_twice first owner owners counts patches ls has_first unknown has
        known ne fin =
      let once : counted (count counts hash).1 hash ≡ 1 + counted counts hash =
        ground (arith, counted-count counts hash hash, nat_beq_iff hash hash) in
      let twice : counted (count (count counts hash).1 hash).1 hash ≡ 2 + counted counts hash =
        ground
          (arith, counted-count (count counts hash).1 hash hash, nat_beq_iff hash hash, once) in
      let (s, e, at) =
        at-finished ls ((1 + counted counts hash) % length ls) fin
          (mod-lt (1 + counted counts hash) (nonempty-length ls ne)) in
      (
        s,
        e,
        (count (count counts hash).1 hash).1,
        at,
        rw
            (
              add_lifecycle_annotation,
              annotated,
              from_ns,
              lifecycle_of_owners,
              has_first,
              hashed,
              lookup_pod_lifecycle,
              unknown,
              no_patch pod,
              has,
              hashed,
              known,
              count-counted (count counts hash).1 hash,
              once,
              at,
              lifecycle-patch pod annotations s e annotated,
            )
            refl,
        twice,
      )
