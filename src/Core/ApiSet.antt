-- ===== src/Core/ApiSet.antt =====
-- sk-core/src/k8s/apiset.rs: the cache of resource types and of handles to their API.
use simkube.Common.{
  ◌≡◌, ◌↔◌, refl, ap, Bool, true, ◌&&◌, Option, none, some, [], String, Outcome, ok, err, panic,
  ◌>>=◌, arith, Eq, ◌==◌, string_eq,
}
use text.Mathlib.TextEquality.{eq_iff}
use simkube.Common.Map
use simkube.Common.Map.{Map, get-insert}
use simkube.Core.Kube.{DynamicObject}
use simkube.Core.Gvk.{Gvk, gvk_beq, gvk_beq_iff, gvk_eq, TypeParser, from_dynamic_obj}

-- `ApiCapabilities`, of which the program reads the scope.
pub data Scope : Type 0 where
  cluster namespaced : Scope

-- A handle, by the constructor of `kube::Api` that makes it.
pub data Api : Type 0 where
  all_with : Gvk → Api
  namespaced_with : String → Gvk → Api

-- `kube::discovery::pinned_kind`, at the time of the call.
abbrev pub Discovery : Type 0
Discovery = Gvk → Outcome Scope

abbrev key_beq : Gvk × String → Gvk × String → Bool
key_beq (g, ns) (g', ns') = gvk_beq g g' && ns == ns'

key_beq_iff : (a b : Gvk × String) → (key_beq a b ≡ true) ↔ (a ≡ b)
key_beq_iff (g, ns) (g', ns') = ground (arith, gvk_beq_iff g g', eq_iff ns ns')

instance abbrev key_eq : Eq (Gvk × String)
key_eq = record { beq = key_beq; beq_iff = key_beq_iff }

pub record ApiSet : Type 0 where
  pub resources : Map Gvk Scope
  pub apis : Map Gvk Api
  pub namespaced_apis : Map (Gvk × String) Api

abbrev pub new : ApiSet
new = record { resources = []; apis = []; namespaced_apis = [] }

unfoldable pub api_meta_for : Discovery → ApiSet → Gvk → Outcome Scope × ApiSet
api_meta_for discover s gvk = elim (Map.get s.resources gvk) [
  | some scope ↦ (ok scope, s)
  | none ↦ elim (discover gvk) [
    | ok scope ↦ (ok scope, record s { resources = Map.insert s.resources gvk scope })
    | err e ↦ (err e, s)
    | panic ↦ (panic, s)
  ]
]

all_api : ApiSet → Gvk → Api × ApiSet
all_api s gvk = elim (Map.get s.apis gvk) [
  | some api ↦ (api, s)
  | none ↦ (all_with gvk, record s { apis = Map.insert s.apis gvk (all_with gvk) })
]

namespaced_api : ApiSet → Gvk → String → Api × ApiSet
namespaced_api s gvk ns = elim (Map.get s.namespaced_apis (gvk, ns)) [
  | some api ↦ (api, s)
  | none ↦ (
    namespaced_with ns gvk,
    record s { namespaced_apis = Map.insert s.namespaced_apis (gvk, ns) (namespaced_with ns gvk) },
  )
]

unfoldable pub unnamespaced_api_by_gvk : Discovery → ApiSet → Gvk → Outcome (Api × Scope) × ApiSet
unfolding all_api api_meta_for
unnamespaced_api_by_gvk discover s gvk =
    let (cap, t) = api_meta_for discover s gvk in
    let (api, u) = all_api t gvk in
    elim cap [ ok scope ↦ (ok (api, scope), u) | err e ↦ (err e, t) | panic ↦ (panic, t) ]

unfoldable pub api_for_gvk : Discovery → ApiSet → Gvk → Option String → Outcome Api × ApiSet
unfolding unnamespaced_api_by_gvk namespaced_api
api_for_gvk discover s gvk ns =
    let (cap, t) = api_meta_for discover s gvk in
    elim cap [
      | ok scope ↦ elim ns [
        | some ns ↦ let (api, u) = namespaced_api t gvk ns in (ok api, u)
        | none ↦
            let (r, u) = unnamespaced_api_by_gvk discover t gvk in (r >>= λ (api, cap). ok api, u)
      ]
      | err e ↦ (err e, t)
      | panic ↦ (panic, t)
    ]

unfoldable pub api_for_obj : TypeParser → Discovery → ApiSet → DynamicObject → Outcome Api × ApiSet
unfolding api_for_gvk
api_for_obj parse discover s obj = elim (from_dynamic_obj parse obj) [
  | ok gvk ↦ api_for_gvk discover s gvk obj.metadata.namespace
  | err e ↦ (err e, s)
  | panic ↦ (panic, s)
]

-- Each cached handle is the one that would be made for its key.
pub record IsCache (s : ApiSet) : Type 0 where
  pub all : (g : Gvk) (api : Api) → Map.get s.apis g ≡ some api → api ≡ all_with g
  pub namespaced :
      (g : Gvk) (ns : String) (api : Api)
      → Map.get s.namespaced_apis (g, ns) ≡ some api
      → api ≡ namespaced_with ns g

pub new-IsCache : IsCache new
unfolding Map.get
new-IsCache = record { all = λ g api e. ground arith; namespaced = λ g ns api e. ground arith }

-- The handle to objects of a kind, in their namespace if they have one.
abbrev pub handle : Gvk → Option String → Api
handle gvk none = all_with gvk
handle gvk (some ns) = namespaced_with ns gvk

meta-IsCache : (d : Discovery) (s : ApiSet) (g : Gvk) → IsCache s → IsCache (api_meta_for d s g).1
unfolding api_meta_for
meta-IsCache d s g c = go (Map.get s.resources g) (d g)
  where
    go :
        (o : Option Scope) (r : Outcome Scope)
        → IsCache (
            (elim o as (λ _. Outcome Scope × ApiSet) [
              | some scope ↦ (ok scope, s)
              | none ↦ elim r as (λ _. Outcome Scope × ApiSet) [
                | ok scope ↦ (ok scope, record s { resources = Map.insert s.resources g scope })
                | err e ↦ (err e, s)
                | panic ↦ (panic, s)
              ]
            ]).1)
    go (some scope) r = c
    go none (ok scope) = record { all = c.all; namespaced = c.namespaced }
    go none (err e) = c
    go none panic = c

all_api-handle :
    (s : ApiSet) (g : Gvk) → IsCache s → ((all_api s g).0 ≡ all_with g) × IsCache (all_api s g).1
unfolding all_api
all_api-handle s g c = go (Map.get s.apis g) refl
  where
    go :
        (o : Option Api)
        → Map.get s.apis g ≡ o
        → ((all_api s g).0 ≡ all_with g) × IsCache (all_api s g).1
    go (some api) e = rw (all_api, e) (c.all g api e, c)
    go none e =
        rw (all_api, e)
          (
            refl,
            record {
              all = λ g' api f.
                  ground
                    (arith, get-insert s.apis g g' (all_with g), gvk_beq_iff g g', c.all g' api);
              namespaced = c.namespaced;
            },
          )

namespaced_api-handle :
    (s : ApiSet) (g : Gvk) (ns : String)
    → IsCache s
    → ((namespaced_api s g ns).0 ≡ namespaced_with ns g) × IsCache (namespaced_api s g ns).1
unfolding namespaced_api
namespaced_api-handle s g ns c = go (Map.get s.namespaced_apis (g, ns)) refl
  where
    go :
        (o : Option Api)
        → Map.get s.namespaced_apis (g, ns) ≡ o
        → ((namespaced_api s g ns).0 ≡ namespaced_with ns g) × IsCache (namespaced_api s g ns).1
    go (some api) e = rw (namespaced_api, e) (c.namespaced g ns api e, c)
    go none e =
        rw (namespaced_api, e)
          (
            refl,
            record {
              all = c.all;
              namespaced = λ g' ns' api f. ground (
                arith,
                get-insert s.namespaced_apis (g, ns) (g', ns') (namespaced_with ns g),
                key_beq_iff (g, ns) (g', ns'),
                c.namespaced g' ns' api,
              );
            },
          )

known :
    (d : Discovery) (s : ApiSet) (g : Gvk) (scope : Scope)
    → (api_meta_for d s g).0 ≡ ok scope
    → (api_meta_for d (api_meta_for d s g).1 g).0 ≡ ok scope
unfolding api_meta_for
known d s g scope e = go (Map.get s.resources g) refl
  where
    go :
        (o : Option Scope)
        → Map.get s.resources g ≡ o
        → (api_meta_for d (api_meta_for d s g).1 g).0 ≡ ok scope
    go (some found) f = ground arith
    go none f = ground (arith, get-insert s.resources g g scope, gvk_beq_iff g g)

-- Once the kind of an object is known to the server, the handle is the one for its kind and, if it
-- has one, its namespace, whatever was looked up before; the cache stays sound.
pub api_for_gvk-handle :
    (discover : Discovery) (s : ApiSet) (gvk : Gvk) (ns : Option String) (scope : Scope)
    → IsCache s
    → (api_meta_for discover s gvk).0 ≡ ok scope
    → ((api_for_gvk discover s gvk ns).0 ≡ ok (handle gvk ns))
      × IsCache (api_for_gvk discover s gvk ns).1
unfolding api_for_gvk
api_for_gvk-handle d s gvk (some ns) scope c e =
    let (h, c') = namespaced_api-handle (api_meta_for d s gvk).1 gvk ns (meta-IsCache d s gvk c) in
    rw (api_for_gvk, e) (ap ok h, c')
api_for_gvk-handle d s gvk none scope c e =
    let t = (api_meta_for d s gvk).1 in
    let (h, c') =
      all_api-handle (api_meta_for d t gvk).1 gvk (meta-IsCache d t gvk (meta-IsCache d s gvk c)) in
    rw (api_for_gvk, e, unnamespaced_api_by_gvk, known d s gvk scope e) (ap ok h, c')
