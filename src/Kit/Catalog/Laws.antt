-- ===== src/Kit/Catalog/Laws.antt =====
-- kit/catalog.go: what the registry and a chain of resolvers answer.
use adk_a2ui_go.Common.{
  String, ◌≡◌, refl, ◌↔◌, ◌≢◌, inl, inr, Option, none, some, List, [], ◌∷◌, ◌++◌, ◌==◌,
  if◌then◌else◌, ap, sym, ◌∙◌, Option-cases, All,
}
use Prim.Native.String.{◌++◌ as ◌+++◌}
use adk_a2ui_go.Json.{Fields, str_at}
use adk_a2ui_go.Kit.Error.{Error, Result, ok, Result-cases}
use adk_a2ui_go.Kit.Catalog.{Resolver, Registry, resolve_registered, chain}

-- The registry that `Register` leaves: it answers the id of the catalog with the copy, and every other
-- id as before.
abbrev pub Adds : Fields → Fields → Registry → Registry → Type 0
Adds catalog cp r r' =
    (id : String)
    → resolve_registered r' id
      ≡ (if str_at "catalogId" catalog == id then ok (some cp) else resolve_registered r id)

-- A resolver that knows nothing of the id.
abbrev pub Passes : String → Option Resolver → Type 0
Passes id none = Unit
Passes id (some r) = r id ≡ ok none

chain-Passes :
    (id : String) (pre : List (Option Resolver)) (rs : List (Option Resolver))
    → All (Passes id) pre
    → chain (pre ++ rs) id ≡ chain rs id
unfolding chain
chain-Passes id [] rs h = refl
chain-Passes id (none ∷ pre) rs h = chain-Passes id pre rs h.1
chain-Passes id (some r ∷ pre) rs h = rw h.0 (chain-Passes id pre rs h.1)

chain_answer :
    (id : String) (r : Resolver) (rs : List (Option Resolver)) (a : Result (Option Fields))
    → a ≢ ok none
    → r id ≡ a
    → chain (some r ∷ rs) id ≡ a
unfolding chain
chain_answer id r rs a n e = elim (Result-cases a) [
  | inr (x, f) ↦ rw (e, f, chain) refl
  | inl (o, f) ↦ elim (Option-cases o) [
    | inr (c, g) ↦ rw (e, f, g, chain) refl
    | inl g ↦ absurd (n (f ∙ ap ok g))
  ]
]

chain_found :
    (id : String) (rs : List (Option Resolver)) (a : Result (Option Fields))
    → chain rs id ≡ a
    → a ≢ ok none
    → (pre : List (Option Resolver)) × (post : List (Option Resolver)) × (r : Resolver) × (rs
        ≡ pre ++ some r ∷ post)
      × All (Passes id) pre
      × (r id ≡ a)
unfolding chain
chain_found id [] a h n = absurd (n (sym h))
chain_found id (none ∷ rs) a h n =
    let (pre, post, r, e, p, q) = chain_found id rs a h n in
    (none ∷ pre, post, r, ap (λ l. none ∷ l) e, (tt, p), q)
chain_found id (some r ∷ rs) a h n = elim (Result-cases (r id)) [
  | inr (x, e) ↦ ([], rs, r, refl, tt, e ∙ (rw (e, chain) at h))
  | inl (o, e) ↦ elim (Option-cases o) [
    | inr (c, f) ↦ ([], rs, r, refl, tt, e ∙ ap ok f ∙ (rw (e, f, chain) at h))
    | inl f ↦
        let skipped : r id ≡ ok none = rw f at e in
        let (pre, post, r', e', p, q) = chain_found id rs a (rw (skipped, chain) at h) n in
        (some r ∷ pre, post, r', ap (λ l. some r ∷ l) e', (skipped, p), q)
  ]
]

-- A chain gives an answer other than "unknown", a catalog or an error, exactly where some resolver
-- gives it and every resolver before that one, nil ones aside, does not know the id.
pub chain_iff :
    (id : String) (rs : List (Option Resolver)) (a : Result (Option Fields))
    → a ≢ ok none
    → (chain rs id ≡ a) ↔ (
        (pre : List (Option Resolver)) × (post : List (Option Resolver)) × (r : Resolver) × (rs
          ≡ pre ++ some r ∷ post)
        × All (Passes id) pre
        × (r id ≡ a))
chain_iff id rs a n = (
  λ h. chain_found id rs a h n,
  λ (pre, post, r, e, p, q).
      rw e (chain-Passes id pre (some r ∷ post) p ∙ chain_answer id r post a n q),
)
