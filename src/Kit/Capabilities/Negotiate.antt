-- ===== src/Kit/Capabilities/Negotiate.antt =====
-- `Negotiate` of kit/capabilities.go: which version is chosen.
use adk_a2ui_go.Common.{
  String, ◌≡◌, ◌↔◌, inl, inr, none, some, List, [], ◌∷◌, ◌++◌, lookup, ap, Option-cases, All,
}
use adk_a2ui_go.Kit.Capabilities.{VersionParams, Capabilities, first_supported, negotiate}

first_supported_hit :
    (caps : Capabilities) (pre post : List String) (v : String) (p : VersionParams)
    → All (λ w. lookup w caps ≡ none) pre
    → lookup v caps ≡ some p
    → first_supported caps (pre ++ v ∷ post) ≡ some (v, p)
unfolding first_supported
first_supported_hit caps [] post v p n h = rw (h, first_supported)
first_supported_hit caps (w ∷ pre) post v p n h =
    rw (n.0, first_supported) (first_supported_hit caps pre post v p n.1 h)

first_supported_found :
    (caps : Capabilities) (vs : List String) (v : String) (p : VersionParams)
    → first_supported caps vs ≡ some (v, p)
    → (pre : List String) × (post : List String) × (vs ≡ pre ++ v ∷ post)
      × (lookup v caps ≡ some p)
      × All (λ w. lookup w caps ≡ none) pre
unfolding first_supported
first_supported_found caps [] v p h = cc
first_supported_found caps (w ∷ ws) v p h = elim (Option-cases (lookup w caps)) [
  | inl e ↦
      let (pre, post, a, b, c) = first_supported_found caps ws v p (rw (e, first_supported) at h) in
      (w ∷ pre, post, ap (λ l. w ∷ l) a, b, (e, c))
  | inr (q, e) ↦
      let same : some (w, q) ≡ some (v, p) = rw (e, first_supported) at h in
      ([], ws, cc same, cc (same, e), tt)
]

-- `Negotiate` chooses a version with its parameters exactly where the client has it, and has none
-- of the versions that are preferred to it.
pub negotiate_iff :
    (caps : Capabilities) (preferred : List String) (v : String) (p : VersionParams)
    → (negotiate caps (some preferred) ≡ some (v, p)) ↔ (
        (pre : List String) × (post : List String) × (preferred ≡ pre ++ v ∷ post)
        × (lookup v caps ≡ some p)
        × All (λ w. lookup w caps ≡ none) pre)
unfolding negotiate
negotiate_iff caps preferred v p = (
  first_supported_found caps preferred v p,
  λ (pre, post, a, b, c). rw a (first_supported_hit caps pre post v p c b),
)

-- With one version to choose from, the choice is a lookup.
pub negotiate_missing :
    (version : String) (caps : Capabilities)
    → lookup version caps ≡ none
    → negotiate caps (some (version ∷ [])) ≡ none
unfolding negotiate first_supported
negotiate_missing version caps h = rw (negotiate, h, first_supported)

pub negotiate_one :
    (version : String) (caps : Capabilities) (params : VersionParams)
    → lookup version caps ≡ some params
    → negotiate caps (some (version ∷ [])) ≡ some (version, params)
unfolding negotiate first_supported
negotiate_one version caps params h = rw (negotiate, h, first_supported)
