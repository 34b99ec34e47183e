-- ===== src/Schema/Inbound/Laws.antt =====
-- internal/schema/inbound.go: which messages pass the checks before the schema.
use adk_a2ui_go.Common.{
  String, ◌≡◌, refl, ◌↔◌, ◌⊎◌, inl, inr, true, false, ◌&&◌, not, List, [], ◌∷◌, ◌==◌, eq_iff, arith,
  if◌then◌else◌, str_elem, str_elem_iff, Elem, All, Bool-cases, append-nil_iff, ap, sym, ◌∙◌,
}
use mathlib.Core.Path.{subst}
use adk_a2ui_go.Json.{Fields, keys, str_at}
use adk_a2ui_go.Schema.Inbound.{
  present_keys, unknown_keys, version_problem, exactly_one, inbound_precheck,
}

-- The keys beside "version".
abbrev pub other_keys : List String → List String
other_keys [] = []
other_keys (k ∷ ks) = if k == "version" then other_keys ks else k ∷ other_keys ks

-- The version is not pinned, or it is the one that the message has.
abbrev pub IsPinned : String → String → Type 0
IsPinned version got = (version ≡ "") ⊎ (got ≡ version)

abbrev AllKnown : List String → List String → Type 0
AllKnown allowed ks = All (λ k. Elem k allowed) ks

present-AllKnown : (allowed ks : List String) → AllKnown allowed (present_keys allowed ks)
unfolding present_keys
present-AllKnown allowed [] = tt
present-AllKnown allowed (k ∷ ks) =
    let rest = present-AllKnown allowed ks in
    elim (Bool-cases (k == "version")) [
      | inl v ↦ rw v rest
      | inr v ↦ elim (Bool-cases (str_elem k allowed)) [
        | inl e ↦ rw v (rw e ((str_elem_iff k allowed).0 e, rest))
        | inr e ↦ rw v (rw e rest)
      ]
    ]

present-others :
    (allowed ks : List String)
    → unknown_keys allowed ks ≡ []
    → present_keys allowed ks ≡ other_keys ks
unfolding present_keys unknown_keys
present-others allowed [] = λ h. refl
present-others allowed (k ∷ ks) = elim (Bool-cases (k == "version")) [
  | inl v ↦ rw v (present-others allowed ks)
  | inr v ↦ elim (Bool-cases (str_elem k allowed)) [
    | inl e ↦ rw v (rw e (λ h. ap (λ l. k ∷ l) (present-others allowed ks h)))
    | inr e ↦ rw v (rw e (λ h. cc))
  ]
]

unknown-nil :
    (allowed ks : List String) → AllKnown allowed (other_keys ks) → unknown_keys allowed ks ≡ []
unfolding unknown_keys
unknown-nil allowed [] = λ h. refl
unknown-nil allowed (k ∷ ks) = elim (Bool-cases (k == "version")) [
  | inl v ↦ rw v (unknown-nil allowed ks)
  | inr v ↦ rw v (λ h. rw ((str_elem_iff k allowed).1 h.0) (unknown-nil allowed ks h.1))
]

exactly_one-true :
    (present unknown : List String)
    → exactly_one present unknown ≡ true
    → ((k : String) × (present ≡ k ∷ [])) × (unknown ≡ [])
unfolding exactly_one
exactly_one-true (k ∷ []) [] h = ((k, refl), refl)
exactly_one-true [] u h = cc
exactly_one-true (k ∷ []) (u ∷ us) h = cc
exactly_one-true (k ∷ (j ∷ r)) u h = cc

one_known :
    (allowed ks : List String) (k : String)
    → unknown_keys allowed ks ≡ []
    → present_keys allowed ks ≡ k ∷ []
    → exactly_one (present_keys allowed ks) (unknown_keys allowed ks) ≡ true
unfolding exactly_one
one_known allowed ks k u p = rw (u, p) refl

exactly_one_iff :
    (allowed ks : List String)
    → (exactly_one (present_keys allowed ks) (unknown_keys allowed ks) ≡ true)
      ↔ ((k : String) × (other_keys ks ≡ k ∷ []) × Elem k allowed)
exactly_one_iff allowed ks = (
  λ h.
      let ((k, p), u) = exactly_one-true (present_keys allowed ks) (unknown_keys allowed ks) h in
      let known : AllKnown allowed (k ∷ []) =
        subst (AllKnown allowed) p (present-AllKnown allowed ks) in
      (k, sym (present-others allowed ks u) ∙ p, known.0),
  λ (k, o, m).
      let u = unknown-nil allowed ks (subst (AllKnown allowed) (sym o) (m, tt)) in
      one_known allowed ks k u (present-others allowed ks u ∙ o),
)

version_problem-nil_iff :
    (m : Fields) (version path : String)
    → (version_problem m version path ≡ []) ↔ IsPinned version (str_at "version" m)
unfolding version_problem
version_problem-nil_iff m version path =
    let got = str_at "version" m in
    elim (Bool-cases (not (version == "") && not (str_at "version" m == version))) [
      | inl e ↦
          rw e
            (λ h. cc, λ h. ground (arith, eq_iff version "", eq_iff (str_at "version" m) version))
      | inr e ↦
          rw e
            (λ h. ground (arith, eq_iff version "", eq_iff (str_at "version" m) version), λ h. refl)
    ]

-- A message passes `InboundPrecheck` exactly where it has the pinned version, if there is one, and
-- one key beside "version", which is a known one; in whatever order its keys are read.
pub inbound_precheck-nil_iff :
    (m : Fields) (version : String) (allowed : List String) (path : String)
    → (inbound_precheck m version allowed path ≡ []) ↔ (
        IsPinned version (str_at "version" m)
        × ((k : String) × (other_keys (keys m) ≡ k ∷ []) × Elem k allowed))
unfolding inbound_precheck
inbound_precheck-nil_iff m version allowed path =
    let one = exactly_one_iff allowed (keys m) in
    let pinned = version_problem-nil_iff m version path in
    elim (Bool-cases
      (exactly_one (present_keys allowed (keys m)) (unknown_keys allowed (keys m)))) [
        | inl e ↦ rw e (λ h. (pinned.0 h, one.0 e), λ h. pinned.1 h.0)
        | inr e ↦ rw e (
          λ h. (let k = ((append-nil_iff (version_problem m version path) _).0 h).1 in cc),
          λ h. (let k : false ≡ true = sym e ∙ one.1 h.1 in cc),
        )
      ]
