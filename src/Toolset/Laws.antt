-- ===== src/Toolset/Laws.antt =====
-- a2ui.go: which toolsets there are, and what they expose.
use adk_a2ui_go.Common.{
  String, ◌≡◌, refl, ◌↔◌, ◌≢◌, ◌⊎◌, inl, inr, true, false, Option, none, some, List, [], ◌∷◌,
  eq_iff, arith, lookup, All, All-Elem, Elem, Elem-append, Bool-cases, String-cases, ap, sym, ◌∙◌,
}
use mathlib.Core.Path.{subst}
use adk_a2ui_go.Kit.Error.{ok}
use adk_a2ui_go.Kit.Capabilities.{Capabilities, VersionParams, v09, v091, v10, negotiate}
use adk_a2ui_go.Kit.Capabilities.Negotiate.{negotiate_iff}
use adk_a2ui_go.Kit.Options.{ToolOptions}
use adk_a2ui_go.Toolset.{
  Config, Setting, default_config, apply_all, is_known, unknown_version, refuse_unknown, checked,
  new_toolset, v09_tools, expose, exposed_tools,
}

abbrev pub Known : String → Type 0
Known v = (v ≡ v09) ⊎ (v ≡ v091) ⊎ (v ≡ v10)

is_known_iff : (v : String) → (is_known v ≡ true) ↔ Known v
unfolding is_known
is_known_iff v = ground (arith, eq_iff v v09, eq_iff v v091, eq_iff v v10)

unknown_version-none_iff : (vs : List String) → (unknown_version vs ≡ none) ↔ All Known vs
unfolding unknown_version
unknown_version-none_iff [] = (λ h. tt, λ h. refl)
unknown_version-none_iff (v ∷ vs) = elim (Bool-cases (is_known v)) [
  | inl e ↦ rw e (
    λ h. ((is_known_iff v).0 e, (unknown_version-none_iff vs).0 h),
    λ h. (unknown_version-none_iff vs).1 h.1,
  )
  | inr e ↦ rw e (λ h. cc, λ h. (let k : false ≡ true = sym e ∙ (is_known_iff v).1 h.0 in cc))
]

refuse_unknown-ok_iff :
    (c c2 : Config) (u : Option String) → (refuse_unknown c u ≡ ok c2) ↔ ((c ≡ c2) × (u ≡ none))
unfolding refuse_unknown
refuse_unknown-ok_iff c c2 none = (λ h. (cc h, refl), λ h. ap ok h.0)
refuse_unknown-ok_iff c c2 (some v) = (λ h. cc, λ h. cc h.1)

checked-ok_iff :
    (c c2 : Config) (vs : List String)
    → (checked c vs ≡ ok c2) ↔ ((c ≡ c2) × (vs ≢ []) × All Known vs)
unfolding checked
checked-ok_iff c c2 [] = (λ h. cc, λ h. absurd (h.1 refl))
checked-ok_iff c c2 (v ∷ vs) =
    let refuse = refuse_unknown-ok_iff c c2 (unknown_version (v ∷ vs)) in
    let known = unknown_version-none_iff (v ∷ vs) in
    (
      λ h. ((refuse.0 h).0, λ e. cc, known.0 (refuse.0 h).1),
      λ (same, n, k). refuse.1 (same, known.1 k),
    )

-- `NewToolset` succeeds exactly where the options leave a list of versions that is not empty and
-- has only known ones; the toolset then has the configuration that the options make.
pub new_toolset-ok_iff :
    (opts : List Setting) (c : Config)
    → (new_toolset opts ≡ ok c) ↔ (
        (apply_all opts default_config ≡ c)
        × ((apply_all opts default_config).versions ≢ [])
        × All Known (apply_all opts default_config).versions)
unfolding new_toolset
new_toolset-ok_iff opts c =
    let made = apply_all opts default_config in checked-ok_iff made c made.versions

expose-v09 :
    (options options2 : ToolOptions) (o : Option (String × VersionParams)) (v : String)
    (p : VersionParams)
    → expose options o ≡ v09_tools v p options2
    → (o ≡ some (v, p)) × (v ≢ v10)
unfolding expose
expose-v09 options options2 none v p = λ h. cc
expose-v09 options options2 (some (w, q)) v p = elim (String-cases w v10) [
  | inl e ↦ rw e (λ h. cc)
  | inr (off, n) ↦ rw off (λ h. (cc h, λ e. n (let same : w ≡ v = cc h in same ∙ e)))
]

chosen-Elem :
    (caps : Capabilities) (vs : List String) (v : String) (p : VersionParams)
    → negotiate caps (some vs) ≡ some (v, p)
    → Elem v vs × (lookup v caps ≡ some p)
chosen-Elem caps vs v p h =
    let (pre, post, e, l, _) = (negotiate_iff caps vs v p).0 h in
    (subst (λ ws. Elem v ws) (sym e) ((Elem-append v pre (v ∷ post)).1 (inr (inl refl))), l)

-- A toolset exposes the tools of v0.9 only for a wire version "v0.9" or "v0.9.1" that it was
-- configured with and that the client has, with the client's parameters for that version.
pub exposed_tools-v09 :
    (opts : List Setting) (c : Config) (caps : Capabilities) (v : String) (p : VersionParams)
    (options : ToolOptions)
    → new_toolset opts ≡ ok c
    → exposed_tools c (some caps) ≡ v09_tools v p options
    → ((v ≡ v09) ⊎ (v ≡ v091)) × Elem v c.versions × (lookup v caps ≡ some p)
unfolding exposed_tools
exposed_tools-v09 opts c caps v p options made h =
    let (chosen, other) = expose-v09 c.tools options (negotiate caps (some c.versions)) v p h in
    let (m, l) = chosen-Elem caps c.versions v p chosen in
    let (same, _, known) = (new_toolset-ok_iff opts c).0 made in
    let all : All Known c.versions = subst (λ d. All Known d.versions) same known in
    (
      elim (All-Elem Known c.versions v all m) [
        | inl e ↦ inl e
        | inr r ↦ elim r [ inl e ↦ inr e | inr e ↦ absurd (other e) ]
      ],
      m,
      l,
    )
