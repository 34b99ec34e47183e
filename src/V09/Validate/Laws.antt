-- ===== src/V09/Validate/Laws.antt =====
-- v09/validate.go: when a batch is valid.
use adk_a2ui_go.Common.{
  ℕ, suc, String, ◌≡◌, refl, ◌↔◌, ◌⊎◌, inl, inr, Bool, true, false, not, Option, none, some, List,
  [], ◌∷◌, ◌++◌ as append, ◌==◌, eq_iff, arith, All, append-nil_iff, Bool-cases, String-cases, ap,
  sym, ◌∙◌,
}
use adk_a2ui_go.Json.{Fields, str_at}
use adk_a2ui_go.Kit.Problem.{Problem}
use adk_a2ui_go.Kit.Error.{ok, >>=-eq-ok}
use adk_a2ui_go.Kit.Options.{ValidateOptions}
use adk_a2ui_go.Spec.{Embedded}
use adk_a2ui_go.Schema.Format.Text.{Printer}
use adk_a2ui_go.Schema.Format.Plan.{Refusal}
use adk_a2ui_go.Schema.Engine.{Schema, Engine, to_instance}
use adk_a2ui_go.V10.Validate.Laws.{Pins, verdict-finalize}
use adk_a2ui_go.V09.Rules.{semantic_rules_v09}
use adk_a2ui_go.V09.Rules.Spec.{BatchOkV09}
use adk_a2ui_go.V09.Rules.Exact.{semantic_rules_v09-BatchOkV09}
use adk_a2ui_go.V09.Validate.{
  check_version_from, check_version, created_catalogs, validate_against_catalogs_v09,
  is_supported_v09, after_envelope, validate_v09,
}
use adk_a2ui_go.V09.Validate.Pass.{CatalogsOk, validate_against_catalogs_v09-nil_iff}

abbrev pub SupportedV09 : String → Type 0
SupportedV09 version = (version ≡ "") ⊎ ((version ≡ "v0.9") ⊎ (version ≡ "v0.9.1"))

SupportedV09-iff :
    (version : String) → (not (is_supported_v09 version) ≡ false) ↔ SupportedV09 version
unfolding is_supported_v09
SupportedV09-iff version =
    ground (arith, eq_iff version "", eq_iff version "v0.9", eq_iff version "v0.9.1")

differs_iff : (want got : String) → (not (got == want) ≡ false) ↔ (got ≡ want)
differs_iff want got = ground (arith, eq_iff got want)

check_version_from-nil_iff :
    (want : String) (i : ℕ) (ms : List Fields)
    → (check_version_from want i ms ≡ []) ↔ All (λ m. str_at "version" m ≡ want) ms
unfolding check_version_from
check_version_from-nil_iff want i [] = (λ h. tt, λ h. refl)
check_version_from-nil_iff want i (m ∷ ms) =
    let rest = check_version_from-nil_iff want (suc i) ms in
    let here = differs_iff want (str_at "version" m) in
    elim (Bool-cases (not (str_at "version" m == want))) [
      | inl e ↦ rw e (λ h. cc, λ h. (let k : true ≡ false = sym e ∙ here.1 h.0 in cc))
      | inr e ↦ rw e (λ h. (here.0 e, rest.0 h), λ h. rest.1 h.1)
    ]

each_pinned :
    (want : String) (ms : List Fields) → want ≡ "" → All (λ m. Pins want (str_at "version" m)) ms
each_pinned want [] e = tt
each_pinned want (m ∷ ms) e = (inl e, each_pinned want ms e)

pinned_each :
    (want : String) (ms : List Fields)
    → ¬ (want ≡ "")
    → All (λ m. Pins want (str_at "version" m)) ms ↔ All (λ m. str_at "version" m ≡ want) ms
pinned_each want [] off = (λ h. tt, λ h. tt)
pinned_each want (m ∷ ms) off =
    let rest = pinned_each want ms off in
    (λ h. (elim h.0 [ inl e ↦ absurd (off e) | inr e ↦ e ], rest.0 h.1), λ h. (inr h.0, rest.1 h.1))

check_version-nil_iff :
    (want : String) (ms : List Fields)
    → (check_version ms want ≡ []) ↔ All (λ m. Pins want (str_at "version" m)) ms
unfolding check_version
check_version-nil_iff want ms = elim (String-cases want "") [
  | inl e ↦ rw e (λ h. each_pinned "" ms refl, λ h. refl)
  | inr (ne, off) ↦
      let from = check_version_from-nil_iff want 0 ms in
      let each = pinned_each want ms off in rw ne (λ h. each.1 (from.0 h), λ h. from.1 (each.0 h))
]

module _ (files : Embedded) (eng : Engine) (out : Printer) (opts : ValidateOptions) where
  after_envelope-ok_iff :
      (v091 : Bool) (ms : List Fields) (problems : List Problem) (r : Option Refusal)
      → (after_envelope files eng out opts v091 ms problems r ≡ ok tt) ↔ (
          (problems ≡ [])
          × (r ≡ none)
          × (validate_against_catalogs_v09 files eng out opts v091 ms ≡ ok [])
          × (semantic_rules_v09 ms ≡ []))
  unfolding after_envelope
  after_envelope-ok_iff v091 ms problems (some r) = (λ h. cc, λ h. cc h.1)
  after_envelope-ok_iff v091 ms problems none = (
    λ h.
        let (found, e, v) =
          >>=-eq-ok (validate_against_catalogs_v09 files eng out opts v091 ms) _ h in
        let all = (verdict-finalize (append (append problems found) (semantic_rules_v09 ms))).0 v in
        let (front, rules) =
          (append-nil_iff (append problems found) (semantic_rules_v09 ms)).0 all in
        let (before, none_found) = (append-nil_iff problems found).0 front in
        (before, refl, e ∙ ap ok none_found, rules),
    λ (before, _, e, rules). rw e (
        (verdict-finalize (append (append problems []) (semantic_rules_v09 ms))).1
          (rw before (rw rules refl))),
  )

  -- `Validate` of v0.9 accepts a batch exactly where the pinned version is v0.9, v0.9.1 or none and
  -- every message has it, the schema of the batch compiles, for v0.9 alone where that is pinned and
  -- for both versions otherwise, and admits the batch, the themes and components that the pass over
  -- the catalogs checks meet their catalogs, and the batch obeys the prose rules of v0.9: surface ids
  -- and component ids are not empty, no createSurface has an empty catalogId, the component ids of a
  -- list differ, no surface is updated before the message that creates it, or created twice, and
  -- each surface that is created has a root in some updateComponents.
  pub validate_v09-ok_iff :
      (ms : List Fields)
      → (validate_v09 files eng out opts ms ≡ ok tt) ↔ (
          SupportedV09 opts.version
          × All (λ m. Pins opts.version (str_at "version" m)) ms
          × ((envelope : Schema) × (eng.compile "server_to_client_list.json"
                  (not (opts.version == "v0.9"))
                ≡ ok envelope)
              × (envelope (to_instance ms) ≡ none))
          × CatalogsOk files eng out opts (not (opts.version == "v0.9")) (created_catalogs ms) ms
          × BatchOkV09 ms)
  unfolding validate_v09
  validate_v09-ok_iff ms =
      let v091 = not (opts.version == "v0.9") in
      let guard = SupportedV09-iff opts.version in
      let pass = validate_against_catalogs_v09-nil_iff files eng out opts v091 ms in
      let prose = semantic_rules_v09-BatchOkV09 ms in
      let versions = check_version-nil_iff opts.version ms in
      let envelope_iff = after_envelope-ok_iff v091 ms (check_version ms opts.version) in
      elim (Bool-cases (not (is_supported_v09 opts.version))) [
        | inl e ↦ rw e (λ h. cc, λ h. (let k : true ≡ false = sym e ∙ guard.1 h.0 in cc))
        | inr e ↦ rw e (
          λ h.
              let (s, c, v) = >>=-eq-ok (eng.compile "server_to_client_list.json" v091) _ h in
              let (pinned, admitted, found, rules) = (envelope_iff (s (to_instance ms))).0 v in
              (guard.0 e, versions.0 pinned, (s, c, admitted), pass.0 found, prose.0 rules),
          λ (_, pinned, (s, c, admitted), found, batch). rw c (
              (envelope_iff (s (to_instance ms))).1
                (versions.1 pinned, admitted, pass.1 found, prose.1 batch)),
        )
      ]
