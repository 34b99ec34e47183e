-- ===== src/Toolkit/Tools/Laws.antt =====
-- internal/toolkit/tools.go: the errors that the generate tool passes on, and those that it labels.
pub mod Ids
pub mod Documents
use adk_a2ui_go.Common.{
  String, ◌≡◌, refl, ◌↔◌, ◌≢◌, ◌⊎◌, inl, inr, true, Option, none, some, List, [], ◌∷◌, Option-cases,
  ap,
}
use adk_a2ui_go.Json.{Fields}
use adk_a2ui_go.Kit.Problem.{Problem}
use adk_a2ui_go.Kit.Error.{Error, as_validation, Result, ok, err, Result-cases}
use adk_a2ui_go.Kit.Capabilities.{VersionParams}
use adk_a2ui_go.Kit.Options.{ValidateOptions, ToolOptions}
use adk_a2ui_go.Spec.{Embedded}
use adk_a2ui_go.Toolkit.Types.{ToolSpec, GenerateOutput}
use adk_a2ui_go.Toolkit.Tools.{
  config_err, empty_batch, after_validate, passed_on, generate, Tool, ToolConfig, GenerateTool,
  new_tool, generate_tool, generate_options,
}

pub ok_inj : {A : Type 0} {a b : A} → ok a ≡ ok b → a ≡ b
ok_inj h = cc h

abbrev pub success : List Fields → GenerateOutput
success ms = record { status = "success"; is_valid = true; messages = ms }

after_validate-ok_iff :
    (ms : List Fields) (r : Result (Unit {0})) (out : GenerateOutput)
    → (after_validate ms r ≡ ok out) ↔ ((r ≡ ok tt) × (out ≡ success ms))
unfolding after_validate
after_validate-ok_iff ms (err e) out = (λ h. cc, λ h. cc h.0)
after_validate-ok_iff ms (ok tt) out =
    (λ h. (refl, (let k : success ms ≡ out = cc h in cc)), λ h. (let k = h.1 in cc))

-- The generate tool succeeds exactly where the batch has a message and `Validate` of the version
-- accepts it, and then it returns the messages as they came, as a success.
pub generate-ok_iff :
    (s : ToolSpec) (vopts : ValidateOptions) (ms : List Fields) (out : GenerateOutput)
    → (generate s vopts ms ≡ ok out)
      ↔ ((ms ≢ []) × (s.validate ms vopts ≡ ok tt) × (out ≡ success ms))
unfolding generate
generate-ok_iff s vopts [] out = (λ h. cc, λ h. absurd (h.0 refl))
generate-ok_iff s vopts (m ∷ ms) out =
    let iff = after_validate-ok_iff (m ∷ ms) (s.validate (m ∷ ms) vopts) out in
    (λ h. (let (a, b) = iff.0 h in (λ e. cc, a, b)), λ (_, a, b). iff.1 (a, b))

-- What the generate tool makes of an error.
abbrev pub Passes : Error → Error → Type 0
Passes e shown =
    ((ps : List Problem) × (as_validation e ≡ some ps) × (shown ≡ e))
    ⊎ ((as_validation e ≡ none) × (shown ≡ config_err e))

passed_on-Passes : (e : Error) → Passes e (passed_on e (as_validation e))
unfolding passed_on
passed_on-Passes e = elim (Option-cases (as_validation e)) [
  | inl h ↦ rw h (inr (refl, refl))
  | inr (ps, h) ↦ rw h (inl (ps, refl, refl))
]

after_validate-err :
    (ms : List Fields) (r : Result (Unit {0})) (shown : Error)
    → after_validate ms r ≡ err shown
    → (e : Error) × (r ≡ err e) × Passes e shown
unfolding after_validate
after_validate-err ms (ok u) shown h = cc
after_validate-err ms (err e) shown h =
    let same : passed_on e (as_validation e) ≡ shown = cc h in
    (e, refl, (rw (← same) (passed_on-Passes e)))

-- Where the generate tool fails, the batch was empty and the model is told so, or `Validate` failed:
-- its list of problems is passed on as it is, and any other error is labelled as one that the model
-- cannot repair.
pub generate-err :
    (s : ToolSpec) (vopts : ValidateOptions) (ms : List Fields) (shown : Error)
    → generate s vopts ms ≡ err shown
    → ((ms ≡ []) × (shown ≡ empty_batch))
      ⊎ ((ms ≢ []) × ((e : Error) × (s.validate ms vopts ≡ err e) × Passes e shown))
unfolding generate
generate-err s vopts [] shown h = inl (refl, cc)
generate-err s vopts (m ∷ ms) shown h =
    inr (λ e. cc, after_validate-err (m ∷ ms) (s.validate (m ∷ ms) vopts) shown h)

new_tool-handler :
    {In Out : Type 0} (refuses : ToolConfig → Option Error) (config : ToolConfig)
    (handler : In → Result Out) (t : Tool In Out)
    → new_tool refuses config handler ≡ ok t
    → handler ≡ t.handler
unfolding new_tool
new_tool-handler refuses config handler t h = elim (Option-cases (refuses config)) [
  | inl n ↦
      let built : ok (record { config = config; handler = handler }) ≡ ok t =
        rw (n, new_tool) at h in
      ap (λ (u : Tool _ _). u.handler) (ok_inj built)
  | inr (e, n) ↦ (let refused : err e ≡ ok t = rw (n, new_tool) at h in cc)
]

module _ (files : Embedded) (marshal : Fields → Result String) (refuses : ToolConfig → Option Error)
    (s : ToolSpec) (params : VersionParams) (opts : ToolOptions) where
  -- The generate tool that is built runs `generate` with the options of its version.
  pub generate_tool-handler :
      (t : GenerateTool)
      → generate_tool files marshal refuses s params opts ≡ ok t
      → generate s (generate_options s params opts) ≡ t.handler
  unfolding generate_tool
  generate_tool-handler t h = new_tool-handler refuses _ _ t h
