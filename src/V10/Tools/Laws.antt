-- ===== src/V10/Tools/Laws.antt =====
-- v10/tools/tool.go: what the generate tool of v1.0 lets through.
use adk_a2ui_go.Common.{
  String, ◌≡◌, refl, ◌↔◌, ◌≢◌, inl, inr, false, Option, none, List, [], ◌∷◌, All,
}
use mathlib.Core.Path.{subst}
use adk_a2ui_go.Json.{Fields, str_at}
use adk_a2ui_go.Kit.Error.{Error, Result, ok}
use adk_a2ui_go.Kit.Capabilities.{VersionParams}
use adk_a2ui_go.Kit.Options.{ToolOptions, ValidateOptions}
use adk_a2ui_go.Spec.{Embedded}
use adk_a2ui_go.Schema.Format.Text.{Printer}
use adk_a2ui_go.Schema.Engine.{Engine, Schema, to_instance}
use adk_a2ui_go.Toolkit.Types.{GenerateOutput}
use adk_a2ui_go.Toolkit.Tools.{ToolConfig, GenerateTool, generate, generate_options}
use adk_a2ui_go.Toolkit.Tools.Laws.{success, generate-ok_iff, generate_tool-handler}
use adk_a2ui_go.V10.Rules.Spec.{BatchOk}
use adk_a2ui_go.V10.Validate.Laws.{Pins, validate-ok_iff}
use adk_a2ui_go.V10.Validate.Pass.{CatalogsOk}
use adk_a2ui_go.V10.Validate.Pass.Steps.{validate_against_catalogs-nil_iff}
use adk_a2ui_go.V10.Tools.{tool_spec_v10, generate_tool_v10}

v10_pinned : (got : String) → Pins "v1.0" got ↔ (got ≡ "v1.0")
v10_pinned got = (λ h. elim h [ inl e ↦ cc e | inr e ↦ e ], inr)

each_v10 :
    (ms : List Fields)
    → All (λ m. Pins "v1.0" (str_at "version" m)) ms ↔ All (λ m. str_at "version" m ≡ "v1.0") ms
each_v10 [] = (λ h. tt, λ h. tt)
each_v10 (m ∷ ms) =
    let here = v10_pinned (str_at "version" m) in
    let rest = each_v10 ms in (λ h. (here.0 h.0, rest.0 h.1), λ h. (here.1 h.0, rest.1 h.1))

module _ (files : Embedded) (eng : Engine) (out : Printer) (marshal : Fields → Result String)
    (refuses : ToolConfig → Option Error) (params : VersionParams) (opts : ToolOptions) where
  abbrev spec_options : ValidateOptions
  spec_options = generate_options (tool_spec_v10 files eng out) params opts

  -- Every message has the version, the schema of the batch admits it, everything in it meets its
  -- catalog, and the batch obeys the prose rules.
  abbrev pub IsValidV10 : List Fields → Type 0
  IsValidV10 ms =
      All (λ m. str_at "version" m ≡ "v1.0") ms
      × ((envelope : Schema) × (eng.compile "agent_to_renderer_list.json" false ≡ ok envelope)
          × (envelope (to_instance ms) ≡ none))
      × CatalogsOk files eng out spec_options ms
      × BatchOk ms

  validate_iff :
      (ms : List Fields)
      → ((tool_spec_v10 files eng out).validate ms spec_options ≡ ok tt) ↔ IsValidV10 ms
  validate_iff ms =
      let iff = validate-ok_iff files eng out spec_options ms in
      let pass = validate_against_catalogs-nil_iff files eng out spec_options ms in
      let pins = each_v10 ms in
      (
        λ h.
            let (_, pinned, envelope, found, rules) = iff.0 h in
            (pins.0 pinned, envelope, pass.0 found, rules),
        λ (versions, envelope, catalogs, rules).
            iff.1 (inr refl, pins.1 versions, envelope, pass.1 catalogs, rules),
      )

  -- The generate tool of v1.0, once it is built, succeeds exactly for a batch that has a message and is
  -- valid for the client's catalogs, and then it returns the batch as it came, as a success.
  pub generate_tool_v10-ok_iff :
      (t : GenerateTool) (ms : List Fields) (result : GenerateOutput)
      → generate_tool_v10 files eng out marshal refuses params opts ≡ ok t
      → (t.handler ms ≡ ok result) ↔ ((ms ≢ []) × IsValidV10 ms × (result ≡ success ms))
  generate_tool_v10-ok_iff t ms result built =
      let spec = tool_spec_v10 files eng out in
      let iff = generate-ok_iff spec spec_options ms result in
      let valid = validate_iff ms in
      let runs : generate spec spec_options ≡ t.handler =
        generate_tool-handler files marshal refuses spec params opts t built in
      subst
        (λ (run : List Fields → Result GenerateOutput).
          (run ms ≡ ok result) ↔ ((ms ≢ []) × IsValidV10 ms × (result ≡ success ms)))
        runs
        (λ h. (let (a, b, c) = iff.0 h in (a, valid.0 b, c)), λ (a, b, c). iff.1 (a, valid.1 b, c))
