-- ===== src/V09/Tools/Laws.antt =====
-- v09/tools/tool.go: what the generate tool of v0.9 and v0.9.1 lets through.
use adk_a2ui_go.Common.{
  String, ◌≡◌, ◌↔◌, ◌≢◌, ◌⊎◌, inl, inr, Bool, not, ◌==◌, Option, none, List, [], ◌∷◌, All, sym, ◌∙◌,
}
use mathlib.Core.Path.{subst}
use adk_a2ui_go.Json.{Fields, str_at}
use adk_a2ui_go.Kit.Error.{Error, Result, ok, >>=-eq-ok}
use adk_a2ui_go.Kit.Capabilities.{VersionParams, v09, v091}
use adk_a2ui_go.Kit.Options.{ToolOptions, ValidateOptions}
use adk_a2ui_go.Spec.{Embedded}
use adk_a2ui_go.Schema.Format.Text.{Printer}
use adk_a2ui_go.Schema.Engine.{Engine, Schema, to_instance}
use adk_a2ui_go.Toolkit.Types.{GenerateOutput}
use adk_a2ui_go.Toolkit.Tools.{ToolConfig, GenerateTool, generate, generate_options}
use adk_a2ui_go.Toolkit.Tools.Laws.{success, generate-ok_iff, generate_tool-handler}
use adk_a2ui_go.V10.Validate.Laws.{Pins}
use adk_a2ui_go.V09.Rules.Spec.{BatchOkV09}
use adk_a2ui_go.V09.Validate.{created_catalogs}
use adk_a2ui_go.V09.Validate.Laws.{validate_v09-ok_iff}
use adk_a2ui_go.V09.Validate.Pass.{CatalogsOk}
use adk_a2ui_go.V09.Tools.{check_tool_version, tool_spec_v09, generate_tool_v09}

-- The tools are made for a wire version.
abbrev pub IsWire : String → Type 0
IsWire version = (version ≡ v09) ⊎ (version ≡ v091)

wire_pinned : (version got : String) → IsWire version → Pins version got ↔ (got ≡ version)
wire_pinned version got wire = (
  λ h. elim h [
    | inl e ↦ elim wire [
      | inl w ↦ (let k : "" ≡ "v0.9" = sym e ∙ w in cc k)
      | inr w ↦ (let k : "" ≡ "v0.9.1" = sym e ∙ w in cc k)
    ]
    | inr e ↦ e
  ],
  inr,
)

each_wire :
    (version : String) (ms : List Fields)
    → IsWire version
    → All (λ m. Pins version (str_at "version" m)) ms ↔ All (λ m. str_at "version" m ≡ version) ms
each_wire version [] wire = (λ h. tt, λ h. tt)
each_wire version (m ∷ ms) wire =
    let here = wire_pinned version (str_at "version" m) wire in
    let rest = each_wire version ms wire in
    (λ h. (here.0 h.0, rest.0 h.1), λ h. (here.1 h.0, rest.1 h.1))

module _ (files : Embedded) (eng : Engine) (out : Printer) (marshal : Fields → Result String)
    (refuses : ToolConfig → Option Error) (version : String) (params : VersionParams)
    (opts : ToolOptions) where
  abbrev spec_options : ValidateOptions
  spec_options = generate_options (tool_spec_v09 files eng out version) params opts

  abbrev only_v091 : Bool
  only_v091 = not (version == "v0.9")

  -- Every message has the version, the schema of the batch admits it, everything in it meets its
  -- catalog, and the batch obeys the prose rules of v0.9.
  abbrev pub IsValidV09 : List Fields → Type 0
  IsValidV09 ms =
      All (λ m. str_at "version" m ≡ version) ms
      × ((envelope : Schema) × (eng.compile "server_to_client_list.json" only_v091 ≡ ok envelope)
          × (envelope (to_instance ms) ≡ none))
      × CatalogsOk files eng out spec_options only_v091 (created_catalogs ms) ms
      × BatchOkV09 ms

  validate_iff :
      (ms : List Fields)
      → IsWire version
      → ((tool_spec_v09 files eng out version).validate ms spec_options ≡ ok tt) ↔ IsValidV09 ms
  validate_iff ms wire =
      let iff = validate_v09-ok_iff files eng out spec_options ms in
      let pins = each_wire version ms wire in
      (
        λ h.
            let (_, pinned, envelope, found, rules) = iff.0 h in
            (pins.0 pinned, envelope, found, rules),
        λ (versions, envelope, catalogs, rules).
            iff.1 (inr wire, pins.1 versions, envelope, catalogs, rules),
      )

  -- The generate tool of v0.9 or v0.9.1, once it is built, succeeds exactly for a batch that has a
  -- message and is valid for the client's catalogs, and then it returns the batch as it came, as a
  -- success.
  pub generate_tool_v09-ok_iff :
      (t : GenerateTool) (ms : List Fields) (result : GenerateOutput)
      → IsWire version
      → generate_tool_v09 files eng out marshal refuses version params opts ≡ ok t
      → (t.handler ms ≡ ok result) ↔ ((ms ≢ []) × IsValidV09 ms × (result ≡ success ms))
  unfolding generate_tool_v09
  generate_tool_v09-ok_iff t ms result wire built =
      let spec = tool_spec_v09 files eng out version in
      let (_, _, made) = >>=-eq-ok (check_tool_version version) _ built in
      let iff = generate-ok_iff spec spec_options ms result in
      let valid = validate_iff ms wire in
      let runs : generate spec spec_options ≡ t.handler =
        generate_tool-handler files marshal refuses spec params opts t made in
      subst
        (λ (run : List Fields → Result GenerateOutput).
          (run ms ≡ ok result) ↔ ((ms ≢ []) × IsValidV09 ms × (result ≡ success ms)))
        runs
        (λ h. (let (a, b, c) = iff.0 h in (a, valid.0 b, c)), λ (a, b, c). iff.1 (a, valid.1 b, c))
