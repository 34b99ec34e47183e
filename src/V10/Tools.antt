-- ===== src/V10/Tools.antt =====
-- v10/tools/tool.go: the tools of v1.0.
pub mod Envelope
pub mod Laws
use Prim.Native.String.{◌++◌}
use adk_a2ui_go.Common.{String, Option, none, some, List, [], ◌∷◌, lookup}
use adk_a2ui_go.Json.{Fields}
use adk_a2ui_go.Kit.Error.{Error, Result, ok, err, ◌>>=◌}
use adk_a2ui_go.Kit.Capabilities.{VersionParams, Capabilities, v10}
use adk_a2ui_go.Kit.Options.{ToolOptions}
use adk_a2ui_go.Spec.{Embedded, major_v10}
use adk_a2ui_go.Schema.Format.Text.{Printer}
use adk_a2ui_go.Schema.Engine.{Engine}
use adk_a2ui_go.Toolkit.Types.{ToolSpec}
use adk_a2ui_go.Toolkit.Tools.{
  ToolConfig, CatalogTool, GenerateTool, catalog_tool, generate_tool, tools,
}
use adk_a2ui_go.V10.Validate.{validate}
use adk_a2ui_go.V10.Tools.Envelope.{envelope_schema_v10}

abbrev notes_v10 : List String
notes_v10 =
    "updateDataModel requires \"value\"; send null to delete the key at \"path\"."
    ∷ "createSurface has no \"theme\". Its \"catalogId\" is optional, but then every component must set its own \"catalogId\"."
    ∷ "A component may never be named \"Surface\". The \"root\" component may be placed inside createSurface.components."
    ∷ "Function arguments go under \"args\" inside \"callFunction\", next to \"call\" and \"catalogId\", as the catalog's function definition describes."
    ∷ "callRendererFunction may only name a function whose catalog definition sets \"allowedCallers\" to \"agentOnly\" or \"rendererOrAgent\"; every function of the basic catalog is renderer-only and cannot be called this way."
    ∷ []

module _ (files : Embedded) (eng : Engine) (out : Printer) where
  -- `toolSpec`
  abbrev pub tool_spec_v10 : ToolSpec
  tool_spec_v10 = record {
    major = major_v10;
    version = v10;
    validate = λ messages vopts. validate files eng out vopts messages;
    envelope = envelope_schema_v10;
    message_keys =
        "createSurface" ∷ "updateComponents" ∷ "updateDataModel" ∷ "deleteSurface"
        ∷ "callRendererFunction" ∷ "agentFunctionResponse" ∷ [];
    notes = notes_v10;
  }

  module _ (marshal : Fields → Result String) (refuses : ToolConfig → Option Error) where
    -- `CatalogTool`
    abbrev pub catalog_tool_v10 : VersionParams → ToolOptions → Result CatalogTool
    catalog_tool_v10 = catalog_tool files marshal refuses tool_spec_v10

    -- `GenerateTool`
    abbrev pub generate_tool_v10 : VersionParams → ToolOptions → Result GenerateTool
    generate_tool_v10 = generate_tool files marshal refuses tool_spec_v10

    -- `Tools`
    abbrev pub tools_v10 : VersionParams → ToolOptions → Result (CatalogTool × GenerateTool)
    tools_v10 = tools files marshal refuses tool_spec_v10

    offered : ToolOptions → Option VersionParams → Result (Option (CatalogTool × GenerateTool))
    offered opts none = ok none
    offered opts (some params) = tools_v10 params opts >>= λ both. ok (some both)

    -- `(*toolset).Tools` of the toolset that `NewToolset` returns for some options; a context without
    -- capabilities is `none`, and so is the nil list of tools.
    unfoldable pub toolset_tools_v10 :
        ToolOptions → Option Capabilities → Result (Option (CatalogTool × GenerateTool))
    unfolding offered
    toolset_tools_v10 opts none = ok none
    toolset_tools_v10 opts (some caps) = offered opts (lookup v10 caps)
