-- ===== src/V09/Tools.antt =====
-- v09/tools/tool.go: the tools of v0.9 and v0.9.1.
pub mod Envelope
pub mod Laws
use Prim.Native.String.{◌++◌}
use adk_a2ui_go.Common.{
  String, Bool, ◌&&◌, not, Option, none, some, List, [], ◌∷◌, ◌==◌, if◌then◌else◌, lookup,
}
use adk_a2ui_go.Common.Text.{quote}
use adk_a2ui_go.Json.{Fields}
use adk_a2ui_go.Kit.Error.{Error, failure, Result, ok, err, ◌>>=◌}
use adk_a2ui_go.Kit.Capabilities.{VersionParams, Capabilities, v09, v091}
use adk_a2ui_go.Kit.Options.{ToolOptions}
use adk_a2ui_go.Spec.{Embedded, major_v09}
use adk_a2ui_go.Schema.Format.Text.{Printer}
use adk_a2ui_go.Schema.Engine.{Engine}
use adk_a2ui_go.Toolkit.Types.{ToolSpec}
use adk_a2ui_go.Toolkit.Tools.{
  ToolConfig, CatalogTool, GenerateTool, catalog_tool, generate_tool, tools,
}
use adk_a2ui_go.V09.Validate.{validate_v09}
use adk_a2ui_go.V09.Tools.Envelope.{envelope_schema_v09}

-- `checkVersion`
unfoldable pub check_tool_version : String → Result (Unit {0})
check_tool_version version =
    if not (version == v09) && not (version == v091)
    then err (
        failure (
          "v09/tools: version must be "
          ++ (quote v09 ++ (" or " ++ (quote v091 ++ (", got " ++ quote version))))))
    else ok tt

-- `toolset`
pub record ToolsetV09 : Type 0 where
  pub version : String
  pub opts : ToolOptions

-- `NewToolset`
unfoldable pub new_toolset_v09 : String → ToolOptions → Result ToolsetV09
new_toolset_v09 version opts =
    check_tool_version version >>= λ u. ok (record { version = version; opts = opts })

abbrev notes_v09 : List String
notes_v09 =
    "createSurface requires \"catalogId\"."
    ∷ "updateDataModel: \"value\" is optional; omit it to delete the key at \"path\"."
    ∷ "createSurface may carry a \"theme\" object; it is validated against the catalog's theme schema."
    ∷ []

module _ (files : Embedded) (eng : Engine) (out : Printer) where
  -- `toolSpec`
  abbrev pub tool_spec_v09 : String → ToolSpec
  tool_spec_v09 version = record {
    major = major_v09;
    version = version;
    validate = λ messages vopts. validate_v09 files eng out vopts messages;
    envelope = envelope_schema_v09 version;
    message_keys = "createSurface" ∷ "updateComponents" ∷ "updateDataModel" ∷ "deleteSurface" ∷ [];
    notes = notes_v09;
  }

  module _ (marshal : Fields → Result String) (refuses : ToolConfig → Option Error) where
    -- `CatalogTool`
    unfoldable pub catalog_tool_v09 : String → VersionParams → ToolOptions → Result CatalogTool
    catalog_tool_v09 version params opts = check_tool_version version >>= λ u.
        catalog_tool files marshal refuses (tool_spec_v09 version) params opts

    -- `GenerateTool`
    unfoldable pub generate_tool_v09 : String → VersionParams → ToolOptions → Result GenerateTool
    generate_tool_v09 version params opts = check_tool_version version >>= λ u.
        generate_tool files marshal refuses (tool_spec_v09 version) params opts

    -- `Tools`
    unfoldable pub tools_v09 :
        String → VersionParams → ToolOptions → Result (CatalogTool × GenerateTool)
    tools_v09 version params opts = check_tool_version version >>= λ u.
        tools files marshal refuses (tool_spec_v09 version) params opts

    offered :
        String → ToolOptions → Option VersionParams → Result (Option (CatalogTool × GenerateTool))
    offered version opts none = ok none
    offered version opts (some params) =
        tools files marshal refuses (tool_spec_v09 version) params opts >>= λ both. ok (some both)

    -- `(*toolset).Tools`; a context without capabilities is `none`, and so is the nil list of tools.
    unfoldable pub toolset_tools_v09 :
        ToolsetV09 → Option Capabilities → Result (Option (CatalogTool × GenerateTool))
    unfolding offered
    toolset_tools_v09 t none = ok none
    toolset_tools_v09 t (some caps) = offered t.version t.opts (lookup t.version caps)
