-- ===== src/Toolset/Specs.antt =====
-- v09/tools and v10/tools: the schemas that the generate tools show to the model.
use Prim.Native.String.{◌++◌}
use adk_a2ui_go.Common.{String, ◌≡◌, refl, true, ◌∷◌, All, map, str_elem}
use adk_a2ui_go.Spec.{Embedded}
use adk_a2ui_go.Schema.Format.Text.{Printer}
use adk_a2ui_go.Schema.Engine.{Engine}
use adk_a2ui_go.Toolkit.JsonSchema.{
  JsonSchema, refs, refs_parts, definitions, properties, parts_of, item_parts, is_open,
}
use adk_a2ui_go.Toolkit.Types.{ToolSpec}
use adk_a2ui_go.V09.Tools.{tool_spec_v09}
use adk_a2ui_go.V09.Tools.Envelope.{envelope_schema_v09}
use adk_a2ui_go.V10.Tools.{tool_spec_v10}
use adk_a2ui_go.V10.Tools.Envelope.{envelope_schema_v10}

-- Every reference names a definition of the schema.
abbrev pub ResolvesRefs : JsonSchema → Type 0
ResolvesRefs s =
    All (λ r. str_elem r (map (λ name. "#/$defs/" ++ name) (definitions (parts_of s))) ≡ true)
      (refs s)

-- A schema that steers the model and leaves every mistake to `Validate`: its references resolve, it
-- requires nothing and closes nothing, and its messages have the keys that the description names.
abbrev pub Steers : ToolSpec → Type 0
Steers s =
    ResolvesRefs s.envelope
    × (is_open s.envelope ≡ true)
    × (properties (item_parts (parts_of s.envelope)) ≡ "version" ∷ s.message_keys)

module _ (files : Embedded) (eng : Engine) (out : Printer) where
  -- The schemas of the generate tools, of v0.9 for every version and of v1.0, refer only to their own
  -- definitions, have no list of required keys and no closed object anywhere, and give a message the
  -- version and exactly the keys that the tool's description names.
  pub tool_specs-Steers :
      (version : String)
      → Steers (tool_spec_v09 files eng out version) × Steers (tool_spec_v10 files eng out)
  unfolding envelope_schema_v09 envelope_schema_v10 refs refs_parts definitions properties
      item_parts is_open str_elem
  tool_specs-Steers version = (
    ((refl, (refl, (refl, (refl, (refl, (refl, tt)))))), refl, refl),
    ((refl, (refl, (refl, (refl, (refl, (refl, (refl, (refl, (refl, tt))))))))), refl, refl),
  )
