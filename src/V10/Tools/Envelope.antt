-- ===== src/V10/Tools/Envelope.antt =====
-- v10/tools/schema.go: the schema that the generate tool shows to the model.
use adk_a2ui_go.Common.{some, [], ◌∷◌}
use adk_a2ui_go.Toolkit.JsonSchema.{
  JsonSchema, schema, parts, done, property, definition, items, additional_properties, no_keywords,
  of_type, empty_schema, leaf, reference,
}

-- The definition "anyComponent".
abbrev any_component : JsonSchema
any_component =
    schema
      (of_type "object"
        "A UI component from the catalog named by its catalogId or the surface's catalogId. Use the component definitions returned by a2ui_catalog.")
      (parts (
        (
          property "id",
          leaf "string"
              "Required. Unique id of this component within the surface. Exactly one component per surface must use \"root\".",
        )
        ∷ (
          property "component",
          leaf "string"
              "Required. The component type name from the catalog. Must not be \"Surface\".",
        )
        ∷ (
          property "catalogId",
          leaf "string"
              "Catalog id for this component, overriding the surface's default catalogId.",
        )
        ∷ (additional_properties, empty_schema)
        ∷ []))

-- The definition "functionCall".
abbrev function_call : JsonSchema
function_call =
    schema
      (of_type "object"
        "A function call: \"call\" names the function, \"catalogId\" names its catalog, and the function's arguments go in the \"args\" object as the catalog's function definition describes.")
      (parts (
        (property "call", leaf "string" "Required. The name of the function to call.")
        ∷ (property "catalogId", leaf "string" "The catalog ID for this function.")
        ∷ (
          property "args",
          schema
              (of_type "object"
                "The function's arguments, keyed by argument name, as defined by the catalog function.")
              (parts ((additional_properties, empty_schema) ∷ [])),
        )
        ∷ (additional_properties, empty_schema)
        ∷ []))

-- The definition "CreateSurfaceMessage".
abbrev create_surface_message : JsonSchema
create_surface_message =
    schema (of_type "object" "Creates a new surface and begins rendering it.") (
      parts (
        (
          property "surfaceId",
          leaf "string" "Required. The unique identifier for the UI surface to be rendered.",
        )
        ∷ (
          property "catalogId",
          leaf "string"
              "Default catalog for components of this surface. If omitted, every component must set its own catalogId.",
        )
        ∷ (property "sendDataModel", leaf "boolean" "")
        ∷ (
          property "components",
          schema
              (record no_keywords {
                type_name = "array";
                min_items = some 1;
                description =
                    "Optional initial component tree; may contain the \"root\" component.";
              })
              (parts ((items, reference "#/$defs/anyComponent" "") ∷ [])),
        )
        ∷ (
          property "dataModel",
          schema (of_type "object" "Optional initial data model.")
              (parts ((additional_properties, empty_schema) ∷ [])),
        )
        ∷ (
          property "metadata",
          schema (record no_keywords { type_name = "object" })
              (parts ((additional_properties, empty_schema) ∷ [])),
        )
        ∷ []))

-- The definition "UpdateComponentsMessage".
abbrev update_components_message : JsonSchema
update_components_message =
    schema (of_type "object" "Replaces or extends the component tree of an existing surface.") (
      parts (
        (
          property "surfaceId",
          leaf "string" "Required. The unique identifier for the UI surface to be updated.",
        )
        ∷ (
          property "components",
          schema
              (record no_keywords {
                type_name = "array";
                min_items = some 1;
                description = "Required. The UI components for the surface.";
              })
              (parts ((items, reference "#/$defs/anyComponent" "") ∷ [])),
        )
        ∷ []))

-- The definition "UpdateDataModelMessage".
abbrev update_data_model_message : JsonSchema
update_data_model_message =
    schema (of_type "object" "Updates the data model of an existing surface.") (
      parts (
        (
          property "surfaceId",
          leaf "string"
              "Required. The unique identifier for the UI surface this data model update applies to.",
        )
        ∷ (
          property "path",
          leaf "string"
              "JSON Pointer into the data model, e.g. \"/user/name\". Omitted or \"/\" means the whole model.",
        )
        ∷ (
          property "value",
          schema
              (record no_keywords {
                description = "Required. The new value at path; null deletes the key.";
              })
              (parts ((additional_properties, empty_schema) ∷ [])),
        )
        ∷ []))

-- The definition "DeleteSurfaceMessage".
abbrev delete_surface_message : JsonSchema
delete_surface_message = schema (of_type "object" "Deletes the surface identified by surfaceId.") (
    parts (
      (
        property "surfaceId",
        leaf "string" "Required. The unique identifier for the UI surface to be deleted.",
      )
      ∷ []))

-- The definition "CallRendererFunctionMessage".
abbrev call_renderer_function_message : JsonSchema
call_renderer_function_message =
    schema (of_type "object" "Calls a function the renderer's catalog provides.") (
      parts (
        (
          property "functionCallId",
          leaf "string"
              "Required. Unique id for this call; the renderer echoes it in rendererFunctionResponse.",
        )
        ∷ (
          property "callFunction",
          reference "#/$defs/functionCall" "Required. The function to call.",
        )
        ∷ []))

-- The definition "AgentFunctionResponseMessage".
abbrev agent_function_response_message : JsonSchema
agent_function_response_message =
    schema (of_type "object" "Answers a callAgentFunction the renderer sent.") (
      parts (
        (
          property "functionCallId",
          leaf "string" "Required. The id from the renderer's callAgentFunction.",
        )
        ∷ (
          property "value",
          schema
              (record no_keywords {
                description = "The function result. Provide exactly one of value or error.";
              })
              done,
        )
        ∷ (
          property "error",
          schema (of_type "object" "The failure. Provide exactly one of value or error.") (
              parts (
                (property "code", leaf "string" "Required. Error code.")
                ∷ (property "message", leaf "string" "Required. Human-readable error.")
                ∷ [])),
        )
        ∷ []))

-- `EnvelopeSchema`
unfoldable pub envelope_schema_v10 : JsonSchema
envelope_schema_v10 =
    schema
      (record no_keywords {
        schema_uri = "https://json-schema.org/draft/2020-12/schema";
        id = "https://a2ui.org/specification/v1_0/json/agent_to_renderer_list.json";
        title = "A2UI Agent-to-Renderer Message List";
        description = "A list of A2UI agent-to-renderer messages.";
        type_name = "array";
      })
      (parts (
        (
          items,
          schema
              (of_type "object"
                "One A2UI agent-to-renderer message: the \"version\" plus exactly one message key.")
              (parts (
                (property "version", leaf "string" "Required on every message. Must be \"v1.0\".")
                ∷ (property "createSurface", reference "#/$defs/CreateSurfaceMessage" "")
                ∷ (property "updateComponents", reference "#/$defs/UpdateComponentsMessage" "")
                ∷ (property "updateDataModel", reference "#/$defs/UpdateDataModelMessage" "")
                ∷ (property "deleteSurface", reference "#/$defs/DeleteSurfaceMessage" "")
                ∷ (
                  property "callRendererFunction",
                  reference "#/$defs/CallRendererFunctionMessage" "",
                )
                ∷ (
                  property "agentFunctionResponse",
                  reference "#/$defs/AgentFunctionResponseMessage" "",
                )
                ∷ [])),
        )
        ∷ (definition "anyComponent", any_component)
        ∷ (definition "functionCall", function_call)
        ∷ (definition "CreateSurfaceMessage", create_surface_message)
        ∷ (definition "UpdateComponentsMessage", update_components_message)
        ∷ (definition "UpdateDataModelMessage", update_data_model_message)
        ∷ (definition "DeleteSurfaceMessage", delete_surface_message)
        ∷ (definition "CallRendererFunctionMessage", call_renderer_function_message)
        ∷ (definition "AgentFunctionResponseMessage", agent_function_response_message)
        ∷ []))
