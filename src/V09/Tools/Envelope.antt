-- ===== src/V09/Tools/Envelope.antt =====
-- v09/tools/schema.go: the schema that the generate tool shows to the model.
use Prim.Native.String.{◌++◌}
use adk_a2ui_go.Common.{String, some, [], ◌∷◌}
use adk_a2ui_go.Common.Text.{quote}
use adk_a2ui_go.Toolkit.JsonSchema.{
  JsonSchema, schema, parts, property, definition, items, additional_properties, no_keywords,
  of_type, empty_schema, leaf, reference,
}

-- The definition "theme".
abbrev theme : JsonSchema
theme =
    leaf "object"
      "Theme parameters for the surface. The exact structure depends on the active catalog provided in the context."

-- The definition "anyComponent".
abbrev any_component : JsonSchema
any_component =
    schema
      (of_type "object"
        "A UI component from the active catalog. The LLM should use the components provided in the prompt/context.")
      (parts (
        (
          property "id",
          leaf "string"
              "Required. Unique id of this component within the surface. Exactly one component per surface must use \"root\".",
        )
        ∷ (property "component", leaf "string" "Required. The name of the component type.")
        ∷ (additional_properties, empty_schema)
        ∷ []))

-- The definition "CreateSurfaceMessage".
abbrev create_surface_message : JsonSchema
create_surface_message =
    schema
      (of_type "object"
        "Signals the client to create a new surface and begin rendering it. It is an error to send 'createSurface' for a surfaceId that already exists without first deleting it. When this message is sent, the client will expect 'updateComponents' and/or 'updateDataModel' messages for the same surfaceId that define the component tree.")
      (parts (
        (
          property "surfaceId",
          leaf "string" "Required. The unique identifier for the UI surface to be rendered.",
        )
        ∷ (
          property "catalogId",
          leaf "string"
              "Required. A string that uniquely identifies this catalog. It is recommended to prefix this with an internet domain that you own, to avoid conflicts e.g. mycompany.com:somecatalog'.",
        )
        ∷ (
          property "theme",
          reference "#/$defs/theme"
              "Theme parameters for the surface (e.g., {'primaryColor': '#FF0000'}). These must validate against the 'theme' schema defined in the catalog.",
        )
        ∷ (
          property "sendDataModel",
          leaf "boolean"
              "If true, the client will send the full data model of this surface in the metadata of every A2A message sent to the server that created the surface. Defaults to false.",
        )
        ∷ []))

-- The definition "UpdateComponentsMessage".
abbrev update_components_message : JsonSchema
update_components_message =
    schema
      (of_type "object"
        "Updates a surface with a new set of components. This message can be sent multiple times to update the component tree of an existing surface. One of the components in one of the components lists MUST have an 'id' of 'root' to serve as the root of the component tree. A createSurface message MUST have been previously sent for the 'surfaceId' in this message; the surface's catalog is the one specified by that createSurface.")
      (parts (
        (
          property "surfaceId",
          leaf "string" "Required. The unique identifier for the UI surface to be updated.",
        )
        ∷ (
          property "components",
          schema
              (record no_keywords {
                type_name = "array";
                description = "Required. A list containing all UI components for the surface.";
                min_items = some 1;
              })
              (parts ((items, reference "#/$defs/anyComponent" "") ∷ [])),
        )
        ∷ []))

-- The definition "UpdateDataModelMessage".
abbrev update_data_model_message : JsonSchema
update_data_model_message =
    schema
      (of_type "object"
        "Updates the data model for an existing surface. This message can be sent multiple times to update the data model. A createSurface message MUST have been previously sent for the 'surfaceId' in this message; the surface's catalog is the one specified by that createSurface.")
      (parts (
        (
          property "surfaceId",
          leaf "string"
              "Required. The unique identifier for the UI surface this data model update applies to.",
        )
        ∷ (
          property "path",
          leaf "string"
              "An optional path to a location within the data model (e.g., '/user/name'). If omitted, or set to '/', refers to the entire data model.",
        )
        ∷ (
          property "value",
          schema
              (record no_keywords {
                description =
                    "The data to be updated in the data model. If present, the value at 'path' is replaced (or created). If omitted, the key at 'path' is removed.";
              })
              (parts ((additional_properties, empty_schema) ∷ [])),
        )
        ∷ []))

-- The definition "DeleteSurfaceMessage".
abbrev delete_surface_message : JsonSchema
delete_surface_message =
    schema
      (of_type "object"
        "Signals the client to delete the surface identified by 'surfaceId'. A createSurface message MUST have been previously sent for the 'surfaceId' in this message; the surface's catalog is the one specified by that createSurface.")
      (parts (
        (
          property "surfaceId",
          leaf "string" "Required. The unique identifier for the UI surface to be deleted.",
        )
        ∷ []))

-- `EnvelopeSchema`
unfoldable pub envelope_schema_v09 : String → JsonSchema
envelope_schema_v09 version =
    schema
      (record no_keywords {
        schema_uri = "https://json-schema.org/draft/2020-12/schema";
        id = "https://a2ui.org/specification/v0_9/server_to_client_list.json";
        title = "A2UI Server-to-Client Message List";
        description = "A list of A2UI Server-to-Client messages.";
        type_name = "array";
      })
      (parts (
        (
          items,
          schema
              (record no_keywords {
                title = "A2UI Message Schema";
                description =
                    "Describes a JSON payload for an A2UI (Agent to UI) message, which is used to dynamically construct and update user interfaces. Every message carries \"version\" and exactly one message key.";
                type_name = "object";
              })
              (parts (
                (
                  property "version",
                  leaf "string" ("Required on every message. Must be " ++ (quote version ++ ".")),
                )
                ∷ (property "createSurface", reference "#/$defs/CreateSurfaceMessage" "")
                ∷ (property "updateComponents", reference "#/$defs/UpdateComponentsMessage" "")
                ∷ (property "updateDataModel", reference "#/$defs/UpdateDataModelMessage" "")
                ∷ (property "deleteSurface", reference "#/$defs/DeleteSurfaceMessage" "")
                ∷ [])),
        )
        ∷ (definition "theme", theme)
        ∷ (definition "anyComponent", any_component)
        ∷ (definition "CreateSurfaceMessage", create_surface_message)
        ∷ (definition "UpdateComponentsMessage", update_components_message)
        ∷ (definition "UpdateDataModelMessage", update_data_model_message)
        ∷ (definition "DeleteSurfaceMessage", delete_surface_message)
        ∷ []))
