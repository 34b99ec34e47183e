-- ===== src/Toolkit/Types.antt =====
-- internal/toolkit/types.go: what the tools take and return, and the schemas of what they return.
use adk_a2ui_go.Common.{String, Bool, List, [], ◌∷◌, GoMap}
use adk_a2ui_go.Json.{Fields}
use adk_a2ui_go.Kit.Error.{Result}
use adk_a2ui_go.Kit.Options.{ValidateOptions}
use adk_a2ui_go.Toolkit.JsonSchema.{
  JsonSchema, schema, part, done, property, items, additional_properties, of_type, no_keywords,
  leaf,
}

abbrev pub catalog_tool_name : String
catalog_tool_name = "a2ui_catalog"

abbrev pub generate_tool_name : String
generate_tool_name = "generate_a2ui_messages"

-- `GenerateOutput`
pub record GenerateOutput : Type 0 where
  pub status : String
  pub is_valid : Bool
  pub messages : List Fields

-- `CatalogToolOutput`
pub record CatalogToolOutput : Type 0 where
  pub version : String
  pub catalog_ids : List String
  pub catalogs : GoMap String
  pub unresolved : List String
  pub instructions : String

-- `ValidateFunc`
abbrev pub ValidateFunc : Type 0
ValidateFunc = List Fields → ValidateOptions → Result (Unit {0})

-- `Spec`
pub record ToolSpec : Type 0 where
  pub major : String
  pub version : String
  pub validate : ValidateFunc
  pub envelope : JsonSchema
  pub message_keys : List String
  pub notes : List String

-- `generateOutputSchema`
unfoldable pub generate_output_schema : JsonSchema → JsonSchema
generate_output_schema envelope =
    schema
      (record no_keywords {
        type_name = "object";
        required = "status" ∷ "is_valid" ∷ "messages" ∷ [];
      })
      (part (property "status")
        (schema
          (record no_keywords {
            type_name = "string";
            description =
                "The execution status. A 'success' value means the UI was successfully generated and is valid. Your task is 100% complete. Do not call this tool again. End your turn.";
            enum = "success" ∷ "error" ∷ [];
          })
          done)
        (part (property "is_valid")
          (leaf "boolean"
            "True when the payload passed every schema, catalog, and semantic check and was accepted by the client.")
          (part (property "messages") envelope done)))

strings_schema : String → JsonSchema
strings_schema description =
    schema (of_type "array" description) (part items (leaf "string" "") done)

-- `catalogOutputSchema`
unfoldable pub catalog_output_schema : JsonSchema
unfolding strings_schema
catalog_output_schema =
    schema
      (record no_keywords {
        type_name = "object";
        required = "version" ∷ "catalog_ids" ∷ "catalogs" ∷ "unresolved" ∷ "instructions" ∷ [];
      })
      (part (property "version")
        (leaf "string"
          "The A2UI version negotiated with the client. Every message you generate must carry exactly this version string.")
        (part (property "catalog_ids")
          (strings_schema "Catalog ids the client supports. Use one of these as catalogId.")
          (part (property "catalogs")
            (schema
              (of_type "object"
                "Catalog documents by id, as JSON strings: component names, their required properties, allowed values, and available functions. Follow them exactly.")
              (part additional_properties (leaf "string" "") done))
            (part (property "unresolved")
              (strings_schema
                "Catalog ids whose documents are not available; prefer an id from catalogs.")
              (part (property "instructions")
                (leaf "string" "Authoring rules from the catalogs. Follow them.") done)))))
