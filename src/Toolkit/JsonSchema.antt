-- ===== src/Toolkit/JsonSchema.antt =====
-- The schemas of tools, as internal/toolkit/types.go and the packages tools build them: a value of
-- jsonschema.Schema of the library jsonschema-go, with the fields that the program sets.
use adk_a2ui_go.Common.{
  ℕ, String, Bool, true, false, ◌&&◌, Option, none, List, [], ◌∷◌, ◌++◌ as append, ◌==◌,
  if◌then◌else◌,
}

-- The fields that hold no schema; the zero value is an absent keyword.
pub record Keywords : Type 0 where
  pub schema_uri : String
  pub id : String
  pub title : String
  pub description : String
  pub type_name : String
  pub ref : String
  pub enum : List String
  pub required : List String
  pub min_items : Option ℕ

-- The field that holds a schema: an entry of `Properties` or `Defs`, or `Items` or
-- `AdditionalProperties`.
pub data Place : Type 0 where
  property definition : String → Place
  items additional_properties : Place

mutual
  pub data JsonSchema : Type 0 where
    schema : Keywords → Parts → JsonSchema

  pub data Parts : Type 0 where
    done : Parts
    part : Place → JsonSchema → Parts → Parts

abbrev pub no_keywords : Keywords
no_keywords = record {
  schema_uri = "";
  id = "";
  title = "";
  description = "";
  type_name = "";
  ref = "";
  enum = [];
  required = [];
  min_items = none;
}

-- `&jsonschema.Schema{}`
abbrev pub empty_schema : JsonSchema
empty_schema = schema no_keywords done

abbrev pub of_type : String → String → Keywords
of_type type_name description = record no_keywords {
  type_name = type_name;
  description = description;
}

-- `{Type: t, Description: d}`
abbrev pub leaf : String → String → JsonSchema
leaf type_name description = schema (of_type type_name description) done

-- `{Ref: "#/$defs/…", Description: d}`
abbrev pub reference : String → String → JsonSchema
reference ref description =
    schema (record no_keywords { ref = ref; description = description }) done

abbrev ref_list : String → List String
ref_list ref = if ref == "" then [] else ref ∷ []

-- What a schema refers to, anywhere in it.
unfoldable mutual
  pub refs : JsonSchema → List String
  refs (schema k ps) = append (ref_list k.ref) (refs_parts ps)

  pub refs_parts : Parts → List String
  refs_parts done = []
  refs_parts (part place s ps) = append (refs s) (refs_parts ps)

-- The keys of `Defs`, and of `Properties`.
unfoldable pub definitions : Parts → List String
definitions done = []
definitions (part (definition name) s ps) = name ∷ definitions ps
definitions (part place s ps) = definitions ps

unfoldable pub properties : Parts → List String
properties done = []
properties (part (property name) s ps) = name ∷ properties ps
properties (part place s ps) = properties ps

abbrev pub parts_of : JsonSchema → Parts
parts_of (schema k ps) = ps

unfoldable pub item_parts : Parts → Parts
item_parts done = done
item_parts (part items s ps) = parts_of s
item_parts (part place s ps) = item_parts ps

-- `&jsonschema.Schema{}`, which admits every value.
is_empty_parts : Parts → Bool
is_empty_parts done = true
is_empty_parts (part place s ps) = false

is_empty : JsonSchema → Bool
is_empty (schema k ps) = is_empty_parts ps && (k.type_name == "" && k.ref == "")

no_names : List String → Bool
no_names [] = true
no_names (x ∷ xs) = false

closes : Place → JsonSchema → Bool
closes additional_properties s = is_empty s
closes place s = true

-- No keyword `required`, and no `additionalProperties` but the empty schema, anywhere.
unfoldable mutual
  unfolding no_names closes is_empty is_empty_parts

  pub is_open : JsonSchema → Bool
  is_open (schema k ps) = no_names k.required && is_open_parts ps

  pub is_open_parts : Parts → Bool
  is_open_parts done = true
  is_open_parts (part place s ps) = closes place s && (is_open s && is_open_parts ps)

-- The fields of a schema that hold schemas, in order.
abbrev pub parts : List (Place × JsonSchema) → Parts
parts [] = done
parts ((place, s) ∷ rest) = part place s (parts rest)
