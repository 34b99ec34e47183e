-- ===== src/Examples/Tools.antt =====
-- The tools with an engine that admits everything, and a client with an inline catalog.
use adk_a2ui_go.Common.{
  String, ◌≡◌, refl, ◌≢◌, ◌⊎◌, inl, true, Option, none, some, List, [], ◌∷◌, lookup, str_elem,
}
use adk_a2ui_go.Common.Sort.{sort}
use adk_a2ui_go.Common.Text.{join, trim_space}
use adk_a2ui_go.Json.{str, obj, Fields, end, field, get, str_at}
use adk_a2ui_go.Kit.Error.{Error, failure, Result, ok, err, as_validation}
use adk_a2ui_go.Kit.Options.{ValidateOptions, ToolOptions}
use adk_a2ui_go.Kit.Capabilities.{VersionParams, Capabilities, no_params}
use adk_a2ui_go.Spec.{Embedded, basic_catalog_ids, major_v10}
use adk_a2ui_go.Schema.Finalize.{finalize}
use adk_a2ui_go.Schema.Resolve.{resolve_catalog, catalog_instructions}
use adk_a2ui_go.Schema.Rules.{first_create_index, used_before_create}
use adk_a2ui_go.Schema.Format.Text.{Printer}
use adk_a2ui_go.Schema.Engine.{Schema, Engine}
use adk_a2ui_go.Toolkit.JsonSchema.{empty_schema}
use adk_a2ui_go.Toolkit.Types.{ToolSpec, CatalogToolOutput}
use adk_a2ui_go.Toolkit.Tools.{
  ToolConfig, GenerateTool, config_err, empty_batch, client_ids, catalog_output, generate,
  generate_tool,
}
use adk_a2ui_go.Toolkit.Tools.Laws.{success, Passes, generate-err}
use adk_a2ui_go.Toolkit.Tools.Laws.Documents.{IsComplete, catalog_output-IsComplete}
use adk_a2ui_go.V10.Rules.{semantic_rules, surface_rules}
use adk_a2ui_go.V10.Validate.{validate, validate_against_catalogs, created_surfaces}
use adk_a2ui_go.V10.Tools.{generate_tool_v10, toolset_tools_v10}
use adk_a2ui_go.V10.Tools.Laws.{IsValidV10, generate_tool_v10-ok_iff}
use adk_a2ui_go.V09.Rules.{semantic_rules_v09}
use adk_a2ui_go.V09.Validate.{
  check_version, created_catalogs, validate_against_catalogs_v09, validate_v09,
}
use adk_a2ui_go.V09.Tools.{check_tool_version, tool_spec_v09, generate_tool_v09, toolset_tools_v09}
use adk_a2ui_go.V09.Tools.Laws.{IsValidV09, generate_tool_v09-ok_iff}
use adk_a2ui_go.V10.Tools.{tool_spec_v10}
use adk_a2ui_go.Toolset.Single.{Given, given-toolset_tools}
use adk_a2ui_go.Toolset.Specs.{Steers, tool_specs-Steers}

abbrev files : Embedded
files = record { basic_catalog = λ major. ok end; basic_instructions = λ major. "" }

abbrev admits : Schema
admits v = none

abbrev engine : Engine
engine = record { compile = λ entry v091. ok admits; compile_ref = λ ref catalog v091. ok admits }

abbrev printer : Printer
printer = record { marshal = λ v. some "null"; sprint = λ v. "" }

abbrev marshal : Fields → Result String
marshal m = ok "{}"

abbrev refuses : ToolConfig → Option Error
refuses config = none

abbrev options : ToolOptions
options = record { resolver = none; strict = true }

abbrev no_tool : GenerateTool
no_tool = record {
  config = record {
    name = "";
    description = "";
    input_schema = empty_schema;
    output_schema = empty_schema;
  };
  handler = λ messages. err (failure "");
}

abbrev or_no_tool : Result GenerateTool → GenerateTool
or_no_tool (err e) = no_tool
or_no_tool (ok t) = t

abbrev delete_message : String → Fields
delete_message version =
    field "version" (str version)
      (field "deleteSurface" (obj (field "surfaceId" (str "s1") end)) end)

abbrev tool_v10 : GenerateTool
unfolding generate_tool
tool_v10 = or_no_tool (generate_tool_v10 files engine printer marshal refuses no_params options)

abbrev batch_v10 : List Fields
batch_v10 = delete_message "v1.0" ∷ []

generate_tool_v10-ok_iff_example :
    (batch_v10 ≢ [])
    × IsValidV10 files engine printer marshal refuses no_params options batch_v10
    × (success batch_v10 ≡ success batch_v10)
unfolding generate_tool generate validate finalize validate_against_catalogs semantic_rules
    first_create_index used_before_create surface_rules get str_at created_surfaces lookup sort
generate_tool_v10-ok_iff_example =
    (generate_tool_v10-ok_iff files engine printer marshal refuses no_params options tool_v10
        batch_v10 (success batch_v10) refl).0
      refl

abbrev tool_v09 : GenerateTool
unfolding generate_tool generate_tool_v09 check_tool_version
tool_v09 =
    or_no_tool (generate_tool_v09 files engine printer marshal refuses "v0.9" no_params options)

abbrev batch_v09 : List Fields
batch_v09 = delete_message "v0.9" ∷ []

generate_tool_v09-ok_iff_example :
    (batch_v09 ≢ [])
    × IsValidV09 files engine printer marshal refuses "v0.9" no_params options batch_v09
    × (success batch_v09 ≡ success batch_v09)
unfolding generate_tool generate_tool_v09 check_tool_version generate validate_v09 check_version
    finalize validate_against_catalogs_v09 created_catalogs semantic_rules_v09 first_create_index
    used_before_create surface_rules get str_at lookup sort
generate_tool_v09-ok_iff_example =
    (generate_tool_v09-ok_iff files engine printer marshal refuses "v0.9" no_params options tool_v09
        batch_v09 (success batch_v09) (inl refl) refl).0
      refl

-- A version whose validation cannot run.
abbrev broken : ToolSpec
broken = record {
  major = major_v10;
  version = "v1.0";
  validate = λ messages vopts. err (failure "no schema");
  envelope = empty_schema;
  message_keys = [];
  notes = [];
}

abbrev validation_options : ValidateOptions
validation_options = record { version = "v1.0"; params = no_params; resolver = none; strict = true }

generate-err_example :
    ((batch_v10 ≡ []) × (config_err (failure "no schema") ≡ empty_batch))
    ⊎ ((batch_v10 ≢ [])
        × ((e : Error) × (broken.validate batch_v10 validation_options ≡ err e)
            × Passes e (config_err (failure "no schema"))))
unfolding generate as_validation
generate-err_example =
    generate-err broken validation_options batch_v10 (config_err (failure "no schema")) refl

abbrev inline : Fields
inline = field "catalogId" (str "b") (field "instructions" (str " Use it. ") end)

abbrev client : VersionParams
client = record { supported_catalog_ids = "a" ∷ "a" ∷ "" ∷ []; inline_catalogs = inline ∷ [] }

abbrev answer : CatalogToolOutput
answer = record {
  version = "v1.0";
  catalog_ids = "a" ∷ "b" ∷ [];
  catalogs = ("b", "{}") ∷ [];
  unresolved = "a" ∷ [];
  instructions = "Use it.";
}

catalog_output-IsComplete_example : IsComplete files marshal broken client options answer
unfolding catalog_output client_ids resolve_catalog catalog_instructions basic_catalog_ids str_elem
    get str_at trim_space join
catalog_output-IsComplete_example =
    catalog_output-IsComplete files marshal broken client options answer refl

abbrev engine_choice : String → Engine
engine_choice major = engine

abbrev capabilities : Capabilities
capabilities = ("v1.0", no_params) ∷ ("v0.9", client) ∷ []

given-toolset_tools_example :
    (Given files engine_choice printer marshal refuses options "v1.0" (some capabilities)
      ≡ toolset_tools_v10 files engine printer marshal refuses options (some capabilities))
    × (Given files engine_choice printer marshal refuses options "v0.9" (some capabilities)
        ≡ toolset_tools_v09 files engine printer marshal refuses
            (record { version = "v0.9"; opts = options })
            (some capabilities))
given-toolset_tools_example =
    given-toolset_tools files engine_choice printer marshal refuses options "v0.9"
      (some capabilities) (inl refl)

tool_specs-Steers_example :
    Steers (tool_spec_v09 files engine printer "v0.9") × Steers (tool_spec_v10 files engine printer)
tool_specs-Steers_example = tool_specs-Steers files engine printer "v0.9"
