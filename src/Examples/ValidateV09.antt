-- ===== src/Examples/ValidateV09.antt =====
-- Validation of a batch of v0.9 with an engine that admits everything.
use adk_a2ui_go.Common.{◌≡◌, refl, true, false, none, some, List, [], ◌∷◌, All, lookup, str_elem}
use adk_a2ui_go.Common.Sort.{sort}
use adk_a2ui_go.Json.{
  Value, str, arr, obj, Fields, end, field, get, obj_of, str_at, to_list, nil, item,
}
use adk_a2ui_go.Kit.Error.{ok}
use adk_a2ui_go.Kit.Options.{ValidateOptions}
use adk_a2ui_go.Kit.Capabilities.{no_params}
use adk_a2ui_go.Spec.{Embedded, basic_catalog_ids}
use adk_a2ui_go.Schema.Finalize.{finalize}
use adk_a2ui_go.Schema.Resolve.{resolve_catalog}
use adk_a2ui_go.Schema.Rules.{first_create_index, used_before_create}
use adk_a2ui_go.Schema.Format.Text.{Printer}
use adk_a2ui_go.Schema.Engine.{Schema, Engine, to_instance}
use adk_a2ui_go.Schema.Passes.{note_answer}
use adk_a2ui_go.V10.Rules.{surface_rules, check_id}
use adk_a2ui_go.V10.Validate.Laws.{Pins}
use adk_a2ui_go.V09.Rules.{check_ids, semantic_rules_v09}
use adk_a2ui_go.V09.Rules.Spec.{BatchOkV09}
use adk_a2ui_go.V09.Validate.{
  check_version, created_catalogs, catalog_of_surface, lookup_catalog_v09,
  validate_against_catalogs_v09, validate_v09,
}
use adk_a2ui_go.V09.Validate.Laws.{SupportedV09, validate_v09-ok_iff}
use adk_a2ui_go.V09.Validate.Unthemed.{CreatesUnthemed, validate_against_catalogs_v09-unthemed}
use adk_a2ui_go.V09.Validate.Pass.{CatalogsOk, validate_against_catalogs_v09-nil_iff}

abbrev files : Embedded
files = record { basic_catalog = λ major. ok end; basic_instructions = λ major. "" }

abbrev admits : Schema
admits v = none

abbrev engine : Engine
engine = record { compile = λ entry v091. ok admits; compile_ref = λ ref catalog v091. ok admits }

abbrev printer : Printer
printer = record { marshal = λ v. some "null"; sprint = λ v. "" }

abbrev options : ValidateOptions
options = record { version = "v0.9"; params = no_params; resolver = none; strict = true }

abbrev root : Value
root =
    obj (field "id" (str "root") (field "component" (str "Text") (field "catalogId" (str "") end)))

abbrev create_message : Fields
create_message = field "version" (str "v0.9") (
    field "createSurface"
      (obj (
        field "surfaceId" (str "s1") (
          field "catalogId" (str "https://a2ui.org/specification/v0_9/catalogs/basic/catalog.json")
            (field "theme" (obj end) end))))
      end)

abbrev update_message : Fields
update_message = field "version" (str "v0.9") (
    field "updateComponents"
      (obj (field "surfaceId" (str "s1") (field "components" (arr (item root nil)) end))) end)

abbrev batch : List Fields
batch = create_message ∷ update_message ∷ []

validate_against_catalogs_v09-nil_iff_example :
    CatalogsOk files engine printer options false (created_catalogs batch) batch
unfolding validate_against_catalogs_v09 created_catalogs catalog_of_surface lookup_catalog_v09
    note_answer resolve_catalog lookup str_elem basic_catalog_ids get str_at to_list
validate_against_catalogs_v09-nil_iff_example =
    (validate_against_catalogs_v09-nil_iff files engine printer options false batch).0 refl

validate_v09-ok_iff_example :
    SupportedV09 "v0.9"
    × All (λ m. Pins "v0.9" (str_at "version" m)) batch
    × ((envelope : Schema) × (engine.compile "server_to_client_list.json" false ≡ ok envelope)
        × (envelope (to_instance batch) ≡ none))
    × CatalogsOk files engine printer options false (created_catalogs batch) batch
    × BatchOkV09 batch
unfolding validate_v09 check_version finalize validate_against_catalogs_v09 created_catalogs
    catalog_of_surface lookup_catalog_v09 note_answer resolve_catalog lookup str_elem
    basic_catalog_ids get str_at to_list semantic_rules_v09 check_ids first_create_index
    used_before_create obj_of surface_rules check_id sort
validate_v09-ok_iff_example = (validate_v09-ok_iff files engine printer options batch).0 refl

abbrev unknown : List Fields
unknown =
    field "createSurface"
      (obj (field "surfaceId" (str "s1") (field "catalogId" (str "nobody knows") end))) end
    ∷ []

unknown-Unthemed : All CreatesUnthemed unknown
unfolding get
unknown-Unthemed =
    ((field "surfaceId" (str "s1") (field "catalogId" (str "nobody knows") end), refl, refl), tt)

validate_against_catalogs_v09-unthemed_example :
    validate_against_catalogs_v09 files engine printer options false unknown ≡ ok []
validate_against_catalogs_v09-unthemed_example =
    validate_against_catalogs_v09-unthemed files engine printer options false unknown
      unknown-Unthemed
