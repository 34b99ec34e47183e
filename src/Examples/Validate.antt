-- ===== src/Examples/Validate.antt =====
-- Validation of a batch with an engine that admits everything, and the lines of an error.
use adk_a2ui_go.Common.{
  String, ◌≡◌, refl, true, false, none, some, List, [], ◌∷◌, All, Elem, IsDistinct, lookup,
  str_elem,
}
use adk_a2ui_go.Common.Sort.{sort}
use adk_a2ui_go.Common.Text.{quote}
use adk_a2ui_go.Json.{null, str, obj, Fields, end, field, get, str_at}
use adk_a2ui_go.Kit.Error.{ok}
use adk_a2ui_go.Kit.Problem.{Problem}
use adk_a2ui_go.Kit.Options.{ValidateOptions}
use adk_a2ui_go.Kit.Capabilities.{no_params}
use adk_a2ui_go.Spec.{Embedded, basic_catalog_ids}
use adk_a2ui_go.Schema.Finalize.{finalize}
use adk_a2ui_go.Schema.Resolve.{resolve_catalog}
use adk_a2ui_go.Schema.Rules.{first_create_index}
use adk_a2ui_go.Schema.Format.Text.{Printer}
use adk_a2ui_go.Schema.Format.Plan.{
  Violation, violation, nothing, also, required, other_kind, Line, invalid, kind_plan,
}
use adk_a2ui_go.Schema.Format.{format, has_other, is_false_schema}
use adk_a2ui_go.Schema.Format.Laws.{lines}
use adk_a2ui_go.Schema.Format.Laws.Once.{report}
use adk_a2ui_go.Schema.Format.Laws.Found.{Found, lines-Found, Found-lines}
use adk_a2ui_go.Schema.Format.Laws.Exact.{LacksNul, format-Found}
use adk_a2ui_go.Schema.Format.Plan.{false_schema}
use adk_a2ui_go.Common.{inl, inr, ◌↔◌, sym, arith}
use mathlib.Core.Path.{subst}
use adk_a2ui_go.Schema.Engine.{Schema, Engine, to_instance}
use adk_a2ui_go.V10.Rules.{semantic_rules}
use adk_a2ui_go.V10.Rules.Spec.{BatchOk}
use adk_a2ui_go.Schema.Passes.{Lookups, no_lookups, note_answer}
use adk_a2ui_go.V10.Validate.{lookup_catalog, validate_against_catalogs, validate, created_surfaces}
use adk_a2ui_go.V10.Validate.Pass.{CatalogsOk}
use adk_a2ui_go.V10.Validate.Pass.Steps.{validate_against_catalogs-nil_iff}
use adk_a2ui_go.V10.Validate.Laws.{Supported, Pins, lookup_catalog-again, validate-ok_iff}

abbrev files : Embedded
files = record { basic_catalog = λ major. ok end; basic_instructions = λ major. "" }

abbrev admits : Schema
admits v = none

abbrev engine : Engine
engine = record { compile = λ entry v091. ok admits; compile_ref = λ ref catalog v091. ok admits }

abbrev printer : Printer
printer = record { marshal = λ v. some "null"; sprint = λ v. "" }

abbrev options : ValidateOptions
options = record { version = "v1.0"; params = no_params; resolver = none; strict = true }

abbrev delete_message : Fields
delete_message =
    field "version" (str "v1.0")
      (field "deleteSurface" (obj (field "surfaceId" (str "s1") end)) end)

abbrev batch : List Fields
batch = delete_message ∷ []

validate-ok_iff_example :
    Supported "v1.0"
    × All (λ m. Pins "v1.0" (str_at "version" m)) batch
    × ((envelope : Schema) × (engine.compile "agent_to_renderer_list.json" false ≡ ok envelope)
        × (envelope (to_instance batch) ≡ none))
    × (validate_against_catalogs files engine printer options batch ≡ ok [])
    × BatchOk batch
unfolding validate finalize validate_against_catalogs semantic_rules first_create_index get str_at
    created_surfaces lookup sort
validate-ok_iff_example = (validate-ok_iff files engine printer options batch).0 refl

abbrev after_miss : Lookups
after_miss = record {
  resolved = [];
  missing = "c9" ∷ [];
  problems =
      record {
        path = "messages[0].createSurface.catalogId";
        message =
            "catalog \"c9\" is not available to this agent (not inline, registered, or built in)";
      }
      ∷ [];
}

lookup_catalog-again_example :
    lookup_catalog files engine printer options "c9" "messages[1].x" after_miss
    ≡ ok (none, after_miss)
unfolding lookup_catalog resolve_catalog lookup str_elem basic_catalog_ids quote
lookup_catalog-again_example =
    lookup_catalog-again files engine printer options "c9" "messages[0].createSurface.catalogId"
      "messages[1].x" no_lookups after_miss none refl

-- A batch that creates a surface with a catalog that the engine's files have.
abbrev basic_id : String
basic_id = "https://a2ui.org/specification/v1_0/catalogs/basic/catalog.json"

abbrev create_message : Fields
create_message = field "version" (str "v1.0") (
    field "createSurface"
      (obj (field "surfaceId" (str "s1") (field "catalogId" (str basic_id) end))) end)

validate_against_catalogs-nil_iff_example :
    CatalogsOk files engine printer options (create_message ∷ [])
unfolding validate_against_catalogs created_surfaces lookup_catalog note_answer resolve_catalog
    lookup str_elem basic_catalog_ids get str_at
validate_against_catalogs-nil_iff_example =
    (validate_against_catalogs-nil_iff files engine printer options (create_message ∷ [])).0 refl

abbrev missing : Violation
missing = violation other_kind [] "text" (
    also (violation (required ("id" ∷ "component" ∷ [])) ("0" ∷ []) "t" nothing)
      (also (violation false_schema ("0" ∷ "text" ∷ []) "t" nothing) nothing))

abbrev missing_id : Line
missing_id = ("0" ∷ [], "missing property \"id\"")

abbrev missing_component : Line
missing_component = ("0" ∷ [], "missing property \"component\"")

missing-lines : lines printer null missing ≡ missing_id ∷ missing_component ∷ []
unfolding lines kind_plan has_other is_false_schema quote
missing-lines = refl

missing-Found : Found printer null missing missing_id
missing-Found =
    lines-Found printer null missing missing_id
      (subst (Elem missing_id) (sym missing-lines) (inl refl))

plain_texts : LacksNul missing_id.1 × LacksNul missing_component.1
plain_texts = ground arith

missing-LacksNul : (x : Line) → Found printer null missing x → LacksNul x.1
missing-LacksNul x f = elim (subst (Elem x) missing-lines (Found-lines printer null missing x f)) [
  | inl e ↦ rw e plain_texts.0
  | inr m ↦ elim m [ inl e ↦ rw e plain_texts.1 | inr n ↦ absurd n ]
]

format-Found_example :
    ((p : Problem)
      → Elem p (format printer null "messages" (invalid missing "text"))
        ↔ ((x : Line) × Found printer null missing x × (p ≡ report "messages" x)))
    × IsDistinct (format printer null "messages" (invalid missing "text"))
format-Found_example =
    format-Found printer null "messages" missing "text" missing_id missing-Found missing-LacksNul
