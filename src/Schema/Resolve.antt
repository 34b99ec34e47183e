-- ===== src/Schema/Resolve.antt =====
-- internal/schema/resolve.go: where a catalog id is looked up, and a
-- catalog's guidance.
pub mod Laws
use Prim.Native.String.{◌++◌}
use adk_a2ui_go.Common.{
  String, Bool, true, false, Option, none, some, List, [], ◌∷◌, ◌==◌, if◌then◌else◌, str_elem,
}
use adk_a2ui_go.Common.Text.{quote, trim_space}
use adk_a2ui_go.Json.{Fields, str_at}
use adk_a2ui_go.Kit.Error.{Error, wrapped, Result, ok, err, ◌>>=◌}
use adk_a2ui_go.Kit.Catalog.{Resolver, first_answer}
use adk_a2ui_go.Kit.Options.{ValidateOptions}
use adk_a2ui_go.Spec.{Embedded, basic_catalog_ids}

-- The loop over the inline catalogs.
find_inline : String → List Fields → Option Fields
find_inline id [] = none
find_inline id (c ∷ cs) = if str_at "catalogId" c == id then some c else find_inline id cs

abbrev label_error : String → Result (Option Fields) → Result (Option Fields)
label_error id (ok o) = ok o
label_error id (err e) = err (wrapped ("catalog resolver for " ++ (quote id ++ ": ")) e)

ask_resolver : Option Resolver → String → Result (Option Fields)
ask_resolver none id = ok none
ask_resolver (some r) id = label_error id (r id)

ask_basic : Embedded → String → String → Result (Option Fields)
ask_basic files major id =
    if str_elem id (basic_catalog_ids major)
    then (files.basic_catalog major >>= λ c. ok (some c))
    else ok none

-- `ResolveCatalog`: `ok none` where nobody knows the id.
unfoldable pub resolve_catalog :
    Embedded → String → String → ValidateOptions → Result (Option Fields)
unfolding find_inline ask_resolver ask_basic
resolve_catalog files major id opts =
    if id == ""
    then ok none
    else first_answer (ok (find_inline id opts.params.inline_catalogs))
        (first_answer (ask_resolver opts.resolver id) (ask_basic files major id))

-- `CatalogInstructions`: the guidance of the embedded basic catalog, or a catalog's own.
unfoldable pub catalog_instructions : Embedded → String → Fields → String
catalog_instructions files major catalog =
    if str_elem (str_at "catalogId" catalog) (basic_catalog_ids major)
    then files.basic_instructions major
    else trim_space (str_at "instructions" catalog)
