-- ===== src/Kit/Catalog.antt =====
-- kit/catalog.go: the registry of catalogs and the chain of resolvers. A resolver is a function of
-- the id that reads the registry as it is at the call; the lock makes each call one step.
pub mod Laws
use Prim.Native.String.{◌++◌}
use adk_a2ui_go.Common.{
  String, Option, none, some, List, [], ◌∷◌, ◌==◌, if◌then◌else◌, GoMap, lookup, true, false,
}
use adk_a2ui_go.Common.Text.{quote}
use adk_a2ui_go.Json.{Fields, str_at, copy_fields}
use adk_a2ui_go.Kit.Error.{Error, failure, wrapped, Result, ok, err}

-- `CatalogResolver`: the catalog, or `none` where the id is unknown to the resolver.
abbrev pub Resolver : Type 0
Resolver = String → Result (Option Fields)

-- `Registry`
pub record Registry : Type 0 where
  pub catalogs : GoMap Fields

-- `NewRegistry`
abbrev pub new_registry : Registry
new_registry = record { catalogs = [] }

store_copy : String → Option Fields → Registry → Result Registry
store_copy id none r =
    err (wrapped ("kit: copy catalog " ++ (quote id ++ ": ")) (failure "json: unsupported type"))
store_copy id (some cp) r = ok (record { catalogs = (id, cp) ∷ r.catalogs })

-- `Register`
unfoldable pub register : Fields → Registry → Result Registry
unfolding store_copy copy_fields
register catalog r =
    let id = str_at "catalogId" catalog in
    if id == ""
    then err (failure "kit: catalog has no string catalogId")
    else store_copy id (copy_fields catalog) r

parsed : Result Fields → Registry → Result Registry
parsed (err e) r = err (wrapped "kit: catalog JSON: " e)
parsed (ok catalog) r = register catalog r

-- `RegisterJSON`; `decode` is `json.Unmarshal` into a map, the nil map for `null`.
unfoldable pub register_json : (String → Result Fields) → String → Registry → Result Registry
unfolding parsed
register_json decode text r = parsed (decode text) r

-- `(*Registry).ResolveCatalog`
unfoldable pub resolve_registered : Registry → Resolver
resolve_registered r id = ok (lookup id r.catalogs)

abbrev pub first_answer : Result (Option Fields) → Result (Option Fields) → Result (Option Fields)
first_answer (err e) later = err e
first_answer (ok (some c)) later = ok (some c)
first_answer (ok none) later = later

-- `chain.ResolveCatalog`; a nil resolver is `none`.
unfoldable pub chain : List (Option Resolver) → Resolver
chain [] id = ok none
chain (none ∷ rs) id = chain rs id
chain (some r ∷ rs) id = first_answer (r id) (chain rs id)
