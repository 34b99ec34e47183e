-- ===== src/Examples/Kit.antt =====
-- A capabilities document, and the catalogs of an agent.
use adk_a2ui_go.Common.{
  IsDistinct, eq-false, String, ◌≡◌, refl, ◌≢◌, inl, inr, Option, none, some, List, [], ◌∷◌, ◌++◌,
  All, lookup,
}
use adk_a2ui_go.Json.{keys, str, obj, arr, null, Fields, end, field, get, has, to_list, nil, item}
use adk_a2ui_go.Kit.Error.{Error, Result, ok, err, failure}
use adk_a2ui_go.Kit.Capabilities.{
  VersionParams, Capabilities, parse_params, parse_capabilities, with_capabilities, negotiate,
  is_legacy, read_version, has_version_like_key,
}
use adk_a2ui_go.Kit.Capabilities.Laws.{
  ListsIds, ListsCatalogs, Says, parse_params-ok_iff, with_capabilities-lookup,
}
use adk_a2ui_go.Kit.Capabilities.Negotiate.{negotiate_iff}
use adk_a2ui_go.Kit.Catalog.{Resolver, chain}
use adk_a2ui_go.Kit.Catalog.Laws.{Passes, chain_iff}

abbrev catalog : Fields
catalog = field "catalogId" (str "c1") end

abbrev version_entry : Fields
version_entry =
    field "supportedCatalogIds" (arr (item (str "c1") nil))
      (field "inlineCatalogs" (arr (item (obj catalog) nil)) end)

abbrev document : Fields
document = field "v1.0" (obj version_entry) (field "v0.9" (null) end)

abbrev params : VersionParams
params = record { supported_catalog_ids = "c1" ∷ []; inline_catalogs = catalog ∷ [] }

parse_params-ok_iff_example :
    ListsIds (get "supportedCatalogIds" version_entry) ("c1" ∷ [])
    × ListsCatalogs (get "inlineCatalogs" version_entry) (catalog ∷ [])
unfolding parse_params get to_list
parse_params-ok_iff_example = (parse_params-ok_iff version_entry params).0 refl

document-IsDistinct : IsDistinct (keys document)
unfolding keys
document-IsDistinct =
    (λ m. elim m [ inl e ↦ eq-false "v1.0" "v0.9" refl e | inr h ↦ h ], (λ h. h, tt))

with_capabilities-lookup_example : Says document "v1.0" params
unfolding with_capabilities parse_capabilities parse_params get to_list lookup is_legacy has
    has_version_like_key read_version
with_capabilities-lookup_example =
    (with_capabilities-lookup document "v1.0" params document-IsDistinct).0 refl

abbrev capabilities : Capabilities
capabilities = ("v0.9", params) ∷ []

negotiate_iff_example :
    (pre : List String) × (post : List String) × ("v1.0" ∷ "v0.9" ∷ [] ≡ pre ++ "v0.9" ∷ post)
    × (lookup "v0.9" capabilities ≡ some params)
    × All (λ w. lookup w capabilities ≡ none) pre
unfolding negotiate lookup
negotiate_iff_example = (negotiate_iff capabilities ("v1.0" ∷ "v0.9" ∷ []) "v0.9" params).0 refl

abbrev unknown : Resolver
unknown id = ok none

abbrev failing : Resolver
failing id = err (failure "no network")

abbrev refused_code : Result (Option Fields)
refused_code = err (failure "no network")

failing-nonempty : refused_code ≢ ok none
failing-nonempty h = cc

chain_iff_example :
    (pre : List (Option Resolver)) × (post : List (Option Resolver)) × (r : Resolver) × (some
          unknown
        ∷ none
        ∷ some failing
        ∷ []
      ≡ pre ++ some r ∷ post)
    × All (Passes "c1") pre
    × (r "c1" ≡ refused_code)
unfolding chain
chain_iff_example =
    (chain_iff "c1" (some unknown ∷ none ∷ some failing ∷ []) refused_code failing-nonempty).0 refl
