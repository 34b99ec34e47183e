-- ===== src/Examples/Catalog.antt =====
-- An inline catalog of v1.0 without "$defs".
use adk_a2ui_go.Common.{String, ◌≡◌, ◌≢◌, some}
use adk_a2ui_go.Json.{str, obj, Fields, end, field, get, obj_of}
use adk_a2ui_go.Spec.{major_v09}
use adk_a2ui_go.Schema.Catalog.{
  merged_defs, ref_union, function_union, theme_schema, stub_component, stub_function, stub_theme,
}
use adk_a2ui_go.Schema.Catalog.Laws.{kept_or, defs_of, merged_defs_lem}

abbrev catalog : Fields
catalog =
    field "catalogId" (str "c1")
      (field "components" (obj (field "Text" (obj end) (field "Button" (obj end) end))) end)

merged_defs_lem_example :
    (get "anyComponent" (merged_defs "v1_0" catalog)
      ≡ some (
          kept_or
            (get "anyComponent" (defs_of catalog))
            (ref_union (obj_of (get "components" catalog)) "#/components/" stub_component)))
    × (get "anyFunction" (merged_defs "v1_0" catalog)
        ≡ some (
            kept_or
              (get "anyFunction" (defs_of catalog))
              (function_union (get "functions" catalog) stub_function)))
    × ("v1_0" ≡ major_v09
        → get "theme" (merged_defs "v1_0" catalog)
          ≡ some (
              kept_or
                (get "theme" (defs_of catalog))
                (theme_schema (obj_of (get "theme" catalog)) stub_theme)))
    × ("v1_0" ≢ major_v09
        → get "theme" (merged_defs "v1_0" catalog) ≡ get "theme" (defs_of catalog))
    × ((k : String)
        → k ≢ "anyComponent"
        → k ≢ "anyFunction"
        → k ≢ "theme"
        → get k (merged_defs "v1_0" catalog) ≡ get k (defs_of catalog))
merged_defs_lem_example = merged_defs_lem "v1_0" catalog
