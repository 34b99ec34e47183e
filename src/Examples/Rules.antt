-- ===== src/Examples/Rules.antt =====
-- A batch of v1.0 messages.
use adk_a2ui_go.Common.{String, refl, List, [], ◌∷◌, lookup, str_elem}
use adk_a2ui_go.Json.{
  Value, str, arr, obj, Fields, end, field, get, obj_of, str_at, to_list, nil, item,
}
use adk_a2ui_go.Schema.Rules.{first_create_index, used_before_create}
use adk_a2ui_go.V10.Rules.{check_list, semantic_rules}
use adk_a2ui_go.V10.Rules.Spec.{BatchOk}
use adk_a2ui_go.V10.Rules.Laws.{semantic_rules-nil_iff}

abbrev component : String → Value
component id = obj (field "id" (str id) (field "component" (str "Text") end))

abbrev create_message : Fields
create_message = field "version" (str "v1.0") (
    field "createSurface"
      (obj (
        field "surfaceId" (str "s1")
          (field "components" (arr (item (component "root") (item (component "a") nil))) end)))
      end)

abbrev update_message : Fields
update_message = field "version" (str "v1.0") (
    field "updateComponents"
      (obj (field "surfaceId" (str "s1") (field "components" (arr (item (component "b") nil)) end)))
      end)

abbrev batch : List Fields
batch = create_message ∷ update_message ∷ []

semantic_rules-nil_iff_example : BatchOk batch
unfolding semantic_rules check_list first_create_index used_before_create lookup get str_at obj_of
    to_list str_elem
semantic_rules-nil_iff_example = (semantic_rules-nil_iff batch).0 refl
