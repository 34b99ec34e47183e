-- ===== src/Examples/RulesV09.antt =====
-- A batch of v0.9 messages.
use adk_a2ui_go.Common.{refl, List, [], ◌∷◌, All, lookup, str_elem}
use adk_a2ui_go.Json.{
  Value, str, arr, obj, Fields, end, field, get, obj_of, str_at, to_list, nil, item,
}
use adk_a2ui_go.Schema.Rules.{first_create_index, used_before_create}
use adk_a2ui_go.V10.Rules.{surface_rules, check_id}
use adk_a2ui_go.V10.Rules.Spec.{BatchOk}
use adk_a2ui_go.V09.Rules.{check_ids, semantic_rules_v09}
use adk_a2ui_go.V09.Rules.Laws.{NoEmptyCatalog, OfV09, semantic_rules_v09-nil_iff}

abbrev root : Value
root = obj (field "id" (str "root") (field "component" (str "Text") end))

abbrev create_message : Fields
create_message =
    field "version" (str "v0.9")
      (field "createSurface" (obj (field "surfaceId" (str "s1") end)) end)

abbrev update_message : Fields
update_message = field "version" (str "v0.9") (
    field "updateComponents"
      (obj (field "surfaceId" (str "s1") (field "components" (arr (item root nil)) end))) end)

abbrev batch : List Fields
batch = create_message ∷ update_message ∷ []

root-NoEmptyCatalog : All NoEmptyCatalog (root ∷ [])
unfolding get obj_of
root-NoEmptyCatalog = (refl, tt)

batch-OfV09 : All OfV09 batch
unfolding get obj_of to_list
batch-OfV09 = (
  record { create = refl; update = tt; call = refl },
  (record { create = tt; update = (refl, tt); call = refl }, tt),
)

semantic_rules_v09-nil_iff_example : BatchOk batch
unfolding semantic_rules_v09 check_ids first_create_index used_before_create lookup get str_at
    obj_of to_list str_elem surface_rules check_id
semantic_rules_v09-nil_iff_example = (semantic_rules_v09-nil_iff batch batch-OfV09).0 refl
