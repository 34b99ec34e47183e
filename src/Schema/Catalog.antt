-- ===== src/Schema/Catalog.antt =====
-- internal/schema/catalog.go: the unions that a catalog leaves out. A Go map that is built is a list
-- of entries with each key once.
pub mod Laws
use Prim.Native.String.{◌++◌}
use adk_a2ui_go.Common.{
  String, Bool, true, false, ◌&&◌, ◌||◌, not, Option, none, some, List, [], ◌∷◌, ◌==◌,
  if◌then◌else◌,
}
use adk_a2ui_go.Common.Text.{str_lt}
use adk_a2ui_go.Common.Sort.{sort}
use adk_a2ui_go.Json.{
  Value, str, bool, arr, obj, Items, nil, item, Fields, end, field, get, has, keys, str_at, obj_of,
  as_arr,
}
use adk_a2ui_go.Spec.{major_v09}

-- `m[k] = v`
unfoldable pub set : String → Value → Fields → Fields
set k v end = field k v end
set k v (field j w m) = let rest = set k v m in if j == k then field k v m else field j w rest

abbrev type_is : String → Fields → Fields
type_is t rest = field "type" (str t) rest

-- `stubCatalog` of engine.go, its "$defs".
abbrev pub stub_component : Value
stub_component = obj (
    type_is "object" (
      field "required" (arr (item (str "id") (item (str "component") nil))) (
        field "properties"
          (obj (
            field "id" (obj (type_is "string" end))
              (field "component" (obj (type_is "string" end)) end)))
          (field "additionalProperties" (bool true) end))))

abbrev pub stub_function : Value
stub_function = obj (
    type_is "object" (
      field "required" (arr (item (str "call") nil)) (
        field "properties" (obj (field "call" (obj (type_is "string" end)) end))
          (field "additionalProperties" (bool true) end))))

abbrev pub stub_theme : Value
stub_theme = obj (type_is "object" end)

branches : String → List String → Items
branches prefix [] = nil
branches prefix (n ∷ ns) = item (obj (field "$ref" (str (prefix ++ n)) end)) (branches prefix ns)

-- `refUnion`, of the object that its first argument is.
unfoldable pub ref_union : Fields → String → Value → Value
unfolding branches
ref_union end prefix fallback = fallback
ref_union (field k v m) prefix fallback =
    obj (field "oneOf" (arr (branches prefix (sort str_lt (keys (field k v m))))) end)

nonempty : Option (List Value) → Bool
nonempty none = false
nonempty (some []) = false
nonempty (some (v ∷ vs)) = true

-- `functionRequiresArgs`
unfoldable pub function_requires_args : Value → Bool
unfolding nonempty
function_requires_args params =
    let o = obj_of (some params) in nonempty (as_arr (get "required" o)) || has "minProperties" o

branch_args : Option Value → Fields
branch_args none = end
branch_args (some params) = field "args" params end

branch_required : Option Value → Items
branch_required none = nil
branch_required (some params) = if function_requires_args params then item (str "args") nil else nil

-- The branch of one function of a list of functions.
function_branch : String → Option Value → Value
function_branch name params = obj (
    type_is "object" (
      field "properties"
        (obj (field "call" (obj (field "const" (str name) end)) (branch_args params)))
        (field "required" (arr (item (str "call") (branch_required params))) end)))

function_branches : Items → Items
function_branches nil = nil
function_branches (item f fs) =
    let def = obj_of (some f) in
    let name = str_at "name" def in
    let rest = function_branches fs in
    if name == "" then rest else item (function_branch name (get "parameters" def)) rest

union_or : Value → Items → Value
union_or fallback nil = fallback
union_or fallback (item v vs) = obj (field "oneOf" (arr (item v vs)) end)

-- `functionUnion`
unfoldable pub function_union : Option Value → Value → Value
unfolding function_branches function_branch branch_args branch_required union_or
function_union (some (obj fns)) fallback = ref_union fns "#/functions/" fallback
function_union (some (arr fns)) fallback = union_or fallback (function_branches fns)
function_union v fallback = fallback

-- `themeSchema`, of the object that its first argument is.
unfoldable pub theme_schema : Fields → Value → Value
theme_schema end fallback = fallback
theme_schema (field k v m) fallback = obj (
    type_is "object"
      (field "properties" (obj (field k v m)) (field "additionalProperties" (bool true) end)))

-- `if _, ok := m[k]; !ok { m[k] = v }`
unfoldable pub set_missing : String → Value → Fields → Fields
set_missing k v m = if has k m then m else set k v m

with_theme : String → Fields → Fields → Fields
with_theme major catalog merged =
    if major == major_v09
    then set_missing "theme" (theme_schema (obj_of (get "theme" catalog)) stub_theme) merged
    else merged

-- The map `merged` of `withUnions`.
unfoldable pub merged_defs : String → Fields → Fields
unfolding with_theme
merged_defs major catalog = with_theme major catalog (
    set_missing "anyFunction" (function_union (get "functions" catalog) stub_function) (
      set_missing "anyComponent"
        (ref_union (obj_of (get "components" catalog)) "#/components/" stub_component)
        (obj_of (get "$defs" catalog))))

-- `withUnions`
unfoldable pub with_unions : String → Fields → Fields
with_unions major catalog = set "$defs" (obj (merged_defs major catalog)) catalog
