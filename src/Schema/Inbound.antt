-- ===== src/Schema/Inbound.antt =====
-- internal/schema/inbound.go: the checks of a message from the renderer before the schema.
pub mod Laws
use Prim.Native.String.{◌++◌}
use adk_a2ui_go.Common.{
  String, Bool, true, false, ◌&&◌, not, List, [], ◌∷◌, ◌++◌ as append, ◌==◌, if◌then◌else◌,
  str_elem, map,
}
use adk_a2ui_go.Common.Text.{quote, join, str_lt}
use adk_a2ui_go.Common.Sort.{sort}
use adk_a2ui_go.Json.{
  Value, null, bool, num, str, arr, obj, strings, objects, other, Fields, keys, str_at,
}
use adk_a2ui_go.Kit.Problem.{Problem, problem}
use adk_a2ui_go.Kit.Capabilities.{type_name}
use adk_a2ui_go.Schema.Paths.{join_path}

-- `quoteList` of format.go
unfoldable pub quote_list : List String → String
unfolding quote join
quote_list items = join ", " (map quote items)

-- The keys of the message that are known, and those that are not, in the order of iteration.
present_keys : List String → List String → List String
present_keys allowed [] = []
present_keys allowed (k ∷ ks) =
    let rest = present_keys allowed ks in
    if k == "version" then rest else if str_elem k allowed then k ∷ rest else rest

unknown_keys : List String → List String → List String
unknown_keys allowed [] = []
unknown_keys allowed (k ∷ ks) =
    let rest = unknown_keys allowed ks in
    if k == "version" then rest else if str_elem k allowed then rest else k ∷ rest

version_problem : Fields → String → String → List Problem
version_problem m version path =
    if not (version == "") && not (str_at "version" m == version)
    then problem (join_path path "version") ("must be " ++ quote version) ∷ []
    else []

-- One key that is known, and none that is not.
exactly_one : List String → List String → Bool
exactly_one (k ∷ []) [] = true
exactly_one _ _ = false

unfoldable pub keys_message : List String → List String → String
keys_message allowed [] = "a message must contain exactly one of " ++ quote_list allowed
keys_message allowed (k ∷ ks) =
    "unknown message key "
    ++ (quote_list (k ∷ ks) ++ ("; a message must contain exactly one of " ++ quote_list allowed))

-- `InboundPrecheck`
unfoldable pub inbound_precheck : Fields → String → List String → String → List Problem
unfolding present_keys unknown_keys version_problem exactly_one keys_message
inbound_precheck m version allowed path =
    let present = present_keys allowed (keys m) in
    let unknown = unknown_keys allowed (keys m) in
    if exactly_one present unknown
    then version_problem m version path
    else append (version_problem m version path)
        (problem path (keys_message allowed (sort str_lt unknown)) ∷ [])

-- `JSONType`
unfoldable pub json_type : Value → String
json_type null = "null"
json_type (bool b) = "boolean"
json_type (num n) = "number"
json_type (str s) = "string"
json_type (arr vs) = "array"
json_type (obj m) = "object"
json_type v = type_name v
