-- ===== src/Json.antt =====
-- The values of `encoding/json` and of Go's `any`, as the program reads them: maps, slices, and
-- the type assertions that it makes.
use adk_a2ui_go.Common.{
  String, ◌≡◌, refl, Bool, true, false, Option, none, some, List, [], ◌∷◌, if◌then◌else◌, ◌==◌,
}

-- A `map[string]any` lists its entries in the order of iteration, each key once. A number is its
-- literal. `strings` and `objects` are `[]string` and `[]map[string]any`, which only a caller in Go
-- can pass; `other` is a value that `encoding/json` cannot encode, such as a channel, by the name
-- that `%T` prints.
mutual
  pub data Value : Type 0 where
    null : Value
    bool : Bool → Value
    num : String → Value
    str : String → Value
    arr : Items → Value
    obj : Fields → Value
    strings : List String → Value
    objects : Objects → Value
    other : String → Value

  pub data Items : Type 0 where
    nil : Items
    item : Value → Items → Items

  pub data Fields : Type 0 where
    end : Fields
    field : String → Value → Fields → Fields

  pub data Objects : Type 0 where
    no_more : Objects
    object : Fields → Objects → Objects

unfoldable pub get : String → Fields → Option Value
get k end = none
get k (field j v fs) = if j == k then some v else get k fs

unfoldable pub to_list : Items → List Value
to_list nil = []
to_list (item v vs) = v ∷ to_list vs

unfoldable pub of_list : List Value → Items
of_list [] = nil
of_list (v ∷ vs) = item v (of_list vs)

unfoldable pub to_maps : Objects → List Fields
to_maps no_more = []
to_maps (object m ms) = m ∷ to_maps ms

unfoldable pub keys : Fields → List String
keys end = []
keys (field k v fs) = k ∷ keys fs

-- `m, ok := v.(map[string]any)`
abbrev pub as_obj : Option Value → Option Fields
as_obj (some (obj m)) = some m
as_obj _ = none

-- `a, ok := v.([]any)`
abbrev pub as_arr : Option Value → Option (List Value)
as_arr (some (arr vs)) = some (to_list vs)
as_arr _ = none

-- `s, ok := v.(string)`
abbrev pub as_str : Option Value → Option String
as_str (some (str s)) = some s
as_str _ = none

abbrev or_empty : Option String → String
or_empty (some s) = s
or_empty none = ""

abbrev or_end : Option Fields → Fields
or_end (some m) = m
or_end none = end

-- `s, _ := m[k].(string)`
unfoldable pub str_at : String → Fields → String
unfolding get
str_at k m = or_empty (as_str (get k m))

-- `o, _ := v.(map[string]any)`: the nil map, which reads as empty, where `v` is no object.
unfoldable pub obj_of : Option Value → Fields
obj_of v = or_end (as_obj v)

-- `v, present := m[k]; present && v == ""`
abbrev pub is_empty_str : Option Value → Bool
is_empty_str (some (str s)) = s == ""
is_empty_str _ = false

unfoldable pub is_present : Option Value → Bool
is_present none = false
is_present (some v) = true

-- `_, has := m[k]`
unfoldable pub has : String → Fields → Bool
unfolding get is_present
has k m = is_present (get k m)

-- `json.Marshal` and then `json.Unmarshal` into `any`: the plain tree of the value, or nothing where
-- some value inside cannot be encoded. Entries keep their order, since a map has none.
keep : String → Option Value → Option Fields → Option Fields
keep k (some v) (some fs) = some (field k v fs)
keep k (some v) none = none
keep k none _ = none

keep_item : Option Value → Option Items → Option Items
keep_item (some v) (some vs) = some (item v vs)
keep_item (some v) none = none
keep_item none _ = none

as_array : Option Items → Option Value
as_array none = none
as_array (some vs) = some (arr vs)

as_object : Option Fields → Option Value
as_object none = none
as_object (some fs) = some (obj fs)

string_items : List String → Items
string_items [] = nil
string_items (s ∷ ss) = item (str s) (string_items ss)

unfoldable mutual
  unfolding keep keep_item as_array as_object string_items

  pub json_copy : Value → Option Value
  json_copy null = some null
  json_copy (bool b) = some (bool b)
  json_copy (num n) = some (num n)
  json_copy (str s) = some (str s)
  json_copy (arr vs) = as_array (copy_items vs)
  json_copy (obj fs) = as_object (copy_fields fs)
  json_copy (strings ss) = some (arr (string_items ss))
  json_copy (objects ms) = as_array (copy_objects ms)
  json_copy (other t) = none

  pub copy_items : Items → Option Items
  copy_items nil = some nil
  copy_items (item v vs) = keep_item (json_copy v) (copy_items vs)

  pub copy_fields : Fields → Option Fields
  copy_fields end = some end
  copy_fields (field k v fs) = keep k (json_copy v) (copy_fields fs)

  pub copy_objects : Objects → Option Items
  copy_objects no_more = some nil
  copy_objects (object m ms) = keep_item (as_object (copy_fields m)) (copy_objects ms)

str_at_example : str_at "a" (field "b" null (field "a" (str "x") end)) ≡ "x"
unfolding str_at
str_at_example = refl
