-- ===== src/Schema/Format/Text.antt =====
-- The functions on texts and values of internal/schema/format.go.
use Prim.Native.Char.{Char, code}
use Prim.Native.String.{◌++◌, char_at}
use adk_a2ui_go.Common.{
  ◌-◌, String, ◌≡◌, refl, Bool, true, false, ◌&&◌, ◌||◌, Option, none, some, List, [], ◌∷◌, ◌==◌,
  if◌then◌else◌, nat_eq, leb, get_elem?, map,
}
use adk_a2ui_go.Common.Text.{join}
use adk_a2ui_go.Json.{Value, obj, arr, get, to_list}
use adk_a2ui_go.Schema.Paths.{ℤ, pos, atoi}

-- The last element of a path: what was read from the right, and whether the next character to the
-- left belongs to it.
last_element : String → String × Bool
last_element String.[] = ("", true)
last_element (String.◌∷◌ c s) =
    let (word, more) = last_element s in
    if nat_eq (code c) b'/'
    then (word, word == "")
    else if more
    then (String.◌∷◌ c word, true)
    else (word, false)

-- `path.Base`
unfoldable pub path_base : String → String
unfolding last_element
path_base s =
    let word = (last_element s).0 in if s == "" then "." else if word == "" then "/" else word

longer : String → Option String → Option String
longer c none = none
longer c (some s) = some (c ++ s)

-- `strings.CutSuffix`
unfoldable pub cut_suffix : String → String → Option String
unfolding longer
cut_suffix String.[] suffix = if suffix == "" then some "" else none
cut_suffix (String.◌∷◌ c s) suffix =
    let rest = longer (String.◌∷◌ c String.[]) (cut_suffix s suffix) in
    if String.◌∷◌ c s == suffix then some "" else rest

starts_with : String → String → Bool
starts_with String.[] s = true
starts_with (String.◌∷◌ c p) String.[] = false
starts_with (String.◌∷◌ c p) (String.◌∷◌ d s) = nat_eq (code c) (code d) && starts_with p s

-- `strings.Contains`
unfoldable pub contains_text : String → String → Bool
unfolding starts_with
contains_text String.[] sub = sub == ""
contains_text (String.◌∷◌ c s) sub = starts_with sub (String.◌∷◌ c s) || contains_text s sub

-- `strings.ToLower` of an ASCII character.
lower : Char → Char
lower c =
    if leb 65 (code c) && leb (code c) 90
    then char_at "abcdefghijklmnopqrstuvwxyz" (code c - 65)
    else c

-- `lowerFirst`, of a text that is empty or begins with an ASCII character, as the names of the
-- messages do.
unfoldable pub lower_first : String → String
unfolding lower
lower_first String.[] = ""
lower_first (String.◌∷◌ c s) = String.◌∷◌ (lower c) s

-- `allFunctionRefs`
all_contain : List String → Bool
all_contain [] = true
all_contain (u ∷ us) = contains_text u "/functions/" && all_contain us

unfoldable pub all_function_refs : List String → Bool
unfolding all_contain
all_function_refs [] = false
all_function_refs (u ∷ us) = all_contain (u ∷ us)

at_index : List Value → Option ℤ → Option Value
at_index vs (some (pos i)) = get_elem? vs i
at_index vs _ = none

-- One segment of the loop of `valueAt`.
step_into : Value → String → Option Value
step_into (obj m) seg = get seg m
step_into (arr vs) seg = at_index (to_list vs) (atoi seg)
step_into v seg = none

-- `valueAt`
unfoldable pub value_at : Value → List String → Option Value
unfolding step_into at_index
value_at v [] = some v
value_at v (seg ∷ loc) = elim (step_into v seg) [ some w ↦ value_at w loc | none ↦ none ]

-- `json.Marshal` and `fmt.Sprint` of a value.
pub record Printer : Type 0 where
  pub marshal : Value → Option String
  pub sprint : Value → String

abbrev or_else : Option String → String → String
or_else (some s) t = s
or_else none t = t

-- `jsonText`
unfoldable pub json_text : Printer → Value → String
json_text out v = or_else (out.marshal v) (out.sprint v)

-- `jsonList`
unfoldable pub json_list : Printer → List Value → String
json_list out vs = join ", " (map (json_text out) vs)

path_base_example : path_base "catalog.json#/components/Text" ≡ "Text"
unfolding path_base
path_base_example = refl

cut_suffix_example :
    (cut_suffix "CreateSurfaceMessage" "Message" ≡ some "CreateSurface")
    × (lower_first "CreateSurface" ≡ "createSurface")
unfolding cut_suffix lower_first
cut_suffix_example = (refl, refl)
