-- ===== src/Schema/Format/Plan.antt =====
-- What `walk` of internal/schema/format.go decides at one error of the validator: lines to report, one
-- cause to go into, or all of them.
pub mod Said
use Prim.Native.String.{◌++◌}
use adk_a2ui_go.Common.{
  ◌≡◌, refl, ◌⊎◌, inl, inr, ℕ, suc, String, Bool, false, ◌&&◌, ◌||◌, not, Option, none, some, List,
  [], ◌∷◌, ◌==◌, if◌then◌else◌, map, str_elem,
}
use adk_a2ui_go.Common.Text.{quote, join, str_lt}
use adk_a2ui_go.Common.Sort.{sort}
use adk_a2ui_go.Json.{Value, Fields, as_obj, str_at, has, keys}
use adk_a2ui_go.Schema.Inbound.{quote_list, keys_message}
use adk_a2ui_go.Schema.Format.Text.{
  path_base, cut_suffix, lower_first, all_function_refs, value_at, Printer, json_text, json_list,
}

-- The kinds of the library's package kind that `walk` tells apart.
pub data Kind : Type 0 where
  one_of : Kind
  required : List String → Kind
  false_schema : Kind
  additional_properties : List String → Kind
  const_value : Value → Kind
  enum_values : List Value → Kind
  type_mismatch : List String → String → Kind
  not_allowed : Kind
  reference : String → Kind
  other_kind : Kind

-- `jsonschema.ValidationError`: its kind, its location in the instance, the text of its kind, and
-- its causes.
mutual
  pub data Violation : Type 0 where
    violation : Kind → List String → String → Violations → Violation

  pub data Violations : Type 0 where
    nothing : Violations
    also : Violation → Violations → Violations

-- What the validator returns: an error of the library, with the first line of its text, or another.
pub data Refusal : Type 0 where
  invalid : Violation → String → Refusal
  other_error : String → Refusal

-- A line that `add` is given: where, and what.
abbrev pub Line : Type 0
Line = List String × String

-- What one round of `walk` does: add lines and stop, or go into one cause, or into all.
pub data Round : Type 0 where
  stop : List Line → Round
  enter : ℕ → Round
  enter_all : Round

-- What is done at each kind of round.
abbrev pub by_round {ℓ} : {A : Type ℓ} → (List Line → A) → (ℕ → A) → A → Round → A
by_round s e a (stop ls) = s ls
by_round s e a (enter i) = e i
by_round s e a enter_all = a

pub Round-cases :
    (r : Round) → ((ls : List Line) × (r ≡ stop ls)) ⊎ ((i : ℕ) × (r ≡ enter i)) ⊎ (r ≡ enter_all)
Round-cases (stop ls) = inl (ls, refl)
Round-cases (enter i) = inr (inl (i, refl))
Round-cases enter_all = inr (inr refl)

-- The URLs of the causes, if each is a reference.
consed : String → Option (List String) → Option (List String)
consed u none = none
consed u (some us) = some (u ∷ us)

ref_urls : Violations → Option (List String)
ref_urls nothing = some []
ref_urls (also (violation (reference url) loc text causes) rest) = consed url (ref_urls rest)
ref_urls (also v rest) = none

given : String → Bool
given s = not (s == "")

is_message_of : Fields → Option String → Bool
is_message_of inst none = false
is_message_of inst (some key) = has (lower_first key) inst

-- The tests of the first loop of `walkOneOf`.
is_branch : Fields → String → Bool
is_branch inst name =
    let comp = str_at "component" inst in
    let call = str_at "call" inst in
    (given comp && name == comp)
    || ((given call && (name == call || (call == "@index" && name == "IndexSystemFunction")))
        || is_message_of inst (cut_suffix name "Message"))

-- The test of the second loop.
is_call_branch : String → String → Bool
is_call_branch call name =
    name == "FunctionCall" || (name == "anyFunction" && not (call == "@index"))

first_index : (String → Bool) → ℕ → List String → Option ℕ
first_index test i [] = none
first_index test i (x ∷ xs) =
    let rest = first_index test (suc i) xs in if test x then some i else rest

enter_or : Option ℕ → Round → Round
enter_or (some i) later = enter i
enter_or none later = later

message_keys : List String → List String
message_keys [] = []
message_keys (n ∷ ns) = elim (cut_suffix n "Message") [
  | some key ↦ lower_first key ∷ message_keys ns
  | none ↦ lower_first n ∷ message_keys ns
]

unknown_message_keys : List String → List String → List String
unknown_message_keys known [] = []
unknown_message_keys known (k ∷ ks) =
    let rest = unknown_message_keys known ks in
    if not (k == "version") && not (str_elem k known) then k ∷ rest else rest

message_lines : List String → Fields → List String → Option String → Round
message_lines loc inst names none = enter_all
message_lines loc inst names (some _) =
    let known = message_keys names in
    stop ((loc, keys_message known (sort str_lt (unknown_message_keys known (keys inst)))) ∷ [])

unknown_name : String → String → List String → String
unknown_name what name names =
    "unknown "
    ++ (what
        ++ (" " ++ (quote name ++ (" (catalog " ++ (what ++ ("s: " ++ (join ", " names ++ ")")))))))

first_suffix : List String → Option String
first_suffix [] = none
first_suffix (n ∷ ns) = cut_suffix n "Message"

-- `walkOneOf` past its loops: the message, or no strategy.
report_branches : List String → Fields → List String → List String → Round
report_branches loc inst urls names =
    let comp = str_at "component" inst in
    let call = str_at "call" inst in
    if given comp
    then stop ((loc, unknown_name "component" comp names) ∷ [])
    else if given call && all_function_refs urls
    then stop ((loc, unknown_name "function" call names) ∷ [])
    else message_lines loc inst names (first_suffix names)

choose_branch : List String → Fields → List String → Round
choose_branch loc inst urls =
    let names = map path_base urls in
    let call = str_at "call" inst in
    enter_or (first_index (is_branch inst) 0 names) (
      enter_or (if given call then first_index (is_call_branch call) 0 names else none)
        (report_branches loc inst urls (sort str_lt names)))

-- `walkOneOf`; `enter_all` is its false.
one_of_plan : List String → Option Fields → Option (List String) → Round
one_of_plan loc none urls = enter_all
one_of_plan loc (some inst) none = enter_all
one_of_plan loc (some inst) (some []) = enter_all
one_of_plan loc (some inst) (some (u ∷ us)) = choose_branch loc inst (u ∷ us)

pub walk_one_of : Value → List String → Violations → Round
unfolding one_of_plan choose_branch
walk_one_of instance_value loc causes =
    one_of_plan loc (as_obj (value_at instance_value loc)) (ref_urls causes)

missing_lines : List String → List String → List Line
missing_lines loc [] = []
missing_lines loc (m ∷ ms) = (loc, "missing property " ++ quote m) ∷ missing_lines loc ms

-- A location without its last segment, and that segment.
split_last : List String → Option (List String × String)
split_last [] = none
split_last (s ∷ []) = some ([], s)
split_last (s ∷ (t ∷ loc)) = elim (split_last (t ∷ loc)) [
  | some (front, last) ↦ some (s ∷ front, last)
  | none ↦ none
]

unknown_property : Option (List String × String) → Round
unknown_property none = enter_all
unknown_property (some (front, last)) = stop ((front, "unknown property " ++ quote last) ∷ [])

forbidden : Printer → Option Value → String
forbidden out (some v) = "must not be " ++ json_text out v
forbidden out none = "is not allowed"

-- The switch of `walk`.
unfoldable pub kind_plan : Printer → Value → Kind → List String → Violations → Round
unfolding missing_lines unknown_property split_last forbidden
kind_plan out inst one_of loc causes = walk_one_of inst loc causes
kind_plan out inst (required missing) loc causes = stop (missing_lines loc missing)
kind_plan out inst false_schema loc causes = unknown_property (split_last loc)
kind_plan out inst (additional_properties props) loc causes =
    stop ((loc, "unknown properties " ++ quote_list (sort str_lt props)) ∷ [])
kind_plan out inst (const_value want) loc causes =
    stop ((loc, "must be " ++ json_text out want) ∷ [])
kind_plan out inst (enum_values want) loc causes =
    stop ((loc, "must be one of " ++ json_list out want) ∷ [])
kind_plan out inst (type_mismatch want got) loc causes =
    stop ((loc, "must be of type " ++ (join " or " want ++ (", got " ++ got))) ∷ [])
kind_plan out inst not_allowed loc causes = stop ((loc, forbidden out (value_at inst loc)) ∷ [])
kind_plan out inst (reference url) loc causes = enter_all
kind_plan out inst other_kind loc causes = enter_all
