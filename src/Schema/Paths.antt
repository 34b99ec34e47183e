-- ===== src/Schema/Paths.antt =====
-- The rendered paths of internal/schema/finalize.go and format.go: `strconv.Atoi`, `pathTokens`,
-- `naturalLess`, `renderPath` and `JoinPath`.
pub mod Order
use Prim.Native.Nat.{◌^◌}
use Prim.Native.Char.{code}
use Prim.Native.String
use Prim.Native.String.{◌++◌, count}
use adk_a2ui_go.Common.{
  ℕ, zero, suc, ◌+◌, ◌-◌, ◌*◌, String, ◌≡◌, refl, Bool, true, false, ◌&&◌, ◌||◌, Option, none, some,
  List, [], ◌∷◌, ◌==◌, if◌then◌else◌, ltb, leb, nat_eq,
}
use adk_a2ui_go.Common.Text.{str_lt, itoa}

-- `negsuc n` is -(n + 1).
pub data ℤ : Type 0 where
  pos : ℕ → ℤ
  negsuc : ℕ → ℤ

unfoldable pub int_lt : ℤ → ℤ → Bool
int_lt (pos a) (pos b) = ltb a b
int_lt (pos a) (negsuc b) = false
int_lt (negsuc a) (pos b) = true
int_lt (negsuc a) (negsuc b) = ltb b a

unfoldable pub int_eq : ℤ → ℤ → Bool
int_eq (pos a) (pos b) = nat_eq a b
int_eq (negsuc a) (negsuc b) = nat_eq a b
int_eq _ _ = false

-- The digits of a decimal number, at least one of them read already unless `any` is false.
digits : Bool → ℕ → String → Option ℕ
digits any n String.[] = if any then some n else none
digits any n (String.◌∷◌ c s) =
    let rest = digits true (n * 10 + (code c - 48)) s in
    if leb 48 (code c) && leb (code c) 57 then rest else none

-- An `int` has 64 bits.
in_range_pos : Option ℕ → Option ℤ
in_range_pos none = none
in_range_pos (some n) = if ltb n (2 ^ 63) then some (pos n) else none

in_range_neg : Option ℕ → Option ℤ
in_range_neg none = none
in_range_neg (some zero) = some (pos 0)
in_range_neg (some (suc n)) = if ltb n (2 ^ 63) then some (negsuc n) else none

-- `strconv.Atoi`; `none` is its error.
unfoldable pub atoi : String → Option ℤ
unfolding digits in_range_pos in_range_neg
atoi String.[] = none
atoi (String.◌∷◌ c s) =
    if nat_eq (code c) b'-'
    then in_range_neg (digits false 0 s)
    else if nat_eq (code c) b'+'
    then in_range_pos (digits false 0 s)
    else in_range_pos (digits false 0 (String.◌∷◌ c s))

-- `pathToken`: an array index, or a property name.
pub data PathToken : Type 0 where
  index : ℤ → PathToken
  name : String → PathToken

-- What stands before the first character that stops, and what begins with it.
break_at : (ℕ → Bool) → String → String × String
break_at stop String.[] = ("", "")
break_at stop (String.◌∷◌ c s) =
    let (before, rest) = break_at stop s in
    let longer : String × String = (String.◌∷◌ c before, rest) in
    if stop (code c) then ("", String.◌∷◌ c s) else longer

abbrev is_close : ℕ → Bool
is_close c = nat_eq c b']'

abbrev is_stop : ℕ → Bool
is_stop c = nat_eq c b'.' || nat_eq c b'['

-- A segment: an index where `strconv.Atoi` reads it as a number, else a name.
abbrev pub number_or_name : Option ℤ → String → PathToken
number_or_name (some n) seg = index n
number_or_name none seg = name seg

unfoldable pub seg_token : String → PathToken
seg_token seg = number_or_name (atoi seg) seg

-- The loop of `pathTokens`. Each round takes a character at least, so the length is fuel enough.
pub tokens : ℕ → String → List PathToken
tokens zero s = []
tokens (suc f) String.[] = []
tokens (suc f) (String.◌∷◌ c s) =
    let dotted = tokens f s in
    let (seg, rest) = break_at is_close s in
    let bracketed : List PathToken = elim rest [
      | String.[] ↦ name (String.◌∷◌ c s) ∷ []
      | String.◌∷◌ d r ↦ seg_token seg ∷ tokens f r
    ] in
    let (word, more) = break_at is_stop (String.◌∷◌ c s) in
    let named = name word ∷ tokens f more in
    if nat_eq (code c) b'.' then dotted else if nat_eq (code c) b'[' then bracketed else named

unfoldable pub path_tokens : String → List PathToken
unfolding tokens break_at seg_token
path_tokens p = tokens (count p) p

-- One round of the loop of `naturalLess`: the answer, or `none` where the two segments agree.
decide_token : PathToken → PathToken → Option Bool
decide_token (index m) (index n) = if int_eq m n then none else some (int_lt m n)
decide_token (index m) (name t) = some true
decide_token (name s) (index n) = some false
decide_token (name s) (name t) = if s == t then none else some (str_lt s t)

pub tokens_less : List PathToken → List PathToken → Bool
tokens_less [] [] = false
tokens_less [] (y ∷ ys) = true
tokens_less (x ∷ xs) [] = false
tokens_less (x ∷ xs) (y ∷ ys) = elim (decide_token x y) [ none ↦ tokens_less xs ys | some b ↦ b ]

unfoldable pub natural_less : String → String → Bool
unfolding tokens_less decide_token
natural_less a b = tokens_less (path_tokens a) (path_tokens b)

-- The rest of the path that `renderPath` writes behind `b`.
abbrev segment_text : Option ℤ → String → String → String
segment_text (some n) seg b = b ++ ("[" ++ (seg ++ "]"))
segment_text none seg b = if b == "" then seg else b ++ ("." ++ seg)

unfoldable pub render_path : String → List String → String
render_path b [] = b
render_path b (seg ∷ loc) = render_path (segment_text (atoi seg) seg b) loc

-- `JoinPath`
unfoldable pub join_path : String → String → String
join_path prefix segment = if prefix == "" then segment else prefix ++ ("." ++ segment)

-- `fmt.Sprintf("messages[%d]", i)` and the paths below it.
unfoldable pub message_path : ℕ → String → String
unfolding itoa
message_path i rest = "messages[" ++ (itoa i ++ ("]" ++ rest))

-- `fmt.Sprintf("%s[%d]", base, j)`
unfoldable pub element_path : String → ℕ → String
unfolding itoa
element_path base j = base ++ ("[" ++ (itoa j ++ "]"))

tokens_example :
    path_tokens "messages[10].updateComponents"
    ≡ name "messages" ∷ index (pos 10) ∷ name "updateComponents" ∷ []
unfolding path_tokens atoi
tokens_example = refl

natural_example :
    (natural_less "messages[2].x" "messages[10].x" ≡ true)
    × (natural_less "messages[10]" "messages[2]" ≡ false)
unfolding natural_less path_tokens atoi int_lt int_eq str_lt
natural_example = (refl, refl)

render_example :
    render_path "messages" ("1" ∷ "updateComponents" ∷ []) ≡ "messages[1].updateComponents"
unfolding render_path atoi
render_example = refl
