-- ===== src/Common/Text.antt =====
-- The texts that the program prints and compares: `%d`, `%q`, `strings.Join`,
-- `strings.TrimSpace`, `bytes.ReplaceAll` and Go's order of strings (by bytes, which for UTF-8 is
-- by code points).
mod Order
mod Replace
pub mod Separate
mod Space
pub use Order.{IsStrictOrder, str_lt-IsStrictOrder}
unfoldable pub use Order.{str_lt}
unfoldable pub use Replace.{replace_pairs}
unfoldable pub use Space.{trim_space}
use Prim.Native.Nat.{ℕ, zero, suc, ◌/◌, ◌%◌, compare, Ordering}
use Prim.Native.Char.{code}
use Prim.Native.String
use Prim.Native.String.{String, ◌++◌}
use mathlib.Core.Path.{◌≡◌, refl}
use mathlib.Core.Bool.{Bool, true, false, ◌||◌, ◌&&◌}
use mathlib.Core.List.{List, [], ◌∷◌}
use adk_a2ui_go.Common.Tests.{ltb, leb, nat_eq, if◌then◌else◌}

digit_text : ℕ → String
digit_text zero = "0"
digit_text (suc zero) = "1"
digit_text (suc (suc zero)) = "2"
digit_text (suc (suc (suc zero))) = "3"
digit_text (suc (suc (suc (suc zero)))) = "4"
digit_text (suc (suc (suc (suc (suc zero))))) = "5"
digit_text (suc (suc (suc (suc (suc (suc zero)))))) = "6"
digit_text (suc (suc (suc (suc (suc (suc (suc zero))))))) = "7"
digit_text (suc (suc (suc (suc (suc (suc (suc (suc zero)))))))) = "8"
digit_text _ = "9"

-- `%d` of a number that is not negative; a number below 10 ^ fuel is printed whole.
itoa_fuel : ℕ → ℕ → String
itoa_fuel zero n = ""
itoa_fuel (suc f) n =
    let rest = itoa_fuel f (n / 10) ++ digit_text (n % 10) in
    if ltb n 10 then digit_text n else rest

-- An index or a length is an `int`, below 2 ^ 63 and so below 10 ^ 19.
unfoldable pub itoa : ℕ → String
unfolding itoa_fuel digit_text
itoa n = itoa_fuel 20 n

hex_digit : ℕ → String
unfolding digit_text
hex_digit n =
    if ltb n 10
    then digit_text n
    else if nat_eq n 10
    then "a"
    else if nat_eq n 11
    then "b"
    else if nat_eq n 12
    then "c"
    else if nat_eq n 13
    then "d"
    else if nat_eq n 14
    then "e"
    else "f"

-- One character between the quotes of `%q`. Characters from U+0080 on are kept, as
-- `unicode.IsPrint` has it for letters, digits, marks and symbols.
quote_char : ℕ → String → String
unfolding hex_digit
quote_char c same =
    if nat_eq c b'"'
    then "\\\""
    else if nat_eq c 92
    then "\\\\"
    else if nat_eq c 7
    then "\\a"
    else if nat_eq c 8
    then "\\b"
    else if nat_eq c 12
    then "\\f"
    else if nat_eq c 10
    then "\\n"
    else if nat_eq c 13
    then "\\r"
    else if nat_eq c 9
    then "\\t"
    else if nat_eq c 11
    then "\\v"
    else if ltb c 32 || nat_eq c 127
    then "\\x" ++ (hex_digit (c / 16) ++ hex_digit (c % 16))
    else same

quote_chars : String → String
quote_chars String.[] = ""
quote_chars (String.◌∷◌ c s) = quote_char (code c) (String.◌∷◌ c String.[]) ++ quote_chars s

-- `strconv.Quote`, and `%q` of a string.
unfoldable pub quote : String → String
unfolding quote_chars quote_char
quote s = "\"" ++ (quote_chars s ++ "\"")

-- `strings.Join`
unfoldable pub join : String → List String → String
join sep [] = ""
join sep (x ∷ []) = x
join sep (x ∷ (y ∷ r)) = x ++ (sep ++ join sep (y ∷ r))

itoa_107 : itoa 107 ≡ "107"
unfolding itoa
itoa_107 = refl

quote_escapes : quote "a\"b\n" ≡ "\"a\\\"b\\n\""
unfolding quote
quote_escapes = refl
