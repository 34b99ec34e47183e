-- ===== src/Common/Text/Replace.antt =====
-- What the program uses of `strings.NewReplacer` and of `bytes.ReplaceAll`.
use Prim.Native.Nat.{ℕ, zero, suc, ◌-◌}
use Prim.Native.String.{String, ◌++◌}
use mathlib.Core.Path.{◌≡◌, refl}
use mathlib.Core.Bool.{Bool, true, false}
use mathlib.Core.Option.{Option, none, some}
use mathlib.Core.List.{List, [], ◌∷◌}
use text.Mathlib.Text.{◌==◌}
use adk_a2ui_go.Common.Tests.{if◌then◌else◌}

starts : String → String → Bool
starts String.[] s = true
starts (String.◌∷◌ p ps) String.[] = false
starts (String.◌∷◌ p ps) (String.◌∷◌ c s) =
    let rest = starts ps s in
    if String.◌∷◌ p String.[] == String.◌∷◌ c String.[] then rest else false

size : String → ℕ
size String.[] = 0
size (String.◌∷◌ c s) = suc (size s)

-- The first pair whose old text, which is not empty, starts the text.
first_match : List (String × String) → String → Option (String × String)
first_match [] s = none
first_match ((old, new) ∷ pairs) s =
    let later = first_match pairs s in if starts old s then some (old, new) else later

-- The rest of the text, past the characters of a match that was replaced.
replace_from : ℕ → List (String × String) → String → String
replace_from k pairs String.[] = ""
replace_from (suc k) pairs (String.◌∷◌ c s) = replace_from k pairs s
replace_from zero pairs (String.◌∷◌ c s) = elim (first_match pairs (String.◌∷◌ c s)) [
  | none ↦ String.◌∷◌ c (replace_from zero pairs s)
  | some found ↦ found.1 ++ replace_from (size found.0 - 1) pairs s
]

-- Each match, from the left, is replaced; at one place the pair that comes first wins.
unfoldable pub replace_pairs : List (String × String) → String → String
unfolding replace_from first_match starts size
replace_pairs pairs s = replace_from zero pairs s

replace_pairs_example : replace_pairs (("ab", "x") ∷ ("b", "y") ∷ []) "babcab" ≡ "yxcx"
unfolding replace_pairs
replace_pairs_example = refl
