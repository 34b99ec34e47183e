-- ===== src/Common/Text/Order.antt =====
-- Go's `<` on strings is a strict total order.
use Prim.Native.Nat.{Ordering}
use Prim.Native.String.compare
use Prim.Native.String.{String, [], ◌∷◌, compare}
use mathlib.Core.Path.{◌≡◌}
use mathlib.Core.Bool.{Bool, true, false}
use native.Mathlib.Omega.{arith}
use text.Mathlib.Text.{is_lt}
use text.Mathlib.TextEquality.{path_by_compare}
use text.Mathlib.TextPositions.{compare_refl}

-- What `sort` needs of a comparison, and a bit more: two values that neither precedes are equal.
pub record IsStrictOrder {ℓ} {A : Type ℓ} (lt : A → A → Bool) : Type ℓ where
  pub irrefl : (a : A) → lt a a ≡ false
  pub transitive : (a b c : A) → lt a b ≡ true → lt b c ≡ true → lt a c ≡ true
  pub connected : (a b : A) → lt a b ≡ false → lt b a ≡ false → a ≡ b

unfoldable pub str_lt : String → String → Bool
str_lt s t = is_lt (compare s t)

str_lt_trans : (s t u : String) → str_lt s t ≡ true → str_lt t u ≡ true → str_lt s u ≡ true
unfolding str_lt
str_lt_trans [] [] u h k = ground arith
str_lt_trans [] (d ∷ t) [] h k = ground (arith, compare.cons-nil d t)
str_lt_trans [] (d ∷ t) (e ∷ u) h k = ground (arith, compare.nil-cons e u)
str_lt_trans (c ∷ s) [] u h k = ground (arith, compare.cons-nil c s)
str_lt_trans (c ∷ s) (d ∷ t) [] h k = ground (arith, compare.cons-nil d t)
str_lt_trans (c ∷ s) (d ∷ t) (e ∷ u) h k = ground (
  arith,
  str_lt_trans s t u,
  compare.cons-cons c d s t,
  compare.cons-cons d e t u,
  compare.cons-cons c e s u,
)

compare-gt : (s t : String) → compare s t ≡ Ordering.gt → compare t s ≡ Ordering.lt
compare-gt [] [] h = ground arith
compare-gt [] (d ∷ t) h = ground (arith, compare.nil-cons d t)
compare-gt (c ∷ s) [] h = ground (arith, compare.nil-cons c s)
compare-gt (c ∷ s) (d ∷ t) h =
    ground (arith, compare-gt s t, compare.cons-cons c d s t, compare.cons-cons d c t s)

str_lt-connected : (s t : String) → str_lt s t ≡ false → str_lt t s ≡ false → s ≡ t
unfolding str_lt
str_lt-connected s t h k = path_by_compare s t (ground (arith, compare-gt s t))

pub str_lt-IsStrictOrder : IsStrictOrder str_lt
unfolding str_lt
str_lt-IsStrictOrder = record {
  irrefl = λ s. ground (arith, compare_refl s);
  transitive = str_lt_trans;
  connected = str_lt-connected;
}
