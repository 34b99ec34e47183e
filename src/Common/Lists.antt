-- ===== src/Common/Lists.antt =====
-- Lists over the native numbers, membership and distinctness by recursion, and Go's maps.
use Prim.Native.Nat.{ℕ, zero, suc, ◌+◌, min}
use Prim.Native.String.{String}
use mathlib.Core.Path.{◌≡◌, refl}
use mathlib.Core.Logic.{◌⊎◌, inl, inr, ◌↔◌}
use mathlib.Core.Bool.{Bool, true, false, ◌||◌}
use mathlib.Core.Option.{Option, none, some}
use mathlib.Core.List.{List, [], ◌∷◌, ◌++◌}
use native.Mathlib.Omega.{arith}
use text.Mathlib.Text.{◌==◌}
use text.Mathlib.TextEquality.{eq_iff}
use adk_a2ui_go.Common.Tests.{if◌then◌else◌}

module _ {ℓ} {A : Type ℓ} where
  abbrev pub length : List A → ℕ
  length [] = 0
  length (x ∷ xs) = suc (length xs)

  abbrev pub take : ℕ → List A → List A
  take zero xs = []
  take (suc n) [] = []
  take (suc n) (x ∷ xs) = x ∷ take n xs

  abbrev pub get_elem? : List A → ℕ → Option A
  get_elem? [] i = none
  get_elem? (x ∷ xs) zero = some x
  get_elem? (x ∷ xs) (suc i) = get_elem? xs i

  pub length-append : (xs ys : List A) → length (xs ++ ys) ≡ length xs + length ys
  length-append [] ys = omega arith
  length-append (x ∷ xs) ys = omega (arith, length-append xs ys)

  pub length-take : (n : ℕ) (xs : List A) → length (take n xs) ≡ min n (length xs)
  length-take zero xs = omega arith
  length-take (suc n) [] = omega arith
  length-take (suc n) (x ∷ xs) = omega (arith, length-take n xs)

module _ {A : Type 0} where
  -- Membership by recursion, which the tactics open.
  abbrev pub Elem : A → List A → Type 0
  Elem a [] = ⊥
  Elem a (x ∷ xs) = (a ≡ x) ⊎ Elem a xs

  abbrev pub IsDistinct : List A → Type 0
  IsDistinct [] = Unit
  IsDistinct (x ∷ xs) = (¬ Elem x xs) × IsDistinct xs

  pub Elem-append : (a : A) (xs ys : List A) → Elem a (xs ++ ys) ↔ (Elem a xs ⊎ Elem a ys)
  Elem-append a [] ys = (inr, elim [ inl h ↦ absurd h | inr h ↦ h ])
  Elem-append a (x ∷ xs) ys = (
    elim [
      | inl e ↦ inl (inl e)
      | inr h ↦ elim ((Elem-append a xs ys).0 h) [ inl k ↦ inl (inr k) | inr k ↦ inr k ]
    ],
    elim [
      | inl h ↦ elim h [ inl e ↦ inl e | inr k ↦ inr ((Elem-append a xs ys).1 (inl k)) ]
      | inr k ↦ inr ((Elem-append a xs ys).1 (inr k))
    ],
  )

  pub append-IsDistinct :
      (xs : List A) (x : A) → IsDistinct xs → ¬ Elem x xs → IsDistinct (xs ++ (x ∷ []))
  append-IsDistinct [] x d n = (λ m. m, tt)
  append-IsDistinct (y ∷ ys) x d n = (
    λ m. elim ((Elem-append y ys (x ∷ [])).0 m) [
      | inl k ↦ d.0 k
      | inr k ↦ elim k [ inl e ↦ n (inl (rw e refl)) | inr b ↦ b ]
    ],
    append-IsDistinct ys x d.1 (λ m. n (inr m)),
  )

  -- Two lists that are empty together.
  pub append-nil_iff : (xs ys : List A) → (xs ++ ys ≡ []) ↔ ((xs ≡ []) × (ys ≡ []))
  append-nil_iff [] ys = (λ h. (refl, h), λ h. h.1)
  append-nil_iff (x ∷ xs) ys = (λ h. cc, λ h. cc h.0)

module _ {A : Type 0} where
  abbrev pub All : (A → Type 0) → List A → Type 0
  All P [] = Unit
  All P (x ∷ xs) = P x × All P xs

module _ {A : Type 0} (P : A → Type 0) where
  pub All-Elem : (xs : List A) (a : A) → All P xs → Elem a xs → P a
  All-Elem [] a h m = elim m [ ]
  All-Elem (x ∷ xs) a h (inl e) = rw e h.0
  All-Elem (x ∷ xs) a h (inr m) = All-Elem xs a h.1 m

  pub All-intro : (xs : List A) → ((a : A) → Elem a xs → P a) → All P xs
  All-intro [] h = tt
  All-intro (x ∷ xs) h = (h x (inl refl), All-intro xs (λ a m. h a (inr m)))

-- `contains` of format.go, and the sets that the source keeps as maps into `bool`.
unfoldable pub str_elem : String → List String → Bool
str_elem k [] = false
str_elem k (x ∷ xs) = x == k || str_elem k xs

-- A Go map that the program only writes and reads by key: the last write comes first.
abbrev pub GoMap {ℓ} : Type ℓ → Type ℓ
GoMap V = List (String × V)

unfoldable pub lookup {ℓ} : {V : Type ℓ} → String → GoMap V → Option V
lookup k [] = none
lookup k ((j, v) ∷ m) = if j == k then some v else lookup k m

pub lookup-nil {ℓ} : {V : Type ℓ} (k : String) → lookup {V = V} k [] ≡ none
unfolding lookup
lookup-nil k = refl

pub str_elem_iff : (k : String) (xs : List String) → (str_elem k xs ≡ true) ↔ Elem k xs
unfolding str_elem
str_elem_iff k [] = (λ h. cc, λ h. absurd h)
str_elem_iff k (x ∷ xs) = ground (arith, eq_iff x k, str_elem_iff k xs)
