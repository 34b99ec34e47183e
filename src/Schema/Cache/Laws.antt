-- ===== src/Schema/Cache/Laws.antt =====
-- The list and the map of the cache of compiled schemas: removal, and the order of use.
pub mod Valid
pub mod Bound
pub mod Reach
use adk_a2ui_go.Common.{
  carried, ℕ, zero, suc, ◌+◌, ◌≤◌, String, ◌≡◌, refl, ◌↔◌, ◌≢◌, ◌⊎◌, inl, inr, Bool, true, false,
  Option, none, some, List, [], ◌∷◌, ◌==◌, eq_iff, eq_refl, if◌then◌else◌, ltb, nat_eq, arith,
  GoMap, lookup, length, Elem, IsDistinct, Bool-cases, String-cases, ap, sym, ◌∙◌,
}
use adk_a2ui_go.Schema.Cache.{Element, Cache, delete_key, remove, holds, move_to_front, back}

true-false : true ≢ false
true-false h = cc

pub nat_eq-true : (a b : ℕ) → nat_eq a b ≡ true → a ≡ b
nat_eq-true a b h = ground arith

pub nat_eq_refl : (a : ℕ) → nat_eq a a ≡ true
nat_eq_refl a = ground arith

flipped : (i j : String) → (i == j) ≡ false → (j == i) ≡ false
flipped i j h = ground (arith, eq_iff i j, eq_iff j i)

module _ {S : Type 0} where
  abbrev pub addresses : List (Element S) → List ℕ
  addresses [] = []
  addresses (x ∷ xs) = x.address ∷ addresses xs

  abbrev pub keys_of : List (Element S) → List String
  keys_of [] = []
  keys_of (x ∷ xs) = x.key ∷ keys_of xs

  pub Elem-addresses :
      (x : Element S) (xs : List (Element S)) → Elem x xs → Elem x.address (addresses xs)
  Elem-addresses x [] m = m
  Elem-addresses x (y ∷ ys) (inl e) = inl (ap (λ z. z.address) e)
  Elem-addresses x (y ∷ ys) (inr m) = inr (Elem-addresses x ys m)

  pub Elem-keys_of : (x : Element S) (xs : List (Element S)) → Elem x xs → Elem x.key (keys_of xs)
  Elem-keys_of x [] m = m
  Elem-keys_of x (y ∷ ys) (inl e) = inl (ap (λ z. z.key) e)
  Elem-keys_of x (y ∷ ys) (inr m) = inr (Elem-keys_of x ys m)

  pub keys_of-Elem :
      (k : String) (xs : List (Element S))
      → Elem k (keys_of xs)
      → (x : Element S) × Elem x xs × (x.key ≡ k)
  keys_of-Elem k [] m = absurd m
  keys_of-Elem k (y ∷ ys) (inl e) = (y, inl refl, sym e)
  keys_of-Elem k (y ∷ ys) (inr m) = let (x, n, e) = keys_of-Elem k ys m in (x, inr n, e)

  pub remove-Elem :
      (a : ℕ) (x : Element S) (xs : List (Element S)) → Elem x (remove a xs) → Elem x xs
  unfolding remove
  remove-Elem a x [] = λ m. m
  remove-Elem a x (y ∷ ys) = elim (Bool-cases (nat_eq y.address a)) [
    | inl h ↦ rw h (λ m. inr m)
    | inr h ↦ rw h (λ m. elim m [ inl e ↦ inl e | inr n ↦ inr (remove-Elem a x ys n) ])
  ]

  remove-addresses :
      (a b : ℕ) (xs : List (Element S)) → Elem b (addresses (remove a xs)) → Elem b (addresses xs)
  unfolding remove
  remove-addresses a b [] = λ m. m
  remove-addresses a b (y ∷ ys) = elim (Bool-cases (nat_eq y.address a)) [
    | inl h ↦ rw h (λ m. inr m)
    | inr h ↦ rw h (λ m. elim m [ inl e ↦ inl e | inr n ↦ inr (remove-addresses a b ys n) ])
  ]

  remove-keys :
      (a : ℕ) (k : String) (xs : List (Element S))
      → Elem k (keys_of (remove a xs))
      → Elem k (keys_of xs)
  unfolding remove
  remove-keys a k [] = λ m. m
  remove-keys a k (y ∷ ys) = elim (Bool-cases (nat_eq y.address a)) [
    | inl h ↦ rw h (λ m. inr m)
    | inr h ↦ rw h (λ m. elim m [ inl e ↦ inl e | inr n ↦ inr (remove-keys a k ys n) ])
  ]

  pub remove-addresses_IsDistinct :
      (a : ℕ) (xs : List (Element S))
      → IsDistinct (addresses xs)
      → IsDistinct (addresses (remove a xs))
  unfolding remove
  remove-addresses_IsDistinct a [] = λ d. d
  remove-addresses_IsDistinct a (y ∷ ys) = elim (Bool-cases (nat_eq y.address a)) [
    | inl h ↦ rw h (λ d. d.1)
    | inr h ↦
        rw h (λ d.
          (λ m. d.0 (remove-addresses a y.address ys m), remove-addresses_IsDistinct a ys d.1))
  ]

  pub remove-keys_IsDistinct :
      (a : ℕ) (xs : List (Element S)) → IsDistinct (keys_of xs) → IsDistinct (keys_of (remove a xs))
  unfolding remove
  remove-keys_IsDistinct a [] = λ d. d
  remove-keys_IsDistinct a (y ∷ ys) = elim (Bool-cases (nat_eq y.address a)) [
    | inl h ↦ rw h (λ d. d.1)
    | inr h ↦ rw h (λ d. (λ m. d.0 (remove-keys a y.key ys m), remove-keys_IsDistinct a ys d.1))
  ]

  pub remove-gone :
      (a : ℕ) (xs : List (Element S))
      → IsDistinct (addresses xs)
      → ¬ Elem a (addresses (remove a xs))
  unfolding remove
  remove-gone a [] = λ d m. m
  remove-gone a (y ∷ ys) = elim (Bool-cases (nat_eq y.address a)) [
    | inl h ↦ rw h (λ d m. d.0 (rw (nat_eq-true y.address a h) m))
    | inr h ↦ rw h (λ d m. elim m [
      | inl e ↦ true-false (sym (nat_eq_refl a) ∙ (ap (λ z. nat_eq z a) e ∙ h))
      | inr n ↦ remove-gone a ys d.1 n
    ])
  ]

  -- The element that is removed: the one that was looked for.
  pub same_address :
      (el y : Element S) (ys : List (Element S))
      → IsDistinct (addresses (y ∷ ys))
      → Elem el (y ∷ ys)
      → y.address ≡ el.address
      → el ≡ y
  same_address el y ys d (inl e) a = e
  same_address el y ys d (inr m) a = absurd (d.0 (rw a (Elem-addresses el ys m)))

  pub other_address :
      (el y : Element S) (ys : List (Element S))
      → Elem el (y ∷ ys)
      → nat_eq y.address el.address ≡ false
      → Elem el ys
  other_address el y ys (inl e) a =
      let k : true ≡ false =
        sym (nat_eq_refl el.address) ∙ (ap (λ z. nat_eq z.address el.address) e ∙ a) in
      absurd (true-false k)
  other_address el y ys (inr m) a = m

  pub remove-others :
      (el x : Element S) (xs : List (Element S))
      → IsDistinct (addresses xs)
      → Elem el xs
      → Elem x xs
      → (x ≡ el) ⊎ Elem x (remove el.address xs)
  unfolding remove
  remove-others el x [] d m n = absurd m
  remove-others el x (y ∷ ys) d m n = elim (Bool-cases (nat_eq y.address el.address)) [
    | inl h ↦
        let e = same_address el y ys d m (nat_eq-true y.address el.address h) in
        rw h (elim n [ inl p ↦ inl (p ∙ sym e) | inr q ↦ inr q ])
    | inr h ↦ rw h (elim n [
      | inl p ↦ inr (inl p)
      | inr q ↦ elim (remove-others el x ys d.1 (other_address el y ys m h) q) [
        | inl s ↦ inl s
        | inr t ↦ inr (inr t)
      ]
    ])
  ]

  pub remove-key :
      (el x : Element S) (xs : List (Element S))
      → IsDistinct (addresses xs)
      → IsDistinct (keys_of xs)
      → Elem el xs
      → Elem x (remove el.address xs)
      → x.key ≢ el.key
  unfolding remove
  remove-key el x [] d k m = λ n. absurd m
  remove-key el x (y ∷ ys) d k m = elim (Bool-cases (nat_eq y.address el.address)) [
    | inl h ↦
        let e = same_address el y ys d m (nat_eq-true y.address el.address h) in
        rw h (λ n p. k.0 (rw (sym (ap (λ z. z.key) e)) (rw (sym p) (Elem-keys_of x ys n))))
    | inr h ↦
        let later = other_address el y ys m h in
        rw h (λ n. elim n [
          | inl e ↦ λ p. k.0 (rw (sym (ap (λ z. z.key) e)) (rw p (Elem-keys_of el ys later)))
          | inr q ↦ remove-key el x ys d.1 k.1 later q
        ])
  ]

  pub length-remove :
      (el : Element S) (xs : List (Element S))
      → Elem el xs
      → suc (length (remove el.address xs)) ≡ length xs
  unfolding remove
  length-remove el [] m = absurd m
  length-remove el (y ∷ ys) m = elim (Bool-cases (nat_eq y.address el.address)) [
    | inl h ↦ rw h refl
    | inr h ↦ rw h (ap suc (length-remove el ys (other_address el y ys m h)))
  ]

  pub holds-Elem :
      (el : Element S) (xs : List (Element S)) → Elem el xs → holds el.address xs ≡ true
  unfolding holds
  holds-Elem el [] m = absurd m
  holds-Elem el (y ∷ ys) m = elim (Bool-cases (nat_eq y.address el.address)) [
    | inl h ↦ rw h refl
    | inr h ↦ rw h (holds-Elem el ys (other_address el y ys m h))
  ]

  pub lookup-delete_key :
      (j k : String) (m : GoMap (Element S))
      → lookup k (delete_key j m) ≡ (if j == k then none else lookup k m)
  unfolding delete_key lookup
  lookup-delete_key j k [] = elim (Bool-cases (j == k)) [ inl h ↦ rw h refl | inr h ↦ rw h refl ]
  lookup-delete_key j k ((i, el) ∷ m) = elim (Bool-cases (i == j)) [
    | inl h ↦ rw h (
        lookup-delete_key j k m
        ∙ elim (Bool-cases (j == k)) [ inl g ↦ rw g refl | inr g ↦ rw (g, carried i j k h g) refl ])
    | inr h ↦ rw h (elim (String-cases i k) [
      | inl e ↦ rw (sym e, eq_refl i) (rw (flipped i j h) refl)
      | inr (g, _) ↦ rw g (lookup-delete_key j k m)
    ])
  ]
