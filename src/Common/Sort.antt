-- ===== src/Common/Sort.antt =====
-- `sort.SliceStable` and `sort.Strings` as an insertion sort: what a stable sort returns is fixed
-- by its input and its order, whatever the algorithm.
use Prim.Native.Nat.{suc}
use mathlib.Core.Path.{◌≡◌, refl, sym}
use mathlib.Core.Logic.{◌⊎◌, inl, inr, ◌↔◌}
use mathlib.Core.Bool.{Bool, true, false}
use mathlib.Core.List.{List, [], ◌∷◌}
use native.Mathlib.Omega.{arith}
use adk_a2ui_go.Common.Tests.{if◌then◌else◌, Bool-cases}
use adk_a2ui_go.Common.Lists.{length, Elem, IsDistinct, All, All-Elem, All-intro}
use adk_a2ui_go.Common.Text.{IsStrictOrder}

module _ {A : Type 0} (lt : A → A → Bool) where
  unfoldable pub insert : A → List A → List A
  insert x [] = x ∷ []
  insert x (y ∷ ys) = let later = y ∷ insert x ys in if lt y x then later else x ∷ (y ∷ ys)

  unfoldable pub sort : List A → List A
  unfolding insert
  sort [] = []
  sort (x ∷ xs) = insert x (sort xs)

  -- No element is less than one before it.
  abbrev pub IsSorted : List A → Type 0
  IsSorted [] = Unit
  IsSorted (x ∷ xs) = All (λ y. lt y x ≡ false) xs × IsSorted xs

  -- Ties are allowed: incomparable elements need not be equal.
  pub record IsWeakOrder : Type 0 where
    pub asym : (a b : A) → lt a b ≡ true → lt b a ≡ false
    pub neg_trans : (a b c : A) → lt a b ≡ false → lt b c ≡ false → lt a c ≡ false

  length-insert : (x : A) (ys : List A) → length (insert x ys) ≡ suc (length ys)
  unfolding insert
  length-insert x [] = refl
  length-insert x (y ∷ ys) = ground (arith, length-insert x ys)

  pub length-sort : (xs : List A) → length (sort xs) ≡ length xs
  unfolding sort
  length-sort [] = refl
  length-sort (x ∷ xs) = omega (arith, length-insert x (sort xs), length-sort xs)

  Elem-insert : (a x : A) (ys : List A) → Elem a (insert x ys) ↔ ((a ≡ x) ⊎ Elem a ys)
  unfolding insert
  Elem-insert a x [] = (λ h. h, λ h. h)
  Elem-insert a x (y ∷ ys) = elim (Bool-cases (lt y x)) [
    | inl e ↦ rw e (
      elim [
        | inl p ↦ inr (inl p)
        | inr h ↦ elim ((Elem-insert a x ys).0 h) [ inl p ↦ inl p | inr k ↦ inr (inr k) ]
      ],
      elim [
        | inl p ↦ inr ((Elem-insert a x ys).1 (inl p))
        | inr h ↦ elim h [ inl p ↦ inl p | inr k ↦ inr ((Elem-insert a x ys).1 (inr k)) ]
      ],
    )
    | inr e ↦ rw e (λ h. h, λ h. h)
  ]

  pub Elem-sort : (a : A) (xs : List A) → Elem a (sort xs) ↔ Elem a xs
  unfolding sort
  Elem-sort a [] = (λ h. h, λ h. h)
  Elem-sort a (x ∷ xs) = (
    λ h. elim ((Elem-insert a x (sort xs)).0 h) [
      | inl e ↦ inl e
      | inr k ↦ inr ((Elem-sort a xs).0 k)
    ],
    elim [
      | inl e ↦ (Elem-insert a x (sort xs)).1 (inl e)
      | inr k ↦ (Elem-insert a x (sort xs)).1 (inr ((Elem-sort a xs).1 k))
    ],
  )

  insert-IsDistinct : (x : A) (ys : List A) → ¬ Elem x ys → IsDistinct ys → IsDistinct (insert x ys)
  unfolding insert
  insert-IsDistinct x [] n d = (n, tt)
  insert-IsDistinct x (y ∷ ys) n d = elim (Bool-cases (lt y x)) [
    | inl e ↦ rw e (
      λ h. elim ((Elem-insert y x ys).0 h) [ inl p ↦ n (inl (sym p)) | inr k ↦ d.0 k ],
      insert-IsDistinct x ys (λ k. n (inr k)) d.1,
    )
    | inr e ↦ rw e (n, d)
  ]

  pub sort-IsDistinct : (xs : List A) → IsDistinct xs → IsDistinct (sort xs)
  unfolding sort
  sort-IsDistinct [] d = tt
  sort-IsDistinct (x ∷ xs) d =
      insert-IsDistinct x (sort xs) (λ h. d.0 ((Elem-sort x xs).0 h)) (sort-IsDistinct xs d.1)

  module _ (w : IsWeakOrder) where
    insert-IsSorted : (x : A) (ys : List A) → IsSorted ys → IsSorted (insert x ys)
    unfolding insert
    insert-IsSorted x [] s = (tt, tt)
    insert-IsSorted x (y ∷ ys) s = elim (Bool-cases (lt y x)) [
      | inl e ↦ rw e (
        All-intro (λ z. lt z y ≡ false) (insert x ys)
            (λ z m. elim ((Elem-insert z x ys).0 m) [
              | inl p ↦ rw p (w.asym y x e)
              | inr k ↦ All-Elem (λ z'. lt z' y ≡ false) ys z s.0 k
            ]),
        insert-IsSorted x ys s.1,
      )
      | inr e ↦ rw e (
        (
          e,
          All-intro (λ z. lt z x ≡ false) ys
              (λ z m. w.neg_trans z y x (All-Elem (λ z'. lt z' y ≡ false) ys z s.0 m) e),
        ),
        s,
      )
    ]

    pub sort-IsSorted : (xs : List A) → IsSorted (sort xs)
    unfolding sort
    sort-IsSorted [] = tt
    sort-IsSorted (x ∷ xs) = insert-IsSorted x (sort xs) (sort-IsSorted xs)

-- A strict order of keys is a weak order of what has the keys.
module _ {A K : Type 0} (key : A → K) (lt : K → K → Bool) (o : IsStrictOrder lt) where
  key_asym : (a b : A) → lt (key a) (key b) ≡ true → lt (key b) (key a) ≡ false
  key_asym a b h = elim (Bool-cases (lt (key b) (key a))) [
    | inl e ↦ cc (o.transitive (key a) (key b) (key a) h e, o.irrefl (key a))
    | inr e ↦ e
  ]

  key_neg_trans :
      (a b c : A)
      → lt (key a) (key b) ≡ false
      → lt (key b) (key c) ≡ false
      → lt (key a) (key c) ≡ false
  key_neg_trans a b c h k = elim (Bool-cases (lt (key b) (key a))) [
    | inr e ↦ cc (o.connected (key a) (key b) h e)
    | inl e ↦ elim (Bool-cases (lt (key a) (key c))) [
      | inl f ↦ cc (o.transitive (key b) (key a) (key c) e f)
      | inr f ↦ f
    ]
  ]

  pub key-IsWeakOrder : IsWeakOrder (λ a b. lt (key a) (key b))
  key-IsWeakOrder = record { asym = key_asym; neg_trans = key_neg_trans }
