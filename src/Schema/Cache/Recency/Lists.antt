-- ===== src/Schema/Cache/Recency/Lists.antt =====
-- The list of the cache against the list of recency: search, removal, and the eviction of the back.
use adk_a2ui_go.Common.{
  ℕ, zero, suc, ◌+◌, ◌≤◌, String, ◌≡◌, refl, ◌≢◌, ◌⊎◌, inl, inr, true, false, none, some, List, [],
  ◌∷◌, ◌==◌, eq_refl, ltb, nat_eq, arith, length, take, Elem, IsDistinct, Bool-cases, String-cases,
  Option-cases, ltb→lt, ap, sym, ◌∙◌,
}
use mathlib.Core.Path.{subst}
use adk_a2ui_go.Schema.Cache.{Element, Cache, max_cached_schemas, remove, back, drop_element, evict}
use adk_a2ui_go.Schema.Cache.Laws.{
  addresses, keys_of, Elem-keys_of, same_address, other_address, nat_eq-true, nat_eq_refl,
}
use adk_a2ui_go.Schema.Cache.Laws.Valid.{Sound, drop_back-Sound}
use adk_a2ui_go.Schema.Cache.Laws.Bound.{back_some, length-drop_back}
use adk_a2ui_go.Schema.Cache.Laws.Reach.{front_stays}
use adk_a2ui_go.Schema.Cache.Recency.{find, without, entries}

pub differs : (j k : String) → j ≢ k → (j == k) ≡ false
differs j k n = elim (String-cases j k) [ inl e ↦ absurd (n e) | inr (f, _) ↦ f ]

take_all : {A : Type 0} (n : ℕ) (xs : List A) → length xs ≤ n → take n xs ≡ xs
take_all zero [] h = refl
take_all zero (x ∷ xs) h = absurd (omega arith)
take_all (suc n) [] h = refl
take_all (suc n) (x ∷ xs) h = ap (λ l. x ∷ l) (take_all n xs (omega arith))

take-take : {A : Type 0} (m n : ℕ) (xs : List A) → m ≤ n → take m (take n xs) ≡ take m xs
take-take zero n xs h = refl
take-take (suc m) zero xs h = absurd (omega arith)
take-take (suc m) (suc n) [] h = refl
take-take (suc m) (suc n) (x ∷ xs) h = ap (λ l. x ∷ l) (take-take m n xs (omega arith))

module _ {S : Type 0} where
  pub find-Elem :
      (el : Element S) (xs : List (Element S))
      → IsDistinct (keys_of xs)
      → Elem el xs
      → find el.key (entries xs) ≡ some el.schema
  unfolding find entries
  find-Elem el [] d m = absurd m
  find-Elem el (x ∷ xs) d (inl e) = rw (← e) (rw (eq_refl el.key) refl)
  find-Elem el (x ∷ xs) d (inr m) =
      let off : x.key ≢ el.key = λ p. d.0 (rw p (Elem-keys_of el xs m)) in
      rw (differs x.key el.key off) (find-Elem el xs d.1 m)

  pub find-none :
      (k : String) (xs : List (Element S)) → ¬ Elem k (keys_of xs) → find k (entries xs) ≡ none
  unfolding find entries
  find-none k [] n = refl
  find-none k (x ∷ xs) n =
      rw (differs x.key k (λ p. n (inl (sym p)))) (find-none k xs (λ m. n (inr m)))

  pub entries-remove :
      (el : Element S) (xs : List (Element S))
      → IsDistinct (addresses xs)
      → IsDistinct (keys_of xs)
      → Elem el xs
      → entries (remove el.address xs) ≡ without el.key (entries xs)
  unfolding remove without entries
  entries-remove el [] d k m = absurd m
  entries-remove el (x ∷ xs) d k m = elim (Bool-cases (nat_eq x.address el.address)) [
    | inl h ↦
        let e = same_address el x xs d m (nat_eq-true x.address el.address h) in
        rw h (rw e (rw (eq_refl x.key) refl))
    | inr h ↦
        let later = other_address el x xs m h in
        let off : x.key ≢ el.key = λ p. k.0 (rw p (Elem-keys_of el xs later)) in
        rw h (
          rw (differs x.key el.key off)
            (ap (λ r. (x.key, x.schema) ∷ r) (entries-remove el xs d.1 k.1 later)))
  ]

  -- To remove the back is to keep all elements but the last.
  remove-back :
      (x : Element S) (xs : List (Element S)) (z : Element S)
      → IsDistinct (addresses (x ∷ xs))
      → back (x ∷ xs) ≡ some z
      → remove z.address (x ∷ xs) ≡ take (length xs) (x ∷ xs)
  unfolding remove back
  remove-back x [] z d b =
      let same : x ≡ z = cc b in
      let h : nat_eq x.address z.address ≡ true = rw same (nat_eq_refl z.address) in rw h refl
  remove-back x (y ∷ ys) z d b =
      front_stays x y ys z d b ∙ ap (λ l. x ∷ l) (remove-back y ys z d.1 b)

  entries-take : (n : ℕ) (xs : List (Element S)) → entries (take n xs) ≡ take n (entries xs)
  unfolding entries
  entries-take zero xs = refl
  entries-take (suc n) [] = refl
  entries-take (suc n) (x ∷ xs) = ap (λ l. (x.key, x.schema) ∷ l) (entries-take n xs)

  length-entries : (xs : List (Element S)) → length (entries xs) ≡ length xs
  unfolding entries
  length-entries [] = refl
  length-entries (x ∷ xs) = ap suc (length-entries xs)

  list_cases :
      (xs : List (Element S))
      → (xs ≡ []) ⊎ ((x : Element S) × (ys : List (Element S)) × (xs ≡ x ∷ ys))
  list_cases [] = inl refl
  list_cases (x ∷ ys) = inr (x, ys, refl)

  dropped-take :
      (e : Cache S) (x : Element S) (xs : List (Element S))
      → Sound e
      → e.order ≡ x ∷ xs
      → (drop_element e (back e.order)).order ≡ take (length xs) e.order
  unfolding drop_element
  dropped-take e x xs v h = elim (Option-cases (back e.order)) [
    | inl b ↦ absurd (back_some e.order (length xs) (ap length h) b)
    | inr (z, b) ↦ rw b (
        ap (remove z.address) h
        ∙ remove-back x xs z (subst (λ l. IsDistinct (addresses l)) h v.distinct)
            (sym (ap back h) ∙ b)
        ∙ ap (take (length xs)) (sym h))
  ]

  -- The loop that evicts keeps the front, up to the bound.
  pub evict-entries :
      (f : ℕ) (e : Cache S)
      → Sound e
      → length e.order ≤ f + max_cached_schemas
      → entries (evict f e).order ≡ take max_cached_schemas (entries e.order)
  unfolding evict
  evict-entries zero e v b =
      let n = length-entries e.order in
      sym (take_all max_cached_schemas (entries e.order) (omega arith))
  evict-entries (suc f) e v b = elim (Bool-cases (ltb max_cached_schemas (length e.order))) [
    | inr l ↦
        let n = length-entries e.order in
        rw l (sym (take_all max_cached_schemas (entries e.order) (ground arith)))
    | inl l ↦ elim (list_cases e.order) [
      | inl h ↦ absurd (let n = ap length h in ground arith)
      | inr (x, xs, h) ↦
          let big = ltb→lt max_cached_schemas (length e.order) l in
          let n : length e.order ≡ suc (length xs) = ap length h in
          let d = length-drop_back e (length xs) n in
          rw l (
            evict-entries f (drop_element e (back e.order)) (drop_back-Sound e v) (omega arith)
            ∙ ap (λ r. take max_cached_schemas (entries r)) (dropped-take e x xs v h)
            ∙ ap (take max_cached_schemas) (entries-take (length xs) e.order)
            ∙ take-take max_cached_schemas (length xs) (entries e.order) (omega arith))
    ]
  ]
