-- ===== src/Schema/Cache/Laws/Bound.antt =====
-- What a store and a lookup do to a sound cache: it stays sound, and its size stays bounded.
use adk_a2ui_go.Common.{
  ℕ, zero, suc, ◌+◌, ◌≤◌, ◌<◌, String, ◌≡◌, refl, ◌≢◌, inl, inr, true, false, Option, none, some,
  List, [], ◌∷◌, eq_refl, ltb, arith, lookup, length, Elem, Bool-cases, ltb→lt, String-cases,
  Option-cases, ap, sym, ◌∙◌,
}
use adk_a2ui_go.Schema.Cache.{
  Element, Cache, max_cached_schemas, back, used, drop_element, evict, push_front, stored,
}
use adk_a2ui_go.Schema.Cache.Laws.{addresses, keys_of-Elem, length-remove}
use adk_a2ui_go.Schema.Cache.Laws.Valid.{
  Sound, move_to_front-Sound, length-move_to_front, back-Elem, evict-Sound,
}

pub predecessor : (n : ℕ) → max_cached_schemas < n → (m : ℕ) × (n ≡ suc m)
predecessor zero h = absurd (omega arith)
predecessor (suc m) h = (m, refl)

module _ {S : Type 0} where
  none-some : (x : Element S) → none ≢ some x
  none-some x h = cc

  addresses-below :
      (n : ℕ) (xs : List (Element S))
      → ((x : Element S) → Elem x xs → x.address < n)
      → ¬ Elem n (addresses xs)
  addresses-below n [] b m = m
  addresses-below n (y ∷ ys) b (inl e) = let h = b y (inl refl) in omega arith
  addresses-below n (y ∷ ys) b (inr m) = addresses-below n ys (λ x q. b x (inr q)) m

  pub push_front-Sound :
      (key : String) (s : S) (e : Cache S)
      → Sound e
      → lookup key e.cache ≡ none
      → Sound (push_front key s e)
  unfolding push_front lookup
  push_front-Sound key s e v h = record {
    distinct = (addresses-below e.fresh e.order v.below, v.distinct);
    keyed = (
      λ m.
          (let (x, q, p) = keys_of-Elem key e.order m in
            let found = (v.sync key x).1 (q, p) in none-some x (sym h ∙ found)),
      v.keyed,
    );
    sync = λ k x. elim (String-cases key k) [
      | inl p ↦
          rw (p, eq_refl k)
            (
              λ g.
                  (let same : x ≡ record { address = e.fresh; key = k; schema = s } = cc g in
                    (inl same, ap (λ z. z.key) same)),
              λ g. elim g.0 [
                | inl q ↦ ap some (sym q)
                | inr q ↦ absurd (none-some x (sym h ∙ (v.sync key x).1 (q, g.1 ∙ sym p)))
              ],
            )
      | inr (off, n) ↦ rw off (
        λ g. (let (q, p) = (v.sync k x).0 g in (inr q, p)),
        λ g. elim g.0 [
          | inl q ↦ absurd (n (ap (λ z. z.key) (sym q) ∙ g.1))
          | inr q ↦ (v.sync k x).1 (q, g.1)
        ],
      )
    ];
    below = λ x m. elim m [
      | inl q ↦ (let a : x.address ≡ e.fresh = ap (λ z. z.address) q in omega arith)
      | inr q ↦ (let b = v.below x q in omega arith)
    ];
  }

  pub stored-Sound :
      (key : String) (s : S) (e : Cache S) (found : Option (Element S))
      → Sound e
      → lookup key e.cache ≡ found
      → Sound (stored key s e found).1
  unfolding stored push_front
  stored-Sound key s e (some el) v h = move_to_front-Sound e el v ((v.sync key el).0 h).0
  stored-Sound key s e none v h =
      evict-Sound (suc (length e.order)) (push_front key s e) (push_front-Sound key s e v h)

  pub used-Sound :
      (key : String) (e : Cache S) (found : Option (Element S))
      → Sound e
      → lookup key e.cache ≡ found
      → Sound (used e found).1
  unfolding used
  used-Sound key e none v h = v
  used-Sound key e (some el) v h = move_to_front-Sound e el v ((v.sync key el).0 h).0

  pub back_some : (xs : List (Element S)) (n : ℕ) → length xs ≡ suc n → back xs ≢ none
  unfolding back
  back_some [] n h b = omega arith
  back_some (x ∷ []) n h b = cc
  back_some (x ∷ (y ∷ xs)) n h b = back_some (y ∷ xs) (length xs) refl b

  -- A round of eviction takes one element, if there is one.
  pub length-drop_back :
      (e : Cache S) (n : ℕ)
      → length e.order ≡ suc n
      → length (drop_element e (back e.order)).order ≡ n
  unfolding drop_element
  length-drop_back e n h = elim (Option-cases (back e.order)) [
    | inl b ↦ absurd (back_some e.order n h b)
    | inr (z, b) ↦ rw b (let l = length-remove z e.order (back-Elem e.order z b) in omega arith)
  ]

  shorter :
      (e : Cache S) (f : ℕ)
      → ltb max_cached_schemas (length e.order) ≡ true
      → length e.order ≤ suc f + max_cached_schemas
      → length (drop_element e (back e.order)).order ≤ f + max_cached_schemas
  shorter e f l h =
      let (n, p) = predecessor (length e.order) (ltb→lt max_cached_schemas (length e.order) l) in
      let d = length-drop_back e n p in omega arith

  evict_bound :
      (f : ℕ) (e : Cache S)
      → length e.order ≤ f + max_cached_schemas
      → length (evict f e).order ≤ max_cached_schemas
  unfolding evict
  evict_bound zero e h = h
  evict_bound (suc f) e h = elim (Bool-cases (ltb max_cached_schemas (length e.order))) [
    | inl l ↦ rw l (evict_bound f (drop_element e (back e.order)) (shorter e f l h))
    | inr l ↦ rw l (ground arith)
  ]

  pub stored_bound :
      (key : String) (s : S) (e : Cache S) (found : Option (Element S))
      → Sound e
      → lookup key e.cache ≡ found
      → length e.order ≤ max_cached_schemas
      → length (stored key s e found).1.order ≤ max_cached_schemas
  unfolding stored push_front
  stored_bound key s e (some el) v h b =
      let l = length-move_to_front el e.order ((v.sync key el).0 h).0 in omega arith
  stored_bound key s e none v h b =
      evict_bound (suc (length e.order)) (push_front key s e) (omega arith)

  pub used_bound :
      (key : String) (e : Cache S) (found : Option (Element S))
      → Sound e
      → lookup key e.cache ≡ found
      → length e.order ≤ max_cached_schemas
      → length (used e found).1.order ≤ max_cached_schemas
  unfolding used
  used_bound key e none v h b = b
  used_bound key e (some el) v h b =
      let l = length-move_to_front el e.order ((v.sync key el).0 h).0 in omega arith

  -- The loop that evicts ends by its own test when it may run for as many rounds as there are
  -- elements, and more rounds change nothing.
  pub evict_ends :
      (f : ℕ) (e : Cache S)
      → length e.order ≤ f
      → (ltb max_cached_schemas (length (evict f e).order) ≡ false) × (evict (suc f) e ≡ evict f e)
  unfolding evict
  evict_ends zero e h =
      let l : ltb max_cached_schemas (length e.order) ≡ false = ground arith in (l, rw l refl)
  evict_ends (suc f) e h = elim (Bool-cases (ltb max_cached_schemas (length e.order))) [
    | inl l ↦
        let (n, p) = predecessor (length e.order) (ltb→lt max_cached_schemas (length e.order) l) in
        let d = length-drop_back e n p in
        rw l (evict_ends f (drop_element e (back e.order)) (omega arith))
    | inr l ↦ rw l (rw l refl, refl)
  ]
