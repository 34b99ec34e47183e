-- ===== src/Schema/Cache/Laws/Valid.antt =====
-- The cache of compiled schemas stays sound: its map and its list agree, and it is bounded.
use adk_a2ui_go.Common.{
  ℕ, zero, suc, ◌<◌, String, ◌≡◌, ◌↔◌, inl, inr, some, List, [], ◌∷◌, eq_refl, ltb, lookup, length,
  Elem, IsDistinct, Bool-cases, String-cases, Option-cases, ap, sym, ◌∙◌,
}
use adk_a2ui_go.Schema.Cache.{
  Element, Cache, max_cached_schemas, delete_key, remove, move_to_front, back, drop_element, evict,
}
use adk_a2ui_go.Schema.Cache.Laws.{
  addresses, keys_of, keys_of-Elem, remove-Elem, remove-gone, remove-addresses_IsDistinct,
  remove-keys_IsDistinct, remove-others, remove-key, length-remove, holds-Elem, lookup-delete_key,
}

module _ {S : Type 0} where
  -- The map has exactly the elements of the list, by their keys; no two have one key, or one address.
  pub record Sound (e : Cache S) : Type 0 where
    pub distinct : IsDistinct (addresses e.order)
    pub keyed : IsDistinct (keys_of e.order)
    pub sync :
        (k : String) (x : Element S) → (lookup k e.cache ≡ some x) ↔ (Elem x e.order × (x.key ≡ k))
    pub below : (x : Element S) → Elem x e.order → x.address < e.fresh

  moved-Elem :
      (e : Cache S) (el x : Element S)
      → Sound e
      → Elem el e.order
      → Elem x e.order ↔ Elem x (el ∷ remove el.address e.order)
  moved-Elem e el x s m = (
    λ n. remove-others el x e.order s.distinct m n,
    λ n. elim n [ inl p ↦ rw p m | inr q ↦ remove-Elem el.address x e.order q ],
  )

  not_kept :
      (e : Cache S) (el : Element S)
      → Sound e
      → Elem el e.order
      → ¬ Elem el.key (keys_of (remove el.address e.order))
  not_kept e el s m n =
      let (x, q, p) = keys_of-Elem el.key (remove el.address e.order) n in
      remove-key el x e.order s.distinct s.keyed m q p

  moved-Sound :
      (e : Cache S) (el : Element S)
      → Sound e
      → Elem el e.order
      → Sound (record e { order = el ∷ remove el.address e.order })
  moved-Sound e el s m = record {
    distinct = (
      remove-gone el.address e.order s.distinct,
      remove-addresses_IsDistinct el.address e.order s.distinct,
    );
    keyed = (not_kept e el s m, remove-keys_IsDistinct el.address e.order s.keyed);
    sync = λ k x. (
      λ h. (let (n, p) = (s.sync k x).0 h in ((moved-Elem e el x s m).0 n, p)),
      λ h. (s.sync k x).1 ((moved-Elem e el x s m).1 h.0, h.1),
    );
    below = λ x n. s.below x ((moved-Elem e el x s m).1 n);
  }

  pub move_to_front-Sound :
      (e : Cache S) (el : Element S)
      → Sound e
      → Elem el e.order
      → Sound (record e { order = move_to_front el e.order })
  unfolding move_to_front
  move_to_front-Sound e el s m = rw (holds-Elem el e.order m) (moved-Sound e el s m)

  pub length-move_to_front :
      (el : Element S) (xs : List (Element S))
      → Elem el xs
      → length (move_to_front el xs) ≡ length xs
  unfolding move_to_front
  length-move_to_front el xs m = rw (holds-Elem el xs m) (length-remove el xs m)

  dropped-sync :
      (e : Cache S) (el : Element S)
      → Sound e
      → Elem el e.order
      → (k : String) (x : Element S)
      → (lookup k (delete_key el.key e.cache) ≡ some x)
        ↔ (Elem x (remove el.address e.order) × (x.key ≡ k))
  dropped-sync e el s m k x =
      rw (lookup-delete_key el.key k e.cache) (elim (String-cases el.key k) [
        | inl p ↦
            rw (p, eq_refl k)
              (
                λ h. cc,
                λ h. absurd (remove-key el x e.order s.distinct s.keyed m h.0 (h.1 ∙ sym p)),
              )
        | inr (off, n) ↦ rw off (
          λ h.
              let (q, p) = (s.sync k x).0 h in
              (
                elim (remove-others el x e.order s.distinct m q) [
                  | inl same ↦ absurd (n (ap (λ z. z.key) (sym same) ∙ p))
                  | inr r ↦ r
                ],
                p,
              ),
          λ h. (s.sync k x).1 (remove-Elem el.address x e.order h.0, h.1),
        )
      ])

  dropped-Sound :
      (e : Cache S) (el : Element S) → Sound e → Elem el e.order → Sound (drop_element e (some el))
  unfolding drop_element
  dropped-Sound e el s m = record {
    distinct = remove-addresses_IsDistinct el.address e.order s.distinct;
    keyed = remove-keys_IsDistinct el.address e.order s.keyed;
    sync = dropped-sync e el s m;
    below = λ x n. s.below x (remove-Elem el.address x e.order n);
  }

  pub back-Elem : (xs : List (Element S)) (z : Element S) → back xs ≡ some z → Elem z xs
  unfolding back
  back-Elem [] z h = cc
  back-Elem (x ∷ []) z h = inl (cc h)
  back-Elem (x ∷ (y ∷ xs)) z h = inr (back-Elem (y ∷ xs) z h)

  pub drop_back-Sound : (e : Cache S) → Sound e → Sound (drop_element e (back e.order))
  unfolding drop_element
  drop_back-Sound e s = elim (Option-cases (back e.order)) [
    | inl h ↦ rw h s
    | inr (z, h) ↦ rw h (dropped-Sound e z s (back-Elem e.order z h))
  ]

  pub evict-Sound : (f : ℕ) (e : Cache S) → Sound e → Sound (evict f e)
  unfolding evict
  evict-Sound zero e s = s
  evict-Sound (suc f) e s = elim (Bool-cases (ltb max_cached_schemas (length e.order))) [
    | inl h ↦ rw h (evict-Sound f (drop_element e (back e.order)) (drop_back-Sound e s))
    | inr h ↦ rw h s
  ]
