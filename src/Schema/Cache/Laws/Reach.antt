-- ===== src/Schema/Cache/Laws/Reach.antt =====
-- Every cache that lookups and stores reach is sound and bounded, and finds what was stored last.
use adk_a2ui_go.Common.{
  ℕ, zero, suc, ◌≤◌, String, ◌≡◌, refl, inl, inr, true, Option, none, some, List, [], ◌∷◌, ltb,
  nat_eq, arith, lookup, length, Elem, IsDistinct, Bool-cases, Option-cases, ap, sym, ◌∙◌,
}
use mathlib.Core.Path.{subst}
use adk_a2ui_go.Schema.Cache.{
  Element, Cache, new_cache, max_cached_schemas, remove, back, used, lookup_schema, drop_element,
  evict, push_front, stored, store_schema,
}
use adk_a2ui_go.Schema.Cache.Laws.{addresses, Elem-addresses, nat_eq-true}
use adk_a2ui_go.Schema.Cache.Laws.Valid.{Sound, back-Elem, evict-Sound, drop_back-Sound}
use adk_a2ui_go.Schema.Cache.Laws.Bound.{
  push_front-Sound, stored-Sound, used-Sound, back_some, stored_bound, used_bound,
}

module _ {S : Type 0} where
  -- The caches that lookups and stores, in any order, make of a new one.
  pub data Reachable : Cache S → Type 0 where
    start : Reachable new_cache
    after_lookup : (key : String) (e : Cache S) → Reachable e → Reachable (lookup_schema key e).1
    after_store :
        (key : String) (s : S) (e : Cache S) → Reachable e → Reachable (store_schema key s e).1

  new-Sound : Sound {S = S} new_cache
  unfolding lookup
  new-Sound = record {
    distinct = tt;
    keyed = tt;
    sync = λ k x. (λ h. cc, λ h. absurd h.0);
    below = λ x m. absurd m;
  }

  -- In every cache that is reached the map has exactly the elements of the list under their keys, no
  -- key twice, and there are at most 64.
  pub Reachable-Sound :
      (e : Cache S) → Reachable e → Sound e × (length e.order ≤ max_cached_schemas)
  unfolding lookup_schema store_schema
  Reachable-Sound _ start = (new-Sound, omega arith)
  Reachable-Sound _ (after_lookup key e r) =
      let (v, b) = Reachable-Sound e r in
      (used-Sound key e (lookup key e.cache) v refl, used_bound key e (lookup key e.cache) v refl b)
  Reachable-Sound _ (after_store key s e r) =
      let (v, b) = Reachable-Sound e r in
      (
        stored-Sound key s e (lookup key e.cache) v refl,
        stored_bound key s e (lookup key e.cache) v refl b,
      )

  -- The front of a list of two elements or more is not its back.
  pub front_stays :
      (x y : Element S) (xs : List (Element S)) (z : Element S)
      → IsDistinct (addresses (x ∷ (y ∷ xs)))
      → back (x ∷ (y ∷ xs)) ≡ some z
      → remove z.address (x ∷ (y ∷ xs)) ≡ x ∷ remove z.address (y ∷ xs)
  unfolding back remove
  front_stays x y xs z d b = elim (Bool-cases (nat_eq x.address z.address)) [
    | inl h ↦
        let m = Elem-addresses z (y ∷ xs) (back-Elem (y ∷ xs) z b) in
        absurd (
          d.0
            (subst (λ a. Elem a (addresses (y ∷ xs))) (sym (nat_eq-true x.address z.address h)) m))
    | inr h ↦ rw h refl
  ]

  drop-front :
      (e : Cache S) (x : Element S) (xs : List (Element S))
      → Sound e
      → e.order ≡ x ∷ xs
      → ltb max_cached_schemas (length e.order) ≡ true
      → (ys : List (Element S)) × ((drop_element e (back e.order)).order ≡ x ∷ ys)
  unfolding drop_element
  drop-front e x [] v h l = absurd (let n = ap length h in ground arith)
  drop-front e x (y ∷ xs) v h l = elim (Option-cases (back e.order)) [
    | inl b ↦ absurd (back_some e.order (suc (length xs)) (ap length h) b)
    | inr (z, b) ↦ rw b (
      remove z.address (y ∷ xs),
      ap (remove z.address) h
          ∙ front_stays x y xs z (subst (λ l. IsDistinct (addresses l)) h v.distinct)
              (sym (ap back h) ∙ b),
    )
  ]

  evict-front :
      (f : ℕ) (e : Cache S) (x : Element S) (xs : List (Element S))
      → Sound e
      → e.order ≡ x ∷ xs
      → Elem x (evict f e).order
  unfolding evict
  evict-front zero e x xs v h = rw h (inl refl)
  evict-front (suc f) e x xs v h = elim (Bool-cases (ltb max_cached_schemas (length e.order))) [
    | inl l ↦
        let (ys, g) = drop-front e x xs v h l in
        rw l (evict-front f (drop_element e (back e.order)) x ys (drop_back-Sound e v) g)
    | inr l ↦ rw l (rw h (inl refl))
  ]

  stored-found :
      (key : String) (s : S) (e : Cache S) (found : Option (Element S))
      → Sound e
      → lookup key e.cache ≡ found
      → (el : Element S) × (lookup key (stored key s e found).1.cache ≡ some el)
        × (el.schema ≡ (stored key s e found).0)
  unfolding stored push_front
  stored-found key s e (some el) v h = (el, h, refl)
  stored-found key s e none v h =
      let pushed = push_front key s e in
      let el : Element S = record { address = e.fresh; key = key; schema = s } in
      let w = push_front-Sound key s e v h in
      let m = evict-front (suc (length e.order)) pushed el e.order w refl in
      (el, ((evict-Sound (suc (length e.order)) pushed w).sync key el).1 (m, refl), refl)

  used-some :
      (e : Cache S) (o : Option (Element S)) (el : Element S)
      → o ≡ some el
      → (used e o).0 ≡ some el.schema
  unfolding used
  used-some e o el h = rw h refl

  -- In every cache that is reached, `lookup` after `store` finds what `store` returned: the schema
  -- that was stored under the key first, or else the one that is stored now, which no eviction takes.
  pub store_schema-lookup :
      (e : Cache S) (key : String) (s : S)
      → Reachable e
      → (lookup_schema key (store_schema key s e).1).0 ≡ some (store_schema key s e).0
  unfolding lookup_schema store_schema
  store_schema-lookup e key s r =
      let (v, _) = Reachable-Sound e r in
      let (el, h, p) = stored-found key s e (lookup key e.cache) v refl in
      used-some (stored key s e (lookup key e.cache)).1 _ el h ∙ ap some p
