-- ===== src/Schema/Cache/Recency/Stays.antt =====
-- internal/schema/engine.go: how long the cache keeps a schema.
use adk_a2ui_go.Common.{
  ℕ, zero, suc, ◌+◌, ◌≤◌, ◌<◌, String, ◌≡◌, refl, ◌≢◌, inl, inr, false, none, some, List, [], ◌∷◌,
  ◌==◌, eq_refl, take, length, arith, Bool-cases, String-cases, Option-cases, sym, ◌∙◌,
}
use adk_a2ui_go.Schema.Cache.{Cache, max_cached_schemas, lookup_schema, store_schema}
use adk_a2ui_go.Schema.Cache.Laws.Reach.{Reachable, after_lookup, after_store}
use adk_a2ui_go.Schema.Cache.Recency.{
  find, without, touched, use_key, kept, keep_key, view, Call, look, keep, run,
}
use adk_a2ui_go.Schema.Cache.Recency.Refines.{lookup-view, store-view}

module _ {S : Type 0} where
  none-some : (s : S) → none ≢ some s
  none-some s h = cc

  -- A key is found among the first entries.
  abbrev Within : String → S → ℕ → List (String × S) → Type 0
  Within k s n r = find k (take n r) ≡ some s

  Within-suc :
      (k : String) (s : S) (n : ℕ) (r : List (String × S)) → Within k s n r → Within k s (suc n) r
  unfolding find
  Within-suc k s zero r = λ h. cc
  Within-suc k s (suc n) [] = λ h. h
  Within-suc k s (suc n) ((j, t) ∷ r) = elim (Bool-cases (j == k)) [
    | inl e ↦ rw e (λ h. h)
    | inr e ↦ rw e (λ h. Within-suc k s n r h)
  ]

  Within-find :
      (k : String) (s : S) (n : ℕ) (r : List (String × S)) → Within k s n r → find k r ≡ some s
  unfolding find
  Within-find k s zero r = λ h. cc
  Within-find k s (suc n) [] = λ h. h
  Within-find k s (suc n) ((j, t) ∷ r) = elim (Bool-cases (j == k)) [
    | inl e ↦ rw e (λ h. h)
    | inr e ↦ rw e (λ h. Within-find k s n r h)
  ]

  Within-take :
      (k : String) (s : S) (m n : ℕ) (r : List (String × S))
      → n ≤ m
      → Within k s n r
      → Within k s n (take m r)
  unfolding find
  Within-take k s m zero r b = λ h. cc
  Within-take k s zero (suc n) r b = absurd (omega arith)
  Within-take k s (suc m) (suc n) [] b = λ h. h
  Within-take k s (suc m) (suc n) ((j, t) ∷ r) b = elim (Bool-cases (j == k)) [
    | inl e ↦ rw e (λ h. h)
    | inr e ↦ rw e (λ h. Within-take k s m n r (omega arith) h)
  ]

  -- Another key is taken out.
  Within-without :
      (j k : String) (s : S) (n : ℕ) (r : List (String × S))
      → (j == k) ≡ false
      → Within k s n r
      → Within k s n (without j r)
  unfolding find without
  Within-without j k s zero r off = λ h. cc
  Within-without j k s (suc n) [] off = λ h. h
  Within-without j k s (suc n) ((i, t) ∷ r) off = elim (String-cases i j) [
    | inl e ↦ rw (e, eq_refl j) (rw off (λ h. Within-suc k s n r h))
    | inr (ne, _) ↦ rw ne (elim (Bool-cases (i == k)) [
      | inl e ↦ rw e (λ h. h)
      | inr e ↦ rw e (λ h. Within-without j k s n r off h)
    ])
  ]

  use_key-Within :
      (j k : String) (s : S) (n : ℕ) (r : List (String × S))
      → Within k s n r
      → Within k s (suc n) (use_key j r).1
  unfolding use_key touched find
  use_key-Within j k s n r h = elim (Option-cases (find j r)) [
    | inl f ↦ rw f (Within-suc k s n r h)
    | inr (t, f) ↦ elim (String-cases j k) [
      | inl e ↦
          let g : find j r ≡ some s = rw e (Within-find k s n r h) in
          rw f (rw (e, eq_refl k) (sym f ∙ g))
      | inr (ne, _) ↦ rw f (rw ne (Within-without j k s n r ne h))
    ]
  ]

  keep_key-Within :
      (j k : String) (t s : S) (n : ℕ) (r : List (String × S))
      → n < max_cached_schemas
      → Within k s n r
      → Within k s (suc n) (keep_key j t r).1
  unfolding keep_key kept find
  keep_key-Within j k t s n r b h = elim (Option-cases (find j r)) [
    | inl f ↦ elim (String-cases j k) [
      | inl e ↦
          let g : find j r ≡ some s = rw e (Within-find k s n r h) in
          absurd (none-some s (sym f ∙ g))
      | inr (ne, _) ↦
          rw f (Within-take k s max_cached_schemas (suc n) ((j, t) ∷ r) (omega arith) (rw ne h))
    ]
    | inr (u, f) ↦ elim (String-cases j k) [
      | inl e ↦
          let g : find j r ≡ some s = rw e (Within-find k s n r h) in
          rw f (rw (e, eq_refl k) (sym f ∙ g))
      | inr (ne, _) ↦ rw f (rw ne (Within-without j k s n r ne h))
    ]
  ]

  kept-Within :
      (k : String) (s : S) (r : List (String × S))
      → Within k (keep_key k s r).0 1 (keep_key k s r).1
  unfolding keep_key kept find
  kept-Within k s r = elim (Option-cases (find k r)) [
    | inl f ↦ rw f (rw (eq_refl k) refl)
    | inr (t, f) ↦ rw f (rw (eq_refl k) refl)
  ]

  run-Within :
      (k : String) (s : S) (calls : List (Call S)) (n : ℕ) (e : Cache S)
      → Reachable e
      → n + length calls ≤ max_cached_schemas
      → Within k s n (view e)
      → Reachable (run calls e).1 × Within k s (n + length calls) (view (run calls e).1)
  unfolding run
  run-Within k s [] n e r b h = let z : n + 0 ≡ n = omega arith in (r, rw z h)
  run-Within k s (look j ∷ calls) n e r b h =
      let (_, v) = lookup-view j e r in
      let w : Within k s (suc n) (view (lookup_schema j e).1) =
        rw v (use_key-Within j k s n (view e) h) in
      let z : n + suc (length calls) ≡ suc n + length calls = omega arith in
      rw z (run-Within k s calls (suc n) _ (after_lookup j e r) (omega arith) w)
  run-Within k s (keep j t ∷ calls) n e r b h =
      let (_, v) = store-view j t e r in
      let w : Within k s (suc n) (view (store_schema j t e).1) =
        rw v (keep_key-Within j k t s n (view e) (omega arith) h) in
      let z : n + suc (length calls) ≡ suc n + length calls = omega arith in
      rw z (run-Within k s calls (suc n) _ (after_store j t e r) (omega arith) w)

  -- In every cache that is reached, what `store` returned for a key is what `lookup` finds for it after
  -- at most 63 more lookups and stores of any keys.
  pub store_schema-Stays :
      (e : Cache S) (k : String) (s : S) (calls : List (Call S))
      → Reachable e
      → length calls < max_cached_schemas
      → (lookup_schema k (run calls (store_schema k s e).1).1).0 ≡ some (store_schema k s e).0
  unfolding use_key
  store_schema-Stays e k s calls r b =
      let (a, v) = store-view k s e r in
      let first : Within k (store_schema k s e).0 1 (view (store_schema k s e).1) =
        rw (a, v) (kept-Within k s (view e)) in
      let (r2, w) = run-Within k _ calls 1 _ (after_store k s e r) (omega arith) first in
      let (c, _) = lookup-view k (run calls (store_schema k s e).1).1 r2 in
      c ∙ Within-find k _ (1 + length calls) _ w
