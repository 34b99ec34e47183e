-- ===== src/Schema/Cache/Recency/Holds.antt =====
-- What holds of every entry of the list of recency holds after every use of it.
use adk_a2ui_go.Common.{
  ℕ, String, ◌≡◌, inl, inr, some, List, [], ◌∷◌, ◌==◌, take, zero, suc, Bool-cases, Option-cases,
  eq_iff,
}
use adk_a2ui_go.Schema.Cache.{max_cached_schemas}
use adk_a2ui_go.Schema.Cache.Recency.{find, without, touched, use_key, kept, keep_key}

module _ {S : Type 0} (P : String → S → Type 0) where
  abbrev pub AllHold : List (String × S) → Type 0
  AllHold [] = Unit
  AllHold ((k, s) ∷ r) = P k s × AllHold r

  pub find-AllHold :
      (k : String) (r : List (String × S)) (s : S) → AllHold r → find k r ≡ some s → P k s
  unfolding find
  find-AllHold k [] s h = λ f. cc
  find-AllHold k ((j, t) ∷ r) s h = elim (Bool-cases (j == k)) [
    | inl e ↦ rw e (λ f. (let same : t ≡ s = cc f in rw (← (eq_iff j k).0 e) (rw (← same) h.0)))
    | inr e ↦ rw e (λ f. find-AllHold k r s h.1 f)
  ]

  without-AllHold : (k : String) (r : List (String × S)) → AllHold r → AllHold (without k r)
  unfolding without
  without-AllHold k [] h = tt
  without-AllHold k ((j, t) ∷ r) h = elim (Bool-cases (j == k)) [
    | inl e ↦ rw e h.1
    | inr e ↦ rw e (h.0, without-AllHold k r h.1)
  ]

  take-AllHold : (n : ℕ) (r : List (String × S)) → AllHold r → AllHold (take n r)
  take-AllHold zero r h = tt
  take-AllHold (suc n) [] h = tt
  take-AllHold (suc n) ((j, t) ∷ r) h = (h.0, take-AllHold n r h.1)

  pub use_key-AllHold : (k : String) (r : List (String × S)) → AllHold r → AllHold (use_key k r).1
  unfolding use_key touched
  use_key-AllHold k r h = elim (Option-cases (find k r)) [
    | inl f ↦ rw f h
    | inr (s, f) ↦ rw f (find-AllHold k r s h f, without-AllHold k r h)
  ]

  pub keep_key-AllHold :
      (k : String) (s : S) (r : List (String × S))
      → P k s
      → AllHold r
      → P k (keep_key k s r).0 × AllHold (keep_key k s r).1
  unfolding keep_key kept
  keep_key-AllHold k s r p h = elim (Option-cases (find k r)) [
    | inl f ↦ rw f (p, take-AllHold max_cached_schemas ((k, s) ∷ r) (p, h))
    | inr (t, f) ↦ let q = find-AllHold k r t h f in rw f (q, (q, without-AllHold k r h))
  ]
