-- ===== src/Schema/Cache/Recency.antt =====
-- What the cache of internal/schema/engine.go promises: a list of keys with their schemas, the most
-- recently used first, which holds the 64 that were used last.
pub mod Lists
pub mod Holds
pub mod Refines
pub mod Stays
use adk_a2ui_go.Common.{
  ℕ, String, Bool, true, false, Option, none, some, List, [], ◌∷◌, ◌==◌, if◌then◌else◌, take,
}
use adk_a2ui_go.Schema.Cache.{max_cached_schemas, Element, Cache, lookup_schema, store_schema}

module _ {S : Type 0} where
  unfoldable pub find : String → List (String × S) → Option S
  find k [] = none
  find k ((j, s) ∷ r) = if j == k then some s else find k r

  unfoldable pub without : String → List (String × S) → List (String × S)
  without k [] = []
  without k ((j, s) ∷ r) = let rest = without k r in if j == k then r else (j, s) ∷ rest

  -- A schema that is used moves to the front.
  pub touched : String → Option S → List (String × S) → List (String × S)
  touched k none r = r
  touched k (some s) r = (k, s) ∷ without k r

  unfoldable pub use_key : String → List (String × S) → Option S × List (String × S)
  unfolding touched
  use_key k r = (find k r, touched k (find k r) r)

  -- A new schema goes to the front, and what is past the bound is forgotten.
  pub kept : String → S → Option S → List (String × S) → S × List (String × S)
  kept k s (some t) r = (t, (k, t) ∷ without k r)
  kept k s none r = (s, take max_cached_schemas ((k, s) ∷ r))

  unfoldable pub keep_key : String → S → List (String × S) → S × List (String × S)
  unfolding kept
  keep_key k s r = kept k s (find k r) r

  -- What a list of elements means.
  unfoldable pub entries : List (Element S) → List (String × S)
  entries [] = []
  entries (x ∷ xs) = (x.key, x.schema) ∷ entries xs

  unfoldable pub view : Cache S → List (String × S)
  unfolding entries
  view e = entries e.order

-- A call of `lookup` or `store`.
pub data Call (S : Type 0) : Type 0 where
  look : String → Call S
  keep : String → S → Call S

module _ {S : Type 0} where
  -- The answers of a sequence of calls, and the cache after it.
  unfoldable pub run : List (Call S) → Cache S → List (Option S) × Cache S
  run [] e = ([], e)
  run (look k ∷ calls) e =
      let (answer, e2) = lookup_schema k e in
      let (answers, e3) = run calls e2 in (answer ∷ answers, e3)
  run (keep k s ∷ calls) e =
      let (answer, e2) = store_schema k s e in
      let (answers, e3) = run calls e2 in (some answer ∷ answers, e3)

  -- The same of the list of recency.
  unfoldable pub ideal_run : List (Call S) → List (String × S) → List (Option S) × List (String × S)
  ideal_run [] r = ([], r)
  ideal_run (look k ∷ calls) r =
      let (answer, r2) = use_key k r in
      let (answers, r3) = ideal_run calls r2 in (answer ∷ answers, r3)
  ideal_run (keep k s ∷ calls) r =
      let (answer, r2) = keep_key k s r in
      let (answers, r3) = ideal_run calls r2 in (some answer ∷ answers, r3)
