-- ===== src/Schema/Cache/Recency/Refines.antt =====
-- The cache of internal/schema/engine.go is the list of recency.
use adk_a2ui_go.Common.{
  suc, ◌≤◌, String, ◌≡◌, refl, ◌≢◌, Option, none, some, List, [], ◌∷◌, arith, lookup, length, ap,
  sym, ◌∙◌,
}
use mathlib.Core.Path.{subst}
use adk_a2ui_go.Schema.Cache.{
  Element, Cache, new_cache, max_cached_schemas, move_to_front, used, push_front, stored,
  lookup_schema, store_schema,
}
use adk_a2ui_go.Schema.Cache.Laws.{keys_of-Elem, holds-Elem}
use adk_a2ui_go.Schema.Cache.Laws.Valid.{Sound}
use adk_a2ui_go.Schema.Cache.Laws.Bound.{push_front-Sound}
use adk_a2ui_go.Schema.Cache.Laws.Reach.{
  Reachable, start, after_lookup, after_store, Reachable-Sound,
}
use adk_a2ui_go.Schema.Cache.Recency.{
  find, without, touched, use_key, kept, keep_key, entries, view, Call, look, keep, run, ideal_run,
}
use adk_a2ui_go.Schema.Cache.Recency.Lists.{find-Elem, find-none, entries-remove, evict-entries}

module _ {S : Type 0} where
  none-some : (x : Element S) → none ≢ some x
  none-some x h = cc

  found-find :
      (k : String) (e : Cache S) (el : Element S)
      → Sound e
      → lookup k e.cache ≡ some el
      → find k (view e) ≡ some el.schema
  unfolding view
  found-find k e el v h =
      let (m, p) = (v.sync k el).0 h in
      subst (λ j. find j (entries e.order) ≡ some el.schema) p (find-Elem el e.order v.keyed m)

  missing-find :
      (k : String) (e : Cache S) → Sound e → lookup k e.cache ≡ none → find k (view e) ≡ none
  unfolding view
  missing-find k e v h = find-none k e.order (λ m.
      (let (x, q, p) = keys_of-Elem k e.order m in none-some x (sym h ∙ (v.sync k x).1 (q, p))))

  moved-entries :
      (k : String) (e : Cache S) (el : Element S)
      → Sound e
      → lookup k e.cache ≡ some el
      → entries (move_to_front el e.order) ≡ (k, el.schema) ∷ without k (view e)
  unfolding move_to_front entries view
  moved-entries k e el v h =
      let (m, p) = (v.sync k el).0 h in
      subst (λ j. entries (move_to_front el e.order) ≡ (j, el.schema) ∷ without j (entries e.order))
        p
        (rw (holds-Elem el e.order m)
          (ap (λ r. (el.key, el.schema) ∷ r) (entries-remove el e.order v.distinct v.keyed m)))

  used-view :
      (k : String) (e : Cache S) (found : Option (Element S))
      → Sound e
      → lookup k e.cache ≡ found
      → ((used e found).0 ≡ (use_key k (view e)).0)
        × (view (used e found).1 ≡ (use_key k (view e)).1)
  unfolding used use_key touched view entries
  used-view k e none v h = rw (missing-find k e v h) (refl, refl)
  used-view k e (some el) v h = rw (found-find k e el v h) (refl, moved-entries k e el v h)

  stored-view :
      (k : String) (s : S) (e : Cache S) (found : Option (Element S))
      → Sound e
      → length e.order ≤ max_cached_schemas
      → lookup k e.cache ≡ found
      → ((stored k s e found).0 ≡ (keep_key k s (view e)).0)
        × (view (stored k s e found).1 ≡ (keep_key k s (view e)).1)
  unfolding stored push_front keep_key kept view entries
  stored-view k s e (some el) v b h = rw (found-find k e el v h) (refl, moved-entries k e el v h)
  stored-view k s e none v b h = rw (missing-find k e v h) (
    refl,
    evict-entries (suc (length e.order)) (push_front k s e) (push_front-Sound k s e v h)
        (omega arith),
  )

  pub lookup-view :
      (k : String) (e : Cache S)
      → Reachable e
      → ((lookup_schema k e).0 ≡ (use_key k (view e)).0)
        × (view (lookup_schema k e).1 ≡ (use_key k (view e)).1)
  unfolding lookup_schema
  lookup-view k e r = used-view k e (lookup k e.cache) (Reachable-Sound e r).0 refl

  pub store-view :
      (k : String) (s : S) (e : Cache S)
      → Reachable e
      → ((store_schema k s e).0 ≡ (keep_key k s (view e)).0)
        × (view (store_schema k s e).1 ≡ (keep_key k s (view e)).1)
  unfolding store_schema
  store-view k s e r =
      let (v, b) = Reachable-Sound e r in stored-view k s e (lookup k e.cache) v b refl

  run-view :
      (calls : List (Call S)) (e : Cache S)
      → Reachable e
      → ((run calls e).0 ≡ (ideal_run calls (view e)).0)
        × (view (run calls e).1 ≡ (ideal_run calls (view e)).1)
  unfolding run ideal_run
  run-view [] e r = (refl, refl)
  run-view (look k ∷ calls) e r =
      let (a, v) = lookup-view k e r in
      let (b, w) = run-view calls (lookup_schema k e).1 (after_lookup k e r) in
      rw (← a, ← v) (ap (λ l. (lookup_schema k e).0 ∷ l) b, w)
  run-view (keep k s ∷ calls) e r =
      let (a, v) = store-view k s e r in
      let (b, w) = run-view calls (store_schema k s e).1 (after_store k s e r) in
      rw (← a, ← v) (ap (λ l. some (store_schema k s e).0 ∷ l) b, w)

  -- The cache refines the list of recency: for any sequence of lookups and stores on a new cache, each
  -- call answers what the list answers, and afterwards the elements of the cache, in order, are the
  -- list: a schema that is used moves to the front, a key that is stored again keeps its first schema,
  -- and only the least recently used schema past the 64th is forgotten.
  pub run-ideal_run :
      (calls : List (Call S))
      → ((run calls new_cache).0 ≡ (ideal_run calls []).0)
        × (view (run calls new_cache).1 ≡ (ideal_run calls []).1)
  unfolding view entries
  run-ideal_run calls = run-view calls new_cache start
