-- ===== src/Schema/Cache.antt =====
-- The cache of compiled schemas of internal/schema/engine.go: a map from keys to elements of a list,
-- whose front is the most recently used. An element is known by its address; its key and its schema
-- never change, so the map holds the element itself.
pub mod Laws
pub mod Recency
use adk_a2ui_go.Common.{
  ℕ, zero, suc, ◌+◌, String, Bool, true, false, Option, none, some, List, [], ◌∷◌, ◌==◌,
  if◌then◌else◌, ltb, nat_eq, GoMap, lookup, length,
}

-- `maxCachedSchemas`
abbrev pub max_cached_schemas : ℕ
max_cached_schemas = 64

-- `list.Element` with its `cacheEntry`.
pub record Element (S : Type 0) : Type 0 where
  pub address : ℕ
  pub key : String
  pub schema : S

-- `Engine`, without its major version; `fresh` is the address of the next element.
pub record Cache (S : Type 0) : Type 0 where
  pub cache : GoMap (Element S)
  pub order : List (Element S)
  pub fresh : ℕ

module _ {S : Type 0} where
  -- `newEngine`
  abbrev pub new_cache : Cache S
  new_cache = record { cache = []; order = []; fresh = 0 }

  -- `delete(m, k)`
  pub delete_key : String → GoMap (Element S) → GoMap (Element S)
  delete_key k [] = []
  delete_key k ((j, el) ∷ m) = let rest = delete_key k m in if j == k then rest else (j, el) ∷ rest

  -- `list.Remove`: the list without the element at an address.
  pub remove : ℕ → List (Element S) → List (Element S)
  remove a [] = []
  remove a (x ∷ xs) = let rest = remove a xs in if nat_eq x.address a then xs else x ∷ rest

  pub holds : ℕ → List (Element S) → Bool
  holds a [] = false
  holds a (x ∷ xs) = let rest = holds a xs in if nat_eq x.address a then true else rest

  -- `list.MoveToFront`, which leaves a list alone that does not hold the element.
  pub move_to_front : Element S → List (Element S) → List (Element S)
  move_to_front el xs = if holds el.address xs then el ∷ remove el.address xs else xs

  -- `list.Back`
  pub back : List (Element S) → Option (Element S)
  back [] = none
  back (x ∷ []) = some x
  back (x ∷ (y ∷ xs)) = back (y ∷ xs)

  pub used : Cache S → Option (Element S) → Option S × Cache S
  used e none = (none, e)
  used e (some el) = (some el.schema, record e { order = move_to_front el e.order })

  -- `(*Engine).lookup`
  unfoldable pub lookup_schema : String → Cache S → Option S × Cache S
  unfolding used move_to_front remove holds
  lookup_schema key e = used e (lookup key e.cache)

  pub drop_element : Cache S → Option (Element S) → Cache S
  drop_element e none = e
  drop_element e (some oldest) = record e {
    order = remove oldest.address e.order;
    cache = delete_key oldest.key e.cache;
  }

  -- The loop that evicts. Each round removes an element, so the length is fuel enough.
  pub evict : ℕ → Cache S → Cache S
  evict zero e = e
  evict (suc f) e =
      let rest = evict f (drop_element e (back e.order)) in
      if ltb max_cached_schemas (length e.order) then rest else e

  pub push_front : String → S → Cache S → Cache S
  push_front key s e =
      let el : Element S = record { address = e.fresh; key = key; schema = s } in
      record { cache = (key, el) ∷ e.cache; order = el ∷ e.order; fresh = suc e.fresh }

  pub stored : String → S → Cache S → Option (Element S) → S × Cache S
  stored key s e (some el) = (el.schema, record e { order = move_to_front el e.order })
  stored key s e none = let pushed = push_front key s e in (s, evict (length pushed.order) pushed)

  -- `(*Engine).store`
  unfoldable pub store_schema : String → S → Cache S → S × Cache S
  unfolding stored push_front evict drop_element back delete_key move_to_front remove holds
  store_schema key s e = stored key s e (lookup key e.cache)
