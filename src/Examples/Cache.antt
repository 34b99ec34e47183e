-- ===== src/Examples/Cache.antt =====
-- A cache of two schemas.
use adk_a2ui_go.Common.{String, ◌≡◌, refl, ◌≤◌, some, length, lookup, List, [], ◌∷◌, arith}
use adk_a2ui_go.Schema.Cache.{Cache, new_cache, max_cached_schemas, lookup_schema, store_schema}
use adk_a2ui_go.Schema.Cache.Laws.Valid.{Sound}
use adk_a2ui_go.Schema.Cache.Laws.Reach.{Reachable, start, after_store, Reachable-Sound}
use adk_a2ui_go.Schema.Cache.Recency.{Call, look, keep, run}
use adk_a2ui_go.Schema.Cache.Recency.Stays.{store_schema-Stays}

abbrev empty : Cache String
empty = new_cache

abbrev one : Cache String
unfolding store_schema
one = (store_schema "a" "x" empty).1

abbrev two : Cache String
unfolding store_schema
two = (store_schema "b" "y" one).1

two-Reachable : Reachable two
unfolding two one
two-Reachable = after_store "b" "y" one (after_store "a" "x" empty start)

Reachable-Sound_example : Sound two × (length two.order ≤ max_cached_schemas)
Reachable-Sound_example = Reachable-Sound two two-Reachable

abbrev others : List (Call String)
others = keep "b" "w" ∷ look "c" ∷ keep "c" "v" ∷ []

store_schema-Stays_example :
    (lookup_schema "a" (run others (store_schema "a" "z" two).1).1).0
    ≡ some (store_schema "a" "z" two).0
store_schema-Stays_example = store_schema-Stays two "a" "z" others two-Reachable (omega arith)

first_kept : (store_schema "a" "z" two).0 ≡ "x"
unfolding two one store_schema lookup
first_kept = refl
