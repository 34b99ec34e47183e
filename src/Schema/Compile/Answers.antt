-- ===== src/Schema/Compile/Answers.antt =====
-- internal/schema/engine.go: what calls of compile answer, in whatever order they come, beside what
-- building their requests anew gives.
use adk_a2ui_go.Common.{
  ℕ, String, ◌≡◌, refl, inl, inr, Option, none, some, List, [], ◌∷◌, map, Elem, ap, sym, ◌∙◌,
}
use adk_a2ui_go.Kit.Error.{Result, ok, err}
use adk_a2ui_go.Spec.{Files}
use adk_a2ui_go.Schema.Engine.{Schema}
use adk_a2ui_go.Schema.Cache.{Cache, new_cache, lookup_schema, store_schema}
use adk_a2ui_go.Schema.Cache.Laws.Reach
use adk_a2ui_go.Schema.Cache.Laws.Reach.{Reachable, start, after_store}
use adk_a2ui_go.Schema.Cache.Recency.{use_key, entries, view}
use adk_a2ui_go.Schema.Cache.Recency.Holds.{
  AllHold, find-AllHold, use_key-AllHold, keep_key-AllHold,
}
use adk_a2ui_go.Schema.Cache.Recency.Refines.{lookup-view, store-view}
use adk_a2ui_go.Schema.Compile.{
  Library, Request, build, request_key, store_built, finish_compile, compile_request, compile_all,
}

-- The requests that were made, with their keys.
abbrev pub Asked : Type 0
Asked = List (String × Request)

module _ (lib : Library) (files : Files) (major : String) where
  abbrev Builds : Request → Result Schema
  Builds = build lib files major

  -- Requests with one key build the same.
  abbrev pub Determined : Asked → Type 0
  Determined asked =
      (k : String) (r r2 : Request) → Elem (k, r) asked → Elem (k, r2) asked → Builds r ≡ Builds r2

  -- Whatever the order of the steps of concurrent calls: a lookup, or a store of what was built for a
  -- request that was made, as often as they come.
  pub data Interleaved (asked : Asked) : Cache Schema → Type 0 where
    nothing_kept : Interleaved asked new_cache
    looked :
        (k : String) (e : Cache Schema)
        → Interleaved asked e
        → Interleaved asked (lookup_schema k e).1
    stored :
        (k : String) (r : Request) (s : Schema) (e : Cache Schema)
        → Elem (k, r) asked
        → Builds r ≡ ok s
        → Interleaved asked e
        → Interleaved asked (store_schema k s e).1

  module _ (asked : Asked) where
    -- The schema of a key was built for a request with that key.
    abbrev BuiltFor : String → Schema → Type 0
    BuiltFor k s = (r : Request) × Elem (k, r) asked × (Builds r ≡ ok s)

    Interleaved-Reachable : (e : Cache Schema) → Interleaved asked e → Reachable e
    Interleaved-Reachable _ nothing_kept = start
    Interleaved-Reachable _ (looked k e i) = Reach.after_lookup k e (Interleaved-Reachable e i)
    Interleaved-Reachable _ (stored k r s e m b i) = after_store k s e (Interleaved-Reachable e i)

    Interleaved-AllHold : (e : Cache Schema) → Interleaved asked e → AllHold BuiltFor (view e)
    unfolding view entries
    Interleaved-AllHold _ nothing_kept = tt
    Interleaved-AllHold _ (looked k e i) =
        let (_, v) = lookup-view k e (Interleaved-Reachable e i) in
        rw v (use_key-AllHold BuiltFor k (view e) (Interleaved-AllHold e i))
    Interleaved-AllHold _ (stored k r s e m b i) =
        let (_, v) = store-view k s e (Interleaved-Reachable e i) in
        rw v (keep_key-AllHold BuiltFor k s (view e) (r, m, b) (Interleaved-AllHold e i)).1

    looked-up :
        (k : String) (r : Request) (e : Cache Schema) (s : Schema)
        → Determined asked
        → Elem (k, r) asked
        → Interleaved asked e
        → (lookup_schema k e).0 ≡ some s
        → Builds r ≡ ok s
    unfolding use_key
    looked-up k r e s d m i h =
        let (a, _) = lookup-view k e (Interleaved-Reachable e i) in
        let (r2, n, b) = find-AllHold BuiltFor k (view e) s (Interleaved-AllHold e i) (sym a ∙ h) in
        d k r r2 m n ∙ b

    kept_schema :
        (k : String) (r : Request) (e : Cache Schema) (s : Schema)
        → Determined asked
        → Elem (k, r) asked
        → Interleaved asked e
        → Builds r ≡ ok s
        → Builds r ≡ ok (store_schema k s e).0
    kept_schema k r e s d m i h =
        let (a, _) = store-view k s e (Interleaved-Reachable e i) in
        let ((r2, n, b), _) =
          keep_key-AllHold BuiltFor k s (view e) (r, m, h) (Interleaved-AllHold e i) in
        d k r r2 m n ∙ (b ∙ ap ok (sym a))

    stored-build :
        (k : String) (r : Request) (b : Result Schema) (e : Cache Schema)
        → Builds r ≡ b
        → Determined asked
        → Elem (k, r) asked
        → Interleaved asked e
        → ((store_built lib files major k b e).0 ≡ b)
          × Interleaved asked (store_built lib files major k b e).1
    unfolding store_built
    stored-build k r (err x) e h d m i = (refl, i)
    stored-build k r (ok s) e h d m i =
        (sym (kept_schema k r e s d m i h) ∙ h, stored k r s e m h i)

    looked-build :
        (k : String) (r : Request) (found : Option Schema) (e e2 : Cache Schema)
        → (lookup_schema k e).0 ≡ found
        → Determined asked
        → Elem (k, r) asked
        → Interleaved asked e
        → Interleaved asked e2
        → ((finish_compile lib files major k r found e2).0 ≡ Builds r)
          × Interleaved asked (finish_compile lib files major k r found e2).1
    unfolding finish_compile
    looked-build k r (some s) e e2 h d m i i2 = (sym (looked-up k r e s d m i h), i2)
    looked-build k r none e e2 h d m i i2 = stored-build k r (Builds r) e2 refl d m i2

  -- A call of `compile` returns what building its request anew gives, an error too, whatever the cache
  -- holds when it looks up and when it stores, where other calls, in any order, made both caches of
  -- lookups and of stores of what they built, and where requests with one key build the same. The
  -- cache that it leaves is again one of those.
  pub finish_compile-build :
      (asked : Asked) (k : String) (r : Request) (e e2 : Cache Schema)
      → Determined asked
      → Elem (k, r) asked
      → Interleaved asked e
      → Interleaved asked e2
      → ((finish_compile lib files major k r (lookup_schema k e).0 e2).0 ≡ Builds r)
        × Interleaved asked (finish_compile lib files major k r (lookup_schema k e).0 e2).1
  finish_compile-build asked k r e e2 d m i i2 =
      looked-build asked k r (lookup_schema k e).0 e e2 refl d m i i2

  -- The requests of a sequence with the keys that they get, from a counter.
  unfoldable pub keyed : List Request → ℕ → Asked
  keyed [] n = []
  keyed (r ∷ rs) n = let (key, next) = request_key lib files major r n in (key, r) ∷ keyed rs next

  compile_all-from :
      (asked : Asked) (rs : List Request) (n : ℕ) (e : Cache Schema)
      → Determined asked
      → ((k : String) (r : Request) → Elem (k, r) (keyed rs n) → Elem (k, r) asked)
      → Interleaved asked e
      → compile_all lib files major rs n e ≡ map Builds rs
  unfolding compile_all keyed compile_request
  compile_all-from asked [] n e d sub i = refl
  compile_all-from asked (r ∷ rs) n e d sub i =
      let (key, next) = request_key lib files major r n in
      let (a, i2) =
        finish_compile-build asked key r e (lookup_schema key e).1 d (sub key r (inl refl)) i
          (looked key e i) in
      let rest = compile_all-from asked rs next _ d (λ k r2 m. sub k r2 (inr m)) i2 in
      rw a (ap (λ l. Builds r ∷ l) rest)

  -- A sequence of calls of `Compile` and `CompileRef` on a new engine answers, call by call, what
  -- building each request anew gives, where requests of the sequence that get one key build the same.
  pub compile_all-build :
      (rs : List Request)
      → Determined (keyed rs 0)
      → compile_all lib files major rs 0 new_cache ≡ map Builds rs
  compile_all-build rs d = compile_all-from (keyed rs 0) rs 0 new_cache d (λ k r m. m) nothing_kept
