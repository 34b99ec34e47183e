-- ===== src/Examples/Compile.antt =====
-- A sequence of calls on the cache, and compilation with a library that compiles everything.
use adk_a2ui_go.Common.{
  String, ◌≡◌, refl, inl, inr, false, none, List, [], ◌∷◌, map, Elem, length, ltb, lookup, ap, sym,
  ◌∙◌, arith,
}
use adk_a2ui_go.Json.{null, Fields}
use adk_a2ui_go.Kit.Error.{ok}
use adk_a2ui_go.Spec.{Files}
use adk_a2ui_go.Schema.Engine.{Schema}
use adk_a2ui_go.Schema.Cache.{
  Cache, new_cache, max_cached_schemas, lookup_schema, store_schema, evict,
}
use adk_a2ui_go.Schema.Cache.Laws.Bound.{evict_ends}
use adk_a2ui_go.Schema.Cache.Recency.{Call, look, keep, run, ideal_run, view}
use adk_a2ui_go.Schema.Cache.Recency.Refines.{run-ideal_run}
use adk_a2ui_go.Schema.Compile.{
  Library, Request, entry, build, finish_compile, compile_all, request_key, catalog_key,
}
use adk_a2ui_go.Common.{All, All-Elem, some, ◌⊎◌}
use adk_a2ui_go.Json.{str, field}
use adk_a2ui_go.Schema.Compile.{ref, go_regexp}
use adk_a2ui_go.Kit.Error.{Result}
use adk_a2ui_go.Common.Text.{replace_pairs}
use adk_a2ui_go.Schema.Compile.Whole.{LacksColon, Plain, DigestOf, Apart, compile_all-Plain}
use adk_a2ui_go.Schema.Compile.Keys.{
  catalog_in, LacksBar, is_entry, target_of, flag_of, catalog_key_of, request_key_inj,
}
use adk_a2ui_go.Schema.Compile.Answers.{
  Asked, Determined, Interleaved, nothing_kept, finish_compile-build,
}

abbrev calls : List (Call String)
calls = keep "a" "x" ∷ look "a" ∷ look "b" ∷ keep "a" "y" ∷ []

run-ideal_run_example :
    ((run calls new_cache).0 ≡ (ideal_run calls []).0)
    × (view (run calls new_cache).1 ≡ (ideal_run calls []).1)
run-ideal_run_example = run-ideal_run calls

abbrev one : Cache String
unfolding store_schema
one = (store_schema "a" "x" new_cache).1

evict_ends_example :
    (ltb max_cached_schemas (length (evict 1 one).order) ≡ false) × (evict 2 one ≡ evict 1 one)
unfolding store_schema lookup
evict_ends_example = evict_ends 1 one (omega arith)

abbrev admits : Schema
admits v = none

abbrev library : Library
library = record {
  marshal = λ m. ok "{}";
  unmarshal_json = λ text. ok null;
  url_path = λ u. ok u;
  digest = λ text. "0123456789abcdef";
  add_resource = λ loc doc. ok tt;
  compile = λ load resources loc. ok admits;
}

abbrev files : Files
files = record { read_file = λ name. ok ""; unmarshal = λ text. ok Fields.end }

abbrev request : Request
request = entry "server_to_client_list.json" none false

abbrev asked : Asked
asked = ("k", request) ∷ []

asked_one : (x : String × Request) → Elem x asked → x ≡ ("k", request)
asked_one x (inl e) = e
asked_one x (inr m) = absurd m

asked-Determined : Determined library files "v0_9" asked
asked-Determined k r r2 m m2 =
    ap (λ (x : String × Request). build library files "v0_9" x.1)
      (asked_one (k, r) m ∙ sym (asked_one (k, r2) m2))

finish_compile-build_example :
    ((finish_compile library files "v0_9" "k" request (lookup_schema "k" new_cache).0 new_cache).0
      ≡ build library files "v0_9" request)
    × Interleaved library files "v0_9" asked
        (finish_compile library files "v0_9" "k" request
          (lookup_schema "k" new_cache).0
          new_cache).1
finish_compile-build_example =
    finish_compile-build library files "v0_9" asked "k" request new_cache new_cache asked-Determined
      (inl refl) nothing_kept nothing_kept

abbrev catalog : Fields
catalog = field "catalogId" (str "c1") Fields.end

abbrev theme : Request
theme = ref "catalog.json#/$defs/theme" (some catalog) false

request-LacksBar : LacksBar (target_of request)
request-LacksBar = ground arith

theme-LacksBar : LacksBar (target_of theme)
theme-LacksBar = ground arith

digest-LacksColon : LacksColon "0123456789abcdef"
digest-LacksColon = ground arith

abbrev requests : List Request
requests = request ∷ theme ∷ request ∷ []

requests-Plain : All (Plain library files "v0_9") requests
requests-Plain =
    ((request-LacksBar, tt), ((theme-LacksBar, ("{}", refl)), ((request-LacksBar, tt), tt)))

abbrev HasCatalog : Request → Type 0
HasCatalog r = (catalog_in r ≡ none) ⊎ (catalog_in r ≡ some catalog)

requests-HasCatalog : All HasCatalog requests
requests-HasCatalog = (inl refl, (inr refl, (inl refl, tt)))

digested :
    (r : Request) (d : String)
    → Elem r requests
    → DigestOf library files "v0_9" (catalog_in r) d
    → catalog_in r ≡ some catalog
digested r d m (c, b, e, _, _) = elim (All-Elem HasCatalog requests r requests-HasCatalog m) [
  | inl n ↦ cc
  | inr s ↦ s
]

requests-Apart : Apart library files "v0_9" requests
requests-Apart r r2 d m m2 h h2 = digested r d m h ∙ sym (digested r2 d m2 h2)

compile_all-Plain_example :
    compile_all library files "v0_9" requests 0 new_cache
    ≡ map (build library files "v0_9") requests
compile_all-Plain_example =
    compile_all-Plain library files "v0_9" requests (λ b. digest-LacksColon) requests-Plain
      requests-Apart

request_key_inj_example :
    (is_entry request ≡ is_entry request)
    × (target_of request ≡ target_of request)
    × (flag_of request ≡ flag_of request)
    × (catalog_key_of library files "v0_9" request 0
        ≡ catalog_key_of library files "v0_9" request 1)
unfolding request_key catalog_key
request_key_inj_example =
    request_key_inj library files "v0_9" request request 0 1 request-LacksBar request-LacksBar refl

abbrev same : String → Result String
same s = ok s

pattern :
    go_regexp same "^\\p{XID_Start}\\p{XID_Continue}*$"
    ≡ ok "^\\p{L}\\p{Nl}\\p{L}\\p{Nl}\\p{Mn}\\p{Mc}\\p{Nd}\\p{Pc}*$"
unfolding go_regexp replace_pairs
pattern = refl
