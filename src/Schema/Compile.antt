-- ===== src/Schema/Compile.antt =====
-- internal/schema/engine.go: Compile and CompileRef, the key of a compiled schema, and the loader of the
-- documents that a schema refers to. The JSON Schema library, the digest and `url.Parse` are the
-- record `Library`; an error of the library has a prefix, as the source wraps it.
pub mod Answers
pub mod Keys
pub mod Whole
use Prim.Native.Nat.{◌^◌}
use Prim.Native.String
use Prim.Native.String.{◌++◌}
use adk_a2ui_go.Common.{
  ℕ, zero, suc, ◌+◌, ◌-◌, ◌%◌, String, Bool, true, false, ◌&&◌, Option, none, some, List, [], ◌∷◌,
  ◌==◌, if◌then◌else◌,
}
use adk_a2ui_go.Common.Text.{itoa, replace_pairs}
use adk_a2ui_go.Common.{GoMap, lookup, ◌≡◌, refl, ◌||◌, Bool-cases, inl, inr}
use adk_a2ui_go.Json.{Value, str, obj, Fields, end, field, str_at}
use adk_a2ui_go.Kit.Error.{Error, wrapped, Result, ok, err, ◌>>=◌}
use adk_a2ui_go.Spec.{Files, major_v09, major_v10, major_for}
use adk_a2ui_go.Schema.Format.Text.{path_base}
use adk_a2ui_go.Schema.Catalog.{stub_component, stub_function, stub_theme, with_unions}
use adk_a2ui_go.Schema.Cache.{Cache, new_cache, lookup_schema, store_schema}
use adk_a2ui_go.Schema.Engine.{Schema}

pub record Library : Type 0 where
  -- `json.Marshal` of a map, and `jsonschema.UnmarshalJSON`.
  pub marshal : Fields → Result String
  pub unmarshal_json : String → Result Value
  -- The path of a URL that `url.Parse` reads.
  pub url_path : String → Result String
  -- `sha256.Sum256`, its first eight bytes in hexadecimal.
  pub digest : String → String
  -- `AddResource` and `Compile` of a compiler with a loader and the resources that were added.
  pub add_resource : String → Value → Result (Unit {0})
  pub compile : (String → Result Value) → List (String × Value) → String → Result Schema

abbrev base_url : String
base_url = "https://a2ui.org/specification/"

abbrev draft : Value
draft = str "https://json-schema.org/draft/2020-12/schema"

-- `stubCatalog`
unfoldable pub stub_catalog : Fields
stub_catalog = field "$schema" draft (
    field "$defs"
      (obj (
        field "anyComponent" stub_component
          (field "anyFunction" stub_function (field "theme" stub_theme end))))
      end)

label : {A : Type 0} → String → Result A → Result A
label prefix (err e) = err (wrapped prefix e)
label prefix (ok a) = ok a

-- `bytes.ReplaceAll`, of a text that is not empty.
unfoldable pub replace_all : String → String → String → String
replace_all s old new = replace_pairs ((old, new) ∷ []) s

-- `xidReplacer`
abbrev xid_replacer : List (String × String)
xid_replacer =
    ("\\p{XID_Start}", "\\p{L}\\p{Nl}")
    ∷ ("\\p{XID_Continue}", "\\p{L}\\p{Nl}\\p{Mn}\\p{Mc}\\p{Nd}\\p{Pc}")
    ∷ []

-- `goRegexp`, over `regexp.Compile`.
unfoldable pub go_regexp : {R : Type 0} → (String → Result R) → String → Result R
go_regexp compile s = compile (replace_pairs xid_replacer s)

-- `engines`, each with its major version.
abbrev pub engines : GoMap (String × Cache Schema)
engines = (major_v09, (major_v09, new_cache)) ∷ (major_v10, (major_v10, new_cache)) ∷ []

-- `For`; nil is `none`.
unfoldable pub engine_for : String → Option (String × Cache Schema)
engine_for major = lookup major engines

-- A call of `Compile` or of `CompileRef`, each with a catalog and `v091`.
pub data Request : Type 0 where
  entry ref : String → Option Fields → Bool → Request

-- `fmt.Sprint` of a flag.
abbrev pub sprint_bool : Bool → String
sprint_bool true = "true"
sprint_bool false = "false"

module _ (lib : Library) (files : Files) (major : String) where
  -- `normalize`
  unfoldable pub normalize : Fields → Result Value
  normalize doc = lib.marshal doc >>= lib.unmarshal_json

  catalog_document : Option Fields → Result Value
  catalog_document none = normalize stub_catalog
  catalog_document (some c) = normalize (with_unions major c)

  -- `(*loader).Load`
  unfoldable pub load : Option Fields → Bool → String → Result Value
  unfolding catalog_document label
  load catalog v091 u = lib.url_path u >>= λ p.
      let base = path_base p in
      let embedded =
        label ("schema: no embedded schema for " ++ (u ++ ": "))
          (files.read_file (major ++ ("/json/" ++ base)))
        >>= λ b. lib.unmarshal_json (
            if v091
            then replace_all b "\"const\": \"v0.9\"" "\"enum\": [\"v0.9\", \"v0.9.1\"]"
            else b) in
      if base == "catalog.json" then catalog_document catalog else embedded

  compiled : Option Fields → Bool → List (String × Value) → String → Result Schema
  compiled catalog v091 resources loc =
      label ("schema: compile " ++ (loc ++ ": ")) (lib.compile (load catalog v091) resources loc)

  -- What `compile` does where it finds nothing in the cache.
  unfoldable pub build : Request → Result Schema
  unfolding compiled label
  build (entry name catalog v091) = compiled catalog v091 [] (base_url ++ (major ++ ("/" ++ name)))
  build (ref target catalog v091) =
      let loc = base_url ++ (major ++ "/wrapper.json") in
      normalize (field "$schema" draft (field "$ref" (str target) end)) >>= λ doc.
      label ("schema: add " ++ (loc ++ ": ")) (lib.add_resource loc doc) >>= λ u.
      compiled catalog v091 ((loc, doc) ∷ []) loc

  marshal_key : String → ℕ → Result String → String × ℕ
  marshal_key id n (err e) =
      let next = (n + 1) % 2 ^ 64 in (id ++ ("!marshal-error:" ++ itoa next), next)
  marshal_key id n (ok b) = (id ++ (":" ++ lib.digest b), n)

  -- `catalogKey`, with the counter `unmarshalable`.
  unfoldable pub catalog_key : Option Fields → ℕ → String × ℕ
  unfolding marshal_key
  catalog_key none n = ("stub", n)
  catalog_key (some c) n = marshal_key (str_at "catalogId" c) n (lib.marshal c)

  -- The key of a request, and the counter after it.
  unfoldable pub request_key : Request → ℕ → String × ℕ
  request_key (entry name catalog v091) n =
      let (key, next) = catalog_key catalog n in
      ("entry|" ++ (name ++ ("|" ++ (sprint_bool v091 ++ ("|" ++ key)))), next)
  request_key (ref target catalog v091) n =
      let (key, next) = catalog_key catalog n in
      ("ref|" ++ (target ++ ("|" ++ (sprint_bool v091 ++ ("|" ++ key)))), next)

  -- The end of `compile`: `store` of what was built, unless nothing was.
  store_built : String → Result Schema → Cache Schema → Result Schema × Cache Schema
  store_built key (err x) e = (err x, e)
  store_built key (ok s) e = let (kept, e2) = store_schema key s e in (ok kept, e2)

  -- `compile` past its `lookup`, which answers `found`; the cache is the one that `store` meets, since
  -- the lock is not held while the schema is built.
  unfoldable pub finish_compile :
      String → Request → Option Schema → Cache Schema → Result Schema × Cache Schema
  unfolding store_built
  finish_compile key r (some s) e = (ok s, e)
  finish_compile key r none e = store_built key (build r) e

  -- `compile`, where no other call comes between its `lookup` and its `store`.
  unfoldable pub compile_request : String → Request → Cache Schema → Result Schema × Cache Schema
  compile_request key r e = let (found, e2) = lookup_schema key e in finish_compile key r found e2

  -- A sequence of calls of `Compile` and `CompileRef`, from a cache and a counter.
  unfoldable pub compile_all : List Request → ℕ → Cache Schema → List (Result Schema)
  compile_all [] n e = []
  compile_all (r ∷ rs) n e =
      let (key, next) = request_key r n in
      let (answer, e2) = compile_request key r e in answer ∷ compile_all rs next e2

-- Every version that `MajorFor` knows has an engine.
major_for-engine_for :
    (version major : String)
    → major_for version ≡ some major
    → engine_for major ≡ some (major, new_cache)
unfolding engine_for lookup major_for
major_for-engine_for version major = elim (Bool-cases (version == "v0.9" || version == "v0.9.1")) [
  | inl e ↦ rw e (λ h. (let s : major_v09 ≡ major = cc h in rw (← s) refl))
  | inr e ↦ rw e (elim (Bool-cases (version == "v1.0")) [
    | inl f ↦ rw f (λ h. (let s : major_v10 ≡ major = cc h in rw (← s) refl))
    | inr f ↦ rw f (λ h. cc)
  ])
]
