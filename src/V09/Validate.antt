-- ===== src/V09/Validate.antt =====
-- v09/validate.go: the validation of a batch of messages of v0.9 and v0.9.1 from the agent.
pub mod Laws
pub mod Pass
pub mod Unthemed
use Prim.Native.String.{◌++◌}
use adk_a2ui_go.Common.{
  ℕ, suc, String, Bool, true, false, ◌&&◌, not, Option, none, some, List, [], ◌∷◌, ◌++◌ as append,
  ◌==◌, if◌then◌else◌, GoMap, lookup, ◌||◌,
}
use adk_a2ui_go.Common.Text.{quote}
use adk_a2ui_go.Json.{Value, Fields, get, as_obj, as_arr, str_at}
use adk_a2ui_go.Kit.Problem.{Problem, problem}
use adk_a2ui_go.Kit.Error.{Error, validation, failure, Result, ok, err, ◌>>=◌}
use adk_a2ui_go.Kit.Options.{ValidateOptions}
use adk_a2ui_go.Spec.{Embedded, major_v09}
use adk_a2ui_go.Schema.Paths.{message_path, element_path}
use adk_a2ui_go.Schema.Finalize.{finalize}
use adk_a2ui_go.Schema.Resolve.{resolve_catalog}
use adk_a2ui_go.Schema.Format.Text.{Printer}
use adk_a2ui_go.Schema.Format.Plan.{Refusal}
use adk_a2ui_go.Schema.Format.{format}
use adk_a2ui_go.Schema.Passes.{Lookups, no_lookups, add_problems, ask_once, refused, verdict}
use adk_a2ui_go.Schema.Engine.{Schema, Engine, to_instance}
use adk_a2ui_go.V10.Rules.{or_nil}
use adk_a2ui_go.V09.Rules.{semantic_rules_v09}

check_version_from : String → ℕ → List Fields → List Problem
check_version_from want i [] = []
check_version_from want i (m ∷ ms) =
    append
      (if not (str_at "version" m == want)
        then problem (message_path i ".version") ("must be " ++ quote want) ∷ []
        else [])
      (check_version_from want (suc i) ms)

-- `checkVersion`
unfoldable pub check_version : List Fields → String → List Problem
unfolding check_version_from
check_version ms want = if want == "" then [] else check_version_from want 0 ms

-- The maps `surfaceCatalog` and `catalogAt`.
pub record Created : Type 0 where
  pub surface_catalog : GoMap String
  pub catalog_at : GoMap ℕ

-- `if _, seen := m[k]; !seen { m[k] = v }`
keep_first : {V : Type 0} → String → V → GoMap V → GoMap V
keep_first k v m = elim (lookup k m) [ none ↦ (k, v) ∷ m | some w ↦ m ]

note_created : ℕ → Option Fields → Created → Created
note_created i none created = created
note_created i (some cs) created =
    let cid = str_at "catalogId" cs in
    record {
      surface_catalog = keep_first (str_at "surfaceId" cs) cid created.surface_catalog;
      catalog_at = keep_first cid i created.catalog_at;
    }

created_from : ℕ → List Fields → Created → Created
created_from i [] created = created
created_from i (m ∷ ms) created =
    created_from (suc i) ms (note_created i (as_obj (get "createSurface" m)) created)

-- The first loop of `validateAgainstCatalogs`.
unfoldable pub created_catalogs : List Fields → Created
unfolding created_from note_created keep_first
created_catalogs ms = created_from 0 ms (record { surface_catalog = []; catalog_at = [] })

-- `m[k]` of a map of strings, or of indices.
abbrev text_or : Option String → String
text_or none = ""
text_or (some s) = s

abbrev index_or : Option ℕ → ℕ
index_or none = 0
index_or (some i) = i

-- `surfaceCatalog[sid]`
unfoldable pub catalog_of_surface : Created → String → String
catalog_of_surface created sid = text_or (lookup sid created.surface_catalog)

-- The loop over the components: the problems that it adds.
pub refused_components : Printer → Schema → String → ℕ → List Value → List Problem
refused_components out s base j [] = []
refused_components out s base j (c ∷ cs) =
    append (refused out c (element_path base j) (s c)) (refused_components out s base (suc j) cs)

module _ (files : Embedded) (eng : Engine) (out : Printer) (opts : ValidateOptions)
    (v091 : Bool) where
  -- The closure `lookup`.
  unfoldable pub lookup_catalog_v09 : Created → String → Lookups → Result (Option Fields × Lookups)
  lookup_catalog_v09 created cid =
      let path =
        message_path (index_or (lookup cid created.catalog_at)) ".createSurface.catalogId" in
      ask_once opts.strict cid path (resolve_catalog files major_v09 cid opts)

  -- The values of one message against a definition of their catalog, where the catalog is known.
  against_v09 : String → (Schema → List Problem) → Option Fields × Lookups → Result Lookups
  against_v09 ref found (none, st) = ok st
  against_v09 ref found (some cat, st) =
      eng.compile_ref ref cat v091 >>= λ s. ok (add_problems (found s) st)

  check_theme : Created → ℕ → String → Option Value → Lookups → Result Lookups
  check_theme created i cid none st = ok st
  check_theme created i cid (some theme) st =
      lookup_catalog_v09 created cid st
      >>= against_v09 "catalog.json#/$defs/theme"
          (λ s. refused out theme (message_path i ".createSurface.theme") (s theme))

  check_updated : Created → ℕ → Option Fields → Lookups → Result Lookups
  check_updated created i none st = ok st
  check_updated created i (some uc) st =
      let cid = catalog_of_surface created (str_at "surfaceId" uc) in
      let checked =
        lookup_catalog_v09 created cid st
        >>= against_v09 "catalog.json#/$defs/anyComponent" (λ s.
          refused_components out s (message_path i ".updateComponents.components") 0
            (or_nil (as_arr (get "components" uc)))) in
      if cid == "" then ok st else checked

  -- A message that creates a surface is not read further.
  check_one : Created → ℕ → Option Fields → Option Fields → Lookups → Result Lookups
  check_one created i (some cs) uc st =
      check_theme created i (str_at "catalogId" cs) (get "theme" cs) st
  check_one created i none uc st = check_updated created i uc st

  -- The second loop.
  check_messages : Created → ℕ → List Fields → Lookups → Result Lookups
  check_messages created i [] st = ok st
  check_messages created i (m ∷ ms) st =
      check_one created i (as_obj (get "createSurface" m)) (as_obj (get "updateComponents" m)) st
      >>= check_messages created (suc i) ms

  -- `validateAgainstCatalogs`
  unfoldable pub validate_against_catalogs_v09 : List Fields → Result (List Problem)
  unfolding check_messages check_one check_updated check_theme against_v09 refused_components
      refused
  validate_against_catalogs_v09 ms =
      check_messages (created_catalogs ms) 0 ms no_lookups >>= λ st. ok st.problems

-- The switch on the version that is pinned.
unfoldable pub is_supported_v09 : String → Bool
is_supported_v09 version = version == "" || (version == "v0.9" || version == "v0.9.1")

module _ (files : Embedded) (eng : Engine) (out : Printer) (opts : ValidateOptions) where
  -- Past the pass over the envelope.
  after_envelope : Bool → List Fields → List Problem → Option Refusal → Result (Unit {0})
  after_envelope v091 ms problems (some r) =
      err (validation (finalize (append problems (format out (to_instance ms) "messages" r))))
  after_envelope v091 ms problems none =
      validate_against_catalogs_v09 files eng out opts v091 ms >>= λ found.
      verdict (finalize (append (append problems found) (semantic_rules_v09 ms)))

  -- `Validate`; a nil error is `ok tt`.
  unfoldable pub validate_v09 : List Fields → Result (Unit {0})
  unfolding after_envelope verdict is_supported_v09
  validate_v09 ms =
      let v091 = not (opts.version == "v0.9") in
      let checked = eng.compile "server_to_client_list.json" v091 >>= λ envelope.
      after_envelope v091 ms (check_version ms opts.version) (envelope (to_instance ms)) in
      if not (is_supported_v09 opts.version)
      then err (failure ("v09: unsupported version " ++ quote opts.version))
      else checked
