-- ===== src/V10/Validate/Strict.antt =====
-- v10/validate.go, the first loop of `validateAgainstCatalogs`: the catalogs of created surfaces in
-- strict mode.
use adk_a2ui_go.Common.{
  String, ◌≡◌, ◌⊎◌, inl, inr, true, false, Option, none, some, List, [], ◌∷◌, All, sym, ◌∙◌, ◌≢◌,
}
use adk_a2ui_go.Json.{Fields, get, as_obj, str_at}
use adk_a2ui_go.Kit.Error.{ok}
use adk_a2ui_go.Kit.Options.{ValidateOptions}
use adk_a2ui_go.Spec.{Embedded, major_v10}
use adk_a2ui_go.Schema.Resolve.{resolve_catalog}
use adk_a2ui_go.Schema.Format.Text.{Printer}
use adk_a2ui_go.Schema.Engine.{Engine}
use adk_a2ui_go.Schema.Passes.Steps.{Answers}
use adk_a2ui_go.V10.Validate.{validate_against_catalogs}
use adk_a2ui_go.V10.Validate.Pass.{resolve_v10, CreatedOk}
use adk_a2ui_go.V10.Validate.Pass.Steps.{validate_against_catalogs-nil_iff}

true-false : true ≢ false
true-false h = cc

module _ (files : Embedded) (eng : Engine) (out : Printer) (opts : ValidateOptions) where
  abbrev pub Resolves : String → Type 0
  Resolves cid = (c : Fields) × (resolve_catalog files major_v10 cid opts ≡ ok (some c))

  -- The surface that the message creates names no catalog, or one that the agent has.
  abbrev pub CreatedResolves : Option Fields → Type 0
  CreatedResolves none = Unit
  CreatedResolves (some cs) = (str_at "catalogId" cs ≡ "") ⊎ Resolves (str_at "catalogId" cs)

  strict_answer :
      (cid : String)
      → opts.strict ≡ true
      → Answers (resolve_v10 files eng out opts) opts.strict cid (λ found. Unit)
      → Resolves cid
  strict_answer cid strict (some c, e, allowed, q) = (c, e)
  strict_answer cid strict (none, e, allowed, q) = absurd (true-false (sym strict ∙ allowed))

  strict_created :
      (o : Option Fields) → opts.strict ≡ true → CreatedOk files eng out opts o → CreatedResolves o
  strict_created none strict h = tt
  strict_created (some cs) strict (inl e) = inl e
  strict_created (some cs) strict (inr a) = inr (strict_answer (str_at "catalogId" cs) strict a)

  each_created :
      (ms : List Fields)
      → opts.strict ≡ true
      → All (λ m. CreatedOk files eng out opts (as_obj (get "createSurface" m))) ms
      → All (λ m. CreatedResolves (as_obj (get "createSurface" m))) ms
  each_created [] strict h = tt
  each_created (m ∷ ms) strict h =
      (strict_created (as_obj (get "createSurface" m)) strict h.0, each_created ms strict h.1)

  -- In strict mode, where the pass over the catalogs finds no problem, every surface that the batch
  -- creates with a catalog's id has a catalog that the agent can resolve, whatever its components
  -- name.
  pub strict-CreatedResolves :
      (ms : List Fields)
      → opts.strict ≡ true
      → validate_against_catalogs files eng out opts ms ≡ ok []
      → All (λ m. CreatedResolves (as_obj (get "createSurface" m))) ms
  strict-CreatedResolves ms strict h =
      each_created ms strict ((validate_against_catalogs-nil_iff files eng out opts ms).0 h).0
