-- ===== src/V10/Validate/Pass.antt =====
-- v10/validate.go: what the pass over the catalogs accepts, without its variables.
pub mod Steps
use adk_a2ui_go.Common.{
  ℕ, suc, String, ◌≡◌, refl, ◌↔◌, ◌≢◌, ◌⊎◌, inl, inr, Bool, true, false, ◌&&◌, not, Option, none,
  some, List, [], ◌∷◌, ◌++◌ as append, ◌==◌, eq_iff, if◌then◌else◌, arith, GoMap, lookup, All,
  append-nil_iff, Bool-cases, String-cases, ap, sym, ◌∙◌,
}
use mathlib.Core.Path.{subst}
use adk_a2ui_go.Json.{Value, Fields, get, has, as_obj, as_arr, str_at, obj, obj_of}
use adk_a2ui_go.Kit.Problem.{Problem}
use adk_a2ui_go.Kit.Error.{Result, ok, ◌>>=◌}
use adk_a2ui_go.Kit.Options.{ValidateOptions}
use adk_a2ui_go.Spec.{Embedded, major_v10}
use adk_a2ui_go.Schema.Paths.{message_path, element_path}
use adk_a2ui_go.Schema.Resolve.{resolve_catalog}
use adk_a2ui_go.Schema.Format.Text.{Printer}
use adk_a2ui_go.Schema.Passes.{Lookups, no_lookups, refused}
use adk_a2ui_go.Schema.Passes.Steps.{
  refused-nil_iff, Sound, Step, Step-ok, Step-iff, Step-then, Step-first, Step-add, Step-asked,
  Answers, no_lookups-Sound, pass-nil_iff,
}
use adk_a2ui_go.Schema.Engine.{Schema, Engine}
use adk_a2ui_go.V10.Rules.{or_nil}
use adk_a2ui_go.V10.Callers.{allowed_callers, agent_may_call}
use adk_a2ui_go.V10.Validate.{
  SurfaceInfo, created_surfaces, inherited, catalog_for, no_catalog, policy_problems,
  lookup_catalog, against, check_component, check_components, ask_created, ask_all_created,
  check_created, check_updated, check_call, check_messages, validate_against_catalogs,
}

-- The catalog that a component names, or that its surface was created with.
abbrev pub surface_catalog : Option SurfaceInfo → String
surface_catalog none = ""
surface_catalog (some s) = s.catalog_id

abbrev pub named_catalog : Fields → Option SurfaceInfo → String
named_catalog comp surface =
    let own = str_at "catalogId" comp in if own == "" then surface_catalog surface else own

-- A surface that was created without a catalog leaves it to the component.
abbrev pub NamesOwn : Fields → Option SurfaceInfo → Type 0
NamesOwn comp none = Unit
NamesOwn comp (some s) = (s.has_catalog_id ≡ true) ⊎ (has "catalogId" comp ≡ true)

-- What the agent may call, for a function's name and a catalog.
abbrev pub MayCall : String → Fields → Type 0
MayCall name cat =
    (allowed_callers cat name ≡ "") ⊎ (agent_may_call (allowed_callers cat name) ≡ true)

-- A schema admits a value, and more holds.
abbrev pub Admits : Schema → Value → Type 0 → Type 0
Admits s v P = (s v ≡ none) × P

pub catalog_for-named :
    (comp : Fields) (path : String) (surface : Option SurfaceInfo)
    → (catalog_for comp path surface).0 ≡ named_catalog comp surface
unfolding catalog_for inherited
catalog_for-named comp path none = elim (Bool-cases (str_at "catalogId" comp == "")) [
  | inl h ↦ rw h refl
  | inr h ↦ rw h refl
]
catalog_for-named comp path (some s) = elim (Bool-cases (str_at "catalogId" comp == "")) [
  | inl h ↦ rw h refl
  | inr h ↦ rw h refl
]

neither_iff : (a b : Bool) → ((not a && not b) ≡ false) ↔ ((a ≡ true) ⊎ (b ≡ true))
neither_iff a b = ground arith

pub no_catalog-nil_iff :
    (comp : Fields) (sid path : String) (surface : Option SurfaceInfo)
    → (no_catalog comp sid surface path ≡ []) ↔ NamesOwn comp surface
unfolding no_catalog
no_catalog-nil_iff comp sid path none = (λ h. tt, λ h. refl)
no_catalog-nil_iff comp sid path (some s) =
    let iff = neither_iff s.has_catalog_id (has "catalogId" comp) in
    elim (Bool-cases (not s.has_catalog_id && not (has "catalogId" comp))) [
      | inl e ↦ rw e (λ h. cc, λ h. (let k : true ≡ false = sym e ∙ iff.1 h in cc))
      | inr e ↦ rw e (λ h. iff.0 e, λ h. refl)
    ]

may_call_iff :
    (allowed : String) (may : Bool)
    → ((not (allowed == "") && not may) ≡ false) ↔ ((allowed ≡ "") ⊎ (may ≡ true))
may_call_iff allowed may = ground (arith, eq_iff allowed "")

pub policy_problems-nil_iff :
    (cat call : Fields) (path : String)
    → (policy_problems cat call path ≡ []) ↔ MayCall (str_at "call" call) cat
unfolding policy_problems
policy_problems-nil_iff cat call path =
    let allowed = allowed_callers cat (str_at "call" call) in
    let iff = may_call_iff allowed (agent_may_call allowed) in
    elim (Bool-cases (not (allowed == "") && not (agent_may_call allowed))) [
      | inl e ↦ rw e (λ h. cc, λ h. (let k : true ≡ false = sym e ∙ iff.1 h in cc))
      | inr e ↦ rw e (λ h. iff.0 e, λ h. refl)
    ]

module _ (files : Embedded) (eng : Engine) (out : Printer) (opts : ValidateOptions) where
  abbrev pub resolve_v10 : String → Result (Option Fields)
  resolve_v10 cid = resolve_catalog files major_v10 cid opts

  -- A definition of a catalog compiles and admits a value, and the catalog is `P`.
  abbrev pub Defines : String → Value → (Fields → Type 0) → Option Fields → Type 0
  Defines ref v P none = Unit
  Defines ref v P (some cat) =
      (s : Schema) × (eng.compile_ref ref cat false ≡ ok s) × Admits s v (P cat)

  -- `ResolveCatalog` answers for a catalog, with an answer that is allowed, and what it answers
  -- admits the value.
  abbrev pub Meets : String → String → Value → (Fields → Type 0) → Type 0
  Meets cid ref v P = Answers resolve_v10 opts.strict cid (Defines ref v P)

  abbrev pub CreatedOk : Option Fields → Type 0
  CreatedOk none = Unit
  CreatedOk (some cs) =
      let cid = str_at "catalogId" cs in
      (cid ≡ "") ⊎ Answers resolve_v10 opts.strict cid (λ found. Unit)

  abbrev pub NamedOk : String → Option SurfaceInfo → Value → Type 0
  NamedOk cid surface c =
      ((cid ≡ "") × NamesOwn (obj_of (some c)) surface)
      ⊎ ((cid ≢ "") × Meets cid "agent_to_renderer.json#/$defs/Component" c (λ cat. Unit))

  abbrev pub ComponentOk : Option SurfaceInfo → Value → Type 0
  ComponentOk surface c = NamedOk (named_catalog (obj_of (some c)) surface) surface c

  abbrev pub ComponentsOk : GoMap SurfaceInfo → Option Fields → Type 0
  ComponentsOk surfaces none = Unit
  ComponentsOk surfaces (some o) =
      All (ComponentOk (lookup (str_at "surfaceId" o) surfaces))
        (or_nil (as_arr (get "components" o)))

  abbrev pub CallOk : Option Fields → Type 0
  CallOk none = Unit
  CallOk (some cf) =
      let call = obj_of (get "callFunction" cf) in
      let cid = str_at "catalogId" call in
      (cid ≡ "")
      ⊎ Meets cid "common_types.json#/$defs/FunctionCall" (obj call) (MayCall (str_at "call" call))

  abbrev pub MessageOk : GoMap SurfaceInfo → Fields → Type 0
  MessageOk surfaces m =
      ComponentsOk surfaces (as_obj (get "createSurface" m))
      × ComponentsOk surfaces (as_obj (get "updateComponents" m))
      × CallOk (as_obj (get "callRendererFunction" m))

  -- Every surface that is created, every component and every call meets its catalog.
  abbrev pub CatalogsOk : List Fields → Type 0
  CatalogsOk ms =
      All (λ m. CreatedOk (as_obj (get "createSurface" m))) ms
      × All (MessageOk (created_surfaces ms)) ms

  abbrev pub StepOf : Lookups → Type 0 → Result Lookups → Type 0
  StepOf = Step resolve_v10 opts.strict

  abbrev pub SoundOf : Lookups → Type 0
  SoundOf = Sound resolve_v10 opts.strict
