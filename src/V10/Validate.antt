-- ===== src/V10/Validate.antt =====
-- v10/validate.go: the validation of a batch of messages from the agent. The pass over the
-- catalogs carries the state `Lookups`; an error ends the whole call.
pub mod Laws
pub mod Pass
pub mod Strict
use Prim.Native.String.{◌++◌}
use adk_a2ui_go.Common.{
  ℕ, zero, suc, String, Bool, true, false, ◌&&◌, not, Option, none, some, List, [], ◌∷◌,
  ◌++◌ as append, ◌==◌, if◌then◌else◌, GoMap, lookup, str_elem,
}
use adk_a2ui_go.Common.Text.{quote}
use adk_a2ui_go.Json.{Value, Fields, get, has, as_obj, as_arr, str_at, obj, obj_of}
use adk_a2ui_go.Kit.Problem.{Problem, problem}
use adk_a2ui_go.Kit.Error.{Error, validation, failure, Result, ok, err, ◌>>=◌}
use adk_a2ui_go.Kit.Options.{ValidateOptions}
use adk_a2ui_go.Spec.{Embedded, major_v10}
use adk_a2ui_go.Schema.Paths.{message_path, element_path}
use adk_a2ui_go.Schema.Finalize.{finalize}
use adk_a2ui_go.Schema.Resolve.{resolve_catalog}
use adk_a2ui_go.Schema.Format.Text.{Printer}
use adk_a2ui_go.Schema.Format.Plan.{Refusal}
use adk_a2ui_go.Schema.Format.{format}
use adk_a2ui_go.Schema.Passes.{
  Lookups, no_lookups, add_problems, note_answer, known_or, ask_once, refused, verdict,
}
use adk_a2ui_go.Schema.Engine.{Schema, Engine, to_instance}
use adk_a2ui_go.V10.Rules.{semantic_rules, or_nil}
use adk_a2ui_go.V10.Callers.{allowed_callers, agent_may_call, agent_only, renderer_or_agent}

-- `surfaceInfo`
pub record SurfaceInfo : Type 0 where
  pub index : ℕ
  pub catalog_id : String
  pub has_catalog_id : Bool

note_surface : ℕ → Option Fields → GoMap SurfaceInfo → GoMap SurfaceInfo
note_surface i none out = out
note_surface i (some cs) out =
    let sid = str_at "surfaceId" cs in
    elim (lookup sid out) [
      | some s ↦ out
      | none ↦
          (
            sid,
            record {
              index = i;
              catalog_id = str_at "catalogId" cs;
              has_catalog_id = has "catalogId" cs;
            },
          )
          ∷ out
    ]

surfaces_from : ℕ → List Fields → GoMap SurfaceInfo → GoMap SurfaceInfo
surfaces_from i [] out = out
surfaces_from i (m ∷ ms) out =
    surfaces_from (suc i) ms (note_surface i (as_obj (get "createSurface" m)) out)

-- `createdSurfaces`
unfoldable pub created_surfaces : List Fields → GoMap SurfaceInfo
unfolding surfaces_from note_surface
created_surfaces ms = surfaces_from 0 ms []

inherited : Option SurfaceInfo → String × String
inherited none = ("", "")
inherited (some s) = (s.catalog_id, message_path s.index ".createSurface.catalogId")

-- `catalogFor`; a surface that is not created is `none`.
unfoldable pub catalog_for : Fields → String → Option SurfaceInfo → String × String
unfolding inherited
catalog_for comp path surface =
    let own = str_at "catalogId" comp in
    if own == "" then inherited surface else (own, path ++ ".catalogId")

abbrev policy_problem : String → String → String → Problem
policy_problem path name allowed = problem (path ++ ".call") (
    "function "
    ++ (quote name
        ++ (" is "
            ++ (allowed
                ++ (" in its catalog; the agent may only call functions whose allowedCallers is "
                    ++ (quote agent_only ++ (" or " ++ quote renderer_or_agent)))))))

pub policy_problems : Fields → Fields → String → List Problem
policy_problems cat call path =
    let name = str_at "call" call in
    let allowed = allowed_callers cat name in
    if not (allowed == "") && not (agent_may_call allowed)
    then policy_problem path name allowed ∷ []
    else []

pub no_catalog : Fields → String → Option SurfaceInfo → String → List Problem
no_catalog comp sid none path = []
no_catalog comp sid (some s) path =
    if not s.has_catalog_id && not (has "catalogId" comp)
    then problem path
        ("must set catalogId because surface " ++ (quote sid ++ " was created without one"))
      ∷ []
    else []

module _ (files : Embedded) (eng : Engine) (out : Printer) (opts : ValidateOptions) where
  -- The closure `lookup`.
  unfoldable pub lookup_catalog : String → String → Lookups → Result (Option Fields × Lookups)
  unfolding note_answer
  lookup_catalog cid path = ask_once opts.strict cid path (resolve_catalog files major_v10 cid opts)

  -- A component, or a call, against its catalog, where the catalog is known.
  against :
      String → Value → String → (Fields → List Problem) → Option Fields × Lookups → Result Lookups
  against ref v path more (none, st) = ok st
  against ref v path more (some cat, st) = eng.compile_ref ref cat false >>= λ s.
      ok (add_problems (append (refused out v path (s v)) (more cat)) st)

  -- One round of the loop of `checkComponents`.
  check_component : Option SurfaceInfo → String → String → Value → Lookups → Result Lookups
  check_component surface sid path c st =
      let comp = obj_of (some c) in
      let (cid, lookup_path) = catalog_for comp path surface in
      let checked =
        lookup_catalog cid lookup_path st
        >>= against "agent_to_renderer.json#/$defs/Component" c path (λ cat. []) in
      if cid == "" then ok (add_problems (no_catalog comp sid surface path) st) else checked

  check_components :
      Option SurfaceInfo → String → String → ℕ → List Value → Lookups → Result Lookups
  check_components surface sid base j [] st = ok st
  check_components surface sid base j (c ∷ cs) st =
      check_component surface sid (element_path base j) c st
      >>= check_components surface sid base (suc j) cs

  ask_created : ℕ → Option Fields → Lookups → Result Lookups
  ask_created i none st = ok st
  ask_created i (some cs) st =
      let cid = str_at "catalogId" cs in
      let asked =
        lookup_catalog cid (message_path i ".createSurface.catalogId") st >>= λ r. ok (r.1) in
      if cid == "" then ok st else asked

  -- The first loop: the catalog of every surface that is created.
  pub ask_all_created : ℕ → List Fields → Lookups → Result Lookups
  ask_all_created i [] st = ok st
  ask_all_created i (m ∷ ms) st =
      ask_created i (as_obj (get "createSurface" m)) st >>= ask_all_created (suc i) ms

  check_created : GoMap SurfaceInfo → ℕ → Option Fields → Lookups → Result Lookups
  check_created surfaces i none st = ok st
  check_created surfaces i (some cs) st =
      let sid = str_at "surfaceId" cs in
      check_components (lookup sid surfaces) sid (message_path i ".createSurface.components") 0
        (or_nil (as_arr (get "components" cs))) st

  check_updated : GoMap SurfaceInfo → ℕ → Option Fields → Lookups → Result Lookups
  check_updated surfaces i none st = ok st
  check_updated surfaces i (some uc) st =
      let sid = str_at "surfaceId" uc in
      check_components (lookup sid surfaces) sid (message_path i ".updateComponents.components") 0
        (or_nil (as_arr (get "components" uc))) st

  check_call : ℕ → Option Fields → Lookups → Result Lookups
  check_call i none st = ok st
  check_call i (some cf) st =
      let call = obj_of (get "callFunction" cf) in
      let path = message_path i ".callRendererFunction.callFunction" in
      let cid = str_at "catalogId" call in
      let checked =
        lookup_catalog cid (path ++ ".catalogId") st
        >>= against "common_types.json#/$defs/FunctionCall" (obj call) path
            (λ cat. policy_problems cat call path) in
      if cid == "" then ok st else checked

  -- The second loop.
  pub check_messages : GoMap SurfaceInfo → ℕ → List Fields → Lookups → Result Lookups
  check_messages surfaces i [] st = ok st
  check_messages surfaces i (m ∷ ms) st =
      check_created surfaces i (as_obj (get "createSurface" m)) st
      >>= check_updated surfaces i (as_obj (get "updateComponents" m))
      >>= check_call i (as_obj (get "callRendererFunction" m))
      >>= check_messages surfaces (suc i) ms

  -- `validateAgainstCatalogs`
  unfoldable pub validate_against_catalogs : List Fields → Result (List Problem)
  unfolding check_messages check_created check_updated check_call ask_all_created ask_created
      check_components check_component against policy_problems no_catalog refused
  validate_against_catalogs ms =
      ask_all_created 0 ms no_lookups >>= check_messages (created_surfaces ms) 0 ms >>= λ st.
      ok st.problems

  version_problems : ℕ → List Fields → List Problem
  version_problems i [] = []
  version_problems i (m ∷ ms) =
      append
        (if not (opts.version == "") && not (str_at "version" m == opts.version)
          then problem (message_path i ".version") ("must be " ++ quote opts.version) ∷ []
          else [])
        (version_problems (suc i) ms)

  -- Past the pass over the envelope.
  after_envelope : List Fields → List Problem → Option Refusal → Result (Unit {0})
  after_envelope ms problems (some r) =
      err (validation (finalize (append problems (format out (to_instance ms) "messages" r))))
  after_envelope ms problems none = validate_against_catalogs ms >>= λ found.
      verdict (finalize (append (append problems found) (semantic_rules ms)))

  -- `Validate`; a nil error is `ok tt`.
  unfoldable pub validate : List Fields → Result (Unit {0})
  unfolding version_problems after_envelope verdict
  validate ms =
      let checked = eng.compile "agent_to_renderer_list.json" false >>= λ envelope.
      after_envelope ms (version_problems 0 ms) (envelope (to_instance ms)) in
      if not (opts.version == "") && not (opts.version == "v1.0")
      then err (failure ("v10: unsupported version " ++ quote opts.version))
      else checked
