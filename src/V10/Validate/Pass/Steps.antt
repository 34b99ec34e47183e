-- ===== src/V10/Validate/Pass/Steps.antt =====
-- v10/validate.go: each step of the pass over the catalogs against what it accepts.
use adk_a2ui_go.Common.{
  ℕ, suc, String, ◌≡◌, refl, ◌↔◌, inl, inr, false, Option, none, some, List, [], ◌∷◌,
  ◌++◌ as append, ◌==◌, if◌then◌else◌, GoMap, lookup, All, append-nil_iff, String-cases,
}
use mathlib.Core.Path.{subst}
use adk_a2ui_go.Json.{Value, Fields, get, as_obj, as_arr, str_at, obj, obj_of}
use adk_a2ui_go.Kit.Problem.{Problem}
use adk_a2ui_go.Kit.Error.{Result, ok, ◌>>=◌}
use adk_a2ui_go.Kit.Options.{ValidateOptions}
use adk_a2ui_go.Spec.{Embedded}
use adk_a2ui_go.Schema.Paths.{message_path, element_path}
use adk_a2ui_go.Schema.Format.Text.{Printer}
use adk_a2ui_go.Schema.Passes.{Lookups, no_lookups, refused}
use adk_a2ui_go.Schema.Passes.Steps.{
  refused-nil_iff, Step-ok, Step-iff, Step-then, Step-first, Step-add, Step-asked, no_lookups-Sound,
  pass-nil_iff,
}
use adk_a2ui_go.Schema.Engine.{Schema, Engine}
use adk_a2ui_go.V10.Rules.{or_nil}
use adk_a2ui_go.V10.Validate.{
  SurfaceInfo, created_surfaces, catalog_for, no_catalog, policy_problems, lookup_catalog, against,
  check_component, check_components, ask_created, ask_all_created, check_created, check_updated,
  check_call, check_messages, validate_against_catalogs,
}
use adk_a2ui_go.V10.Validate.Pass.{
  named_catalog, MayCall, catalog_for-named, no_catalog-nil_iff, policy_problems-nil_iff, Admits,
  Defines, Meets, CreatedOk, NamedOk, ComponentOk, ComponentsOk, CallOk, MessageOk, CatalogsOk,
  StepOf, SoundOf,
}

module _ (files : Embedded) (eng : Engine) (out : Printer) (opts : ValidateOptions) where
  abbrev Goes : Lookups → Type 0 → Result Lookups → Type 0
  Goes = StepOf files eng out opts

  abbrev IsSound : Lookups → Type 0
  IsSound = SoundOf files eng out opts

  both_nil_iff :
      (v : Value) (path : String) (more : List Problem) (P : Type 0) (s : Schema)
      → (more ≡ []) ↔ P
      → (append (refused out v path (s v)) more ≡ []) ↔ ((s v ≡ none) × P)
  both_nil_iff v path more P s iff =
      let here = refused-nil_iff out v path (s v) in
      let both = append-nil_iff (refused out v path (s v)) more in
      (λ h. (let (a, b) = both.0 h in (here.0 a, iff.0 b)), λ h. both.1 (here.1 h.0, iff.1 h.1))

  against-Step :
      (ref : String) (v : Value) (path : String) (more : Fields → List Problem)
      (P : Fields → Type 0) (found : Option Fields) (st : Lookups)
      → ((cat : Fields) → (more cat ≡ []) ↔ P cat)
      → IsSound st
      → Goes st
          (Defines files eng out opts ref v P found)
          (against files eng out opts ref v path more (found, st))
  unfolding against
  against-Step ref v path more P none st iff sound = Step-ok _ _ st sound
  against-Step ref v path more P (some cat) st iff sound =
      Step-first _ _ st (λ s. Admits s v (P cat)) (eng.compile_ref ref cat false) _
        (λ s.
          Step-iff _ _ st _ _ _ (both_nil_iff v path (more cat) (P cat) s (iff cat))
            (Step-add _ _ (append (refused out v path (s v)) (more cat)) st sound))

  checked-Step :
      (cid lookup_path ref : String) (v : Value) (path : String) (more : Fields → List Problem)
      (P : Fields → Type 0) (st : Lookups)
      → ((cat : Fields) → (more cat ≡ []) ↔ P cat)
      → IsSound st
      → Goes st (Meets files eng out opts cid ref v P) (
          lookup_catalog files eng out opts cid lookup_path st
          >>= against files eng out opts ref v path more)
  unfolding lookup_catalog
  checked-Step cid lookup_path ref v path more P st iff sound =
      Step-asked _ opts.strict cid lookup_path st (Defines files eng out opts ref v P)
        (against files eng out opts ref v path more) sound
        (λ found st2 s2. against-Step ref v path more P found st2 iff s2)

  named-Step :
      (surface : Option SurfaceInfo) (sid path : String) (c : Value) (cid lookup_path : String)
      (st : Lookups)
      → IsSound st
      → Goes st (NamedOk files eng out opts cid surface c) (
          if cid == ""
          then ok (record st {
            problems = append st.problems (no_catalog (obj_of (some c)) sid surface path);
          })
          else (lookup_catalog files eng out opts cid lookup_path st
              >>= against files eng out opts "agent_to_renderer.json#/$defs/Component" c path
                  (λ cat. [])))
  named-Step surface sid path c cid lookup_path st sound = elim (String-cases cid "") [
    | inl e ↦
        let own = no_catalog-nil_iff (obj_of (some c)) sid path surface in
        rw e (
          Step-iff _ _ st _ _ _
            (
              λ h. inl (refl, own.0 h),
              λ h. own.1 (elim h [ inl k ↦ k.1 | inr k ↦ absurd (k.0 refl) ]),
            )
            (Step-add _ _ (no_catalog (obj_of (some c)) sid surface path) st sound))
    | inr (ne, off) ↦ rw ne (
        Step-iff _ _ st _ _ _
          (λ h. inr (off, h), λ h. elim h [ inl k ↦ absurd (off k.0) | inr k ↦ k.1 ])
          (checked-Step cid lookup_path "agent_to_renderer.json#/$defs/Component" c path (λ cat. [])
            (λ cat. Unit) st (λ cat. (λ h. tt, λ h. refl)) sound))
  ]

  check_component-Step :
      (surface : Option SurfaceInfo) (sid path : String) (c : Value) (st : Lookups)
      → IsSound st
      → Goes st
          (ComponentOk files eng out opts surface c)
          (check_component files eng out opts surface sid path c st)
  unfolding check_component
  check_component-Step surface sid path c st sound =
      let comp = obj_of (some c) in
      let from = catalog_for comp path surface in
      let same : from.0 ≡ named_catalog comp surface = catalog_for-named comp path surface in
      let there = named-Step surface sid path c from.0 from.1 st sound in
      subst
        (λ cid.
          Goes st (NamedOk files eng out opts cid surface c)
            (check_component files eng out opts surface sid path c st))
        same there

  check_components-Step :
      (surface : Option SurfaceInfo) (sid base : String) (j : ℕ) (cs : List Value) (st : Lookups)
      → IsSound st
      → Goes st
          (All (ComponentOk files eng out opts surface) cs)
          (check_components files eng out opts surface sid base j cs st)
  unfolding check_components
  check_components-Step surface sid base j [] st sound = Step-ok _ _ st sound
  check_components-Step surface sid base j (c ∷ cs) st sound =
      Step-then _ _ st _ _ _ _ (check_component-Step surface sid (element_path base j) c st sound)
        (check_components-Step surface sid base (suc j) cs)

  ask_created-Step :
      (i : ℕ) (o : Option Fields) (st : Lookups)
      → IsSound st
      → Goes st (CreatedOk files eng out opts o) (ask_created files eng out opts i o st)
  unfolding ask_created lookup_catalog
  ask_created-Step i none st sound = Step-ok _ _ st sound
  ask_created-Step i (some cs) st sound = elim (String-cases (str_at "catalogId" cs) "") [
    | inl e ↦ rw e (Step-iff _ _ st Unit _ _ (λ h. inl refl, λ h. tt) (Step-ok _ _ st sound))
    | inr (ne, off) ↦ rw ne (
        Step-iff _ _ st _ _ _ (λ h. inr h, λ h. elim h [ inl k ↦ absurd (off k) | inr k ↦ k ])
          (Step-asked _ opts.strict (str_at "catalogId" cs) _ st (λ found. Unit) (λ r. ok (r.1))
            sound (λ found st2 s2. Step-ok _ _ st2 s2)))
  ]

  ask_all_created-Step :
      (i : ℕ) (ms : List Fields) (st : Lookups)
      → IsSound st
      → Goes st
          (All (λ m. CreatedOk files eng out opts (as_obj (get "createSurface" m))) ms)
          (ask_all_created files eng out opts i ms st)
  unfolding ask_all_created
  ask_all_created-Step i [] st sound = Step-ok _ _ st sound
  ask_all_created-Step i (m ∷ ms) st sound =
      Step-then _ _ st _ _ _ _ (ask_created-Step i (as_obj (get "createSurface" m)) st sound)
        (ask_all_created-Step (suc i) ms)

  check_created-Step :
      (surfaces : GoMap SurfaceInfo) (i : ℕ) (o : Option Fields) (st : Lookups)
      → IsSound st
      → Goes st
          (ComponentsOk files eng out opts surfaces o)
          (check_created files eng out opts surfaces i o st)
  unfolding check_created
  check_created-Step surfaces i none st sound = Step-ok _ _ st sound
  check_created-Step surfaces i (some cs) st sound =
      check_components-Step (lookup (str_at "surfaceId" cs) surfaces) _ _ 0
        (or_nil (as_arr (get "components" cs))) st sound

  check_updated-Step :
      (surfaces : GoMap SurfaceInfo) (i : ℕ) (o : Option Fields) (st : Lookups)
      → IsSound st
      → Goes st
          (ComponentsOk files eng out opts surfaces o)
          (check_updated files eng out opts surfaces i o st)
  unfolding check_updated
  check_updated-Step surfaces i none st sound = Step-ok _ _ st sound
  check_updated-Step surfaces i (some uc) st sound =
      check_components-Step (lookup (str_at "surfaceId" uc) surfaces) _ _ 0
        (or_nil (as_arr (get "components" uc))) st sound

  check_call-Step :
      (i : ℕ) (o : Option Fields) (st : Lookups)
      → IsSound st
      → Goes st (CallOk files eng out opts o) (check_call files eng out opts i o st)
  unfolding check_call
  check_call-Step i none st sound = Step-ok _ _ st sound
  check_call-Step i (some cf) st sound =
      let call = obj_of (get "callFunction" cf) in
      let path = message_path i ".callRendererFunction.callFunction" in
      elim (String-cases (str_at "catalogId" call) "") [
        | inl e ↦ rw e (Step-iff _ _ st Unit _ _ (λ h. inl refl, λ h. tt) (Step-ok _ _ st sound))
        | inr (ne, off) ↦ rw ne (
            Step-iff _ _ st _ _ _ (λ h. inr h, λ h. elim h [ inl k ↦ absurd (off k) | inr k ↦ k ])
              (checked-Step (str_at "catalogId" call) _ "common_types.json#/$defs/FunctionCall"
                (obj call) path (λ cat. policy_problems cat call path)
                (MayCall (str_at "call" call)) st (λ cat. policy_problems-nil_iff cat call path)
                sound))
      ]

  check_messages-Step :
      (surfaces : GoMap SurfaceInfo) (i : ℕ) (ms : List Fields) (st : Lookups)
      → IsSound st
      → Goes st
          (All (MessageOk files eng out opts surfaces) ms)
          (check_messages files eng out opts surfaces i ms st)
  unfolding check_messages
  check_messages-Step surfaces i [] st sound = Step-ok _ _ st sound
  check_messages-Step surfaces i (m ∷ ms) st sound =
      let created = as_obj (get "createSurface" m) in
      let updated = as_obj (get "updateComponents" m) in
      let here =
        Step-then _ _ st _ _ _ _
          (Step-then _ _ st _ _ _ _ (check_created-Step surfaces i created st sound)
            (check_updated-Step surfaces i updated))
          (check_call-Step i (as_obj (get "callRendererFunction" m))) in
      Step-then _ _ st _ _ _ _
        (Step-iff _ _ st _ _ _ (λ h. (h.0.0, h.0.1, h.1), λ h. ((h.0, h.1), h.2)) here)
        (check_messages-Step surfaces (suc i) ms)

  -- The pass of v1.0 over the catalogs succeeds without a problem exactly where `ResolveCatalog`
  -- answers for the catalog of every surface that is created, in strict mode with a document, every
  -- component of createSurface and updateComponents meets the catalog that it names or that its
  -- surface was created with in the batch, and every call of a renderer's function meets the catalog
  -- that it names and calls what the agent may call. A component without such a catalog is accepted
  -- unless the batch created its surface without the key catalogId and it has none itself. What
  -- `lookup` keeps of earlier answers changes nothing of this.
  pub validate_against_catalogs-nil_iff :
      (ms : List Fields)
      → (validate_against_catalogs files eng out opts ms ≡ ok []) ↔ CatalogsOk files eng out opts ms
  unfolding validate_against_catalogs
  validate_against_catalogs-nil_iff ms =
      pass-nil_iff _ opts.strict (CatalogsOk files eng out opts ms) _ (
        Step-then _ _ no_lookups _ _ _ _
          (ask_all_created-Step 0 ms no_lookups (no_lookups-Sound _ _))
          (check_messages-Step (created_surfaces ms) 0 ms))
