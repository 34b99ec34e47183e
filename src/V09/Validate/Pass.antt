-- ===== src/V09/Validate/Pass.antt =====
-- v09/validate.go: what the pass over the catalogs accepts, without its variables.
use adk_a2ui_go.Common.{
  ℕ, suc, String, ◌≡◌, refl, ◌↔◌, ◌⊎◌, inl, inr, Bool, Option, none, some, List, [], ◌∷◌, All,
  append-nil_iff, String-cases,
}
use adk_a2ui_go.Json.{Value, Fields, get, as_obj, as_arr, str_at}
use adk_a2ui_go.Kit.Problem.{Problem}
use adk_a2ui_go.Kit.Error.{Result, ok, ◌>>=◌}
use adk_a2ui_go.Kit.Options.{ValidateOptions}
use adk_a2ui_go.Spec.{Embedded, major_v09}
use adk_a2ui_go.Schema.Paths.{message_path, element_path}
use adk_a2ui_go.Schema.Resolve.{resolve_catalog}
use adk_a2ui_go.Schema.Format.Text.{Printer}
use adk_a2ui_go.Schema.Passes.{Lookups, no_lookups, refused}
use adk_a2ui_go.Schema.Passes.Steps.{
  refused-nil_iff, Sound, Step, Step-ok, Step-iff, Step-then, Step-first, Step-add, Step-asked,
  Answers, no_lookups-Sound, pass-nil_iff,
}
use adk_a2ui_go.Schema.Engine.{Schema, Engine}
use adk_a2ui_go.V10.Rules.{or_nil}
use adk_a2ui_go.V09.Validate.{
  Created, created_catalogs, catalog_of_surface, refused_components, lookup_catalog_v09,
  against_v09, check_theme, check_updated, check_one, check_messages, validate_against_catalogs_v09,
}

-- A schema admits every value.
abbrev pub AdmitsAll : List Value → Schema → Type 0
AdmitsAll vs s = All (λ v. s v ≡ none) vs

refused_components-nil_iff :
    (out : Printer) (s : Schema) (base : String) (j : ℕ) (cs : List Value)
    → (refused_components out s base j cs ≡ []) ↔ AdmitsAll cs s
unfolding refused_components
refused_components-nil_iff out s base j [] = (λ h. tt, λ h. refl)
refused_components-nil_iff out s base j (c ∷ cs) =
    let here = refused-nil_iff out c (element_path base j) (s c) in
    let later = refused_components-nil_iff out s base (suc j) cs in
    let both =
      append-nil_iff (refused out c (element_path base j) (s c))
        (refused_components out s base (suc j) cs) in
    (λ h. (let (a, b) = both.0 h in (here.0 a, later.0 b)), λ h. both.1 (here.1 h.0, later.1 h.1))

module _ (files : Embedded) (eng : Engine) (out : Printer) (opts : ValidateOptions)
    (v091 : Bool) where
  abbrev pub resolve_v09 : String → Result (Option Fields)
  resolve_v09 cid = resolve_catalog files major_v09 cid opts

  -- A definition of a catalog compiles and is `P`; a catalog that nobody knows is not checked against.
  abbrev pub Defines : String → (Schema → Type 0) → Option Fields → Type 0
  Defines ref P none = Unit
  Defines ref P (some cat) = (s : Schema) × (eng.compile_ref ref cat v091 ≡ ok s) × P s

  -- `ResolveCatalog` answers for a catalog, with an answer that is allowed, and what it answers
  -- defines `ref` with `P`.
  abbrev pub Meets : String → String → (Schema → Type 0) → Type 0
  Meets cid ref P = Answers resolve_v09 opts.strict cid (Defines ref P)

  abbrev pub ThemeOk : String → Option Value → Type 0
  ThemeOk cid none = Unit
  ThemeOk cid (some theme) = Meets cid "catalog.json#/$defs/theme" (AdmitsAll (theme ∷ []))

  abbrev pub UpdateOk : Created → Option Fields → Type 0
  UpdateOk created none = Unit
  UpdateOk created (some uc) =
      let cid = catalog_of_surface created (str_at "surfaceId" uc) in
      (cid ≡ "")
      ⊎ Meets cid "catalog.json#/$defs/anyComponent"
          (AdmitsAll (or_nil (as_arr (get "components" uc))))

  abbrev pub MessageOk : Created → Option Fields → Option Fields → Type 0
  MessageOk created (some cs) uc = ThemeOk (str_at "catalogId" cs) (get "theme" cs)
  MessageOk created none uc = UpdateOk created uc

  -- Every theme, and every component of a surface that the batch creates, meets its catalog.
  abbrev pub CatalogsOk : Created → List Fields → Type 0
  CatalogsOk created ms =
      All
        (λ m.
          MessageOk created (as_obj (get "createSurface" m)) (as_obj (get "updateComponents" m)))
        ms

  abbrev StepOf : Lookups → Type 0 → Result Lookups → Type 0
  StepOf = Step resolve_v09 opts.strict

  abbrev SoundOf : Lookups → Type 0
  SoundOf = Sound resolve_v09 opts.strict

  against_v09-Step :
      (ref : String) (problems : Schema → List Problem) (P : Schema → Type 0)
      (found : Option Fields) (st : Lookups)
      → ((s : Schema) → (problems s ≡ []) ↔ P s)
      → SoundOf st
      → StepOf st
          (Defines ref P found)
          (against_v09 files eng out opts v091 ref problems (found, st))
  unfolding against_v09
  against_v09-Step ref problems P none st iff sound = Step-ok _ _ st sound
  against_v09-Step ref problems P (some cat) st iff sound =
      Step-first _ _ st P (eng.compile_ref ref cat v091) _
        (λ s. Step-iff _ _ st _ (P s) _ (iff s) (Step-add _ _ (problems s) st sound))

  checked-Step :
      (created : Created) (cid ref : String) (problems : Schema → List Problem)
      (P : Schema → Type 0) (st : Lookups)
      → ((s : Schema) → (problems s ≡ []) ↔ P s)
      → SoundOf st
      → StepOf st (Meets cid ref P) (
          lookup_catalog_v09 files eng out opts v091 created cid st
          >>= against_v09 files eng out opts v091 ref problems)
  unfolding lookup_catalog_v09
  checked-Step created cid ref problems P st iff sound =
      Step-asked resolve_v09 opts.strict cid _ st (Defines ref P)
        (against_v09 files eng out opts v091 ref problems) sound
        (λ found st2 s2. against_v09-Step ref problems P found st2 iff s2)

  check_theme-Step :
      (created : Created) (i : ℕ) (cid : String) (theme : Option Value) (st : Lookups)
      → SoundOf st
      → StepOf st (ThemeOk cid theme) (check_theme files eng out opts v091 created i cid theme st)
  unfolding check_theme
  check_theme-Step created i cid none st sound = Step-ok _ _ st sound
  check_theme-Step created i cid (some theme) st sound =
      checked-Step created cid "catalog.json#/$defs/theme" _ (AdmitsAll (theme ∷ [])) st
        (λ s.
          (let iff = refused-nil_iff out theme (message_path i ".createSurface.theme") (s theme) in
            (λ h. (iff.0 h, tt), λ h. iff.1 h.0)))
        sound

  check_updated-Step :
      (created : Created) (i : ℕ) (uc : Option Fields) (st : Lookups)
      → SoundOf st
      → StepOf st (UpdateOk created uc) (check_updated files eng out opts v091 created i uc st)
  unfolding check_updated
  check_updated-Step created i none st sound = Step-ok _ _ st sound
  check_updated-Step created i (some uc) st sound =
      let cid = catalog_of_surface created (str_at "surfaceId" uc) in
      let comps = or_nil (as_arr (get "components" uc)) in
      elim (String-cases cid "") [
        | inl e ↦ rw e (Step-iff _ _ st Unit _ _ (λ h. inl refl, λ h. tt) (Step-ok _ _ st sound))
        | inr (ne, off) ↦ rw ne (
            Step-iff _ _ st _ _ _ (λ h. inr h, λ h. elim h [ inl e ↦ absurd (off e) | inr k ↦ k ])
              (checked-Step created cid "catalog.json#/$defs/anyComponent" _ (AdmitsAll comps) st
                (λ s.
                  refused_components-nil_iff out s (message_path i ".updateComponents.components") 0
                    comps)
                sound))
      ]

  check_one-Step :
      (created : Created) (i : ℕ) (cs uc : Option Fields) (st : Lookups)
      → SoundOf st
      → StepOf st (MessageOk created cs uc) (check_one files eng out opts v091 created i cs uc st)
  unfolding check_one
  check_one-Step created i (some cs) uc = check_theme-Step created i _ _
  check_one-Step created i none uc = check_updated-Step created i uc

  check_messages-Step :
      (created : Created) (i : ℕ) (ms : List Fields) (st : Lookups)
      → SoundOf st
      → StepOf st (CatalogsOk created ms) (check_messages files eng out opts v091 created i ms st)
  unfolding check_messages
  check_messages-Step created i [] st sound = Step-ok _ _ st sound
  check_messages-Step created i (m ∷ ms) st sound =
      Step-then _ _ st _ (CatalogsOk created ms) _ _
        (check_one-Step created i (as_obj (get "createSurface" m)) _ st sound)
        (check_messages-Step created (suc i) ms)

  -- The pass of v0.9 over the catalogs succeeds without a problem exactly where every theme of a
  -- surface that is created, and every component of an update, in a message that creates no surface,
  -- of a surface that the batch creates with a catalog, meets its catalog: `ResolveCatalog` answers for the catalog's id, in strict mode
  -- with a document, and where there is a document, its definition compiles and admits the value.
  -- What `lookup` keeps of earlier answers changes nothing of this.
  pub validate_against_catalogs_v09-nil_iff :
      (ms : List Fields)
      → (validate_against_catalogs_v09 files eng out opts v091 ms ≡ ok [])
        ↔ CatalogsOk (created_catalogs ms) ms
  unfolding validate_against_catalogs_v09
  validate_against_catalogs_v09-nil_iff ms =
      pass-nil_iff resolve_v09 opts.strict _ _
        (check_messages-Step (created_catalogs ms) 0 ms no_lookups (no_lookups-Sound _ _))
