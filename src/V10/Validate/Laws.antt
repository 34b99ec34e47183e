-- ===== src/V10/Validate/Laws.antt =====
-- v10/validate.go: when a batch is valid, and how often a catalog is asked for.
use adk_a2ui_go.Common.{
  ℕ, suc, String, ◌≡◌, refl, ◌↔◌, ◌⊎◌, inl, inr, Bool, true, false, ◌&&◌, not, Option, none, some,
  List, [], ◌∷◌, ◌++◌ as append, ◌==◌, eq_iff, eq_refl, if◌then◌else◌, arith, lookup, str_elem, All,
  append-nil_iff, Bool-cases, Option-cases, ap, sym, ◌∙◌,
}
use mathlib.Core.Path.{subst}
use adk_a2ui_go.Json.{Fields, str_at}
use adk_a2ui_go.Kit.Problem.{Problem}
use adk_a2ui_go.Kit.Error.{ok, ◌>>=◌, >>=-eq-ok}
use adk_a2ui_go.Kit.Options.{ValidateOptions}
use adk_a2ui_go.Spec.{Embedded, major_v10}
use adk_a2ui_go.Schema.Finalize.{finalize}
use adk_a2ui_go.Schema.Finalize.Laws.{finalize_bounds}
use adk_a2ui_go.Schema.Resolve.{resolve_catalog}
use adk_a2ui_go.Schema.Format.Text.{Printer}
use adk_a2ui_go.Schema.Format.Plan.{Refusal}
use adk_a2ui_go.Schema.Engine.{Schema, Engine, to_instance}
use adk_a2ui_go.V10.Rules.{semantic_rules}
use adk_a2ui_go.V10.Rules.Spec.{BatchOk}
use adk_a2ui_go.V10.Rules.Laws.{semantic_rules-nil_iff}
use adk_a2ui_go.Schema.Passes.{Lookups, note_answer, verdict}
use adk_a2ui_go.V10.Validate.{
  lookup_catalog, validate_against_catalogs, version_problems, after_envelope, validate,
}

-- The version is not pinned, or it is the one that the message has.
abbrev pub Pins : String → String → Type 0
Pins version got = (version ≡ "") ⊎ (got ≡ version)

pinned_iff :
    (version got : String)
    → ((not (version == "") && not (got == version)) ≡ false) ↔ Pins version got
pinned_iff version got = ground (arith, eq_iff version "", eq_iff got version)

abbrev pub Supported : String → Type 0
Supported version = (version ≡ "") ⊎ (version ≡ "v1.0")

Supported-iff :
    (version : String)
    → ((not (version == "") && not (version == "v1.0")) ≡ false) ↔ Supported version
Supported-iff version = ground (arith, eq_iff version "", eq_iff version "v1.0")

list_cases : (ps : List Problem) → (ps ≡ []) ⊎ ((p : Problem) × (qs : List Problem) × (ps ≡ p ∷ qs))
list_cases [] = inl refl
list_cases (p ∷ qs) = inr (p, qs, refl)

-- A `verdict` on a list that was finalized is nil exactly for no problem.
pub verdict-finalize : (ps : List Problem) → (verdict (finalize ps) ≡ ok tt) ↔ (ps ≡ [])
unfolding verdict
verdict-finalize ps =
    let (_, nil) = finalize_bounds ps in
    elim (list_cases (finalize ps)) [
      | inl e ↦ rw e (λ h. nil.0 e, λ h. refl)
      | inr (p, qs, e) ↦ rw e (λ h. cc, λ h. (let k : finalize ps ≡ [] = nil.1 h in cc))
    ]

module _ (files : Embedded) (eng : Engine) (out : Printer) (opts : ValidateOptions) where
  -- The answer to a catalog's id is known.
  abbrev Knows : String → Option Fields → Lookups → Type 0
  Knows cid (some c) st = lookup cid st.resolved ≡ some c
  Knows cid none st = (lookup cid st.resolved ≡ none) × (str_elem cid st.missing ≡ true)

  lookup_catalog-Knows :
      (cid path : String) (st : Lookups) (answer : Option Fields)
      → Knows cid answer st
      → lookup_catalog files eng out opts cid path st ≡ ok (answer, st)
  unfolding lookup_catalog
  lookup_catalog-Knows cid path st (some c) h = rw h refl
  lookup_catalog-Knows cid path st none h = rw h.0 (rw h.1 refl)

  abbrev KnowsPair : String → Option Fields × Lookups → Type 0
  KnowsPair cid r = Knows cid r.0 r.1

  note_answer-Knows :
      (cid path : String) (strict : Bool) (st : Lookups) (found : Option Fields)
      → lookup cid st.resolved ≡ none
      → (note_answer cid path strict st found).0 ≡ found
        × Knows cid found (note_answer cid path strict st found).1
  unfolding note_answer lookup str_elem
  note_answer-Knows cid path strict st (some c) h = (refl, rw (eq_refl cid) refl)
  note_answer-Knows cid path true st none h = (refl, (h, rw (eq_refl cid) refl))
  note_answer-Knows cid path false st none h = (refl, (h, rw (eq_refl cid) refl))

  lookup_catalog-answer_Knows :
      (cid path : String) (st st2 : Lookups) (answer : Option Fields)
      → lookup_catalog files eng out opts cid path st ≡ ok (answer, st2)
      → Knows cid answer st2
  unfolding lookup_catalog
  lookup_catalog-answer_Knows cid path st st2 answer h =
      elim (Option-cases (lookup cid st.resolved)) [
        | inl n ↦
            let asked : (if str_elem cid st.missing
                  then ok (none, st)
                  else resolve_catalog files major_v10 cid opts >>= λ found.
                      ok (note_answer cid path opts.strict st found))
                ≡ ok (answer, st2) =
              rw n at h in
            elim (Bool-cases (str_elem cid st.missing)) [
              | inl m ↦
                  let same : ok (none, st) ≡ ok (answer, st2) = rw m at asked in
                  let pair : KnowsPair cid (none, st) = (n, m) in
                  let to : (none, st) ≡ (answer, st2) = cc same in subst (KnowsPair cid) to pair
              | inr m ↦
                  let (found, _, e) =
                    >>=-eq-ok (resolve_catalog files major_v10 cid opts)
                      (λ found. ok (note_answer cid path opts.strict st found)) (rw m at asked) in
                  let (a, b) = note_answer-Knows cid path opts.strict st found n in
                  let same : note_answer cid path opts.strict st found ≡ (answer, st2) = cc e in
                  subst (KnowsPair cid) same (
                    subst (λ o. Knows cid o (note_answer cid path opts.strict st found).1) (sym a)
                      b)
            ]
        | inr (c, e) ↦
            let same : ok (some c, st) ≡ ok (answer, st2) = rw e at h in
            let to : (some c, st) ≡ (answer, st2) = cc same in subst (KnowsPair cid) to e
      ]

  -- Once the agent has looked a catalog up, looking it up again gives the same answer and changes
  -- nothing, from whatever place: a strict miss is reported once, where it is met first.
  pub lookup_catalog-again :
      (cid path path2 : String) (st st2 : Lookups) (answer : Option Fields)
      → lookup_catalog files eng out opts cid path st ≡ ok (answer, st2)
      → lookup_catalog files eng out opts cid path2 st2 ≡ ok (answer, st2)
  lookup_catalog-again cid path path2 st st2 answer h =
      lookup_catalog-Knows cid path2 st2 answer
        (lookup_catalog-answer_Knows cid path st st2 answer h)

  version_problems-nil_iff :
      (i : ℕ) (ms : List Fields)
      → (version_problems files eng out opts i ms ≡ [])
        ↔ All (λ m. Pins opts.version (str_at "version" m)) ms
  unfolding version_problems
  version_problems-nil_iff i [] = (λ h. tt, λ h. refl)
  version_problems-nil_iff i (m ∷ ms) =
      let rest = version_problems-nil_iff (suc i) ms in
      let here = pinned_iff opts.version (str_at "version" m) in
      elim (Bool-cases (not (opts.version == "") && not (str_at "version" m == opts.version))) [
        | inl e ↦ rw e (λ h. cc, λ h. (let k : true ≡ false = sym e ∙ here.1 h.0 in cc))
        | inr e ↦ rw e (λ h. (here.0 e, rest.0 h), λ h. rest.1 h.1)
      ]

  after_envelope-ok_iff :
      (ms : List Fields) (problems : List Problem) (r : Option Refusal)
      → (after_envelope files eng out opts ms problems r ≡ ok tt) ↔ (
          (problems ≡ [])
          × (r ≡ none)
          × (validate_against_catalogs files eng out opts ms ≡ ok [])
          × (semantic_rules ms ≡ []))
  unfolding after_envelope
  after_envelope-ok_iff ms problems (some r) = (λ h. cc, λ h. cc h.1)
  after_envelope-ok_iff ms problems none = (
    λ h.
        let (found, e, v) = >>=-eq-ok (validate_against_catalogs files eng out opts ms) _ h in
        let all = (verdict-finalize (append (append problems found) (semantic_rules ms))).0 v in
        let (front, rules) = (append-nil_iff (append problems found) (semantic_rules ms)).0 all in
        let (before, none_found) = (append-nil_iff problems found).0 front in
        (before, refl, e ∙ ap ok none_found, rules),
    λ (before, _, e, rules). rw e (
        (verdict-finalize (append (append problems []) (semantic_rules ms))).1
          (rw before (rw rules refl))),
  )

  -- `Validate` of v1.0 accepts a batch exactly where the pinned version is v1.0 or none and every
  -- message has it, the schema of the batch compiles and admits it, the pass over the catalogs
  -- succeeds without a problem, and the batch obeys the prose rules.
  pub validate-ok_iff :
      (ms : List Fields)
      → (validate files eng out opts ms ≡ ok tt) ↔ (
          Supported opts.version
          × All (λ m. Pins opts.version (str_at "version" m)) ms
          × ((envelope : Schema) × (eng.compile "agent_to_renderer_list.json" false ≡ ok envelope)
              × (envelope (to_instance ms) ≡ none))
          × (validate_against_catalogs files eng out opts ms ≡ ok [])
          × BatchOk ms)
  unfolding validate
  validate-ok_iff ms =
      let guard = Supported-iff opts.version in
      let envelope_iff = after_envelope-ok_iff ms (version_problems files eng out opts 0 ms) in
      elim (Bool-cases (not (opts.version == "") && not (opts.version == "v1.0"))) [
        | inl e ↦ rw e (λ h. cc, λ h. (let k : true ≡ false = sym e ∙ guard.1 h.0 in cc))
        | inr e ↦ rw e (
          λ h.
              let (s, c, v) = >>=-eq-ok (eng.compile "agent_to_renderer_list.json" false) _ h in
              let (pinned, admitted, found, rules) = (envelope_iff (s (to_instance ms))).0 v in
              (
                guard.0 e,
                (version_problems-nil_iff 0 ms).0 pinned,
                (s, c, admitted),
                found,
                (semantic_rules-nil_iff ms).0 rules,
              ),
          λ (_, pinned, (s, c, admitted), found, batch). rw c (
              (envelope_iff (s (to_instance ms))).1 (
                (version_problems-nil_iff 0 ms).1 pinned,
                admitted,
                found,
                (semantic_rules-nil_iff ms).1 batch,
              )),
        )
      ]
