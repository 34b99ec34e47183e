-- ===== src/Toolkit/Tools/Laws/Documents.antt =====
-- internal/toolkit/tools.go: the documents that the catalog tool returns.
use adk_a2ui_go.Common.{
  String, ◌≡◌, refl, ◌↔◌, ◌≢◌, ◌⊎◌, inl, inr, Option, none, some, List, [], ◌∷◌, ◌++◌ as append,
  eq_refl, lookup, lookup-nil, Elem, IsDistinct, Elem-append, String-cases, sym, ◌∙◌,
}
use mathlib.Core.Path.{subst}
use adk_a2ui_go.Json.{Fields}
use adk_a2ui_go.Kit.Error.{Result, ok, err, ◌>>=◌, >>=-eq-ok}
use adk_a2ui_go.Kit.Capabilities.{VersionParams}
use adk_a2ui_go.Kit.Options.{ValidateOptions, ToolOptions}
use adk_a2ui_go.Spec.{Embedded}
use adk_a2ui_go.Schema.Resolve.{resolve_catalog, catalog_instructions}
use adk_a2ui_go.Toolkit.Types.{ToolSpec, CatalogToolOutput}
use adk_a2ui_go.Toolkit.Tools.{
  client_ids, Described, options_for, or_config_err, add_instructions, note_catalog, describe_ids,
  catalog_output,
}
use adk_a2ui_go.Toolkit.Tools.Laws.{ok_inj}
use adk_a2ui_go.Toolkit.Tools.Laws.Ids.{Names, client_ids_iff}

or_config_err-ok : {A : Type 0} (r : Result A) (a : A) → or_config_err r ≡ ok a → r ≡ ok a
unfolding or_config_err
or_config_err-ok (err e) a h = cc
or_config_err-ok (ok b) a h = h

module _ (files : Embedded) (marshal : Fields → Result String) (s : ToolSpec)
    (vopts : ValidateOptions) where
  -- The document of an id is returned, or the id is unresolved.
  abbrev pub Document : String → Option String → List String → Type 0
  Document id found unresolved =
      ((cat : Fields) × (text : String) × (resolve_catalog files s.major id vopts ≡ ok (some cat))
        × (marshal cat ≡ ok text)
        × (found ≡ some text)
        × ¬ Elem id unresolved)
      ⊎ ((resolve_catalog files s.major id vopts ≡ ok none) × (found ≡ none) × Elem id unresolved)

  abbrev DocumentIn : String → Described → Type 0
  DocumentIn id st = Document id (lookup id st.catalogs) st.unresolved

  -- Nothing was noted about an id.
  abbrev Unnoted : String → Described → Type 0
  Unnoted id st = (lookup id st.catalogs ≡ none) × ¬ Elem id st.unresolved

  -- Two states say the same about an id.
  abbrev SameAt : String → Described → Described → Type 0
  SameAt k st st2 =
      (lookup k st2.catalogs ≡ lookup k st.catalogs)
      × (Elem k st2.unresolved ↔ Elem k st.unresolved)

  SameAt-Unnoted :
      (k : String) (st st2 : Described) → SameAt k st st2 → Unnoted k st → Unnoted k st2
  SameAt-Unnoted k st st2 (a, b) (u, v) = (a ∙ u, λ m. v (b.0 m))

  SameAt-DocumentIn :
      (k : String) (st st2 : Described) → SameAt k st st2 → DocumentIn k st → DocumentIn k st2
  SameAt-DocumentIn k st st2 (a, b) (inl (cat, text, r, m, f, n)) =
      inl (cat, text, r, m, a ∙ f, λ e. n (b.0 e))
  SameAt-DocumentIn k st st2 (a, b) (inr (r, f, n)) = inr (r, a ∙ f, b.1 n)

  SameAt-trans :
      (k : String) (st st2 st3 : Described) → SameAt k st st2 → SameAt k st2 st3 → SameAt k st st3
  SameAt-trans k st st2 st3 (a, b) (c, d) = (c ∙ a, (λ m. b.0 (d.0 m), λ m. d.1 (b.1 m)))

  elsewhere :
      (k id : String) (ids : List String) → k ≢ id → Elem k (append ids (id ∷ [])) ↔ Elem k ids
  elsewhere k id ids off = (
    λ m. elim ((Elem-append k ids (id ∷ [])).0 m) [
      | inl n ↦ n
      | inr n ↦ elim n [ inl e ↦ absurd (off e) | inr z ↦ absurd z ]
    ],
    λ m. (Elem-append k ids (id ∷ [])).1 (inl m),
  )

  -- One round: the id is documented, and nothing is said of another id.
  abbrev Round : String → Described → Described → Type 0
  Round id st st2 = DocumentIn id st2 × ((k : String) → k ≢ id → SameAt k st st2)

  unresolved-Round :
      (id : String) (st : Described)
      → resolve_catalog files s.major id vopts ≡ ok none
      → Unnoted id st
      → Round id st (record st { unresolved = append st.unresolved (id ∷ []) })
  unresolved-Round id st r (u, v) = (
    inr (r, u, (Elem-append id st.unresolved (id ∷ [])).1 (inr (inl refl))),
    λ k off. (refl, elsewhere k id st.unresolved off),
  )

  resolved-Round :
      (id text : String) (cat : Fields) (instructions : List String) (st : Described)
      → resolve_catalog files s.major id vopts ≡ ok (some cat)
      → marshal cat ≡ ok text
      → Unnoted id st
      → Round id st (record st { catalogs = (id, text) ∷ st.catalogs; instructions = instructions })
  unfolding lookup
  resolved-Round id text cat instructions st r m (u, v) = (
    inl (cat, text, r, m, (rw (eq_refl id) refl), v),
    λ k off. elim (String-cases id k) [
      | inl e ↦ absurd (off (sym e))
      | inr (ne, _) ↦ rw ne (refl, (λ n. n, λ n. n))
    ],
  )

  note_catalog-Round :
      (id : String) (st st2 : Described) (found : Option Fields)
      → resolve_catalog files s.major id vopts ≡ ok found
      → Unnoted id st
      → note_catalog files marshal s id st found ≡ ok st2
      → Round id st st2
  unfolding note_catalog
  note_catalog-Round id st st2 none r u h =
      subst (Round id st) (ok_inj h) (unresolved-Round id st r u)
  note_catalog-Round id st st2 (some cat) r u h =
      let (text, m, g) = >>=-eq-ok (or_config_err (marshal cat)) _ h in
      let same = ok_inj g in
      subst (Round id st) same (
        resolved-Round id text cat
          (add_instructions (catalog_instructions files s.major cat) st.instructions) st r
          (or_config_err-ok (marshal cat) text m) u)

  -- The whole loop.
  describe_ids-DocumentIn :
      (ids : List String) (st st2 : Described)
      → IsDistinct ids
      → ((k : String) → Elem k ids → Unnoted k st)
      → describe_ids files marshal s vopts ids st ≡ ok st2
      → ((k : String) → Elem k ids → DocumentIn k st2)
        × ((k : String) → ¬ Elem k ids → SameAt k st st2)
  unfolding describe_ids
  describe_ids-DocumentIn [] st st2 d u h =
      let same : st ≡ st2 = cc h in (λ k m. absurd m, λ k m. rw (← same) (refl, (λ n. n, λ n. n)))
  describe_ids-DocumentIn (id ∷ ids) st st2 d u h =
      let (mid, a, g) =
        >>=-eq-ok
          (or_config_err (resolve_catalog files s.major id vopts)
            >>= note_catalog files marshal s id st)
          (describe_ids files marshal s vopts ids) h in
      let (found, r, n) = >>=-eq-ok (or_config_err (resolve_catalog files s.major id vopts)) _ a in
      let (here, others) =
        note_catalog-Round id st mid found (or_config_err-ok _ found r) (u id (inl refl)) n in
      let apart : (k : String) → Elem k ids → k ≢ id = λ k m e. d.0 (rw (← e) m) in
      let (later, rest) =
        describe_ids-DocumentIn ids mid st2 d.1
          (λ k m. SameAt-Unnoted k st mid (others k (apart k m)) (u k (inr m))) g in
      (
        λ k m. elim m [
          | inl e ↦ rw e (SameAt-DocumentIn id mid st2 (rest id d.0) here)
          | inr m2 ↦ later k m2
        ],
        λ k m. SameAt-trans k st mid st2 (others k (λ e. m (inl e))) (rest k (λ n2. m (inr n2))),
      )

module _ (files : Embedded) (marshal : Fields → Result String) (s : ToolSpec)
    (params : VersionParams) (opts : ToolOptions) where
  abbrev pub IsComplete : CatalogToolOutput → Type 0
  IsComplete out =
      IsDistinct out.catalog_ids
      × ((k : String) → Elem k out.catalog_ids ↔ ((k ≢ "") × Names params k))
      × ((k : String)
          → Elem k out.catalog_ids
          → Document files marshal s (options_for params opts) k (lookup k out.catalogs)
              out.unresolved)

  -- Where the catalog tool succeeds, it lists each id that the client names once, and every id that it
  -- lists has either its document, the encoding of the catalog that `ResolveCatalog` answers, and is
  -- not unresolved, or has none, is unresolved, and `ResolveCatalog` knows no such catalog.
  pub catalog_output-IsComplete :
      (out : CatalogToolOutput)
      → catalog_output files marshal s params opts ≡ ok out
      → IsComplete out
  unfolding catalog_output
  catalog_output-IsComplete out h =
      let (st, a, g) =
        >>=-eq-ok
          (describe_ids files marshal s (options_for params opts) (client_ids params)
            (record { catalogs = []; unresolved = []; instructions = [] }))
          _ h in
      let (distinct, members) = client_ids_iff params in
      let documents =
        describe_ids-DocumentIn files marshal s (options_for params opts) (client_ids params) _ st
          distinct (λ k m. (lookup-nil k, λ z. z)) a in
      let same = ok_inj g in subst IsComplete same (distinct, members, documents.0)
