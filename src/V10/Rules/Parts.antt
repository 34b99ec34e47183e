-- ===== src/V10/Rules/Parts.antt =====
-- What each part of a round of `semanticRules` finds, and what it does to the state of the loop.
use adk_a2ui_go.Common.{
  ℕ, String, ◌≡◌, refl, ◌↔◌, ◌≢◌, ◌⊎◌, inl, inr, true, false, Option, none, some, List, [], ◌∷◌,
  ◌++◌, eq_iff, arith, GoMap, sym, String-cases, Bool-cases, Elem, All, append-nil_iff, str_elem,
  str_elem_iff, ltb,
}
use adk_a2ui_go.Json.{Value, Fields, get, as_arr, str_at, obj_of}
use adk_a2ui_go.Kit.Problem.{Problem}
use adk_a2ui_go.Schema.Paths.{message_path}
use adk_a2ui_go.Schema.Rules.{named, created_by}
use adk_a2ui_go.Schema.Rules.Laws.{used_before_create-nil_iff}
use adk_a2ui_go.V10.Rules.{
  empty_catalog, empty_id, check_list, RuleState, mark_root, must_not_be_empty, created_twice, skip,
  check_optional, proceed, create_surface, or_nil, update_rules, surface_rules, call_rules,
}
use adk_a2ui_go.V10.Rules.Components.{
  ids, check_list-nil_iff, check_list-roots, empty_catalog-nil_iff,
}
use adk_a2ui_go.V10.Rules.Spec.{
  IfPresent, IfList, CatalogOk, CreateOk, SurfaceOk, UpdateOk, CallOk, option_list, Roots,
}

pub empty_id-nil_iff : (id path : String) → (empty_id id path ≡ []) ↔ (id ≢ "")
empty_id-nil_iff id path = elim (String-cases id "") [
  | inl e ↦ rw e (λ h. cc, λ h. absurd (h refl))
  | inr n ↦ rw n.0 (λ h. n.1, λ h. refl)
]

-- A surface that was not created before.
abbrev pub IsNew : Option Fields → RuleState → Type 0
IsNew o st = All (λ s. ¬ Elem s st.seen_create) (option_list (created_by o))

list_roots :
    (s sid : String) (comps : List Value) (base : String) (st : RuleState)
    → Elem s (mark_root (check_list comps base).0 sid st).has_root
      ↔ (((sid ≡ s) × Elem "root" (ids comps)) ⊎ Elem s st.has_root)
list_roots s sid comps base st =
    let (_, one) = check_list-roots comps base in
    elim (Bool-cases (ltb 0 (check_list comps base).0)) [
      | inl e ↦
          let root = one.0 (ground (arith, (check_list-roots comps base).0)) in
          rw e (
            elim [ inl p ↦ inl (sym p, root) | inr k ↦ inr k ],
            elim [ inl p ↦ inl (sym p.0) | inr k ↦ inr k ],
          )
      | inr e ↦
          rw e (inr, elim [ inl p ↦ let counted = one.1 p.1 in absurd (ground arith) | inr k ↦ k ])
    ]

optional_roots :
    (s sid : String) (o : Option (List Value)) (base : String) (st : RuleState)
    → Elem s (mark_root (check_optional o base).0 sid st).has_root
      ↔ (((sid ≡ s) × Elem "root" (ids (or_nil o))) ⊎ Elem s st.has_root)
optional_roots s sid none base st = (inr, elim [ inl p ↦ absurd p.1 | inr k ↦ k ])
optional_roots s sid (some comps) base st = list_roots s sid comps base st

optional-nil_iff :
    (o : Option (List Value)) (base : String) → ((check_optional o base).1 ≡ []) ↔ IfList o
optional-nil_iff none base = (λ h. tt, λ h. refl)
optional-nil_iff (some comps) base = check_list-nil_iff comps base

pub mark_root-seen :
    (n : ℕ) (sid : String) (st : RuleState)
    → ((mark_root n sid st).seen_create ≡ st.seen_create)
      × ((mark_root n sid st).created_order ≡ st.created_order)
mark_root-seen n sid st = ground arith

-- The state behind the createSurface part.
pub noted : ℕ → Fields → RuleState → RuleState
noted i cs st =
    mark_root
      (check_optional (as_arr (get "components" cs)) (message_path i ".createSurface.components")).0
      (str_at "surfaceId" cs)
      (record st {
        seen_create = str_at "surfaceId" cs ∷ st.seen_create;
        created_order = st.created_order ++ str_at "surfaceId" cs ∷ [];
      })

pub named-some : (sid : String) → sid ≢ "" → named sid ≡ some sid
named-some sid n = ground (arith, eq_iff sid "")

pub own_problems : ℕ → Fields → List Problem
own_problems i cs =
    empty_catalog (get "catalogId" cs) (message_path i ".createSurface.catalogId")
    ++ (check_optional (as_arr (get "components" cs))
        (message_path i ".createSurface.components")).1

pub own_problems-nil_iff :
    (i : ℕ) (cs : Fields)
    → (own_problems i cs ≡ []) ↔ (CatalogOk cs × IfList (as_arr (get "components" cs)))
unfolding own_problems
own_problems-nil_iff i cs =
    let c =
      empty_catalog-nil_iff (get "catalogId" cs) (message_path i ".createSurface.catalogId") in
    let l =
      optional-nil_iff (as_arr (get "components" cs))
        (message_path i ".createSurface.components") in
    (
      λ h. let (a, b) = (append-nil_iff _ _).0 h in (c.0 a, l.0 b),
      λ h. (append-nil_iff _ _).1 (c.1 h.0, l.1 h.1),
    )

pub IsNew-iff :
    (cs : Fields) (st : RuleState)
    → str_at "surfaceId" cs ≢ ""
    → IsNew (some cs) st ↔ (¬ Elem (str_at "surfaceId" cs) st.seen_create)
IsNew-iff cs st n = rw (named-some (str_at "surfaceId" cs) n) (λ h. h.0, λ h. (h, tt))

-- The createSurface part stops at a problem, or goes on with the surface noted.
pub create_cases :
    (i : ℕ) (cs : Fields) (st : RuleState)
    → ((ps : List Problem) × (create_surface i cs st ≡ skip ps)
        × (ps ≢ [])
        × (¬ (CreateOk cs × IsNew (some cs) st)))
      ⊎ ((create_surface i cs st ≡ proceed (own_problems i cs) (noted i cs st))
          × (str_at "surfaceId" cs ≢ "")
          × IsNew (some cs) st)
unfolding create_surface noted own_problems
create_cases i cs st = elim (String-cases (str_at "surfaceId" cs) "") [
  | inl e ↦ inl (
    must_not_be_empty (message_path i ".createSurface.surfaceId"),
    (rw (e, create_surface) refl),
    (λ h. cc),
    λ h. h.0.0 e,
  )
  | inr n ↦ elim (Bool-cases (str_elem (str_at "surfaceId" cs) st.seen_create)) [
    | inl e ↦ inl (
      created_twice i (str_at "surfaceId" cs) ∷ [],
      (rw (n.0, e, create_surface) refl),
      (λ h. cc),
      λ h. (IsNew-iff cs st n.1).0 h.1 ((str_elem_iff _ _).0 e),
    )
    | inr e ↦ inr (
      (rw (n.0, e, create_surface) refl),
      n.1,
      (IsNew-iff cs st n.1).1 (λ m. cc ((str_elem_iff _ _).1 m)),
    )
  ]
]

pub noted-Steps :
    (i : ℕ) (cs : Fields) (st : RuleState) (s : String)
    → str_at "surfaceId" cs ≢ ""
    → ((noted i cs st).seen_create ≡ option_list (created_by (some cs)) ++ st.seen_create)
      × ((noted i cs st).created_order ≡ st.created_order ++ option_list (created_by (some cs)))
      × (Elem s (noted i cs st).has_root ↔ (Roots s (some cs) ⊎ Elem s st.has_root))
unfolding noted
noted-Steps i cs st s n =
    let id = str_at "surfaceId" cs in
    let base = message_path i ".createSurface.components" in
    let started : RuleState = record st {
      seen_create = id ∷ st.seen_create;
      created_order = st.created_order ++ id ∷ [];
    } in
    let comps = as_arr (get "components" cs) in
    let same = mark_root-seen (check_optional comps base).0 id started in
    rw (named-some id n) (same.0, same.1, optional_roots s id comps base started)

pub update_rules-nil_iff :
    (created : GoMap ℕ) (i : ℕ) (o : Option Fields) (st : RuleState)
    → ((update_rules created i o st).1 ≡ []) ↔ IfPresent (UpdateOk created i) o
unfolding update_rules
update_rules-nil_iff created i none st = (λ h. tt, λ h. refl)
update_rules-nil_iff created i (some uc) st =
    let id =
      empty_id-nil_iff (str_at "surfaceId" uc) (message_path i ".updateComponents.surfaceId") in
    let used = used_before_create-nil_iff created (str_at "surfaceId" uc) i "updateComponents" in
    let list =
      check_list-nil_iff (or_nil (as_arr (get "components" uc)))
        (message_path i ".updateComponents.components") in
    (
      λ h.
          let (a, r) = (append-nil_iff _ _).0 h in
          let (b, c) = (append-nil_iff _ _).0 r in ((id.0 a, used.0 b), list.0 c),
      λ h. (append-nil_iff _ _).1 (id.1 h.0.0, (append-nil_iff _ _).1 (used.1 h.0.1, list.1 h.1)),
    )

pub update_rules-state :
    (created : GoMap ℕ) (i : ℕ) (o : Option Fields) (st : RuleState) (s : String)
    → ((update_rules created i o st).0.seen_create ≡ st.seen_create)
      × ((update_rules created i o st).0.created_order ≡ st.created_order)
      × (Elem s (update_rules created i o st).0.has_root ↔ (Roots s o ⊎ Elem s st.has_root))
unfolding update_rules
update_rules-state created i none st s = (refl, refl, (inr, elim [ inl f ↦ absurd f | inr k ↦ k ]))
update_rules-state created i (some uc) st s =
    let base = message_path i ".updateComponents.components" in
    let comps = or_nil (as_arr (get "components" uc)) in
    let same = mark_root-seen (check_list comps base).0 (str_at "surfaceId" uc) st in
    (same.0, same.1, list_roots s (str_at "surfaceId" uc) comps base st)

pub surface_rules-nil_iff :
    (created : GoMap ℕ) (i : ℕ) (o : Option Fields)
    → ((surface_rules created i "updateDataModel" true o ≡ []) ↔ IfPresent (SurfaceOk created i) o)
      × ((surface_rules created i "deleteSurface" false o ≡ [])
          ↔ IfPresent (λ o'. str_at "surfaceId" o' ≢ "") o)
unfolding surface_rules
surface_rules-nil_iff created i none = ((λ h. tt, λ h. refl), (λ h. tt, λ h. refl))
surface_rules-nil_iff created i (some o) =
    let id = empty_id-nil_iff (str_at "surfaceId" o) in
    let used = used_before_create-nil_iff created (str_at "surfaceId" o) i "updateDataModel" in
    (
      (
        λ h. let (a, b) = (append-nil_iff _ _).0 h in ((id _).0 a, used.0 b),
        λ h. (append-nil_iff _ _).1 ((id _).1 h.0, used.1 h.1),
      ),
      (λ h. (id _).0 ((append-nil_iff _ _).0 h).0, λ h. (append-nil_iff _ _).1 ((id _).1 h, refl)),
    )

pub call_rules-nil_iff : (i : ℕ) (o : Option Fields) → (call_rules i o ≡ []) ↔ IfPresent CallOk o
unfolding call_rules
call_rules-nil_iff i none = (λ h. tt, λ h. refl)
call_rules-nil_iff i (some cf) =
    empty_catalog-nil_iff (get "catalogId" (obj_of (get "callFunction" cf)))
      (message_path i ".callRendererFunction.callFunction.catalogId")
