-- ===== src/V09/Rules/Rounds.antt =====
-- The rounds of the loop of v0.9's `semanticRules`.
use adk_a2ui_go.Common.{
  ℕ, suc, ◌+◌, String, ◌≡◌, refl, ◌↔◌, ◌≢◌, ◌⊎◌, inl, inr, true, false, Option, none, some, List,
  [], ◌∷◌, ◌++◌, GoMap, sym, ap, ◌∙◌, String-cases, Bool-cases, Elem, append-nil_iff, str_elem,
  str_elem_iff,
}
use mathlib.Core.List.{append-nil}
use adk_a2ui_go.Json.{Value, Fields, get, as_obj, as_arr, str_at, obj_of}
use adk_a2ui_go.Kit.Problem.{Problem}
use adk_a2ui_go.Schema.Paths.{message_path}
use adk_a2ui_go.Schema.Rules.{created_by}
use adk_a2ui_go.Schema.Rules.Laws.{used_before_create-nil_iff}
use adk_a2ui_go.V10.Rules.{
  check_id, check_from, check_list, empty_catalog, mark_root, must_not_be_empty, created_twice,
  RuleState, skip, proceed, or_nil, update_rules, surface_rules,
}
use adk_a2ui_go.V10.Rules.Components.{
  id_of, check_id-nil, nil_of_fresh_id, IsFresh, IsFresh-cons, IsFresh-empty, empty_catalog-nil_iff,
}
use adk_a2ui_go.V10.Rules.Spec.{IfPresent, SurfaceOk, option_list, Roots}
use adk_a2ui_go.V10.Rules.Parts.{
  IsNew, IsNew-iff, named-some, empty_id-nil_iff, update_rules-state, surface_rules-nil_iff,
}
use adk_a2ui_go.V09.Rules.{check_ids_from, check_ids, create_v09, update_v09, after_create_v09}
use adk_a2ui_go.V09.Rules.Spec.{IdsOk, CreateOkV09, UpdateOkV09, MessageOkV09}

check_ids_from-nil :
    (base : String) (j : ℕ) (seen : GoMap ℕ) (cs : List Value)
    → (check_ids_from base j seen cs).1 ≡ []
    → IdsOk cs × IsFresh seen cs
unfolding check_ids_from
check_ids_from-nil base j seen [] h = ((tt, tt), tt)
check_ids_from-nil base j seen (c ∷ cs) h =
    let (own, more) = (append-nil_iff _ _).0 h in
    let (named, fresh, same) = check_id-nil base j seen (id_of c) own in
    let ((good, apart), unseen) =
      check_ids_from-nil base (suc j) (check_id base j seen (id_of c)).seen cs more in
    let (unseen', other) = (IsFresh-cons (id_of c) j seen cs).0 (rw same at unseen) in
    (((named, good), (other, apart)), (fresh, unseen'))

nil_of_ids :
    (base : String) (j : ℕ) (seen : GoMap ℕ) (cs : List Value)
    → IdsOk cs
    → IsFresh seen cs
    → (check_ids_from base j seen cs).1 ≡ []
unfolding check_ids_from
nil_of_ids base j seen [] g f = refl
nil_of_ids base j seen (c ∷ cs) ((named, good), (other, apart)) (fresh, unseen) =
    let (own, same) = nil_of_fresh_id base j seen (id_of c) named fresh in
    let later = (IsFresh-cons (id_of c) j seen cs).1 (unseen, other) in
    (append-nil_iff (check_id base j seen (id_of c)).problems
        (check_ids_from base (suc j) (check_id base j seen (id_of c)).seen cs).1).1
      (own, rw same (nil_of_ids base (suc j) ((id_of c, j) ∷ seen) cs (good, apart) later))

check_ids-nil_iff :
    (comps : List Value) (base : String) → ((check_ids comps base).1 ≡ []) ↔ IdsOk comps
unfolding check_ids
check_ids-nil_iff comps base = (
  λ h. (check_ids_from-nil base 0 [] comps h).0,
  λ g. nil_of_ids base 0 [] comps g (IsFresh-empty comps),
)

same_roots_from :
    (base : String) (j : ℕ) (seen : GoMap ℕ) (cs : List Value)
    → (check_ids_from base j seen cs).0 ≡ (check_from base j seen cs).0
unfolding check_ids_from check_from
same_roots_from base j seen [] = refl
same_roots_from base j seen (c ∷ cs) =
    let it = check_id base j seen (str_at "id" (obj_of (some c))) in
    ap (λ (n : ℕ). it.roots + n) (same_roots_from base (suc j) it.seen cs)

-- Both versions count the same roots.
same_roots :
    (comps : List Value) (base : String) → (check_ids comps base).0 ≡ (check_list comps base).0
unfolding check_ids check_list
same_roots comps base = same_roots_from base 0 [] comps

update_v09-state :
    (created : GoMap ℕ) (i : ℕ) (o : Option Fields) (st : RuleState)
    → (update_v09 created i o st).0 ≡ (update_rules created i o st).0
unfolding update_v09 update_rules
update_v09-state created i none st = refl
update_v09-state created i (some uc) st =
    ap (λ n. mark_root n (str_at "surfaceId" uc) st)
      (same_roots (or_nil (as_arr (get "components" uc)))
        (message_path i ".updateComponents.components"))

update_v09-nil_iff :
    (created : GoMap ℕ) (i : ℕ) (o : Option Fields) (st : RuleState)
    → ((update_v09 created i o st).1 ≡ []) ↔ IfPresent (UpdateOkV09 created i) o
unfolding update_v09
update_v09-nil_iff created i none st = (λ h. tt, λ h. refl)
update_v09-nil_iff created i (some uc) st =
    let id =
      empty_id-nil_iff (str_at "surfaceId" uc) (message_path i ".updateComponents.surfaceId") in
    let used = used_before_create-nil_iff created (str_at "surfaceId" uc) i "updateComponents" in
    let list =
      check_ids-nil_iff (or_nil (as_arr (get "components" uc)))
        (message_path i ".updateComponents.components") in
    (
      λ h.
          let (a, r) = (append-nil_iff _ _).0 h in
          let (b, c) = (append-nil_iff _ _).0 r in ((id.0 a, used.0 b), list.0 c),
      λ h. (append-nil_iff _ _).1 (id.1 h.0.0, (append-nil_iff _ _).1 (used.1 h.0.1, list.1 h.1)),
    )

-- The state behind the createSurface part.
noted_v09 : Fields → RuleState → RuleState
noted_v09 cs st = record st {
  seen_create = str_at "surfaceId" cs ∷ st.seen_create;
  created_order = st.created_order ++ str_at "surfaceId" cs ∷ [];
}

own_problems_v09 : ℕ → Fields → List Problem
own_problems_v09 i cs =
    empty_catalog (get "catalogId" cs) (message_path i ".createSurface.catalogId")

-- The createSurface part stops at a problem, or goes on with the surface noted.
create_v09-cases :
    (i : ℕ) (cs : Fields) (st : RuleState)
    → ((ps : List Problem) × (create_v09 i (some cs) st ≡ skip ps)
        × (ps ≢ [])
        × (¬ (CreateOkV09 cs × IsNew (some cs) st)))
      ⊎ ((create_v09 i (some cs) st ≡ proceed (own_problems_v09 i cs) (noted_v09 cs st))
          × (str_at "surfaceId" cs ≢ "")
          × IsNew (some cs) st)
unfolding create_v09 noted_v09 own_problems_v09
create_v09-cases i cs st = elim (String-cases (str_at "surfaceId" cs) "") [
  | inl e ↦ inl (
    must_not_be_empty (message_path i ".createSurface.surfaceId"),
    (rw (e, create_v09) refl),
    (λ h. cc),
    λ h. h.0.0 e,
  )
  | inr n ↦ elim (Bool-cases (str_elem (str_at "surfaceId" cs) st.seen_create)) [
    | inl e ↦ inl (
      created_twice i (str_at "surfaceId" cs) ∷ [],
      (rw (n.0, e, create_v09) refl),
      (λ h. cc),
      λ h. (IsNew-iff cs st n.1).0 h.1 ((str_elem_iff _ _).0 e),
    )
    | inr e ↦ inr (
      (rw (n.0, e, create_v09) refl),
      n.1,
      (IsNew-iff cs st n.1).1 (λ m. cc ((str_elem_iff _ _).1 m)),
    )
  ]
]

-- All that a round finds behind the createSurface part.
later_problems : GoMap ℕ → ℕ → Fields → RuleState → List Problem
later_problems created i m st =
    (update_v09 created i (as_obj (get "updateComponents" m)) st).1
    ++ (surface_rules created i "updateDataModel" true (as_obj (get "updateDataModel" m))
        ++ surface_rules created i "deleteSurface" false (as_obj (get "deleteSurface" m)))

abbrev LaterOk : GoMap ℕ → ℕ → Fields → Type 0
LaterOk created i m =
    IfPresent (UpdateOkV09 created i) (as_obj (get "updateComponents" m))
    × IfPresent (SurfaceOk created i) (as_obj (get "updateDataModel" m))
    × IfPresent (λ o. str_at "surfaceId" o ≢ "") (as_obj (get "deleteSurface" m))

later_problems-nil_iff :
    (created : GoMap ℕ) (i : ℕ) (m : Fields) (st : RuleState)
    → (later_problems created i m st ≡ []) ↔ LaterOk created i m
unfolding later_problems
later_problems-nil_iff created i m st =
    let u = update_v09-nil_iff created i (as_obj (get "updateComponents" m)) st in
    let d = (surface_rules-nil_iff created i (as_obj (get "updateDataModel" m))).0 in
    let x = (surface_rules-nil_iff created i (as_obj (get "deleteSurface" m))).1 in
    (
      λ h.
          let (hu, r) = (append-nil_iff _ _).0 h in
          let (hd, hx) = (append-nil_iff _ _).0 r in (u.0 hu, d.0 hd, x.0 hx),
      λ (hu, hd, hx). (append-nil_iff _ _).1 (u.1 hu, (append-nil_iff _ _).1 (d.1 hd, x.1 hx)),
    )

after-nil_iff :
    (created : GoMap ℕ) (i : ℕ) (m : Fields) (o : Option Fields) (st : RuleState)
    → ((after_create_v09 created i m (create_v09 i o st) st).1 ≡ [])
      ↔ (IfPresent CreateOkV09 o × IsNew o st × LaterOk created i m)
unfolding after_create_v09 create_v09 later_problems own_problems_v09
after-nil_iff created i m none st =
    let l = later_problems-nil_iff created i m st in (λ h. (tt, tt, l.0 h), λ h. l.1 h.2)
after-nil_iff created i m (some cs) st = elim (create_v09-cases i cs st) [
  | inl (ps, e, ne, bad) ↦ rw e (λ h. absurd (ne h), λ h. absurd (bad (h.0, h.1)))
  | inr (e, n, new) ↦
      let own =
        empty_catalog-nil_iff (get "catalogId" cs) (message_path i ".createSurface.catalogId") in
      let l = later_problems-nil_iff created i m (noted_v09 cs st) in
      rw e (
        λ h. (let (a, b) = (append-nil_iff _ _).0 h in ((n, own.0 a), new, l.0 b)),
        λ h. (append-nil_iff _ _).1 (own.1 h.0.1, l.1 h.2),
      )
]

-- What a message does to the state of the loop when it has no fault.
pub record StepsV09 (create update : Option Fields) (st st' : RuleState) : Type 0 where
  pub seen : st'.seen_create ≡ option_list (created_by create) ++ st.seen_create
  pub order : st'.created_order ≡ st.created_order ++ option_list (created_by create)
  pub roots : (s : String) → Elem s st'.has_root ↔ (Roots s update ⊎ Elem s st.has_root)

noted_v09-lists :
    (cs : Fields) (st : RuleState)
    → str_at "surfaceId" cs ≢ ""
    → ((noted_v09 cs st).seen_create ≡ option_list (created_by (some cs)) ++ st.seen_create)
      × ((noted_v09 cs st).created_order ≡ st.created_order ++ option_list (created_by (some cs)))
unfolding noted_v09
noted_v09-lists cs st n = rw (named-some (str_at "surfaceId" cs) n) (refl, refl)

pub after-StepsV09 :
    (created : GoMap ℕ) (i : ℕ) (m : Fields) (o : Option Fields) (st : RuleState)
    → (after_create_v09 created i m (create_v09 i o st) st).1 ≡ []
    → StepsV09 o
        (as_obj (get "updateComponents" m))
        st
        (after_create_v09 created i m (create_v09 i o st) st).0
unfolding after_create_v09 create_v09 noted_v09
after-StepsV09 created i m none st h =
    let u = update_rules-state created i (as_obj (get "updateComponents" m)) st in
    rw (update_v09-state created i (as_obj (get "updateComponents" m)) st) (record {
      seen = (u "").0;
      order = (u "").1 ∙ sym (append-nil st.created_order);
      roots = λ s. (u s).2;
    })
after-StepsV09 created i m (some cs) st h = elim (create_v09-cases i cs st) [
  | inl (ps, e, ne, bad) ↦ absurd (ne (rw e at h))
  | inr (e, n, new) ↦
      let st2 = noted_v09 cs st in
      let u = update_rules-state created i (as_obj (get "updateComponents" m)) st2 in
      let (seen, order) = noted_v09-lists cs st n in
      rw e (
        rw (update_v09-state created i (as_obj (get "updateComponents" m)) st2)
          (record { seen = (u "").0 ∙ seen; order = (u "").1 ∙ order; roots = λ s. (u s).2 }))
]

pub message_v09-nil_iff :
    (created : GoMap ℕ) (i : ℕ) (m : Fields) (st : RuleState)
    → ((after_create_v09 created i m (create_v09 i (as_obj (get "createSurface" m)) st) st).1 ≡ [])
      ↔ (MessageOkV09 created i m × IsNew (as_obj (get "createSurface" m)) st)
message_v09-nil_iff created i m st =
    let a = after-nil_iff created i m (as_obj (get "createSurface" m)) st in
    (
      λ h.
          let (c, new, (u, d, x)) = a.0 h in
          (record { create = c; update = u; data_model = d; delete = x }, new),
      λ (h, new). a.1 (h.create, new, (h.update, h.data_model, h.delete)),
    )
