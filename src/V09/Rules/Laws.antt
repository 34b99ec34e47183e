-- ===== src/V09/Rules/Laws.antt =====
-- The components of a list under v0.9 and under v1.0.
use adk_a2ui_go.Common.{
  ℕ, suc, ◌+◌, String, ◌≡◌, refl, false, Option, none, some, List, [], ◌∷◌, ◌++◌ as append, GoMap,
  All, ap, sym, if◌then◌else◌, ◌==◌, ◌↔◌, inl, inr, Bool-cases, append-nil_iff, str_elem,
}
use adk_a2ui_go.Json.{as_obj, as_arr, Value, Fields, get, str_at, obj_of, is_empty_str}
use adk_a2ui_go.Kit.Problem.{Problem}
use adk_a2ui_go.Schema.Paths.{message_path}
use adk_a2ui_go.Schema.Rules.{first_create_index}
use adk_a2ui_go.V10.Rules.{
  check_id, check_from, check_list, empty_catalog, must_not_be_empty, created_twice, RuleState,
  no_state, Flow, skip, proceed, or_nil, create_rules, create_surface, update_rules, surface_rules,
  call_rules, after_create, message_rules, rules_from, missing_roots, semantic_rules,
}
use adk_a2ui_go.V10.Rules.Spec.{BatchOk}
use adk_a2ui_go.V10.Rules.Laws.{semantic_rules-nil_iff}
use adk_a2ui_go.V09.Rules.{
  check_ids_from, check_ids, create_v09, update_v09, after_create_v09, rules_from_v09,
  missing_roots_v09, semantic_rules_v09,
}

-- The component does not have an empty catalogId.
abbrev pub NoEmptyCatalog : Value → Type 0
NoEmptyCatalog c = is_empty_str (get "catalogId" (obj_of (some c))) ≡ false

check_ids_from-check_from :
    (base : String) (j : ℕ) (seen : GoMap ℕ) (cs : List Value)
    → All NoEmptyCatalog cs
    → check_ids_from base j seen cs ≡ check_from base j seen cs
unfolding check_ids_from check_from
check_ids_from-check_from base j seen [] h = refl
check_ids_from-check_from base j seen (c ∷ cs) h =
    let it = check_id base j seen (str_at "id" (obj_of (some c))) in
    rw h.0 (
      ap (λ r. (it.roots + r.0, append it.problems r.1))
        (check_ids_from-check_from base (suc j) it.seen cs h.1))

-- On a list whose components have no empty catalogId, v0.9 and v1.0 count the same roots and find
-- the same problems.
pub check_ids-check_list :
    (cs : List Value) (base : String)
    → All NoEmptyCatalog cs
    → check_ids cs base ≡ check_list cs base
unfolding check_ids check_list
check_ids-check_list cs base h = check_ids_from-check_from base 0 [] cs h

append_nil : (xs : List Problem) → append xs [] ≡ xs
append_nil [] = refl
append_nil (x ∷ xs) = ap (λ l. x ∷ l) (append_nil xs)

-- What the schema of v0.9 leaves out: components in createSurface, and calls; and no component has an
-- empty catalogId.
abbrev pub NoComponents : Option Fields → Type 0
NoComponents none = Unit
NoComponents (some cs) = as_arr (get "components" cs) ≡ none

abbrev pub UpdatesOwn : Option Fields → Type 0
UpdatesOwn none = Unit
UpdatesOwn (some uc) = All NoEmptyCatalog (or_nil (as_arr (get "components" uc)))

pub record OfV09 (m : Fields) : Type 0 where
  pub create : NoComponents (as_obj (get "createSurface" m))
  pub update : UpdatesOwn (as_obj (get "updateComponents" m))
  pub call : as_obj (get "callRendererFunction" m) ≡ none

create_v09_same :
    (i : ℕ) (o : Option Fields) (st : RuleState)
    → NoComponents o
    → create_v09 i o st ≡ create_rules i o st
unfolding create_v09 create_rules create_surface
create_v09_same i none st h = refl
create_v09_same i (some cs) st h = rw h (
    ap
      (λ l.
        (if str_at "surfaceId" cs == ""
          then skip (must_not_be_empty (message_path i ".createSurface.surfaceId"))
          else if str_elem (str_at "surfaceId" cs) st.seen_create
          then skip (created_twice i (str_at "surfaceId" cs) ∷ [])
          else proceed l (record st {
            seen_create = str_at "surfaceId" cs ∷ st.seen_create;
            created_order = append st.created_order (str_at "surfaceId" cs ∷ []);
          })))
      (sym (
        append_nil
          (empty_catalog (get "catalogId" cs) (message_path i ".createSurface.catalogId")))))

update_v09_same :
    (created : GoMap ℕ) (i : ℕ) (o : Option Fields) (st : RuleState)
    → UpdatesOwn o
    → update_v09 created i o st ≡ update_rules created i o st
unfolding update_v09 update_rules
update_v09_same created i none st h = refl
update_v09_same created i (some uc) st h =
    rw
      (check_ids-check_list (or_nil (as_arr (get "components" uc)))
        (message_path i ".updateComponents.components") h)
      refl

after_create_v09_same :
    (created : GoMap ℕ) (i : ℕ) (m : Fields) (f : Flow) (st : RuleState)
    → OfV09 m
    → after_create_v09 created i m f st ≡ after_create created i m f st
unfolding after_create_v09 after_create call_rules
after_create_v09_same created i m (skip ps) st h = refl
after_create_v09_same created i m (proceed ps st') st h =
    rw
      (
        update_v09_same created i (as_obj (get "updateComponents" m)) st' h.update,
        h.call,
        append_nil (surface_rules created i "deleteSurface" false (as_obj (get "deleteSurface" m))),
      )
      refl

rules_from_v09_same :
    (created : GoMap ℕ) (i : ℕ) (st : RuleState) (ms : List Fields)
    → All OfV09 ms
    → rules_from_v09 created i st ms ≡ rules_from created i st ms
unfolding rules_from_v09 rules_from message_rules
rules_from_v09_same created i st [] h = refl
rules_from_v09_same created i st (m ∷ ms) h =
    let r = message_rules created i m st in
    rw
      (
        create_v09_same i (as_obj (get "createSurface" m)) st h.0.create,
        after_create_v09_same created i m (create_rules i (as_obj (get "createSurface" m)) st) st
            h.0,
      )
      (ap (λ q. (q.0, append r.1 q.1)) (rules_from_v09_same created (suc i) r.0 ms h.1))

missing_roots_v09_iff :
    (created : GoMap ℕ) (has_root sids : List String)
    → (missing_roots_v09 created has_root sids ≡ []) ↔ (missing_roots created has_root sids ≡ [])
unfolding missing_roots_v09 missing_roots
missing_roots_v09_iff created has_root [] = (λ h. refl, λ h. refl)
missing_roots_v09_iff created has_root (sid ∷ sids) = elim (Bool-cases (str_elem sid has_root)) [
  | inl e ↦ rw e (missing_roots_v09_iff created has_root sids)
  | inr e ↦ rw e (λ h. cc, λ h. cc)
]

-- On a batch of v0.9's shape (no components in createSurface, no calls, no component with an empty
-- catalogId) `semanticRules` of v0.9 finds no problem exactly where the batch obeys the prose rules.
pub semantic_rules_v09-nil_iff :
    (ms : List Fields) → All OfV09 ms → (semantic_rules_v09 ms ≡ []) ↔ BatchOk ms
unfolding semantic_rules_v09 semantic_rules
semantic_rules_v09-nil_iff ms h =
    let created = first_create_index ms in
    let r = rules_from created 0 no_state ms in
    let roots = missing_roots_v09_iff created r.0.has_root r.0.created_order in
    let both = append-nil_iff r.1 (missing_roots created r.0.has_root r.0.created_order) in
    let both_v09 = append-nil_iff r.1 (missing_roots_v09 created r.0.has_root r.0.created_order) in
    let later = semantic_rules-nil_iff ms in
    rw (rules_from_v09_same created 0 no_state ms h) (
      λ e. later.0 (both.1 ((both_v09.0 e).0, roots.0 (both_v09.0 e).1)),
      λ b. (let e = both.0 (later.1 b) in both_v09.1 (e.0, roots.1 e.1)),
    )
