-- ===== src/V09/Rules.antt =====
-- v09/rules.go: what the specification of v0.9 states in prose. The loops are those of v1.0, less its
-- components in createSurface, its catalogs of components and its calls.
pub mod Spec
pub mod Rounds
pub mod Exact
pub mod Laws
use Prim.Native.String.{◌++◌}
use adk_a2ui_go.Common.{
  ℕ, zero, suc, ◌+◌, String, Bool, true, false, Option, none, some, List, [], ◌∷◌, ◌++◌ as append,
  ◌==◌, if◌then◌else◌, GoMap, lookup, str_elem,
}
use adk_a2ui_go.Common.Text.{quote}
use adk_a2ui_go.Json.{Value, Fields, get, as_obj, as_arr, str_at, obj_of}
use adk_a2ui_go.Kit.Problem.{Problem, problem}
use adk_a2ui_go.Schema.Paths.{message_path}
use adk_a2ui_go.Schema.Rules.{first_create_index, used_before_create}
use adk_a2ui_go.V10.Rules.{
  must_not_be_empty, empty_id, empty_catalog, check_id, RuleState, no_state, mark_root, Flow, skip,
  proceed, created_twice, or_nil, surface_rules, index_of,
}

check_ids_from : String → ℕ → GoMap ℕ → List Value → ℕ × List Problem
check_ids_from base j seen [] = (0, [])
check_ids_from base j seen (c ∷ cs) =
    let it = check_id base j seen (str_at "id" (obj_of (some c))) in
    let (roots, problems) = check_ids_from base (suc j) it.seen cs in
    (it.roots + roots, append it.problems problems)

-- The loop over the components of `updateComponents`: the number of roots, and the problems.
unfoldable pub check_ids : List Value → String → ℕ × List Problem
unfolding check_ids_from
check_ids comps base = check_ids_from base 0 [] comps

pub create_v09 : ℕ → Option Fields → RuleState → Flow
create_v09 i none st = proceed [] st
create_v09 i (some cs) st =
    let sid = str_at "surfaceId" cs in
    let noted = record st {
      seen_create = sid ∷ st.seen_create;
      created_order = append st.created_order (sid ∷ []);
    } in
    if sid == ""
    then skip (must_not_be_empty (message_path i ".createSurface.surfaceId"))
    else if str_elem sid st.seen_create
    then skip (created_twice i sid ∷ [])
    else proceed (empty_catalog (get "catalogId" cs) (message_path i ".createSurface.catalogId"))
        noted

pub update_v09 : GoMap ℕ → ℕ → Option Fields → RuleState → RuleState × List Problem
update_v09 created i none st = (st, [])
update_v09 created i (some uc) st =
    let sid = str_at "surfaceId" uc in
    let (roots, problems) =
      check_ids (or_nil (as_arr (get "components" uc)))
        (message_path i ".updateComponents.components") in
    (
      mark_root roots sid st,
      append (empty_id sid (message_path i ".updateComponents.surfaceId"))
          (append (used_before_create created sid i "updateComponents") problems),
    )

pub after_create_v09 : GoMap ℕ → ℕ → Fields → Flow → RuleState → RuleState × List Problem
after_create_v09 created i m (skip problems) st = (st, problems)
after_create_v09 created i m (proceed problems st') st =
    let (st'', updates) = update_v09 created i (as_obj (get "updateComponents" m)) st' in
    (
      st'',
      append problems (
          append updates (
            append
              (surface_rules created i "updateDataModel" true (as_obj (get "updateDataModel" m)))
              (surface_rules created i "deleteSurface" false (as_obj (get "deleteSurface" m))))),
    )

pub rules_from_v09 : GoMap ℕ → ℕ → RuleState → List Fields → RuleState × List Problem
rules_from_v09 created i st [] = (st, [])
rules_from_v09 created i st (m ∷ ms) =
    let (st', problems) =
      after_create_v09 created i m (create_v09 i (as_obj (get "createSurface" m)) st) st in
    let (final, more) = rules_from_v09 created (suc i) st' ms in (final, append problems more)

pub missing_roots_v09 : GoMap ℕ → List String → List String → List Problem
missing_roots_v09 created has_root [] = []
missing_roots_v09 created has_root (sid ∷ sids) =
    append
      (if str_elem sid has_root
        then []
        else problem (message_path (index_of created sid) ".createSurface") (
            "surface "
            ++ (quote sid
                ++ " has no component with id \"root\" in any updateComponents of this batch"))
          ∷ [])
      (missing_roots_v09 created has_root sids)

-- `semanticRules` of v0.9
unfoldable pub semantic_rules_v09 : List Fields → List Problem
unfolding rules_from_v09 after_create_v09 create_v09 update_v09 missing_roots_v09
semantic_rules_v09 ms =
    let created = first_create_index ms in
    let (st, problems) = rules_from_v09 created 0 no_state ms in
    append problems (missing_roots_v09 created st.has_root st.created_order)
