-- ===== src/V10/Rules.antt =====
-- v10/rules.go: what the specification of v1.0 states in prose. A Go loop that appends to `out` is
-- a recursion that returns what it appends; `continue` is the constructor `skip`.
pub mod Components
pub mod Spec
pub mod Parts
pub mod Rounds
pub mod Laws
use Prim.Native.String.{◌++◌}
use adk_a2ui_go.Common.{
  ℕ, suc, ◌+◌, String, Bool, true, false, Option, none, some, List, [], ◌∷◌, ◌++◌ as append, ◌==◌,
  if◌then◌else◌, ltb, GoMap, lookup, str_elem,
}
use adk_a2ui_go.Common.Text.{itoa, quote}
use adk_a2ui_go.Json.{Value, Fields, get, as_obj, as_arr, str_at, obj_of, is_empty_str}
use adk_a2ui_go.Kit.Problem.{Problem, problem}
use adk_a2ui_go.Schema.Paths.{message_path, element_path}
use adk_a2ui_go.Schema.Rules.{first_create_index, used_before_create}

abbrev pub must_not_be_empty : String → List Problem
must_not_be_empty path = problem path "must not be empty" ∷ []

abbrev pub empty_id : String → String → List Problem
empty_id id path = if id == "" then must_not_be_empty path else []

abbrev pub empty_catalog : Option Value → String → List Problem
empty_catalog v path = if is_empty_str v then must_not_be_empty path else []

-- What one component adds: to the count of roots, to the ids that were seen, to the problems.
pub record Item : Type 0 where
  pub roots : ℕ
  pub seen : GoMap ℕ
  pub problems : List Problem

-- One round of the loop of `checkList`, past the check of the component's catalogId.
unfoldable pub check_id : String → ℕ → GoMap ℕ → String → Item
check_id base j seen id =
    if id == ""
    then record {
      roots = 0;
      seen = seen;
      problems = must_not_be_empty (element_path base j ++ ".id");
    }
    else elim (lookup id seen) [
      | some k ↦ record {
        roots = 0;
        seen = seen;
        problems =
            problem (element_path base j ++ ".id") (
              "duplicate component id "
              ++ (quote id ++ (" (also used at components[" ++ (itoa k ++ "])"))))
            ∷ [];
      }
      | none ↦ record {
        roots = if id == "root" then 1 else 0;
        seen = (id, j) ∷ seen;
        problems = [];
      }
    ]

unfoldable pub check_from : String → ℕ → GoMap ℕ → List Value → ℕ × List Problem
check_from base j seen [] = (0, [])
check_from base j seen (c ∷ cs) =
    let o = obj_of (some c) in
    let it = check_id base j seen (str_at "id" o) in
    let (roots, problems) = check_from base (suc j) it.seen cs in
    (
      it.roots + roots,
      append (empty_catalog (get "catalogId" o) (element_path base j ++ ".catalogId"))
          (append it.problems problems),
    )

-- `checkList`: the number of roots, and the problems of one list of components.
unfoldable pub check_list : List Value → String → ℕ × List Problem
unfolding check_from check_id
check_list comps base = check_from base 0 [] comps

-- The maps into `bool` of `semanticRules` are lists of their keys.
pub record RuleState : Type 0 where
  pub seen_create : List String
  pub created_order : List String
  pub has_root : List String

abbrev pub no_state : RuleState
no_state = record { seen_create = []; created_order = []; has_root = [] }

-- `if roots >= 1 { hasRoot[sid] = true }`
abbrev pub mark_root : ℕ → String → RuleState → RuleState
mark_root roots sid st = if ltb 0 roots then record st { has_root = sid ∷ st.has_root } else st

pub data Flow : Type 0 where
  skip : List Problem → Flow
  proceed : List Problem → RuleState → Flow

abbrev pub check_optional : Option (List Value) → String → ℕ × List Problem
check_optional none base = (0, [])
check_optional (some comps) base = check_list comps base

abbrev pub created_twice : ℕ → String → Problem
created_twice i sid =
    problem (message_path i ".createSurface")
      ("surface " ++ (quote sid ++ " is created twice in this batch"))

unfoldable pub create_surface : ℕ → Fields → RuleState → Flow
create_surface i cs st =
    let sid = str_at "surfaceId" cs in
    let (roots, problems) =
      check_optional (as_arr (get "components" cs)) (message_path i ".createSurface.components") in
    let noted = record st {
      seen_create = sid ∷ st.seen_create;
      created_order = append st.created_order (sid ∷ []);
    } in
    if sid == ""
    then skip (must_not_be_empty (message_path i ".createSurface.surfaceId"))
    else if str_elem sid st.seen_create
    then skip (created_twice i sid ∷ [])
    else proceed
        (append (empty_catalog (get "catalogId" cs) (message_path i ".createSurface.catalogId"))
          problems)
        (mark_root roots sid noted)

unfoldable pub create_rules : ℕ → Option Fields → RuleState → Flow
create_rules i none st = proceed [] st
create_rules i (some cs) st = create_surface i cs st

abbrev pub or_nil : Option (List Value) → List Value
or_nil none = []
or_nil (some vs) = vs

unfoldable pub update_rules : GoMap ℕ → ℕ → Option Fields → RuleState → RuleState × List Problem
update_rules created i none st = (st, [])
update_rules created i (some uc) st =
    let sid = str_at "surfaceId" uc in
    let (roots, problems) =
      check_list (or_nil (as_arr (get "components" uc)))
        (message_path i ".updateComponents.components") in
    (
      mark_root roots sid st,
      append (empty_id sid (message_path i ".updateComponents.surfaceId"))
          (append (used_before_create created sid i "updateComponents") problems),
    )

-- One round of the loop over "updateDataModel" and "deleteSurface".
unfoldable pub surface_rules : GoMap ℕ → ℕ → String → Bool → Option Fields → List Problem
surface_rules created i key must_exist none = []
surface_rules created i key must_exist (some o) =
    let sid = str_at "surfaceId" o in
    append (empty_id sid (message_path i ("." ++ (key ++ ".surfaceId"))))
      (if must_exist then used_before_create created sid i key else [])

unfoldable pub call_rules : ℕ → Option Fields → List Problem
call_rules i none = []
call_rules i (some cf) =
    empty_catalog (get "catalogId" (obj_of (get "callFunction" cf)))
      (message_path i ".callRendererFunction.callFunction.catalogId")

unfoldable pub after_create : GoMap ℕ → ℕ → Fields → Flow → RuleState → RuleState × List Problem
after_create created i m (skip problems) st = (st, problems)
after_create created i m (proceed problems st') st =
    let (st'', updates) = update_rules created i (as_obj (get "updateComponents" m)) st' in
    (
      st'',
      append problems (
          append updates (
            append
              (surface_rules created i "updateDataModel" true (as_obj (get "updateDataModel" m)))
              (append
                (surface_rules created i "deleteSurface" false (as_obj (get "deleteSurface" m)))
                (call_rules i (as_obj (get "callRendererFunction" m)))))),
    )

-- One round of the loop over the messages.
unfoldable pub message_rules : GoMap ℕ → ℕ → Fields → RuleState → RuleState × List Problem
message_rules created i m st =
    after_create created i m (create_rules i (as_obj (get "createSurface" m)) st) st

unfoldable pub rules_from : GoMap ℕ → ℕ → RuleState → List Fields → RuleState × List Problem
rules_from created i st [] = (st, [])
rules_from created i st (m ∷ ms) =
    let (st', problems) = message_rules created i m st in
    let (final, more) = rules_from created (suc i) st' ms in (final, append problems more)

abbrev pub index_of : GoMap ℕ → String → ℕ
index_of created sid = elim (lookup sid created) [ none ↦ 0 | some i ↦ i ]

-- The loop over the surfaces that the batch created.
unfoldable pub missing_roots : GoMap ℕ → List String → List String → List Problem
missing_roots created has_root [] = []
missing_roots created has_root (sid ∷ sids) =
    append
      (if str_elem sid has_root
        then []
        else problem (message_path (index_of created sid) ".createSurface") (
            "surface "
            ++ (quote sid
                ++ " has no component with id \"root\" in createSurface.components or any updateComponents of this batch"))
          ∷ [])
      (missing_roots created has_root sids)

unfoldable pub semantic_rules : List Fields → List Problem
unfolding rules_from message_rules after_create create_rules create_surface update_rules
    surface_rules call_rules missing_roots
semantic_rules ms =
    let created = first_create_index ms in
    let (st, problems) = rules_from created 0 no_state ms in
    append problems (missing_roots created st.has_root st.created_order)
