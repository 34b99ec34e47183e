-- ===== src/Schema/Format.antt =====
-- `Format` of internal/schema/format.go: an error of the JSON Schema library as problems for a model.
pub mod Text
pub mod Plan
pub mod Laws
pub mod Some
use Prim.Native.String.{◌++◌}
use adk_a2ui_go.Common.{
  ℕ, zero, suc, String, Bool, true, false, ◌&&◌, ◌||◌, not, Option, none, some, List, [], ◌∷◌,
  ◌++◌ as append, ◌==◌, if◌then◌else◌, map, str_elem,
}
use adk_a2ui_go.Common.Text.{quote, join, str_lt}
use adk_a2ui_go.Common.Sort.{sort}
use adk_a2ui_go.Json.{Value, Fields, as_obj, str_at, has, keys}
use adk_a2ui_go.Kit.Problem.{Problem, problem}
use adk_a2ui_go.Schema.Inbound.{quote_list, keys_message}
use adk_a2ui_go.Schema.Paths.{render_path}
use adk_a2ui_go.Schema.Format.Text.{
  path_base, cut_suffix, lower_first, all_function_refs, value_at, Printer, json_text, json_list,
}
use adk_a2ui_go.Schema.Format.Plan.{
  Kind, one_of, required, false_schema, additional_properties, const_value, enum_values,
  type_mismatch, not_allowed, reference, other_kind, Violation, violation, Violations, nothing,
  also, Refusal, invalid, other_error, Line, Round, by_round, stop, enter, enter_all, kind_plan,
}

-- `formatter`, less its constants.
pub record Formatter : Type 0 where
  pub problems : List Problem
  pub seen : List String

abbrev key_of : Problem → String
key_of p = p.path ++ ("\0" ++ p.message)

-- `add`
add : String → Line → Formatter → Formatter
add prefix (loc, msg) f =
    let p = problem (render_path prefix loc) msg in
    if str_elem (key_of p) f.seen
    then f
    else record { problems = append f.problems (p ∷ []); seen = key_of p ∷ f.seen }

add_all : String → List Line → Formatter → Formatter
add_all prefix [] f = f
add_all prefix (l ∷ ls) f = add_all prefix ls (add prefix l f)

unfoldable pub is_false_schema : Violation → Bool
is_false_schema (violation false_schema loc text causes) = true
is_false_schema v = false

-- `hasOther` of `pruneCollateralFalseSchema`
unfoldable pub has_other : Violations → Bool
has_other nothing = false
has_other (also v rest) = not (is_false_schema v) || has_other rest

-- Without any line, the first line of the error.
first_line : String → List Problem → String → List Problem
first_line prefix [] text = problem prefix text ∷ []
first_line prefix (p ∷ ps) text = p ∷ ps

module _ (out : Printer) (inst : Value) (prefix : String) where
  mutual
    pub walk : Violation → Formatter → Formatter
    walk (violation k loc text causes) f =
        by_round (λ ls. add_all prefix ls f) (λ i. walk_nth i causes f)
          (walk_causes loc text causes f) (kind_plan out inst k loc causes)

    -- The cause at an index.
    walk_nth : ℕ → Violations → Formatter → Formatter
    walk_nth i nothing f = f
    walk_nth zero (also v rest) f = walk v f
    walk_nth (suc i) (also v rest) f = walk_nth i rest f

    walk_causes : List String → String → Violations → Formatter → Formatter
    walk_causes loc text nothing f = add prefix (loc, text) f
    walk_causes loc text (also v rest) f =
        let other = has_other (also v rest) in
        let g = walk v f in
        if other && is_false_schema v then walk_kept other rest f else walk_kept other rest g

    -- The causes that `pruneCollateralFalseSchema` keeps, in order.
    walk_kept : Bool → Violations → Formatter → Formatter
    walk_kept other nothing f = f
    walk_kept other (also v rest) f =
        let g = walk v f in
        if other && is_false_schema v then walk_kept other rest f else walk_kept other rest g

  -- `Format`
  unfoldable pub format : Refusal → List Problem
  unfolding first_line
  format (other_error text) = problem prefix text ∷ []
  format (invalid v text) =
      first_line prefix (walk v (record { problems = []; seen = [] })).problems text
