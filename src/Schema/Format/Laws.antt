-- ===== src/Schema/Format/Laws.antt =====
-- internal/schema/format.go: the walk with its set of seen lines, beside the lines that it meets.
pub mod Once
pub mod Found
pub mod Exact
use Prim.Native.String.{◌++◌}
use adk_a2ui_go.Common.{
  ℕ, zero, suc, String, ◌≡◌, refl, ◌↔◌, ◌≢◌, ◌⊎◌, inl, inr, Bool, true, false, ◌&&◌, ◌||◌, not,
  Option, none, some, List, [], ◌∷◌, ◌++◌ as append, ◌==◌, if◌then◌else◌, map, str_elem,
  str_elem_iff, Elem, IsDistinct, Elem-append, Bool-cases, ap, sym, ◌∙◌, arith, All,
}
use adk_a2ui_go.Json.{Value}
use adk_a2ui_go.Kit.Problem.{Problem, problem}
use adk_a2ui_go.Schema.Paths.{render_path}
use adk_a2ui_go.Schema.Format.Text.{Printer}
use adk_a2ui_go.Schema.Format.Plan.{
  Kind, Violation, violation, Round-cases, by_round, Violations, nothing, also, Refusal, invalid,
  other_error, Line, Round, stop, enter, enter_all, kind_plan,
}
use adk_a2ui_go.Schema.Format.{
  Formatter, key_of, add, add_all, is_false_schema, has_other, walk, walk_nth, walk_causes,
  walk_kept, first_line, format,
}

add_all-append :
    (prefix : String) (xs ys : List Line) (f : Formatter)
    → add_all prefix (append xs ys) f ≡ add_all prefix ys (add_all prefix xs f)
unfolding add_all
add_all-append prefix [] ys f = refl
add_all-append prefix (x ∷ xs) ys f = add_all-append prefix xs ys (add prefix x f)

module _ (out : Printer) (inst : Value) where
  -- The lines that the walk meets, repeated ones included.
  unfoldable mutual
    pub lines : Violation → List Line
    lines (violation k loc text causes) =
        by_round (λ ls. ls) (λ i. lines_nth i causes) (lines_causes loc text causes)
          (kind_plan out inst k loc causes)

    pub lines_nth : ℕ → Violations → List Line
    lines_nth i nothing = []
    lines_nth zero (also v rest) = lines v
    lines_nth (suc i) (also v rest) = lines_nth i rest

    pub lines_causes : List String → String → Violations → List Line
    lines_causes loc text nothing = (loc, text) ∷ []
    lines_causes loc text (also v rest) =
        let other = has_other (also v rest) in
        let here = lines v in
        append (if other && is_false_schema v then [] else here) (lines_kept other rest)

    pub lines_kept : Bool → Violations → List Line
    lines_kept other nothing = []
    lines_kept other (also v rest) =
        let here = lines v in
        append (if other && is_false_schema v then [] else here) (lines_kept other rest)

  module _ (prefix : String) where
    mutual
      unfolding walk lines add_all

      walk_lem :
          (v : Violation) (f : Formatter) → walk out inst prefix v f ≡ add_all prefix (lines v) f
      walk_lem (violation k loc text causes) f =
          elim (Round-cases (kind_plan out inst k loc causes)) [
            | inl (ls, e) ↦ rw e refl
            | inr (inl (i, e)) ↦ rw e (walk_nth_lem i causes f)
            | inr (inr e) ↦ rw e (walk_causes_lem loc text causes f)
          ]

      walk_nth_lem :
          (i : ℕ) (vs : Violations) (f : Formatter)
          → walk_nth out inst prefix i vs f ≡ add_all prefix (lines_nth i vs) f
      walk_nth_lem i nothing f = refl
      walk_nth_lem zero (also v rest) f = walk_lem v f
      walk_nth_lem (suc i) (also v rest) f = walk_nth_lem i rest f

      walk_causes_lem :
          (loc : List String) (text : String) (vs : Violations) (f : Formatter)
          → walk_causes out inst prefix loc text vs f ≡ add_all prefix (lines_causes loc text vs) f
      walk_causes_lem loc text nothing f = refl
      walk_causes_lem loc text (also v rest) f =
          let other = has_other (also v rest) in
          elim (Bool-cases (has_other (also v rest) && is_false_schema v)) [
            | inl h ↦ rw h (walk_kept_lem other rest f)
            | inr h ↦ rw h (
                walk_kept_lem other rest (walk out inst prefix v f)
                ∙ (ap (λ g. add_all prefix (lines_kept other rest) g) (walk_lem v f)
                    ∙ sym (add_all-append prefix (lines v) (lines_kept other rest) f)))
          ]

      walk_kept_lem :
          (other : Bool) (vs : Violations) (f : Formatter)
          → walk_kept out inst prefix other vs f ≡ add_all prefix (lines_kept other vs) f
      walk_kept_lem other nothing f = refl
      walk_kept_lem other (also v rest) f = elim (Bool-cases (other && is_false_schema v)) [
        | inl h ↦ rw h (walk_kept_lem other rest f)
        | inr h ↦ rw h (
            walk_kept_lem other rest (walk out inst prefix v f)
            ∙ (ap (λ g. add_all prefix (lines_kept other rest) g) (walk_lem v f)
                ∙ sym (add_all-append prefix (lines v) (lines_kept other rest) f)))
      ]
