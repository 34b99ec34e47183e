-- ===== src/Kit/Problem.antt =====
-- kit/problem.go: one validation finding, and the text of the error that lists them.
use Prim.Native.String.{◌++◌}
use adk_a2ui_go.Common.{
  String, ◌≡◌, refl, ◌↔◌, Bool, true, ◌&&◌, List, [], ◌∷◌, ◌==◌, eq_iff, if◌then◌else◌, arith,
}

pub record Problem : Type 0 where
  pub path : String
  pub message : String

abbrev pub problem : String → String → Problem
problem p m = record { path = p; message = m }

-- `Problem.String`
unfoldable pub show_problem : Problem → String
show_problem p = if p.path == "" then p.message else p.path ++ (": " ++ p.message)

show_lines : List Problem → String
show_lines [] = ""
show_lines (p ∷ ps) = "\n- " ++ (show_problem p ++ show_lines ps)

-- `ValidationError.Error`
unfoldable pub validation_text : List Problem → String
unfolding show_lines show_problem
validation_text ps =
    "validation failed. Fix the following and call the tool again:" ++ show_lines ps

-- Go's `==` on two values of the struct.
unfoldable pub problem_eq : Problem → Problem → Bool
problem_eq p q = p.path == q.path && p.message == q.message

pub problem_eq_iff : (p q : Problem) → (problem_eq p q ≡ true) ↔ (p ≡ q)
unfolding problem_eq
problem_eq_iff p q = ground (arith, eq_iff p.path q.path, eq_iff p.message q.message)

validation_text_example :
    validation_text (problem "a" "x" ∷ problem "" "y" ∷ [])
    ≡ "validation failed. Fix the following and call the tool again:\n- a: x\n- y"
unfolding validation_text
validation_text_example = refl
