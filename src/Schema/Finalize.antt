-- ===== src/Schema/Finalize.antt =====
-- `Finalize` of internal/schema/finalize.go: deduplicate, sort by path, cap.
pub mod Dedupe
pub mod Laws
use Prim.Native.String.{◌++◌}
use adk_a2ui_go.Common.{
  ℕ, ◌-◌, Bool, true, false, ◌||◌, List, [], ◌∷◌, ◌++◌ as append, if◌then◌else◌, length, take, ltb,
}
use adk_a2ui_go.Common.Text.{itoa}
use adk_a2ui_go.Common.Sort.{sort}
use adk_a2ui_go.Kit.Problem.{Problem, problem, problem_eq}
use adk_a2ui_go.Schema.Paths.{natural_less}

abbrev pub max_problems : ℕ
max_problems = 20

-- `seen[p]`
problem_elem : Problem → List Problem → Bool
problem_elem p [] = false
problem_elem p (q ∷ qs) = problem_eq q p || problem_elem p qs

-- The loop that keeps the first occurrence of each problem.
pub dedupe : List Problem → List Problem → List Problem
dedupe seen [] = []
dedupe seen (p ∷ ps) =
    let again = dedupe seen ps in
    let fresh = p ∷ dedupe (p ∷ seen) ps in if problem_elem p seen then again else fresh

abbrev pub problem_less : Problem → Problem → Bool
problem_less p q = natural_less p.path q.path

-- The first `max_problems`, and how many more there are.
cap_problems : List Problem → List Problem
cap_problems ps =
    if ltb max_problems (length ps)
    then append (take max_problems ps)
        (problem "" ("... and " ++ (itoa (length ps - max_problems) ++ " more")) ∷ [])
    else ps

unfoldable pub finalize : List Problem → List Problem
unfolding dedupe problem_elem cap_problems
finalize ps = cap_problems (sort problem_less (dedupe [] ps))
