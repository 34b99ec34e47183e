-- ===== src/Schema/Format/Some.antt =====
-- internal/schema/format.go: an error is never formatted as no problem.
use adk_a2ui_go.Common.{String, ◌≢◌, List, [], ◌∷◌}
use adk_a2ui_go.Json.{Value}
use adk_a2ui_go.Kit.Problem.{Problem}
use adk_a2ui_go.Schema.Format.Text.{Printer}
use adk_a2ui_go.Schema.Format.Plan.{Refusal, invalid, other_error}
use adk_a2ui_go.Schema.Format.{format, first_line}

cons-nonempty : (p : Problem) (ps : List Problem) → (p ∷ ps) ≢ []
cons-nonempty p ps h = cc

first_line-nonempty : (prefix text : String) (ps : List Problem) → first_line prefix ps text ≢ []
unfolding first_line
first_line-nonempty prefix text [] = cons-nonempty _ _
first_line-nonempty prefix text (p ∷ ps) = cons-nonempty _ _

pub format-nonempty :
    (out : Printer) (v : Value) (path : String) (r : Refusal) → format out v path r ≢ []
unfolding format
format-nonempty out v path (other_error text) = cons-nonempty _ _
format-nonempty out v path (invalid w text) = first_line-nonempty path text _
