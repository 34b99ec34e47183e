-- ===== src/Schema/Rules.antt =====
-- internal/schema/rules.go: which surfaces a batch creates, and where first.
pub mod Laws
use Prim.Native.String.{◌++◌}
use adk_a2ui_go.Common.{
  ℕ, suc, String, Option, none, some, List, [], ◌∷◌, ◌==◌, if◌then◌else◌, ltb, GoMap, lookup, true,
  false,
}
use adk_a2ui_go.Common.Text.{itoa, quote}
use adk_a2ui_go.Json.{Fields, get, as_obj, str_at}
use adk_a2ui_go.Kit.Problem.{Problem, problem}
use adk_a2ui_go.Schema.Paths.{message_path}

-- The surface that the message creates, unless its id is empty or missing.
abbrev pub named : String → Option String
named sid = if sid == "" then none else some sid

abbrev pub created_by : Option Fields → Option String
created_by none = none
created_by (some cs) = named (str_at "surfaceId" cs)

-- One round of the loop of `FirstCreateIndex`.
note_create : ℕ → Option String → GoMap ℕ → GoMap ℕ
note_create i none out = out
note_create i (some sid) out = elim (lookup sid out) [ some j ↦ out | none ↦ (sid, i) ∷ out ]

create_index : ℕ → GoMap ℕ → List Fields → GoMap ℕ
create_index i out [] = out
create_index i out (m ∷ ms) =
    create_index (suc i) (note_create i (created_by (as_obj (get "createSurface" m))) out) ms

unfoldable pub first_create_index : List Fields → GoMap ℕ
unfolding create_index note_create
first_create_index ms = create_index 0 [] ms

unfoldable pub used_before_create : GoMap ℕ → String → ℕ → String → List Problem
used_before_create created sid i key = elim (lookup sid created) [
  | none ↦ []
  | some ci ↦
      if ltb i ci
      then problem (message_path i ("." ++ key)) (
          "surface "
          ++ (quote sid ++ (" is used before its createSurface at " ++ message_path ci "")))
        ∷ []
      else []
]
