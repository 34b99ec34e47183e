-- ===== src/Schema/Passes.antt =====
-- v09/validate.go and v10/validate.go: what their passes over the catalogs share. The variables that
-- the closures of `validateAgainstCatalogs` share are a state, `Lookups`; an error ends the call.
pub mod Steps
use Prim.Native.String.{◌++◌}
use adk_a2ui_go.Common.{
  String, Bool, true, false, Option, none, some, List, [], ◌∷◌, ◌++◌ as append, if◌then◌else◌,
  GoMap, lookup, str_elem,
}
use adk_a2ui_go.Common.Text.{quote}
use adk_a2ui_go.Json.{Value, Fields}
use adk_a2ui_go.Kit.Problem.{Problem, problem}
use adk_a2ui_go.Kit.Error.{Error, validation, Result, ok, err, ◌>>=◌}
use adk_a2ui_go.Schema.Format.Text.{Printer}
use adk_a2ui_go.Schema.Format.Plan.{Refusal}
use adk_a2ui_go.Schema.Format.{format}

-- The variables `resolved`, `missing` and `problems`.
pub record Lookups : Type 0 where
  pub resolved : GoMap Fields
  pub missing : List String
  pub problems : List Problem

abbrev pub no_lookups : Lookups
no_lookups = record { resolved = []; missing = []; problems = [] }

abbrev pub add_problems : List Problem → Lookups → Lookups
add_problems ps st = record st { problems = append st.problems ps }

abbrev pub not_available : String → String → Problem
not_available cid path = problem path (
    "catalog "
    ++ (quote cid ++ " is not available to this agent (not inline, registered, or built in)"))

-- What the answer of `ResolveCatalog` changes.
unfoldable pub note_answer :
    String → String → Bool → Lookups → Option Fields → Option Fields × Lookups
note_answer cid path strict st none =
    let known = record st { missing = cid ∷ st.missing } in
    (none, if strict then add_problems (not_available cid path ∷ []) known else known)
note_answer cid path strict st (some c) = (some c, record st { resolved = (cid, c) ∷ st.resolved })

-- A catalog that was resolved before.
abbrev pub known_or :
    Option Fields → Lookups → Result (Option Fields × Lookups) → Result (Option Fields × Lookups)
known_or (some c) st later = ok (some c, st)
known_or none st later = later

-- The closure `lookup`; `answered` is what `ResolveCatalog` answers for the id.
abbrev pub ask_once :
    Bool → String → String → Result (Option Fields) → Lookups → Result (Option Fields × Lookups)
ask_once strict cid path answered st =
    let ask = answered >>= λ answer. ok (note_answer cid path strict st answer) in
    known_or (lookup cid st.resolved) st (if str_elem cid st.missing then ok (none, st) else ask)

-- The problems of what `Validate` of a schema answers.
unfoldable pub refused : Printer → Value → String → Option Refusal → List Problem
refused out v path none = []
refused out v path (some r) = format out v path r

-- The end of `Validate`: a nil error where no problem is left.
unfoldable pub verdict : List Problem → Result (Unit {0})
verdict [] = ok tt
verdict (p ∷ ps) = err (validation (p ∷ ps))
