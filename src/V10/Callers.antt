-- ===== src/V10/Callers.antt =====
-- v10/callers.go: who may call a function of a catalog.
use adk_a2ui_go.Common.{
  String, ◌≡◌, refl, ◌↔◌, ◌⊎◌, inl, inr, Bool, true, false, not, ◌||◌, Option, none, some, ◌==◌,
  eq_iff, if◌then◌else◌, String-cases,
}
use adk_a2ui_go.Json.{Fields, get, as_obj, as_str, obj_of}

abbrev pub renderer_only : String
renderer_only = "rendererOnly"

abbrev pub agent_only : String
agent_only = "agentOnly"

abbrev pub renderer_or_agent : String
renderer_or_agent = "rendererOrAgent"

abbrev or_renderer_only : Option String → String
or_renderer_only none = renderer_only
or_renderer_only (some v) = if v == "" then renderer_only else v

abbrev policy : Option Fields → String
policy none = ""
policy (some def) = or_renderer_only (as_str (get "allowedCallers" def))

-- `allowedCallers`: "" where the catalog does not define the function.
unfoldable pub allowed_callers : Fields → String → String
allowed_callers catalog name = policy (as_obj (get name (obj_of (get "functions" catalog))))

unfoldable pub agent_may_call : String → Bool
agent_may_call allowed = allowed == agent_only || allowed == renderer_or_agent

unfoldable pub renderer_may_call : String → Bool
renderer_may_call allowed = not (allowed == agent_only)

-- A catalog's function always has some caller: the agent, the renderer, or both; and both exactly
-- where its policy is "rendererOrAgent".
pub callers_cover :
    (allowed : String)
    → ((agent_may_call allowed ≡ true) ⊎ (renderer_may_call allowed ≡ true))
      × (((agent_may_call allowed ≡ true) × (renderer_may_call allowed ≡ true))
          ↔ (allowed ≡ renderer_or_agent))
unfolding agent_may_call renderer_may_call
callers_cover allowed = elim (String-cases allowed agent_only) [
  | inl same ↦ rw same (
    inl refl,
    (
      λ both. (let h : false ≡ true = both.1 in cc),
      λ e. (let h : false ≡ true = (eq_iff agent_only renderer_or_agent).1 e in cc),
    ),
  )
  | inr (off, _) ↦ rw off (
    inr refl,
    (
      λ both. (eq_iff allowed renderer_or_agent).0 both.0,
      λ e. ((eq_iff allowed renderer_or_agent).1 e, refl),
    ),
  )
]
