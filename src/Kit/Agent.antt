-- ===== src/Kit/Agent.antt =====
-- kit/agent.go: what an agent advertises.
use adk_a2ui_go.Common.{String, Bool, Option, none, some, List, []}
use adk_a2ui_go.Json.{bool, obj, strings, Fields, end, field}

abbrev or_nil_ids : Option (List String) → List String
or_nil_ids none = []
or_nil_ids (some ids) = ids

-- `AgentCapabilities`; nil ids are `none`.
pub agent_capabilities : String → Option (List String) → Bool → Fields
agent_capabilities version ids accepts_inline =
    field version
      (obj (
        field "supportedCatalogIds" (strings (or_nil_ids ids))
          (field "acceptsInlineCatalogs" (bool accepts_inline) end)))
      end
