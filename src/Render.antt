-- ===== src/Render.antt =====
-- internal/render/render.go: the pieces of the renderings of inbound messages. `json.Marshal` of a
-- context is the argument `marshal`.
use Prim.Native.String.{◌++◌}
use adk_a2ui_go.Common.{String, ◌==◌, if◌then◌else◌}
use adk_a2ui_go.Json.{Fields, end, field}

-- `Context`
unfoldable pub show_context : (Fields → String) → Fields → String
show_context marshal end = "with no context"
show_context marshal (field k v fs) = "with context " ++ marshal (field k v fs)

-- `Code`
unfoldable pub show_code : String → String
show_code code = if code == "" then "(no code)" else code

-- `Path`
unfoldable pub show_path : String → String
show_path path = if path == "" then "" else " at " ++ path
