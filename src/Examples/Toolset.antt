-- ===== src/Examples/Toolset.antt =====
-- A toolset that is restricted to v0.9.
use adk_a2ui_go.Common.{true, String, ◌≡◌, refl, ◌≢◌, none, List, [], ◌∷◌, All}
use adk_a2ui_go.Kit.Capabilities.{Capabilities, no_params}
use adk_a2ui_go.Kit.Options.{ToolOptions}
use adk_a2ui_go.Toolset.{
  Config, Setting, default_config, apply_all, with_versions, with_strict_catalogs, new_toolset,
}
use adk_a2ui_go.Toolset.Laws.{Known, new_toolset-ok_iff}

abbrev settings : List Setting
settings = with_versions ("v0.9" ∷ []) ∷ with_strict_catalogs ∷ []

abbrev options : ToolOptions
options = record { resolver = none; strict = true }

abbrev config : Config
config = record { versions = "v0.9" ∷ []; tools = options }

new_toolset-ok_iff_example :
    (apply_all settings default_config ≡ config)
    × ((apply_all settings default_config).versions ≢ [])
    × All Known (apply_all settings default_config).versions
unfolding new_toolset
new_toolset-ok_iff_example = (new_toolset-ok_iff settings config).0 refl

abbrev capabilities : Capabilities
capabilities = ("v0.9", no_params) ∷ []

abbrev chosen : String
chosen = "v0.9"
