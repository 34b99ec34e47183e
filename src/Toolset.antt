-- ===== src/Toolset.antt =====
-- a2ui.go: the toolset, its options, and the tools that it exposes on a turn.
pub mod Laws
pub mod Single
pub mod Specs
use Prim.Native.String.{◌++◌}
use adk_a2ui_go.Common.{
  String, Bool, true, false, Option, none, some, List, [], ◌∷◌, ◌==◌, ◌||◌, if◌then◌else◌,
}
use adk_a2ui_go.Common.Text.{quote}
use adk_a2ui_go.Json.{Fields}
use adk_a2ui_go.Kit.Error.{Error, failure, Result, ok, err, ◌>>=◌}
use adk_a2ui_go.Kit.Capabilities.{
  Capabilities, VersionParams, known_versions, v09, v091, v10, negotiate,
}
use adk_a2ui_go.Kit.Catalog.{Resolver}
use adk_a2ui_go.Kit.Options.{ToolOptions}
use adk_a2ui_go.Spec.{Embedded, major_v09, major_v10}
use adk_a2ui_go.Schema.Format.Text.{Printer}
use adk_a2ui_go.Schema.Engine.{Engine}
use adk_a2ui_go.Toolkit.Tools.{ToolConfig, CatalogTool, GenerateTool}
use adk_a2ui_go.V09.Tools.{tools_v09}
use adk_a2ui_go.V10.Tools.{tools_v10}

-- `config`
pub record Config : Type 0 where
  pub versions : List String
  pub tools : ToolOptions

-- `Option`, a function that changes the configuration.
abbrev pub Setting : Type 0
Setting = Config → Config

-- `WithVersions`
abbrev pub with_versions : List String → Setting
with_versions versions c = record c { versions = versions }

-- `WithCatalogResolver`
abbrev pub with_catalog_resolver : Option Resolver → Setting
with_catalog_resolver r c = record c { tools = record { resolver = r; strict = c.tools.strict } }

-- `WithStrictCatalogs`
abbrev pub with_strict_catalogs : Setting
with_strict_catalogs c = record c { tools = record { resolver = c.tools.resolver; strict = true } }

abbrev pub default_config : Config
default_config = record {
  versions = known_versions;
  tools = record { resolver = none; strict = false };
}

abbrev pub apply_all : List Setting → Config → Config
apply_all [] c = c
apply_all (o ∷ os) c = apply_all os (o c)

is_known : String → Bool
is_known v = v == v09 || (v == v091 || v == v10)

-- The loop over the versions: the first that is not known.
unknown_version : List String → Option String
unknown_version [] = none
unknown_version (v ∷ vs) = let rest = unknown_version vs in if is_known v then rest else some v

refuse_unknown : Config → Option String → Result Config
refuse_unknown c none = ok c
refuse_unknown c (some v) = err (failure ("a2ui: unknown version " ++ quote v))

checked : Config → List String → Result Config
checked c [] = err (failure "a2ui: WithVersions requires at least one version")
checked c (v ∷ vs) = refuse_unknown c (unknown_version (v ∷ vs))

-- `NewToolset`
unfoldable pub new_toolset : List Setting → Result Config
unfolding checked refuse_unknown unknown_version is_known
new_toolset opts = let c = apply_all opts default_config in checked c c.versions

-- The tools of a turn: none, those of v1.0, or those of v0.9 for a wire version.
pub data Exposed : Type 0 where
  no_tools : Exposed
  v10_tools : VersionParams → ToolOptions → Exposed
  v09_tools : String → VersionParams → ToolOptions → Exposed

expose : ToolOptions → Option (String × VersionParams) → Exposed
expose options none = no_tools
expose options (some (version, params)) =
    if version == v10 then v10_tools params options else v09_tools version params options

-- `(*toolset).Tools`; a context without capabilities is `none`.
unfoldable pub exposed_tools : Config → Option Capabilities → Exposed
unfolding expose
exposed_tools c none = no_tools
exposed_tools c (some caps) = expose c.tools (negotiate caps (some c.versions))

-- The tools themselves; `engines` is `schema.For`, and no tools are the nil list.
module _ (files : Embedded) (engines : String → Engine) (out : Printer)
    (marshal : Fields → Result String) (refuses : ToolConfig → Option Error) where
  unfoldable pub given_tools : Exposed → Result (Option (CatalogTool × GenerateTool))
  given_tools no_tools = ok none
  given_tools (v10_tools params opts) =
      tools_v10 files (engines major_v10) out marshal refuses params opts >>= λ both. ok (some both)
  given_tools (v09_tools version params opts) =
      tools_v09 files (engines major_v09) out marshal refuses version params opts >>= λ both.
      ok (some both)
