-- ===== src/Toolset/Single.antt =====
-- a2ui.go against v09/tools and v10/tools: a toolset for one version.
use adk_a2ui_go.Common.{
  String, ◌≡◌, refl, ◌⊎◌, inl, inr, Option, none, some, [], ◌∷◌, lookup, Option-cases, ap, ◌∙◌,
}
use adk_a2ui_go.Json.{Fields}
use adk_a2ui_go.Kit.Error.{Error, Result, ok}
use adk_a2ui_go.Kit.Capabilities.{Capabilities, VersionParams, v09, v091, v10}
use adk_a2ui_go.Kit.Capabilities.Negotiate.{negotiate_missing, negotiate_one}
use adk_a2ui_go.Kit.Options.{ToolOptions}
use adk_a2ui_go.Spec.{Embedded, major_v09, major_v10}
use adk_a2ui_go.Schema.Format.Text.{Printer}
use adk_a2ui_go.Schema.Engine.{Engine}
use adk_a2ui_go.Toolkit.Tools.{ToolConfig, CatalogTool, GenerateTool}
use adk_a2ui_go.V09.Tools.{check_tool_version, tools_v09, toolset_tools_v09}
use adk_a2ui_go.V10.Tools.{toolset_tools_v10}
use adk_a2ui_go.Toolset.{expose, exposed_tools, given_tools}

module _ (files : Embedded) (engines : String → Engine) (out : Printer)
    (marshal : Fields → Result String) (refuses : ToolConfig → Option Error)
    (opts : ToolOptions) where
  -- What the toolset of the root package gives on a turn, made for one version.
  abbrev pub Given : String → Option Capabilities → Result (Option (CatalogTool × GenerateTool))
  Given version caps =
      given_tools files engines out marshal refuses
        (exposed_tools (record { versions = version ∷ []; tools = opts }) caps)

  given_missing :
      (version : String) (caps : Capabilities)
      → lookup version caps ≡ none
      → Given version (some caps) ≡ ok none
  unfolding exposed_tools given_tools
  given_missing version caps h =
      ap (λ o. given_tools files engines out marshal refuses (expose opts o))
        (negotiate_missing version caps h)

  given_one :
      (version : String) (caps : Capabilities) (params : VersionParams)
      → lookup version caps ≡ some params
      → Given version (some caps)
        ≡ given_tools files engines out marshal refuses (expose opts (some (version, params)))
  unfolding exposed_tools
  given_one version caps params h =
      ap (λ o. given_tools files engines out marshal refuses (expose opts o))
        (negotiate_one version caps params h)

  v10_same :
      (caps : Option Capabilities)
      → Given v10 caps ≡ toolset_tools_v10 files (engines major_v10) out marshal refuses opts caps
  unfolding exposed_tools given_tools toolset_tools_v10
  v10_same none = refl
  v10_same (some caps) = elim (Option-cases (lookup v10 caps)) [
    | inl h ↦ rw h (given_missing v10 caps h)
    | inr (params, h) ↦ rw h (given_one v10 caps params h)
  ]

  v09_same :
      (version : String) (caps : Option Capabilities)
      → (version ≡ v09) ⊎ (version ≡ v091)
      → Given version caps
        ≡ toolset_tools_v09 files
            (engines major_v09)
            out
            marshal
            refuses
            (record { version = version; opts = opts })
            caps
  unfolding exposed_tools given_tools toolset_tools_v09 tools_v09 check_tool_version
  v09_same version none known = refl
  v09_same version (some caps) known = elim (Option-cases (lookup version caps)) [
    | inl h ↦ rw h (given_missing version caps h)
    | inr (params, h) ↦
        rw h
          (given_one version caps params h ∙ elim known [ inl e ↦ rw e refl | inr e ↦ rw e refl ])
  ]

  -- The toolset of the root package, made for v1.0 alone, gives the tools that the toolset of
  -- v10/tools gives for the same options on every turn, and made for v0.9 or v0.9.1 alone those of
  -- the toolset of v09/tools for that version.
  pub given-toolset_tools :
      (version : String) (caps : Option Capabilities)
      → (version ≡ v09) ⊎ (version ≡ v091)
      → (Given v10 caps ≡ toolset_tools_v10 files (engines major_v10) out marshal refuses opts caps)
        × (Given version caps
            ≡ toolset_tools_v09 files
                (engines major_v09)
                out
                marshal
                refuses
                (record { version = version; opts = opts })
                caps)
  given-toolset_tools version caps known = (v10_same caps, v09_same version caps known)
