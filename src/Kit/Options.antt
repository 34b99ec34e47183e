-- ===== src/Kit/Options.antt =====
-- kit/options.go
use adk_a2ui_go.Common.{String, Bool, Option}
use adk_a2ui_go.Kit.Capabilities.{VersionParams}
use adk_a2ui_go.Kit.Catalog.{Resolver}

-- `ValidateOptions`
pub record ValidateOptions : Type 0 where
  pub version : String
  pub params : VersionParams
  pub resolver : Option Resolver
  pub strict : Bool

-- `ToolOptions`
pub record ToolOptions : Type 0 where
  pub resolver : Option Resolver
  pub strict : Bool
