-- ===== src/Schema/Engine.antt =====
-- internal/schema/engine.go: what validation asks of an engine, and the tool input as an instance.
use adk_a2ui_go.Common.{String, Bool, Option, List, map}
use adk_a2ui_go.Json.{Value, arr, obj, Fields, of_list}
use adk_a2ui_go.Kit.Error.{Result}
use adk_a2ui_go.Schema.Format.Plan.{Refusal}

-- A compiled schema of the JSON Schema library: `Validate` returns nothing, or an error.
abbrev pub Schema : Type 0
Schema = Value → Option Refusal

-- The engine of one major version, as its callers see it: `Compile` with the permissive catalog and
-- `CompileRef`. Which schemas it keeps is not observable.
pub record Engine : Type 0 where
  pub compile : String → Bool → Result Schema
  pub compile_ref : String → Fields → Bool → Result Schema

-- `ToInstance`
unfoldable pub to_instance : List Fields → Value
to_instance messages = arr (of_list (map obj messages))
