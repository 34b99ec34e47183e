-- ===== src/Examples/Answers.antt =====
-- The messages that the agent sends about calls, and their validation.
use adk_a2ui_go.Common.{◌≡◌, refl, inl, inr, none, some, [], ◌∷◌, true, str_elem}
use adk_a2ui_go.Json.{end, get, obj_of}
use adk_a2ui_go.Kit.Error.{ok}
use adk_a2ui_go.Kit.Options.{ValidateOptions}
use adk_a2ui_go.Kit.Capabilities.{no_params}
use adk_a2ui_go.Spec.{Embedded, basic_catalog_ids}
use adk_a2ui_go.Schema.Resolve.{resolve_catalog}
use adk_a2ui_go.Schema.Format.Text.{Printer}
use adk_a2ui_go.Schema.Engine.{Schema, Engine}
use adk_a2ui_go.V10.Callers.{allowed_callers}
use adk_a2ui_go.V10.Message.{FunctionCall}
use adk_a2ui_go.V10.Validate.{validate}
use adk_a2ui_go.V10.Dispatch.{new_call_renderer_function, handle}
use adk_a2ui_go.V10.Dispatch.Valid.{CallMeets, new_call_renderer_function-ok_iff, handle-ok_iff}
use adk_a2ui_go.Examples.Calls.{texts, handlers, call as greeting}

abbrev files : Embedded
files = record { basic_catalog = λ major. ok end; basic_instructions = λ major. "" }

abbrev admits : Schema
admits v = none

abbrev engine : Engine
engine = record { compile = λ entry v091. ok admits; compile_ref = λ ref catalog v091. ok admits }

abbrev printer : Printer
printer = record { marshal = λ v. some "null"; sprint = λ v. "" }

abbrev options : ValidateOptions
options = record { version = "v1.0"; params = no_params; resolver = none; strict = true }

abbrev call : FunctionCall
call = record {
  call = "f";
  catalog_id = "https://a2ui.org/specification/v1_0/catalogs/basic/catalog.json";
  args = some end;
}

call-CallMeets : CallMeets files engine printer options call
unfolding resolve_catalog str_elem basic_catalog_ids allowed_callers get obj_of
call-CallMeets = inr (some end, refl, tt, (admits, refl, (refl, inl refl)))

new_call_renderer_function-ok_iff_example :
    validate files engine printer options (new_call_renderer_function "7" call ∷ []) ≡ ok tt
new_call_renderer_function-ok_iff_example =
    (new_call_renderer_function-ok_iff files engine printer options "7" call).1
      (inr refl, (admits, refl, refl), call-CallMeets)

handle-ok_iff_example :
    validate files engine printer options (handle texts handlers (some greeting) ∷ []) ≡ ok tt
handle-ok_iff_example =
    (handle-ok_iff files engine printer options texts handlers greeting).1
      (inr refl, (admits, refl, refl))
