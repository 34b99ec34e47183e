-- ===== src/Examples/Decode.antt =====
-- A message from a renderer, and its decoding.
use adk_a2ui_go.Common.{false, ◌≡◌, refl, true, none, some, [], ◌∷◌, str_elem}
use adk_a2ui_go.Common.Sort.{sort}
use adk_a2ui_go.Json.{str, obj, Fields, end, field, get, str_at, keys}
use adk_a2ui_go.Kit.Error.{ok}
use adk_a2ui_go.Kit.Options.{ValidateOptions}
use adk_a2ui_go.Kit.Capabilities.{no_params}
use adk_a2ui_go.Spec.{Embedded}
use adk_a2ui_go.Schema.Decoding.{decode_list}
use adk_a2ui_go.Schema.Decoding.Exact.{Decodes}
use adk_a2ui_go.Schema.Resolve.{resolve_catalog}
use adk_a2ui_go.Common.{◌⊎◌}
use adk_a2ui_go.Json.{obj_of}
use adk_a2ui_go.Spec.{basic_catalog_ids}
use adk_a2ui_go.V10.Callers.{allowed_callers, renderer_may_call}
use adk_a2ui_go.Schema.Finalize.{finalize}
use adk_a2ui_go.Schema.Inbound.{inbound_precheck}
use adk_a2ui_go.Schema.Format.Text.{Printer}
use adk_a2ui_go.Schema.Engine.{Schema, Engine}
use adk_a2ui_go.V10.Message.{RendererMessage}
use adk_a2ui_go.Schema.Passes.{refused}
use adk_a2ui_go.V10.Decode.{
  Wire, MessageCodec, decode_renderer_messages, check_agent_call, check_message,
  to_renderer_message,
}
use adk_a2ui_go.V10.Decode.Accepts.{Accepts}
use adk_a2ui_go.V10.Decode.Exact.{Converts, decode_renderer_messages-ok_iff}

abbrev files : Embedded
files = record { basic_catalog = λ major. ok end; basic_instructions = λ major. "" }

abbrev admits : Schema
admits v = none

abbrev engine : Engine
engine = record { compile = λ entry v091. ok admits; compile_ref = λ ref catalog v091. ok admits }

abbrev printer : Printer
printer = record { marshal = λ v. some "null"; sprint = λ v. "" }

abbrev options : ValidateOptions
options = record { version = "v1.0"; params = no_params; resolver = none; strict = true }

abbrev wire : Wire
wire = record {
  version = "v1.0";
  action = none;
  call_agent_function = none;
  renderer_function_response = none;
  error =
      some
        (record { code = "E"; message = "m"; surface_id = "s1"; path = ""; function_call_id = "" });
}

abbrev codec : MessageCodec
codec = record { marshal = λ m. ok "{}"; unmarshal = λ b. ok wire; error_of = λ e. "" }

abbrev message : Fields
message = field "error" (obj (field "code" (str "E") end)) (field "version" (str "v1.0") end)

abbrev typed_message : RendererMessage
typed_message = record {
  version = "v1.0";
  action = none;
  call_agent_function = none;
  renderer_function_response = none;
  error = wire.error;
  raw = message;
}

abbrev call_message : Fields
call_message =
    field "callAgentFunction"
      (obj (
        field "callFunction"
          (obj (
            field "call" (str "f") (
              field "catalogId"
                (str "https://a2ui.org/specification/v1_0/catalogs/basic/catalog.json")
                (field "args" (obj end) end))))
          end))
      (field "version" (str "v1.0") end)

abbrev typed_call : RendererMessage
typed_call = record typed_message { raw = call_message }

decode_renderer_messages-ok_iff_example :
    ((options.version ≡ "") ⊎ (options.version ≡ "v1.0"))
    × ((envelope : Schema) × (engine.compile "renderer_to_agent.json" false ≡ ok envelope)
        × Decodes
            (Accepts files engine printer options envelope)
            (Converts codec)
            (message ∷ call_message ∷ [])
            (typed_message ∷ typed_call ∷ []))
unfolding decode_renderer_messages decode_list check_message inbound_precheck keys str_at get
    str_elem refused check_agent_call to_renderer_message finalize sort resolve_catalog
    basic_catalog_ids allowed_callers obj_of renderer_may_call
decode_renderer_messages-ok_iff_example =
    (decode_renderer_messages-ok_iff files engine printer options codec "messages"
        (message ∷ call_message ∷ []) (typed_message ∷ typed_call ∷ [])).0
      refl
