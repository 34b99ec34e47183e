-- ===== src/Examples/Client.antt =====
-- A v0.9 message from a client, and its decoding.
use adk_a2ui_go.Common.{false, ◌≡◌, refl, none, some, [], ◌∷◌, str_elem}
use adk_a2ui_go.Common.Sort.{sort}
use adk_a2ui_go.Json.{str, obj, Fields, end, field, get, str_at, keys}
use adk_a2ui_go.Kit.Error.{ok}
use adk_a2ui_go.Schema.Decoding.{decode_list}
use adk_a2ui_go.Schema.Decoding.Laws.{raws}
use adk_a2ui_go.Schema.Decoding.Exact.{Decodes}
use adk_a2ui_go.V09.Validate.Laws.{SupportedV09}
use adk_a2ui_go.V09.Decode.Exact.{ConvertsClient, AcceptsClient, decode_client_messages-ok_iff}
use adk_a2ui_go.Schema.Finalize.{finalize}
use adk_a2ui_go.Schema.Inbound.{inbound_precheck}
use adk_a2ui_go.Schema.Format.Text.{Printer}
use adk_a2ui_go.Schema.Engine.{Schema, Engine}
use adk_a2ui_go.V09.Message.{ClientMessage}
use adk_a2ui_go.V09.Decode.{
  ClientWire, ClientCodec, to_client_message, check_client_message, decode_client_messages,
}
use adk_a2ui_go.V09.Decode.Laws.{decode_client_messages-raw}

abbrev admits : Schema
admits v = none

abbrev engine : Engine
engine = record { compile = λ entry v091. ok admits; compile_ref = λ ref catalog v091. ok admits }

abbrev printer : Printer
printer = record { marshal = λ v. some "null"; sprint = λ v. "" }

abbrev wire : ClientWire
wire = record {
  version = "v0.9";
  action = none;
  error = some (record { code = "E"; surface_id = "s1"; message = "m"; path = "" });
}

abbrev codec : ClientCodec
codec = record { marshal = λ m. ok "{}"; unmarshal = λ b. ok wire; error_of = λ e. "" }

abbrev message : Fields
message = field "error" (obj (field "code" (str "E") end)) (field "version" (str "v0.9") end)

abbrev typed_message : ClientMessage
typed_message = record { version = "v0.9"; action = none; error = wire.error; raw = message }

decode_client_messages-raw_example : raws (λ r. r.raw) (typed_message ∷ []) ≡ message ∷ []
unfolding decode_client_messages decode_list check_client_message inbound_precheck keys str_at get
    str_elem to_client_message finalize sort
decode_client_messages-raw_example =
    decode_client_messages-raw engine printer "v0.9" codec "messages" (message ∷ [])
      (typed_message ∷ []) refl

decode_client_messages-ok_iff_example :
    SupportedV09 "v0.9"
    × ((envelope : Schema) × (engine.compile "client_to_server.json" false ≡ ok envelope)
        × Decodes
            (AcceptsClient engine printer "v0.9" envelope)
            (ConvertsClient codec)
            (message ∷ [])
            (typed_message ∷ []))
unfolding decode_client_messages decode_list check_client_message inbound_precheck keys str_at get
    str_elem to_client_message finalize sort
decode_client_messages-ok_iff_example =
    (decode_client_messages-ok_iff engine printer "v0.9" codec "messages" (message ∷ [])
        (typed_message ∷ [])).0
      refl
