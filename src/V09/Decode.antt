-- ===== src/V09/Decode.antt =====
-- v09/decode.go: decoding the messages of a client.
pub mod Exact
pub mod Laws
use Prim.Native.String.{◌++◌}
use adk_a2ui_go.Common.{
  String, Bool, true, false, ◌||◌, not, Option, none, some, List, [], ◌∷◌, ◌==◌, if◌then◌else◌,
}
use adk_a2ui_go.Common.Text.{quote}
use adk_a2ui_go.Json.{Value, str, obj, Fields, get, as_obj}
use adk_a2ui_go.Kit.Problem.{Problem, problem}
use adk_a2ui_go.Kit.Error.{Error, failure, wrapped, Result, ok, err, ◌>>=◌}
use adk_a2ui_go.Schema.Paths.{join_path}
use adk_a2ui_go.Schema.Inbound.{inbound_precheck, json_type}
use adk_a2ui_go.Schema.Decoding.{Typed, typed, mistyped, decode_list, first_of}
use adk_a2ui_go.Schema.Format.Text.{Printer}
use adk_a2ui_go.Schema.Format.Plan.{Refusal}
use adk_a2ui_go.Schema.Format.{format}
use adk_a2ui_go.Schema.Engine.{Schema, Engine}
use adk_a2ui_go.V09.Message.{ClientAction, ClientError, ClientMessage}

-- `clientMessageKeys`
abbrev pub client_message_keys : List String
client_message_keys = "action" ∷ "error" ∷ []

-- The struct `wire`, which `json.Unmarshal` fills.
pub record ClientWire : Type 0 where
  pub version : String
  pub action : Option ClientAction
  pub error : Option ClientError

-- `encoding/json`: `json.Marshal` of a message, and `json.Unmarshal` into the struct.
pub record ClientCodec : Type 0 where
  pub marshal : Fields → Result String
  pub unmarshal : String → Result ClientWire
  pub error_of : Error → String

module _ (codec : ClientCodec) where
  read_wire : Fields → String → Result ClientWire → Typed ClientMessage
  read_wire m path (ok w) =
      typed (record { version = w.version; action = w.action; error = w.error; raw = m })
  read_wire m path (err e) =
      mistyped (problem path ("has a field of an unexpected type: " ++ codec.error_of e))

  marshalled : Fields → String → Result String → Result (Typed ClientMessage)
  marshalled m path (ok bytes) = ok (read_wire m path (codec.unmarshal bytes))
  marshalled m path (err e) = err (wrapped "v09: encode message: " e)

  -- `toClientMessage`
  unfoldable pub to_client_message : Fields → String → Result (Typed ClientMessage)
  unfolding marshalled read_wire
  to_client_message m path = marshalled m path (codec.marshal m)

code_problem : String → Option Value → List Problem
code_problem path none = []
code_problem path (some (str code)) = []
code_problem path (some code) =
    problem (join_path path "error.code") ("must be of type string, got " ++ json_type code) ∷ []

-- The guard of the code of a generic error.
error_code_problem : String → Option Fields → List Problem
error_code_problem path none = []
error_code_problem path (some e) = code_problem path (get "code" e)

module _ (eng : Engine) (out : Printer) (version : String) where
  after_envelope : Fields → String → Option Refusal → List Problem
  after_envelope m path none = error_code_problem path (as_obj (get "error" m))
  after_envelope m path (some r) = after_refusal (format out (obj m) path r)
    where
      after_refusal : List Problem → List Problem
      after_refusal [] = error_code_problem path (as_obj (get "error" m))
      after_refusal (p ∷ ps) = p ∷ ps

  after_precheck : Schema → Fields → String → List Problem → List Problem
  after_precheck envelope m path [] = after_envelope m path (envelope (obj m))
  after_precheck envelope m path (p ∷ ps) = p ∷ ps

  -- The checks of one round.
  unfoldable pub check_client_message : Schema → Fields → String → Result (List Problem)
  unfolding after_precheck after_envelope error_code_problem code_problem
  check_client_message envelope m path =
      ok (after_precheck envelope m path (inbound_precheck m version client_message_keys path))

  module _ (codec : ClientCodec) where
    -- `decodeClientMessages`
    unfoldable pub decode_client_messages : String → List Fields → Result (List ClientMessage)
    decode_client_messages prefix ms =
        let decoded = eng.compile "client_to_server.json" (not (version == "v0.9")) >>= λ envelope.
        decode_list (check_client_message envelope) (to_client_message codec) prefix ms in
        if version == "" || (version == "v0.9" || version == "v0.9.1")
        then decoded
        else err (failure ("v09: unsupported version " ++ quote version))

    -- `DecodeClientMessage`
    unfoldable pub decode_client_message : Fields → Result (Option ClientMessage)
    decode_client_message m = decode_client_messages "" (m ∷ []) >>= first_of
