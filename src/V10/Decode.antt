-- ===== src/V10/Decode.antt =====
-- v10/decode.go: decoding the messages of a renderer.
pub mod Accepts
pub mod Exact
pub mod Laws
use Prim.Native.String.{◌++◌}
use adk_a2ui_go.Common.{
  ℕ, zero, suc, String, Bool, true, false, ◌&&◌, not, Option, none, some, List, [], ◌∷◌,
  ◌++◌ as append, ◌==◌, if◌then◌else◌,
}
use adk_a2ui_go.Common.Text.{itoa, quote}
use adk_a2ui_go.Json.{Value, Fields, get, as_obj, str_at, obj, obj_of, is_empty_str}
use adk_a2ui_go.Kit.Problem.{Problem, problem}
use adk_a2ui_go.Kit.Error.{Error, validation, failure, wrapped, Result, ok, err, ◌>>=◌}
use adk_a2ui_go.Kit.Options.{ValidateOptions}
use adk_a2ui_go.Spec.{Embedded, major_v10}
use adk_a2ui_go.Schema.Paths.{join_path, element_path}
use adk_a2ui_go.Schema.Inbound.{inbound_precheck, json_type}
use adk_a2ui_go.Schema.Decoding.{Typed, typed, mistyped, decode_list, first_of}
use adk_a2ui_go.Schema.Resolve.{resolve_catalog}
use adk_a2ui_go.Schema.Format.Text.{Printer}
use adk_a2ui_go.Schema.Engine.{Schema, Engine}
use adk_a2ui_go.V10.Callers.{allowed_callers, renderer_may_call}
use adk_a2ui_go.Schema.Passes.{refused, not_available}
use adk_a2ui_go.V10.Message.{
  Action, CallAgentFunction, FunctionResponse, RendererError, RendererMessage,
}

-- `rendererMessageKeys`
abbrev pub renderer_message_keys : List String
renderer_message_keys = "action" ∷ "callAgentFunction" ∷ "rendererFunctionResponse" ∷ "error" ∷ []

-- The struct `wire`, which `json.Unmarshal` fills: an action with its metadata's extensions, which
-- are `none` where the metadata is missing or has none.
pub record WireAction : Type 0 where
  pub action : Action
  pub metadata : Option (Option Fields)

pub record Wire : Type 0 where
  pub version : String
  pub action : Option WireAction
  pub call_agent_function : Option CallAgentFunction
  pub renderer_function_response : Option FunctionResponse
  pub error : Option RendererError

-- `encoding/json`: `json.Marshal` of a message, and `json.Unmarshal` into the struct.
pub record MessageCodec : Type 0 where
  pub marshal : Fields → Result String
  pub unmarshal : String → Result Wire
  pub error_of : Error → String

with_extensions : WireAction → Action
with_extensions w = elim w.metadata [
  | none ↦ w.action
  | some extensions ↦ record w.action { extensions = extensions }
]

abbrev map_action : Option WireAction → Option Action
map_action none = none
map_action (some w) = some (with_extensions w)

pub of_wire : Fields → Wire → RendererMessage
of_wire m w = record {
  version = w.version;
  action = map_action w.action;
  call_agent_function = w.call_agent_function;
  renderer_function_response = w.renderer_function_response;
  error = w.error;
  raw = m;
}

module _ (codec : MessageCodec) where
  read_wire : Fields → String → Result Wire → Typed RendererMessage
  read_wire m path (ok w) = typed (of_wire m w)
  read_wire m path (err e) =
      mistyped (problem path ("has a field of an unexpected type: " ++ codec.error_of e))

  marshalled : Fields → String → Result String → Result (Typed RendererMessage)
  marshalled m path (ok bytes) = ok (read_wire m path (codec.unmarshal bytes))
  marshalled m path (err e) = err (wrapped "v10: encode message: " e)

  -- `toRendererMessage`
  unfoldable pub to_renderer_message : Fields → String → Result (Typed RendererMessage)
  unfolding marshalled read_wire of_wire with_extensions
  to_renderer_message m path = marshalled m path (codec.marshal m)

module _ (files : Embedded) (eng : Engine) (out : Printer) (opts : ValidateOptions) where
  caller_problems : Fields → Fields → String → List Problem
  caller_problems cat call path =
      let name = str_at "call" call in
      let allowed = allowed_callers cat name in
      if not (allowed == "") && not (renderer_may_call allowed)
      then problem (path ++ ".call") (
          "function "
          ++ (quote name
              ++ (" is " ++ (allowed ++ " in its catalog; the renderer may not call it"))))
        ∷ []
      else []

  call_against : String → Fields → String → Option Fields → Result (List Problem)
  call_against cid call path none =
      ok (if opts.strict then not_available cid (path ++ ".catalogId") ∷ [] else [])
  call_against cid call path (some cat) =
      eng.compile_ref "common_types.json#/$defs/FunctionCall" cat false >>= λ s.
      ok (append (refused out (obj call) path (s (obj call))) (caller_problems cat call path))

  call_catalog : Fields → String → Result (List Problem)
  call_catalog call path =
      let cid = str_at "catalogId" call in
      let asked = resolve_catalog files major_v10 cid opts >>= call_against cid call path in
      if is_empty_str (get "catalogId" call)
      then ok (problem (path ++ ".catalogId") "must not be empty" ∷ [])
      else if cid == ""
      then ok []
      else asked

  call_args : Fields → String → Option Value → Result (List Problem)
  call_args call path none = call_catalog call path
  call_args call path (some (obj args)) = call_catalog call path
  call_args call path (some args) =
      ok (problem (path ++ ".args") ("must be of type object, got " ++ json_type args) ∷ [])

  called : Option Fields → String → Result (List Problem)
  called none path = ok []
  called (some caf) path =
      let call = obj_of (get "callFunction" caf) in
      call_args call (join_path path "callAgentFunction.callFunction") (get "args" call)

  -- `checkAgentCall`
  unfoldable pub check_agent_call : Fields → String → Result (List Problem)
  unfolding called call_args call_catalog call_against caller_problems
  check_agent_call m path = called (as_obj (get "callAgentFunction" m)) path

  after_envelope : Fields → String → List Problem → Result (List Problem)
  after_envelope m path [] = check_agent_call m path
  after_envelope m path (p ∷ ps) = ok (p ∷ ps)

  after_precheck : Schema → Fields → String → List Problem → Result (List Problem)
  after_precheck envelope m path [] =
      after_envelope m path (refused out (obj m) path (envelope (obj m)))
  after_precheck envelope m path (p ∷ ps) = ok (p ∷ ps)

  -- The checks of one round.
  unfoldable pub check_message : Schema → Fields → String → Result (List Problem)
  unfolding after_precheck after_envelope
  check_message envelope m path =
      after_precheck envelope m path (inbound_precheck m opts.version renderer_message_keys path)

  module _ (codec : MessageCodec) where
    -- `decodeRendererMessages`
    unfoldable pub decode_renderer_messages : String → List Fields → Result (List RendererMessage)
    decode_renderer_messages prefix ms =
        let decoded = eng.compile "renderer_to_agent.json" false >>= λ envelope.
        decode_list (check_message envelope) (to_renderer_message codec) prefix ms in
        if not (opts.version == "") && not (opts.version == "v1.0")
        then err (failure ("v10: unsupported version " ++ quote opts.version))
        else decoded

    -- `DecodeRendererMessage`
    unfoldable pub decode_renderer_message : Fields → Result (Option RendererMessage)
    decode_renderer_message m = decode_renderer_messages "" (m ∷ []) >>= first_of
