-- ===== src/V10/Dispatch.antt =====
-- v10/dispatch.go: the dispatcher of the agent's functions and the messages that answer a call.
pub mod Laws
pub mod Valid
use Prim.Native.String.{◌++◌}
use adk_a2ui_go.Common.{
  String, Bool, true, false, not, ◌&&◌, Option, none, some, List, [], ◌==◌, if◌then◌else◌, GoMap,
  lookup, ◌∷◌,
}
use adk_a2ui_go.Common.Text.{quote}
use adk_a2ui_go.Json.{Value, null, str, obj, Fields, end, field}
use adk_a2ui_go.Kit.Error.{Result, ok, err, Error, failure, error_text}
use adk_a2ui_go.V10.Message.{FunctionCall, CallAgentFunction, FunctionError}

abbrev pub function_not_found : String
function_not_found = "FUNCTION_NOT_FOUND"

abbrev pub function_failed : String
function_failed = "FUNCTION_FAILED"

-- What `errorCode` reads of an error: whether it is a typed-nil pointer, its type by `%T`, the
-- `*FunctionError` that `errors.As` finds (a nil pointer is `some none`), the error with a `Code`
-- that it finds (likewise), and its text. The methods are called only where the code calls them.
pub record HandlerError : Type 0 where
  pub nil_pointer : Bool
  pub type_name : String
  pub function_error : Option (Option FunctionError)
  pub coded : Option (Option String)
  pub text : String

-- `FunctionHandler`, over the values `Any` that handlers return; `none` for an error of nil.
abbrev pub Handler : Type 0 → Type 0
Handler Any = CallAgentFunction → Any × Option HandlerError

or_failed : String → String
or_failed code = if code == "" then function_failed else code

coded_error : Option (Option String) → String → String × String
coded_error (some (some code)) text = (or_failed code, text)
coded_error _ text = (function_failed, text)

found_error : Option (Option FunctionError) → Option (Option String) → String → String × String
found_error (some (some e)) coded text = (or_failed e.code, e.message)
found_error _ coded text = coded_error coded text

-- `errorCode`
unfoldable pub error_code : HandlerError → String × String
unfolding found_error coded_error or_failed
error_code e =
    if e.nil_pointer
    then (function_failed, "handler returned a typed-nil " ++ e.type_name)
    else found_error e.function_error e.coded e.text

with_args : Option Fields → Fields
with_args none = end
with_args (some args) = field "args" (obj args) end

pub call_fields : FunctionCall → Fields
call_fields call =
    let rest = with_args call.args in
    field "call" (str call.call)
      (if call.catalog_id == "" then rest else field "catalogId" (str call.catalog_id) rest)

-- `NewCallRendererFunction`
unfoldable pub new_call_renderer_function : String → FunctionCall → Fields
unfolding call_fields with_args
new_call_renderer_function id call = field "version" (str "v1.0") (
    field "callRendererFunction"
      (obj (field "functionCallId" (str id) (field "callFunction" (obj (call_fields call)) end)))
      end)

-- `NewAgentFunctionResponse`
unfoldable pub new_agent_function_response : String → Value → Fields
new_agent_function_response id value = field "version" (str "v1.0") (
    field "agentFunctionResponse" (obj (field "functionCallId" (str id) (field "value" value end)))
      end)

-- `NewAgentFunctionError`
unfoldable pub new_agent_function_error : String → String → String → Fields
new_agent_function_error id code message = field "version" (str "v1.0") (
    field "agentFunctionResponse"
      (obj (
        field "functionCallId" (str id)
          (field "error" (obj (field "code" (str code) (field "message" (str message) end))) end)))
      end)

-- `encoding/json` on the values that handlers return.
pub record Codec (Any : Type 0) : Type 0 where
  pub is_nil : Any → Bool
  pub marshal : Any → Result String
  pub unmarshal : String → Result Value

abbrev decode_result : {Any : Type 0} → Codec Any → Result String → Result Value
decode_result codec (err e) = err e
decode_result codec (ok bytes) = codec.unmarshal bytes

-- A panic ends the call: `Register` returns the dispatcher or the text of the panic.
pub data Registered (Any : Type 0) : Type 0 where
  registered : GoMap (Handler Any) → Registered Any
  panicked : String → Registered Any

module _ {Any : Type 0} where
  register_handler : String → Option (Handler Any) → GoMap (Handler Any) → Registered Any
  register_handler name none d =
      panicked ("a2ui/v10: Register(" ++ (quote name ++ ") with nil handler"))
  register_handler name (some h) d = registered ((name, h) ∷ d)

  -- `Register`; a nil handler is `none`.
  unfoldable pub register_function :
      String → Option (Handler Any) → GoMap (Handler Any) → Registered Any
  unfolding register_handler
  register_function name h d =
      if name == ""
      then panicked "a2ui/v10: Register with empty function name"
      else register_handler name h d

  module _ (codec : Codec Any) where
    -- `toJSONTree`
    unfoldable pub to_json_tree : Any → Result Value
    to_json_tree v = if codec.is_nil v then ok null else decode_result codec (codec.marshal v)

    answer_value : String → Result Value → Fields
    answer_value id (ok plain) = new_agent_function_response id plain
    answer_value id (err e) =
        new_agent_function_error id function_failed ("encode result: " ++ error_text e)

    answer : String → Any × Option HandlerError → Fields
    unfolding answer_value
    answer id (value, none) = answer_value id (to_json_tree value)
    answer id (value, some e) = new_agent_function_error id (error_code e).0 (error_code e).1

    dispatch : CallAgentFunction → Option (Handler Any) → Fields
    dispatch call none =
        new_agent_function_error call.function_call_id function_not_found
          ("no agent function named " ++ quote call.call_function.call)
    dispatch call (some h) = answer call.function_call_id (h call)

    -- `Handle`; a nil call is `none`.
    unfoldable pub handle : GoMap (Handler Any) → Option CallAgentFunction → Fields
    unfolding dispatch answer answer_value
    handle d none = new_agent_function_error "" function_failed "nil call"
    handle d (some call) = dispatch call (lookup call.call_function.call d)
