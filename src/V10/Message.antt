-- ===== src/V10/Message.antt =====
-- v10/renderer_message.go: the messages of a v1.0 renderer, and their one-line renderings.
use Prim.Native.String.{◌++◌}
use adk_a2ui_go.Common.{String, Option, none, some, ◌==◌, if◌then◌else◌}
use adk_a2ui_go.Common.Text.{quote}
use adk_a2ui_go.Json.{Value, Fields}
use adk_a2ui_go.Render.{show_context, show_code, show_path}

pub record Action : Type 0 where
  pub name : String
  pub user_message : String
  pub surface_id : String
  pub source_component_id : String
  pub timestamp : String
  pub context : Fields
  pub extensions : Option Fields

-- Nil arguments are `none`.
pub record FunctionCall : Type 0 where
  pub call : String
  pub catalog_id : String
  pub args : Option Fields

pub record CallAgentFunction : Type 0 where
  pub surface_id : String
  pub function_call_id : String
  pub call_function : FunctionCall

pub record FunctionError : Type 0 where
  pub code : String
  pub message : String

pub record FunctionResponse : Type 0 where
  pub function_call_id : String
  pub value : Value
  pub error : Option FunctionError

pub record RendererError : Type 0 where
  pub code : String
  pub message : String
  pub surface_id : String
  pub path : String
  pub function_call_id : String

pub record RendererMessage : Type 0 where
  pub version : String
  pub action : Option Action
  pub call_agent_function : Option CallAgentFunction
  pub renderer_function_response : Option FunctionResponse
  pub error : Option RendererError
  pub raw : Fields

-- `(*FunctionError).Error`
unfoldable pub function_error_text : Option FunctionError → String
function_error_text none = "nil *FunctionError"
function_error_text (some e) =
    if e.message == "" then show_code e.code else show_code e.code ++ (": " ++ e.message)

-- `(*Action).String`
pub show_action : (Fields → String) → Action → String
show_action marshal a =
    let s =
      "user action "
      ++ (quote a.name
          ++ (" on surface "
              ++ (quote a.surface_id
                  ++ (" from component "
                      ++ (quote a.source_component_id
                          ++ (" " ++ show_context marshal a.context)))))) in
    if a.user_message == "" then s else s ++ (" (user said: " ++ (quote a.user_message ++ ")"))

-- `(*RendererError).String`
pub show_renderer_error : RendererError → String
show_renderer_error e =
    let where_text =
      if e.surface_id == ""
      then (if e.function_call_id == ""
          then ""
          else " for function call " ++ quote e.function_call_id)
      else " on surface " ++ quote e.surface_id in
    "renderer error "
    ++ (show_code e.code ++ (where_text ++ (show_path e.path ++ (": " ++ e.message))))
