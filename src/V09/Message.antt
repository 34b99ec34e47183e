-- ===== src/V09/Message.antt =====
-- v09/client_message.go: the messages of a client, and their one-line renderings.
use Prim.Native.String.{◌++◌}
use adk_a2ui_go.Common.{String, Option}
use adk_a2ui_go.Common.Text.{quote}
use adk_a2ui_go.Json.{Fields}
use adk_a2ui_go.Render.{show_context, show_code, show_path}

pub record ClientAction : Type 0 where
  pub name : String
  pub surface_id : String
  pub source_component_id : String
  pub timestamp : String
  pub context : Fields

pub record ClientError : Type 0 where
  pub code : String
  pub surface_id : String
  pub message : String
  pub path : String

pub record ClientMessage : Type 0 where
  pub version : String
  pub action : Option ClientAction
  pub error : Option ClientError
  pub raw : Fields

-- `(*Action).String`
pub show_client_action : (Fields → String) → ClientAction → String
show_client_action marshal a =
    "user action "
    ++ (quote a.name
        ++ (" on surface "
            ++ (quote a.surface_id
                ++ (" from component "
                    ++ (quote a.source_component_id ++ (" " ++ show_context marshal a.context))))))

-- `(*ClientError).String`
pub show_client_error : ClientError → String
show_client_error e =
    "renderer error "
    ++ (show_code e.code
        ++ (" on surface " ++ (quote e.surface_id ++ (show_path e.path ++ (": " ++ e.message)))))
