-- ===== src/Examples/Calls.antt =====
-- A call of an agent's function.
use adk_a2ui_go.Common.{String, ◌≡◌, refl, false, none, some, [], ◌∷◌, GoMap, lookup}
use adk_a2ui_go.Json.{str}
use adk_a2ui_go.Kit.Error.{ok}
use adk_a2ui_go.V10.Message.{CallAgentFunction}
use adk_a2ui_go.V10.Dispatch.{Codec, Handler, handle, to_json_tree}
use adk_a2ui_go.V10.Dispatch.Laws.{IsAnswer, handle-IsAnswer, handle-value_iff}

abbrev pub texts : Codec String
texts = record { is_nil = λ s. false; marshal = λ s. ok s; unmarshal = λ b. ok (str b) }

abbrev pub call : CallAgentFunction
call = record {
  surface_id = "s1";
  function_call_id = "7";
  call_function = record { call = "greet"; catalog_id = ""; args = none };
}

abbrev greet : Handler String
greet c = ("hello", none)

abbrev name : String
name = "greet"

abbrev pub handlers : GoMap (Handler String)
handlers = (name, greet) ∷ []

handle-IsAnswer_example : IsAnswer "7" (handle texts handlers (some call))
handle-IsAnswer_example = handle-IsAnswer texts handlers call

handle-value_iff_example :
    (f : Handler String) × (lookup "greet" handlers ≡ some f)
    × ((f call).1 ≡ none)
    × (to_json_tree texts (f call).0 ≡ ok (str "hello"))
unfolding handle lookup to_json_tree
handle-value_iff_example = (handle-value_iff texts handlers call (str "hello")).0 refl
