-- ===== src/V10/Dispatch/Valid.antt =====
-- v10/dispatch.go and v10/validate.go: what validation asks of the messages that the dispatcher and
-- NewCallRendererFunction build.
use adk_a2ui_go.Common.{
  String, ◌≡◌, refl, ◌↔◌, ◌⊎◌, inl, inr, false, Option, none, some, List, [], ◌∷◌, ◌==◌,
  if◌then◌else◌, GoMap, String-cases, Bool-cases, eq_iff, sym,
}
use mathlib.Core.Path.{subst}
use adk_a2ui_go.Json.{Value, str, obj, Fields, end, field, get, str_at, obj_of, is_empty_str}
use adk_a2ui_go.Kit.Error.{ok}
use adk_a2ui_go.Kit.Options.{ValidateOptions}
use adk_a2ui_go.Spec.{Embedded}
use adk_a2ui_go.Schema.Format.Text.{Printer}
use adk_a2ui_go.Schema.Engine.{Schema, Engine, to_instance}
use adk_a2ui_go.V10.Message.{FunctionCall, CallAgentFunction}
use adk_a2ui_go.V10.Rules.Spec.{BatchOk}
use adk_a2ui_go.V10.Validate.{validate}
use adk_a2ui_go.V10.Validate.Laws.{Supported, Pins, validate-ok_iff}
use adk_a2ui_go.V10.Validate.Pass.{Meets, MayCall, CatalogsOk}
use adk_a2ui_go.V10.Validate.Pass.Steps.{validate_against_catalogs-nil_iff}
use adk_a2ui_go.V10.Dispatch.{
  call_fields, with_args, new_call_renderer_function, new_agent_function_response,
  new_agent_function_error, Handler, Codec, handle,
}
use adk_a2ui_go.V10.Dispatch.Laws.{IsAnswer, handle-IsAnswer}

args_catalog : (args : Option Fields) → get "catalogId" (with_args args) ≡ none
unfolding get with_args
args_catalog none = refl
args_catalog (some args) = refl

catalog_entry :
    (call : FunctionCall)
    → get "catalogId" (call_fields call)
      ≡ (if call.catalog_id == "" then none else some (str call.catalog_id))
unfolding get call_fields
catalog_entry call = elim (Bool-cases (call.catalog_id == "")) [
  | inl e ↦ rw e (args_catalog call.args)
  | inr e ↦ rw e refl
]

call_fields-catalog :
    (call : FunctionCall) → str_at "catalogId" (call_fields call) ≡ call.catalog_id
unfolding str_at
call_fields-catalog call = elim (String-cases call.catalog_id "") [
  | inl e ↦ rw (catalog_entry call) (rw ((eq_iff call.catalog_id "").1 e) (sym e))
  | inr (off, _) ↦ rw (catalog_entry call) (rw off refl)
]

call_fields-names :
    (call : FunctionCall) → is_empty_str (get "catalogId" (call_fields call)) ≡ false
call_fields-names call = elim (Bool-cases (call.catalog_id == "")) [
  | inl e ↦ rw (catalog_entry call) (rw e refl)
  | inr e ↦ rw (catalog_entry call) (rw e e)
]

module _ (files : Embedded) (eng : Engine) (out : Printer) (opts : ValidateOptions) where
  -- The schema of a batch compiles and admits it.
  abbrev pub Admitted : List Fields → Type 0
  Admitted ms =
      (envelope : Schema) × (eng.compile "agent_to_renderer_list.json" false ≡ ok envelope)
      × (envelope (to_instance ms) ≡ none)

  abbrev pub CallMeets : FunctionCall → Type 0
  CallMeets call =
      (call.catalog_id ≡ "")
      ⊎ Meets files eng out opts call.catalog_id "common_types.json#/$defs/FunctionCall"
          (obj (call_fields call)) (MayCall call.call)

  alone-ok_iff :
      (m : Fields)
      → (validate files eng out opts (m ∷ []) ≡ ok tt) ↔ (
          Supported opts.version
          × Pins opts.version (str_at "version" m)
          × Admitted (m ∷ [])
          × CatalogsOk files eng out opts (m ∷ [])
          × BatchOk (m ∷ []))
  alone-ok_iff m =
      let whole = validate-ok_iff files eng out opts (m ∷ []) in
      let pass = validate_against_catalogs-nil_iff files eng out opts (m ∷ []) in
      (
        λ h. (let (s, p, a, c, b) = whole.0 h in (s, p.0, a, pass.0 c, b)),
        λ (s, p, a, c, b). whole.1 (s, (p, tt), a, pass.1 c, b),
      )

  pins : (version : String) → Supported version → Pins version "v1.0"
  pins version (inl e) = inl e
  pins version (inr e) = inr (sym e)

  call-CatalogsOk_iff :
      (id : String) (call : FunctionCall)
      → CatalogsOk files eng out opts (new_call_renderer_function id call ∷ []) ↔ CallMeets call
  unfolding new_call_renderer_function get obj_of str_at
  call-CatalogsOk_iff id call =
      let P : String → Type 0 = λ cid.
        (cid ≡ "")
        ⊎ Meets files eng out opts cid "common_types.json#/$defs/FunctionCall"
            (obj (call_fields call)) (MayCall call.call) in
      (
        λ h. subst P (call_fields-catalog call) h.1.0.2,
        λ h. ((tt, tt), ((tt, tt, subst P (sym (call_fields-catalog call)) h), tt)),
      )

  call-BatchOk :
      (id : String) (call : FunctionCall) → BatchOk (new_call_renderer_function id call ∷ [])
  unfolding new_call_renderer_function get obj_of
  call-BatchOk id call = record {
    messages = (
      record {
        create = tt;
        update = tt;
        data_model = tt;
        delete = tt;
        call = call_fields-names call;
      },
      tt,
    );
    once = tt;
    rooted = tt;
  }

  -- The message that `NewCallRendererFunction` builds is accepted by `Validate`, alone, exactly where
  -- the pinned version is v1.0 or none, the schema admits it, and the call has no catalog id or one
  -- for which `ResolveCatalog` answers, in strict mode with a document, whose definition admits the
  -- call as it is written and which lets the agent make it.
  pub new_call_renderer_function-ok_iff :
      (id : String) (call : FunctionCall)
      → (validate files eng out opts (new_call_renderer_function id call ∷ []) ≡ ok tt) ↔ (
          Supported opts.version
          × Admitted (new_call_renderer_function id call ∷ [])
          × CallMeets call)
  unfolding new_call_renderer_function str_at get
  new_call_renderer_function-ok_iff id call =
      let iff = alone-ok_iff (new_call_renderer_function id call) in
      let catalogs = call-CatalogsOk_iff id call in
      (
        λ h. (let (s, p, a, c, b) = iff.0 h in (s, a, catalogs.0 c)),
        λ (s, a, c). iff.1 (s, pins opts.version s, a, catalogs.1 c, call-BatchOk id call),
      )

  abbrev response : Value → Fields
  response v = field "version" (str "v1.0") (field "agentFunctionResponse" v end)

  response-BatchOk : (v : Value) → BatchOk (response v ∷ [])
  unfolding get
  response-BatchOk v = record {
    messages = (record { create = tt; update = tt; data_model = tt; delete = tt; call = tt }, tt);
    once = tt;
    rooted = tt;
  }

  response-ok_iff :
      (v : Value)
      → (validate files eng out opts (response v ∷ []) ≡ ok tt)
        ↔ (Supported opts.version × Admitted (response v ∷ []))
  unfolding get str_at
  response-ok_iff v =
      let iff = alone-ok_iff (response v) in
      (
        λ h. (let (s, p, a, c, b) = iff.0 h in (s, a)),
        λ (s, a).
            iff.1 (s, pins opts.version s, a, ((tt, tt), ((tt, tt, tt), tt)), response-BatchOk v),
      )

  answer-ok_iff :
      (id : String) (m : Fields)
      → IsAnswer id m
      → (validate files eng out opts (m ∷ []) ≡ ok tt)
        ↔ (Supported opts.version × Admitted (m ∷ []))
  unfolding new_agent_function_response new_agent_function_error
  answer-ok_iff id m (inl (v, e)) = rw e (response-ok_iff _)
  answer-ok_iff id m (inr (code, message, _, e)) = rw e (response-ok_iff _)

  -- Whatever is registered and whatever a handler returns, `Validate` accepts the answer of `Handle`
  -- to a call, alone, exactly where the pinned version is v1.0 or none and the schema admits it: no
  -- rule and no catalog gets in its way.
  pub handle-ok_iff :
      {Any : Type 0} (codec : Codec Any) (d : GoMap (Handler Any)) (call : CallAgentFunction)
      → (validate files eng out opts (handle codec d (some call) ∷ []) ≡ ok tt)
        ↔ (Supported opts.version × Admitted (handle codec d (some call) ∷ []))
  handle-ok_iff codec d call =
      answer-ok_iff call.function_call_id (handle codec d (some call))
        (handle-IsAnswer codec d call)
