-- ===== src/V10/Dispatch/Laws.antt =====
-- v10/dispatch.go: every call of an agent's function is answered, and how.
use adk_a2ui_go.Common.{
  String, true, false, ◌≡◌, refl, ◌≢◌, ◌↔◌, ◌⊎◌, inl, inr, Option, none, some, [], ◌∷◌, eq_refl,
  GoMap, lookup, String-cases, eq_iff, Bool-cases, ap, sym,
}
use adk_a2ui_go.Json.{Value, Fields, get, obj_of}
use adk_a2ui_go.Kit.Error.{Result, ok, err}
use adk_a2ui_go.V10.Message.{CallAgentFunction, FunctionError}
use adk_a2ui_go.V10.Dispatch.{
  function_failed, HandlerError, Handler, error_code, found_error, coded_error, or_failed,
  new_agent_function_response, new_agent_function_error, Codec, registered, register_function,
  register_handler, to_json_tree, handle, dispatch, answer, answer_value, function_not_found,
}

-- What the renderer hears: a value, or an error whose code is not empty.
abbrev pub IsAnswer : String → Fields → Type 0
IsAnswer id m =
    ((v : Value) × (m ≡ new_agent_function_response id v))
    ⊎ ((code : String) × (message : String) × (code ≢ "")
        × (m ≡ new_agent_function_error id code message))

or_failed-nonempty : (code : String) → or_failed code ≢ ""
unfolding or_failed
or_failed-nonempty code = elim (String-cases code "") [
  | inl e ↦ rw e (λ h. (let k : false ≡ true = (eq_iff function_failed "").1 h in cc))
  | inr (off, n) ↦ rw off n
]

failed-nonempty : function_failed ≢ ""
failed-nonempty h = let k : false ≡ true = (eq_iff function_failed "").1 h in cc

not_found-nonempty : function_not_found ≢ ""
not_found-nonempty h = let k : false ≡ true = (eq_iff function_not_found "").1 h in cc

coded-nonempty : (c : Option (Option String)) (t : String) → (coded_error c t).0 ≢ ""
unfolding coded_error
coded-nonempty none t = failed-nonempty
coded-nonempty (some none) t = failed-nonempty
coded-nonempty (some (some c)) t = or_failed-nonempty c

found-nonempty :
    (f : Option (Option FunctionError)) (c : Option (Option String)) (t : String)
    → (found_error f c t).0 ≢ ""
unfolding found_error
found-nonempty none c t = coded-nonempty c t
found-nonempty (some none) c t = coded-nonempty c t
found-nonempty (some (some e)) c t = or_failed-nonempty e.code

error_code-nonempty : (e : HandlerError) → (error_code e).0 ≢ ""
unfolding error_code
error_code-nonempty e = elim (Bool-cases e.nil_pointer) [
  | inl h ↦ rw h failed-nonempty
  | inr h ↦ rw h (found-nonempty e.function_error e.coded e.text)
]

module _ {Any : Type 0} (codec : Codec Any) where
  answer_value-IsAnswer : (id : String) (r : Result Value) → IsAnswer id (answer_value codec id r)
  unfolding answer_value
  answer_value-IsAnswer id (ok v) = inl (v, refl)
  answer_value-IsAnswer id (err e) = inr (function_failed, _, failed-nonempty, refl)

  answer-IsAnswer : (id : String) (r : Any × Option HandlerError) → IsAnswer id (answer codec id r)
  unfolding answer
  answer-IsAnswer id (v, none) = answer_value-IsAnswer id (to_json_tree codec v)
  answer-IsAnswer id (v, some e) = inr (_, _, error_code-nonempty e, refl)

  dispatch-IsAnswer :
      (call : CallAgentFunction) (h : Option (Handler Any))
      → IsAnswer call.function_call_id (dispatch codec call h)
  unfolding dispatch
  dispatch-IsAnswer call none = inr (_, _, not_found-nonempty, refl)
  dispatch-IsAnswer call (some h) = answer-IsAnswer call.function_call_id (h call)

  -- Whatever is registered and whatever a handler returns, a call is answered by a message that
  -- carries its `functionCallId` and either a value or an error whose code is not empty.
  pub handle-IsAnswer :
      (d : GoMap (Handler Any)) (call : CallAgentFunction)
      → IsAnswer call.function_call_id (handle codec d (some call))
  unfolding handle
  handle-IsAnswer d call = dispatch-IsAnswer call (lookup call.call_function.call d)

  response_inj :
      (id : String) (v w : Value)
      → new_agent_function_response id v ≡ new_agent_function_response id w
      → v ≡ w
  unfolding new_agent_function_response
  response_inj id v w h = cc

  response-error_disjoint :
      (id code message : String) (v : Value)
      → new_agent_function_error id code message ≢ new_agent_function_response id v
  unfolding new_agent_function_response new_agent_function_error get obj_of
  response-error_disjoint id code message v h =
      let k : none ≡ some v = ap (λ m. get "value" (obj_of (get "agentFunctionResponse" m))) h in cc

  answer_value_iff :
      (id : String) (r : Result Value) (v : Value)
      → (answer_value codec id r ≡ new_agent_function_response id v) ↔ (r ≡ ok v)
  unfolding answer_value
  answer_value_iff id (ok w) v =
      (λ h. ap ok (response_inj id w v h), λ h. ap (new_agent_function_response id) cc)
  answer_value_iff id (err e) v = (λ h. absurd (response-error_disjoint id _ _ v h), λ h. cc)

  answer_iff :
      (id : String) (r : Any × Option HandlerError) (v : Value)
      → (answer codec id r ≡ new_agent_function_response id v)
        ↔ ((r.1 ≡ none) × (to_json_tree codec r.0 ≡ ok v))
  unfolding answer
  answer_iff id (w, none) v = (
    λ h. (refl, (answer_value_iff id (to_json_tree codec w) v).0 h),
    λ h. (answer_value_iff id (to_json_tree codec w) v).1 h.1,
  )
  answer_iff id (w, some e) v = (λ h. absurd (response-error_disjoint id _ _ v h), λ h. cc)

  dispatch_iff :
      (call : CallAgentFunction) (h : Option (Handler Any)) (v : Value)
      → (dispatch codec call h ≡ new_agent_function_response call.function_call_id v) ↔ (
          (f : Handler Any) × (h ≡ some f)
          × ((f call).1 ≡ none)
          × (to_json_tree codec (f call).0 ≡ ok v))
  unfolding dispatch
  dispatch_iff call none v = (
    λ h. absurd (response-error_disjoint call.function_call_id _ _ v h),
    λ k. (let e : none ≡ some k.0 = k.1 in cc),
  )
  dispatch_iff call (some f) v = (
    λ h. (let (a, b) = (answer_iff call.function_call_id (f call) v).0 h in (f, refl, a, b)),
    λ (g, e, k1, k2).
        (let same : f ≡ g = cc in
          (answer_iff call.function_call_id (f call) v).1 (rw same (k1, k2))),
  )

  -- A call is answered by the value `v` exactly when its function is registered, the handler
  -- returns no error, and what the handler returns is encoded as `v`.
  pub handle-value_iff :
      (d : GoMap (Handler Any)) (call : CallAgentFunction) (v : Value)
      → (handle codec d (some call) ≡ new_agent_function_response call.function_call_id v) ↔ (
          (f : Handler Any) × (lookup call.call_function.call d ≡ some f)
          × ((f call).1 ≡ none)
          × (to_json_tree codec (f call).0 ≡ ok v))
  unfolding handle
  handle-value_iff d call v = dispatch_iff call (lookup call.call_function.call d) v

  -- `Register` succeeds exactly for a name that is not empty and a handler that is not nil; then
  -- that name, and no other, has the handler, whatever it had before.
  pub register_function_iff :
      (name : String) (h : Option (Handler Any)) (d d2 : GoMap (Handler Any))
      → (register_function name h d ≡ registered d2)
        ↔ ((name ≢ "") × ((f : Handler Any) × (h ≡ some f) × (d2 ≡ ((name, f) ∷ d))))
  unfolding register_function register_handler
  register_function_iff name none d d2 = elim (String-cases name "") [
    | inl e ↦ rw e (λ k. cc, λ k. absurd (k.0 refl))
    | inr (off, n) ↦ rw off (λ k. cc, λ k. (let e : none ≡ some k.1.0 = k.1.1 in cc))
  ]
  register_function_iff name (some f) d d2 = elim (String-cases name "") [
    | inl e ↦ rw e (λ k. cc, λ k. absurd (k.0 refl))
    | inr (off, n) ↦
        rw off (λ k. (n, (f, refl, cc)), λ (_, (g, e, k)). (let same : f ≡ g = cc in cc))
  ]

  -- The handler that is registered last for a name answers its calls, as if it were the only one;
  -- calls of other names are answered as before.
  pub register_function-handle :
      (name : String) (f : Handler Any) (d d2 : GoMap (Handler Any)) (call : CallAgentFunction)
      → register_function name (some f) d ≡ registered d2
      → (call.call_function.call ≡ name
          → handle codec d2 (some call) ≡ handle codec ((name, f) ∷ []) (some call))
        × (call.call_function.call ≢ name
            → handle codec d2 (some call) ≡ handle codec d (some call))
  unfolding handle lookup
  register_function-handle name f d d2 call reg =
      let (_, (g, e, k)) = (register_function_iff name (some f) d d2).0 reg in
      let same : d2 ≡ ((name, f) ∷ d) = cc in
      rw same (
        λ h. rw h (rw (eq_refl name) refl),
        λ h. elim (String-cases name call.call_function.call) [
          | inl p ↦ absurd (h (sym p))
          | inr (off, _) ↦ rw off refl
        ],
      )
