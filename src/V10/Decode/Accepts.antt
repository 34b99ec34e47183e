-- ===== src/V10/Decode/Accepts.antt =====
-- v10/decode.go: which messages pass the checks of a round.
use adk_a2ui_go.Common.{
  String, ◌≡◌, ◌≢◌, refl, ◌↔◌, ◌⊎◌, inl, inr, false, Option, none, some, List, [], ◌∷◌, ◌==◌, Elem,
  Bool-cases, String-cases, append-nil_iff, ap,
}
use adk_a2ui_go.Json.{
  Value, null, bool, num, str, arr, obj, strings, objects, other, Fields, get, as_obj, str_at,
  obj_of, is_empty_str, keys,
}
use adk_a2ui_go.Kit.Problem.{Problem}
use adk_a2ui_go.Kit.Error.{ok, ◌>>=◌, >>=-eq-ok}
use adk_a2ui_go.Kit.Options.{ValidateOptions}
use adk_a2ui_go.Spec.{Embedded, major_v10}
use adk_a2ui_go.Schema.Paths.{join_path}
use adk_a2ui_go.Schema.Inbound.{inbound_precheck}
use adk_a2ui_go.Schema.Inbound.Laws.{IsPinned, other_keys, inbound_precheck-nil_iff}
use adk_a2ui_go.Schema.Resolve.{resolve_catalog}
use adk_a2ui_go.Schema.Format.Text.{Printer}
use adk_a2ui_go.Schema.Passes.{refused}
use adk_a2ui_go.Schema.Passes.Steps.{refused-nil_iff, Allowed, Answers}
use adk_a2ui_go.Schema.Engine.{Schema, Engine}
use adk_a2ui_go.V10.Callers.{allowed_callers, agent_only, renderer_may_call}
use adk_a2ui_go.V10.Decode.{
  renderer_message_keys, caller_problems, call_against, call_catalog, call_args, called,
  check_agent_call, after_envelope, after_precheck, check_message,
}

ok-nil_iff : (ps : List Problem) → (ok ps ≡ ok []) ↔ (ps ≡ [])
ok-nil_iff ps = (λ h. cc, ap ok)

-- The arguments of a call are an object, or left out.
abbrev pub HasObjectArgs : Option Value → Type 0
HasObjectArgs none = Unit
HasObjectArgs (some (obj args)) = Unit
HasObjectArgs (some v) = ⊥

module _ (files : Embedded) (eng : Engine) (out : Printer) (opts : ValidateOptions) where
  -- The definition of a call in its catalog compiles and admits it, and the catalog does not leave it to
  -- the agent alone.
  abbrev pub CallDefined : Fields → Option Fields → Type 0
  CallDefined call none = Unit
  CallDefined call (some cat) =
      ((s : Schema) × (eng.compile_ref "common_types.json#/$defs/FunctionCall" cat false ≡ ok s)
        × (s (obj call) ≡ none))
      × (allowed_callers cat (str_at "call" call) ≢ agent_only)

  -- A call names no catalog, or one for which `ResolveCatalog` answers, with an answer that is allowed
  -- and a document that defines the call.
  abbrev pub CallResolved : Fields → Type 0
  CallResolved call =
      let cid = str_at "catalogId" call in
      (is_empty_str (get "catalogId" call) ≡ false)
      × ((cid ≡ "")
          ⊎ Answers (λ c. resolve_catalog files major_v10 c opts) opts.strict cid
              (CallDefined call))

  abbrev pub CallOk : Option Fields → Type 0
  CallOk none = Unit
  CallOk (some caf) =
      let call = obj_of (get "callFunction" caf) in
      HasObjectArgs (get "args" call) × CallResolved call

  -- A message has the pinned version, if there is one, and one of the known keys, the schema admits it,
  -- and a call of an agent's function is in order.
  abbrev pub Accepts : Schema → Fields → Type 0
  Accepts envelope m =
      (IsPinned opts.version (str_at "version" m)
        × ((k : String) × (other_keys (keys m) ≡ k ∷ []) × Elem k renderer_message_keys))
      × (envelope (obj m) ≡ none)
      × CallOk (as_obj (get "callAgentFunction" m))

  caller_problems-nil_iff :
      (cat call : Fields) (path : String)
      → (caller_problems files eng out opts cat call path ≡ [])
        ↔ (allowed_callers cat (str_at "call" call) ≢ agent_only)
  unfolding caller_problems renderer_may_call
  caller_problems-nil_iff cat call path =
      elim (String-cases (allowed_callers cat (str_at "call" call)) agent_only) [
        | inl e ↦ rw e (λ h. cc, λ ne. absurd (ne refl))
        | inr (off, ne) ↦
            rw off (elim (Bool-cases (allowed_callers cat (str_at "call" call) == "")) [
              | inl e ↦ rw e (λ h. ne, λ h. refl)
              | inr e ↦ rw e (λ h. ne, λ h. refl)
            ])
      ]

  call_against-nil_iff :
      (cid : String) (call : Fields) (path : String) (found : Option Fields)
      → (call_against files eng out opts cid call path found ≡ ok [])
        ↔ (Allowed opts.strict found × CallDefined call found)
  unfolding call_against
  call_against-nil_iff cid call path none = elim (Bool-cases opts.strict) [
    | inl e ↦ rw e (λ h. cc, λ h. cc h.0)
    | inr e ↦ rw e (λ h. (refl, tt), λ h. refl)
  ]
  call_against-nil_iff cid call path (some cat) =
      let compiled = eng.compile_ref "common_types.json#/$defs/FunctionCall" cat false in
      let found : Schema → List Problem = λ s. refused out (obj call) path (s (obj call)) in
      let callers = caller_problems files eng out opts cat call path in
      let callers_ok = caller_problems-nil_iff cat call path in
      (
        λ h.
            let (s, e, k) = >>=-eq-ok compiled _ h in
            let (a, b) = (append-nil_iff (found s) callers).0 ((ok-nil_iff _).0 k) in
            (
              tt,
              ((s, e, (refused-nil_iff out (obj call) path (s (obj call))).0 a), callers_ok.0 b),
            ),
        λ (u, ((s, e, a), b)).
            let clean =
              (append-nil_iff (found s) callers).1
                ((refused-nil_iff out (obj call) path (s (obj call))).1 a, callers_ok.1 b) in
            rw e ((ok-nil_iff _).1 clean),
      )

  resolved-nil_iff :
      (cid : String) (call : Fields) (path : String)
      → ((resolve_catalog files major_v10 cid opts
            >>= call_against files eng out opts cid call path)
          ≡ ok [])
        ↔ Answers (λ c. resolve_catalog files major_v10 c opts) opts.strict cid (CallDefined call)
  resolved-nil_iff cid call path = (
    λ h.
        let (found, e, k) = >>=-eq-ok (resolve_catalog files major_v10 cid opts) _ h in
        let (a, d) = (call_against-nil_iff cid call path found).0 k in (found, e, a, d),
    λ (found, e, a, d). rw e ((call_against-nil_iff cid call path found).1 (a, d)),
  )

  call_catalog-nil_iff :
      (call : Fields) (path : String)
      → (call_catalog files eng out opts call path ≡ ok []) ↔ CallResolved call
  unfolding call_catalog
  call_catalog-nil_iff call path = elim (Bool-cases (is_empty_str (get "catalogId" call))) [
    | inl e ↦ rw e (λ h. cc, λ h. cc h.0)
    | inr e ↦ elim (String-cases (str_at "catalogId" call) "") [
      | inl s ↦ rw e (rw s (λ h. (refl, inl refl), λ h. refl))
      | inr (ne, off) ↦
          let iff = resolved-nil_iff (str_at "catalogId" call) call path in
          rw e (
            rw ne (
              λ h. (refl, inr (iff.0 h)),
              λ h. elim h.1 [ inl s ↦ absurd (off s) | inr a ↦ iff.1 a ],
            ))
    ]
  ]

  call_args-nil_iff :
      (call : Fields) (path : String) (args : Option Value)
      → (call_args files eng out opts call path args ≡ ok [])
        ↔ (HasObjectArgs args × CallResolved call)
  unfolding call_args
  call_args-nil_iff call path none =
      let iff = call_catalog-nil_iff call path in (λ h. (tt, iff.0 h), λ h. iff.1 h.1)
  call_args-nil_iff call path (some (obj args)) =
      let iff = call_catalog-nil_iff call path in (λ h. (tt, iff.0 h), λ h. iff.1 h.1)
  call_args-nil_iff call path (some null) = (λ h. cc, λ h. absurd h.0)
  call_args-nil_iff call path (some (bool b)) = (λ h. cc, λ h. absurd h.0)
  call_args-nil_iff call path (some (num n)) = (λ h. cc, λ h. absurd h.0)
  call_args-nil_iff call path (some (str s)) = (λ h. cc, λ h. absurd h.0)
  call_args-nil_iff call path (some (arr vs)) = (λ h. cc, λ h. absurd h.0)
  call_args-nil_iff call path (some (strings l)) = (λ h. cc, λ h. absurd h.0)
  call_args-nil_iff call path (some (objects l)) = (λ h. cc, λ h. absurd h.0)
  call_args-nil_iff call path (some (other t)) = (λ h. cc, λ h. absurd h.0)

  called-nil_iff :
      (caf : Option Fields) (path : String)
      → (called files eng out opts caf path ≡ ok []) ↔ CallOk caf
  unfolding called
  called-nil_iff none path = (λ h. tt, λ h. refl)
  called-nil_iff (some caf) path =
      let call = obj_of (get "callFunction" caf) in
      call_args-nil_iff call (join_path path "callAgentFunction.callFunction") (get "args" call)

  after_envelope-nil_iff :
      (m : Fields) (path : String) (ps : List Problem)
      → (after_envelope files eng out opts m path ps ≡ ok [])
        ↔ ((ps ≡ []) × CallOk (as_obj (get "callAgentFunction" m)))
  unfolding after_envelope check_agent_call
  after_envelope-nil_iff m path [] =
      let iff = called-nil_iff (as_obj (get "callAgentFunction" m)) path in
      (λ h. (refl, iff.0 h), λ h. iff.1 h.1)
  after_envelope-nil_iff m path (p ∷ ps) = (λ h. cc, λ h. cc h.0)

  after_precheck-nil_iff :
      (envelope : Schema) (m : Fields) (path : String) (ps : List Problem)
      → (after_precheck files eng out opts envelope m path ps ≡ ok [])
        ↔ ((ps ≡ []) × (envelope (obj m) ≡ none) × CallOk (as_obj (get "callAgentFunction" m)))
  unfolding after_precheck
  after_precheck-nil_iff envelope m path [] =
      let found = refused out (obj m) path (envelope (obj m)) in
      let iff = after_envelope-nil_iff m path found in
      let admits = refused-nil_iff out (obj m) path (envelope (obj m)) in
      (λ h. (let (r, c) = iff.0 h in (refl, admits.0 r, c)), λ (u, a, c). iff.1 (admits.1 a, c))
  after_precheck-nil_iff envelope m path (p ∷ ps) = (λ h. cc, λ h. cc h.0)

  pub check_message-nil_iff :
      (envelope : Schema) (m : Fields) (path : String)
      → (check_message files eng out opts envelope m path ≡ ok []) ↔ Accepts envelope m
  unfolding check_message
  check_message-nil_iff envelope m path =
      let iff =
        after_precheck-nil_iff envelope m path
          (inbound_precheck m opts.version renderer_message_keys path) in
      let pre = inbound_precheck-nil_iff m opts.version renderer_message_keys path in
      (λ h. (let (p, e, c) = iff.0 h in (pre.0 p, e, c)), λ (p, e, c). iff.1 (pre.1 p, e, c))
