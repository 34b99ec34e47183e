-- ===== src/V09/Decode/Exact.antt =====
-- v09/decode.go: what a list of messages is decoded to, exactly.
use adk_a2ui_go.Common.{
  String, ◌≡◌, refl, ◌↔◌, inl, inr, true, false, ◌||◌, not, Option, none, some, List, [], ◌∷◌, ◌==◌,
  eq_iff, Elem, Bool-cases, ap, sym, ◌∙◌, ◌≢◌, arith,
}
use adk_a2ui_go.Json.{
  Value, null, bool, num, str, arr, obj, strings, objects, other, Fields, get, as_obj, str_at, keys,
}
use adk_a2ui_go.Kit.Problem.{Problem}
use adk_a2ui_go.Kit.Error.{Result, ok, err, ◌>>=◌, >>=-ok_iff}
use adk_a2ui_go.Schema.Decoding.{typed, decode_list}
use adk_a2ui_go.Schema.Decoding.Exact.{Decodes, decode_list-Decodes}
use adk_a2ui_go.Schema.Inbound.{inbound_precheck}
use adk_a2ui_go.Schema.Inbound.Laws.{IsPinned, other_keys, inbound_precheck-nil_iff}
use adk_a2ui_go.Schema.Format.{format}
use adk_a2ui_go.Schema.Format.Text.{Printer}
use adk_a2ui_go.Schema.Format.Plan.{Refusal}
use adk_a2ui_go.Schema.Format.Some.{format-nonempty}
use adk_a2ui_go.Schema.Engine.{Schema, Engine}
use adk_a2ui_go.V09.Message.{ClientMessage}
use adk_a2ui_go.V09.Validate.Laws.{SupportedV09}
use adk_a2ui_go.V09.Decode.{
  ClientWire, ClientCodec, client_message_keys, to_client_message, marshalled, read_wire,
  code_problem, error_code_problem, after_envelope, after_precheck, decode_client_messages,
  check_client_message,
}

-- A message can be encoded and read back into the struct, and the typed message has what was read.
abbrev pub ConvertsClient : ClientCodec → Fields → ClientMessage → Type 0
ConvertsClient codec m cm =
    (b : String) × (w : ClientWire) × (codec.marshal m ≡ ok b)
    × (codec.unmarshal b ≡ ok w)
    × (record { version = w.version; action = w.action; error = w.error; raw = m } ≡ cm)

read_wire-typed_iff :
    (codec : ClientCodec) (m : Fields) (path : String) (r : Result ClientWire) (cm : ClientMessage)
    → (read_wire codec m path r ≡ typed cm) ↔ (
        (w : ClientWire) × (r ≡ ok w)
        × (record { version = w.version; action = w.action; error = w.error; raw = m } ≡ cm))
unfolding read_wire
read_wire-typed_iff codec m path (ok w) cm = (λ h. (w, refl, cc), λ (v, e, s). cc)
read_wire-typed_iff codec m path (err e) cm = (λ h. cc, λ (v, e, s). cc)

marshalled-ok_iff :
    (codec : ClientCodec) (m : Fields) (path : String) (r : Result String) (cm : ClientMessage)
    → (marshalled codec m path r ≡ ok (typed cm)) ↔ (
        (b : String) × (w : ClientWire) × (r ≡ ok b)
        × (codec.unmarshal b ≡ ok w)
        × (record { version = w.version; action = w.action; error = w.error; raw = m } ≡ cm))
unfolding marshalled
marshalled-ok_iff codec m path (ok b) cm =
    let iff = read_wire-typed_iff codec m path (codec.unmarshal b) cm in
    (
      λ h. (let (w, e, s) = iff.0 (cc h) in (b, w, refl, e, s)),
      λ (b2, w, e, u, s).
          let same : b ≡ b2 = cc e in
          let here : codec.unmarshal b ≡ ok w = ap codec.unmarshal same ∙ u in
          ap ok (iff.1 (w, here, s)),
    )
marshalled-ok_iff codec m path (err e) cm = (λ h. cc, λ (b, w, k, u, s). cc k)

to_client_message-ok_iff :
    (codec : ClientCodec) (m : Fields) (path : String) (cm : ClientMessage)
    → (to_client_message codec m path ≡ ok (typed cm)) ↔ ConvertsClient codec m cm
unfolding to_client_message
to_client_message-ok_iff codec m path cm = marshalled-ok_iff codec m path (codec.marshal m) cm

-- A value is a text, or left out.
abbrev pub IsText : Option Value → Type 0
IsText none = Unit
IsText (some (str s)) = Unit
IsText (some v) = ⊥

-- The code of an error, if the message has one, is a text.
abbrev pub HasTextCode : Option Fields → Type 0
HasTextCode none = Unit
HasTextCode (some e) = IsText (get "code" e)

code_problem-nil_iff : (path : String) (v : Option Value) → (code_problem path v ≡ []) ↔ IsText v
unfolding code_problem
code_problem-nil_iff path none = (λ h. tt, λ h. refl)
code_problem-nil_iff path (some (str s)) = (λ h. tt, λ h. refl)
code_problem-nil_iff path (some null) = (λ h. cc, λ h. absurd h)
code_problem-nil_iff path (some (bool b)) = (λ h. cc, λ h. absurd h)
code_problem-nil_iff path (some (num n)) = (λ h. cc, λ h. absurd h)
code_problem-nil_iff path (some (arr vs)) = (λ h. cc, λ h. absurd h)
code_problem-nil_iff path (some (obj m)) = (λ h. cc, λ h. absurd h)
code_problem-nil_iff path (some (strings l)) = (λ h. cc, λ h. absurd h)
code_problem-nil_iff path (some (objects l)) = (λ h. cc, λ h. absurd h)
code_problem-nil_iff path (some (other t)) = (λ h. cc, λ h. absurd h)

error_code_problem-nil_iff :
    (path : String) (e : Option Fields) → (error_code_problem path e ≡ []) ↔ HasTextCode e
unfolding error_code_problem
error_code_problem-nil_iff path none = (λ h. tt, λ h. refl)
error_code_problem-nil_iff path (some e) = code_problem-nil_iff path (get "code" e)

nonempty_stays : (ps qs : List Problem) → ps ≢ [] → (elim ps [ [] ↦ qs | p ∷ rest ↦ p ∷ rest ]) ≢ []
nonempty_stays [] qs ne h = ne refl
nonempty_stays (p ∷ rest) qs ne h = cc

supported_iff :
    (version : String)
    → ((version == "" || (version == "v0.9" || version == "v0.9.1")) ≡ true) ↔ SupportedV09 version
supported_iff version =
    ground (arith, eq_iff version "", eq_iff version "v0.9", eq_iff version "v0.9.1")

module _ (eng : Engine) (out : Printer) (version : String) where
  -- A message has the pinned version, if there is one, and one of the known keys, the schema admits it,
  -- and the code of an error is a text.
  abbrev pub AcceptsClient : Schema → Fields → Type 0
  AcceptsClient envelope m =
      (IsPinned version (str_at "version" m)
        × ((k : String) × (other_keys (keys m) ≡ k ∷ []) × Elem k client_message_keys))
      × (envelope (obj m) ≡ none)
      × HasTextCode (as_obj (get "error" m))

  after_envelope-nil_iff :
      (m : Fields) (path : String) (r : Option Refusal)
      → (after_envelope eng out version m path r ≡ [])
        ↔ ((r ≡ none) × HasTextCode (as_obj (get "error" m)))
  unfolding after_envelope
  after_envelope-nil_iff m path none =
      let iff = error_code_problem-nil_iff path (as_obj (get "error" m)) in
      (λ h. (refl, iff.0 h), λ h. iff.1 h.1)
  after_envelope-nil_iff m path (some r) = (
    λ h.
        absurd
          (nonempty_stays (format out (obj m) path r) _ (format-nonempty out (obj m) path r) h),
    λ h. cc h.0,
  )

  after_precheck-nil_iff :
      (envelope : Schema) (m : Fields) (path : String) (ps : List Problem)
      → (after_precheck eng out version envelope m path ps ≡ [])
        ↔ ((ps ≡ []) × (envelope (obj m) ≡ none) × HasTextCode (as_obj (get "error" m)))
  unfolding after_precheck
  after_precheck-nil_iff envelope m path [] =
      let iff = after_envelope-nil_iff m path (envelope (obj m)) in
      (λ h. (let (r, c) = iff.0 h in (refl, r, c)), λ (u, r, c). iff.1 (r, c))
  after_precheck-nil_iff envelope m path (p ∷ ps) = (λ h. cc, λ h. cc h.0)

  check_client_message-nil_iff :
      (envelope : Schema) (m : Fields) (path : String)
      → (check_client_message eng out version envelope m path ≡ ok []) ↔ AcceptsClient envelope m
  unfolding check_client_message
  check_client_message-nil_iff envelope m path =
      let iff =
        after_precheck-nil_iff envelope m path
          (inbound_precheck m version client_message_keys path) in
      let pre = inbound_precheck-nil_iff m version client_message_keys path in
      (
        λ h. (let (p, e, c) = iff.0 (cc h) in (pre.0 p, e, c)),
        λ (p, e, c). ap ok (iff.1 (pre.1 p, e, c)),
      )

  module _ (codec : ClientCodec) where
    list-ok_iff :
        (prefix : String) (ms : List Fields) (cms : List ClientMessage)
        → ((eng.compile "client_to_server.json" (not (version == "v0.9")) >>= λ envelope.
              decode_list
                (check_client_message eng out version envelope)
                (to_client_message codec)
                prefix
                ms)
            ≡ ok cms)
          ↔ ((envelope : Schema) × (eng.compile "client_to_server.json" (not (version == "v0.9"))
                ≡ ok envelope)
              × Decodes (AcceptsClient envelope) (ConvertsClient codec) ms cms)
    list-ok_iff prefix ms cms =
        >>=-ok_iff (eng.compile "client_to_server.json" (not (version == "v0.9"))) _ cms _
          (λ envelope.
            decode_list-Decodes (AcceptsClient envelope) (ConvertsClient codec) _ _
              (check_client_message-nil_iff envelope) (to_client_message-ok_iff codec) prefix ms
              cms)

    -- A list of messages of v0.9 is decoded to `cms` exactly where the pinned version is v0.9, v0.9.1
    -- or none, the schema of a message compiles, for v0.9.1 too unless v0.9 is pinned, and each
    -- message, in order, is accepted and converts to its typed one: it has the pinned version and one
    -- known key, the schema admits it, and the code of an error is a text.
    pub decode_client_messages-ok_iff :
        (prefix : String) (ms : List Fields) (cms : List ClientMessage)
        → (decode_client_messages eng out version codec prefix ms ≡ ok cms) ↔ (
            SupportedV09 version
            × ((envelope : Schema) × (eng.compile "client_to_server.json" (not (version == "v0.9"))
                  ≡ ok envelope)
                × Decodes (AcceptsClient envelope) (ConvertsClient codec) ms cms))
    unfolding decode_client_messages
    decode_client_messages-ok_iff prefix ms cms =
        let iff = list-ok_iff prefix ms cms in
        let supported = supported_iff version in
        elim (Bool-cases (version == "" || (version == "v0.9" || version == "v0.9.1"))) [
          | inl e ↦ rw e (λ h. (supported.0 e, iff.0 h), λ h. iff.1 h.1)
          | inr e ↦ rw e (λ h. cc, λ h. (let k : false ≡ true = sym e ∙ supported.1 h.0 in cc))
        ]
