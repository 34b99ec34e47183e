-- ===== src/V09/Decode/Laws.antt =====
-- v09/decode.go: what a list of messages is decoded to.
use Prim.Native.String.{◌++◌}
use adk_a2ui_go.Common.{
  String, ◌≡◌, ◌≢◌, ◌||◌, not, none, List, [], ◌∷◌, ◌==◌, Bool-cases, ap, sym, inl, inr,
}
use adk_a2ui_go.Common.Text.{quote}
use adk_a2ui_go.Json.{Fields}
use adk_a2ui_go.Kit.Error.{failure, Result, ok, err, >>=-eq-ok}
use adk_a2ui_go.Schema.Decoding.{typed}
use adk_a2ui_go.Schema.Decoding.Laws.{raws, first_of-some, decode_list-raw}
use adk_a2ui_go.Schema.Format.Text.{Printer}
use adk_a2ui_go.Schema.Engine.{Engine}
use adk_a2ui_go.V09.Message.{ClientMessage}
use adk_a2ui_go.V09.Decode.{
  ClientWire, ClientCodec, read_wire, marshalled, to_client_message, check_client_message,
  decode_client_messages, decode_client_message,
}

read_wire-raw :
    (codec : ClientCodec) (m : Fields) (path : String) (w : Result ClientWire) (cm : ClientMessage)
    → read_wire codec m path w ≡ typed cm
    → cm.raw ≡ m
unfolding read_wire
read_wire-raw codec m path (ok w) cm h =
    let e : record { version = w.version; action = w.action; error = w.error; raw = m } ≡ cm = cc in
    sym (ap (λ r. r.raw) e)
read_wire-raw codec m path (err e) cm h = cc

marshalled-raw :
    (codec : ClientCodec) (m : Fields) (path : String) (b : Result String) (cm : ClientMessage)
    → marshalled codec m path b ≡ ok (typed cm)
    → cm.raw ≡ m
unfolding marshalled
marshalled-raw codec m path (ok bytes) cm h =
    read_wire-raw codec m path (codec.unmarshal bytes) cm (cc h)
marshalled-raw codec m path (err e) cm h = cc

module _ (eng : Engine) (out : Printer) (version : String) (codec : ClientCodec) where
  to_client_message-raw :
      (m : Fields) (path : String) (cm : ClientMessage)
      → to_client_message codec m path ≡ ok (typed cm)
      → cm.raw ≡ m
  unfolding to_client_message
  to_client_message-raw m path cm h = marshalled-raw codec m path (codec.marshal m) cm h

  -- When a list of v0.9 messages is decoded, every message of the list is: there is one typed
  -- message for each, in order, and it keeps the message that it came from.
  pub decode_client_messages-raw :
      (prefix : String) (ms : List Fields) (cms : List ClientMessage)
      → decode_client_messages eng out version codec prefix ms ≡ ok cms
      → raws (λ r. r.raw) cms ≡ ms
  unfolding decode_client_messages
  decode_client_messages-raw prefix ms cms h =
      elim (Bool-cases (version == "" || (version == "v0.9" || version == "v0.9.1"))) [
        | inl e ↦
            let (s, _, e1) =
              >>=-eq-ok (eng.compile "client_to_server.json" (not (version == "v0.9"))) _
                (rw e at h) in
            decode_list-raw (check_client_message eng out version s) (to_client_message codec)
              (λ r. r.raw) to_client_message-raw prefix ms cms e1
        | inr e ↦
            let k : err (failure ("v09: unsupported version " ++ quote version)) ≡ ok cms =
              rw e at h in
            cc
      ]

  -- `DecodeClientMessage` never indexes an empty list.
  pub decode_client_message-total :
      (m : Fields) → decode_client_message eng out version codec m ≢ ok none
  unfolding decode_client_message
  decode_client_message-total m h =
      let (cms, e, f) = >>=-eq-ok (decode_client_messages eng out version codec "" (m ∷ [])) _ h in
      first_of-some (λ r. r.raw) m cms f (decode_client_messages-raw "" (m ∷ []) cms e)
