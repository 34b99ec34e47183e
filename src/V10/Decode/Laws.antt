-- ===== src/V10/Decode/Laws.antt =====
-- v10/decode.go: what a list of messages is decoded to.
use adk_a2ui_go.Common.{
  String, ◌≡◌, ◌≢◌, inl, inr, false, ◌&&◌, not, none, List, [], ◌∷◌, ◌==◌, Bool-cases, ap, sym,
}
use Prim.Native.String.{◌++◌}
use adk_a2ui_go.Common.Text.{quote}
use adk_a2ui_go.Json.{Fields}
use adk_a2ui_go.Kit.Error.{failure, Result, ok, err, >>=-eq-ok}
use adk_a2ui_go.Kit.Options.{ValidateOptions}
use adk_a2ui_go.Spec.{Embedded}
use adk_a2ui_go.Schema.Decoding.{typed}
use adk_a2ui_go.Schema.Decoding.Laws.{raws, first_of-some, decode_list-raw}
use adk_a2ui_go.Schema.Format.Text.{Printer}
use adk_a2ui_go.Schema.Engine.{Engine}
use adk_a2ui_go.V10.Message.{RendererMessage}
use adk_a2ui_go.V10.Decode.{
  Wire, MessageCodec, to_renderer_message, marshalled, read_wire, of_wire, decode_renderer_messages,
  decode_renderer_message, check_message,
}

read_wire-raw :
    (codec : MessageCodec) (m : Fields) (path : String) (w : Result Wire) (rm : RendererMessage)
    → read_wire codec m path w ≡ typed rm
    → rm.raw ≡ m
unfolding read_wire of_wire
read_wire-raw codec m path (ok w) rm h = let e : of_wire m w ≡ rm = cc in sym (ap (λ r. r.raw) e)
read_wire-raw codec m path (err e) rm h = cc

marshalled-raw :
    (codec : MessageCodec) (m : Fields) (path : String) (b : Result String) (rm : RendererMessage)
    → marshalled codec m path b ≡ ok (typed rm)
    → rm.raw ≡ m
unfolding marshalled
marshalled-raw codec m path (ok bytes) rm h =
    read_wire-raw codec m path (codec.unmarshal bytes) rm (cc h)
marshalled-raw codec m path (err e) rm h = cc

module _ (files : Embedded) (eng : Engine) (out : Printer) (opts : ValidateOptions)
    (codec : MessageCodec) where
  to_renderer_message-raw :
      (m : Fields) (path : String) (rm : RendererMessage)
      → to_renderer_message codec m path ≡ ok (typed rm)
      → rm.raw ≡ m
  unfolding to_renderer_message
  to_renderer_message-raw m path rm h = marshalled-raw codec m path (codec.marshal m) rm h

  -- When a list of messages is decoded, every message of the list is: there is one typed message
  -- for each, in order, and it keeps the message that it came from.
  pub decode_renderer_messages-raw :
      (prefix : String) (ms : List Fields) (rms : List RendererMessage)
      → decode_renderer_messages files eng out opts codec prefix ms ≡ ok rms
      → raws (λ r. r.raw) rms ≡ ms
  unfolding decode_renderer_messages
  decode_renderer_messages-raw prefix ms rms h =
      elim (Bool-cases (not (opts.version == "") && not (opts.version == "v1.0"))) [
        | inl e ↦
            let k : err (failure ("v10: unsupported version " ++ quote opts.version)) ≡ ok rms =
              rw e at h in
            cc
        | inr e ↦
            let (s, _, e1) = >>=-eq-ok (eng.compile "renderer_to_agent.json" false) _ (rw e at h) in
            decode_list-raw (check_message files eng out opts s) (to_renderer_message codec)
              (λ r. r.raw) to_renderer_message-raw prefix ms rms e1
      ]

  -- `DecodeRendererMessage` never indexes an empty list.
  pub decode_renderer_message-total :
      (m : Fields) → decode_renderer_message files eng out opts codec m ≢ ok none
  unfolding decode_renderer_message
  decode_renderer_message-total m h =
      let (rms, e, f) =
        >>=-eq-ok (decode_renderer_messages files eng out opts codec "" (m ∷ [])) _ h in
      first_of-some (λ r. r.raw) m rms f (decode_renderer_messages-raw "" (m ∷ []) rms e)
