-- ===== src/V10/Decode/Exact.antt =====
-- v10/decode.go: what a list of messages is decoded to, exactly.
use adk_a2ui_go.Common.{
  String, ◌≡◌, refl, ◌↔◌, ◌⊎◌, inl, inr, false, List, eq_iff, String-cases, ap, ◌∙◌,
}
use adk_a2ui_go.Json.{Fields}
use adk_a2ui_go.Kit.Error.{Result, ok, err, ◌>>=◌, >>=-ok_iff}
use adk_a2ui_go.Kit.Options.{ValidateOptions}
use adk_a2ui_go.Spec.{Embedded}
use adk_a2ui_go.Schema.Decoding.{typed, decode_list}
use adk_a2ui_go.Schema.Decoding.Exact.{Decodes, decode_list-Decodes}
use adk_a2ui_go.Schema.Format.Text.{Printer}
use adk_a2ui_go.Schema.Engine.{Schema, Engine}
use adk_a2ui_go.V10.Message.{RendererMessage}
use adk_a2ui_go.V10.Decode.{
  Wire, MessageCodec, to_renderer_message, marshalled, read_wire, of_wire, decode_renderer_messages,
  check_message,
}
use adk_a2ui_go.V10.Decode.Accepts.{Accepts, check_message-nil_iff}

-- A message can be encoded and read back into the struct, and the typed message has what was read.
abbrev pub Converts : MessageCodec → Fields → RendererMessage → Type 0
Converts codec m rm =
    (b : String) × (w : Wire) × (codec.marshal m ≡ ok b)
    × (codec.unmarshal b ≡ ok w)
    × (of_wire m w ≡ rm)

read_wire-typed_iff :
    (codec : MessageCodec) (m : Fields) (path : String) (r : Result Wire) (rm : RendererMessage)
    → (read_wire codec m path r ≡ typed rm) ↔ ((w : Wire) × (r ≡ ok w) × (of_wire m w ≡ rm))
unfolding read_wire
read_wire-typed_iff codec m path (ok w) rm = (λ h. (w, refl, cc), λ (v, e, s). cc)
read_wire-typed_iff codec m path (err e) rm = (λ h. cc, λ (v, e, s). cc)

marshalled-ok_iff :
    (codec : MessageCodec) (m : Fields) (path : String) (r : Result String) (rm : RendererMessage)
    → (marshalled codec m path r ≡ ok (typed rm))
      ↔ ((b : String) × (w : Wire) × (r ≡ ok b) × (codec.unmarshal b ≡ ok w) × (of_wire m w ≡ rm))
unfolding marshalled
marshalled-ok_iff codec m path (ok b) rm =
    let iff = read_wire-typed_iff codec m path (codec.unmarshal b) rm in
    (
      λ h. (let (w, e, s) = iff.0 (cc h) in (b, w, refl, e, s)),
      λ (b2, w, e, u, s).
          let same : b ≡ b2 = cc e in
          let here : codec.unmarshal b ≡ ok w = ap codec.unmarshal same ∙ u in
          ap ok (iff.1 (w, here, s)),
    )
marshalled-ok_iff codec m path (err e) rm = (λ h. cc, λ (b, w, k, u, s). cc k)

to_renderer_message-ok_iff :
    (codec : MessageCodec) (m : Fields) (path : String) (rm : RendererMessage)
    → (to_renderer_message codec m path ≡ ok (typed rm)) ↔ Converts codec m rm
unfolding to_renderer_message
to_renderer_message-ok_iff codec m path rm = marshalled-ok_iff codec m path (codec.marshal m) rm

module _ (files : Embedded) (eng : Engine) (out : Printer) (opts : ValidateOptions)
    (codec : MessageCodec) where
  list-ok_iff :
      (prefix : String) (ms : List Fields) (rms : List RendererMessage)
      → ((eng.compile "renderer_to_agent.json" false >>= λ envelope.
            decode_list
              (check_message files eng out opts envelope)
              (to_renderer_message codec)
              prefix
              ms)
          ≡ ok rms)
        ↔ ((envelope : Schema) × (eng.compile "renderer_to_agent.json" false ≡ ok envelope)
            × Decodes (Accepts files eng out opts envelope) (Converts codec) ms rms)
  list-ok_iff prefix ms rms =
      >>=-ok_iff (eng.compile "renderer_to_agent.json" false) _ rms _ (λ envelope.
        decode_list-Decodes (Accepts files eng out opts envelope) (Converts codec) _ _
          (check_message-nil_iff files eng out opts envelope) (to_renderer_message-ok_iff codec)
          prefix ms rms)

  -- A list of messages is decoded to `rms` exactly where the pinned version is v1.0 or none, the schema
  -- of a message compiles, and each message, in order, is accepted and converts to its typed one: it
  -- has the pinned version and one known key, the schema admits it, and a call of an agent's function
  -- has its arguments in an object, and no catalog id or one for which `ResolveCatalog` answers, in
  -- strict mode with a document, whose definition admits the call and which lets the renderer make it.
  pub decode_renderer_messages-ok_iff :
      (prefix : String) (ms : List Fields) (rms : List RendererMessage)
      → (decode_renderer_messages files eng out opts codec prefix ms ≡ ok rms) ↔ (
          ((opts.version ≡ "") ⊎ (opts.version ≡ "v1.0"))
          × ((envelope : Schema) × (eng.compile "renderer_to_agent.json" false ≡ ok envelope)
              × Decodes (Accepts files eng out opts envelope) (Converts codec) ms rms))
  unfolding decode_renderer_messages
  decode_renderer_messages-ok_iff prefix ms rms =
      let iff = list-ok_iff prefix ms rms in
      elim (String-cases opts.version "") [
        | inl e ↦ rw ((eq_iff opts.version "").1 e) (λ h. (inl e, iff.0 h), λ h. iff.1 h.1)
        | inr (ne, off) ↦ elim (String-cases opts.version "v1.0") [
          | inl e ↦
              rw ne (rw ((eq_iff opts.version "v1.0").1 e) (λ h. (inr e, iff.0 h), λ h. iff.1 h.1))
          | inr (ne2, off2) ↦
              rw ne (
                rw ne2
                  (λ h. cc, λ h. elim h.0 [ inl e ↦ absurd (off e) | inr e ↦ absurd (off2 e) ]))
        ]
      ]
