-- ===== src/Schema/Decoding/Exact.antt =====
-- What a list of messages is decoded to, by what a message is checked for and typed as.
use adk_a2ui_go.Common.{ℕ, suc, String, ◌≡◌, ◌↔◌, List, [], ◌∷◌}
use adk_a2ui_go.Json.{Fields}
use adk_a2ui_go.Kit.Problem.{Problem}
use adk_a2ui_go.Kit.Error.{Result, ok}
use adk_a2ui_go.Schema.Decoding.{Typed, typed, path_at, decode_list}
use adk_a2ui_go.Schema.Decoding.Laws.{DecodedAs, decode_list-ok_iff}

module _ {R : Type 0} (Accepts : Fields → Type 0) (Converts : Fields → R → Type 0) where
  -- Each message is accepted, and converts to the one in its place.
  abbrev pub Decodes : List Fields → List R → Type 0
  Decodes [] [] = Unit
  Decodes [] (rm ∷ rms) = ⊥
  Decodes (m ∷ ms) [] = ⊥
  Decodes (m ∷ ms) (rm ∷ rms) = Accepts m × Converts m rm × Decodes ms rms

  module _ (check : Fields → String → Result (List Problem))
      (type_message : Fields → String → Result (Typed R))
      (accepted : (m : Fields) (path : String) → (check m path ≡ ok []) ↔ Accepts m)
      (converted : (m : Fields) (path : String) (rm : R)
        → (type_message m path ≡ ok (typed rm)) ↔ Converts m rm) where
    DecodedAs-Decodes :
        (prefix : String) (i : ℕ) (ms : List Fields) (rms : List R)
        → DecodedAs check type_message prefix i ms rms ↔ Decodes ms rms
    DecodedAs-Decodes prefix i [] [] = (λ h. tt, λ h. tt)
    DecodedAs-Decodes prefix i [] (rm ∷ rms) = (λ h. h, λ h. h)
    DecodedAs-Decodes prefix i (m ∷ ms) [] = (λ h. h, λ h. h)
    DecodedAs-Decodes prefix i (m ∷ ms) (rm ∷ rms) =
        let here = accepted m (path_at prefix i) in
        let same = converted m (path_at prefix i) rm in
        let later = DecodedAs-Decodes prefix (suc i) ms rms in
        (λ (a, t, h). (here.0 a, same.0 t, later.0 h), λ (a, t, h). (here.1 a, same.1 t, later.1 h))

    pub decode_list-Decodes :
        (prefix : String) (ms : List Fields) (rms : List R)
        → (decode_list check type_message prefix ms ≡ ok rms) ↔ Decodes ms rms
    decode_list-Decodes prefix ms rms =
        let listed = decode_list-ok_iff check type_message prefix ms rms in
        let exact = DecodedAs-Decodes prefix 0 ms rms in
        (λ h. exact.0 (listed.0 h), λ d. listed.1 (exact.1 d))
