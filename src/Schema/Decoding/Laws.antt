-- ===== src/Schema/Decoding/Laws.antt =====
-- What a list of messages is decoded to, whatever a message is checked for and typed as.
use adk_a2ui_go.Common.{
  ℕ, suc, String, ◌≡◌, refl, ◌≢◌, ◌↔◌, none, List, [], ◌∷◌, ◌++◌ as append, ap, sym, ◌∙◌,
}
use mathlib.Core.Path.{subst}
use adk_a2ui_go.Json.{Fields}
use adk_a2ui_go.Kit.Problem.{Problem}
use adk_a2ui_go.Kit.Error.{Result, ok, >>=-eq-ok}
use adk_a2ui_go.Schema.Finalize.{finalize}
use adk_a2ui_go.Schema.Finalize.Laws.{finalize_bounds}
use adk_a2ui_go.Schema.Decoding.{
  Typed, typed, mistyped, Decoded, path_at, add_typed, conclude, first_of, finish, decode_from,
  decode_list,
}

cons-nonempty : (p : Problem) (ps : List Problem) → (p ∷ ps) ≢ []
cons-nonempty p ps h = cc

conclude-ok :
    {R : Type 0} (d : Decoded R) (ps : List Problem) (rms : List R)
    → conclude d ps ≡ ok rms
    → (ps ≡ []) × (d.messages ≡ rms)
unfolding conclude
conclude-ok d [] rms h = (refl, cc h)
conclude-ok d (p ∷ ps) rms h = cc

module _ {R : Type 0} (raw : R → Fields) where
  abbrev pub raws : List R → List Fields
  raws [] = []
  raws (rm ∷ rms) = raw rm ∷ raws rms

  pub first_of-some : (m : Fields) (rms : List R) → first_of rms ≡ ok none → raws rms ≢ m ∷ []
  unfolding first_of
  first_of-some m [] h k = cc
  first_of-some m (rm ∷ rms) h k = cc

module _ {R : Type 0} (check : Fields → String → Result (List Problem))
    (type_message : Fields → String → Result (Typed R)) where
  -- Each message passes the checks at its path and is typed as the one in its place.
  abbrev pub DecodedAs : String → ℕ → List Fields → List R → Type 0
  DecodedAs prefix i [] [] = Unit
  DecodedAs prefix i [] (rm ∷ rms) = ⊥
  DecodedAs prefix i (m ∷ ms) [] = ⊥
  DecodedAs prefix i (m ∷ ms) (rm ∷ rms) =
      (check m (path_at prefix i) ≡ ok [])
      × (type_message m (path_at prefix i) ≡ ok (typed rm))
      × DecodedAs prefix (suc i) ms rms

  add_typed-clean :
      (t : Typed R) (d2 d : Decoded R)
      → add_typed t d2 ≡ d
      → d.problems ≡ []
      → (rm : R) × (t ≡ typed rm) × (d2.problems ≡ []) × (d.messages ≡ rm ∷ d2.messages)
  unfolding add_typed
  add_typed-clean (typed rm) d2 d same n =
      (rm, refl, ap (λ x. x.problems) same ∙ n, ap (λ x. x.messages) (sym same))
  add_typed-clean (mistyped p) d2 d same n =
      let k : (p ∷ d2.problems) ≡ [] = ap (λ x. x.problems) same ∙ n in
      absurd (cons-nonempty p d2.problems k)

  finish-clean :
      (m : Fields) (path : String) (ps : List Problem) (rest : Result (Decoded R)) (d : Decoded R)
      → finish check type_message m path ps rest ≡ ok d
      → d.problems ≡ []
      → (rm : R) × (d2 : Decoded R) × (ps ≡ [])
        × (type_message m path ≡ ok (typed rm))
        × (rest ≡ ok d2)
        × (d2.problems ≡ [])
        × (d.messages ≡ rm ∷ d2.messages)
  unfolding finish
  finish-clean m path [] rest d h n =
      let (t, e, r) = >>=-eq-ok (type_message m path) _ h in
      let (d2, e2, r2) = >>=-eq-ok rest _ r in
      let (rm, is, n2, f) = add_typed-clean t d2 d (cc r2) n in
      (rm, d2, refl, e ∙ ap ok is, e2, n2, f)
  finish-clean m path (p ∷ ps) rest d h n =
      let (d2, e2, r2) = >>=-eq-ok rest _ h in
      let same : (record d2 { problems = append (p ∷ ps) d2.problems }) ≡ d = cc r2 in
      let k : (p ∷ append ps d2.problems) ≡ [] = ap (λ x. x.problems) same ∙ n in
      absurd (cons-nonempty p (append ps d2.problems) k)

  decode_from-DecodedAs :
      (prefix : String) (i : ℕ) (ms : List Fields) (d : Decoded R)
      → decode_from check type_message prefix i ms ≡ ok d
      → d.problems ≡ []
      → DecodedAs prefix i ms d.messages
  unfolding decode_from
  decode_from-DecodedAs prefix i [] d h n =
      let same : (record { messages = []; problems = [] }) ≡ d = cc h in
      subst (DecodedAs prefix i []) (ap (λ x. x.messages) same) tt
  decode_from-DecodedAs prefix i (m ∷ ms) d h n =
      let (ps, e, r) = >>=-eq-ok (check m (path_at prefix i)) _ h in
      let (rm, d2, clean, t, e2, n2, f) =
        finish-clean m (path_at prefix i) ps (decode_from check type_message prefix (suc i) ms) d r
          n in
      let rest = decode_from-DecodedAs prefix (suc i) ms d2 e2 n2 in
      subst (DecodedAs prefix i (m ∷ ms)) (sym f) (e ∙ ap ok clean, t, rest)

  DecodedAs-decode_from :
      (prefix : String) (i : ℕ) (ms : List Fields) (rms : List R)
      → DecodedAs prefix i ms rms
      → decode_from check type_message prefix i ms ≡ ok (record { messages = rms; problems = [] })
  unfolding decode_from finish add_typed
  DecodedAs-decode_from prefix i [] [] h = refl
  DecodedAs-decode_from prefix i [] (rm ∷ rms) h = absurd h
  DecodedAs-decode_from prefix i (m ∷ ms) [] h = absurd h
  DecodedAs-decode_from prefix i (m ∷ ms) (rm ∷ rms) (c, t, h) =
      rw c (rw t (rw (DecodedAs-decode_from prefix (suc i) ms rms h) refl))

  pub decode_list-ok_iff :
      (prefix : String) (ms : List Fields) (rms : List R)
      → (decode_list check type_message prefix ms ≡ ok rms) ↔ DecodedAs prefix 0 ms rms
  unfolding decode_list conclude
  decode_list-ok_iff prefix ms rms = (
    λ h.
        let (d, e, c) = >>=-eq-ok (decode_from check type_message prefix 0 ms) _ h in
        let (n, same) = conclude-ok d (finalize d.problems) rms c in
        let clean = (finalize_bounds d.problems).1.0 n in
        subst (DecodedAs prefix 0 ms) same (decode_from-DecodedAs prefix 0 ms d e clean),
    λ h. rw (DecodedAs-decode_from prefix 0 ms rms h) (rw ((finalize_bounds []).1.1 refl) refl),
  )

  module _ (raw : R → Fields)
      (keeps_raw : (m : Fields) (path : String) (r : R)
        → type_message m path ≡ ok (typed r)
        → raw r ≡ m) where
    DecodedAs-raw :
        (prefix : String) (i : ℕ) (ms : List Fields) (rms : List R)
        → DecodedAs prefix i ms rms
        → raws raw rms ≡ ms
    DecodedAs-raw prefix i [] [] h = refl
    DecodedAs-raw prefix i [] (rm ∷ rms) h = absurd h
    DecodedAs-raw prefix i (m ∷ ms) [] h = absurd h
    DecodedAs-raw prefix i (m ∷ ms) (rm ∷ rms) (c, t, h) =
        rw (keeps_raw m (path_at prefix i) rm t)
          (ap (λ l. m ∷ l) (DecodedAs-raw prefix (suc i) ms rms h))

    pub decode_list-raw :
        (prefix : String) (ms : List Fields) (rms : List R)
        → decode_list check type_message prefix ms ≡ ok rms
        → raws raw rms ≡ ms
    decode_list-raw prefix ms rms h =
        DecodedAs-raw prefix 0 ms rms ((decode_list-ok_iff prefix ms rms).0 h)
