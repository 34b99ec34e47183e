-- ===== src/Schema/Decoding.antt =====
-- The loop that v09/decode.go and v10/decode.go share: each message is checked, then typed; any problem
-- rejects the list.
pub mod Exact
pub mod Laws
use adk_a2ui_go.Common.{
  ℕ, suc, String, Bool, true, false, Option, none, some, List, [], ◌∷◌, ◌++◌ as append, ◌==◌,
  if◌then◌else◌,
}
use adk_a2ui_go.Json.{Fields}
use adk_a2ui_go.Kit.Problem.{Problem}
use adk_a2ui_go.Kit.Error.{validation, Result, ok, err, ◌>>=◌}
use adk_a2ui_go.Schema.Paths.{element_path}
use adk_a2ui_go.Schema.Finalize.{finalize}

-- One message: typed, or with the problem that its types have.
pub data Typed (R : Type 0) : Type 0 where
  typed : R → Typed R
  mistyped : Problem → Typed R

-- The messages that were typed, and the problems of the others.
pub record Decoded (R : Type 0) : Type 0 where
  pub messages : List R
  pub problems : List Problem

abbrev pub path_at : String → ℕ → String
path_at prefix i = if prefix == "" then "" else element_path prefix i

module _ {R : Type 0} where
  add_typed : Typed R → Decoded R → Decoded R
  add_typed (typed rm) d = record d { messages = rm ∷ d.messages }
  add_typed (mistyped p) d = record d { problems = p ∷ d.problems }

  conclude : Decoded R → List Problem → Result (List R)
  conclude d [] = ok d.messages
  conclude d (p ∷ ps) = err (validation (p ∷ ps))

  -- `&msgs[0]`; without a message this would be a panic, `ok none`.
  unfoldable pub first_of : List R → Result (Option R)
  first_of [] = ok none
  first_of (rm ∷ rms) = ok (some rm)

module _ {R : Type 0} (check : Fields → String → Result (List Problem))
    (type_message : Fields → String → Result (Typed R)) where
  -- The rest of a round, past the checks: the problems that they found, or the typed message.
  finish : Fields → String → List Problem → Result (Decoded R) → Result (Decoded R)
  finish m path [] rest = type_message m path >>= λ t. rest >>= λ d. ok (add_typed t d)
  finish m path (p ∷ ps) rest =
      rest >>= λ d. ok (record d { problems = append (p ∷ ps) d.problems })

  -- The loop: the first round that fails ends the call.
  decode_from : String → ℕ → List Fields → Result (Decoded R)
  decode_from prefix i [] = ok (record { messages = []; problems = [] })
  decode_from prefix i (m ∷ ms) =
      let rest = decode_from prefix (suc i) ms in
      check m (path_at prefix i) >>= λ ps. finish m (path_at prefix i) ps rest

  unfoldable pub decode_list : String → List Fields → Result (List R)
  unfolding decode_from finish add_typed conclude
  decode_list prefix ms = decode_from prefix 0 ms >>= λ d. conclude d (finalize d.problems)
