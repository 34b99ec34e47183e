-- ===== src/Schema/Compile/Keys.antt =====
-- internal/schema/engine.go: the keys of compiled schemas, and the requests that have them.
use Prim.Native.Char.{Char}
use Prim.Native.String.{◌++◌}
use text.Mathlib.TextLemmas.{append_assoc}
use adk_a2ui_go.Common.{ℕ, String, ◌≡◌, refl, ◌≢◌, Bool, true, false, arith, Option, sym, ◌∙◌}
use adk_a2ui_go.Common.Text.Separate.{Lacks, split_first}
use adk_a2ui_go.Json.{Fields}
use adk_a2ui_go.Spec.{Files}
use adk_a2ui_go.Schema.Compile.{Library, Request, entry, ref, catalog_key, request_key, sprint_bool}

abbrev pub LacksBar : String → Type 0
LacksBar = Lacks b'|'

abbrev bar : Char
bar = "|"

-- Two texts up to their first bar.
split_at_bar :
    (a b s t : String)
    → LacksBar a
    → LacksBar b
    → a ++ ("|" ++ s) ≡ b ++ ("|" ++ t)
    → (a ≡ b) × (s ≡ t)
split_at_bar = split_first bar

flag-LacksBar : LacksBar "true" × LacksBar "false"
flag-LacksBar = ground arith

kind-LacksBar : LacksBar "entry" × LacksBar "ref"
kind-LacksBar = ground arith

abbrev pub is_entry : Request → Bool
is_entry (entry target catalog v091) = true
is_entry (ref target catalog v091) = false

abbrev pub target_of : Request → String
target_of (entry target catalog v091) = target
target_of (ref target catalog v091) = target

abbrev pub catalog_in : Request → Option Fields
catalog_in (entry target catalog v091) = catalog
catalog_in (ref target catalog v091) = catalog

abbrev pub flag_of : Request → Bool
flag_of (entry target catalog v091) = v091
flag_of (ref target catalog v091) = v091

abbrev kind_name : Bool → String
kind_name true = "entry"
kind_name false = "ref"

named-LacksBar : (b : Bool) → LacksBar (kind_name b) × LacksBar (sprint_bool b)
named-LacksBar true = (kind-LacksBar.0, flag-LacksBar.0)
named-LacksBar false = (kind-LacksBar.1, flag-LacksBar.1)

entry-ref : ◌≢◌ {A = String} "entry" "ref"
entry-ref h = cc

true-false : ◌≢◌ {A = String} "true" "false"
true-false h = cc

kind_name_inj : (b c : Bool) → kind_name b ≡ kind_name c → b ≡ c
kind_name_inj true true h = refl
kind_name_inj true false h = absurd (entry-ref h)
kind_name_inj false true h = absurd (entry-ref (sym h))
kind_name_inj false false h = refl

sprint_bool_inj : (b c : Bool) → sprint_bool b ≡ sprint_bool c → b ≡ c
sprint_bool_inj true true h = refl
sprint_bool_inj true false h = absurd (true-false h)
sprint_bool_inj false true h = absurd (true-false (sym h))
sprint_bool_inj false false h = refl

module _ (lib : Library) (files : Files) (major : String) where
  abbrev pub catalog_key_of : Request → ℕ → String
  catalog_key_of r n = (catalog_key lib files major (catalog_in r) n).0

  request_key-parts :
      (r : Request) (n : ℕ)
      → (request_key lib files major r n).0
        ≡ kind_name (is_entry r)
          ++ ("|"
              ++ (target_of r ++ ("|" ++ (sprint_bool (flag_of r) ++ ("|" ++ catalog_key_of r n)))))
  unfolding request_key
  request_key-parts (entry target catalog v091) n = append_assoc "entry" "|" _
  request_key-parts (ref target catalog v091) n = append_assoc "ref" "|" _

  -- Where the targets have no bar, as those of the program, requests with one key ask for the same: an
  -- entry or a reference, the same target, with the same flag, and with catalogs of one key.
  pub request_key_inj :
      (r r2 : Request) (n m : ℕ)
      → LacksBar (target_of r)
      → LacksBar (target_of r2)
      → (request_key lib files major r n).0 ≡ (request_key lib files major r2 m).0
      → (is_entry r ≡ is_entry r2)
        × (target_of r ≡ target_of r2)
        × (flag_of r ≡ flag_of r2)
        × (catalog_key_of r n ≡ catalog_key_of r2 m)
  request_key_inj r r2 n m lr lr2 h =
      let (kind, rest) =
        split_at_bar (kind_name (is_entry r)) (kind_name (is_entry r2)) _ _
          (named-LacksBar (is_entry r)).0 (named-LacksBar (is_entry r2)).0
          (sym (request_key-parts r n) ∙ (h ∙ request_key-parts r2 m)) in
      let (target, more) = split_at_bar (target_of r) (target_of r2) _ _ lr lr2 rest in
      let (flag, catalogs) =
        split_at_bar (sprint_bool (flag_of r)) (sprint_bool (flag_of r2)) _ _
          (named-LacksBar (flag_of r)).1 (named-LacksBar (flag_of r2)).1 more in
      (
        kind_name_inj (is_entry r) (is_entry r2) kind,
        target,
        sprint_bool_inj (flag_of r) (flag_of r2) flag,
        catalogs,
      )
