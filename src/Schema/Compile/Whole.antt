-- ===== src/Schema/Compile/Whole.antt =====
-- internal/schema/engine.go: calls of Compile and CompileRef whose catalogs have digests of their own.
use Prim.Native.Char.{Char}
use Prim.Native.String.{◌++◌}
use mathlib.Core.Path.{subst}
use adk_a2ui_go.Common.{
  ℕ, String, ◌≡◌, ◌≢◌, All-Elem, refl, inl, inr, arith, Option, none, some, List, [], ◌∷◌, map,
  Elem, All, ap, sym, ◌∙◌,
}
use adk_a2ui_go.Common.Text.Separate.{Lacks, has_separator, split_last}
use adk_a2ui_go.Json.{Fields, str_at}
use adk_a2ui_go.Kit.Error.{ok}
use adk_a2ui_go.Spec.{Files}
use adk_a2ui_go.Schema.Cache.{new_cache}
use adk_a2ui_go.Schema.Compile.{
  Library, Request, entry, ref, build, marshal_key, catalog_key, request_key, compile_all,
}
use adk_a2ui_go.Schema.Compile.Keys.{
  LacksBar, is_entry, target_of, catalog_in, flag_of, request_key_inj,
}
use adk_a2ui_go.Schema.Compile.Answers.{Determined, keyed, compile_all-build}

abbrev pub LacksColon : String → Type 0
LacksColon = Lacks b':'

abbrev colon : Char
colon = ":"

has_colon : (a s : String) → ¬ LacksColon (a ++ (":" ++ s))
has_colon = has_separator colon

-- Two texts past their last colon.
past_colon :
    (a b s t : String) → LacksColon s → LacksColon t → a ++ (":" ++ s) ≡ b ++ (":" ++ t) → s ≡ t
past_colon a b s t ls lt h = (split_last colon a b s t ls lt h).1

stub-LacksColon : LacksColon "stub"
stub-LacksColon = ground arith

request_same :
    (r r2 : Request)
    → is_entry r ≡ is_entry r2
    → target_of r ≡ target_of r2
    → flag_of r ≡ flag_of r2
    → catalog_in r ≡ catalog_in r2
    → r ≡ r2
request_same (entry t c v) (entry t2 c2 v2) kind target flag catalog = cc
request_same (entry t c v) (ref t2 c2 v2) kind target flag catalog = cc
request_same (ref t c v) (entry t2 c2 v2) kind target flag catalog = cc
request_same (ref t c v) (ref t2 c2 v2) kind target flag catalog = cc

module _ (lib : Library) (files : Files) (major : String) where
  -- A catalog that can be encoded.
  abbrev pub Encodes : Option Fields → Type 0
  Encodes none = Unit
  Encodes (some c) = (b : String) × (lib.marshal c ≡ ok b)

  -- A request for a target of the program, with a catalog that can be encoded.
  abbrev pub Plain : Request → Type 0
  Plain r = LacksBar (target_of r) × Encodes (catalog_in r)

  abbrev pub DigestOf : Option Fields → String → Type 0
  DigestOf x d =
      (c : Fields) × (b : String) × (x ≡ some c) × (lib.marshal c ≡ ok b) × (lib.digest b ≡ d)

  -- Catalogs of the requests that have one digest are the same.
  abbrev pub Apart : List Request → Type 0
  Apart rs =
      (r r2 : Request) (d : String)
      → Elem r rs
      → Elem r2 rs
      → DigestOf (catalog_in r) d
      → DigestOf (catalog_in r2) d
      → catalog_in r ≡ catalog_in r2

  -- A digest, which is written in hexadecimal, has no colon.
  abbrev pub HexDigests : Type 0
  HexDigests = (b : String) → LacksColon (lib.digest b)

  catalog_key-some :
      (c : Fields) (b : String) (n : ℕ)
      → lib.marshal c ≡ ok b
      → (catalog_key lib files major (some c) n).0 ≡ str_at "catalogId" c ++ (":" ++ lib.digest b)
  unfolding catalog_key marshal_key
  catalog_key-some c b n h = rw h refl

  catalog_key-none : (n : ℕ) → (catalog_key lib files major none n).0 ≡ "stub"
  unfolding catalog_key
  catalog_key-none n = refl

  stub_apart :
      (c : Fields) (n m : ℕ)
      → HexDigests
      → Encodes (some c)
      → (catalog_key lib files major none n).0 ≢ (catalog_key lib files major (some c) m).0
  stub_apart c n m hex (b, e) h =
      let k : "stub" ≡ str_at "catalogId" c ++ (":" ++ lib.digest b) =
        sym (catalog_key-none n) ∙ (h ∙ catalog_key-some c b m e) in
      has_colon _ _ (subst LacksColon k stub-LacksColon)

  catalog_key-Apart :
      (x y : Option Fields) (n m : ℕ)
      → HexDigests
      → Encodes x
      → Encodes y
      → ((d : String) → DigestOf x d → DigestOf y d → x ≡ y)
      → (catalog_key lib files major x n).0 ≡ (catalog_key lib files major y m).0
      → x ≡ y
  catalog_key-Apart none none n m hex ex ey apart h = refl
  catalog_key-Apart none (some c) n m hex ex ey apart h = absurd (stub_apart c n m hex ey h)
  catalog_key-Apart (some c) none n m hex ex ey apart h = absurd (stub_apart c m n hex ex (sym h))
  catalog_key-Apart (some c) (some d) n m hex (b, ex) (b2, ey) apart h =
      let k = sym (catalog_key-some c b n ex) ∙ (h ∙ catalog_key-some d b2 m ey) in
      let same = past_colon _ _ (lib.digest b) (lib.digest b2) (hex b) (hex b2) k in
      apart (lib.digest b2) (c, b, refl, ex, same) (d, b2, refl, ey, refl)

  keyed-Elem :
      (k : String) (r : Request) (rs : List Request) (n : ℕ)
      → Elem (k, r) (keyed lib files major rs n)
      → Elem r rs × ((m : ℕ) × (k ≡ (request_key lib files major r m).0))
  unfolding keyed
  keyed-Elem k r [] n h = absurd h
  keyed-Elem k r (r2 ∷ rs) n (inl e) =
      let same = ap (λ (x : String × Request). x.1) e in
      let key = ap (λ (x : String × Request). x.0) e in
      (inl same, (n, key ∙ ap (λ z. (request_key lib files major z n).0) (sym same)))
  keyed-Elem k r (r2 ∷ rs) n (inr h) =
      let (m, key) = keyed-Elem k r rs (request_key lib files major r2 n).1 h in (inr m, key)

  keyed-Determined :
      (rs : List Request) (n : ℕ)
      → HexDigests
      → All Plain rs
      → Apart rs
      → Determined lib files major (keyed lib files major rs n)
  keyed-Determined rs n hex plain apart k r r2 h h2 =
      let (m, (i, p)) = keyed-Elem k r rs n h in
      let (m2, (j, q)) = keyed-Elem k r2 rs n h2 in
      let (bar, encodes) = All-Elem Plain rs r plain m in
      let (bar2, encodes2) = All-Elem Plain rs r2 plain m2 in
      let (kind, target, flag, key) =
        request_key_inj lib files major r r2 i j bar bar2 (sym p ∙ q) in
      let catalog =
        catalog_key-Apart (catalog_in r) (catalog_in r2) i j hex encodes encodes2
          (λ d. apart r r2 d m m2) key in
      ap (build lib files major) (request_same r r2 kind target flag catalog)

  -- A sequence of calls of `Compile` and `CompileRef` on a new engine answers, call by call, what
  -- building each request anew gives, where the targets have no bar, as those of the program, the
  -- catalogs can be encoded, those with one digest are the same, and a digest has no colon.
  pub compile_all-Plain :
      (rs : List Request)
      → HexDigests
      → All Plain rs
      → Apart rs
      → compile_all lib files major rs 0 new_cache ≡ map (build lib files major) rs
  compile_all-Plain rs hex plain apart =
      compile_all-build lib files major rs (keyed-Determined rs 0 hex plain apart)
