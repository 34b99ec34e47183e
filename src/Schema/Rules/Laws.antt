-- ===== src/Schema/Rules/Laws.antt =====
-- `FirstCreateIndex` finds the first message that creates a surface.
use adk_a2ui_go.Common.{
  ℕ, zero, suc, ◌+◌, ◌≤◌, String, ◌≡◌, refl, ◌↔◌, ◌≢◌, ◌⊎◌, inl, inr, Option, none, some, List, [],
  ◌∷◌, ◌==◌, eq_iff, if◌then◌else◌, arith, GoMap, lookup, ap, Option-cases, String-cases,
}
use mathlib.Core.Path.{subst, ◌∙◌}
use adk_a2ui_go.Json.{Fields, get, as_obj}
use adk_a2ui_go.Schema.Rules.{
  created_by, note_create, create_index, first_create_index, used_before_create,
}

-- The surface that message `m` creates.
abbrev pub creates : Fields → Option String
creates m = created_by (as_obj (get "createSurface" m))

-- `sid` is created at index `k` of the batch, and by no message before.
abbrev pub FirstAt : String → List Fields → ℕ → Type 0
FirstAt sid [] k = ⊥
FirstAt sid (m ∷ ms) zero = creates m ≡ some sid
FirstAt sid (m ∷ ms) (suc k) = (creates m ≢ some sid) × FirstAt sid ms k

lookup-note_create :
    (i : ℕ) (o : Option String) (out : GoMap ℕ) (sid : String)
    → lookup sid (note_create i o out) ≡ elim (lookup sid out) [
      | some j ↦ some j
      | none ↦ elim o [ none ↦ none | some t ↦ if t == sid then some i else none ]
    ]
unfolding note_create lookup
lookup-note_create i none out sid = ground arith
lookup-note_create i (some t) out sid = elim (String-cases t sid) [
  | inl e ↦ rw e (ground (arith, eq_iff sid sid))
  | inr n ↦ ground (arith, eq_iff t sid)
]

-- A surface that is known keeps its index; another gets that of its first creation.
create_index_known :
    (i : ℕ) (out : GoMap ℕ) (ms : List Fields) (sid : String) (j : ℕ)
    → lookup sid out ≡ some j
    → lookup sid (create_index i out ms) ≡ some j
unfolding create_index
create_index_known i out [] sid j h = h
create_index_known i out (m ∷ ms) sid j h =
    create_index_known (suc i) (note_create i (creates m) out) ms sid j
      (ground (arith, lookup-note_create i (creates m) out sid))

create_index_first :
    (i : ℕ) (out : GoMap ℕ) (ms : List Fields) (sid : String) (k : ℕ)
    → lookup sid out ≡ none
    → FirstAt sid ms k
    → lookup sid (create_index i out ms) ≡ some (i + k)
unfolding create_index
create_index_first i out [] sid k h f = absurd f
create_index_first i out (m ∷ ms) sid zero h f =
    create_index_known (suc i) (note_create i (creates m) out) ms sid (i + 0)
      (ground (arith, lookup-note_create i (creates m) out sid, eq_iff sid sid))
create_index_first i out (m ∷ ms) sid (suc k) h f = ground (
  arith,
  create_index_first (suc i) (note_create i (creates m) out) ms sid k,
  lookup-note_create i (creates m) out sid,
  other (creates m) f.0,
)
  where
    other : (o : Option String) → o ≢ some sid → lookup sid (note_create i o out) ≡ none
    other none n = rw lookup-note_create (rw h)
    other (some t) n = elim (String-cases t sid) [
      | inl e ↦ absurd (n (ap some e))
      | inr d ↦ ground (arith, lookup-note_create i (some t) out sid)
    ]

note_create_here :
    (i : ℕ) (o : Option String) (out : GoMap ℕ) (sid : String)
    → lookup sid out ≡ none
    → (o ≡ some sid) ⊎ ((o ≢ some sid) × (lookup sid (note_create i o out) ≡ none))
note_create_here i none out sid h = inr (λ e. cc, rw lookup-note_create (rw h))
note_create_here i (some t) out sid h = elim (String-cases t sid) [
  | inl e ↦ inl (ap some e)
  | inr d ↦ inr ((λ e. d.1 (ground arith)), ground (arith, lookup-note_create i (some t) out sid))
]

create_index_found :
    (i : ℕ) (out : GoMap ℕ) (ms : List Fields) (sid : String) (n : ℕ)
    → lookup sid out ≡ none
    → lookup sid (create_index i out ms) ≡ some n
    → (k : ℕ) × (n ≡ i + k) × FirstAt sid ms k
unfolding create_index
create_index_found i out [] sid n h e = cc
create_index_found i out (m ∷ ms) sid n h e = elim (note_create_here i (creates m) out sid h) [
  | inl c ↦ (0, ground (arith, create_index_first i out (m ∷ ms) sid 0 h c, e), c)
  | inr d ↦
      let (k, p, f) = create_index_found (suc i) (note_create i (creates m) out) ms sid n d.1 e in
      (suc k, omega (arith, p), (d.0, f))
]

-- `FirstCreateIndex` maps a surface id to `k` exactly where message `k` is the first of the batch
-- that creates the surface.
pub first_create_index_iff :
    (ms : List Fields) (sid : String) (k : ℕ)
    → (lookup sid (first_create_index ms) ≡ some k) ↔ FirstAt sid ms k
unfolding first_create_index lookup
first_create_index_iff ms sid k = (
  λ e.
      let (j, p, f) = create_index_found 0 [] ms sid k refl e in
      subst (FirstAt sid ms) (omega (arith, p)) f,
  λ f. create_index_first 0 [] ms sid k refl f ∙ ap some (omega arith),
)

abbrev pub NotLater : Option ℕ → ℕ → Type 0
NotLater none i = Unit
NotLater (some k) i = k ≤ i

pub used_before_create-nil_iff :
    (created : GoMap ℕ) (sid : String) (i : ℕ) (key : String)
    → (used_before_create created sid i key ≡ []) ↔ NotLater (lookup sid created) i
unfolding used_before_create
used_before_create-nil_iff created sid i key = elim (Option-cases (lookup sid created)) [
  | inl e ↦ rw e (λ h. tt, λ h. rw (e, used_before_create))
  | inr (k, e) ↦ rw e (λ h. ground arith, λ h. ground arith)
]
