-- ===== src/Schema/Format/Laws/Found.antt =====
-- internal/schema/format.go: the lines that are to be found in an error of the validator, by rules, and
-- those that the walk over it meets.
use adk_a2ui_go.Common.{
  ℕ, zero, suc, String, ◌≡◌, refl, ◌↔◌, ◌⊎◌, inl, inr, Bool, true, false, ◌&&◌, List, Elem,
  Elem-append, Bool-cases, arith, sym,
}
use mathlib.Core.Path.{subst}
use adk_a2ui_go.Json.{Value}
use adk_a2ui_go.Schema.Format.Text.{Printer}
use adk_a2ui_go.Schema.Format.Plan.{
  Kind, Violation, violation, Violations, nothing, also, Line, Round-cases, kind_plan,
}
use adk_a2ui_go.Schema.Format.Plan.Said.{Said, Picks, GoesOn, Said-iff, Picks-iff, GoesOn-iff}
use adk_a2ui_go.Schema.Format.{is_false_schema, has_other}
use adk_a2ui_go.Schema.Format.Laws.{lines, lines_nth, lines_causes, lines_kept}

abbrev pub Among : Violation → Violations → Type 0
Among v nothing = ⊥
Among v (also w rest) = (v ≡ w) ⊎ Among v rest

abbrev pub Nth : ℕ → Violations → Violation → Type 0
Nth i nothing v = ⊥
Nth zero (also w rest) v = v ≡ w
Nth (suc i) (also w rest) v = Nth i rest v

-- All of the causes are false schemas.
abbrev pub EachFalse : Violations → Type 0
EachFalse nothing = Unit
EachFalse (also v rest) = (is_false_schema v ≡ true) × EachFalse rest

-- A false schema beside another kind of failure is collateral, and not kept.
abbrev pub Kept : Violation → Violations → Type 0
Kept v causes = (is_false_schema v ≡ false) ⊎ EachFalse causes

-- The lines that are to be found in an error: what its kind says; what is found in the branch of a
-- union, or in a cause that is kept; and its own text, where it goes on without causes.
pub data Found (out : Printer) (inst : Value) : Violation → Line → Type 0 where
  said :
      (k : Kind) (loc : List String) (text : String) (causes : Violations) (l : Line)
      → Said out inst k loc causes l
      → Found out inst (violation k loc text causes) l
  picked :
      (k : Kind) (loc : List String) (text : String) (causes : Violations) (l : Line) (i : ℕ)
      (v : Violation)
      → Picks out inst k loc causes i
      → Nth i causes v
      → Found out inst v l
      → Found out inst (violation k loc text causes) l
  leaf :
      (k : Kind) (loc : List String) (text : String)
      → GoesOn out inst k loc nothing
      → Found out inst (violation k loc text nothing) (loc, text)
  cause :
      (k : Kind) (loc : List String) (text : String) (causes : Violations) (l : Line)
      (v : Violation)
      → GoesOn out inst k loc causes
      → Among v causes
      → Kept v causes
      → Found out inst v l
      → Found out inst (violation k loc text causes) l

has_other-EachFalse : (vs : Violations) → (has_other vs ≡ false) ↔ EachFalse vs
unfolding has_other
has_other-EachFalse nothing = (λ h. tt, λ h. refl)
has_other-EachFalse (also v rest) =
    let later = has_other-EachFalse rest in
    elim (Bool-cases (is_false_schema v)) [
      | inl e ↦ rw e (λ h. (refl, later.0 h), λ h. later.1 h.1)
      | inr e ↦ rw e (λ h. cc, λ h. cc h.0)
    ]

Kept-iff :
    (v : Violation) (causes : Violations)
    → ((has_other causes && is_false_schema v) ≡ false) ↔ Kept v causes
Kept-iff v causes =
    let each = has_other-EachFalse causes in
    elim (Bool-cases (is_false_schema v)) [
      | inr e ↦ rw e (λ h. inl refl, λ h. ground arith)
      | inl e ↦ rw e (
        λ h. inr (each.0 (ground arith)),
        λ h. elim h [ inl k ↦ cc k | inr k ↦ rw (each.1 k) refl ],
      )
    ]

module _ (out : Printer) (inst : Value) where
  lines_nth-Nth :
      (i : ℕ) (vs : Violations) (v : Violation) (l : Line)
      → Nth i vs v
      → Elem l (lines out inst v)
      → Elem l (lines_nth out inst i vs)
  unfolding lines
  lines_nth-Nth i nothing v l n m = absurd n
  lines_nth-Nth zero (also w rest) v l n m = subst (λ x. Elem l (lines out inst x)) n m
  lines_nth-Nth (suc i) (also w rest) v l n m = lines_nth-Nth i rest v l n m

  lines_kept-Among :
      (other : Bool) (vs : Violations) (v : Violation) (l : Line)
      → Among v vs
      → (other && is_false_schema v) ≡ false
      → Elem l (lines out inst v)
      → Elem l (lines_kept out inst other vs)
  unfolding lines
  lines_kept-Among other nothing v l a e m = absurd a
  lines_kept-Among other (also w rest) v l (inl s) e m =
      let here : (other && is_false_schema w) ≡ false = rw (sym s) e in
      rw here (
        (Elem-append l (lines out inst w) (lines_kept out inst other rest)).1
          (inl (subst (λ x. Elem l (lines out inst x)) s m)))
  lines_kept-Among other (also w rest) v l (inr a) e m =
      (Elem-append l _ (lines_kept out inst other rest)).1
        (inr (lines_kept-Among other rest v l a e m))

  lines_causes-kept :
      (loc : List String) (text : String) (v : Violation) (rest : Violations)
      → lines_causes out inst loc text (also v rest)
        ≡ lines_kept out inst (has_other (also v rest)) (also v rest)
  unfolding lines
  lines_causes-kept loc text v rest = refl

  -- A line behind a cause that is kept.
  abbrev FoundIn : Bool → Violations → Line → Type 0
  FoundIn other vs l =
      (v : Violation) × Among v vs × ((other && is_false_schema v) ≡ false) × Found out inst v l

  Found-causes :
      (k : Kind) (loc : List String) (text : String) (causes : Violations) (l : Line)
      → GoesOn out inst k loc causes
      → (Elem l (lines_kept out inst (has_other causes) causes)
          → FoundIn (has_other causes) causes l)
      → Elem l (lines_causes out inst loc text causes)
      → Found out inst (violation k loc text causes) l
  unfolding lines
  Found-causes k loc text nothing l g f (inl e) =
      subst (Found out inst (violation k loc text nothing)) (sym e) (leaf k loc text g)
  Found-causes k loc text nothing l g f (inr n) = absurd n
  Found-causes k loc text (also w rest) l g f m =
      let (v, a, e, found) = f m in
      cause k loc text (also w rest) l v g a ((Kept-iff v (also w rest)).0 e) found

  mutual
    unfolding lines

    pub lines-Found : (v : Violation) (l : Line) → Elem l (lines out inst v) → Found out inst v l
    lines-Found (violation k loc text causes) l =
        elim (Round-cases (kind_plan out inst k loc causes)) [
          | inl (ls, e) ↦
              rw e (λ m. said k loc text causes l ((Said-iff out inst k loc causes l).1 (ls, e, m)))
          | inr (inl (i, e)) ↦ rw e (λ m.
              let (v, n, found) = branch_lines i causes l m in
              picked k loc text causes l i v ((Picks-iff out inst k loc causes i).1 e) n found)
          | inr (inr e) ↦ rw e (
              Found-causes k loc text causes l ((GoesOn-iff out inst k loc causes).1 e)
                (FoundIn-kept (has_other causes) causes l))
        ]

    branch_lines :
        (i : ℕ) (vs : Violations) (l : Line)
        → Elem l (lines_nth out inst i vs)
        → (v : Violation) × Nth i vs v × Found out inst v l
    branch_lines i nothing l m = absurd m
    branch_lines zero (also v rest) l m = (v, refl, lines-Found v l m)
    branch_lines (suc i) (also v rest) l m = branch_lines i rest l m

    FoundIn-kept :
        (other : Bool) (vs : Violations) (l : Line)
        → Elem l (lines_kept out inst other vs)
        → FoundIn other vs l
    FoundIn-kept other nothing l = λ m. absurd m
    FoundIn-kept other (also v rest) l = elim (Bool-cases (other && is_false_schema v)) [
      | inl h ↦
          rw h (λ m. let (w, a, e, found) = FoundIn-kept other rest l m in (w, inr a, e, found))
      | inr h ↦ rw h (λ m.
          elim ((Elem-append l (lines out inst v) (lines_kept out inst other rest)).0 m) [
            | inl here ↦ (v, inl refl, h, lines-Found v l here)
            | inr later ↦
                (let (w, a, e, found) = FoundIn-kept other rest l later in (w, inr a, e, found))
          ])
    ]

  pub Found-lines : (v : Violation) (l : Line) → Found out inst v l → Elem l (lines out inst v)
  unfolding lines
  Found-lines _ l (said k loc text causes _ s) =
      let (ls, e, m) = (Said-iff out inst k loc causes l).0 s in rw e m
  Found-lines _ l (picked k loc text causes _ i v p n f) =
      rw ((Picks-iff out inst k loc causes i).0 p)
        (lines_nth-Nth i causes v l n (Found-lines v l f))
  Found-lines _ _ (leaf k loc text g) = rw ((GoesOn-iff out inst k loc nothing).0 g) (inl refl)
  Found-lines _ l (cause k loc text nothing _ v g a kept f) = absurd a
  Found-lines _ l (cause k loc text (also w rest) _ v g a kept f) =
      rw ((GoesOn-iff out inst k loc (also w rest)).0 g) (
        lines_kept-Among (has_other (also w rest)) (also w rest) v l a
          ((Kept-iff v (also w rest)).1 kept) (Found-lines v l f))
