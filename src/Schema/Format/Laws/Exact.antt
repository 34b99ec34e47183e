-- ===== src/Schema/Format/Laws/Exact.antt =====
-- internal/schema/format.go: the problems that `Format` returns, beside the lines that are to be found.
use Prim.Native.Char.{Char}
use adk_a2ui_go.Common.{
  String, ◌≡◌, refl, ◌↔◌, ◌≢◌, inl, inr, List, [], ◌∷◌, Elem, IsDistinct, ap, sym, ◌∙◌,
}
use adk_a2ui_go.Common.Text.Separate.{Lacks, split_last}
use mathlib.Core.Path.{subst}
use adk_a2ui_go.Json.{Value}
use adk_a2ui_go.Kit.Problem.{Problem, problem}
use adk_a2ui_go.Schema.Format.Text.{Printer}
use adk_a2ui_go.Schema.Format.Plan.{Violation, invalid, Line}
use adk_a2ui_go.Schema.Format.{key_of, format}
use adk_a2ui_go.Schema.Format.Laws.{lines}
use adk_a2ui_go.Schema.Format.Laws.Once.{problem_keys, report, reports, format_complete}
use adk_a2ui_go.Schema.Format.Laws.Found.{Found, lines-Found, Found-lines}

abbrev nul : Char
nul = "\0"

-- A text without the separator of a key.
abbrev pub LacksNul : String → Type 0
LacksNul = Lacks 0

-- Keys tell problems apart whose messages have no NUL.
key_of-inj : (p q : Problem) → LacksNul p.message → LacksNul q.message → key_of p ≡ key_of q → p ≡ q
key_of-inj p q lp lq h =
    let (path, message) = split_last nul p.path q.path p.message q.message lp lq h in
    ap (λ x. problem x p.message) path ∙ ap (problem q.path) message

key_of-Elem :
    (k : String) (ps : List Problem)
    → Elem k (problem_keys ps)
    → (q : Problem) × Elem q ps × (key_of q ≡ k)
key_of-Elem k [] m = absurd m
key_of-Elem k (p ∷ ps) (inl e) = (p, inl refl, sym e)
key_of-Elem k (p ∷ ps) (inr m) = (let (q, n, e) = key_of-Elem k ps m in (q, inr n, e))

Elem-problem_keys :
    (p : Problem) (ps : List Problem) → Elem p ps → Elem (key_of p) (problem_keys ps)
Elem-problem_keys p [] m = absurd m
Elem-problem_keys p (q ∷ ps) (inl e) = inl (ap key_of e)
Elem-problem_keys p (q ∷ ps) (inr m) = inr (Elem-problem_keys p ps m)

problems-IsDistinct : (ps : List Problem) → IsDistinct (problem_keys ps) → IsDistinct ps
problems-IsDistinct [] d = tt
problems-IsDistinct (p ∷ ps) (n, d) =
    ((λ m. n (Elem-problem_keys p ps m)), problems-IsDistinct ps d)

reports_iff :
    (prefix : String) (p : Problem) (ls : List Line)
    → Elem p (reports prefix ls) ↔ ((l : Line) × Elem l ls × (p ≡ report prefix l))
reports_iff prefix p [] = (λ m. absurd m, λ (l, m, e). absurd m)
reports_iff prefix p (l ∷ ls) =
    let rest = reports_iff prefix p ls in
    (
      λ m. elim m [
        | inl e ↦ (l, inl refl, e)
        | inr n ↦ (let (x, k, e) = rest.0 n in (x, inr k, e))
      ],
      λ (x, m, e). elim m [
        | inl s ↦ inl (e ∙ ap (report prefix) s)
        | inr k ↦ inr (rest.1 (x, k, e))
      ],
    )

module _ (out : Printer) (inst : Value) (prefix : String) (v : Violation) (text : String) where
  abbrev formatted : List Problem
  formatted = format out inst prefix (invalid v text)

  found-nonempty : (l : Line) → Found out inst v l → lines out inst v ≢ []
  found-nonempty l f h = subst (Elem l) h (Found-lines out inst v l f)

  formatted-Found :
      (l : Line) (p : Problem)
      → Found out inst v l
      → Elem p formatted
      → (x : Line) × Found out inst v x × (p ≡ report prefix x)
  formatted-Found l p f m =
      let (sound, _, _) = format_complete out inst prefix v text (found-nonempty l f) in
      let (x, n, e) = (reports_iff prefix p (lines out inst v)).0 (sound p m) in
      (x, lines-Found out inst v x n, e)

  Found-formatted :
      (l : Line)
      → ((x : Line) → Found out inst v x → LacksNul x.1)
      → Found out inst v l
      → Elem (report prefix l) formatted
  Found-formatted l lacks f =
      let (_, complete, _) = format_complete out inst prefix v text (found-nonempty l f) in
      let here =
        (reports_iff prefix (report prefix l) (lines out inst v)).1
          (l, Found-lines out inst v l f, refl) in
      let key =
        complete (key_of (report prefix l))
          (Elem-problem_keys (report prefix l) (reports prefix (lines out inst v)) here) in
      let (q, m, same) = key_of-Elem (key_of (report prefix l)) formatted key in
      let (x, g, e) = formatted-Found l q f m in
      let lq : LacksNul q.message = rw e (lacks x g) in
      subst (λ y. Elem y formatted) (key_of-inj q (report prefix l) lq (lacks l f) same) m

  -- Where some line is to be found in an error of the validator, and no message that is to be found
  -- holds a NUL, the problems of `Format` are exactly the lines that are to be found, each once: what
  -- the kind of an error says of it, what is found in the branch that `walkOneOf` picks of a union or
  -- in a cause that is not a collateral false schema, and the text of an error without causes that
  -- says nothing else.
  pub format-Found :
      (l : Line)
      → Found out inst v l
      → ((x : Line) → Found out inst v x → LacksNul x.1)
      → ((p : Problem)
          → Elem p formatted ↔ ((x : Line) × Found out inst v x × (p ≡ report prefix x)))
        × IsDistinct formatted
  format-Found l f lacks =
      let (_, _, once) = format_complete out inst prefix v text (found-nonempty l f) in
      (
        λ p. (
          formatted-Found l p f,
          λ (x, g, e). subst (λ y. Elem y formatted) (sym e) (Found-formatted x lacks g),
        ),
        problems-IsDistinct formatted once,
      )
