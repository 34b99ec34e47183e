-- ===== src/Common/Text/Separate.antt =====
-- Texts that are joined with a separator, and their parts.
use Prim.Native.Nat.{ℕ}
use Prim.Native.Char.{Char, code}
use Prim.Native.String.{String, ◌++◌}
use mathlib.Core.Path.{◌≡◌, refl, sym, ap, ◌∙◌, subst}
use mathlib.Core.Logic.{◌≢◌}
use text.Mathlib.TextLemmas.{nil-append, cons-append, head-eq_of_cons-eq, tail-eq_of_cons-eq}

-- A text without a character.
abbrev pub Lacks : ℕ → String → Type 0
Lacks n String.[] = Unit
Lacks n (String.◌∷◌ c s) = (code c ≢ n) × Lacks n s

pub cons_eq : (c d : Char) (s t : String) → String.◌∷◌ c s ≡ String.◌∷◌ d t → (c ≡ d) × (s ≡ t)
cons_eq c d s t h = (head-eq_of_cons-eq h, tail-eq_of_cons-eq h)

module _ (x : Char) where
  abbrev bar : String
  bar = String.◌∷◌ x String.[]

  -- A separator is the first character of what it starts.
  behind : (s : String) → "" ++ (bar ++ s) ≡ String.◌∷◌ x s
  behind s = nil-append (bar ++ s) ∙ (cons-append x "" s ∙ ap (String.◌∷◌ x) (nil-append s))

  pub has_separator : (a s : String) → ¬ Lacks (code x) (a ++ (bar ++ s))
  has_separator String.[] s h = (subst (Lacks (code x)) (behind s) h).0 refl
  has_separator (String.◌∷◌ c a) s h =
      has_separator a s (subst (Lacks (code x)) (cons-append c a (bar ++ s)) h).1

  -- Two texts that are the same have the same parts up to a first separator.
  pub split_first :
      (a b s t : String)
      → Lacks (code x) a
      → Lacks (code x) b
      → a ++ (bar ++ s) ≡ b ++ (bar ++ t)
      → (a ≡ b) × (s ≡ t)
  split_first String.[] String.[] s t la lb h =
      (refl, (cons_eq _ _ s t (sym (behind s) ∙ (h ∙ behind t))).1)
  split_first String.[] (String.◌∷◌ d b) s t la lb h =
      let e = sym (behind s) ∙ (h ∙ cons-append d b (bar ++ t)) in
      absurd (lb.0 (ap code (sym (cons_eq x d s (b ++ (bar ++ t)) e).0)))
  split_first (String.◌∷◌ c a) String.[] s t la lb h =
      let e = sym (cons-append c a (bar ++ s)) ∙ (h ∙ behind t) in
      absurd (la.0 (ap code (cons_eq c x (a ++ (bar ++ s)) t e).0))
  split_first (String.◌∷◌ c a) (String.◌∷◌ d b) s t la lb h =
      let e = sym (cons-append c a (bar ++ s)) ∙ (h ∙ cons-append d b (bar ++ t)) in
      let (same, rest) = cons_eq c d (a ++ (bar ++ s)) (b ++ (bar ++ t)) e in
      let (p, q) = split_first a b s t la.1 lb.1 rest in
      (ap (λ y. String.◌∷◌ y a) same ∙ ap (String.◌∷◌ d) p, q)

  -- And the same parts up to a last one.
  pub split_last :
      (a b s t : String)
      → Lacks (code x) s
      → Lacks (code x) t
      → a ++ (bar ++ s) ≡ b ++ (bar ++ t)
      → (a ≡ b) × (s ≡ t)
  split_last String.[] String.[] s t ls lt h =
      (refl, (cons_eq _ _ s t (sym (behind s) ∙ (h ∙ behind t))).1)
  split_last String.[] (String.◌∷◌ d b) s t ls lt h =
      let e = sym (behind s) ∙ (h ∙ cons-append d b (bar ++ t)) in
      absurd (has_separator b t (subst (Lacks (code x)) (cons_eq x d s (b ++ (bar ++ t)) e).1 ls))
  split_last (String.◌∷◌ c a) String.[] s t ls lt h =
      let e = sym (cons-append c a (bar ++ s)) ∙ (h ∙ behind t) in
      let rest = (cons_eq c x (a ++ (bar ++ s)) t e).1 in
      absurd (has_separator a s (subst (Lacks (code x)) (sym rest) lt))
  split_last (String.◌∷◌ c a) (String.◌∷◌ d b) s t ls lt h =
      let e = sym (cons-append c a (bar ++ s)) ∙ (h ∙ cons-append d b (bar ++ t)) in
      let (same, rest) = cons_eq c d (a ++ (bar ++ s)) (b ++ (bar ++ t)) e in
      let (p, q) = split_last a b s t ls lt rest in
      (ap (λ y. String.◌∷◌ y a) same ∙ ap (String.◌∷◌ d) p, q)
