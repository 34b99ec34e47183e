-- ===== src/Schema/Finalize/Laws.antt =====
-- What the list that the model sees says of the problems that were found.
use adk_a2ui_go.Common.{
  ℕ, suc, ◌+◌, ◌-◌, ◌≤◌, ◌<◌, ◌≡◌, refl, ◌↔◌, true, false, List, [], ◌∷◌, ◌++◌, arith, inl, inr,
  ◌⊎◌, Bool-cases, length, take, ltb, Elem, IsDistinct, All, All-Elem, All-intro, length-append,
  length-take, ap, ltb→lt, lt→ltb,
}
use adk_a2ui_go.Common.Sort.{sort, length-sort, Elem-sort, sort-IsDistinct, IsSorted, sort-IsSorted}
use Prim.Native.Nat.{min, zero}
use Prim.Native.String
use mathlib.Core.Path.{subst}
use adk_a2ui_go.Common.Text.{itoa}
use adk_a2ui_go.Kit.Problem.{Problem, problem}
use adk_a2ui_go.Schema.Paths.Order.{path-IsWeakOrder}
use adk_a2ui_go.Schema.Finalize.{max_problems, dedupe, problem_less, cap_problems, finalize}
use adk_a2ui_go.Schema.Finalize.Dedupe.{Elem-dedupe, dedupe-IsDistinct, dedupe-append_seen}

abbrev distinct : List Problem → List Problem
distinct ps = sort problem_less (dedupe [] ps)

Elem-distinct : (a : Problem) (ps : List Problem) → Elem a (distinct ps) ↔ Elem a ps
Elem-distinct a ps = (
  λ h. ((Elem-dedupe a [] ps).0 ((Elem-sort problem_less a (dedupe [] ps)).0 h)).0,
  λ h. (Elem-sort problem_less a (dedupe [] ps)).1 ((Elem-dedupe a [] ps).1 (h, λ k. k)),
)

abbrev pub trailer : ℕ → Problem
trailer n = problem "" (String.◌++◌ "... and " (String.◌++◌ (itoa n) " more"))

cap_large :
    (qs : List Problem)
    → ltb max_problems (length qs) ≡ true
    → cap_problems qs ≡ take max_problems qs ++ trailer (length qs - max_problems) ∷ []
unfolding cap_problems
cap_large qs h = rw h

cap_small : (qs : List Problem) → ltb max_problems (length qs) ≡ false → cap_problems qs ≡ qs
unfolding cap_problems
cap_small qs h = rw h

length-cap : (qs : List Problem) → length (cap_problems qs) ≡ min 21 (length qs)
length-cap qs = elim (Bool-cases (ltb max_problems (length qs))) [
  | inl e ↦ rw (cap_large qs e) (
      omega (
        arith,
        ltb→lt _ _ e,
        length-append (take max_problems qs) (trailer (length qs - max_problems) ∷ []),
        length-take max_problems qs,
      ))
  | inr e ↦ rw (cap_small qs e) (ground arith)
]

length-finalize : (ps : List Problem) → length (finalize ps) ≡ min 21 (length (distinct ps))
unfolding finalize
length-finalize ps = length-cap (distinct ps)

nil_of_no-Elem : (ps : List Problem) → ((a : Problem) → ¬ Elem a ps) → ps ≡ []
nil_of_no-Elem [] h = refl
nil_of_no-Elem (p ∷ ps) h = absurd (h p (inl refl))

nil_of_length : (ps : List Problem) → length ps ≡ 0 → ps ≡ []
nil_of_length [] h = refl
nil_of_length (p ∷ ps) h = absurd (omega arith)

finalize-nil : (ps : List Problem) → finalize ps ≡ [] → ps ≡ []
finalize-nil ps h =
    let none_left =
      nil_of_length (distinct ps)
        (omega (arith, length-finalize ps, ap (λ (l : List Problem). length l) h)) in
    nil_of_no-Elem ps (λ a m. subst (Elem a) none_left ((Elem-distinct a ps).1 m))

finalize_of_nil : finalize [] ≡ []
unfolding finalize sort
finalize_of_nil = refl

-- `Finalize` returns at most 21 lines, and none exactly where there was no problem.
pub finalize_bounds :
    (ps : List Problem) → (length (finalize ps) ≤ 21) × ((finalize ps ≡ []) ↔ (ps ≡ []))
finalize_bounds ps =
    (omega (arith, length-finalize ps), (finalize-nil ps, λ e. rw e finalize_of_nil))

-- A list of at most 20 lines has exactly the problems that were found, each once, in the order of
-- their paths.
pub finalize_complete :
    (ps : List Problem)
    → length (finalize ps) ≤ 20
    → ((a : Problem) → Elem a (finalize ps) ↔ Elem a ps)
      × IsDistinct (finalize ps)
      × IsSorted problem_less (finalize ps)
unfolding finalize
finalize_complete ps h =
    let small =
      cap_small (distinct ps) (ground (arith, length-finalize ps, length-cap (distinct ps))) in
    rw small (
      (λ a. Elem-distinct a ps),
      sort-IsDistinct problem_less (dedupe [] ps) (dedupe-IsDistinct [] ps),
      sort-IsSorted problem_less (path-IsWeakOrder (λ p. p.path)) (dedupe [] ps),
    )

-- Findings that repeat what was already found change nothing.
pub finalize-append_repeated :
    (ps qs : List Problem) → All (λ q. Elem q ps) qs → finalize (ps ++ qs) ≡ finalize ps
unfolding finalize
finalize-append_repeated ps qs h = rw (
    dedupe-append_seen [] ps qs (
      All-intro (λ q. Elem q [] ⊎ Elem q ps) qs
        (λ q m. inr (All-Elem (λ q'. Elem q' ps) qs q h m))))

take_sub : (n : ℕ) (a : Problem) (ps : List Problem) → Elem a (take n ps) → Elem a ps
take_sub zero a ps h = absurd h
take_sub (suc n) a [] h = h
take_sub (suc n) a (p ∷ ps) h = elim h [ inl e ↦ inl e | inr k ↦ inr (take_sub n a ps k) ]

take-IsDistinct : (n : ℕ) (ps : List Problem) → IsDistinct ps → IsDistinct (take n ps)
take-IsDistinct zero ps d = tt
take-IsDistinct (suc n) [] d = tt
take-IsDistinct (suc n) (p ∷ ps) d = (λ h. d.0 (take_sub n p ps h), take-IsDistinct n ps d.1)

take-IsSorted :
    (n : ℕ) (ps : List Problem) → IsSorted problem_less ps → IsSorted problem_less (take n ps)
take-IsSorted zero ps s = tt
take-IsSorted (suc n) [] s = tt
take-IsSorted (suc n) (p ∷ ps) s = (
  All-intro (λ q. problem_less q p ≡ false) (take n ps)
      (λ q m. All-Elem (λ q'. problem_less q' p ≡ false) ps q s.0 (take_sub n q ps m)),
  take-IsSorted n ps s.1,
)

-- A list of more than 20 lines has 20 of the problems that were found, each once and in the order
-- of their paths, and a trailer with no path that counts the others.
pub finalize_capped :
    (ps : List Problem)
    → 20 < length (finalize ps)
    → (shown : List Problem) × (more : ℕ) × (finalize ps ≡ shown ++ trailer more ∷ [])
      × (length shown ≡ 20)
      × (0 < more)
      × (length (dedupe [] ps) ≡ 20 + more)
      × All (λ a. Elem a ps) shown
      × IsDistinct shown
      × IsSorted problem_less shown
unfolding finalize
finalize_capped ps h =
    let large : ltb max_problems (length (distinct ps)) ≡ true =
      lt→ltb _ _ (omega (arith, length-cap (distinct ps))) in
    (
      take max_problems (distinct ps),
      length (distinct ps) - max_problems,
      cap_large (distinct ps) large,
      omega (arith, length-take max_problems (distinct ps), ltb→lt _ _ large),
      omega (arith, ltb→lt _ _ large),
      omega (arith, ltb→lt _ _ large, length-sort problem_less (dedupe [] ps)),
      All-intro (λ a. Elem a ps) (take max_problems (distinct ps))
          (λ a m. (Elem-distinct a ps).0 (take_sub max_problems a (distinct ps) m)),
      take-IsDistinct max_problems (distinct ps)
          (sort-IsDistinct problem_less (dedupe [] ps) (dedupe-IsDistinct [] ps)),
      take-IsSorted max_problems (distinct ps)
          (sort-IsSorted problem_less (path-IsWeakOrder (λ p. p.path)) (dedupe [] ps)),
    )
