-- ===== src/Schema/Finalize/Dedupe.antt =====
-- The first loop of `Finalize`, of internal/schema/finalize.go: each problem is kept once.
use adk_a2ui_go.Common.{
  ◌≡◌, refl, ◌↔◌, true, false, List, [], ◌∷◌, ◌++◌, arith, inl, inr, ◌⊎◌, Bool-cases, Elem,
  IsDistinct, All, All-Elem, All-intro, ap,
}
use adk_a2ui_go.Kit.Problem.{Problem, problem_eq_iff}
use adk_a2ui_go.Schema.Finalize.{problem_elem, dedupe}

problem_elem_iff : (p : Problem) (qs : List Problem) → (problem_elem p qs ≡ true) ↔ Elem p qs
unfolding problem_elem
problem_elem_iff p [] = (λ h. cc, λ h. absurd h)
problem_elem_iff p (q ∷ qs) = ground (arith, problem_eq_iff q p, problem_elem_iff p qs)

dedupe_again :
    (p : Problem) (seen ps : List Problem)
    → problem_elem p seen ≡ true
    → dedupe seen (p ∷ ps) ≡ dedupe seen ps
unfolding dedupe
dedupe_again p seen ps h = rw h

dedupe_fresh :
    (p : Problem) (seen ps : List Problem)
    → problem_elem p seen ≡ false
    → dedupe seen (p ∷ ps) ≡ p ∷ dedupe (p ∷ seen) ps
unfolding dedupe
dedupe_fresh p seen ps h = rw h

-- `dedupe` keeps what it has not seen.
pub Elem-dedupe :
    (a : Problem) (seen ps : List Problem) → Elem a (dedupe seen ps) ↔ (Elem a ps × (¬ Elem a seen))
unfolding dedupe
Elem-dedupe a seen [] = (λ h. absurd h, λ h. h.0)
Elem-dedupe a seen (p ∷ ps) = elim (Bool-cases (problem_elem p seen)) [
  | inl e ↦ rw (dedupe_again p seen ps e) (
    λ h. let (m, n) = (Elem-dedupe a seen ps).0 h in (inr m, n),
    λ h.
        (Elem-dedupe a seen ps).1 (
          elim h.0 [ inl q ↦ absurd (h.1 (rw q ((problem_elem_iff p seen).0 e))) | inr m ↦ m ],
          h.1,
        ),
  )
  | inr e ↦ rw (dedupe_fresh p seen ps e) (
    elim [
      | inl q ↦ (inl q, rw q (λ k. cc ((problem_elem_iff p seen).1 k)))
      | inr h ↦ let (m, n) = (Elem-dedupe a (p ∷ seen) ps).0 h in (inr m, λ k. n (inr k))
    ],
    λ h. elim (Bool-cases (problem_elem a (p ∷ []))) [
      | inl q ↦ elim ((problem_elem_iff a (p ∷ [])).0 q) [ inl r ↦ inl r | inr f ↦ absurd f ]
      | inr q ↦ inr (
          (Elem-dedupe a (p ∷ seen) ps).1 (
            elim h.0 [ inl r ↦ cc ((problem_elem_iff a (p ∷ [])).1 (inl r)) | inr m ↦ m ],
            elim [ inl r ↦ cc ((problem_elem_iff a (p ∷ [])).1 (inl r)) | inr k ↦ h.1 k ],
          ))
    ],
  )
]

pub dedupe-IsDistinct : (seen ps : List Problem) → IsDistinct (dedupe seen ps)
unfolding dedupe
dedupe-IsDistinct seen [] = tt
dedupe-IsDistinct seen (p ∷ ps) = elim (Bool-cases (problem_elem p seen)) [
  | inl e ↦ rw (dedupe_again p seen ps e) (dedupe-IsDistinct seen ps)
  | inr e ↦
      rw (dedupe_fresh p seen ps e)
        (λ h. ((Elem-dedupe p (p ∷ seen) ps).0 h).1 (inl refl), dedupe-IsDistinct (p ∷ seen) ps)
]

pub dedupe-append_seen :
    (seen ps qs : List Problem)
    → All (λ q. Elem q seen ⊎ Elem q ps) qs
    → dedupe seen (ps ++ qs) ≡ dedupe seen ps
unfolding dedupe
dedupe-append_seen seen [] [] h = refl
dedupe-append_seen seen [] (q ∷ qs) h =
    rw
      (dedupe_again q seen qs
        ((problem_elem_iff q seen).1 (elim h.0 [ inl k ↦ k | inr k ↦ absurd k ])))
      (dedupe-append_seen seen [] qs h.1)
dedupe-append_seen seen (p ∷ ps) qs h = elim (Bool-cases (problem_elem p seen)) [
  | inl e ↦
      rw (dedupe_again p seen (ps ++ qs) e, dedupe_again p seen ps e)
        (dedupe-append_seen seen ps qs (
          All-intro (λ q. Elem q seen ⊎ Elem q ps) qs
            (λ q m. elim (All-Elem (λ q'. Elem q' seen ⊎ Elem q' (p ∷ ps)) qs q h m) [
              | inl k ↦ inl k
              | inr k ↦ elim k [
                | inl r ↦ inl (rw r ((problem_elem_iff p seen).0 e))
                | inr k' ↦ inr k'
              ]
            ])))
  | inr e ↦
      rw (dedupe_fresh p seen (ps ++ qs) e, dedupe_fresh p seen ps e)
        (ap (λ l. p ∷ l)
          (dedupe-append_seen (p ∷ seen) ps qs (
            All-intro (λ q. Elem q (p ∷ seen) ⊎ Elem q ps) qs
              (λ q m. elim (All-Elem (λ q'. Elem q' seen ⊎ Elem q' (p ∷ ps)) qs q h m) [
                | inl k ↦ inl (inr k)
                | inr k ↦ elim k [ inl r ↦ inl (inl r) | inr k' ↦ inr k' ]
              ]))))
]
