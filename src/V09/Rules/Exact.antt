-- ===== src/V09/Rules/Exact.antt =====
-- v09/rules.go: the batches in which v0.9's `semanticRules` finds no problem.
use adk_a2ui_go.Common.{
  ℕ, suc, String, ◌≡◌, refl, ◌↔◌, ◌⊎◌, inl, inr, List, [], ◌∷◌, ◌++◌, GoMap, sym, ap, Bool-cases,
  Elem, IsDistinct, All, append-nil_iff, str_elem, str_elem_iff,
}
use mathlib.Core.Path.{◌∙◌, subst}
use mathlib.Core.List.{append-nil, append_assoc}
use adk_a2ui_go.Json.{Fields, get, as_obj}
use adk_a2ui_go.Schema.Rules.{first_create_index}
use adk_a2ui_go.Schema.Rules.Laws.{creates}
use adk_a2ui_go.V10.Rules.{RuleState, no_state}
use adk_a2ui_go.V10.Rules.Spec.{option_list, created_ids}
use adk_a2ui_go.V10.Rules.Rounds.{AllNew, fresh_step}
use adk_a2ui_go.V10.Rules.Laws.{All-map, AllNew-nil}
use adk_a2ui_go.V09.Rules.{
  create_v09, after_create_v09, rules_from_v09, missing_roots_v09, semantic_rules_v09,
}
use adk_a2ui_go.V09.Rules.Spec.{AllFromV09, HasRootV09, BatchOkV09}
use adk_a2ui_go.V09.Rules.Rounds.{after-StepsV09, message_v09-nil_iff}

-- The state behind one message.
abbrev behind : GoMap ℕ → ℕ → Fields → RuleState → RuleState
behind created i m st =
    (after_create_v09 created i m (create_v09 i (as_obj (get "createSurface" m)) st) st).0

rules_from_v09-nil_iff :
    (created : GoMap ℕ) (i : ℕ) (st : RuleState) (ms : List Fields)
    → ((rules_from_v09 created i st ms).1 ≡ []) ↔ (
        AllFromV09 created i ms
        × IsDistinct (created_ids ms)
        × AllNew st.seen_create (created_ids ms))
unfolding rules_from_v09
rules_from_v09-nil_iff created i st [] = (λ h. (tt, tt, tt), λ h. refl)
rules_from_v09-nil_iff created i st (m ∷ ms) =
    let here = message_v09-nil_iff created i m st in
    let rest = rules_from_v09-nil_iff created (suc i) (behind created i m st) ms in
    let split = fresh_step (creates m) st.seen_create (created_ids ms) in
    let steps = after-StepsV09 created i m (as_obj (get "createSurface" m)) st in
    (
      λ h.
          let (a, b) = (append-nil_iff _ _).0 h in
          let (ok, new) = here.0 a in
          let (oks, once, news) = rest.0 b in
          let known = subst (λ l. AllNew l (created_ids ms)) (steps a).seen news in
          let (d, e) = split.0 (new, once, known) in ((ok, oks), d, e),
      λ h.
          let (new, once, news) = split.1 (h.1, h.2) in
          let a = here.1 (h.0.0, new) in
          let known = subst (λ l. AllNew l (created_ids ms)) (sym (steps a).seen) news in
          (append-nil_iff _ _).1 (a, rest.1 (h.0.1, once, known)),
    )

-- The surfaces that a faultless loop has created, and those with a root.
rules_from_v09-state :
    (created : GoMap ℕ) (i : ℕ) (st : RuleState) (ms : List Fields)
    → (rules_from_v09 created i st ms).1 ≡ []
    → ((rules_from_v09 created i st ms).0.created_order ≡ st.created_order ++ created_ids ms)
      × ((s : String)
          → Elem s (rules_from_v09 created i st ms).0.has_root
            ↔ (HasRootV09 s ms ⊎ Elem s st.has_root))
unfolding rules_from_v09
rules_from_v09-state created i st [] h =
    (sym (append-nil st.created_order), λ s. (inr, elim [ inl f ↦ absurd f | inr k ↦ k ]))
rules_from_v09-state created i st (m ∷ ms) h =
    let (a, b) = (append-nil_iff _ _).0 h in
    let step = after-StepsV09 created i m (as_obj (get "createSurface" m)) st a in
    let (order, roots) = rules_from_v09-state created (suc i) (behind created i m st) ms b in
    (
      order
          ∙ ap (λ (l : List String). l ++ created_ids ms) step.order
          ∙ append_assoc st.created_order (option_list (creates m)) (created_ids ms),
      λ s. (
        λ k. elim ((roots s).0 k) [
          | inl r ↦ inl (inr r)
          | inr t ↦ elim ((step.roots s).0 t) [ inl r ↦ inl (inl r) | inr t' ↦ inr t' ]
        ],
        elim [
          | inl r ↦ elim r [
            | inl u ↦ (roots s).1 (inr ((step.roots s).1 (inl u)))
            | inr l ↦ (roots s).1 (inl l)
          ]
          | inr t ↦ (roots s).1 (inr ((step.roots s).1 (inr t)))
        ],
      ),
    )

missing_roots_v09-nil_iff :
    (created : GoMap ℕ) (rooted sids : List String)
    → (missing_roots_v09 created rooted sids ≡ []) ↔ All (λ s. Elem s rooted) sids
unfolding missing_roots_v09
missing_roots_v09-nil_iff created rooted [] = (λ h. tt, λ h. refl)
missing_roots_v09-nil_iff created rooted (sid ∷ sids) =
    let rest = missing_roots_v09-nil_iff created rooted sids in
    elim (Bool-cases (str_elem sid rooted)) [
      | inl e ↦
          let here = (str_elem_iff sid rooted).0 e in rw e (λ h. (here, rest.0 h), λ h. rest.1 h.1)
      | inr e ↦ rw e (λ h. cc, λ h. cc ((str_elem_iff sid rooted).1 h.0))
    ]

-- `semanticRules` of v0.9 finds no problem exactly in a batch that obeys the prose rules of v0.9.
pub semantic_rules_v09-BatchOkV09 :
    (ms : List Fields) → (semantic_rules_v09 ms ≡ []) ↔ BatchOkV09 ms
unfolding semantic_rules_v09
semantic_rules_v09-BatchOkV09 ms =
    let created = first_create_index ms in
    let loop = rules_from_v09-nil_iff created 0 no_state ms in
    let final = (rules_from_v09 created 0 no_state ms).0 in
    let last = missing_roots_v09-nil_iff created final.has_root final.created_order in
    (
      λ h.
          let (a, b) = (append-nil_iff _ _).0 h in
          let (oks, once, _) = loop.0 a in
          let (order, roots) = rules_from_v09-state created 0 no_state ms a in
          record {
            messages = oks;
            once = once;
            rooted =
                All-map (created_ids ms)
                  (λ s k. elim ((roots s).0 k) [ inl r ↦ r | inr f ↦ absurd f ])
                  (subst (All (λ s. Elem s final.has_root)) order (last.0 b));
          },
      λ h.
          let a = loop.1 (h.messages, h.once, AllNew-nil (created_ids ms)) in
          let (order, roots) = rules_from_v09-state created 0 no_state ms a in
          (append-nil_iff _ _).1 (
            a,
            last.1 (
                subst (All (λ s. Elem s final.has_root)) (sym order)
                  (All-map (created_ids ms) (λ s r. (roots s).1 (inl r)) h.rooted)),
          ),
    )
