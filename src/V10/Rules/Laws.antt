-- ===== src/V10/Rules/Laws.antt =====
-- `semanticRules` finds no problem exactly in a batch that keeps the prose rules of v1.0.
use adk_a2ui_go.Common.{
  ℕ, suc, String, ◌≡◌, refl, ◌↔◌, ◌⊎◌, inl, inr, List, [], ◌∷◌, ◌++◌, GoMap, sym, ap, Bool-cases,
  Elem, All, append-nil_iff, str_elem, str_elem_iff,
}
use adk_a2ui_go.Json.{Fields}
use adk_a2ui_go.Schema.Rules.{first_create_index}
use adk_a2ui_go.Schema.Rules.Laws.{creates}
use adk_a2ui_go.V10.Rules.{
  RuleState, no_state, message_rules, rules_from, missing_roots, semantic_rules,
}
use mathlib.Core.Path.{◌∙◌, subst}
use mathlib.Core.List.{append-nil, append_assoc}
use adk_a2ui_go.V10.Rules.Spec.{option_list, created_ids, HasRoot, BatchOk}
use adk_a2ui_go.V10.Rules.Rounds.{message-Steps, rules_from-nil_iff, AllNew}

-- The surfaces that a faultless loop has created, and those with a root.
rules_from-state :
    (created : GoMap ℕ) (i : ℕ) (st : RuleState) (ms : List Fields)
    → (rules_from created i st ms).1 ≡ []
    → ((rules_from created i st ms).0.created_order ≡ st.created_order ++ created_ids ms)
      × ((s : String)
          → Elem s (rules_from created i st ms).0.has_root ↔ (HasRoot s ms ⊎ Elem s st.has_root))
unfolding rules_from
rules_from-state created i st [] h =
    (sym (append-nil st.created_order), λ s. (inr, elim [ inl f ↦ absurd f | inr k ↦ k ]))
rules_from-state created i st (m ∷ ms) h =
    let (a, b) = (append-nil_iff _ _).0 h in
    let st' = (message_rules created i m st).0 in
    let step = message-Steps created i m st a in
    let (order, roots) = rules_from-state created (suc i) st' ms b in
    (
      order
          ∙ ap (λ (l : List String). l ++ created_ids ms) step.order
          ∙ append_assoc st.created_order (option_list (creates m)) (created_ids ms),
      λ s. (
        λ k. elim ((roots s).0 k) [
          | inl r ↦ inl (inr (inr r))
          | inr t ↦ elim ((step.roots s).0 t) [
            | inl r ↦ inl (inl r)
            | inr t' ↦ elim t' [ inl r ↦ inl (inr (inl r)) | inr t'' ↦ inr t'' ]
          ]
        ],
        elim [
          | inl r ↦ elim r [
            | inl c ↦ (roots s).1 (inr ((step.roots s).1 (inl c)))
            | inr r' ↦ elim r' [
              | inl u ↦ (roots s).1 (inr ((step.roots s).1 (inr (inl u))))
              | inr l ↦ (roots s).1 (inl l)
            ]
          ]
          | inr t ↦ (roots s).1 (inr ((step.roots s).1 (inr (inr t))))
        ],
      ),
    )

missing_roots-nil_iff :
    (created : GoMap ℕ) (rooted sids : List String)
    → (missing_roots created rooted sids ≡ []) ↔ All (λ s. Elem s rooted) sids
unfolding missing_roots
missing_roots-nil_iff created rooted [] = (λ h. tt, λ h. refl)
missing_roots-nil_iff created rooted (sid ∷ sids) =
    let rest = missing_roots-nil_iff created rooted sids in
    elim (Bool-cases (str_elem sid rooted)) [
      | inl e ↦
          let here = (str_elem_iff sid rooted).0 e in rw e (λ h. (here, rest.0 h), λ h. rest.1 h.1)
      | inr e ↦ rw e (λ h. cc, λ h. cc ((str_elem_iff sid rooted).1 h.0))
    ]

pub All-map :
    {P Q : String → Type 0} (xs : List String) → ((s : String) → P s → Q s) → All P xs → All Q xs
All-map [] f h = tt
All-map (x ∷ xs) f h = (f x h.0, All-map xs f h.1)

pub AllNew-nil : (sids : List String) → AllNew [] sids
AllNew-nil [] = tt
AllNew-nil (s ∷ sids) = ((λ m. m), AllNew-nil sids)

-- `semanticRules` of v1.0 finds no problem exactly in a batch whose messages are each in order
-- (ids and catalog ids that are not empty, component ids that are distinct, no surface that is
-- updated before the message that creates it), that creates no surface twice, and that gives each
-- surface it creates a root component.
pub semantic_rules-nil_iff : (ms : List Fields) → (semantic_rules ms ≡ []) ↔ BatchOk ms
unfolding semantic_rules
semantic_rules-nil_iff ms =
    let created = first_create_index ms in
    let loop = rules_from-nil_iff created 0 no_state ms in
    let final = (rules_from created 0 no_state ms).0 in
    let last = missing_roots-nil_iff created final.has_root final.created_order in
    (
      λ h.
          let (a, b) = (append-nil_iff _ _).0 h in
          let (oks, once, _) = loop.0 a in
          let (order, roots) = rules_from-state created 0 no_state ms a in
          record {
            messages = oks;
            once = once;
            rooted =
                All-map (created_ids ms)
                  (λ s k. elim ((roots s).0 k) [ inl r ↦ r | inr f ↦ absurd f ])
                  (subst (All (λ s. Elem s final.has_root)) order (last.0 b));
          },
      λ h.
          let a = loop.1 (h.messages, h.once, AllNew-nil (created_ids ms)) in
          let (order, roots) = rules_from-state created 0 no_state ms a in
          (append-nil_iff _ _).1 (
            a,
            last.1 (
                subst (All (λ s. Elem s final.has_root)) (sym order)
                  (All-map (created_ids ms) (λ s r. (roots s).1 (inl r)) h.rooted)),
          ),
    )
