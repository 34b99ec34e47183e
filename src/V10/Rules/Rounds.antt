-- ===== src/V10/Rules/Rounds.antt =====
-- The rounds of the loop of `semanticRules`, and the loop.
use adk_a2ui_go.Common.{
  ℕ, suc, String, ◌≡◌, refl, ◌↔◌, ◌≢◌, ◌⊎◌, inl, inr, true, false, Option, none, some, List, [],
  ◌∷◌, ◌++◌, GoMap, sym, Elem, IsDistinct, All, append-nil_iff,
}
use adk_a2ui_go.Json.{Fields, get, as_obj, str_at}
use adk_a2ui_go.Kit.Problem.{Problem}
use adk_a2ui_go.Schema.Rules.{created_by}
use adk_a2ui_go.Schema.Rules.Laws.{creates}
use adk_a2ui_go.V10.Rules.{
  RuleState, create_rules, update_rules, surface_rules, call_rules, after_create, message_rules,
  rules_from,
}
use mathlib.Core.Path.{◌∙◌, subst}
use adk_a2ui_go.Common.{All-Elem, All-intro}
use mathlib.Core.List.{append-nil}
use adk_a2ui_go.V10.Rules.Spec.{
  IfPresent, CreateOk, SurfaceOk, UpdateOk, CallOk, MessageOk, AllFrom, option_list, created_ids,
  Roots,
}
use adk_a2ui_go.V10.Rules.Parts.{
  IsNew, noted, own_problems-nil_iff, create_cases, noted-Steps, update_rules-nil_iff,
  update_rules-state, surface_rules-nil_iff, call_rules-nil_iff,
}

-- What a message does to the state of the loop when it has no fault.
pub record Steps (create update : Option Fields) (st st' : RuleState) : Type 0 where
  pub seen : st'.seen_create ≡ option_list (created_by create) ++ st.seen_create
  pub order : st'.created_order ≡ st.created_order ++ option_list (created_by create)
  pub roots :
      (s : String) → Elem s st'.has_root ↔ (Roots s create ⊎ (Roots s update ⊎ Elem s st.has_root))

-- All that a round finds behind the createSurface part.
later_problems : GoMap ℕ → ℕ → Fields → RuleState → List Problem
later_problems created i m st =
    (update_rules created i (as_obj (get "updateComponents" m)) st).1
    ++ (surface_rules created i "updateDataModel" true (as_obj (get "updateDataModel" m))
        ++ (surface_rules created i "deleteSurface" false (as_obj (get "deleteSurface" m))
            ++ call_rules i (as_obj (get "callRendererFunction" m))))

record LaterOk (created : GoMap ℕ) (i : ℕ) (m : Fields) : Type 0 where
  update : IfPresent (UpdateOk created i) (as_obj (get "updateComponents" m))
  data_model : IfPresent (SurfaceOk created i) (as_obj (get "updateDataModel" m))
  delete : IfPresent (λ o. str_at "surfaceId" o ≢ "") (as_obj (get "deleteSurface" m))
  call : IfPresent CallOk (as_obj (get "callRendererFunction" m))

later_problems-nil_iff :
    (created : GoMap ℕ) (i : ℕ) (m : Fields) (st : RuleState)
    → (later_problems created i m st ≡ []) ↔ LaterOk created i m
unfolding later_problems
later_problems-nil_iff created i m st =
    let u = update_rules-nil_iff created i (as_obj (get "updateComponents" m)) st in
    let d = (surface_rules-nil_iff created i (as_obj (get "updateDataModel" m))).0 in
    let x = (surface_rules-nil_iff created i (as_obj (get "deleteSurface" m))).1 in
    let c = call_rules-nil_iff i (as_obj (get "callRendererFunction" m)) in
    (
      λ h.
          let (hu, r) = (append-nil_iff _ _).0 h in
          let (hd, r') = (append-nil_iff _ _).0 r in
          let (hx, hc) = (append-nil_iff _ _).0 r' in
          record { update = u.0 hu; data_model = d.0 hd; delete = x.0 hx; call = c.0 hc },
      λ h. (append-nil_iff _ _).1 (
        u.1 h.update,
        (append-nil_iff _ _).1
            (d.1 h.data_model, (append-nil_iff _ _).1 (x.1 h.delete, c.1 h.call)),
      ),
    )

after-nil_iff :
    (created : GoMap ℕ) (i : ℕ) (m : Fields) (o : Option Fields) (st : RuleState)
    → ((after_create created i m (create_rules i o st) st).1 ≡ [])
      ↔ (IfPresent CreateOk o × IsNew o st × LaterOk created i m)
unfolding after_create create_rules later_problems
after-nil_iff created i m none st =
    let l = later_problems-nil_iff created i m st in (λ h. (tt, tt, l.0 h), λ h. l.1 h.2)
after-nil_iff created i m (some cs) st = elim (create_cases i cs st) [
  | inl (ps, e, ne, bad) ↦ rw e (λ h. absurd (ne h), λ h. absurd (bad (h.0, h.1)))
  | inr (e, n, new) ↦
      let own = own_problems-nil_iff i cs in
      let l = later_problems-nil_iff created i m (noted i cs st) in
      rw e (
        λ h.
            let (a, b) = (append-nil_iff _ _).0 h in
            let (c, d) = own.0 a in ((n, c, d), new, l.0 b),
        λ h. (append-nil_iff _ _).1 (own.1 (h.0.1, h.0.2), l.1 h.2),
      )
]

after-Steps :
    (created : GoMap ℕ) (i : ℕ) (m : Fields) (o : Option Fields) (st : RuleState)
    → (after_create created i m (create_rules i o st) st).1 ≡ []
    → Steps o
        (as_obj (get "updateComponents" m))
        st
        (after_create created i m (create_rules i o st) st).0
unfolding after_create create_rules
after-Steps created i m none st h =
    let u = update_rules-state created i (as_obj (get "updateComponents" m)) st in
    record {
      seen = (u "").0;
      order = (u "").1 ∙ sym (append-nil st.created_order);
      roots = λ s. ((λ k. inr ((u s).2.0 k)), elim [ inl f ↦ absurd f | inr k ↦ (u s).2.1 k ]);
    }
after-Steps created i m (some cs) st h = elim (create_cases i cs st) [
  | inl (ps, e, ne, bad) ↦ absurd (ne (rw e at h))
  | inr (e, n, new) ↦
      let u = update_rules-state created i (as_obj (get "updateComponents" m)) (noted i cs st) in
      let c = λ (s : String). noted-Steps i cs st s n in
      rw e (record {
        seen = (u "").0 ∙ (c "").0;
        order = (u "").1 ∙ (c "").1;
        roots = λ s. (
          λ k. elim ((u s).2.0 k) [
            | inl r ↦ inr (inl r)
            | inr t ↦ elim ((c s).2.0 t) [ inl r ↦ inl r | inr t' ↦ inr (inr t') ]
          ],
          elim [
            | inl r ↦ (u s).2.1 (inr ((c s).2.1 (inl r)))
            | inr k ↦ elim k [
              | inl r ↦ (u s).2.1 (inl r)
              | inr t ↦ (u s).2.1 (inr ((c s).2.1 (inr t)))
            ]
          ],
        );
      })
]

pub message-Steps :
    (created : GoMap ℕ) (i : ℕ) (m : Fields) (st : RuleState)
    → (message_rules created i m st).1 ≡ []
    → Steps
        (as_obj (get "createSurface" m))
        (as_obj (get "updateComponents" m))
        st
        (message_rules created i m st).0
unfolding message_rules
message-Steps created i m st = after-Steps created i m (as_obj (get "createSurface" m)) st

message-nil_iff :
    (created : GoMap ℕ) (i : ℕ) (m : Fields) (st : RuleState)
    → ((message_rules created i m st).1 ≡ [])
      ↔ (MessageOk created i m × IsNew (as_obj (get "createSurface" m)) st)
unfolding message_rules
message-nil_iff created i m st =
    let a = after-nil_iff created i m (as_obj (get "createSurface" m)) st in
    (
      λ h.
          let (c, new, l) = a.0 h in
          (
            record {
              create = c;
              update = l.update;
              data_model = l.data_model;
              delete = l.delete;
              call = l.call;
            },
            new,
          ),
      λ (h, new). a.1 (
        h.create,
        new,
        record { update = h.update; data_model = h.data_model; delete = h.delete; call = h.call },
      ),
    )

abbrev pub AllNew : List String → List String → Type 0
AllNew seen = All (λ s. ¬ Elem s seen)

-- The ids of a batch are new and distinct: the first one, and then the others behind it.
pub fresh_step :
    (c : Option String) (seen sids : List String)
    → (AllNew seen (option_list c) × IsDistinct sids × AllNew (option_list c ++ seen) sids)
      ↔ (IsDistinct (option_list c ++ sids) × AllNew seen (option_list c ++ sids))
fresh_step none seen sids = (λ h. (h.1, h.2), λ h. (tt, h.0, h.1))
fresh_step (some x) seen sids = (
  λ h. (
    ((λ m. All-Elem (λ s. ¬ Elem s (x ∷ seen)) sids x h.2 m (inl refl)), h.1),
    (
      h.0.0,
      All-intro (λ s. ¬ Elem s seen) sids
          (λ s m k. All-Elem (λ s'. ¬ Elem s' (x ∷ seen)) sids s h.2 m (inr k)),
    ),
  ),
  λ h. (
    (h.1.0, tt),
    h.0.1,
    All-intro (λ s. ¬ Elem s (x ∷ seen)) sids
        (λ s m. elim [
          | inl e ↦ h.0.0 (subst (λ t. Elem t sids) e m)
          | inr k ↦ All-Elem (λ s'. ¬ Elem s' seen) sids s h.1.1 m k
        ]),
  ),
)

pub rules_from-nil_iff :
    (created : GoMap ℕ) (i : ℕ) (st : RuleState) (ms : List Fields)
    → ((rules_from created i st ms).1 ≡ []) ↔ (
        AllFrom created i ms × IsDistinct (created_ids ms) × AllNew st.seen_create (created_ids ms))
unfolding rules_from
rules_from-nil_iff created i st [] = (λ h. (tt, tt, tt), λ h. refl)
rules_from-nil_iff created i st (m ∷ ms) =
    let here = message-nil_iff created i m st in
    let st' = (message_rules created i m st).0 in
    let rest = rules_from-nil_iff created (suc i) st' ms in
    let split = fresh_step (creates m) st.seen_create (created_ids ms) in
    (
      λ h.
          let (a, b) = (append-nil_iff _ _).0 h in
          let (ok, new) = here.0 a in
          let (oks, once, news) = rest.0 b in
          let seen = (message-Steps created i m st a).seen in
          let (d, e) = split.0 (new, once, subst (λ l. AllNew l (created_ids ms)) seen news) in
          ((ok, oks), d, e),
      λ h.
          let (new, once, news) = split.1 (h.1, h.2) in
          let a = here.1 (h.0.0, new) in
          let seen = (message-Steps created i m st a).seen in
          (append-nil_iff _ _).1
            (a, rest.1 (h.0.1, once, subst (λ l. AllNew l (created_ids ms)) (sym seen) news)),
    )
