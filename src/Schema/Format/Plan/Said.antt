-- ===== src/Schema/Format/Plan/Said.antt =====
-- What `walk` says of one error of each kind, and which of its causes it goes into, kind by kind. The
-- choice of a branch of a union is `walk_one_of`.
use Prim.Native.String.{◌++◌}
use adk_a2ui_go.Common.{
  String, ◌≡◌, refl, ◌↔◌, ◌≢◌, inl, inr, ℕ, Option, none, some, List, [], ◌∷◌, ◌++◌ as append, Elem,
  ap, sym, ◌∙◌, Option-cases,
}
use mathlib.Core.Path.{subst}
use adk_a2ui_go.Common.Text.{quote, join, str_lt}
use adk_a2ui_go.Common.Sort.{sort}
use adk_a2ui_go.Json.{Value}
use adk_a2ui_go.Schema.Inbound.{quote_list}
use adk_a2ui_go.Schema.Format.Text.{value_at, Printer, json_text, json_list}
use adk_a2ui_go.Schema.Format.Plan.{
  Kind, one_of, required, false_schema, additional_properties, const_value, enum_values,
  type_mismatch, not_allowed, reference, other_kind, Violations, Line, stop, enter, enter_all,
  walk_one_of, missing_lines, split_last, unknown_property, forbidden, kind_plan,
}

-- The value at a location is forbidden, by name where it can be reached.
abbrev pub forbids : Printer → Option Value → String
forbids out none = "is not allowed"
forbids out (some v) = "must not be " ++ json_text out v

module _ (out : Printer) (inst : Value) where
  -- The lines about an error itself.
  abbrev pub Said : Kind → List String → Violations → Line → Type 0
  Said one_of loc causes l = (ls : List Line) × (walk_one_of inst loc causes ≡ stop ls) × Elem l ls
  Said (required missing) loc causes l =
      (m : String) × Elem m missing × (l ≡ (loc, "missing property " ++ quote m))
  Said false_schema loc causes l =
      (front : List String) × (last : String) × (loc ≡ append front (last ∷ []))
      × (l ≡ (front, "unknown property " ++ quote last))
  Said (additional_properties props) loc causes l =
      l ≡ (loc, "unknown properties " ++ quote_list (sort str_lt props))
  Said (const_value want) loc causes l = l ≡ (loc, "must be " ++ json_text out want)
  Said (enum_values want) loc causes l = l ≡ (loc, "must be one of " ++ json_list out want)
  Said (type_mismatch want got) loc causes l =
      l ≡ (loc, "must be of type " ++ (join " or " want ++ (", got " ++ got)))
  Said not_allowed loc causes l = l ≡ (loc, forbids out (value_at inst loc))
  Said (reference url) loc causes l = ⊥
  Said other_kind loc causes l = ⊥

  -- One cause is gone into: the branch of a union.
  abbrev pub Picks : Kind → List String → Violations → ℕ → Type 0
  Picks one_of loc causes i = walk_one_of inst loc causes ≡ enter i
  Picks k loc causes i = ⊥

  -- The causes are gone into.
  abbrev pub GoesOn : Kind → List String → Violations → Type 0
  GoesOn one_of loc causes = walk_one_of inst loc causes ≡ enter_all
  GoesOn false_schema loc causes = loc ≡ []
  GoesOn (reference url) loc causes = Unit
  GoesOn other_kind loc causes = Unit
  GoesOn k loc causes = ⊥

stop-enter : (ls : List Line) (i : ℕ) → stop ls ≢ enter i
stop-enter ls i h = cc

stop-enter_all : (ls : List Line) → stop ls ≢ enter_all
stop-enter_all ls h = cc

one_line : (x l : Line) → (l ≡ x) ↔ ((ls : List Line) × (stop (x ∷ []) ≡ stop ls) × Elem l ls)
one_line x l = (
  λ e. (x ∷ [], refl, inl e),
  λ (ls, e, m).
      let same : ls ≡ x ∷ [] = cc e in
      elim (subst (Elem l) same m) [ inl e2 ↦ e2 | inr n ↦ absurd n ],
)

missing_lines_iff :
    (loc ms : List String) (l : Line)
    → Elem l (missing_lines loc ms)
      ↔ ((m : String) × Elem m ms × (l ≡ (loc, "missing property " ++ quote m)))
unfolding missing_lines
missing_lines_iff loc [] l = (λ h. absurd h, λ (m, e, s). absurd e)
missing_lines_iff loc (n ∷ ms) l =
    let rest = missing_lines_iff loc ms l in
    (
      λ h. elim h [
        | inl e ↦ (n, inl refl, e)
        | inr k ↦ (let (m, e, s) = rest.0 k in (m, inr e, s))
      ],
      λ (m, e, s). elim e [
        | inl same ↦ inl (s ∙ ap (λ x. (loc, "missing property " ++ quote x)) same)
        | inr k ↦ inr (rest.1 (m, k, s))
      ],
    )

split_last-append :
    (front : List String) (last : String)
    → split_last (append front (last ∷ [])) ≡ some (front, last)
unfolding split_last
split_last-append [] last = refl
split_last-append (s ∷ []) last = refl
split_last-append (s ∷ (t ∷ front)) last = rw (split_last-append (t ∷ front) last) refl

-- A location that is split is its parts.
split_last-parts :
    (loc front : List String) (last : String)
    → split_last loc ≡ some (front, last)
    → loc ≡ append front (last ∷ [])
unfolding split_last
split_last-parts [] front last = λ h. cc
split_last-parts (s ∷ []) front last = λ h.
    let e : ([], s) ≡ (front, last) = cc h in
    ap (λ (p : List String × String). append p.0 (p.1 ∷ [])) e
split_last-parts (s ∷ (t ∷ loc)) front last = elim (Option-cases (split_last (t ∷ loc))) [
  | inl e ↦ rw e (λ h. cc)
  | inr ((f, x), e) ↦ rw e (λ h.
      let same : (s ∷ f, x) ≡ (front, last) = cc h in
      ap (λ r. s ∷ r) (split_last-parts (t ∷ loc) f x e)
      ∙ ap (λ (p : List String × String). append p.0 (p.1 ∷ [])) same)
]

split_last-none : (loc : List String) → split_last loc ≡ none → loc ≡ []
unfolding split_last
split_last-none [] = λ h. refl
split_last-none (s ∷ []) = λ h. cc
split_last-none (s ∷ (t ∷ loc)) = elim (Option-cases (split_last (t ∷ loc))) [
  | inl e ↦ rw e (λ h. absurd (nonempty t loc (split_last-none (t ∷ loc) e)))
  | inr ((f, x), e) ↦ rw e (λ h. cc)
]
  where
    nonempty : (t : String) (loc : List String) → (t ∷ loc) ≢ []
    nonempty t loc h = cc

module _ (out : Printer) (inst : Value) where
  forbidden_text : (v : Option Value) → forbidden out v ≡ forbids out v
  unfolding forbidden
  forbidden_text none = refl
  forbidden_text (some v) = refl

  unknown_iff :
      (loc : List String) (l : Line)
      → ((front : List String) × (last : String) × (loc ≡ append front (last ∷ []))
          × (l ≡ (front, "unknown property " ++ quote last)))
        ↔ ((ls : List Line) × (unknown_property (split_last loc) ≡ stop ls) × Elem l ls)
  unfolding unknown_property
  unknown_iff loc l = (
    λ (front, last, e, s).
        let is : split_last loc ≡ some (front, last) =
          ap split_last e ∙ split_last-append front last in
        rw is (_, refl, inl s),
    elim (Option-cases (split_last loc)) [
      | inl e ↦ rw e (λ (ls, h, m). absurd (stop-enter_all ls (sym h)))
      | inr ((front, last), e) ↦
          rw e (λ h. (front, last, split_last-parts loc front last e, (one_line _ l).1 h))
    ],
  )

  pub Said-iff :
      (k : Kind) (loc : List String) (causes : Violations) (l : Line)
      → Said out inst k loc causes l
        ↔ ((ls : List Line) × (kind_plan out inst k loc causes ≡ stop ls) × Elem l ls)
  unfolding kind_plan
  Said-iff one_of loc causes l = (λ h. h, λ h. h)
  Said-iff (required missing) loc causes l =
      let iff = missing_lines_iff loc missing l in
      (
        λ h. (missing_lines loc missing, refl, iff.1 h),
        λ (ls, e, m).
            let same : ls ≡ missing_lines loc missing = cc e in iff.0 (subst (Elem l) same m),
      )
  Said-iff false_schema loc causes l = unknown_iff loc l
  Said-iff (additional_properties props) loc causes l = one_line _ l
  Said-iff (const_value want) loc causes l = one_line _ l
  Said-iff (enum_values want) loc causes l = one_line _ l
  Said-iff (type_mismatch want got) loc causes l = one_line _ l
  Said-iff not_allowed loc causes l = rw (sym (forbidden_text (value_at inst loc))) (one_line _ l)
  Said-iff (reference url) loc causes l = (λ h. absurd h, λ (ls, e, m). stop-enter_all ls (sym e))
  Said-iff other_kind loc causes l = (λ h. absurd h, λ (ls, e, m). stop-enter_all ls (sym e))

  enter_not_all : (i : ℕ) → enter_all ≢ enter i
  enter_not_all i h = cc

  pub Picks-iff :
      (k : Kind) (loc : List String) (causes : Violations) (i : ℕ)
      → Picks out inst k loc causes i ↔ (kind_plan out inst k loc causes ≡ enter i)
  unfolding kind_plan unknown_property
  Picks-iff one_of loc causes i = (λ h. h, λ h. h)
  Picks-iff (required missing) loc causes i = (λ h. absurd h, λ h. stop-enter _ i h)
  Picks-iff false_schema loc causes i = elim (Option-cases (split_last loc)) [
    | inl e ↦ rw e (λ h. absurd h, λ h. enter_not_all i h)
    | inr (p, e) ↦ rw e (λ h. absurd h, λ h. stop-enter _ i h)
  ]
  Picks-iff (additional_properties props) loc causes i = (λ h. absurd h, λ h. stop-enter _ i h)
  Picks-iff (const_value want) loc causes i = (λ h. absurd h, λ h. stop-enter _ i h)
  Picks-iff (enum_values want) loc causes i = (λ h. absurd h, λ h. stop-enter _ i h)
  Picks-iff (type_mismatch want got) loc causes i = (λ h. absurd h, λ h. stop-enter _ i h)
  Picks-iff not_allowed loc causes i = (λ h. absurd h, λ h. stop-enter _ i h)
  Picks-iff (reference url) loc causes i = (λ h. absurd h, λ h. enter_not_all i h)
  Picks-iff other_kind loc causes i = (λ h. absurd h, λ h. enter_not_all i h)

  pub GoesOn-iff :
      (k : Kind) (loc : List String) (causes : Violations)
      → GoesOn out inst k loc causes ↔ (kind_plan out inst k loc causes ≡ enter_all)
  unfolding kind_plan unknown_property split_last
  GoesOn-iff one_of loc causes = (λ h. h, λ h. h)
  GoesOn-iff (required missing) loc causes = (λ h. absurd h, λ h. stop-enter_all _ h)
  GoesOn-iff false_schema loc causes = (
    λ h. rw h refl,
    elim (Option-cases (split_last loc)) [
      | inl e ↦ rw e (λ h. split_last-none loc e)
      | inr (p, e) ↦ rw e (λ h. absurd (stop-enter_all _ h))
    ],
  )
  GoesOn-iff (additional_properties props) loc causes = (λ h. absurd h, λ h. stop-enter_all _ h)
  GoesOn-iff (const_value want) loc causes = (λ h. absurd h, λ h. stop-enter_all _ h)
  GoesOn-iff (enum_values want) loc causes = (λ h. absurd h, λ h. stop-enter_all _ h)
  GoesOn-iff (type_mismatch want got) loc causes = (λ h. absurd h, λ h. stop-enter_all _ h)
  GoesOn-iff not_allowed loc causes = (λ h. absurd h, λ h. stop-enter_all _ h)
  GoesOn-iff (reference url) loc causes = (λ h. refl, λ h. tt)
  GoesOn-iff other_kind loc causes = (λ h. refl, λ h. tt)
