-- ===== src/Schema/Passes/Steps.antt =====
-- v09/validate.go and v10/validate.go: how the steps of a pass over the catalogs compose. A step adds
-- no problem exactly where what it checks holds, and `lookup` answers what `ResolveCatalog` answers.
use adk_a2ui_go.Common.{
  String, ◌≡◌, refl, ◌↔◌, ◌≢◌, Bool, true, false, Option, none, some, List, [], ◌∷◌, ◌++◌ as append,
  eq_refl, lookup, str_elem, append-nil_iff, Bool-cases, String-cases, Option-cases, inl, inr, ap,
  sym, ◌∙◌,
}
use adk_a2ui_go.Json.{Value, Fields}
use adk_a2ui_go.Kit.Problem.{Problem}
use adk_a2ui_go.Kit.Error.{Error, Result, ok, err, ◌>>=◌}
use adk_a2ui_go.Schema.Format.Text.{Printer}
use adk_a2ui_go.Schema.Format.Plan.{Refusal}
use adk_a2ui_go.Schema.Format.Some.{format-nonempty}
use adk_a2ui_go.Schema.Passes.{Lookups, no_lookups, add_problems, note_answer, ask_once, refused}

err-ok : {A : Type 0} (e : Error) (a : A) → err e ≢ ok a
err-ok e a h = cc

-- A schema that admits a value gives no problem, and one that refuses it gives some.
pub refused-nil_iff :
    (out : Printer) (v : Value) (path : String) (r : Option Refusal)
    → (refused out v path r ≡ []) ↔ (r ≡ none)
unfolding refused
refused-nil_iff out v path none = (λ h. refl, λ h. refl)
refused-nil_iff out v path (some r) = (λ h. absurd (format-nonempty out v path r h), λ h. cc)

-- In strict mode, an id that nobody knows is a problem.
abbrev pub Allowed : Bool → Option Fields → Type 0
Allowed strict (some c) = Unit
Allowed strict none = strict ≡ false

module _ (ask : String → Result (Option Fields)) (strict : Bool) where
  -- The variables hold answers of `ask`, and a strict miss was reported.
  pub record Sound (st : Lookups) : Type 0 where
    pub hits : (cid : String) (c : Fields) → lookup cid st.resolved ≡ some c → ask cid ≡ ok (some c)
    pub misses : (cid : String) → str_elem cid st.missing ≡ true → ask cid ≡ ok none
    pub reported :
        (cid : String) → str_elem cid st.missing ≡ true → st.problems ≡ [] → strict ≡ false

  -- A step that meets `P` exactly where it returns without a new problem.
  pub data Step (st : Lookups) (P : Type 0) (r : Result Lookups) : Type 0 where
    stops : (e : Error) → r ≡ err e → ¬ P → Step st P r
    ends :
        (st2 : Lookups)
        → r ≡ ok st2
        → Sound st2
        → (st2.problems ≡ []) ↔ ((st.problems ≡ []) × P)
        → Step st P r

  pub no_lookups-Sound : Sound no_lookups
  unfolding lookup str_elem
  no_lookups-Sound = record { hits = λ cid c h. cc; misses = λ cid h. cc; reported = λ cid h n. cc }

  pub Step-ok : (st : Lookups) → Sound st → Step st Unit (ok st)
  Step-ok st s = ends st refl s (λ h. (h, tt), λ h. h.0)

  pub Step-iff :
      (st : Lookups) (P Q : Type 0) (r : Result Lookups) → P ↔ Q → Step st P r → Step st Q r
  Step-iff st P Q r iff (stops e h n) = stops e h (λ q. n (iff.1 q))
  Step-iff st P Q r iff (ends st2 h s b) =
      ends st2 h s (λ k. (let (u, p) = b.0 k in (u, iff.0 p)), λ k. b.1 (k.0, iff.1 k.1))

  pub Step-then :
      (st : Lookups) (P Q : Type 0) (r : Result Lookups) (k : Lookups → Result Lookups)
      → Step st P r
      → ((st2 : Lookups) → Sound st2 → Step st2 Q (k st2))
      → Step st (P × Q) (r >>= k)
  Step-then st P Q r k (stops e h n) next = rw h (stops e refl (λ q. n q.0))
  Step-then st P Q r k (ends st2 h s b) next = rw h (elim (next st2 s) [
    | stops e g n ↦ stops e g (λ q. n q.1)
    | ends st3 g t c ↦ ends st3 g t (
      λ m. (let (u, q) = c.0 m in let (v, p) = b.0 u in (v, (p, q))),
      λ m. c.1 (b.1 (m.0, m.1.0), m.1.1),
    )
  ])

  -- What comes before the step, and does not touch the variables.
  pub Step-first :
      {X : Type 0} (st : Lookups) (Q : X → Type 0) (r : Result X) (k : X → Result Lookups)
      → ((x : X) → Step st (Q x) (k x))
      → Step st ((x : X) × (r ≡ ok x) × Q x) (r >>= k)
  Step-first st Q (err e) k next = stops e refl (λ q. err-ok _ _ q.1)
  Step-first {X} st Q (ok x) k next =
      Step-iff st (Q x) _ (k x)
        (
          λ q. (x, refl, q),
          λ (y, h, q). (let same : y ≡ x = cc h in let back : Q y = q in rw (← same) back),
        )
        (next x)

  pub Step-add :
      (ps : List Problem) (st : Lookups) → Sound st → Step st (ps ≡ []) (ok (add_problems ps st))
  Step-add ps st s =
      ends (add_problems ps st) refl
        (record {
          hits = s.hits;
          misses = s.misses;
          reported = λ cid h n. s.reported cid h ((append-nil_iff st.problems ps).0 n).0;
        })
        (append-nil_iff st.problems ps)

  -- What `lookup` returns, against `ask`.
  data Asked (cid : String) (st : Lookups) (r : Result (Option Fields × Lookups)) : Type 0 where
    failed : (e : Error) → ask cid ≡ err e → r ≡ err e → Asked cid st r
    answered :
        (found : Option Fields) (st2 : Lookups)
        → ask cid ≡ ok found
        → r ≡ ok (found, st2)
        → Sound st2
        → (st2.problems ≡ []) ↔ ((st.problems ≡ []) × Allowed strict found)
        → Asked cid st r

  known-Asked :
      (cid path : String) (st : Lookups) (c : Fields)
      → Sound st
      → lookup cid st.resolved ≡ some c
      → Asked cid st (ok (some c, st))
  known-Asked cid path st c s h =
      answered (some c) st (s.hits cid c h) refl s (λ n. (n, tt), λ n. n.0)

  missed-Asked :
      (cid : String) (st : Lookups)
      → Sound st
      → str_elem cid st.missing ≡ true
      → Asked cid st (ok (none, st))
  missed-Asked cid st s m =
      answered none st (s.misses cid m) refl s (λ n. (n, s.reported cid m n), λ n. n.0)

  more_hits :
      (cid : String) (st : Lookups) (c : Fields)
      → Sound st
      → ask cid ≡ ok (some c)
      → Sound (record st { resolved = (cid, c) ∷ st.resolved })
  unfolding lookup
  more_hits cid st c s a = record {
    hits = λ k d. elim (String-cases cid k) [
      | inl e ↦ rw (← e) (rw (eq_refl cid) (λ h. (let same : c ≡ d = cc h in rw (← same) a)))
      | inr (ne, _) ↦ rw ne (λ h. s.hits k d h)
    ];
    misses = s.misses;
    reported = s.reported;
  }

  more_misses :
      (cid : String) (st : Lookups)
      → Sound st
      → ask cid ≡ ok none
      → (k : String) → str_elem k (cid ∷ st.missing) ≡ true
      → ask k ≡ ok none
  unfolding str_elem
  more_misses cid st s a k = elim (String-cases cid k) [
    | inl e ↦ rw (← e) (λ h. a)
    | inr (ne, _) ↦ rw ne (λ h. s.misses k h)
  ]

  one_more : (ps : List Problem) (p : Problem) → append ps (p ∷ []) ≢ []
  one_more ps p h = none_left ((append-nil_iff ps (p ∷ [])).0 h).1
    where
      none_left : (p ∷ []) ≢ []
      none_left e = cc

  note_answer-Asked :
      (cid path : String) (st : Lookups) (found : Option Fields) (b : Bool)
      → b ≡ strict
      → Sound st
      → ask cid ≡ ok found
      → Asked cid st (ok (note_answer cid path b st found))
  unfolding note_answer
  note_answer-Asked cid path st (some c) b e s a =
      answered (some c) _ a refl (more_hits cid st c s a) (λ n. (n, tt), λ n. n.0)
  note_answer-Asked cid path st none true e s a =
      answered none _ a refl
        (record {
          hits = s.hits;
          misses = more_misses cid st s a;
          reported = λ k h n. absurd (one_more st.problems _ n);
        })
        (λ n. absurd (one_more st.problems _ n), λ n. cc n.1)
  note_answer-Asked cid path st none false e s a =
      answered none _ a refl
        (record { hits = s.hits; misses = more_misses cid st s a; reported = λ k h n. sym e })
        (λ n. (n, sym e), λ n. n.0)

  fresh-Asked :
      (cid path : String) (st : Lookups) (r : Result (Option Fields))
      → ask cid ≡ r
      → Sound st
      → Asked cid st (r >>= λ found. ok (note_answer cid path strict st found))
  fresh-Asked cid path st (err e) a s = failed e a refl
  fresh-Asked cid path st (ok found) a s = note_answer-Asked cid path st found strict refl s a

  ask_once-Asked :
      (cid path : String) (st : Lookups)
      → Sound st
      → Asked cid st (ask_once strict cid path (ask cid) st)
  ask_once-Asked cid path st s = elim (Option-cases (lookup cid st.resolved)) [
    | inr (c, h) ↦ rw h (known-Asked cid path st c s h)
    | inl h ↦ rw h (elim (Bool-cases (str_elem cid st.missing)) [
      | inl m ↦ rw m (missed-Asked cid st s m)
      | inr m ↦ rw m (fresh-Asked cid path st (ask cid) refl s)
    ])
  ]

  -- The answer is allowed, and `Q` holds of it.
  abbrev pub Answers : String → (Option Fields → Type 0) → Type 0
  Answers cid Q = (found : Option Fields) × (ask cid ≡ ok found) × Allowed strict found × Q found

  the_answer :
      (cid : String) (found : Option Fields) (Q : Option Fields → Type 0)
      → ask cid ≡ ok found
      → Answers cid Q
      → Allowed strict found × Q found
  the_answer cid found Q a (other, b, allowed, q) =
      let both : ok other ≡ ok found = sym b ∙ a in
      let same : other ≡ found = cc both in
      let here : Allowed strict other × Q other = (allowed, q) in rw (← same) here

  after_asked :
      (cid : String) (st : Lookups) (r : Result (Option Fields × Lookups))
      (Q : Option Fields → Type 0) (k : Option Fields × Lookups → Result Lookups)
      → ((found : Option Fields) (st2 : Lookups) → Sound st2 → Step st2 (Q found) (k (found, st2)))
      → Asked cid st r
      → Step st (Answers cid Q) (r >>= k)
  after_asked cid st r Q k next (failed e a h) =
      rw h (stops e refl (λ q. err-ok e q.0 (sym a ∙ q.1)))
  after_asked cid st r Q k next (answered found st2 a h s b) = rw h (elim (next found st2 s) [
    | stops e g n ↦ stops e g (λ q. n (the_answer cid found Q a q).1)
    | ends st3 g t c ↦ ends st3 g t (
      λ m. (let (u, q) = c.0 m in let (v, allowed) = b.0 u in (v, (found, a, allowed, q))),
      λ m. (let (allowed, q) = the_answer cid found Q a m.1 in c.1 (b.1 (m.0, allowed), q)),
    )
  ])

  -- A step that asks for a catalog first.
  pub Step-asked :
      (cid path : String) (st : Lookups) (Q : Option Fields → Type 0)
      (k : Option Fields × Lookups → Result Lookups)
      → Sound st
      → ((found : Option Fields) (st2 : Lookups) → Sound st2 → Step st2 (Q found) (k (found, st2)))
      → Step st (Answers cid Q) (ask_once strict cid path (ask cid) st >>= k)
  Step-asked cid path st Q k s next = after_asked cid st _ Q k next (ask_once-Asked cid path st s)

  -- A whole pass finds nothing exactly where what its steps check holds.
  pub pass-nil_iff :
      (P : Type 0) (r : Result Lookups)
      → Step no_lookups P r
      → ((r >>= λ st. ok st.problems) ≡ ok []) ↔ P
  pass-nil_iff P r (stops e h n) = rw h (λ k. absurd (err-ok e _ k), λ p. absurd (n p))
  pass-nil_iff P r (ends st h s b) =
      rw h (λ k. (b.0 (cc k)).1, λ p. (let e : st.problems ≡ [] = b.1 (refl, p) in ap ok e))
