-- ===== src/Schema/Format/Laws/Once.antt =====
-- internal/schema/format.go: the problems of `Format` and their keys, beside the lines of the walk.
use adk_a2ui_go.Common.{
  append-IsDistinct, String, ◌≡◌, refl, ◌↔◌, ◌≢◌, ◌⊎◌, inl, inr, List, [], ◌∷◌, ◌++◌ as append,
  str_elem, str_elem_iff, Elem, IsDistinct, Elem-append, Bool-cases, ap,
}
use adk_a2ui_go.Json.{Value}
use adk_a2ui_go.Kit.Problem.{Problem, problem}
use adk_a2ui_go.Schema.Paths.{render_path}
use adk_a2ui_go.Schema.Format.Text.{Printer}
use adk_a2ui_go.Schema.Format.Plan.{Violation, invalid, Line}
use adk_a2ui_go.Schema.Format.{Formatter, key_of, add, add_all, first_line, format}
use adk_a2ui_go.Schema.Format.Laws.{lines, walk_lem}

-- The keys of the problems, which `seen` holds.
abbrev pub problem_keys : List Problem → List String
problem_keys [] = []
problem_keys (p ∷ ps) = key_of p ∷ problem_keys ps

-- The problem of a line.
abbrev pub report : String → Line → Problem
report prefix l = problem (render_path prefix l.0) l.1

abbrev pub reports : String → List Line → List Problem
reports prefix [] = []
reports prefix (l ∷ ls) = report prefix l ∷ reports prefix ls

keys-append :
    (xs : List Problem) (p : Problem)
    → problem_keys (append xs (p ∷ [])) ≡ append (problem_keys xs) (key_of p ∷ [])
keys-append [] p = refl
keys-append (x ∷ xs) p = ap (λ l. key_of x ∷ l) (keys-append xs p)

-- `seen` holds the keys of the problems, which differ.
abbrev Tracks : Formatter → Type 0
Tracks f =
    ((k : String) → Elem k f.seen ↔ Elem k (problem_keys f.problems))
    × IsDistinct (problem_keys f.problems)

Elem-last : (k j : String) (xs : List String) → Elem k (append xs (j ∷ [])) ↔ ((k ≡ j) ⊎ Elem k xs)
Elem-last k j xs = (
  λ m. elim ((Elem-append k xs (j ∷ [])).0 m) [
    | inl a ↦ inr a
    | inr b ↦ elim b [ inl e ↦ inl e | inr c ↦ absurd c ]
  ],
  λ m. (Elem-append k xs (j ∷ [])).1 (elim m [ inl e ↦ inr (inl e) | inr a ↦ inl a ]),
)

-- What `add` does: nothing where the key was seen, else the problem comes last.
add_cases :
    (prefix : String) (l : Line) (f : Formatter)
    → ((add prefix l f ≡ f) × Elem (key_of (report prefix l)) f.seen)
      ⊎ ((add prefix l f ≡ record {
        problems = append f.problems (report prefix l ∷ []);
        seen = key_of (report prefix l) ∷ f.seen;
      })
          × (¬ Elem (key_of (report prefix l)) f.seen))
unfolding add
add_cases prefix l f = elim (Bool-cases (str_elem (key_of (report prefix l)) f.seen)) [
  | inl h ↦ inl (rw h refl, (str_elem_iff (key_of (report prefix l)) f.seen).0 h)
  | inr h ↦
      inr (rw h refl, λ m. (let k = (str_elem_iff (key_of (report prefix l)) f.seen).1 m in cc))
]

added : String → Line → Formatter → Formatter
added prefix l f = record {
  problems = append f.problems (report prefix l ∷ []);
  seen = key_of (report prefix l) ∷ f.seen;
}

added-Tracks :
    (prefix : String) (l : Line) (f : Formatter)
    → Tracks f
    → ¬ Elem (key_of (report prefix l)) f.seen
    → Tracks (added prefix l f)
unfolding added
added-Tracks prefix l f t n =
    let p = report prefix l in
    rw (keys-append f.problems p) (
      λ k. (
        λ m.
            (Elem-last k (key_of p) (problem_keys f.problems)).1
              (elim m [ inl e ↦ inl e | inr a ↦ inr ((t.0 k).0 a) ]),
        λ m. elim ((Elem-last k (key_of p) (problem_keys f.problems)).0 m) [
          | inl e ↦ inl e
          | inr a ↦ inr ((t.0 k).1 a)
        ],
      ),
      append-IsDistinct (problem_keys f.problems) (key_of p) t.1 (λ m. n ((t.0 (key_of p)).1 m)),
    )

add-Tracks : (prefix : String) (l : Line) (f : Formatter) → Tracks f → Tracks (add prefix l f)
unfolding added
add-Tracks prefix l f t = elim (add_cases prefix l f) [
  | inl (e, _) ↦ rw e t
  | inr (e, n) ↦ rw e (added-Tracks prefix l f t n)
]

add_all-Tracks :
    (prefix : String) (ls : List Line) (f : Formatter) → Tracks f → Tracks (add_all prefix ls f)
unfolding add_all
add_all-Tracks prefix [] f t = t
add_all-Tracks prefix (l ∷ ls) f t =
    add_all-Tracks prefix ls (add prefix l f) (add-Tracks prefix l f t)

add-keeps :
    (prefix : String) (l : Line) (f : Formatter) (k : String)
    → (k ≡ key_of (report prefix l)) ⊎ Elem k f.seen
    → Elem k (add prefix l f).seen
add-keeps prefix l f k m = elim (add_cases prefix l f) [
  | inl (e, h) ↦ rw e (elim m [ inl s ↦ rw s h | inr a ↦ a ])
  | inr (e, n) ↦ rw e m
]

add_all-keeps :
    (prefix : String) (ls : List Line) (f : Formatter) (k : String)
    → Elem k f.seen ⊎ Elem k (problem_keys (reports prefix ls))
    → Elem k (add_all prefix ls f).seen
unfolding add_all
add_all-keeps prefix [] f k m = elim m [ inl a ↦ a | inr b ↦ absurd b ]
add_all-keeps prefix (l ∷ ls) f k m = add_all-keeps prefix ls (add prefix l f) k (elim m [
  | inl a ↦ inl (add-keeps prefix l f k (inr a))
  | inr b ↦ elim b [ inl e ↦ inl (add-keeps prefix l f k (inl e)) | inr c ↦ inr c ]
])

add-from :
    (prefix : String) (l : Line) (f : Formatter) (p : Problem)
    → Elem p (add prefix l f).problems
    → Elem p f.problems ⊎ (p ≡ report prefix l)
add-from prefix l f p = elim (add_cases prefix l f) [
  | inl (e, h) ↦ rw e (λ m. inl m)
  | inr (e, n) ↦ rw e (λ m. elim ((Elem-append p f.problems (report prefix l ∷ [])).0 m) [
    | inl a ↦ inl a
    | inr b ↦ elim b [ inl s ↦ inr s | inr c ↦ absurd c ]
  ])
]

add_all-from :
    (prefix : String) (ls : List Line) (f : Formatter) (p : Problem)
    → Elem p (add_all prefix ls f).problems
    → Elem p f.problems ⊎ Elem p (reports prefix ls)
unfolding add_all
add_all-from prefix [] f p m = inl m
add_all-from prefix (l ∷ ls) f p m = elim (add_all-from prefix ls (add prefix l f) p m) [
  | inl a ↦ elim (add-from prefix l f p a) [ inl b ↦ inl b | inr e ↦ inr (inl e) ]
  | inr b ↦ inr (inr b)
]

abbrev empty_formatter : Formatter
empty_formatter = record { problems = []; seen = [] }

empty-Tracks : Tracks empty_formatter
empty-Tracks = (λ k. (λ m. m, λ m. m), tt)

first_line-some :
    (prefix text : String) (ps : List Problem) (k : String)
    → Elem k (problem_keys ps)
    → first_line prefix ps text ≡ ps
unfolding first_line
first_line-some prefix text [] k m = absurd m
first_line-some prefix text (p ∷ ps) k m = refl

-- A key that stands among the problems that were found.
first_key :
    (prefix : String) (ls : List Line)
    → ls ≢ []
    → (k : String) × Elem k (problem_keys (reports prefix ls))
first_key prefix [] n = absurd (n refl)
first_key prefix (l ∷ ls) n = (key_of (report prefix l), inl refl)

module _ (out : Printer) (inst : Value) (prefix : String) where
  walked : (v : Violation) → Formatter
  walked v = add_all prefix (lines out inst v) empty_formatter

  walked-Tracks : (v : Violation) → Tracks (walked v)
  unfolding walked
  walked-Tracks v = add_all-Tracks prefix (lines out inst v) empty_formatter empty-Tracks

  walked-has :
      (v : Violation) (k : String)
      → Elem k (problem_keys (reports prefix (lines out inst v)))
      → Elem k (problem_keys (walked v).problems)
  unfolding walked
  walked-has v k m =
      ((add_all-Tracks prefix (lines out inst v) empty_formatter empty-Tracks).0 k).0
        (add_all-keeps prefix (lines out inst v) empty_formatter k (inr m))

  walked-from :
      (v : Violation) (p : Problem)
      → Elem p (walked v).problems
      → Elem p (reports prefix (lines out inst v))
  unfolding walked
  walked-from v p m = elim (add_all-from prefix (lines out inst v) empty_formatter p m) [
    | inl a ↦ absurd a
    | inr b ↦ b
  ]

  format-walked :
      (v : Violation) (text : String)
      → lines out inst v ≢ []
      → format out inst prefix (invalid v text) ≡ (walked v).problems
  unfolding format walked
  format-walked v text n =
      let (k, m) = first_key prefix (lines out inst v) n in
      rw (walk_lem out inst prefix v empty_formatter)
        (first_line-some prefix text (walked v).problems k (walked-has v k m))

  -- Where the walk over an error meets a line at all, every problem of `Format` is one of the
  -- lines that it meets, the key of each of them is the key of a problem, and no key is there twice.
  pub format_complete :
      (v : Violation) (text : String)
      → lines out inst v ≢ []
      → ((p : Problem)
          → Elem p (format out inst prefix (invalid v text))
          → Elem p (reports prefix (lines out inst v)))
        × ((k : String)
            → Elem k (problem_keys (reports prefix (lines out inst v)))
            → Elem k (problem_keys (format out inst prefix (invalid v text))))
        × IsDistinct (problem_keys (format out inst prefix (invalid v text)))
  format_complete v text n =
      rw (format-walked v text n) (walked-from v, walked-has v, (walked-Tracks v).1)
