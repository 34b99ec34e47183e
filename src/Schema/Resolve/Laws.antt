-- ===== src/Schema/Resolve/Laws.antt =====
-- The order in which a catalog id is resolved.
use adk_a2ui_go.Common.{
  String, ◌≡◌, refl, ◌↔◌, ◌≢◌, ◌⊎◌, inl, inr, true, Option, none, some, List, [], ◌∷◌, ◌++◌, ◌==◌,
  eq_iff, ap, ◌∙◌, String-cases, Bool-cases, All, Elem, str_elem, str_elem_iff,
}
use adk_a2ui_go.Json.{Fields, str_at}
use adk_a2ui_go.Kit.Error.{Result, ok, err, Result-cases}
use adk_a2ui_go.Kit.Catalog.{Resolver, first_answer}
use adk_a2ui_go.Kit.Options.{ValidateOptions}
use adk_a2ui_go.Spec.{Embedded, basic_catalog_ids}
use adk_a2ui_go.Schema.Resolve.{find_inline, ask_resolver, ask_basic, resolve_catalog}

abbrev pub id_of : Fields → String
id_of c = str_at "catalogId" c

abbrev pub NoneHas : String → List Fields → Type 0
NoneHas id cs = All (λ d. id_of d ≢ id) cs

-- `c` is the first inline catalog with the id.
abbrev pub IsInline : String → List Fields → Fields → Type 0
IsInline id cs c =
    (pre : List Fields) × (post : List Fields) × (cs ≡ pre ++ c ∷ post)
    × (id_of c ≡ id)
    × NoneHas id pre

find_inline_skip :
    (id : String) (pre rest : List Fields)
    → NoneHas id pre
    → find_inline id (pre ++ rest) ≡ find_inline id rest
unfolding find_inline
find_inline_skip id [] rest n = refl
find_inline_skip id (d ∷ pre) rest n = elim (String-cases (id_of d) id) [
  | inl e ↦ absurd (n.0 e)
  | inr m ↦ rw m.0 (find_inline_skip id pre rest n.1)
]

has_id : (d : Fields) (id : String) → id_of d ≡ id → (id_of d == id) ≡ true
has_id d id e = (eq_iff (id_of d) id).1 e

find_inline_hit :
    (id : String) (c : Fields) (post : List Fields)
    → id_of c ≡ id
    → find_inline id (c ∷ post) ≡ some c
unfolding find_inline
find_inline_hit id c post h = rw (has_id c id h)

find_inline_found :
    (id : String) (cs : List Fields) (c : Fields) → find_inline id cs ≡ some c → IsInline id cs c
unfolding find_inline
find_inline_found id [] c h = cc
find_inline_found id (d ∷ cs) c h = elim (String-cases (id_of d) id) [
  | inl e ↦
      let same : some d ≡ some c = rw (has_id d id e) at h in ([], cs, cc same, cc (same, e), tt)
  | inr m ↦
      let (pre, post, a, b, n) = find_inline_found id cs c (rw m.0 at h) in
      (d ∷ pre, post, ap (λ l. d ∷ l) a, b, (m.1, n))
]

find_inline_iff :
    (id : String) (cs : List Fields) (c : Fields) → (find_inline id cs ≡ some c) ↔ IsInline id cs c
find_inline_iff id cs c = (
  find_inline_found id cs c,
  λ (pre, post, e, h, n). rw e (find_inline_skip id pre (c ∷ post) n ∙ find_inline_hit id c post h),
)

find_inline-none_iff : (id : String) (cs : List Fields) → (find_inline id cs ≡ none) ↔ NoneHas id cs
unfolding find_inline
find_inline-none_iff id [] = (λ h. tt, λ h. refl)
find_inline-none_iff id (d ∷ cs) =
    let rest = find_inline-none_iff id cs in
    elim (String-cases (id_of d) id) [
      | inl e ↦ rw (has_id d id e) (λ h. cc, λ h. absurd (h.0 e))
      | inr m ↦ rw m.0 (λ h. (m.1, rest.0 h), λ h. rest.1 h.1)
    ]

-- The resolver that the agent registered, if any, knows the id.
abbrev pub Registers : Option Resolver → String → Fields → Type 0
Registers none id c = ⊥
Registers (some r) id c = r id ≡ ok (some c)

abbrev pub DoesNotKnow : Option Resolver → String → Type 0
DoesNotKnow none id = Unit
DoesNotKnow (some r) id = r id ≡ ok none

ask_resolver-some_iff :
    (r : Option Resolver) (id : String) (c : Fields)
    → (ask_resolver r id ≡ ok (some c)) ↔ Registers r id c
unfolding ask_resolver
ask_resolver-some_iff none id c = (λ h. cc, λ h. absurd h)
ask_resolver-some_iff (some r) id c = elim (Result-cases (r id)) [
  | inl (o, e) ↦ rw e (λ h. h, λ h. h)
  | inr (x, e) ↦ rw e (λ h. cc, λ h. cc)
]

ask_resolver-none_iff :
    (r : Option Resolver) (id : String) → (ask_resolver r id ≡ ok none) ↔ DoesNotKnow r id
unfolding ask_resolver
ask_resolver-none_iff none id = (λ h. tt, λ h. refl)
ask_resolver-none_iff (some r) id = elim (Result-cases (r id)) [
  | inl (o, e) ↦ rw e (λ h. h, λ h. h)
  | inr (x, e) ↦ rw e (λ h. cc, λ h. cc)
]

ask_basic-some_iff :
    (files : Embedded) (major id : String) (c : Fields)
    → (ask_basic files major id ≡ ok (some c))
      ↔ (Elem id (basic_catalog_ids major) × (files.basic_catalog major ≡ ok c))
unfolding ask_basic
ask_basic-some_iff files major id c =
    let known = str_elem_iff id (basic_catalog_ids major) in
    elim (Bool-cases (str_elem id (basic_catalog_ids major))) [
      | inr e ↦ rw e (λ h. cc, λ h. cc (known.1 h.0))
      | inl e ↦ elim (Result-cases (files.basic_catalog major)) [
        | inl (d, f) ↦ rw (e, f) (λ h. (known.0 e, cc), λ h. cc h.1)
        | inr (x, f) ↦ rw (e, f) (λ h. cc, λ h. cc h.1)
      ]
    ]

first_answer-some_iff :
    (a b : Result (Option Fields)) (c : Fields)
    → (first_answer a b ≡ ok (some c)) ↔ ((a ≡ ok (some c)) ⊎ ((a ≡ ok none) × (b ≡ ok (some c))))
first_answer-some_iff (ok none) b c = (λ h. inr (refl, h), elim [ inl e ↦ cc | inr k ↦ k.1 ])
first_answer-some_iff (ok (some d)) b c = (λ h. inl h, elim [ inl e ↦ e | inr k ↦ cc k.0 ])
first_answer-some_iff (err x) b c = (λ h. cc, elim [ inl e ↦ cc | inr k ↦ cc k.0 ])

-- `ResolveCatalog` returns a catalog exactly where the id is not empty, and the catalog is the
-- first inline one with the id; or no inline one has it and the agent's resolver returns it; or
-- neither knows the id, the id is one of the basic catalog's, and it is that catalog.
pub resolve_catalog-some_iff :
    (files : Embedded) (major id : String) (opts : ValidateOptions) (c : Fields)
    → (resolve_catalog files major id opts ≡ ok (some c)) ↔ (
        (id ≢ "")
        × (IsInline id opts.params.inline_catalogs c
            ⊎ (NoneHas id opts.params.inline_catalogs
                × (Registers opts.resolver id c
                    ⊎ (DoesNotKnow opts.resolver id
                        × Elem id (basic_catalog_ids major)
                        × (files.basic_catalog major ≡ ok c))))))
unfolding resolve_catalog
resolve_catalog-some_iff files major id opts c =
    let inline = find_inline_iff id opts.params.inline_catalogs c in
    let absent = find_inline-none_iff id opts.params.inline_catalogs in
    let later = first_answer (ask_resolver opts.resolver id) (ask_basic files major id) in
    let outer = first_answer-some_iff (ok (find_inline id opts.params.inline_catalogs)) later c in
    let inner =
      first_answer-some_iff (ask_resolver opts.resolver id) (ask_basic files major id) c in
    elim (String-cases id "") [
      | inl e ↦ rw e (λ h. cc, λ h. absurd (h.0 refl))
      | inr n ↦ rw n.0 (
        λ h. (
          n.1,
          elim (outer.0 h) [
            | inl i ↦ inl (inline.0 (cc i))
            | inr k ↦ inr (
              absent.0 (cc k.0),
              elim (inner.0 k.1) [
                | inl r ↦ inl ((ask_resolver-some_iff opts.resolver id c).0 r)
                | inr b ↦ inr (
                  (ask_resolver-none_iff opts.resolver id).0 b.0,
                  ((ask_basic-some_iff files major id c).0 b.1).0,
                  ((ask_basic-some_iff files major id c).0 b.1).1,
                )
              ],
            )
          ],
        ),
        λ h. elim h.1 [
          | inl i ↦ outer.1 (inl (ap ok (inline.1 i)))
          | inr k ↦ outer.1 (
              inr (
                ap ok (absent.1 k.0),
                inner.1 (elim k.1 [
                  | inl r ↦ inl ((ask_resolver-some_iff opts.resolver id c).1 r)
                  | inr b ↦ inr (
                    (ask_resolver-none_iff opts.resolver id).1 b.0,
                    (ask_basic-some_iff files major id c).1 (b.1, b.2),
                  )
                ]),
              ))
        ],
      )
    ]
