-- ===== src/V10/Rules/Components.antt =====
-- `checkList` finds exactly the faults of a list of components, and counts its roots.
use adk_a2ui_go.Common.{
  ℕ, suc, ◌+◌, ◌≤◌, String, ◌≡◌, refl, ◌↔◌, ◌≢◌, inl, inr, Bool, true, false, Option, none, some,
  List, [], ◌∷◌, ◌==◌, eq_iff, if◌then◌else◌, arith, GoMap, lookup, map, ap, Option-cases,
  String-cases, Bool-cases, Elem, IsDistinct, All, append-nil_iff, eq_refl, str_elem, ◌||◌, ◌∙◌,
  str_elem_iff, lookup-nil,
}
use Prim.Native.String.{◌++◌ as ◌+++◌}
use adk_a2ui_go.Schema.Paths.{element_path}
use adk_a2ui_go.Json.{Value, get, str_at, obj_of, is_empty_str}
use adk_a2ui_go.V10.Rules.{empty_catalog, check_id, check_from, check_list}

-- The id of a component.
abbrev pub id_of : Value → String
id_of c = str_at "id" (obj_of (some c))

abbrev pub ids : List Value → List String
ids = map id_of

abbrev catalog_of : Value → Option Value
catalog_of c = get "catalogId" (obj_of (some c))

abbrev pub HasNoEmptyCatalog : Value → Type 0
HasNoEmptyCatalog c = is_empty_str (get "catalogId" (obj_of (some c))) ≡ false

-- Ids are present and differ, and a catalogId is not empty.
abbrev pub IsGoodList : List Value → Type 0
IsGoodList comps = All (λ c. (id_of c ≢ "") × HasNoEmptyCatalog c) comps × IsDistinct (ids comps)

-- No component has an id that was seen.
abbrev pub IsFresh : GoMap ℕ → List Value → Type 0
IsFresh seen comps = All (λ c. lookup (id_of c) seen ≡ none) comps

pub check_id-nil :
    (base : String) (j : ℕ) (seen : GoMap ℕ) (id : String)
    → (check_id base j seen id).problems ≡ []
    → (id ≢ "") × (lookup id seen ≡ none) × ((check_id base j seen id).seen ≡ (id, j) ∷ seen)
unfolding check_id
check_id-nil base j seen id h = ((λ e. ground (arith, eq_iff id "")), ground arith, ground arith)

pub nil_of_fresh_id :
    (base : String) (j : ℕ) (seen : GoMap ℕ) (id : String)
    → id ≢ ""
    → lookup id seen ≡ none
    → ((check_id base j seen id).problems ≡ []) × ((check_id base j seen id).seen ≡ (id, j) ∷ seen)
unfolding check_id
nil_of_fresh_id base j seen id n h = (ground (arith, eq_iff id ""), ground (arith, eq_iff id ""))

pub empty_catalog-nil_iff :
    (v : Option Value) (path : String) → (empty_catalog v path ≡ []) ↔ (is_empty_str v ≡ false)
empty_catalog-nil_iff v path = elim (Bool-cases (is_empty_str v)) [
  | inl e ↦ rw e (λ h. cc, λ h. cc)
  | inr e ↦ rw e (λ h. refl, λ h. refl)
]

lookup-cons-none :
    (id : String) (j : ℕ) (seen : GoMap ℕ) (k : String)
    → (lookup k ((id, j) ∷ seen) ≡ none) ↔ ((id ≢ k) × (lookup k seen ≡ none))
unfolding lookup
lookup-cons-none id j seen k = elim (String-cases id k) [
  | inl e ↦ rw (e, eq_refl k) (λ h. cc, λ h. absurd (h.0 refl))
  | inr n ↦ rw n.0 (λ h. (n.1, h), λ h. h.1)
]

pub IsFresh-cons :
    (id : String) (j : ℕ) (seen : GoMap ℕ) (cs : List Value)
    → IsFresh ((id, j) ∷ seen) cs ↔ (IsFresh seen cs × (¬ Elem id (ids cs)))
IsFresh-cons id j seen [] = (λ h. (tt, λ k. k), λ h. tt)
IsFresh-cons id j seen (c ∷ cs) =
    let here = lookup-cons-none id j seen (id_of c) in
    let rest = IsFresh-cons id j seen cs in
    (
      λ h.
          let (n, l) = here.0 h.0 in
          let (f, m) = rest.0 h.1 in ((l, f), elim [ inl e ↦ n e | inr k ↦ m k ]),
      λ h. (here.1 ((λ e. h.1 (inl e)), h.0.0), rest.1 (h.0.1, λ k. h.1 (inr k))),
    )

pub IsFresh-empty : (cs : List Value) → IsFresh [] cs
unfolding lookup
IsFresh-empty [] = tt
IsFresh-empty (c ∷ cs) = (refl, IsFresh-empty cs)

check_from-nil :
    (base : String) (j : ℕ) (seen : GoMap ℕ) (cs : List Value)
    → (check_from base j seen cs).1 ≡ []
    → IsGoodList cs × IsFresh seen cs
unfolding check_from
check_from-nil base j seen [] h = ((tt, tt), tt)
check_from-nil base j seen (c ∷ cs) h =
    let (cat, rest) = (append-nil_iff _ _).0 h in
    let (own, more) = (append-nil_iff _ _).0 rest in
    let (named, fresh, same) = check_id-nil base j seen (id_of c) own in
    let ((good, apart), unseen) =
      check_from-nil base (suc j) (check_id base j seen (id_of c)).seen cs more in
    let (unseen', other) = (IsFresh-cons (id_of c) j seen cs).0 (rw same at unseen) in
    (
      (
        (
          (
            named,
            (empty_catalog-nil_iff (catalog_of c) (element_path base j +++ ".catalogId")).0 cat,
          ),
          good,
        ),
        (other, apart),
      ),
      (fresh, unseen'),
    )

nil_of_good :
    (base : String) (j : ℕ) (seen : GoMap ℕ) (cs : List Value)
    → IsGoodList cs
    → IsFresh seen cs
    → (check_from base j seen cs).1 ≡ []
unfolding check_from
nil_of_good base j seen [] g f = refl
nil_of_good base j seen (c ∷ cs) (((named, cat), good), (other, apart)) (fresh, unseen) =
    let (own, same) = nil_of_fresh_id base j seen (id_of c) named fresh in
    let later = (IsFresh-cons (id_of c) j seen cs).1 (unseen, other) in
    (append-nil_iff _ _).1 (
      (empty_catalog-nil_iff (catalog_of c) (element_path base j +++ ".catalogId")).1 cat,
      (append-nil_iff (check_id base j seen (id_of c)).problems
            (check_from base (suc j) (check_id base j seen (id_of c)).seen cs).1).1
          (own, rw same (nil_of_good base (suc j) ((id_of c, j) ∷ seen) cs (good, apart) later)),
    )

-- `checkList` finds no problem exactly in a list whose components have ids, all different, and no
-- empty catalogId.
pub check_list-nil_iff :
    (comps : List Value) (base : String) → ((check_list comps base).1 ≡ []) ↔ IsGoodList comps
unfolding check_list
check_list-nil_iff comps base = (
  λ h. (check_from-nil base 0 [] comps h).0,
  λ g. nil_of_good base 0 [] comps g (IsFresh-empty comps),
)

-- The roots that are left to count once `seen` is known.
abbrev roots_left : Option ℕ → Bool → ℕ
roots_left (some k) present = 0
roots_left none present = if present then 1 else 0

check_id-roots_root :
    (base : String) (j : ℕ) (seen : GoMap ℕ) (later : Bool)
    → (check_id base j seen "root").roots
        + roots_left (lookup "root" (check_id base j seen "root").seen) later
      ≡ roots_left (lookup "root" seen) true
unfolding check_id lookup
check_id-roots_root base j seen later = elim (Option-cases (lookup "root" seen)) [
  | inl f ↦ rw f (omega arith)
  | inr (k, f) ↦ rw f (rw f (omega arith))
]

check_id-roots_other :
    (base : String) (j : ℕ) (seen : GoMap ℕ) (id : String) (later : Bool)
    → (id == "root") ≡ false
    → (check_id base j seen id).roots
        + roots_left (lookup "root" (check_id base j seen id).seen) later
      ≡ roots_left (lookup "root" seen) later
unfolding check_id lookup
check_id-roots_other base j seen id later n = elim (String-cases id "") [
  | inl e ↦ rw e (omega arith)
  | inr d ↦ rw d.0 (elim (Option-cases (lookup id seen)) [
    | inl f ↦ rw f (rw n (omega arith))
    | inr (k, f) ↦ rw f (omega arith)
  ])
]

check_id-roots :
    (base : String) (j : ℕ) (seen : GoMap ℕ) (id : String) (later : Bool)
    → (check_id base j seen id).roots
        + roots_left (lookup "root" (check_id base j seen id).seen) later
      ≡ roots_left (lookup "root" seen) (id == "root" || later)
check_id-roots base j seen id later = elim (String-cases id "root") [
  | inl r ↦ rw r (rw (eq_refl "root") (check_id-roots_root base j seen later))
  | inr d ↦ rw d.0 (check_id-roots_other base j seen id later d.0)
]

check_from-roots :
    (base : String) (j : ℕ) (seen : GoMap ℕ) (cs : List Value)
    → (check_from base j seen cs).0 ≡ roots_left (lookup "root" seen) (str_elem "root" (ids cs))
unfolding check_from str_elem
check_from-roots base j seen [] = ground arith
check_from-roots base j seen (c ∷ cs) =
    let it = check_id base j seen (id_of c) in
    ap (λ (n : ℕ). it.roots + n) (check_from-roots base (suc j) it.seen cs)
    ∙ check_id-roots base j seen (id_of c) (str_elem "root" (ids cs))

-- `checkList` counts one root where some component has the id "root", and none otherwise,
-- whatever else is wrong with the list.
pub check_list-roots :
    (comps : List Value) (base : String)
    → ((check_list comps base).0 ≤ 1) × (((check_list comps base).0 ≡ 1) ↔ Elem "root" (ids comps))
unfolding check_list
check_list-roots comps base =
    let count = check_from-roots base 0 [] comps in
    (
      ground (arith, count),
      (
        λ h. (str_elem_iff "root" (ids comps)).0 (ground (arith, count, lookup-nil {V = ℕ} "root")),
        λ m.
            let present = (str_elem_iff "root" (ids comps)).1 m in
            ground (arith, count, lookup-nil {V = ℕ} "root"),
      ),
    )
