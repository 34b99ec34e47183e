-- ===== src/Kit/Capabilities/Laws.antt =====
-- What a capabilities document says for each version, and which version is chosen.
use adk_a2ui_go.Common.{
  ℕ, suc, String, ◌≡◌, refl, ◌↔◌, ◌⊎◌, inl, inr, true, false, Option, none, some, List, [], ◌∷◌,
  ◌==◌, arith, lookup, map, sym, String-cases, Bool-cases, Elem, IsDistinct, eq_refl,
}
use mathlib.Core.Path.{subst}
use adk_a2ui_go.Json.{
  Value, null, str, arr, obj, strings, objects, Fields, end, field, get, keys, to_list, to_maps,
}
use adk_a2ui_go.Kit.Error.{ok, >>=-eq-ok, Result-cases}
use adk_a2ui_go.Kit.Capabilities.{
  VersionParams, v09, string_elements, object_elements, catalog_ids, catalogs, parse_params,
  is_legacy, is_stray, read_value, read_version, parse_entries, with_capabilities,
}

string_elements-ok_iff :
    (i : ℕ) (vs : List Value) (ss : List String)
    → (string_elements i vs ≡ ok ss) ↔ (vs ≡ map str ss)
unfolding string_elements
string_elements-ok_iff i [] [] = (λ h. refl, λ h. refl)
string_elements-ok_iff i [] (s ∷ ss) = (λ h. cc, λ h. cc)
string_elements-ok_iff i (str t ∷ vs) [] =
    (λ h. let (a, b, c) = >>=-eq-ok (string_elements (suc i) vs) _ h in cc, λ h. cc)
string_elements-ok_iff i (str t ∷ vs) (s ∷ ss) = (
  λ h.
      let (a, b, c) = >>=-eq-ok (string_elements (suc i) vs) _ h in
      cc ((string_elements-ok_iff (suc i) vs a).0 b),
  λ h. let rest = (string_elements-ok_iff (suc i) vs ss).1 (cc) in rw rest (cc),
)
string_elements-ok_iff i (null ∷ vs) [] = (λ h. cc, λ h. cc)
string_elements-ok_iff i (v ∷ vs) [] = (λ h. cc, λ h. cc)
string_elements-ok_iff i (null ∷ vs) (s ∷ ss) = (λ h. cc, λ h. cc)
string_elements-ok_iff i (v ∷ vs) (s ∷ ss) = (λ h. cc, λ h. cc)

object_elements-ok_iff :
    (i : ℕ) (vs : List Value) (ms : List Fields)
    → (object_elements i vs ≡ ok ms) ↔ (vs ≡ map obj ms)
unfolding object_elements
object_elements-ok_iff i [] [] = (λ h. refl, λ h. refl)
object_elements-ok_iff i [] (m ∷ ms) = (λ h. cc, λ h. cc)
object_elements-ok_iff i (obj t ∷ vs) [] =
    (λ h. let (a, b, c) = >>=-eq-ok (object_elements (suc i) vs) _ h in cc, λ h. cc)
object_elements-ok_iff i (obj t ∷ vs) (m ∷ ms) = (
  λ h.
      let (a, b, c) = >>=-eq-ok (object_elements (suc i) vs) _ h in
      cc ((object_elements-ok_iff (suc i) vs a).0 b),
  λ h. let rest = (object_elements-ok_iff (suc i) vs ms).1 (cc) in rw rest (cc),
)
object_elements-ok_iff i (null ∷ vs) [] = (λ h. cc, λ h. cc)
object_elements-ok_iff i (v ∷ vs) [] = (λ h. cc, λ h. cc)
object_elements-ok_iff i (null ∷ vs) (m ∷ ms) = (λ h. cc, λ h. cc)
object_elements-ok_iff i (v ∷ vs) (m ∷ ms) = (λ h. cc, λ h. cc)

-- The value lists the ids: it is absent, nil, a `[]string`, or a `[]any` of strings.
abbrev pub ListsIds : Option Value → List String → Type 0
ListsIds none ids = ids ≡ []
ListsIds (some null) ids = ids ≡ []
ListsIds (some (strings ss)) ids = ids ≡ ss
ListsIds (some (arr vs)) ids = to_list vs ≡ map str ids
ListsIds (some _) ids = ⊥

abbrev pub ListsCatalogs : Option Value → List Fields → Type 0
ListsCatalogs none ms = ms ≡ []
ListsCatalogs (some null) ms = ms ≡ []
ListsCatalogs (some (objects os)) ms = ms ≡ to_maps os
ListsCatalogs (some (arr vs)) ms = to_list vs ≡ map obj ms
ListsCatalogs (some _) ms = ⊥

catalog_ids-ok_iff :
    (v : Option Value) (ids : List String) → (catalog_ids v ≡ ok ids) ↔ ListsIds v ids
unfolding catalog_ids
catalog_ids-ok_iff none ids = (λ h. cc, λ h. cc)
catalog_ids-ok_iff (some null) ids = (λ h. cc, λ h. cc)
catalog_ids-ok_iff (some (strings ss)) ids = (λ h. cc, λ h. cc)
catalog_ids-ok_iff (some (arr vs)) ids = string_elements-ok_iff 0 (to_list vs) ids
catalog_ids-ok_iff (some v) ids = (λ h. cc, λ h. absurd h)

catalogs-ok_iff : (v : Option Value) (ms : List Fields) → (catalogs v ≡ ok ms) ↔ ListsCatalogs v ms
unfolding catalogs
catalogs-ok_iff none ms = (λ h. cc, λ h. cc)
catalogs-ok_iff (some null) ms = (λ h. cc, λ h. cc)
catalogs-ok_iff (some (objects os)) ms = (λ h. cc, λ h. cc)
catalogs-ok_iff (some (arr vs)) ms = object_elements-ok_iff 0 (to_list vs) ms
catalogs-ok_iff (some v) ms = (λ h. cc, λ h. absurd h)

-- `parseParams` succeeds exactly where both fields have the shape that the document promises, and
-- returns what they list.
pub parse_params-ok_iff :
    (m : Fields) (p : VersionParams)
    → (parse_params m ≡ ok p) ↔ (
        ListsIds (get "supportedCatalogIds" m) p.supported_catalog_ids
        × ListsCatalogs (get "inlineCatalogs" m) p.inline_catalogs)
unfolding parse_params
parse_params-ok_iff m p = (
  λ h.
      let (ids, a, r) = >>=-eq-ok (catalog_ids (get "supportedCatalogIds" m)) _ h in
      let (cs, b, e) = >>=-eq-ok (catalogs (get "inlineCatalogs" m)) _ r in
      (
        subst (ListsIds (get "supportedCatalogIds" m)) (ground arith)
            ((catalog_ids-ok_iff (get "supportedCatalogIds" m) ids).0 a),
        subst (ListsCatalogs (get "inlineCatalogs" m)) (ground arith)
            ((catalogs-ok_iff (get "inlineCatalogs" m) cs).0 b),
      ),
  λ h.
      rw ((catalog_ids-ok_iff (get "supportedCatalogIds" m) p.supported_catalog_ids).1 h.0)
        (rw ((catalogs-ok_iff (get "inlineCatalogs" m) p.inline_catalogs).1 h.1) refl),
)

-- What the raw value of a version says, in the loop of `ParseCapabilities`.
abbrev Reads : String → Value → VersionParams → Type 0
Reads version v p = read_version version v ≡ ok p

abbrev pub ParsesTo : Value → VersionParams → Type 0
ParsesTo (obj o) p = parse_params o ≡ ok p
ParsesTo _ p = ⊥

value_iff :
    (version : String) (v : Value) (p : VersionParams)
    → (read_value version v ≡ ok p) ↔ ((false ≡ false) × ParsesTo v p)
value_iff version (obj o) p = elim (Result-cases (parse_params o)) [
  | inl (q, e) ↦ rw e (λ h. (refl, cc), λ h. cc h.1)
  | inr (q, e) ↦ rw e (λ h. cc, λ h. cc h.1)
]
value_iff version null p = (λ h. cc, λ h. absurd h.1)
value_iff version v p = (λ h. cc, λ h. absurd h.1)

Reads-iff :
    (version : String) (v : Value) (p : VersionParams)
    → Reads version v p ↔ ((is_stray version ≡ false) × ParsesTo v p)
unfolding read_version
Reads-iff version v p = elim (Bool-cases (is_stray version)) [
  | inl e ↦ rw (e, read_version) (λ h. cc, λ h. cc)
  | inr e ↦ rw (e, read_version) (value_iff version v p)
]

-- What a document says of a version: its parameters are those of the whole document, for v0.9 and
-- a legacy document; else those of the object under the version's key.
abbrev pub Says : Fields → String → VersionParams → Type 0
Says doc version p =
    ((is_legacy doc ≡ true) × (version ≡ v09) × (parse_params doc ≡ ok p))
    ⊎ ((is_legacy doc ≡ false)
        × (is_stray version ≡ false)
        × ((v : Value) × (get version doc ≡ some v) × ParsesTo v p))

parse_entries-absent :
    (version : String) (doc : Fields)
    → ¬ Elem version (keys doc)
    → lookup version (parse_entries doc).0 ≡ none
unfolding parse_entries keys lookup
parse_entries-absent version end n = refl
parse_entries-absent version (field k v fs) n =
    let rest = parse_entries-absent version fs (λ m. n (inr m)) in
    elim (Result-cases (read_version k v)) [
      | inl (q, e) ↦ rw e (elim (String-cases k version) [
        | inl same ↦ absurd (n (inl (sym same)))
        | inr d ↦ rw d.0 rest
      ])
      | inr (q, e) ↦ rw e rest
    ]

parse_entries-lookup :
    (version : String) (doc : Fields) (p : VersionParams)
    → IsDistinct (keys doc)
    → (lookup version (parse_entries doc).0 ≡ some p)
      ↔ ((v : Value) × (get version doc ≡ some v) × Reads version v p)
unfolding parse_entries keys lookup get
parse_entries-lookup version end p d = (λ h. cc, λ h. cc h.1)
parse_entries-lookup version (field k v fs) p d =
    let rest = parse_entries-lookup version fs p d.1 in
    elim (String-cases k version) [
      | inr n ↦ elim (Result-cases (read_version k v)) [
        | inl (q, e) ↦ rw e (rw n.0 rest)
        | inr (q, e) ↦ rw e (rw n.0 rest)
      ]
      | inl same ↦
          let gone =
            parse_entries-absent version fs
              (λ m. d.0 (subst (λ t. Elem t (keys fs)) (sym same) m)) in
          let hit = subst (λ t. (k == t) ≡ true) same (eq_refl k) in
          let reads = subst (λ t. read_version k v ≡ read_version t v) same refl in
          elim (Result-cases (read_version k v)) [
            | inl (q, e) ↦ rw e (rw hit (λ h. (v, refl, cc), λ h. cc (h.1, h.2)))
            | inr (q, e) ↦ rw e (rw hit (λ h. cc, λ h. cc (h.1, h.2)))
          ]
    ]

legacy_lookup :
    (doc : Fields) (version : String) (p : VersionParams)
    → (lookup version (parse_entries (field v09 (obj doc) end)).0 ≡ some p)
      ↔ ((version ≡ v09) × (parse_params doc ≡ ok p))
unfolding keys get
legacy_lookup doc version p =
    let all = parse_entries-lookup version (field v09 (obj doc) end) p ((λ m. m), tt) in
    elim (String-cases v09 version) [
      | inl e ↦
          let hit = subst (λ t. (v09 == t) ≡ true) e (eq_refl v09) in
          let reads = Reads-iff version (obj doc) p in
          let plain = subst (λ t. is_stray t ≡ false) e refl in
          (
            λ h.
                let (v, g, r) = all.0 h in
                let v_is : v ≡ obj doc = cc (rw hit at g) in
                let r' = subst (λ u. Reads version u p) v_is r in (sym e, (reads.0 r').1),
            λ h. all.1 (obj doc, (rw hit refl), reads.1 (plain, h.1)),
          )
      | inr n ↦ (λ h. let (v, g, r) = all.0 h in cc (rw n.0 at g), λ h. absurd (n.1 (sym h.0)))
    ]

-- The context holds parameters for a version exactly as the document says them, in whatever order
-- the entries of the document are read.
pub with_capabilities-lookup :
    (doc : Fields) (version : String) (p : VersionParams)
    → IsDistinct (keys doc)
    → (lookup version (with_capabilities (some doc)) ≡ some p) ↔ Says doc version p
unfolding with_capabilities
with_capabilities-lookup doc version p d = elim (Bool-cases (is_legacy doc)) [
  | inl e ↦
      let l = legacy_lookup doc version p in
      rw e (
        λ h. let (a, b) = l.0 h in inl (refl, a, b),
        elim [ inl k ↦ l.1 (k.1, k.2) | inr k ↦ cc k.0 ],
      )
  | inr e ↦
      let l = parse_entries-lookup version doc p d in
      rw e (
        λ h.
            let (v, g, r) = l.0 h in
            let (plain, q) = (Reads-iff version v p).0 r in inr (refl, plain, (v, g, q)),
        elim [
          | inl k ↦ cc k.0
          | inr k ↦ l.1 (k.2.0, k.2.1, (Reads-iff version k.2.0 p).1 (k.1, k.2.2))
        ],
      )
]
