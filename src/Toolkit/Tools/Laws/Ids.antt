-- ===== src/Toolkit/Tools/Laws/Ids.antt =====
-- internal/toolkit/tools.go: the ids that the catalog tool lists.
use adk_a2ui_go.Common.{
  append-IsDistinct, String, ◌≡◌, refl, ◌↔◌, ◌≢◌, ◌⊎◌, inl, inr, true, false, List, [], ◌∷◌,
  ◌++◌ as append, str_elem, str_elem_iff, Elem, IsDistinct, Elem-append, Bool-cases, String-cases,
  map,
}
use adk_a2ui_go.Json.{Fields, str_at}
use adk_a2ui_go.Kit.Capabilities.{VersionParams}
use adk_a2ui_go.Toolkit.Tools.{Ids, note_id, note_supported, note_inline, client_ids}

-- The ids are distinct, and those that were met and are not empty.
record IdsOk (Met : String → Type 0) (st : Ids) : Type 0 where
  distinct : IsDistinct st.ids
  members : (k : String) → Elem k st.ids ↔ ((k ≢ "") × Met k)
  same : (k : String) → Elem k st.seen ↔ Elem k st.ids

IdsOk-iff :
    (M N : String → Type 0) (st : Ids) → ((k : String) → M k ↔ N k) → IdsOk M st → IdsOk N st
IdsOk-iff M N st iff h = record {
  distinct = h.distinct;
  members = λ k. (
    λ m. (let (a, b) = (h.members k).0 m in (a, (iff k).0 b)),
    λ m. (h.members k).1 (m.0, (iff k).1 m.1),
  );
  same = h.same;
}

known-IdsOk :
    (M : String → Type 0) (id : String) (st : Ids)
    → (id ≡ "") ⊎ Elem id st.ids
    → IdsOk M st
    → IdsOk (λ k. M k ⊎ (k ≡ id)) st
known-IdsOk M id st known h = record {
  distinct = h.distinct;
  members = λ k. (
    λ m. (let (a, b) = (h.members k).0 m in (a, inl b)),
    λ m. elim m.1 [
      | inl b ↦ (h.members k).1 (m.0, b)
      | inr e ↦ elim known [ inl z ↦ absurd (m.0 (rw e z)) | inr n ↦ rw e n ]
    ],
  );
  same = h.same;
}

new-IdsOk :
    (M : String → Type 0) (id : String) (st : Ids)
    → id ≢ ""
    → ¬ Elem id st.ids
    → IdsOk M st
    → IdsOk (λ k. M k ⊎ (k ≡ id)) (record { seen = id ∷ st.seen; ids = append st.ids (id ∷ []) })
new-IdsOk M id st ne off h = record {
  distinct = append-IsDistinct st.ids id h.distinct off;
  members = λ k. (
    λ m. elim ((Elem-append k st.ids (id ∷ [])).0 m) [
      | inl n ↦ (let (a, b) = (h.members k).0 n in (a, inl b))
      | inr n ↦ elim n [ inl e ↦ (λ z. ne (rw (← e) z), inr e) | inr z ↦ absurd z ]
    ],
    λ m. elim m.1 [
      | inl b ↦ (Elem-append k st.ids (id ∷ [])).1 (inl ((h.members k).1 (m.0, b)))
      | inr e ↦ (Elem-append k st.ids (id ∷ [])).1 (inr (inl e))
    ],
  );
  same = λ k. (
    λ m. elim m [
      | inl e ↦ (Elem-append k st.ids (id ∷ [])).1 (inr (inl e))
      | inr n ↦ (Elem-append k st.ids (id ∷ [])).1 (inl ((h.same k).0 n))
    ],
    λ m. elim ((Elem-append k st.ids (id ∷ [])).0 m) [
      | inl n ↦ inr ((h.same k).1 n)
      | inr n ↦ elim n [ inl e ↦ inl e | inr z ↦ absurd z ]
    ],
  );
}

not_member : (id : String) (xs : List String) → str_elem id xs ≡ false → ¬ Elem id xs
not_member id xs f m = let k : true ≡ false = rw (← f) (rw ((str_elem_iff id xs).1 m) refl) in cc

note_id-IdsOk :
    (M : String → Type 0) (id : String) (st : Ids)
    → IdsOk M st
    → IdsOk (λ k. M k ⊎ (k ≡ id)) (note_id id st)
unfolding note_id
note_id-IdsOk M id st h = elim (Bool-cases (str_elem id st.seen)) [
  | inl m ↦ rw m (known-IdsOk M id st (inr ((h.same id).0 ((str_elem_iff id st.seen).0 m))) h)
  | inr m ↦ elim (String-cases id "") [
    | inl e ↦ rw (m, e) (known-IdsOk M "" st (inl refl) h)
    | inr (ne, off) ↦
        rw (m, ne) (new-IdsOk M id st off (λ n. not_member id st.seen m ((h.same id).1 n)) h)
  ]
]

assoc_iff : (A B C : Type 0) → ((A ⊎ B) ⊎ C) ↔ (A ⊎ (B ⊎ C))
assoc_iff A B C = (
  elim [ inl h ↦ elim h [ inl a ↦ inl a | inr b ↦ inr (inl b) ] | inr c ↦ inr (inr c) ],
  elim [ inl a ↦ inl (inl a) | inr h ↦ elim h [ inl b ↦ inl (inr b) | inr c ↦ inr c ] ],
)

none_iff : (A : Type 0) → A ↔ (A ⊎ ⊥)
none_iff A = (inl, elim [ inl a ↦ a | inr z ↦ absurd z ])

note_supported-IdsOk :
    (M : String → Type 0) (ids : List String) (st : Ids)
    → IdsOk M st
    → IdsOk (λ k. M k ⊎ Elem k ids) (note_supported ids st)
unfolding note_supported
note_supported-IdsOk M [] st h = IdsOk-iff _ _ st (λ k. none_iff (M k)) h
note_supported-IdsOk M (id ∷ ids) st h =
    IdsOk-iff _ _ _ (λ k. assoc_iff (M k) (k ≡ id) (Elem k ids))
      (note_supported-IdsOk (λ k. M k ⊎ (k ≡ id)) ids (note_id id st) (note_id-IdsOk M id st h))

note_inline-IdsOk :
    (M : String → Type 0) (cs : List Fields) (st : Ids)
    → IdsOk M st
    → IdsOk (λ k. M k ⊎ Elem k (map (str_at "catalogId") cs)) (note_inline cs st)
unfolding note_inline
note_inline-IdsOk M [] st h = IdsOk-iff _ _ st (λ k. none_iff (M k)) h
note_inline-IdsOk M (c ∷ cs) st h =
    let id = str_at "catalogId" c in
    IdsOk-iff _ _ _ (λ k. assoc_iff (M k) (k ≡ id) (Elem k (map (str_at "catalogId") cs)))
      (note_inline-IdsOk (λ k. M k ⊎ (k ≡ id)) cs (note_id id st) (note_id-IdsOk M id st h))

-- A client names a catalog: by a supported id, or by an inline catalog's id.
abbrev pub Names : VersionParams → String → Type 0
Names params k =
    Elem k params.supported_catalog_ids ⊎ Elem k (map (str_at "catalogId") params.inline_catalogs)

no_ids-IdsOk : IdsOk (λ k. ⊥) (record { seen = []; ids = [] })
no_ids-IdsOk = record {
  distinct = tt;
  members = λ k. (λ m. absurd m, λ m. m.1);
  same = λ k. (λ m. m, λ m. m);
}

-- The catalog tool lists each id once, and exactly the ids that the client names and that are not
-- empty.
pub client_ids_iff :
    (params : VersionParams)
    → IsDistinct (client_ids params)
      × ((k : String) → Elem k (client_ids params) ↔ ((k ≢ "") × Names params k))
unfolding client_ids
client_ids_iff params =
    let start =
      note_supported-IdsOk (λ k. ⊥) params.supported_catalog_ids (record { seen = []; ids = [] })
        no_ids-IdsOk in
    let all = note_inline-IdsOk _ params.inline_catalogs _ start in
    let named =
      IdsOk-iff _ (Names params) _
        (λ k. (
          λ m. elim m [ inl h ↦ elim h [ inl z ↦ absurd z | inr a ↦ inl a ] | inr b ↦ inr b ],
          λ m. elim m [ inl a ↦ inl (inr a) | inr b ↦ inr b ],
        ))
        all in
    (named.distinct, named.members)
