-- ===== src/Schema/Catalog/Laws.antt =====
-- internal/schema/catalog.go: what `withUnions` keeps of a catalog, and what it adds.
use adk_a2ui_go.Common.{
  String, ◌≡◌, refl, ◌≢◌, inl, inr, Option, none, some, ◌==◌, eq_refl, Bool-cases, String-cases,
  Option-cases, ap, sym, ◌∙◌, carried, eq-false,
}
use adk_a2ui_go.Json.{Value, obj, Fields, end, field, get, has, obj_of, is_present}
use adk_a2ui_go.Spec.{major_v09}
use adk_a2ui_go.Schema.Catalog.{
  set, set_missing, with_theme, merged_defs, with_unions, ref_union, function_union, theme_schema,
  stub_component, stub_function, stub_theme,
}

none-some : (w : Value) → none ≢ some w
none-some w h = cc

get-set_same : (k : String) (v : Value) (m : Fields) → get k (set k v m) ≡ some v
unfolding get set
get-set_same k v end = rw (eq_refl k) refl
get-set_same k v (field j w m) = elim (Bool-cases (j == k)) [
  | inl h ↦ rw h (rw (eq_refl k) refl)
  | inr h ↦ rw h (rw h (get-set_same k v m))
]

get-set_other : (k j : String) (v : Value) (m : Fields) → k ≢ j → get j (set k v m) ≡ get j m
unfolding get set
get-set_other k j v end n = elim (String-cases k j) [
  | inl e ↦ absurd (n e)
  | inr (off, _) ↦ rw off refl
]
get-set_other k j v (field i w m) n = elim (Bool-cases (i == k)) [
  | inl h ↦ elim (String-cases k j) [
    | inl e ↦ absurd (n e)
    | inr (off, _) ↦ rw h (rw (off, carried i k j h off) refl)
  ]
  | inr h ↦
      rw h
        (elim (Bool-cases (i == j)) [ inl g ↦ rw g refl | inr g ↦ rw g (get-set_other k j v m n) ])
]

-- The entry that was there, or the new one.
abbrev pub kept_or : Option Value → Value → Value
kept_or (some w) v = w
kept_or none v = v

set_missing-same :
    (k : String) (v : Value) (m : Fields) → get k (set_missing k v m) ≡ some (kept_or (get k m) v)
unfolding set_missing has is_present
set_missing-same k v m = elim (Option-cases (get k m)) [
  | inl e ↦ rw (e, get-set_same k v m) refl
  | inr (u, e) ↦ rw e e
]

set_missing-other :
    (k j : String) (v : Value) (m : Fields) → k ≢ j → get j (set_missing k v m) ≡ get j m
unfolding set_missing
set_missing-other k j v m n = elim (Bool-cases (has k m)) [
  | inl e ↦ rw e refl
  | inr e ↦ rw e (get-set_other k j v m n)
]

-- `withUnions` changes "$defs" of a catalog and nothing else.
pub get-with_unions :
    (major : String) (catalog : Fields)
    → (get "$defs" (with_unions major catalog) ≡ some (obj (merged_defs major catalog)))
      × ((k : String) → k ≢ "$defs" → get k (with_unions major catalog) ≡ get k catalog)
unfolding with_unions
get-with_unions major catalog = (
  get-set_same "$defs" (obj (merged_defs major catalog)) catalog,
  λ k n. get-set_other "$defs" k (obj (merged_defs major catalog)) catalog (λ p. n (sym p)),
)

-- The definitions before the theme.
unions : Fields → Fields
unions catalog =
    set_missing "anyFunction" (function_union (get "functions" catalog) stub_function) (
      set_missing "anyComponent"
        (ref_union (obj_of (get "components" catalog)) "#/components/" stub_component)
        (obj_of (get "$defs" catalog)))

with_theme-other :
    (major k : String) (catalog m : Fields)
    → k ≢ "theme"
    → get k (with_theme major catalog m) ≡ get k m
unfolding with_theme
with_theme-other major k catalog m n = elim (Bool-cases (major == major_v09)) [
  | inl e ↦ rw e (set_missing-other "theme" k _ m (λ p. n (sym p)))
  | inr e ↦ rw e refl
]

with_theme-theme :
    (major : String) (catalog m : Fields)
    → (major ≡ major_v09
        → get "theme" (with_theme major catalog m)
          ≡ some (kept_or (get "theme" m) (theme_schema (obj_of (get "theme" catalog)) stub_theme)))
      × (major ≢ major_v09 → get "theme" (with_theme major catalog m) ≡ get "theme" m)
unfolding with_theme
with_theme-theme major catalog m = (
  λ e. rw e (set_missing-same "theme" _ m),
  λ n. elim (String-cases major major_v09) [ inl e ↦ absurd (n e) | inr (off, _) ↦ rw off refl ],
)

abbrev pub defs_of : Fields → Fields
defs_of catalog = obj_of (get "$defs" catalog)

unions-function :
    (catalog : Fields)
    → get "anyFunction" (unions catalog)
      ≡ some (
          kept_or
            (get "anyFunction" (defs_of catalog))
            (function_union (get "functions" catalog) stub_function))
unfolding unions
unions-function catalog =
    set_missing-same "anyFunction" _ _
    ∙ ap (λ o. some (kept_or o (function_union (get "functions" catalog) stub_function)))
        (set_missing-other "anyComponent" "anyFunction" _ (defs_of catalog)
          (eq-false "anyComponent" "anyFunction" refl))

unions-component :
    (catalog : Fields)
    → get "anyComponent" (unions catalog)
      ≡ some (
          kept_or
            (get "anyComponent" (defs_of catalog))
            (ref_union (obj_of (get "components" catalog)) "#/components/" stub_component))
unfolding unions
unions-component catalog =
    set_missing-other "anyFunction" "anyComponent" _ _ (eq-false "anyFunction" "anyComponent" refl)
    ∙ set_missing-same "anyComponent" _ (defs_of catalog)

unions-other :
    (catalog : Fields) (k : String)
    → k ≢ "anyComponent"
    → k ≢ "anyFunction"
    → get k (unions catalog) ≡ get k (defs_of catalog)
unfolding unions
unions-other catalog k c f =
    set_missing-other "anyFunction" k _ _ (λ p. f (sym p))
    ∙ set_missing-other "anyComponent" k _ (defs_of catalog) (λ p. c (sym p))

-- In "$defs" the entries that the catalog has are kept; "anyComponent" and "anyFunction" are there
-- in any case, built from what the catalog declares where it leaves them out; "theme" likewise for
-- v0.9, while other versions get none.
pub merged_defs_lem :
    (major : String) (catalog : Fields)
    → (get "anyComponent" (merged_defs major catalog)
        ≡ some (
            kept_or
              (get "anyComponent" (defs_of catalog))
              (ref_union (obj_of (get "components" catalog)) "#/components/" stub_component)))
      × (get "anyFunction" (merged_defs major catalog)
          ≡ some (
              kept_or
                (get "anyFunction" (defs_of catalog))
                (function_union (get "functions" catalog) stub_function)))
      × (major ≡ major_v09
          → get "theme" (merged_defs major catalog)
            ≡ some (
                kept_or
                  (get "theme" (defs_of catalog))
                  (theme_schema (obj_of (get "theme" catalog)) stub_theme)))
      × (major ≢ major_v09
          → get "theme" (merged_defs major catalog) ≡ get "theme" (defs_of catalog))
      × ((k : String)
          → k ≢ "anyComponent"
          → k ≢ "anyFunction"
          → k ≢ "theme"
          → get k (merged_defs major catalog) ≡ get k (defs_of catalog))
unfolding merged_defs unions
merged_defs_lem major catalog =
    let built = unions catalog in
    let theme = with_theme-theme major catalog (unions catalog) in
    let same =
      unions-other catalog "theme" (eq-false "theme" "anyComponent" refl)
        (eq-false "theme" "anyFunction" refl) in
    (
      with_theme-other major "anyComponent" catalog built (eq-false "anyComponent" "theme" refl)
          ∙ unions-component catalog,
      with_theme-other major "anyFunction" catalog built (eq-false "anyFunction" "theme" refl)
          ∙ unions-function catalog,
      λ e.
          theme.0 e
          ∙ ap (λ o. some (kept_or o (theme_schema (obj_of (get "theme" catalog)) stub_theme)))
              same,
      λ n. theme.1 n ∙ same,
      λ k c f t. with_theme-other major k catalog built t ∙ unions-other catalog k c f,
    )
