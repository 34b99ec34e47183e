-- ===== src/Examples/Schema.antt =====
-- Lists of problems, paths, and the resolution of a catalog.
use adk_a2ui_go.Common.{
  ◌+◌, ℕ, String, ◌≡◌, refl, ◌≢◌, ◌↔◌, ◌⊎◌, ◌<◌, true, false, none, List, [], ◌∷◌, ◌++◌, All, Elem,
  IsDistinct, length, arith, str_elem,
}
use adk_a2ui_go.Common.Text.{itoa, str_lt}
use adk_a2ui_go.Common.Sort.{IsSorted, sort}
use adk_a2ui_go.Json.{Fields, end, field, str}
use adk_a2ui_go.Kit.Error.{ok}
use adk_a2ui_go.Kit.Problem.{Problem, problem, problem_eq}
use adk_a2ui_go.Kit.Options.{ValidateOptions}
use adk_a2ui_go.Kit.Capabilities.{no_params}
use adk_a2ui_go.Spec.{Embedded, basic_catalog_ids}
use adk_a2ui_go.Schema.Paths.{natural_less, path_tokens, atoi, int_lt, int_eq, seg_token}
use adk_a2ui_go.Schema.Paths.Order.{natural_less_trichotomy}
use adk_a2ui_go.Schema.Finalize.{finalize, problem_less, dedupe}
use adk_a2ui_go.Schema.Finalize.Laws.{finalize_complete, finalize_capped, trailer}
use adk_a2ui_go.Schema.Resolve.{resolve_catalog}
use adk_a2ui_go.Schema.Resolve.Laws.{
  IsInline, NoneHas, Registers, DoesNotKnow, resolve_catalog-some_iff,
}

abbrev late : Problem
late = problem "messages[10].x" "must not be empty"

abbrev early : Problem
early = problem "messages[2].x" "must not be empty"

abbrev found : List Problem
found = late ∷ early ∷ late ∷ []

finalize-found : finalize found ≡ early ∷ late ∷ []
unfolding finalize sort problem_eq natural_less path_tokens atoi int_lt int_eq seg_token str_lt
finalize-found = refl

finalize_complete_example :
    ((a : Problem) → Elem a (finalize found) ↔ Elem a found)
    × IsDistinct (finalize found)
    × IsSorted problem_less (finalize found)
finalize_complete_example = finalize_complete found (rw finalize-found (omega arith))

abbrev numbered : ℕ → List ℕ → List Problem
numbered k [] = []
numbered k (n ∷ ns) = problem "p" (itoa n) ∷ numbered k ns

abbrev many : List Problem
many = numbered 0 (
    0 ∷ 1 ∷ 2 ∷ 3 ∷ 4 ∷ 5 ∷ 6 ∷ 7 ∷ 8 ∷ 9 ∷ 10 ∷ 11 ∷ 12 ∷ 13 ∷ 14 ∷ 15 ∷ 16 ∷ 17 ∷ 18 ∷ 19 ∷ 20
    ∷ 21 ∷ [])

many-long : length (finalize many) ≡ 21
unfolding finalize sort problem_eq natural_less path_tokens atoi int_lt int_eq seg_token str_lt itoa
many-long = refl

finalize_capped_example :
    (shown : List Problem) × (more : ℕ) × (finalize many ≡ shown ++ trailer more ∷ [])
    × (length shown ≡ 20)
    × (0 < more)
    × (length (dedupe [] many) ≡ 20 + more)
    × All (λ a. Elem a many) shown
    × IsDistinct shown
    × IsSorted problem_less shown
finalize_capped_example = finalize_capped many (rw many-long (omega arith))

natural_less_trichotomy_example :
    ((natural_less "a[2]" "a[10]" ≡ true) × (natural_less "a[10]" "a[2]" ≡ false))
    ⊎ ((natural_less "a[10]" "a[2]" ≡ true) × (natural_less "a[2]" "a[10]" ≡ false))
    ⊎ ((path_tokens "a[2]" ≡ path_tokens "a[10]")
        × (natural_less "a[2]" "a[10]" ≡ false)
        × (natural_less "a[10]" "a[2]" ≡ false))
natural_less_trichotomy_example = natural_less_trichotomy "a[2]" "a[10]"

abbrev basic : Fields
basic = field "catalogId" (str "basic") end

abbrev files : Embedded
files = record { basic_catalog = λ major. ok basic; basic_instructions = λ major. "" }

abbrev options : ValidateOptions
options = record { version = "v1.0"; params = no_params; resolver = none; strict = true }

abbrev basic_id : String
basic_id = "https://a2ui.org/specification/v1_0/catalogs/basic/catalog.json"

resolve_catalog-some_iff_example :
    (basic_id ≢ "")
    × (IsInline basic_id [] basic
        ⊎ (NoneHas basic_id []
            × (Registers none basic_id basic
                ⊎ (DoesNotKnow none basic_id
                    × Elem basic_id (basic_catalog_ids "v1_0")
                    × (files.basic_catalog "v1_0" ≡ ok basic)))))
unfolding resolve_catalog basic_catalog_ids str_elem
resolve_catalog-some_iff_example =
    (resolve_catalog-some_iff files "v1_0" basic_id options basic).0 refl
