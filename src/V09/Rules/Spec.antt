-- ===== src/V09/Rules/Spec.antt =====
-- The rules that the specification of v0.9 states in prose, as predicates on a batch of messages.
use adk_a2ui_go.Common.{ℕ, suc, String, ◌≢◌, ◌⊎◌, List, [], ◌∷◌, GoMap, IsDistinct, All}
use adk_a2ui_go.Json.{Value, Fields, get, as_obj, as_arr, str_at}
use adk_a2ui_go.Schema.Rules.{first_create_index}
use adk_a2ui_go.V10.Rules.{or_nil}
use adk_a2ui_go.V10.Rules.Components.{id_of, ids}
use adk_a2ui_go.V10.Rules.Spec.{IfPresent, CatalogOk, SurfaceOk, created_ids, Roots}

-- The components have ids, all different.
abbrev pub IdsOk : List Value → Type 0
IdsOk comps = All (λ c. id_of c ≢ "") comps × IsDistinct (ids comps)

abbrev pub CreateOkV09 : Fields → Type 0
CreateOkV09 cs = (str_at "surfaceId" cs ≢ "") × CatalogOk cs

abbrev pub UpdateOkV09 : GoMap ℕ → ℕ → Fields → Type 0
UpdateOkV09 created i uc = SurfaceOk created i uc × IdsOk (or_nil (as_arr (get "components" uc)))

-- What is asked of one message.
pub record MessageOkV09 (created : GoMap ℕ) (i : ℕ) (m : Fields) : Type 0 where
  pub create : IfPresent CreateOkV09 (as_obj (get "createSurface" m))
  pub update : IfPresent (UpdateOkV09 created i) (as_obj (get "updateComponents" m))
  pub data_model : IfPresent (SurfaceOk created i) (as_obj (get "updateDataModel" m))
  pub delete : IfPresent (λ o. str_at "surfaceId" o ≢ "") (as_obj (get "deleteSurface" m))

abbrev pub AllFromV09 : GoMap ℕ → ℕ → List Fields → Type 0
AllFromV09 created i [] = Unit
AllFromV09 created i (m ∷ ms) = MessageOkV09 created i m × AllFromV09 created (suc i) ms

-- Some updateComponents gives the surface a root.
abbrev pub HasRootV09 : String → List Fields → Type 0
HasRootV09 sid [] = ⊥
HasRootV09 sid (m ∷ ms) = Roots sid (as_obj (get "updateComponents" m)) ⊎ HasRootV09 sid ms

-- The prose rules of v0.9 for a batch.
pub record BatchOkV09 (ms : List Fields) : Type 0 where
  pub messages : AllFromV09 (first_create_index ms) 0 ms
  pub once : IsDistinct (created_ids ms)
  pub rooted : All (λ sid. HasRootV09 sid ms) (created_ids ms)
