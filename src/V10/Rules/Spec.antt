-- ===== src/V10/Rules/Spec.antt =====
-- The rules that the specification of v1.0 states in prose, as predicates on a batch of messages.
use adk_a2ui_go.Common.{
  ℕ, suc, String, ◌≡◌, ◌≢◌, ◌⊎◌, false, Option, none, some, List, [], ◌∷◌, ◌++◌, GoMap, lookup,
  Elem, IsDistinct, All,
}
use adk_a2ui_go.Json.{Value, Fields, get, as_obj, as_arr, str_at, obj_of, is_empty_str}
use adk_a2ui_go.Schema.Rules.{first_create_index}
use adk_a2ui_go.Schema.Rules.Laws.{creates, NotLater}
use adk_a2ui_go.V10.Rules.{or_nil}
use adk_a2ui_go.V10.Rules.Components.{ids, IsGoodList}

-- What must hold of an object, if the message has it.
abbrev pub IfPresent : (Fields → Type 0) → Option Fields → Type 0
IfPresent P none = Unit
IfPresent P (some o) = P o

abbrev pub IfList : Option (List Value) → Type 0
IfList none = Unit
IfList (some comps) = IsGoodList comps

abbrev pub CatalogOk : Fields → Type 0
CatalogOk o = is_empty_str (get "catalogId" o) ≡ false

abbrev pub CreateOk : Fields → Type 0
CreateOk cs = (str_at "surfaceId" cs ≢ "") × CatalogOk cs × IfList (as_arr (get "components" cs))

-- The surface has an id, and the batch does not create it only later.
abbrev pub SurfaceOk : GoMap ℕ → ℕ → Fields → Type 0
SurfaceOk created i o =
    (str_at "surfaceId" o ≢ "") × NotLater (lookup (str_at "surfaceId" o) created) i

abbrev pub UpdateOk : GoMap ℕ → ℕ → Fields → Type 0
UpdateOk created i uc = SurfaceOk created i uc × IsGoodList (or_nil (as_arr (get "components" uc)))

abbrev pub CallOk : Fields → Type 0
CallOk cf = CatalogOk (obj_of (get "callFunction" cf))

-- What is asked of one message.
pub record MessageOk (created : GoMap ℕ) (i : ℕ) (m : Fields) : Type 0 where
  pub create : IfPresent CreateOk (as_obj (get "createSurface" m))
  pub update : IfPresent (UpdateOk created i) (as_obj (get "updateComponents" m))
  pub data_model : IfPresent (SurfaceOk created i) (as_obj (get "updateDataModel" m))
  pub delete : IfPresent (λ o. str_at "surfaceId" o ≢ "") (as_obj (get "deleteSurface" m))
  pub call : IfPresent CallOk (as_obj (get "callRendererFunction" m))

abbrev pub AllFrom : GoMap ℕ → ℕ → List Fields → Type 0
AllFrom created i [] = Unit
AllFrom created i (m ∷ ms) = MessageOk created i m × AllFrom created (suc i) ms

abbrev pub option_list : Option String → List String
option_list none = []
option_list (some s) = s ∷ []

-- The surfaces that the batch creates, in order.
abbrev pub created_ids : List Fields → List String
created_ids [] = []
created_ids (m ∷ ms) = option_list (creates m) ++ created_ids ms

-- The object is a list of components for `sid` with a root.
abbrev pub Roots : String → Option Fields → Type 0
Roots sid none = ⊥
Roots sid (some o) =
    (str_at "surfaceId" o ≡ sid) × Elem "root" (ids (or_nil (as_arr (get "components" o))))

abbrev pub HasRoot : String → List Fields → Type 0
HasRoot sid [] = ⊥
HasRoot sid (m ∷ ms) =
    Roots sid (as_obj (get "createSurface" m))
    ⊎ Roots sid (as_obj (get "updateComponents" m))
    ⊎ HasRoot sid ms

-- The prose rules of v1.0 for a batch.
pub record BatchOk (ms : List Fields) : Type 0 where
  pub messages : AllFrom (first_create_index ms) 0 ms
  pub once : IsDistinct (created_ids ms)
  pub rooted : All (λ sid. HasRoot sid ms) (created_ids ms)
