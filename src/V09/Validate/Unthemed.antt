-- ===== src/V09/Validate/Unthemed.antt =====
-- v09/validate.go: surfaces that are created without a theme, and strict mode.
use adk_a2ui_go.Common.{◌≡◌, Bool, none, some, List, [], ◌∷◌, All}
use adk_a2ui_go.Json.{Fields, get, as_obj}
use adk_a2ui_go.Kit.Error.{ok}
use adk_a2ui_go.Kit.Options.{ValidateOptions}
use adk_a2ui_go.Spec.{Embedded}
use adk_a2ui_go.Schema.Format.Text.{Printer}
use adk_a2ui_go.Schema.Engine.{Engine}
use adk_a2ui_go.V09.Validate.{Created, created_catalogs, validate_against_catalogs_v09}
use adk_a2ui_go.V09.Validate.Pass.{CatalogsOk, validate_against_catalogs_v09-nil_iff}

-- A message that creates a surface, without a theme.
abbrev pub CreatesUnthemed : Fields → Type 0
CreatesUnthemed m =
    (cs : Fields) × (as_obj (get "createSurface" m) ≡ some cs) × (get "theme" cs ≡ none)

module _ (files : Embedded) (eng : Engine) (out : Printer) (opts : ValidateOptions)
    (v091 : Bool) where
  unthemed-CatalogsOk :
      (created : Created) (ms : List Fields)
      → All CreatesUnthemed ms
      → CatalogsOk files eng out opts v091 created ms
  unthemed-CatalogsOk created [] h = tt
  unthemed-CatalogsOk created (m ∷ ms) ((cs, e, t), h) =
      (rw e (rw t tt), unthemed-CatalogsOk created ms h)

  -- A batch of v0.9 whose messages all create surfaces without a theme has no problem with its
  -- catalogs, whatever the options and the resolver are: in strict mode too, and where nobody knows
  -- the catalogs.
  pub validate_against_catalogs_v09-unthemed :
      (ms : List Fields)
      → All CreatesUnthemed ms
      → validate_against_catalogs_v09 files eng out opts v091 ms ≡ ok []
  validate_against_catalogs_v09-unthemed ms h =
      (validate_against_catalogs_v09-nil_iff files eng out opts v091 ms).1
        (unthemed-CatalogsOk (created_catalogs ms) ms h)
