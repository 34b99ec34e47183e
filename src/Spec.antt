-- ===== src/Spec.antt =====
-- spec/spec.go: the versions and the ids of the embedded specification. The embedded files are
-- not program text: reading one is a parameter, `Files`.
use Prim.Native.String.{◌++◌}
use adk_a2ui_go.Common.{
  String, Option, none, some, List, [], ◌∷◌, ◌++◌ as append, ◌==◌, ◌||◌, if◌then◌else◌,
}
use adk_a2ui_go.Common.Text.{quote, join, trim_space}
use adk_a2ui_go.Json.{Fields, str_at}
use adk_a2ui_go.Kit.Error.{wrapped, Result, ok, err, ◌>>=◌}

abbrev pub major_v09 : String
major_v09 = "v0_9"

abbrev pub major_v10 : String
major_v10 = "v1_0"

-- `MajorFor`
unfoldable pub major_for : String → Option String
major_for version =
    if version == "v0.9" || version == "v0.9.1"
    then some major_v09
    else if version == "v1.0"
    then some major_v10
    else none

-- `BasicCatalogIDs`: the canonical id and its aliases; a Go map reads as nil elsewhere.
unfoldable pub basic_catalog_ids : String → List String
basic_catalog_ids major =
    if major == major_v09
    then "https://a2ui.org/specification/v0_9/catalogs/basic/catalog.json"
      ∷ "https://a2ui.org/specification/v0_9_1/catalogs/basic/catalog.json" ∷ []
    else if major == major_v10
    then "https://a2ui.org/specification/v1_0/catalogs/basic/catalog.json" ∷ []
    else []

-- What the rest of the program reads by `BasicCatalog`: the catalog of a major version, and the prompt
-- guidance that is shipped with it.
pub record Embedded : Type 0 where
  pub basic_catalog : String → Result Fields
  pub basic_instructions : String → String

-- The embedded files by name, and `json.Unmarshal` of a file into a map.
pub record Files : Type 0 where
  pub read_file : String → Result String
  pub unmarshal : String → Result Fields

-- `Source`
unfoldable pub source : Files → String
source fs = elim (fs.read_file "SOURCE") [ err e ↦ "" | ok text ↦ trim_space text ]

-- The answer of `BasicCatalog`, less its error.
pub record Basic : Type 0 where
  pub catalog : Fields
  pub catalog_id : String
  pub instructions : String

label : {A : Type 0} → String → Result A → Result A
label prefix (err e) = err (wrapped prefix e)
label prefix (ok a) = ok a

-- The trimmed text of the rules, where the file is there.
rules_part : Result String → List String
rules_part (err e) = []
rules_part (ok text) = trim_space text ∷ []

-- The catalog's own instructions, unless they are blank.
own_part : String → List String
own_part text = if text == "" then [] else text ∷ []

-- `BasicCatalog`
unfoldable pub basic_catalog : Files → String → Result Basic
unfolding label rules_part own_part
basic_catalog fs major =
    label ("spec: no basic catalog for " ++ (quote major ++ ": "))
      (fs.read_file (major ++ "/catalogs/basic/catalog.json"))
    >>= λ text.
        label ("spec: basic catalog for " ++ (quote major ++ ": ")) (fs.unmarshal text)
        >>= λ catalog. ok (record {
          catalog = catalog;
          catalog_id = str_at "catalogId" catalog;
          instructions = join "\n\n" (
              append (rules_part (fs.read_file (major ++ "/catalogs/basic/rules.txt")))
                (own_part (trim_space (str_at "instructions" catalog))));
        })

abbrev instructions_of : Result Basic → String
instructions_of (err e) = ""
instructions_of (ok b) = b.instructions

-- What the program reads from the files.
abbrev pub embedded : Files → Embedded
embedded fs = record {
  basic_catalog = λ major. basic_catalog fs major >>= λ b. ok b.catalog;
  basic_instructions = λ major. instructions_of (basic_catalog fs major);
}
