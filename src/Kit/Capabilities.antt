-- ===== src/Kit/Capabilities.antt =====
-- kit/capabilities.go: reading a capabilities document, and choosing a version.
pub mod Laws
pub mod Negotiate
use Prim.Native.Char.{code}
use Prim.Native.String
use Prim.Native.String.{◌++◌}
use adk_a2ui_go.Common.{
  ℕ, suc, String, Bool, true, false, ◌&&◌, ◌||◌, not, Option, none, some, List, [], ◌∷◌, ◌==◌,
  if◌then◌else◌, nat_eq, leb, GoMap, lookup,
}
use adk_a2ui_go.Common.Text.{itoa, quote}
use adk_a2ui_go.Json.{
  Value, null, bool, num, str, arr, obj, strings, objects, other, Fields, end, field, get, has,
  to_list, to_maps,
}
use adk_a2ui_go.Kit.Error.{Error, failure, wrapped, Result, ok, err, ◌>>=◌}

abbrev pub v09 : String
v09 = "v0.9"

abbrev pub v091 : String
v091 = "v0.9.1"

abbrev pub v10 : String
v10 = "v1.0"

-- `KnownVersions`, newest first.
abbrev pub known_versions : List String
known_versions = v10 ∷ v091 ∷ v09 ∷ []

pub record VersionParams : Type 0 where
  pub supported_catalog_ids : List String
  pub inline_catalogs : List Fields

abbrev pub no_params : VersionParams
no_params = record { supported_catalog_ids = []; inline_catalogs = [] }

abbrev pub Capabilities : Type 0
Capabilities = GoMap VersionParams

-- `%T` of a value.
unfoldable pub type_name : Value → String
type_name null = "<nil>"
type_name (bool b) = "bool"
type_name (num n) = "float64"
type_name (str s) = "string"
type_name (arr vs) = "[]interface {}"
type_name (obj m) = "map[string]interface {}"
type_name (strings ss) = "[]string"
type_name (objects ms) = "[]map[string]interface {}"
type_name (other t) = t

abbrev element_error {ℓ} : {A : Type ℓ} → String → ℕ → Value → String → Result A
element_error key i v want =
    err (failure (key ++ ("[" ++ (itoa i ++ ("]: got " ++ (type_name v ++ (", want " ++ want)))))))

-- The loop over a `[]any` of ids, from index `i`.
string_elements : ℕ → List Value → Result (List String)
string_elements i [] = ok []
string_elements i (str s ∷ vs) = string_elements (suc i) vs >>= λ ss. ok (s ∷ ss)
string_elements i (v ∷ vs) = element_error "supportedCatalogIds" i v "string"

-- The loop over a `[]any` of catalogs.
object_elements : ℕ → List Value → Result (List Fields)
object_elements i [] = ok []
object_elements i (obj m ∷ vs) = object_elements (suc i) vs >>= λ ms. ok (m ∷ ms)
object_elements i (v ∷ vs) = element_error "inlineCatalogs" i v "object"

-- The type switch on `obj["supportedCatalogIds"]`; a missing key reads as nil.
catalog_ids : Option Value → Result (List String)
catalog_ids none = ok []
catalog_ids (some null) = ok []
catalog_ids (some (strings ss)) = ok ss
catalog_ids (some (arr vs)) = string_elements 0 (to_list vs)
catalog_ids (some v) =
    err (failure ("supportedCatalogIds: got " ++ (type_name v ++ ", want array")))

catalogs : Option Value → Result (List Fields)
catalogs none = ok []
catalogs (some null) = ok []
catalogs (some (objects ms)) = ok (to_maps ms)
catalogs (some (arr vs)) = object_elements 0 (to_list vs)
catalogs (some v) = err (failure ("inlineCatalogs: got " ++ (type_name v ++ ", want array")))

unfoldable pub parse_params : Fields → Result VersionParams
unfolding catalog_ids catalogs string_elements object_elements to_list to_maps type_name itoa
parse_params m = do
  ids ← catalog_ids (get "supportedCatalogIds" m)
  inline ← catalogs (get "inlineCatalogs" m)
  ok (record { supported_catalog_ids = ids; inline_catalogs = inline })

-- A key that begins with "v" and a digit.
is_version_like : String → Bool
is_version_like String.[] = false
is_version_like (String.◌∷◌ c String.[]) = false
is_version_like (String.◌∷◌ c (String.◌∷◌ d s)) =
    nat_eq (code c) b'v' && (leb b'0' (code d) && leb (code d) b'9')

unfoldable pub has_version_like_key : Fields → Bool
unfolding is_version_like
has_version_like_key end = false
has_version_like_key (field k v fs) = is_version_like k || has_version_like_key fs

-- A document with the keys of one version at its top level.
unfoldable pub is_legacy : Fields → Bool
unfolding has has_version_like_key
is_legacy doc = has "supportedCatalogIds" doc && not (has_version_like_key doc)

abbrev at_version : String → String → String
at_version version text = "kit: capabilities[" ++ (quote version ++ ("]: " ++ text))

abbrev pub is_stray : String → Bool
is_stray key = key == "supportedCatalogIds" || key == "inlineCatalogs"

abbrev in_version : String → Result VersionParams → Result VersionParams
in_version version (ok p) = ok p
in_version version (err e) = err (wrapped (at_version version "") e)

abbrev read_value : String → Value → Result VersionParams
read_value version (obj o) = in_version version (parse_params o)
read_value version v =
    err (failure (at_version version ("got " ++ (type_name v ++ ", want object"))))

-- One round of the loop of `ParseCapabilities`.
unfoldable pub read_version : String → Value → Result VersionParams
unfolding parse_params
read_version version v =
    if is_stray version
    then err (
        failure (
          "kit: capabilities document mixes a legacy flat shape with version keys; top-level "
          ++ (quote version ++ " ignored")))
    else read_value version v

-- What a round adds to the map, or to the errors.
abbrev pub note_version :
    String → Result VersionParams → Capabilities × List Error → Capabilities × List Error
note_version version (ok p) (caps, errs) = ((version, p) ∷ caps, errs)
note_version version (err e) (caps, errs) = (caps, e ∷ errs)

parse_entries : Fields → Capabilities × List Error
parse_entries end = ([], [])
parse_entries (field version v fs) =
    note_version version (read_version version v) (parse_entries fs)

-- The map, nil for a nil document, and the errors that `errors.Join` joins: none is no error.
unfoldable pub parse_capabilities : Option Fields → Option Capabilities × List Error
unfolding parse_entries read_version is_legacy
parse_capabilities none = (none, failure "kit: nil capabilities document" ∷ [])
parse_capabilities (some doc) =
    let (caps, errs) = parse_entries (if is_legacy doc then field v09 (obj doc) end else doc) in
    (some caps, errs)

-- `WithA2UICapabilities`: the document that the context holds afterwards.
abbrev or_no_capabilities : Option Capabilities → Capabilities
or_no_capabilities none = []
or_no_capabilities (some caps) = caps

unfoldable pub with_capabilities : Option Fields → Capabilities
unfolding parse_capabilities
with_capabilities doc = or_no_capabilities (parse_capabilities doc).0

-- The loop of `Negotiate`.
first_supported : Capabilities → List String → Option (String × VersionParams)
first_supported caps [] = none
first_supported caps (v ∷ vs) = elim (lookup v caps) [
  | some p ↦ some (v, p)
  | none ↦ first_supported caps vs
]

-- `Negotiate`; a nil preference is `none`.
unfoldable pub negotiate : Capabilities → Option (List String) → Option (String × VersionParams)
unfolding first_supported
negotiate caps none = first_supported caps known_versions
negotiate caps (some preferred) = first_supported caps preferred
