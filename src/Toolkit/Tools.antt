-- ===== src/Toolkit/Tools.antt =====
-- internal/toolkit/tools.go: the catalog tool and the generate tool. `functiontool.New`
-- of the ADK, which may refuse a configuration, is a parameter, and so is `json.Marshal`.
pub mod Laws
use adk_a2ui_go.Common.{
  String, Bool, true, false, ◌||◌, Option, none, some, List, [], ◌∷◌, ◌++◌ as append, ◌==◌,
  if◌then◌else◌, GoMap, str_elem,
}
use adk_a2ui_go.Common.Text.{join}
use adk_a2ui_go.Json.{Fields, str_at}
use adk_a2ui_go.Kit.Problem.{Problem, problem}
use adk_a2ui_go.Kit.Error.{Error, validation, wrapped, as_validation, Result, ok, err, ◌>>=◌}
use adk_a2ui_go.Kit.Capabilities.{VersionParams}
use adk_a2ui_go.Kit.Options.{ValidateOptions, ToolOptions}
use adk_a2ui_go.Spec.{Embedded}
use adk_a2ui_go.Schema.Resolve.{resolve_catalog, catalog_instructions}
use adk_a2ui_go.Toolkit.JsonSchema.{
  JsonSchema, schema, Parts, part, done, property, items, additional_properties, Keywords, of_type,
  no_keywords, leaf,
}
use adk_a2ui_go.Toolkit.Types.{
  catalog_tool_name, generate_tool_name, GenerateOutput, CatalogToolOutput, ToolSpec,
  generate_output_schema, catalog_output_schema,
}
use adk_a2ui_go.Toolkit.Description.{describe}

-- `functiontool.Config`
pub record ToolConfig : Type 0 where
  pub name : String
  pub description : String
  pub input_schema : JsonSchema
  pub output_schema : JsonSchema

pub record Tool (In Out : Type 0) : Type 0 where
  pub config : ToolConfig
  pub handler : In → Result Out

-- `configErr`
abbrev pub config_err : Error → Error
config_err e = wrapped "a2ui: agent-side configuration error, do not retry: " e

unfoldable pub or_config_err : {A : Type 0} → Result A → Result A
or_config_err (err e) = err (config_err e)
or_config_err (ok a) = ok a

-- The variables `seen` and `out.CatalogIDs`.
pub record Ids : Type 0 where
  pub seen : List String
  pub ids : List String

note_id : String → Ids → Ids
note_id id st =
    if str_elem id st.seen || id == ""
    then st
    else record { seen = id ∷ st.seen; ids = append st.ids (id ∷ []) }

note_supported : List String → Ids → Ids
note_supported [] st = st
note_supported (id ∷ ids) st = note_supported ids (note_id id st)

note_inline : List Fields → Ids → Ids
note_inline [] st = st
note_inline (c ∷ cs) st = note_inline cs (note_id (str_at "catalogId" c) st)

-- The ids that the client supports, in order: the loops over both lists.
unfoldable pub client_ids : VersionParams → List String
unfolding note_inline note_supported note_id
client_ids params =
    (note_inline params.inline_catalogs
      (note_supported params.supported_catalog_ids (record { seen = []; ids = [] }))).ids

-- The variables `out.Catalogs`, `out.Unresolved` and `instructions`.
pub record Described : Type 0 where
  pub catalogs : GoMap String
  pub unresolved : List String
  pub instructions : List String

add_instructions : String → List String → List String
add_instructions text texts = if text == "" then texts else append texts (text ∷ [])

abbrev options_for : VersionParams → ToolOptions → ValidateOptions
options_for params opts = record {
  version = "";
  params = params;
  resolver = opts.resolver;
  strict = false;
}

module _ (files : Embedded) (marshal : Fields → Result String) (s : ToolSpec) where
  note_catalog : String → Described → Option Fields → Result Described
  note_catalog id st none = ok (record st { unresolved = append st.unresolved (id ∷ []) })
  note_catalog id st (some cat) = or_config_err (marshal cat) >>= λ text. ok (record st {
    catalogs = (id, text) ∷ st.catalogs;
    instructions = add_instructions (catalog_instructions files s.major cat) st.instructions;
  })

  -- The loop over the ids.
  describe_ids : ValidateOptions → List String → Described → Result Described
  describe_ids vopts [] st = ok st
  describe_ids vopts (id ∷ ids) st =
      or_config_err (resolve_catalog files s.major id vopts)
      >>= note_catalog id st
      >>= describe_ids vopts ids

  -- The handler of `CatalogTool`.
  unfoldable pub catalog_output : VersionParams → ToolOptions → Result CatalogToolOutput
  unfolding describe_ids note_catalog add_instructions or_config_err
  catalog_output params opts =
      describe_ids (options_for params opts) (client_ids params)
        (record { catalogs = []; unresolved = []; instructions = [] })
      >>= λ st. ok (record {
        version = s.version;
        catalog_ids = client_ids params;
        catalogs = st.catalogs;
        unresolved = st.unresolved;
        instructions = join "\n\n" st.instructions;
      })

-- An error of `s.Validate`: a validation error is passed on, any other is labelled.
passed_on : Error → Option (List Problem) → Error
passed_on e (some ps) = e
passed_on e none = config_err e

after_validate : List Fields → Result (Unit {0}) → Result GenerateOutput
after_validate messages (err e) = err (passed_on e (as_validation e))
after_validate messages (ok u) =
    ok (record { status = "success"; is_valid = true; messages = messages })

abbrev pub empty_batch : Error
empty_batch = validation (problem "messages" "must contain at least one message" ∷ [])

abbrev pub generate_options : ToolSpec → VersionParams → ToolOptions → ValidateOptions
generate_options s params opts = record {
  version = s.version;
  params = params;
  resolver = opts.resolver;
  strict = opts.strict;
}

-- The handler of `GenerateTool`.
unfoldable pub generate : ToolSpec → ValidateOptions → List Fields → Result GenerateOutput
unfolding after_validate passed_on
generate s vopts [] = err empty_batch
generate s vopts (m ∷ ms) = after_validate (m ∷ ms) (s.validate (m ∷ ms) vopts)

first_inline : List Fields → String
first_inline [] = ""
first_inline (c ∷ cs) = str_at "catalogId" c

-- The variable `example`.
unfoldable pub example_id : List String → List Fields → String
unfolding first_inline
example_id [] inline = first_inline inline
example_id (id ∷ ids) inline = id

-- `functiontool.New`
new_tool :
    {In Out : Type 0}
    → (ToolConfig → Option Error)
    → ToolConfig
    → (In → Result Out)
    → Result (Tool In Out)
new_tool refuses config handler = elim (refuses config) [
  | none ↦ ok (record { config = config; handler = handler })
  | some e ↦ err e
]

abbrev pub CatalogTool : Type 0
CatalogTool = Tool (Unit {0}) CatalogToolOutput

abbrev pub GenerateTool : Type 0
GenerateTool = Tool (List Fields) GenerateOutput

module _ (files : Embedded) (marshal : Fields → Result String) (refuses : ToolConfig → Option Error)
    (s : ToolSpec) (params : VersionParams) (opts : ToolOptions) where
  -- `CatalogTool`
  unfoldable pub catalog_tool : Result CatalogTool
  unfolding new_tool
  catalog_tool =
      new_tool refuses
        (record {
          name = catalog_tool_name;
          description =
              "Returns the A2UI catalogs the client supports: every component, its required and optional properties, allowed values, and available functions, plus authoring instructions and the exact A2UI version string to use. Call this before generate_a2ui_messages whenever you need to build or change UI.";
          input_schema = schema (of_type "object" "") done;
          output_schema = catalog_output_schema;
        })
        (λ input. catalog_output files marshal s params opts)

  -- `GenerateTool`
  unfoldable pub generate_tool : Result GenerateTool
  unfolding new_tool
  generate_tool =
      new_tool refuses
        (record {
          name = generate_tool_name;
          description =
              describe s.version s.message_keys s.notes
                (example_id params.supported_catalog_ids params.inline_catalogs);
          input_schema =
              schema (record no_keywords { type_name = "object"; required = "messages" ∷ [] })
                (part (property "messages") s.envelope done);
          output_schema = generate_output_schema s.envelope;
        })
        (generate s (generate_options s params opts))

  -- `Tools`
  unfoldable pub tools : Result (CatalogTool × GenerateTool)
  tools = catalog_tool >>= λ c. generate_tool >>= λ g. ok (c, g)
