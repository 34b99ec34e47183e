-- ===== src/Lib.antt =====
-- A2UI for the ADK: agents that describe user interfaces by messages, in Go.
--
-- The program validates the messages that an agent sends to a renderer, decodes those that the
-- renderer sends back, and answers its calls. A capabilities document says which versions and
-- catalogs a client has; validation resolves each catalog that a message names, checks the message
-- against a JSON Schema that is compiled for it, then the rules that the specification states in
-- prose, and returns one list of problems that a model can act on.
--
-- Which file is about which part:
--   Common: shared names; Common/Lists has `contains` and Go's maps, Common/Text `%d`, `%q` and the
--     order of strings, Common/Sort the stable sort of package sort.
--   Json: values of encoding/json and of `any`. A map is the list of its entries in the order in
--     which a loop over it meets them, each key once.
--   Kit: kit/problem.go (Problem), Go's errors (Error), kit/capabilities.go (ParseCapabilities,
--     parseParams, Negotiate, the context's document), kit/catalog.go (Registry, Chain),
--     kit/agent.go, kit/options.go.
--   Spec: spec/spec.go. What it reads from embedded files is the record `Embedded`.
--   Render: internal/render/render.go.
--   Schema: internal/schema. Paths has renderPath, JoinPath, pathTokens and naturalLess; Finalize
--     has Finalize; Rules has FirstCreateIndex and UsedBeforeCreate; Resolve has ResolveCatalog;
--     Inbound has InboundPrecheck. Format has Format, with
--     the walk over the validator's errors: Format/Plan is what one round of walk and walkOneOf
--     decides, Format/Plan/Said says it kind by kind, Format/Laws/Found has the rules by which a line
--     is to be found in an error, and Format/Text the functions on texts. Catalog has withUnions and the unions that it
--     derives. Engine is what validation asks of an engine. Cache is the engine's bounded cache of
--     compiled schemas, with lookup and store: Cache/Laws is about the caches that any sequence of
--     them reaches, Cache/Recency states what the cache promises, a list that forgets what was used
--     least recently, and Compile has Compile, CompileRef, For, their keys, the loader and goRegexp:
--     Compile/Keys is about the keys, Compile/Answers about what calls in any order answer, and
--     Compile/Whole about calls whose catalogs have digests of their own. The loop that evicts runs
--     on fuel, the length of the list: each round removes an element. Passes has what
--     the passes of both versions over the catalogs share; Passes/Steps relates a step to what it
--     accepts.
--     Decoding has the loop that decodeRendererMessages and decodeClientMessages share;
--     Decoding/Exact relates its messages to what they were decoded from.
--   V10: v10. Rules has checkList and semanticRules, and Rules/Spec what the specification asks of a
--     batch; Callers, Message and Dispatch have callers.go, renderer_message.go and dispatch.go.
--     Validate and Decode have validate.go and decode.go; Validate/Pass says what the pass over the
--     catalogs accepts, without its variables, Decode/Accepts which messages pass the checks of a
--     round, and Dispatch/Valid puts the messages that the agent builds to validation. Tools has
--     v10/tools.
--   V09: v09. Message, Rules, Validate and Decode have client_message.go, rules.go, validate.go and
--     decode.go; Rules/Spec is what the specification of v0.9 asks of a batch. Tools has v09/tools.
--   Toolkit: internal/toolkit. Types and Tools have types.go and tools.go, Description has
--     description.go, and JsonSchema the schemas that describe a tool to the model.
--   Toolset: a2ui.go, with its options, and the tools of a turn. Single compares it with the
--     toolsets of v09/tools and v10/tools; Specs is about the schemas of both.
--   Examples: concrete runs.
--
-- Conventions. A function that returns an error returns a `Result`; a loop that appends to a list
-- is a recursion that returns what it appends; a lock makes its section one step. A Go map that is
-- only read and written by key is an association list whose newest entry comes first. Numbers are
-- natural numbers, since every index and length is an `int` that is not negative; `strconv.Atoi`
-- keeps its sign and its 64 bits. The loop of `pathTokens` runs on fuel, the number of characters:
-- each round takes one at least. The decimal print of an index has 20 digits of fuel, and an `int`
-- has at most 19.
--
-- Not modelled: the JSON Schema library, the embedded files and their download, and the
-- ADK, which declares and runs the tools. A function of a library
-- that can fail is a parameter that returns a `Result`, and the reads of embedded files are the
-- record `Files`. What goRegexp rewrites goes to a parameter; when the JSON Schema library calls it
-- is the library's business. The digest of a catalog is a parameter, and that it tells the catalogs
-- of a process apart is a hypothesis. A first character from U+0080 on is kept whole where Go slices
-- its first byte (lowerFirst), and `%q` keeps every such character. A copy through JSON keeps number
-- literals as they are written, where Go reads them as float64.
pub mod Common
pub mod Json
pub mod Kit
pub mod Spec
pub mod Render
pub mod Schema
pub mod V09
pub mod V10
pub mod Toolkit
pub mod Toolset
pub mod Examples
