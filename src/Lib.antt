-- ===== src/Lib.antt =====
-- What pico-engine tells about a ruleset without running it: the tokens of its source, the schema
-- of its annotated rules and functions, the printer of syntax trees that the schema's texts come
-- from, and the modules that it uses; and of the engine's core, the schema of a pico, the scheduler
-- of events, the channel ids in an imported state, and a ruleset's state moved to another pico.
--
-- krl-parser cuts a source text into tokens, reads the doc comments among them and makes a syntax
-- tree of the rest. krl-compiler derives a schema from the tree: for each active rule with a doc
-- comment an operation, with the events that select it, the attributes that it takes, the functions
-- that a caller can query before it raises the event (prechecks), the events and actions that the
-- rule may send (emits), and the other rules that the same event selects; for each shared function
-- with a doc comment a query, with its arguments. rulesetSchemaToTesting.js turns a schema into an
-- older form, annotationLint.js compares the doc comments with it and warns. deriveSchema.js and
-- deriveEmits.js read single rules, rulesetSchema.js puts the schema together. Conditions and
-- selections stand in the schema as text, which krl-generator prints.
--
-- Paths below are from packages/.
--   Ast: krl-parser/src/types.ts, the nodes, and `walk` of deriveEmits.js and annotationLint.js.
--   Generate: krl-generator/src/index.js and src/g. `generate` is `generate`, the printers are the
--     clauses of `gen` with the functions of Pieces and Events.
--   Derive: krl-compiler/src/deriveSchema.js. Where has `constraintsFromWhere`, Entries
--     `entriesFromSelect` and `entryKey`, Globals `resolveGlobalFunction`, Reads
--     `derivedAttrNamesFromRule`, Attrs `mergeAttrs`.
--   Emits: krl-compiler/src/deriveEmits.js. Statements has `walkPostludeStmts`, Rules
--     `deriveEmitsFromRule`, Prechecks `traceToEventAttr` and `sharedFunctionParams`, Conditions
--     `prechecksFromCondition`.
--   Schema: krl-compiler/src/rulesetSchema.js. Docs has the readers of `meta` and of doc comments,
--     Queries the loop over `shares`, Index `entryIndex` and `alsoSelectedBy`, Build
--     `buildRulesetSchema`.
--   Testing: krl-compiler/src/rulesetSchemaToTesting.js, the older form of the schema; `push_event`
--     is the test of `seen` with the push to `events`.
--   Lint: krl-compiler/src/annotationLint.js. Attrs has `lintUnusedDocAttrs`, Names the checks of
--     names and tags, Types `lintSameRulesetAttrTypeConflicts`.
--   Compile: krl-compiler/src/compile.js, the schema part of `compileRulesetAst`; EventScope has
--     `eventScope`, Parameters the checks of src/c/Parameters.js, Declarations the two passes of
--     src/utils/declarationBlock.js, with the compilation of one declaration as an argument. Check
--     is src/check.js, with the parser and the compiler as arguments.
--   Lexer: krl-parser/src/tokenizer.ts. Scan has `addToBuffer` and the tests of the next character,
--     State the variables that the closures share, Step a round of the main loop with one function
--     for each branch, and the loop.
--   Parser: krl-parser/src/tdop.ts and the expressions of krl.ts. Rules has the table `rules`,
--     State `advanceBase`, Chomps the functions that take a token, Values the texts of literals,
--     Expressions `expression` with the rules' functions, a `nud` being run by `run_nud` and a
--     `led` by `run_led`. Forms writes expressions out; Written, Places, Openings and RoundTrip
--     read them back, Fuel and Whole do it for a list of tokens; Settled and Termination count the
--     calls. `parseFloat` and the errors of `new RegExp` are arguments.
--   DocComments: krl-parser/src/docComment.ts. Split has `splitRest`, Tags a function for each tag,
--     Parse `parseDocComment`; `JSON.parse` of an example's attributes is an argument.
--   PicoSchema: pico-engine-core/src/picoSchema.ts and ruleOutcomes.ts. Merge has
--     `mergePicoSchema`, Channel `channelSchemaForEci` with the functions it calls, Outcomes
--     `annotatedRuleOutcomesForEvent`; Origins, Installations and Allowed follow a query and an event
--     from an installed ruleset to what a channel sees. The policies of pico-framework, the registry
--     and the order of `localeCompare` are arguments.
--   Scheduler: pico-engine-core/src/modules/schedule.ts. State has `class Scheduler`, a handler
--     being known by its job's id and a timer by its time; Entity has the schedule module of a
--     ruleset, with the handlers that `addScheduledEvent` makes (`run_job`) and a value that may be
--     a promise that is not awaited (`Held`).
--   Aggregates: krl-stdlib/src/aggregateEvent.ts; Pairs has the lemmas on one call, Window those on
--     a run of calls. Numbers, and lodash's functions on them, are an argument.
--   RulesetState: pico-engine-core/src/rulesetState.ts and rulesetStateCrypto.ts. Crypto has the
--     envelope, Moves the export and the import; Sealing has the laws of Node's crypto and of JSON
--     that are assumed. The registry and the installation are arguments.
--   EciRemap: pico-engine-core/src/eciRemap.ts.
--   Modules: pico-engine-core/src/moduleDependencies.ts, whole, in Graph.
--   Mcp: pico-engine/mcp/schemaToZod.js, the input shape of a tool made from a schema; which
--     patterns `new RegExp` accepts is an argument, and lower case is that of ASCII.
--   Base has what these share: a JavaScript object used as a dictionary is a list of keys and
--     values in the order of insertion, a set is a list of names.
--   Samples has a small ruleset and the results below at concrete inputs.
--
-- State. A loop that fills an object or a set passes it on as an argument; `out.push` is a result
-- list. A node that may be missing is `absent`, a compile error is `err` with its message.
--
-- Bounds. The `while` loop of `resolveGlobalFunction` has fuel for one round more than there are
-- global names, which is always enough, since no name comes up twice. `traceToEventAttr` counts its
-- depth itself: thirteen levels are the depths 0 to 12. The main loop of the tokenizer has the
-- source's length as fuel, the expression parser eight calls for each token (at most four nest
-- before a token is taken), and `dfs` one more than the number of keys. All else is recursion on
-- the tree.
--
-- Objects. `o[k]` of a plain object is truthy for the names of Object.prototype, which Base lists
-- (`proto_names`), and the model follows the code there. Outside the model are the key `__proto__`,
-- and keys that look like array indices, which JavaScript lists first; with them the order of an
-- object's values can differ, the values do not.
--
-- Texts. A character is one UTF-16 unit; characters outside the basic plane are not modelled.
--
-- Left out: source locations; the values inside a doc comment, which `walk` visits too; the
-- printers of whole rulesets and of `meta`; `schemaBindingsFromRuleset`,
-- `collectRuntimeRuleOutcomes` and `secretsEqual`. The values of an `@example` are kept by their
-- JSON text. The code generator with the other checks of compile.js and of src/c, the grammar of
-- events, actions, statements and rulesets in krl-parser, `defaction`, the rest of krl-stdlib and
-- of the engine and the user interfaces are not modelled.
pub mod Base
pub mod Ast
pub mod Generate
pub mod Derive
pub mod Emits
pub mod Schema
pub mod Testing
pub mod Lint
pub mod Compile
pub mod Mcp
pub mod Lexer
pub mod Parser
pub mod Modules
pub mod PicoSchema
pub mod Scheduler
pub mod EciRemap
pub mod DocComments
pub mod Aggregates
pub mod RulesetState
pub mod Samples
