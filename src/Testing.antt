-- ===== src/Testing.antt =====
-- packages/krl-compiler/src/rulesetSchemaToTesting.js: the older list of events and queries for
-- the testing form, made from a ruleset's schema.
pub mod Firsts
use Prim.Native.String.{◌++◌ as ◌<>◌}
use pico_engine.Base.{
  String, Bool, true, false, ◌==◌, if◌then◌else◌, List, [], ◌∷◌, ◌++◌, Option, none, some, truthy,
  map, has, keys, insert,
}
use pico_engine.Ast.{Json, scalar, nested, json_null}
use pico_engine.Generate.{json_string, cat}
use pico_engine.Derive.Entries.{Attr, attr_names, Entry}
use pico_engine.Schema.Docs.{Example}
use pico_engine.Schema.Queries.{Query}
use pico_engine.Schema.Build.{Operation, RulesetSchema}

abbrev pub Values : Type 0
Values = List (String × Json)

pub record TestEvent : Type 0 where
  pub domain : String
  pub name : String
  pub attrs : Option (List String)
  pub example_name : Option String
  pub defaults : Option Values

pub record TestQuery : Type 0 where
  pub name : String
  pub args : Option (List String)
  pub example_name : Option String
  pub defaults : Option Values

-- `names.length ? names : undefined`
unfoldable pub listed : List String → Option (List String)
listed [] = none
listed (n ∷ ns) = some (n ∷ ns)

-- The loop over `Object.keys(ex.attrs)`: an array or object becomes the string of its JSON text.
unfoldable pub fill_defaults : Values → Values → Values
fill_defaults [] obj = obj
fill_defaults ((k, scalar s) ∷ vs) obj = fill_defaults vs (insert k (scalar s) obj)
fill_defaults ((k, nested s) ∷ vs) obj = fill_defaults vs (insert k (scalar (json_string s)) obj)
fill_defaults ((k, json_null) ∷ vs) obj = fill_defaults vs obj

-- `Object.keys(defaults).length ? … : …`
unfoldable pub names_or : Values → List String → List String
names_or [] names = names
names_or (d ∷ ds) names = keys (d ∷ ds)

unfoldable pub some_defaults : Values → Option Values
some_defaults [] = none
some_defaults (d ∷ ds) = some (d ∷ ds)

abbrev pub bare_event : String → String → List String → TestEvent
bare_event d n names = record {
  domain = d;
  name = n;
  attrs = listed names;
  example_name = none;
  defaults = none;
}

unfoldable pub example_event : String → String → List String → Example → TestEvent
unfolding listed fill_defaults names_or some_defaults
example_event d n names (ex, values) =
    let defaults = fill_defaults values [] in
    record {
      domain = d;
      name = n;
      attrs = listed (names_or defaults names);
      example_name = truthy (some ex);
      defaults = some_defaults defaults;
    }

-- `seen` and `events`.
abbrev pub State : Type 0
State = List String × List TestEvent

-- `if (seen.has(key)) continue`, or the key is added and the event pushed.
unfoldable pub push_event : String → TestEvent → State → State
push_event key ev (seen, events) =
    if has key seen then (seen, events) else (key ∷ seen, events ++ (ev ∷ []))

unfoldable pub base_key : String → String → String
base_key d n = cat (d ∷ ":" ∷ n ∷ [])

unfoldable pub example_key : String → Example → String
example_key base (ex, values) = cat (base ∷ ":" ∷ ex ∷ [])

unfoldable pub push_examples : String → String → List String → List Example → State → State
unfolding push_event base_key example_key example_event
push_examples d n names [] st = st
push_examples d n names (ex ∷ exs) st =
    push_examples d n names exs
      (push_event (example_key (base_key d n) ex) (example_event d n names ex) st)

-- One entry with a domain and a name.
unfoldable pub push_named : String → String → List String → List Example → State → State
unfolding push_event base_key push_examples
push_named d n names [] st = push_event (base_key d n) (bare_event d n names) st
push_named d n names (ex ∷ exs) st = push_examples d n names (ex ∷ exs) st

-- `if (!ent.domain || !ent.name) continue`
unfoldable pub push_entry :
    Option String → Option String → List String → List Example → State → State
unfolding push_named
push_entry (some d) (some n) names examples st = push_named d n names examples st
push_entry _ _ names examples st = st

unfoldable pub push_entries : List Entry → List String → List Example → State → State
unfolding push_entry
push_entries [] names examples st = st
push_entries (e ∷ es) names examples st =
    push_entries es names examples (push_entry (truthy e.domain) (truthy e.name) names examples st)

unfoldable pub push_operations : List Operation → State → State
unfolding push_entries attr_names
push_operations [] st = st
push_operations (op ∷ ops) st =
    push_operations ops (push_entries op.entry (attr_names op.attrs) op.examples st)

unfoldable pub example_query : String → List String → Example → TestQuery
unfolding listed fill_defaults names_or some_defaults
example_query name names (ex, values) =
    let defaults = fill_defaults values [] in
    record {
      name = name;
      args = listed (names_or defaults names);
      example_name = truthy (some ex);
      defaults = some_defaults defaults;
    }

unfoldable pub query_forms : String → List String → List Example → List TestQuery
unfolding listed example_query
query_forms name names [] =
    record { name = name; args = listed names; example_name = none; defaults = none } ∷ []
query_forms name names (ex ∷ exs) = map (example_query name names) (ex ∷ exs)

unfoldable pub test_queries : List Query → List TestQuery
unfolding query_forms attr_names
test_queries [] = []
test_queries (q ∷ qs) = query_forms q.name (attr_names q.args) q.examples ++ test_queries qs

abbrev pub Testing : Type 0
Testing = List TestEvent × List TestQuery

-- `null` for two empty lists.
unfoldable pub testing_or_null : List TestEvent → List TestQuery → Option Testing
testing_or_null [] [] = none
testing_or_null events queries = some (events, queries)

unfoldable pub test_events : List Operation → List TestEvent
unfolding push_operations
test_events ops = (push_operations ops ([], [])).1

unfoldable pub ruleset_schema_to_testing : Option RulesetSchema → Option Testing
unfolding test_events test_queries testing_or_null
ruleset_schema_to_testing none = none
ruleset_schema_to_testing (some schema) =
    testing_or_null (test_events schema.operations) (test_queries schema.queries)
