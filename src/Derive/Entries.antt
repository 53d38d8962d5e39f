-- ===== src/Derive/Entries.antt =====
-- deriveSchema.js, `entryFromEventExpression`, `entriesFromSelect` and `entryKey`: the events
-- that select a rule, each with its key.
pub mod Leaves
use Prim.Native.String.{◌++◌ as ◌<>◌}
use pico_engine.Base.{
  String, Bool, true, false, ◌==◌, if◌then◌else◌, List, [], ◌∷◌, ◌++◌, Option, none, some, map,
  truthy,
}
use pico_engine.Ast.{
  Node, Nodes, nil, cons, absent, regexp, event_expression, attribute_match, event_operator,
  event_group_operator, select_when, select_where,
}
use pico_engine.Generate.{generate, trim, json_string, join, cat}
use pico_engine.Derive.Where.{Constraint, const, pattern_of, constraints_from_where}

-- An attribute in a schema, with its pattern where the select gives one.
pub record Attr : Type 0 where
  pub name : String
  pub kind : String
  pub required : Bool
  pub description : Option String
  pub pattern : Option String

-- `attrs.map(a => a.name)`
unfoldable pub attr_names : List Attr → List String
attr_names [] = []
attr_names (a ∷ as') = a.name ∷ attr_names as'

-- `domain` and `name` are null for an entry that is no single event.
pub record Entry : Type 0 where
  pub domain : Option String
  pub name : Option String
  pub constraints : List Constraint
  pub derived_attrs : List Attr
  pub sequence : Option (String × String)
  pub select_where_flag : Bool

-- `gen` of deriveSchema.js: the text of a node, without white space at its ends.
unfoldable pub gen_text : Node → String
unfolding trim
gen_text n = trim (generate n)

-- The source of a regular expression is never empty.
unfoldable pub pattern_source : Node → Option String
pattern_source (regexp source g i) = some source
pattern_source _ = none

unfoldable pub match_constraints : Nodes → List Constraint
unfolding pattern_source
match_constraints nil = []
match_constraints (cons (attribute_match key value) ns) = elim (pattern_source value) [
  | none ↦ match_constraints ns
  | some p ↦ pattern_of key p ∷ match_constraints ns
]
match_constraints (cons _ ns) = match_constraints ns

unfoldable pub match_attrs : Nodes → List Attr
unfolding pattern_source
match_attrs nil = []
match_attrs (cons (attribute_match key value) ns) =
    record {
      name = key;
      kind = "Any";
      required = true;
      description = none;
      pattern = pattern_source value;
    }
    ∷ match_attrs ns
match_attrs (cons _ ns) = match_attrs ns

-- An entry that stands for a combination of events, by its operator and its text.
abbrev pub sequence_entry : String → String → Entry
sequence_entry op text = record {
  domain = none;
  name = none;
  constraints = [];
  derived_attrs = [];
  sequence = some (op, text);
  select_where_flag = false;
}

unfoldable mutual
  unfolding match_constraints match_attrs gen_text

  pub entry_from_event_expression : Node → List Entry
  entry_from_event_expression (event_expression domain type attrs setting wh aggregator) =
      record {
        domain = some domain;
        name = some type;
        constraints = constraints_from_where wh ++ match_constraints attrs;
        derived_attrs = match_attrs attrs;
        sequence = none;
        select_where_flag = false;
      }
      ∷ []
  entry_from_event_expression (event_operator op args) =
      let each = entries_from_args args in
      if op == "or" then each else sequence_entry op (gen_text (event_operator op args)) ∷ []
  entry_from_event_expression (event_group_operator op n event) =
      sequence_entry op (gen_text (event_group_operator op n event)) ∷ []
  entry_from_event_expression _ = []

  pub entries_from_args : Nodes → List Entry
  entries_from_args nil = []
  entries_from_args (cons a as') = entry_from_event_expression a ++ entries_from_args as'

unfoldable pub entries_from_select : Node → List Entry
entries_from_select (select_where e) =
    record {
      domain = none;
      name = none;
      constraints = [];
      derived_attrs = [];
      sequence = none;
      select_where_flag = true;
    }
    ∷ []
entries_from_select (select_when event within) = entry_from_event_expression event
entries_from_select _ = []

-- `JSON.stringify` of a constraint.
unfoldable pub json_constraint : Constraint → String
json_constraint (const attr value) = cat (
    "{\"attr\":" ∷ json_string attr ∷ ",\"op\":\"const\",\"value\":" ∷ json_string value ∷ "}" ∷ [])
json_constraint (pattern_of attr pattern) = cat (
    "{\"attr\":"
    ∷ json_string attr
    ∷ ",\"op\":\"pattern\",\"pattern\":"
    ∷ json_string pattern
    ∷ "}"
    ∷ [])

unfoldable pub json_constraints : List Constraint → String
unfolding json_constraint
json_constraints cs = cat ("[" ∷ join "," (map json_constraint cs) ∷ "]" ∷ [])

-- The key of the two names and the constraints; `none` where a name is null or empty.
unfoldable pub key_of : Option String → Option String → List Constraint → Option String
unfolding json_constraints
key_of (some d) (some n) cs = some (cat (d ∷ ":" ∷ n ∷ ":" ∷ json_constraints cs ∷ []))
key_of _ _ cs = none

unfoldable pub entry_key : Entry → Option String
unfolding key_of
entry_key e = key_of (truthy e.domain) (truthy e.name) e.constraints
