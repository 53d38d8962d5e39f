-- ===== src/Samples/Warnings.antt =====
-- The theorems on the testing form and on the warnings, at the sample ruleset.
use pico_engine.Base.{List, String, ◌≡◌, ◌↔◌, true, false, [], ◌∷◌, none, some, map, has, is_proto}
use pico_engine.Ast.{scalar, attr, DocComment, Ruleset, absent}
use pico_engine.Derive.Entries.{Entry, Attr}
use pico_engine.Schema.Index.{Peer}
use pico_engine.Schema.Build.{Operation}
use pico_engine.Testing.{test_events}
use pico_engine.Testing.Firsts.{event_of, firsts, candidates, test_events-firsts}
use pico_engine.Lint.Types.{Source, two_or_more, conflicts_of}
use pico_engine.Lint.Types.Conflicts.{Disagree, conflicts_of-Disagree}
use pico_engine.Samples.{global_block, rules}

abbrev hello_entry : Entry
hello_entry = record {
  domain = some "echo";
  name = some "hello";
  constraints = [];
  derived_attrs = [];
  sequence = none;
  select_where_flag = false;
}

abbrev operation_named : String → Operation
operation_named name = record {
  rule = name;
  description = "says hello";
  entry = hello_entry ∷ hello_entry ∷ [];
  select_text = none;
  condition_text = none;
  prechecks = [];
  attrs = [];
  emits = [];
  also_selected_by = [];
  examples = ("Ann", ("who", scalar "\"Ann\"") ∷ []) ∷ [];
}

test_events-firsts_example :
    test_events (operation_named "answer" ∷ operation_named "record_it" ∷ [])
    ≡ map event_of
        (firsts (candidates (operation_named "answer" ∷ operation_named "record_it" ∷ [])))
test_events-firsts_example =
    test_events-firsts (operation_named "answer" ∷ operation_named "record_it" ∷ [])

abbrev answer_doc : DocComment
answer_doc = record {
  description = "answers";
  tags = attr "size" (some "Number") false none ∷ [];
  unknown_tags = [];
}

abbrev sample : Ruleset
sample = record {
  rid = "sample";
  version = absent;
  meta = [];
  global = global_block;
  rules = rules;
}

abbrev other_rule : Peer
other_rule = record { rule = "record_it"; select_text = none; condition_text = none }

abbrev size_as : String → Attr
size_as type = record {
  name = "size";
  kind = type;
  required = true;
  description = none;
  pattern = none;
}

abbrev two_sources : List Source
two_sources = ("answer", size_as "Number" ∷ []) ∷ ("record_it", size_as "String" ∷ []) ∷ []

conflicts_of-Disagree_example :
    (has "size" (conflicts_of two_sources) ≡ true)
    ↔ ((two_or_more two_sources ≡ true) × (is_proto "size" ≡ false) × Disagree "size" two_sources)
conflicts_of-Disagree_example = conflicts_of-Disagree two_sources "size"
