-- ===== src/PicoSchema/Merge.antt =====
-- pico-engine-core/src/picoSchema.ts: mergePicoSchema, the schema of all rulesets of a pico.
use pico_engine.Base.{
  String, false, ◌&&◌, ◌==◌, if◌then◌else◌, List, [], ◌∷◌, ◌++◌, Option, none, some, truthy,
  or_else, lookup, insert, values, is_proto,
}
use pico_engine.PicoSchema.Types.{
  SchemaAttr, SchemaExample, EntryRef, SchemaOperation, SchemaQuery, RulesetSchema, EventSource,
  EventExample, PicoEvent, Conflict, PicoQuery, PicoSchema, entry_key,
}

unfoldable pub examples_for_op : String → String → List SchemaExample → List EventExample
examples_for_op rid rule [] = []
examples_for_op rid rule (ex ∷ exs) =
    record { rid = rid; rule = rule; name = ex.name; attrs = ex.attrs }
    ∷ examples_for_op rid rule exs

-- `a || b` for texts that may be missing or empty.
unfoldable pub text_or : Option String → Option String → Option String
text_or a b = elim (truthy a) [ none ↦ b | some s ↦ some s ]

abbrev type_or_any : Option String → String
type_or_any t = elim (truthy t) [ none ↦ "Any" | some s ↦ s ]

unfoldable pub merge_attr_entry : SchemaAttr → SchemaAttr → SchemaAttr
unfolding text_or
merge_attr_entry existing incoming = record {
  name = existing.name;
  type = text_or existing.type (text_or incoming.type (some "Any"));
  required = existing.required && incoming.required;
  description = text_or existing.description incoming.description;
  pattern = text_or existing.pattern incoming.pattern;
}

abbrev pub ByName : Type 0
ByName = List (String × SchemaAttr)

-- What `byName[name]` is where every object inherits a function of that name: only its `name` is
-- a property that an attribute has too.
abbrev pub inherited : String → SchemaAttr
inherited name = record {
  name = if name == "constructor" then "Object" else name;
  type = none;
  required = false;
  description = none;
  pattern = none;
}

-- `byName[name]`
unfoldable pub previous : String → ByName → Option SchemaAttr
previous name m = or_else (lookup name m) (if is_proto name then some (inherited name) else none)

unfoldable pub by_name_of : List SchemaAttr → ByName → ByName
by_name_of [] m = m
by_name_of (a ∷ as') m = by_name_of as' (insert a.name a m)

-- The attribute that is kept for an incoming one.
unfoldable pub merged_attr : SchemaAttr → ByName → SchemaAttr
unfolding previous
merged_attr a m = elim (previous a.name m) [ none ↦ a | some prev ↦ merge_attr_entry prev a ]

unfoldable pub merge_attrs_into : List SchemaAttr → ByName → ByName
unfolding merged_attr
merge_attrs_into [] m = m
merge_attrs_into (a ∷ as') m = merge_attrs_into as' (insert a.name (merged_attr a m) m)

-- The conflicts of the same loop, for an entry's domain, name and constraints, the event's first
-- source and the operation's.
unfoldable pub attr_conflicts :
    (String × String × List String)
    → EventSource
    → EventSource
    → List SchemaAttr
    → ByName
    → List Conflict
unfolding previous merged_attr
attr_conflicts entry first source [] m = []
attr_conflicts entry first source (a ∷ as') m =
    let rest = attr_conflicts entry first source as' (insert a.name (merged_attr a m) m) in
    elim (previous a.name m) [
      | none ↦ rest
      | some prev ↦
          if type_or_any prev.type == type_or_any a.type
          then rest
          else record {
            domain = entry.0;
            name = entry.1;
            constraints = entry.2;
            attr = a.name;
            types = (type_or_any prev.type, first) ∷ (type_or_any a.type, source) ∷ [];
          }
            ∷ rest
    ]

-- `eventEntry.sources[0]`, once the source is pushed.
abbrev pub first_source : List EventSource → EventSource → EventSource
first_source [] source = source
first_source (s ∷ ss) source = s

unfoldable pub new_event : String → SchemaOperation → String → String → List String → PicoEvent
new_event rid op domain name constraints = record {
  domain = domain;
  name = name;
  constraints = constraints;
  attrs = op.attrs;
  description = op.description;
  sources = record { rid = rid; rule = op.rule } ∷ [];
  examples = examples_for_op rid op.rule op.examples;
}

unfoldable pub merge_event : String → SchemaOperation → PicoEvent → PicoEvent
unfolding merge_attrs_into by_name_of
merge_event rid op ev = record ev {
  description = text_or ev.description (text_or op.description ev.description);
  sources = ev.sources ++ (record { rid = rid; rule = op.rule } ∷ []);
  examples = ev.examples ++ examples_for_op rid op.rule op.examples;
  attrs = values (merge_attrs_into op.attrs (by_name_of ev.attrs []));
}

unfoldable pub event_conflicts :
    String → SchemaOperation → (String × String × List String) → PicoEvent → List Conflict
unfolding attr_conflicts by_name_of
event_conflicts rid op entry ev =
    let source : EventSource = record { rid = rid; rule = op.rule } in
    attr_conflicts entry (first_source ev.sources source) source op.attrs (by_name_of ev.attrs [])

-- `eventMap` and `conflicts`
pub record Merging : Type 0 where
  pub event_map : List (String × PicoEvent)
  pub conflicts : List Conflict

unfoldable pub merge_at :
    String → SchemaOperation → String → String → List String → Merging → Merging
merge_at rid op domain name constraints st =
    let key = entry_key domain name constraints in
    elim (lookup key st.event_map) [
      | none ↦ record st {
        event_map = insert key (new_event rid op domain name constraints) st.event_map;
      }
      | some ev ↦ record {
        event_map = insert key (merge_event rid op ev) st.event_map;
        conflicts = st.conflicts ++ event_conflicts rid op (domain, name, constraints) ev;
      }
    ]

-- An entry counts that has a domain and a name.
unfoldable pub event_of : EntryRef → Option (String × String)
event_of ent = elim (truthy ent.domain) [
  | none ↦ none
  | some domain ↦ elim (truthy ent.name) [ none ↦ none | some name ↦ some (domain, name) ]
]

unfoldable pub merge_entry : String → SchemaOperation → EntryRef → Merging → Merging
unfolding merge_at event_of
merge_entry rid op ent st = elim (event_of ent) [
  | none ↦ st
  | some (domain, name) ↦ merge_at rid op domain name ent.constraints st
]

unfoldable pub merge_entries : String → SchemaOperation → List EntryRef → Merging → Merging
merge_entries rid op [] st = st
merge_entries rid op (ent ∷ ents) st = merge_entries rid op ents (merge_entry rid op ent st)

unfoldable pub merge_operations : String → List SchemaOperation → Merging → Merging
merge_operations rid [] st = st
merge_operations rid (op ∷ ops) st = merge_operations rid ops (merge_entries rid op op.entry st)

abbrev pub Schemas : Type 0
Schemas = List (String × RulesetSchema)

unfoldable pub merge_schemas : Schemas → Merging → Merging
merge_schemas [] st = st
merge_schemas ((rid, schema) ∷ ss) st = merge_schemas ss (merge_operations rid schema.operations st)

unfoldable pub queries_of_ruleset : String → List SchemaQuery → List PicoQuery
queries_of_ruleset rid [] = []
queries_of_ruleset rid (q ∷ qs) = record { rid = rid; query = q } ∷ queries_of_ruleset rid qs

unfoldable pub all_queries : Schemas → List PicoQuery
unfolding queries_of_ruleset
all_queries [] = []
all_queries ((rid, schema) ∷ ss) = queries_of_ruleset rid schema.queries ++ all_queries ss

unfoldable pub described : Schemas → List (String × Option String)
described [] = []
described ((rid, schema) ∷ ss) = (rid, schema.description) ∷ described ss

abbrev pub nothing_merged : Merging
nothing_merged = record { event_map = []; conflicts = [] }

unfoldable pub merge_pico_schema : Schemas → PicoSchema
merge_pico_schema schemas =
    let merged = merge_schemas schemas nothing_merged in
    record {
      rulesets = described schemas;
      events = values merged.event_map;
      queries = all_queries schemas;
      conflicts = merged.conflicts;
    }
