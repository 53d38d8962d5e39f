-- ===== src/Samples/Picos.antt =====
-- A pico with two rulesets, and the witnesses of the properties of its schema.
use pico_engine.Base.{
  String, Bool, true, false, ◌≡◌, ◌↔◌, refl, ◌==◌, List, [], ◌∷◌, Option, some, none, In, IsNodup,
  or_else, keys, lookup, insert,
}
use pico_engine.Generate.{join}
use pico_engine.PicoSchema.Types.{
  SchemaAttr, SchemaOperation, RulesetSchema, EventSource, PicoEvent, PicoQuery, entry_key,
}
use pico_engine.PicoSchema.Merge.{
  Schemas, merge_pico_schema, merge_schemas, merge_operations, merge_entries, merge_entry, merge_at,
  event_of, new_event, merge_event, examples_for_op, text_or, by_name_of, merge_attrs_into,
  merged_attr, previous, merge_attr_entry,
}
use pico_engine.PicoSchema.Sources.{event_key, sources_with}
use pico_engine.PicoSchema.Events.{merge_pico_schema-sources}
use pico_engine.PicoSchema.Channel.{
  Installed, GetCached, Policies, ChannelConfig, channel_schema_for_eci,
}
use pico_engine.PicoSchema.Installations.{HasQuery, HasEntry}
use pico_engine.PicoSchema.Allowed.{AllowsEvent, AllowsQuery, channel_schema_for_eci-allowed}
use pico_engine.PicoSchema.Outcomes.{RuleOutcome, annotated_rule_outcomes_for_event}
use pico_engine.PicoSchema.Selected.{annotated, unselected, outcome_at, outcome_keys}
use pico_engine.PicoSchema.Firsts.{annotated_rule_outcomes-firsts}

abbrev name_attr : Option String → Bool → SchemaAttr
name_attr type required = record {
  name = "name";
  type = type;
  required = required;
  description = none;
  pattern = none;
}

abbrev operation : String → List SchemaAttr → SchemaOperation
operation rule attrs = record {
  rule = rule;
  description = none;
  select = none;
  entry =
      record { domain = some "echo"; name = some "hello"; constraints = [] }
      ∷ record { domain = none; name = none; constraints = [] }
      ∷ [];
  attrs = attrs;
  examples = [];
}

abbrev schema_of : List SchemaOperation → RulesetSchema
schema_of operations = record { description = none; operations = operations; queries = [] }

abbrev first_schema : RulesetSchema
first_schema = schema_of (operation "greet" (name_attr none true ∷ []) ∷ [])

abbrev second_schema : RulesetSchema
second_schema = schema_of (operation "answer" (name_attr (some "String") false ∷ []) ∷ [])

abbrev schemas : Schemas
schemas = ("io.first", first_schema) ∷ ("io.second", second_schema) ∷ []

abbrev hello_event : PicoEvent
hello_event = record {
  domain = "echo";
  name = "hello";
  constraints = [];
  attrs = name_attr (some "String") false ∷ [];
  description = none;
  sources =
      record { rid = "io.first"; rule = "greet" }
      ∷ record { rid = "io.second"; rule = "answer" }
      ∷ [];
  examples = [];
}

merged_events : (merge_pico_schema schemas).events ≡ hello_event ∷ []
unfolding merge_pico_schema merge_schemas merge_operations merge_entries merge_entry merge_at
    event_of new_event merge_event examples_for_op text_or by_name_of merge_attrs_into merged_attr
    previous merge_attr_entry lookup insert entry_key join
merged_events = refl

merge_pico_schema-sources_example :
    ((ev : PicoEvent)
      → In ev (merge_pico_schema schemas).events
      → ev.sources ≡ sources_with (event_key ev) schemas)
    × ((key : String) (source : EventSource)
        → In source (sources_with key schemas)
        → (ev : PicoEvent) × In ev (merge_pico_schema schemas).events × (event_key ev ≡ key))
merge_pico_schema-sources_example = merge_pico_schema-sources schemas

abbrev installed : Installed
installed = ("io.first", some "u:1") ∷ ("io.second", some "u:2") ∷ ("io.plain", none) ∷ []

cached : GetCached
cached url =
    or_else (lookup url (("u:1", some first_schema) ∷ ("u:2", some second_schema) ∷ [])) none

-- Policies that list the names they allow.
abbrev by_name : Policies
by_name = record {
  EventPolicy = String;
  QueryPolicy = String;
  no_event_rules = "";
  no_query_rules = "";
  allows_event_policy = λ policy domain name. policy == name;
  allows_query_policy = λ policy rid name. policy == name;
}

abbrev channels : String → ChannelConfig by_name
channels eci = record { event_policy = some "hello"; query_policy = none }

channel_schema_for_eci-allowed_example :
    (let seen = channel_schema_for_eci by_name installed cached channels "eci" in
      let channel = channels "eci" in
      ((q : PicoQuery)
        → In q seen.queries
          ↔ (HasQuery installed cached q × AllowsQuery by_name channel q.rid q.query.name))
      × ((ev : PicoEvent)
          → In ev seen.events
          → AllowsEvent by_name channel ev.domain ev.name
            × HasEntry installed cached ev.domain ev.name ev.constraints)
      × ((d n : String) (c : List String)
          → HasEntry installed cached d n c
          → (ev : PicoEvent) × (event_key ev ≡ entry_key d n c)
            × (In ev seen.events ↔ AllowsEvent by_name channel ev.domain ev.name)))
channel_schema_for_eci-allowed_example =
    channel_schema_for_eci-allowed by_name installed cached channels "eci"

abbrev runtime : List RuleOutcome
runtime =
    record { rid = "io.plain"; rule = "log"; status = "fired"; select = none }
    ∷ record { rid = "io.first"; rule = "greet"; status = "selected"; select = none }
    ∷ record { rid = "io.first"; rule = "greet"; status = "fired"; select = none }
    ∷ []

annotated_rule_outcomes-firsts_example :
    (let outcomes =
        annotated_rule_outcomes_for_event (λ a b. false) installed cached "echo" "hello" runtime in
      IsNodup (outcome_keys outcomes)
      × ((key : String)
          → outcome_at key outcomes
            ≡ or_else
                (outcome_at key (annotated installed cached runtime))
                (outcome_at key (unselected installed cached "echo" "hello" (keys installed)))))
annotated_rule_outcomes-firsts_example =
    annotated_rule_outcomes-firsts (λ a b. false) installed cached "echo" "hello" runtime
