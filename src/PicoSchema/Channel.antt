-- ===== src/PicoSchema/Channel.antt =====
-- pico-engine-core/src/picoSchema.ts: the schemas of a pico's installed rulesets, and the part of
-- the pico's schema that a channel may see. The policies of pico-framework are arguments, and so is
-- the registry, which gives the schema of a cached ruleset by its url.
use pico_engine.Base.{
  String, Bool, true, ◌&&◌, if◌then◌else◌, List, [], ◌∷◌, Option, none, some, lookup, keys,
}
use pico_engine.PicoSchema.Types.{RulesetSchema, PicoEvent, PicoQuery, PicoSchema}
use pico_engine.PicoSchema.Merge.{Schemas, merge_pico_schema}

-- The installed rulesets: each rid with its `config.url`, where that is a string.
abbrev pub Installed : Type 0
Installed = List (String × Option String)

-- `getCached(url)`, and the cached ruleset's `rulesetSchema`.
abbrev pub GetCached : Type 0
GetCached = String → Option (Option RulesetSchema)

unfoldable pub ruleset_schema_for_installed : Installed → GetCached → String → Option RulesetSchema
ruleset_schema_for_installed installed get_cached rid = elim (lookup rid installed) [
  | none ↦ none
  | some config ↦ elim config [
    | none ↦ none
    | some url ↦ elim (get_cached url) [ none ↦ none | some schema ↦ schema ]
  ]
]

-- The loop over the keys of `pico.rulesets`.
unfoldable pub schemas_for : Installed → GetCached → List String → Schemas
schemas_for installed get_cached [] = []
schemas_for installed get_cached (rid ∷ rids) =
    let rest = schemas_for installed get_cached rids in
    elim (ruleset_schema_for_installed installed get_cached rid) [
      | none ↦ rest
      | some schema ↦ (rid, schema) ∷ rest
    ]

unfoldable pub all_ruleset_schemas_for_pico : Installed → GetCached → Schemas
unfolding schemas_for
all_ruleset_schemas_for_pico installed get_cached =
    schemas_for installed get_cached (keys installed)

unfoldable pub build_pico_schema : Installed → GetCached → PicoSchema
build_pico_schema installed get_cached =
    merge_pico_schema (all_ruleset_schemas_for_pico installed get_cached)

unfoldable pub filter : {A : Type 0} → (A → Bool) → List A → List A
filter p [] = []
filter p (x ∷ xs) = let rest = filter p xs in if p x then x ∷ rest else rest

-- What the code uses of pico-framework: the two kinds of policies, the empty ones, which stand for
-- a policy that a channel does not have, and whether a policy allows an event or a query.
pub record Policies : Type 1 where
  pub EventPolicy : Type 0
  pub QueryPolicy : Type 0
  pub no_event_rules : EventPolicy
  pub no_query_rules : QueryPolicy
  pub allows_event_policy : EventPolicy → String → String → Bool
  pub allows_query_policy : QueryPolicy → String → String → Bool

module _ (policies : Policies) where
  pub record ChannelConfig : Type 0 where
    pub event_policy : Option policies.EventPolicy
    pub query_policy : Option policies.QueryPolicy

  abbrev pub allowed_event : ChannelConfig → PicoEvent → Bool
  allowed_event channel ev = elim channel.event_policy [
    | none ↦ policies.allows_event_policy policies.no_event_rules ev.domain ev.name
    | some policy ↦ policies.allows_event_policy policy ev.domain ev.name
  ]

  abbrev pub allowed_query : ChannelConfig → PicoQuery → Bool
  allowed_query channel q = elim channel.query_policy [
    | none ↦ policies.allows_query_policy policies.no_query_rules q.rid q.query.name
    | some policy ↦ policies.allows_query_policy policy q.rid q.query.name
  ]

  unfoldable pub filter_pico_schema_for_channel :
      PicoSchema → ChannelConfig → (String → Bool) → PicoSchema
  unfolding filter
  filter_pico_schema_for_channel schema channel rid_for_query = record schema {
    events = filter (allowed_event channel) schema.events;
    queries = filter (λ q. rid_for_query q.rid && allowed_query channel q) schema.queries;
  }

  unfoldable pub channel_schema_for_eci :
      Installed → GetCached → (String → ChannelConfig) → String → PicoSchema
  unfolding filter_pico_schema_for_channel
  channel_schema_for_eci installed get_cached lookup_channel eci =
      filter_pico_schema_for_channel (build_pico_schema installed get_cached) (lookup_channel eci)
        (λ rid. true)
