-- ===== src/PicoSchema/Allowed.antt =====
-- pico-engine-core/src/picoSchema.ts: what a channel may see of its pico's rulesets.
use pico_engine.Base.{
  String, Bool, true, ◌≡◌, ◌↔◌, refl, ap, sym, ◌∙◌, inl, inr, ◌⊎◌, Bool-cases, List, [], ◌∷◌, none,
  some, Option-cases, In,
}
use pico_engine.PicoSchema.Types.{PicoEvent, PicoQuery, entry_key}
use pico_engine.PicoSchema.Merge.{merge_pico_schema}
use pico_engine.PicoSchema.Channel.{
  Installed, GetCached, all_ruleset_schemas_for_pico, build_pico_schema, filter, Policies,
  ChannelConfig, allowed_event, allowed_query, filter_pico_schema_for_channel,
  channel_schema_for_eci,
}
use pico_engine.PicoSchema.Sources.{event_key}
use pico_engine.PicoSchema.Origins.{events-IsOffered, IsOffered-event, queries-In}
use pico_engine.PicoSchema.Installations.{
  none-some, some-injective, In-all_schemas, HasQuery, HasEntry,
}

In-filter :
    {A : Type 0} (p : A → Bool) (x : A) (xs : List A)
    → In x (filter p xs) ↔ (In x xs × (p x ≡ true))
unfolding filter
In-filter p x xs = (there xs, back xs)
  where
    there : (xs : List _) → In x (filter p xs) → In x xs × (p x ≡ true)
    there [] i = absurd i
    there (y ∷ ys) i = elim (Bool-cases (p y)) [
      | inl e ↦ elim (rw e at i) [
        | inl f ↦ (inl f, ap p f ∙ e)
        | inr j ↦ let (k, h) = there ys j in (inr k, h)
      ]
      | inr e ↦ let (k, h) = there ys (rw e at i) in (inr k, h)
    ]

    back : (xs : List _) → In x xs × (p x ≡ true) → In x (filter p xs)
    back [] (i, h) = i
    back (y ∷ ys) (inl f, h) = rw (sym (ap p f) ∙ h) (inl f)
    back (y ∷ ys) (inr i, h) = elim (Bool-cases (p y)) [
      | inl e ↦ rw e (inr (back ys (i, h)))
      | inr e ↦ rw e (back ys (i, h))
    ]

module _ (policies : Policies) (channel : ChannelConfig policies) where
  -- The policies that hold for the channel: its own, or the empty ones.
  abbrev pub EventGovernedBy : policies.EventPolicy → Type 0
  EventGovernedBy policy =
      (channel.event_policy ≡ some policy)
      ⊎ ((channel.event_policy ≡ none) × (policies.no_event_rules ≡ policy))

  abbrev pub QueryGovernedBy : policies.QueryPolicy → Type 0
  QueryGovernedBy policy =
      (channel.query_policy ≡ some policy)
      ⊎ ((channel.query_policy ≡ none) × (policies.no_query_rules ≡ policy))

  abbrev pub AllowsEvent : String → String → Type 0
  AllowsEvent domain name =
      (policy : policies.EventPolicy) × EventGovernedBy policy
      × (policies.allows_event_policy policy domain name ≡ true)

  abbrev pub AllowsQuery : String → String → Type 0
  AllowsQuery rid name =
      (policy : policies.QueryPolicy) × QueryGovernedBy policy
      × (policies.allows_query_policy policy rid name ≡ true)

  event-allowed :
      (ev : PicoEvent) → (allowed_event policies channel ev ≡ true) ↔ AllowsEvent ev.domain ev.name
  event-allowed ev = elim (Option-cases channel.event_policy) [
    | inl e ↦ (
      λ h. (policies.no_event_rules, inr (e, refl), rw e at h),
      λ (p, g, h). elim g [
        | inl f ↦ absurd (none-some (sym e ∙ f))
        | inr (_, f) ↦ rw e (ap (λ x. policies.allows_event_policy x ev.domain ev.name) f ∙ h)
      ],
    )
    | inr (own, e) ↦ (
      λ h. (own, inl e, rw e at h),
      λ (p, g, h). elim g [
        | inl f ↦ rw e (
            ap (λ x. policies.allows_event_policy x ev.domain ev.name)
              (some-injective own p (sym e ∙ f))
            ∙ h)
        | inr (f, _) ↦ absurd (none-some (sym f ∙ e))
      ],
    )
  ]

  query-allowed :
      (q : PicoQuery) → (allowed_query policies channel q ≡ true) ↔ AllowsQuery q.rid q.query.name
  query-allowed q = elim (Option-cases channel.query_policy) [
    | inl e ↦ (
      λ h. (policies.no_query_rules, inr (e, refl), rw e at h),
      λ (p, g, h). elim g [
        | inl f ↦ absurd (none-some (sym e ∙ f))
        | inr (_, f) ↦ rw e (ap (λ x. policies.allows_query_policy x q.rid q.query.name) f ∙ h)
      ],
    )
    | inr (own, e) ↦ (
      λ h. (own, inl e, rw e at h),
      λ (p, g, h). elim g [
        | inl f ↦ rw e (
            ap (λ x. policies.allows_query_policy x q.rid q.query.name)
              (some-injective own p (sym e ∙ f))
            ∙ h)
        | inr (f, _) ↦ absurd (none-some (sym f ∙ e))
      ],
    )
  ]

module _ (policies : Policies) (installed : Installed) (get_cached : GetCached)
    (lookup_channel : String → ChannelConfig policies) (eci : String) where
  queries-allowed :
      (q : PicoQuery)
      → In q (channel_schema_for_eci policies installed get_cached lookup_channel eci).queries ↔ (
          HasQuery installed get_cached q
          × AllowsQuery policies (lookup_channel eci) q.rid q.query.name)
  unfolding channel_schema_for_eci filter_pico_schema_for_channel build_pico_schema
      merge_pico_schema
  queries-allowed q =
      let (there, back) = In-filter (allowed_query policies (lookup_channel eci)) q _ in
      let (a, b) = query-allowed policies (lookup_channel eci) q in
      let (from, to) = queries-In (all_ruleset_schemas_for_pico installed get_cached) q in
      (
        λ i.
            let (schema, s, j) = from (there i).0 in
            ((schema, (In-all_schemas installed get_cached q.rid schema).0 s, j), a (there i).1),
        λ ((schema, s, j), h).
            back (to (schema, (In-all_schemas installed get_cached q.rid schema).1 s, j), b h),
      )

  events-In :
      (ev : PicoEvent)
      → In ev (channel_schema_for_eci policies installed get_cached lookup_channel eci).events ↔ (
          In ev (build_pico_schema installed get_cached).events
          × AllowsEvent policies (lookup_channel eci) ev.domain ev.name)
  unfolding channel_schema_for_eci filter_pico_schema_for_channel
  events-In ev =
      let (there, back) =
        In-filter (allowed_event policies (lookup_channel eci)) ev
          (build_pico_schema installed get_cached).events in
      let (a, b) = event-allowed policies (lookup_channel eci) ev in
      (λ i. ((there i).0, a (there i).1), λ (i, h). back (i, b h))

  events-HasEntry :
      (ev : PicoEvent)
      → In ev (build_pico_schema installed get_cached).events
      → HasEntry installed get_cached ev.domain ev.name ev.constraints
  unfolding build_pico_schema
  events-HasEntry ev i =
      let (rid, o) = events-IsOffered (all_ruleset_schemas_for_pico installed get_cached) ev i in
      (
        rid,
        o.schema,
        o.operation,
        o.entry,
        (In-all_schemas installed get_cached rid o.schema).0 o.has_schema,
        o.has_operation,
        o.has_entry,
        o.is_event,
        o.same_constraints,
      )

  HasEntry-event :
      (d n : String) (c : List String)
      → HasEntry installed get_cached d n c
      → (ev : PicoEvent) × In ev (build_pico_schema installed get_cached).events
        × (event_key ev ≡ entry_key d n c)
  unfolding build_pico_schema
  HasEntry-event d n c (rid, schema, op, ent, s, o, e, v, same) =
      IsOffered-event (all_ruleset_schemas_for_pico installed get_cached) rid d n c (record {
        schema = schema;
        operation = op;
        entry = ent;
        has_schema = (In-all_schemas installed get_cached rid schema).1 s;
        has_operation = o;
        has_entry = e;
        is_event = v;
        same_constraints = same;
      })

  -- A channel sees a query exactly when an installed ruleset that the registry has cached lists it
  -- and the policy for queries allows the ruleset's id and the query's name. Every event that it
  -- sees is allowed by the policy for events, and is that of an entry of such a ruleset; and every
  -- entry has an event with its key in the pico's schema, which the channel sees exactly when the
  -- policy allows its domain and name. The policies are the channel's, or the empty ones where it
  -- has none.
  pub channel_schema_for_eci-allowed :
      (let seen = channel_schema_for_eci policies installed get_cached lookup_channel eci in
        let channel = lookup_channel eci in
        ((q : PicoQuery)
          → In q seen.queries
            ↔ (HasQuery installed get_cached q × AllowsQuery policies channel q.rid q.query.name))
        × ((ev : PicoEvent)
            → In ev seen.events
            → AllowsEvent policies channel ev.domain ev.name
              × HasEntry installed get_cached ev.domain ev.name ev.constraints)
        × ((d n : String) (c : List String)
            → HasEntry installed get_cached d n c
            → (ev : PicoEvent) × (event_key ev ≡ entry_key d n c)
              × (In ev seen.events ↔ AllowsEvent policies channel ev.domain ev.name)))
  channel_schema_for_eci-allowed = (
    queries-allowed,
    λ ev i. let (j, h) = (events-In ev).0 i in (h, events-HasEntry ev j),
    λ d n c o.
        let (ev, i, k) = HasEntry-event d n c o in
        (ev, k, (λ j. ((events-In ev).0 j).1, λ h. (events-In ev).1 (i, h))),
  )
