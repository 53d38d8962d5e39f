-- ===== src/PicoSchema/Origins.antt =====
-- pico-engine-core/src/picoSchema.ts: where the events and queries of a pico's schema come from.
use pico_engine.Base.{
  String, ◌==◌, Bool-cases, ◌≡◌, ◌↔◌, refl, ap, subst, sym, inl, inr, ◌⊎◌, List, [], ◌∷◌, ◌++◌,
  some, Option-cases, lookup, insert, values, In, In-append, In-append_left, In-append_right,
  eq_refl,
}
use pico_engine.PicoSchema.Types.{
  EntryRef, SchemaOperation, SchemaQuery, RulesetSchema, PicoEvent, PicoQuery, entry_key,
}
use pico_engine.PicoSchema.Merge.{
  Merging, new_event, merge_event, merge_at, event_of, merge_entry, merge_entries, merge_operations,
  Schemas, merge_schemas, queries_of_ruleset, all_queries, nothing_merged, merge_pico_schema,
}
use pico_engine.PicoSchema.Sources.{
  event_key, key_of, entry_sources, operation_sources, sources_with,
}
use pico_engine.PicoSchema.Events.{lookup-In, source-event}

-- An operation of a ruleset's schema has an entry for the event.
pub record IsOffered (ss : Schemas) (rid : String) (domain name : String)
    (constraints : List String) : Type 0 where
  pub schema : RulesetSchema
  pub operation : SchemaOperation
  pub entry : EntryRef
  pub has_schema : In (rid, schema) ss
  pub has_operation : In operation schema.operations
  pub has_entry : In entry operation.entry
  pub is_event : event_of entry ≡ some (domain, name)
  pub same_constraints : entry.constraints ≡ constraints

In-insert :
    (ev : PicoEvent) (k : String) (v : PicoEvent) (m : List (String × PicoEvent))
    → In ev (values (insert k v m))
    → (ev ≡ v) ⊎ In ev (values m)
unfolding insert
In-insert ev k v [] (inl e) = inl e
In-insert ev k v [] (inr i) = absurd i
In-insert ev k v ((j, w) ∷ m) i = elim (Bool-cases (j == k)) [
  | inl f ↦ elim (rw f at i) [ inl e ↦ inl e | inr x ↦ inr (inr x) ]
  | inr f ↦ elim (rw f at i) [
    | inl e ↦ inr (inl e)
    | inr x ↦ elim (In-insert ev k v m x) [ inl e ↦ inl e | inr y ↦ inr (inr y) ]
  ]
]

-- The events that are kept are offered, if those that are merged are.
module _ (P : String → String → List String → Type 0) where
  abbrev AllP : Merging → Type 0
  AllP st = (ev : PicoEvent) → In ev (values st.event_map) → P ev.domain ev.name ev.constraints

  put :
      (k : String) (v : PicoEvent) (st : Merging) (ev : PicoEvent)
      → AllP st
      → P v.domain v.name v.constraints
      → In ev (values (insert k v st.event_map))
      → P ev.domain ev.name ev.constraints
  put k v st ev h p i = elim (In-insert ev k v st.event_map i) [
    | inl e ↦ subst (λ z. P z.domain z.name z.constraints) (sym e) p
    | inr j ↦ h ev j
  ]

  merge_at-AllP :
      (rid : String) (op : SchemaOperation) (d n : String) (c : List String) (st : Merging)
      → P d n c
      → AllP st
      → AllP (merge_at rid op d n c st)
  unfolding merge_at new_event merge_event
  merge_at-AllP rid op d n c st p h = elim (Option-cases (lookup (entry_key d n c) st.event_map)) [
    | inl e ↦ rw (merge_at, e) (λ ev i. put (entry_key d n c) (new_event rid op d n c) st ev h p i)
    | inr (old, e) ↦
        rw (merge_at, e)
          (λ ev i.
            put (entry_key d n c) (merge_event rid op old) st ev h
              (h old (lookup-In (entry_key d n c) old st.event_map e)) i)
  ]

  merge_entries-AllP :
      (rid : String) (op : SchemaOperation) (ents : List EntryRef) (st : Merging)
      → ((ent : EntryRef) (d n : String)
          → In ent ents
          → event_of ent ≡ some (d, n)
          → P d n ent.constraints)
      → AllP st
      → AllP (merge_entries rid op ents st)
  unfolding merge_entries merge_entry
  merge_entries-AllP rid op [] st p h = h
  merge_entries-AllP rid op (ent ∷ ents) st p h = elim (Option-cases (event_of ent)) [
    | inl e ↦
        rw (merge_entries, merge_entry, e)
          (merge_entries-AllP rid op ents st (λ x d n i. p x d n (inr i)) h)
    | inr ((d, n), e) ↦
        rw (merge_entries, merge_entry, e)
          (merge_entries-AllP rid op ents (merge_at rid op d n ent.constraints st)
            (λ x d n i. p x d n (inr i))
            (merge_at-AllP rid op d n ent.constraints st (p ent d n (inl refl) e) h))
  ]

  merge_operations-AllP :
      (rid : String) (ops : List SchemaOperation) (st : Merging)
      → ((op : SchemaOperation) (ent : EntryRef) (d n : String)
          → In op ops
          → In ent op.entry
          → event_of ent ≡ some (d, n)
          → P d n ent.constraints)
      → AllP st
      → AllP (merge_operations rid ops st)
  unfolding merge_operations
  merge_operations-AllP rid [] st p h = h
  merge_operations-AllP rid (op ∷ ops) st p h =
      merge_operations-AllP rid ops (merge_entries rid op op.entry st)
        (λ x ent d n i. p x ent d n (inr i))
        (merge_entries-AllP rid op op.entry st (λ ent d n. p op ent d n (inl refl)) h)

  merge_schemas-AllP :
      (ss : Schemas) (st : Merging)
      → ((rid : String) (schema : RulesetSchema) (op : SchemaOperation) (ent : EntryRef)
            (d n : String)
          → In (rid, schema) ss
          → In op schema.operations
          → In ent op.entry
          → event_of ent ≡ some (d, n)
          → P d n ent.constraints)
      → AllP st
      → AllP (merge_schemas ss st)
  unfolding merge_schemas
  merge_schemas-AllP [] st p h = h
  merge_schemas-AllP ((rid, schema) ∷ ss) st p h =
      merge_schemas-AllP ss (merge_operations rid schema.operations st)
        (λ r s op ent d n i. p r s op ent d n (inr i))
        (merge_operations-AllP rid schema.operations st
          (λ op ent d n. p rid schema op ent d n (inl refl)) h)

-- Every event of the schema is offered by some ruleset.
pub events-IsOffered :
    (ss : Schemas) (ev : PicoEvent)
    → In ev (merge_pico_schema ss).events
    → (rid : String) × IsOffered ss rid ev.domain ev.name ev.constraints
unfolding merge_pico_schema
events-IsOffered ss =
    merge_schemas-AllP (λ d n c. (rid : String) × IsOffered ss rid d n c) ss nothing_merged
      (λ rid schema op ent d n s o e v. (
        rid,
        record {
          schema = schema;
          operation = op;
          entry = ent;
          has_schema = s;
          has_operation = o;
          has_entry = e;
          is_event = v;
          same_constraints = refl;
        },
      ))
      (λ ev i. absurd i)

entry-source :
    (rid rule d n : String) (ent : EntryRef) (ents : List EntryRef)
    → In ent ents
    → event_of ent ≡ some (d, n)
    → In
        (record { rid = rid; rule = rule })
        (entry_sources (entry_key d n ent.constraints) rid rule ents)
entry-source rid rule d n ent [] i v = absurd i
entry-source rid rule d n ent (x ∷ xs) (inl e) v =
    let key = entry_key d n ent.constraints in
    subst (λ y. In (record { rid = rid; rule = rule }) (entry_sources key rid rule (y ∷ xs))) e
      (rw (entry_sources, key_of, v, eq_refl key) (inl refl))
entry-source rid rule d n ent (x ∷ xs) (inr i) v =
    let rest = entry-source rid rule d n ent xs i v in
    let key = entry_key d n ent.constraints in
    elim (Option-cases (event_of x)) [
      | inl e ↦ rw (entry_sources, key_of, e) rest
      | inr ((a, b), e) ↦
          rw (entry_sources, key_of, e)
            (elim (Bool-cases (entry_key a b x.constraints == key)) [
              | inl f ↦ rw f (inr rest)
              | inr f ↦ rw f rest
            ])
    ]

operation-source :
    (rid d n : String) (op : SchemaOperation) (ent : EntryRef) (ops : List SchemaOperation)
    → In op ops
    → In ent op.entry
    → event_of ent ≡ some (d, n)
    → In
        (record { rid = rid; rule = op.rule })
        (operation_sources (entry_key d n ent.constraints) rid ops)
operation-source rid d n op ent [] i j v = absurd i
operation-source rid d n op ent (x ∷ xs) (inl e) j v =
    rw (← e) (In-append_left _ _ _ (entry-source rid op.rule d n ent op.entry j v))
operation-source rid d n op ent (x ∷ xs) (inr i) j v =
    In-append_right _ _ _ (operation-source rid d n op ent xs i j v)

schemas-source :
    (rid d n : String) (schema : RulesetSchema) (op : SchemaOperation) (ent : EntryRef)
    (ss : Schemas)
    → In (rid, schema) ss
    → In op schema.operations
    → In ent op.entry
    → event_of ent ≡ some (d, n)
    → In (record { rid = rid; rule = op.rule }) (sources_with (entry_key d n ent.constraints) ss)
schemas-source rid d n schema op ent [] i j k v = absurd i
schemas-source rid d n schema op ent ((r, s) ∷ ss) (inl e) j k v =
    let key = entry_key d n ent.constraints in
    let there = operation-source rid d n op ent schema.operations j k v in
    subst
      (λ x.
        In (record { rid = rid; rule = op.rule })
          (operation_sources key x.0 x.1.operations ++ sources_with key ss))
      e (In-append_left _ _ _ there)
schemas-source rid d n schema op ent ((r, s) ∷ ss) (inr i) j k v =
    In-append_right _ _ _ (schemas-source rid d n schema op ent ss i j k v)

-- An event that a ruleset offers has an event with its key in the schema.
pub IsOffered-event :
    (ss : Schemas) (rid d n : String) (c : List String)
    → IsOffered ss rid d n c
    → (ev : PicoEvent) × In ev (merge_pico_schema ss).events × (event_key ev ≡ entry_key d n c)
IsOffered-event ss rid d n c o =
    let there =
      schemas-source rid d n o.schema o.operation o.entry ss o.has_schema o.has_operation
        o.has_entry o.is_event in
    source-event ss (entry_key d n c) (record { rid = rid; rule = o.operation.rule })
      (subst
        (λ x.
          In (record { rid = rid; rule = o.operation.rule }) (sources_with (entry_key d n x) ss))
        o.same_constraints there)

ruleset-queries :
    (rid : String) (x : PicoQuery) (qs : List SchemaQuery)
    → In x (queries_of_ruleset rid qs) ↔ ((x.rid ≡ rid) × In x.query qs)
unfolding queries_of_ruleset
ruleset-queries rid x [] = (λ i. absurd i, λ (e, i). i)
ruleset-queries rid x (q ∷ qs) = (
  λ i. elim i [
    | inl e ↦ (ap (λ y. y.rid) e, inl (ap (λ y. y.query) e))
    | inr j ↦ let (e, k) = (ruleset-queries rid x qs).0 j in (e, inr k)
  ],
  λ (e, i). elim i [ inl f ↦ inl (cc) | inr j ↦ inr ((ruleset-queries rid x qs).1 (e, j)) ],
)

-- The queries of the schema are those of the rulesets.
pub queries-In :
    (ss : Schemas) (x : PicoQuery)
    → In x (all_queries ss)
      ↔ ((schema : RulesetSchema) × In (x.rid, schema) ss × In x.query schema.queries)
unfolding all_queries
queries-In [] x = (λ i. absurd i, λ (s, i, j). i)
queries-In ((rid, schema) ∷ ss) x = (
  λ i. elim (In-append x (queries_of_ruleset rid schema.queries) (all_queries ss) i) [
    | inl j ↦
        let (e, k) = (ruleset-queries rid x schema.queries).0 j in
        (schema, inl (ap (λ r. (r, schema)) e), k)
    | inr j ↦ let (s, k, l) = (queries-In ss x).0 j in (s, inr k, l)
  ],
  λ (s, i, j). elim i [
    | inl e ↦ In-append_left _ _ _ (
        (ruleset-queries rid x schema.queries).1
          (ap (λ y. y.0) e, subst (λ z. In x.query z.queries) (ap (λ y. y.1) e) j))
    | inr k ↦ In-append_right _ _ _ ((queries-In ss x).1 (s, k, j))
  ],
)
