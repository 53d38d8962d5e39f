-- ===== src/PicoSchema/Events.antt =====
-- pico-engine-core/src/picoSchema.ts: the events in a pico's schema, each once, with its sources.
use pico_engine.Base.{
  String, ◌==◌, eq_iff, Bool-cases, ◌≡◌, ap, subst, sym, ◌∙◌, inl, inr, List, [], ◌∷◌, some,
  Option-cases, lookup, insert, keys, values, has-keys, keys-insert-IsNodup, In, IsNodup, IsNamed,
  insert-IsNamed, arith,
}
use pico_engine.PicoSchema.Types.{EntryRef, SchemaOperation, EventSource, PicoEvent, entry_key}
use pico_engine.PicoSchema.Merge.{
  Merging, new_event, merge_event, merge_at, event_of, merge_entry, merge_entries, merge_operations,
  Schemas, merge_schemas, nothing_merged, merge_pico_schema,
}
use pico_engine.PicoSchema.Sources.{event_key, sources_with, held, sources-merge_schemas}

-- The merge keeps each event under its own key, and no key twice.
abbrev IsKept : Merging → Type 0
IsKept st = IsNamed event_key st.event_map × IsNodup (keys st.event_map)

lookup-IsNamed :
    (k : String) (m : List (String × PicoEvent)) (ev : PicoEvent)
    → IsNamed event_key m
    → lookup k m ≡ some ev
    → k ≡ event_key ev
unfolding lookup
lookup-IsNamed k [] ev h e = cc
lookup-IsNamed k ((j, v) ∷ m) ev (p, h) e = elim (Bool-cases (j == k)) [
  | inl f ↦
      let same : v ≡ ev = ground (arith, rw f at e) in
      sym ((eq_iff j k).0 f) ∙ p ∙ ap event_key same
  | inr f ↦ lookup-IsNamed k m ev h (rw f at e)
]

IsNamed-put :
    (k : String) (v : PicoEvent) (m : List (String × PicoEvent))
    → k ≡ event_key v
    → IsNamed event_key m
    → IsNamed event_key (insert k v m)
IsNamed-put k v m e h = rw e (insert-IsNamed event_key v m h)

IsKept-merge_at :
    (rid : String) (op : SchemaOperation) (d n : String) (c : List String) (st : Merging)
    → IsKept st
    → IsKept (merge_at rid op d n c st)
unfolding merge_at new_event merge_event
IsKept-merge_at rid op d n c st (h, k) =
    elim (Option-cases (lookup (entry_key d n c) st.event_map)) [
      | inl e ↦
          rw (merge_at, e)
            (
              insert-IsNamed event_key (new_event rid op d n c) st.event_map h,
              keys-insert-IsNodup _ _ st.event_map k,
            )
      | inr (ev, e) ↦
          rw (merge_at, e)
            (
              IsNamed-put (entry_key d n c) (merge_event rid op ev) st.event_map
                  (lookup-IsNamed (entry_key d n c) st.event_map ev h e) h,
              keys-insert-IsNodup _ _ st.event_map k,
            )
    ]

IsKept-merge_entries :
    (rid : String) (op : SchemaOperation) (ents : List EntryRef) (st : Merging)
    → IsKept st
    → IsKept (merge_entries rid op ents st)
unfolding merge_entries merge_entry
IsKept-merge_entries rid op [] st h = h
IsKept-merge_entries rid op (ent ∷ ents) st h = elim (Option-cases (event_of ent)) [
  | inl e ↦ rw (merge_entries, merge_entry, e) (IsKept-merge_entries rid op ents st h)
  | inr ((d, n), e) ↦
      rw (merge_entries, merge_entry, e)
        (IsKept-merge_entries rid op ents (merge_at rid op d n ent.constraints st)
          (IsKept-merge_at rid op d n ent.constraints st h))
]

IsKept-merge_operations :
    (rid : String) (ops : List SchemaOperation) (st : Merging)
    → IsKept st
    → IsKept (merge_operations rid ops st)
unfolding merge_operations
IsKept-merge_operations rid [] st h = h
IsKept-merge_operations rid (op ∷ ops) st h =
    IsKept-merge_operations rid ops (merge_entries rid op op.entry st)
      (IsKept-merge_entries rid op op.entry st h)

IsKept-merge_schemas : (ss : Schemas) (st : Merging) → IsKept st → IsKept (merge_schemas ss st)
unfolding merge_schemas
IsKept-merge_schemas [] st h = h
IsKept-merge_schemas ((rid, schema) ∷ ss) st h =
    IsKept-merge_schemas ss (merge_operations rid schema.operations st)
      (IsKept-merge_operations rid schema.operations st h)

-- A kept event is found under its key.
In-lookup :
    (ev : PicoEvent) (m : List (String × PicoEvent))
    → IsNamed event_key m
    → IsNodup (keys m)
    → In ev (values m)
    → lookup (event_key ev) m ≡ some ev
unfolding lookup
In-lookup ev [] h n i = absurd i
In-lookup ev ((j, v) ∷ m) (p, h) (a, n) (inl e) =
    rw ((eq_iff j (event_key ev)).1 (p ∙ ap event_key (sym e))) (ap some (sym e))
In-lookup ev ((j, v) ∷ m) (p, h) (a, n) (inr i) =
    let found = In-lookup ev m h n i in
    elim (Bool-cases (j == event_key ev)) [
      | inl f ↦ absurd (
          ground (
            arith,
            a,
            has-keys j m,
            subst (λ k. lookup k m ≡ some ev) (sym ((eq_iff j (event_key ev)).0 f)) found,
          ))
      | inr f ↦ rw f found
    ]

pub lookup-In :
    (k : String) (ev : PicoEvent) (m : List (String × PicoEvent))
    → lookup k m ≡ some ev
    → In ev (values m)
unfolding lookup
lookup-In k ev [] e = cc
lookup-In k ev ((j, v) ∷ m) e = elim (Bool-cases (j == k)) [
  | inl f ↦ inl (ground (arith, rw f at e))
  | inr f ↦ inr (lookup-In k ev m (rw f at e))
]

event-sources :
    (schemas : Schemas) (ev : PicoEvent)
    → In ev (merge_pico_schema schemas).events
    → ev.sources ≡ sources_with (event_key ev) schemas
unfolding merge_pico_schema lookup
event-sources schemas ev i =
    let (named, nodup) = IsKept-merge_schemas schemas nothing_merged (tt, tt) in
    ap (held (event_key ev)) (sym (In-lookup ev _ named nodup i))
    ∙ sources-merge_schemas (event_key ev) schemas nothing_merged

pub source-event :
    (schemas : Schemas) (key : String) (source : EventSource)
    → In source (sources_with key schemas)
    → (ev : PicoEvent) × In ev (merge_pico_schema schemas).events × (event_key ev ≡ key)
unfolding merge_pico_schema lookup
source-event schemas key source i =
    let (named, _) = IsKept-merge_schemas schemas nothing_merged (tt, tt) in
    let there = subst (In source) (sym (sources-merge_schemas key schemas nothing_merged)) i in
    elim (Option-cases (lookup key (merge_schemas schemas nothing_merged).event_map)) [
      | inl e ↦ absurd (rw e at there)
      | inr (ev, e) ↦ (ev, lookup-In key ev _ e, sym (lookup-IsNamed key _ ev named e))
    ]

-- Each event of a pico's schema has as its sources the ruleset and the rule of every entry with the
-- event's key, in the order of the schemas, and no others; and every key that some entry of the
-- rulesets has is the key of an event.
pub merge_pico_schema-sources :
    (schemas : Schemas)
    → ((ev : PicoEvent)
        → In ev (merge_pico_schema schemas).events
        → ev.sources ≡ sources_with (event_key ev) schemas)
      × ((key : String) (source : EventSource)
          → In source (sources_with key schemas)
          → (ev : PicoEvent) × In ev (merge_pico_schema schemas).events × (event_key ev ≡ key))
merge_pico_schema-sources schemas = (event-sources schemas, source-event schemas)
