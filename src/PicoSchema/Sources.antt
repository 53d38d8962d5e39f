-- ===== src/PicoSchema/Sources.antt =====
-- pico-engine-core/src/picoSchema.ts: the sources of the events in a pico's schema.
use pico_engine.Base.{
  String, ◌==◌, eq_iff, if◌then◌else◌, Bool-cases, ◌≡◌, refl, ap, subst, sym, ◌∙◌, inl, inr, List,
  [], ◌∷◌, ◌++◌, Option, none, some, Option-cases, lookup, insert, lookup-insert,
}
use mathlib.Core.List.{append_assoc, append-nil}
use pico_engine.PicoSchema.Types.{EntryRef, SchemaOperation, EventSource, PicoEvent, entry_key}
use pico_engine.PicoSchema.Merge.{
  Merging, new_event, merge_event, merge_at, event_of, merge_entry, merge_entries, merge_operations,
  Schemas, merge_schemas,
}

-- The key of an event, under which the merge keeps it.
abbrev pub event_key : PicoEvent → String
event_key ev = entry_key ev.domain ev.name ev.constraints

-- The key of an entry, where it counts.
abbrev pub key_of : EntryRef → Option String
key_of ent = elim (event_of ent) [
  | none ↦ none
  | some (domain, name) ↦ some (entry_key domain name ent.constraints)
]

module _ (key : String) where
  abbrev pub entry_sources : String → String → List EntryRef → List EventSource
  entry_sources rid rule [] = []
  entry_sources rid rule (ent ∷ ents) = elim (key_of ent) [
    | none ↦ entry_sources rid rule ents
    | some k ↦
        if k == key
        then record { rid = rid; rule = rule } ∷ entry_sources rid rule ents
        else entry_sources rid rule ents
  ]

  abbrev pub operation_sources : String → List SchemaOperation → List EventSource
  operation_sources rid [] = []
  operation_sources rid (op ∷ ops) = entry_sources rid op.rule op.entry ++ operation_sources rid ops

  -- A ruleset and a rule for each entry with the key, in the order of the schemas.
  abbrev pub sources_with : Schemas → List EventSource
  sources_with [] = []
  sources_with ((rid, schema) ∷ ss) = operation_sources rid schema.operations ++ sources_with ss

  abbrev pub held : Option PicoEvent → List EventSource
  held none = []
  held (some ev) = ev.sources

  abbrev pub sources_at : Merging → List EventSource
  sources_at st = held (lookup key st.event_map)

  one : (k : String) (src : EventSource) → List EventSource
  one k src = if k == key then src ∷ [] else []

  held-insert :
      (k : String) (v : PicoEvent) (m : List (String × PicoEvent)) (src : EventSource)
      → held (lookup k m) ++ (src ∷ []) ≡ v.sources
      → held (lookup key (insert k v m)) ≡ held (lookup key m) ++ one k src
  unfolding one
  held-insert k v m src e = elim (Bool-cases (k == key)) [
    | inl f ↦
        let same : k ≡ key = (eq_iff k key).0 f in
        rw (lookup-insert k key v m, f)
          (subst (λ j. v.sources ≡ held (lookup j m) ++ (src ∷ [])) same (sym e))
    | inr f ↦ rw (lookup-insert k key v m, f) (sym (append-nil (held (lookup key m))))
  ]

  sources-merge_at :
      (rid : String) (op : SchemaOperation) (d n : String) (c : List String) (st : Merging)
      → sources_at (merge_at rid op d n c st)
        ≡ sources_at st ++ one (entry_key d n c) (record { rid = rid; rule = op.rule })
  unfolding merge_at new_event merge_event
  sources-merge_at rid op d n c st = elim (Option-cases (lookup (entry_key d n c) st.event_map)) [
    | inl e ↦
        rw (merge_at, e)
          (held-insert (entry_key d n c) (new_event rid op d n c) st.event_map _ (rw e refl))
    | inr (ev, e) ↦
        rw (merge_at, e)
          (held-insert (entry_key d n c) (merge_event rid op ev) st.event_map _ (rw e refl))
  ]

  put_first :
      (k : String) (src : EventSource) (l r : List EventSource)
      → (l ++ one k src) ++ r ≡ l ++ (if k == key then src ∷ r else r)
  unfolding one
  put_first k src l r = elim (Bool-cases (k == key)) [
    | inl f ↦ rw f (append_assoc l (src ∷ []) r)
    | inr f ↦ rw f (ap (λ z. z ++ r) (append-nil l))
  ]

  sources-merge_entries :
      (rid : String) (op : SchemaOperation) (ents : List EntryRef) (st : Merging)
      → sources_at (merge_entries rid op ents st) ≡ sources_at st ++ entry_sources rid op.rule ents
  unfolding merge_entries merge_entry
  sources-merge_entries rid op [] st = sym (append-nil (sources_at st))
  sources-merge_entries rid op (ent ∷ ents) st = elim (Option-cases (event_of ent)) [
    | inl e ↦
        rw (merge_entries, merge_entry, entry_sources, key_of, e)
          (sources-merge_entries rid op ents st)
    | inr ((d, n), e) ↦
        let after = sources-merge_entries rid op ents (merge_at rid op d n ent.constraints st) in
        let here = sources-merge_at rid op d n ent.constraints st in
        rw (merge_entries, merge_entry, entry_sources, key_of, e)
          (after
            ∙ ap (λ l. l ++ entry_sources rid op.rule ents) here
            ∙ put_first (entry_key d n ent.constraints) _ (sources_at st)
                (entry_sources rid op.rule ents))
  ]

  sources-merge_operations :
      (rid : String) (ops : List SchemaOperation) (st : Merging)
      → sources_at (merge_operations rid ops st) ≡ sources_at st ++ operation_sources rid ops
  unfolding merge_operations
  sources-merge_operations rid [] st = sym (append-nil (sources_at st))
  sources-merge_operations rid (op ∷ ops) st =
      sources-merge_operations rid ops (merge_entries rid op op.entry st)
      ∙ ap (λ l. l ++ operation_sources rid ops) (sources-merge_entries rid op op.entry st)
      ∙ append_assoc (sources_at st) _ _

  pub sources-merge_schemas :
      (ss : Schemas) (st : Merging)
      → sources_at (merge_schemas ss st) ≡ sources_at st ++ sources_with ss
  unfolding merge_schemas
  sources-merge_schemas [] st = sym (append-nil (sources_at st))
  sources-merge_schemas ((rid, schema) ∷ ss) st =
      sources-merge_schemas ss (merge_operations rid schema.operations st)
      ∙ ap (λ l. l ++ sources_with ss) (sources-merge_operations rid schema.operations st)
      ∙ append_assoc (sources_at st) _ _
