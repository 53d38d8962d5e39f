-- ===== src/Schema/Build/Listing.antt =====
-- Which rules and functions a schema lists, and when there is none.
use pico_engine.Base.{
  String, ◌≡◌, ◌↔◌, ◌∙◌, refl, sym, ap, Bool, true, false, if◌then◌else◌, List, [], ◌∷◌, Option,
  none, some, map, lookup,
}
use pico_engine.Ast.{DocComment, Rule, Ruleset, Nodes}
use pico_engine.Derive.Globals.{
  Globals, Resolved, found, missing, no_fuel, global_by_name_from, resolve_global_function,
}
use pico_engine.Derive.Entries.{Attr}
use pico_engine.Emits.Prechecks.{Params, shared_function_params}
use pico_engine.Schema.Queries.{
  Result, ok, err, Query, query_with, put_query, if_documented, query_of, doc_of, queries_of,
  doc_query_args,
}
use pico_engine.Schema.Index.{EntryIndex, entry_index}
use pico_engine.Schema.Build.{
  Operation, operation_of, operations_of, RulesetSchema, schema_or_null, schema_with,
  ruleset_operations, build_ruleset_schema,
}

abbrev pub rule_of : Operation → String
rule_of op = op.rule

abbrev pub name_of : Query → String
name_of q = q.name

-- A value for the name, or none, before those behind it.
abbrev on_doc : Option DocComment → Bool → String → List String → List String
on_doc none active name names = names
on_doc (some doc) active name names = if active then name ∷ names else names

-- The active rules with a doc comment, in order.
abbrev pub annotated : List Rule → List String
annotated [] = []
annotated (r ∷ rs) = on_doc r.doc r.active r.name (annotated rs)

-- The shared names whose declaration has a doc comment, in the order of `shares`.
abbrev pub documented : Globals → List String → List String
documented m [] = []
documented m (name ∷ shares) = on_doc (doc_of (lookup name m)) true name (documented m shares)

listed_rule :
    (o : Option DocComment) (active : Bool) (name : String) (op : DocComment → Operation)
    → (ops : List Operation) (names : List String) → ((doc : DocComment) → (op doc).rule ≡ name)
    → map rule_of ops ≡ names
    → map rule_of (elim o [ none ↦ ops | some doc ↦ if active then op doc ∷ ops else ops ])
      ≡ on_doc o active name names
listed_rule none active name op ops names same h = h
listed_rule (some doc) true name op ops names same h = cc (same doc, h)
listed_rule (some doc) false name op ops names same h = h

map-operations_of :
    (index : EntryIndex) (global : Nodes) (shares : List String) (params : Params) (rs : List Rule)
    → map rule_of (operations_of index global shares params rs) ≡ annotated rs
unfolding operations_of operation_of
map-operations_of index global shares params [] = refl
map-operations_of index global shares params (r ∷ rs) =
    listed_rule r.doc r.active r.name (operation_of index global shares params r) _ _ (λ doc. refl)
      (map-operations_of index global shares params rs)

query_with-name :
    (name : String) (doc : DocComment) (args : Result (List Attr)) (q : Query)
    → query_with name doc args ≡ ok q
    → q.name ≡ name
unfolding query_with
query_with-name name doc (err e) q h = cc
query_with-name name doc (ok args) q h = cc

query_of-name :
    (name : String) (doc : DocComment) (fn : Resolved) (q : Query)
    → query_of name doc fn ≡ ok q
    → q.name ≡ name
unfolding query_of
query_of-name name doc missing q h = cc
query_of-name name doc no_fuel q h = cc
query_of-name name doc (found fn) q h = query_with-name name doc (doc_query_args doc.tags fn) q h

put_query-names :
    (x : Result Query) (rest : Result (List Query)) (name : String) (names : List String)
    → (qs : List Query) → ((q : Query) → x ≡ ok q → q.name ≡ name)
    → ((rs : List Query) → rest ≡ ok rs → map name_of rs ≡ names)
    → put_query x rest ≡ ok qs
    → map name_of qs ≡ name ∷ names
unfolding put_query
put_query-names (err e) rest name names qs f g h = cc
put_query-names (ok q) (err e) name names qs f g h = cc
put_query-names (ok q) (ok rs) name names qs f g h =
    let same : ok (q ∷ rs) ≡ ok qs = h in cc (f q refl, g rs refl, same)

listed_query :
    (o : Option DocComment) (query : DocComment → Result Query) (rest : Result (List Query))
    → (name : String) (names : List String) (qs : List Query)
    → ((doc : DocComment) (q : Query) → query doc ≡ ok q → q.name ≡ name)
    → ((rs : List Query) → rest ≡ ok rs → map name_of rs ≡ names)
    → if_documented o query rest ≡ ok qs
    → map name_of qs ≡ on_doc o true name names
unfolding if_documented
listed_query none query rest name names qs f g h = g qs h
listed_query (some doc) query rest name names qs f g h =
    put_query-names (query doc) rest name names qs (f doc) g h

map-queries_of :
    (m : Globals) (shares : List String) (qs : List Query)
    → queries_of m shares ≡ ok qs
    → map name_of qs ≡ documented m shares
unfolding queries_of
map-queries_of m [] [] h = refl
map-queries_of m [] (q ∷ qs) h = cc
map-queries_of m (name ∷ shares) qs h =
    listed_query (doc_of (lookup name m))
      (λ doc. query_of name doc (resolve_global_function m name)) (queries_of m shares) name
      (documented m shares) qs (λ doc q. query_of-name name doc (resolve_global_function m name) q)
      (map-queries_of m shares) h

no_documented :
    (o : Option DocComment) (query : DocComment → Result Query) (rest : Result (List Query))
    → (name : String) (names : List String) → (names ≡ [] → rest ≡ ok [])
    → on_doc o true name names ≡ []
    → if_documented o query rest ≡ ok []
unfolding if_documented
no_documented none query rest name names f h = f h
no_documented (some doc) query rest name names f h = cc

no_queries :
    (m : Globals) (shares : List String) → documented m shares ≡ [] → queries_of m shares ≡ ok []
unfolding queries_of
no_queries m [] h = refl
no_queries m (name ∷ shares) h =
    no_documented (doc_of (lookup name m)) _ (queries_of m shares) name (documented m shares)
      (no_queries m shares) h

map-ruleset_operations :
    (ast : Ruleset) (shares : List String)
    → map rule_of (ruleset_operations ast shares) ≡ annotated ast.rules
unfolding ruleset_operations
map-ruleset_operations ast shares =
    map-operations_of (entry_index ast.rules) ast.global shares
      (shared_function_params ast.global shares) ast.rules

schema_or_null-parts :
    (ast : Ruleset) (ops : List Operation) (qs : List Query) (s : RulesetSchema)
    → schema_or_null ast ops qs ≡ some s
    → (s.operations ≡ ops) × (s.queries ≡ qs)
unfolding schema_or_null
schema_or_null-parts ast [] [] s h = cc
schema_or_null-parts ast [] (q ∷ qs) s h = (cc, cc)
schema_or_null-parts ast (op ∷ ops) qs s h = (cc, cc)

schema_with-parts :
    (ast : Ruleset) (ops : List Operation) (x : Result (List Query)) (s : RulesetSchema)
    → schema_with ast ops x ≡ ok (some s)
    → (s.operations ≡ ops) × (x ≡ ok s.queries)
unfolding schema_with
schema_with-parts ast ops (err e) s h = cc
schema_with-parts ast ops (ok qs) s h =
    let (p, q) =
      schema_or_null-parts ast ops qs s
        (let k : ok (schema_or_null ast ops qs) ≡ ok (some s) = h in cc) in
    (p, ap ok (sym q))

schema_or_null-none :
    (ast : Ruleset) (ops : List Operation) (qs : List Query)
    → schema_or_null ast ops qs ≡ none
    → (ops ≡ []) × (qs ≡ [])
unfolding schema_or_null
schema_or_null-none ast [] [] h = (refl, refl)
schema_or_null-none ast [] (q ∷ qs) h = cc
schema_or_null-none ast (op ∷ ops) qs h = cc

schema_with-none :
    (ast : Ruleset) (ops : List Operation) (x : Result (List Query))
    → schema_with ast ops x ≡ ok none
    → (ops ≡ []) × (x ≡ ok [])
unfolding schema_with
schema_with-none ast ops (err e) h = cc
schema_with-none ast ops (ok qs) h =
    let (p, q) =
      schema_or_null-none ast ops qs (let k : ok (schema_or_null ast ops qs) ≡ ok none = h in cc) in
    (p, ap ok q)

no_operations : (ops : List Operation) → map rule_of ops ≡ [] → ops ≡ []
no_operations [] h = refl
no_operations (op ∷ ops) h = cc

nothing_with : (ast : Ruleset) → schema_with ast [] (ok []) ≡ ok none
unfolding schema_with schema_or_null
nothing_with ast = refl

-- A schema has one operation for each active rule with a doc comment, in the order of the rules,
-- and one query for each shared name whose declaration has a doc comment, in the order of
-- `shares`.
pub build_ruleset_schema-lists :
    (ast : Ruleset) (shares : List String) (s : RulesetSchema)
    → build_ruleset_schema ast shares ≡ ok (some s)
    → (map rule_of s.operations ≡ annotated ast.rules)
      × (map name_of s.queries ≡ documented (global_by_name_from ast.global) shares)
unfolding build_ruleset_schema
build_ruleset_schema-lists ast shares s h =
    let m = global_by_name_from ast.global in
    let (p, q) = schema_with-parts ast (ruleset_operations ast shares) (queries_of m shares) s h in
    (ap (map rule_of) p ∙ map-ruleset_operations ast shares, map-queries_of m shares s.queries q)

-- The compiler makes no schema, and no error, exactly when no active rule and no shared name has
-- a doc comment.
pub build_ruleset_schema-none :
    (ast : Ruleset) (shares : List String)
    → (build_ruleset_schema ast shares ≡ ok none)
      ↔ ((annotated ast.rules ≡ []) × (documented (global_by_name_from ast.global) shares ≡ []))
unfolding build_ruleset_schema
build_ruleset_schema-none ast shares =
    let m = global_by_name_from ast.global in
    let ops = ruleset_operations ast shares in
    (
      λ h.
          let (p, q) = schema_with-none ast ops (queries_of m shares) h in
          (
            sym (map-ruleset_operations ast shares) ∙ ap (map rule_of) p,
            sym (map-queries_of m shares [] q),
          ),
      λ (a, d).
          ap (λ x. schema_with ast x (queries_of m shares))
            (no_operations ops (map-ruleset_operations ast shares ∙ a))
          ∙ ap (schema_with ast []) (no_queries m shares d)
          ∙ nothing_with ast,
    )
