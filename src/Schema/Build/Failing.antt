-- ===== src/Schema/Build/Failing.antt =====
-- When the compiler stops with an error on a shared function's doc comment.
use pico_engine.Base.{
  String, ◌≡◌, ◌≢◌, ◌↔◌, ◌⊎◌, ◌∙◌, inl, inr, refl, sym, ap, false, List, [], ◌∷◌, Option, none,
  some, lookup, In, Bool-cases, subst,
}
use pico_engine.Ast.{Node, DocComment, Ruleset}
use pico_engine.Derive.Globals.{
  Globals, Resolved, found, missing, no_fuel, global_by_name_from, resolve_global_function,
}
use pico_engine.Derive.Globals.Termination.{resolve_global_function-ends}
use pico_engine.Schema.Queries.{
  Result, ok, err, Query, names_of, function_params, query_with, query_of, doc_of, put_query,
  if_documented, queries_of,
}
use pico_engine.Schema.Queries.Args.{tags_known, doc_query_args-described, doc_query_args_fails}
use pico_engine.Schema.Build.{Operation, schema_with, ruleset_operations, build_ruleset_schema}

abbrev pub Fails : {A : Type 0} → Result A → Type 0
Fails x = (message : String) × (x ≡ err message)

-- The name stands for no function, or a `@param` names none of its parameters.
abbrev pub FaultyFor : DocComment → Resolved → Type 0
FaultyFor doc r =
    (r ≡ missing)
    ⊎ ((fn : Node) × (r ≡ found fn) × (tags_known (names_of (function_params fn)) doc.tags ≡ false))

abbrev pub Faulty : Globals → String → Type 0
Faulty m name =
    (doc : DocComment) × (doc_of (lookup name m) ≡ some doc)
    × FaultyFor doc (resolve_global_function m name)

ok-Fails : {A : Type 0} (a : A) → Fails {A = A} (ok a) → ⊥
ok-Fails a (e, h) = cc

query_of-Fails :
    (name : String) (doc : DocComment) (r : Resolved)
    → r ≢ no_fuel
    → Fails (query_of name doc r) ↔ FaultyFor doc r
unfolding query_of query_with
query_of-Fails name doc no_fuel ends = absurd (ends refl)
query_of-Fails name doc missing ends = (λ h. inl refl, λ h. (_, refl))
query_of-Fails name doc (found fn) ends =
    elim (Bool-cases (tags_known (names_of (function_params fn)) doc.tags)) [
      | inl known ↦
          let args = doc_query_args-described doc.tags fn known in
          (
            λ (e, h). absurd (ok-Fails _ (e, sym (ap (query_with name doc) args) ∙ h)),
            λ f. elim f [ inl e ↦ cc | inr (g, same, unknown) ↦ cc ],
          )
      | inr unknown ↦
          let (e, args) = doc_query_args_fails doc.tags fn unknown in
          (λ h. inr (fn, refl, unknown), λ h. (e, ap (query_with name doc) args))
    ]

put_query-Fails :
    (x : Result Query) (rest : Result (List Query))
    → Fails (put_query x rest) ↔ (Fails x ⊎ Fails rest)
unfolding put_query
put_query-Fails (err e) rest = (λ h. inl (e, refl), λ h. (e, refl))
put_query-Fails (ok q) (err e) = (λ h. inr (e, refl), λ h. (e, refl))
put_query-Fails (ok q) (ok qs) = (
  λ h. absurd (ok-Fails _ h),
  λ h. elim h [ inl f ↦ absurd (ok-Fails q f) | inr f ↦ absurd (ok-Fails qs f) ],
)

if_documented-Fails :
    (o : Option DocComment) (query : DocComment → Result Query) (rest : Result (List Query))
    → Fails (if_documented o query rest)
      ↔ (((doc : DocComment) × (o ≡ some doc) × Fails (query doc)) ⊎ Fails rest)
unfolding if_documented
if_documented-Fails none query rest = (λ h. inr h, λ h. elim h [ inl (doc, e, f) ↦ cc | inr f ↦ f ])
if_documented-Fails (some doc) query rest =
    let both = put_query-Fails (query doc) rest in
    (
      λ h. elim (both.0 h) [ inl f ↦ inl (doc, refl, f) | inr f ↦ inr f ],
      λ h. elim h [
        | inl (d, e, f) ↦
            both.1 (inl (let same : d ≡ doc = cc in subst (λ z. Fails (query z)) same f))
        | inr f ↦ both.1 (inr f)
      ],
    )

queries_of-Fails :
    (m : Globals) (shares : List String)
    → Fails (queries_of m shares) ↔ ((name : String) × In name shares × Faulty m name)
unfolding queries_of
queries_of-Fails m [] = (λ h. absurd (ok-Fails _ h), λ (name, i, f). absurd i)
queries_of-Fails m (name ∷ shares) =
    let r = resolve_global_function m name in
    let ends = resolve_global_function-ends m name in
    let both =
      if_documented-Fails (doc_of (lookup name m)) (λ doc. query_of name doc r)
        (queries_of m shares) in
    let others = queries_of-Fails m shares in
    (
      λ h. elim (both.0 h) [
        | inl (doc, e, f) ↦ (name, inl refl, (doc, e, (query_of-Fails name doc r ends).0 f))
        | inr f ↦ let (n, i, bad) = others.0 f in (n, inr i, bad)
      ],
      λ (n, i, bad). elim i [
        | inl same ↦
            let (doc, e, f) = subst (Faulty m) same bad in
            both.1 (inl (doc, e, (query_of-Fails name doc r ends).1 f))
        | inr j ↦ both.1 (inr (others.1 (n, j, bad)))
      ],
    )

schema_with-Fails :
    (ast : Ruleset) (ops : List Operation) (x : Result (List Query))
    → Fails (schema_with ast ops x) ↔ Fails x
unfolding schema_with
schema_with-Fails ast ops (err e) = (λ h. (e, refl), λ h. (e, refl))
schema_with-Fails ast ops (ok qs) = (λ h. absurd (ok-Fails _ h), λ h. absurd (ok-Fails qs h))

-- The compiler stops with an error on the doc comments exactly when some shared name, whose
-- declaration has a doc comment, stands for no function through aliases, or has a `@param` that
-- names no parameter of that function.
pub build_ruleset_schema-Fails :
    (ast : Ruleset) (shares : List String)
    → Fails (build_ruleset_schema ast shares)
      ↔ ((name : String) × In name shares × Faulty (global_by_name_from ast.global) name)
unfolding build_ruleset_schema
build_ruleset_schema-Fails ast shares =
    let m = global_by_name_from ast.global in
    let outer = schema_with-Fails ast (ruleset_operations ast shares) (queries_of m shares) in
    let inner = queries_of-Fails m shares in (λ h. inner.0 (outer.0 h), λ h. outer.1 (inner.1 h))
