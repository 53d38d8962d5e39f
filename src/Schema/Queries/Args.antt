-- ===== src/Schema/Queries/Args.antt =====
-- The arguments of a query are the parameters of its function, with what the comment says of each.
use pico_engine.Base.{
  String, ◌==◌, ◌≡◌, ◌∙◌, ap, refl, inl, inr, Bool, true, false, ◌&&◌, if◌then◌else◌, List, [], ◌∷◌,
  Option, none, some, or_else, has, lookup, insert, lookup-insert, lookup-nil, eq_iff, Bool-cases,
  arith,
}
use pico_engine.Ast.{Node, DocTag, attr, param, returns, example}
use pico_engine.Generate.{cat}
use pico_engine.Derive.Entries.{Attr}
use pico_engine.Schema.Queries.{
  ok, err, Param, names_of, ByParam, documented, untagged, function_params, param_tags, args_of,
  doc_query_args,
}

-- Every `@param` names a parameter.
abbrev pub tags_known : List String → List DocTag → Bool
tags_known names [] = true
tags_known names (param n t d ∷ ts) = has n names && tags_known names ts
tags_known names (_ ∷ ts) = tags_known names ts

-- What the last `@param` with the name says.
abbrev pub last_param : List Param → String → List DocTag → Option Attr
last_param params n [] = none
last_param params n (param m t d ∷ ts) =
    or_else (last_param params n ts) (if m == n then some (documented params m t d) else none)
last_param params n (_ ∷ ts) = last_param params n ts

abbrev or_untagged : List Param → String → Option Attr → Attr
or_untagged params n none = untagged params n
or_untagged params n (some a) = a

-- One argument for each parameter, in order: as the last `@param` with its name describes it, or
-- of type Any with no description; without a `@param`, a name that every JavaScript object inherits
-- gives the function of that name.
abbrev pub described : List Param → List DocTag → List Param → List Attr
described params tags [] = []
described params tags ((n, d) ∷ ps) =
    or_untagged params n (last_param params n tags) ∷ described params tags ps

-- The message of the error.
abbrev not_listed : String → String
not_listed name = cat ("@param " ∷ name ∷ " is not in the function parameter list" ∷ [])

module _ (params : List Param) where
  -- The object that the loop over the tags leaves.
  record Filled (tags : List DocTag) (m : ByParam) : Type 0 where
    object : ByParam
    result : param_tags params tags m ≡ ok object
    holds : (n : String) → lookup n object ≡ or_else (last_param params n tags) (lookup n m)

  fill_param :
      (name : String) (t d : Option String) (ts : List DocTag) (m : ByParam)
      → has name (names_of params) ≡ true
      → Filled ts (insert name (documented params name t d) m)
      → Filled (param name t d ∷ ts) m
  unfolding param_tags
  fill_param name t d ts m known f = record {
    object = f.object;
    result = rw known f.result;
    holds = λ n.
        f.holds n
        ∙ ground (arith, lookup-insert name n (documented params name t d) m, eq_iff name n);
  }

  filled :
      (tags : List DocTag) (m : ByParam) → tags_known (names_of params) tags ≡ true → Filled tags m
  unfolding param_tags
  filled [] m h = record { object = m; result = refl; holds = λ n. refl }
  filled (param name t d ∷ ts) m h =
      fill_param name t d ts m (ground arith)
        (filled ts (insert name (documented params name t d) m) (ground arith))
  filled (attr n t o d ∷ ts) m h =
      let f = filled ts m h in record { object = f.object; result = f.result; holds = f.holds }
  filled (returns t d ∷ ts) m h =
      let f = filled ts m h in record { object = f.object; result = f.result; holds = f.holds }
  filled (example n v ∷ ts) m h =
      let f = filled ts m h in record { object = f.object; result = f.result; holds = f.holds }

  unknown_fails :
      (tags : List DocTag) (m : ByParam)
      → tags_known (names_of params) tags ≡ false
      → (message : String) × (param_tags params tags m ≡ err message)
  unfolding param_tags
  unknown_fails [] m h = cc
  unknown_fails (param name t d ∷ ts) m h = elim (Bool-cases (has name (names_of params))) [
    | inl known ↦
        let (e, f) = unknown_fails ts (insert name (documented params name t d) m) (ground arith) in
        (e, rw known f)
    | inr unknown ↦ (not_listed name, rw unknown refl)
  ]
  unknown_fails (attr n t o d ∷ ts) m h = unknown_fails ts m h
  unknown_fails (returns t d ∷ ts) m h = unknown_fails ts m h
  unknown_fails (example n v ∷ ts) m h = unknown_fails ts m h

  args_of-described :
      (tags : List DocTag) (m : ByParam) (ps : List Param)
      → ((n : String) → lookup n m ≡ or_else (last_param params n tags) none)
      → args_of params m ps ≡ described params tags ps
  unfolding args_of
  args_of-described tags m [] h = refl
  args_of-described tags m ((n, d) ∷ ps) h = ground (arith, h n, args_of-described tags m ps h)

-- If every `@param` names a parameter, the query has one argument for each parameter of the
-- function, in order: as the last `@param` with its name describes it, or else, for names that no
-- JavaScript object inherits, of type Any with no description; it is required then unless the
-- parameter has a default.
pub doc_query_args-described :
    (tags : List DocTag) (fn : Node)
    → tags_known (names_of (function_params fn)) tags ≡ true
    → doc_query_args tags fn ≡ ok (described (function_params fn) tags (function_params fn))
unfolding doc_query_args
doc_query_args-described tags fn h =
    let f = filled (function_params fn) tags [] h in
    rw (f.result, doc_query_args)
      (ap ok (
        args_of-described (function_params fn) tags f.object (function_params fn)
          (λ n. f.holds n ∙ rw (lookup-nil {V = Attr} n))))

-- If some `@param` names no parameter of the function, the compiler stops with an error.
pub doc_query_args_fails :
    (tags : List DocTag) (fn : Node)
    → tags_known (names_of (function_params fn)) tags ≡ false
    → (message : String) × (doc_query_args tags fn ≡ err message)
unfolding doc_query_args
doc_query_args_fails tags fn h =
    let (message, e) = unknown_fails (function_params fn) tags [] h in
    (message, rw (e, doc_query_args) refl)
