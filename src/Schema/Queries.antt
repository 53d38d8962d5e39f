-- ===== src/Schema/Queries.antt =====
-- rulesetSchema.js, `functionParamNames`, `docQueryArgs` and the loop over `shares`: the shared
-- functions that have a doc comment.
pub mod Args
use pico_engine.Base.{
  String, Bool, true, false, not, if◌then◌else◌, List, [], ◌∷◌, Option, none, some, truthy, has,
  lookup, insert, is_proto, ◌==◌,
}
use pico_engine.Ast.{
  Node, Nodes, nil, cons, absent, parameter, parameters, function, declaration, DocTag, attr, param,
  returns, example, DocComment,
}
use pico_engine.Generate.{cat}
use pico_engine.Derive.Globals.{Globals, Resolved, found, missing, no_fuel, resolve_global_function}
use pico_engine.Derive.Entries.{Attr}
use pico_engine.Schema.Docs.{type_or_any, doc_returns, Example, doc_examples}

-- A compile error is its message; `comp.error` adds the place in the source to it.
pub data Result {ℓ} (A : Type ℓ) : Type ℓ where
  ok : A → Result A
  err : String → Result A

-- A parameter with whether it has a default.
abbrev pub Param : Type 0
Param = String × Bool

unfoldable pub has_default : Node → Bool
has_default absent = false
has_default _ = true

unfoldable pub params_from : Nodes → List Param
unfolding has_default
params_from nil = []
params_from (cons (parameter id d) ps) = (id, has_default d) ∷ params_from ps
params_from (cons _ ps) = params_from ps

unfoldable pub function_params : Node → List Param
unfolding params_from
function_params (function (parameters ps) body ret) = params_from ps
function_params _ = []

abbrev pub names_of : List Param → List String
names_of [] = []
names_of ((n, d) ∷ ps) = n ∷ names_of ps

-- `defaults[name]`, where the last parameter of a name counts.
unfoldable pub default_of : String → List Param → Bool
unfolding has
default_of n [] = false
default_of n ((m, d) ∷ ps) =
    let rest = default_of n ps in
    if has n (names_of ps) then rest else if has n (m ∷ []) then d else false

abbrev pub ByParam : Type 0
ByParam = List (String × Attr)

abbrev pub documented : List Param → String → Option String → Option String → Attr
documented params name type description = record {
  name = name;
  kind = type_or_any type;
  required = not (default_of name params);
  description = truthy description;
  pattern = none;
}

abbrev pub undocumented : List Param → String → Attr
undocumented params name = record {
  name = name;
  kind = "Any";
  required = not (default_of name params);
  description = none;
  pattern = none;
}

-- The loop over the `@param` tags.
unfoldable pub param_tags : List Param → List DocTag → ByParam → Result ByParam
unfolding has
param_tags params [] m = ok m
param_tags params (param name type description ∷ ts) m =
    let rest = param_tags params ts (insert name (documented params name type description) m) in
    if has name (names_of params)
    then rest
    else err (cat ("@param " ∷ name ∷ " is not in the function parameter list" ∷ []))
param_tags params (_ ∷ ts) m = param_tags params ts m

-- The argument where `byName[name]` is a function that every object inherits: of its properties only
-- `name` is one of an argument too; its `type`, which is not there, is the empty text.
abbrev pub inherited_arg : String → Attr
inherited_arg name = record {
  name = if name == "constructor" then "Object" else name;
  kind = "";
  required = false;
  description = none;
  pattern = none;
}

-- The argument of a parameter that no `@param` names.
abbrev pub untagged : List Param → String → Attr
untagged params name = if is_proto name then inherited_arg name else undocumented params name

-- The loop over the parameter names.
unfoldable pub args_of : List Param → ByParam → List Param → List Attr
args_of params m [] = []
args_of params m ((n, d) ∷ ps) =
    elim (lookup n m) [ none ↦ untagged params n | some a ↦ a ] ∷ args_of params m ps

unfoldable pub doc_query_args : List DocTag → Node → Result (List Attr)
unfolding param_tags args_of function_params
doc_query_args tags fn =
    let params = function_params fn in
    elim (param_tags params tags []) [ err e ↦ err e | ok m ↦ ok (args_of params m params) ]

pub record Query : Type 0 where
  pub name : String
  pub description : String
  pub args : List Attr
  pub returns_type : String
  pub examples : List Example

unfoldable pub query_with : String → DocComment → Result (List Attr) → Result Query
query_with name doc (err e) = err e
query_with name doc (ok args) = ok (record {
  name = name;
  description = doc.description;
  args = args;
  returns_type = doc_returns doc.tags;
  examples = doc_examples doc.tags;
})

unfoldable pub query_of : String → DocComment → Resolved → Result Query
unfolding doc_query_args query_with
query_of name doc (found fn) = query_with name doc (doc_query_args doc.tags fn)
query_of name doc _ = err (cat ("Doc annotation on shared " ∷ name ∷ " requires a function" ∷ []))

-- The doc comment of the declaration with a name.
unfoldable pub doc_of : Option Node → Option DocComment
doc_of (some (declaration l r doc)) = doc
doc_of _ = none

-- `queries.push`, where the loop goes on only without an error.
unfoldable pub put_query : Result Query → Result (List Query) → Result (List Query)
put_query (err e) rest = err e
put_query (ok q) (err e) = err e
put_query (ok q) (ok qs) = ok (q ∷ qs)

-- `if (!dec || !dec.doc) continue`
unfoldable pub if_documented :
    Option DocComment → (DocComment → Result Query) → Result (List Query) → Result (List Query)
unfolding put_query
if_documented none query rest = rest
if_documented (some doc) query rest = put_query (query doc) rest

unfoldable pub queries_of : Globals → List String → Result (List Query)
unfolding query_of doc_of if_documented
queries_of m [] = ok []
queries_of m (name ∷ shares) =
    if_documented (doc_of (lookup name m))
      (λ doc. query_of name doc (resolve_global_function m name)) (queries_of m shares)
