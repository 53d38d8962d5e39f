-- ===== src/Lint/Names.antt =====
-- annotationLint.js, `lintUnknownDocTags`, `metaNameSet`, `lintAnnotatedFunctionsNotShared` and
-- `lintExampleKeys`: names in doc comments that stand for nothing.
use Prim.Native.String.{◌++◌ as ◌<>◌}
use pico_engine.Base.{
  String, Bool, true, false, ◌==◌, ◌||◌, if◌then◌else◌, List, [], ◌∷◌, ◌++◌, Option, none, some,
  marked, map, keys, add_keys,
}
use pico_engine.Ast.{
  Node, Nodes, nil, cons, absent, function, identifier, declaration, DocTag, example, DocComment,
  Rule, MetaProperty, Ruleset,
}
use pico_engine.Generate.{cat}
use pico_engine.Derive.Entries.{attr_names}
use pico_engine.Schema.Queries.{Query}
use pico_engine.Schema.Build.{Operation, RulesetSchema}
use pico_engine.Lint.Attrs.{rule_by_name, doc_of_rule}

abbrev unknown_tag : String → String
unknown_tag name = cat ("Unknown doc tag @" ∷ name ∷ " (ignored)" ∷ [])

-- `checkDoc`
unfoldable pub check_doc : Option DocComment → List String
check_doc none = []
check_doc (some doc) = map unknown_tag doc.unknown_tags

unfoldable pub check_rules : List Rule → List String
unfolding check_doc
check_rules [] = []
check_rules (r ∷ rs) = check_doc r.doc ++ check_rules rs

unfoldable pub check_global : Nodes → List String
unfolding check_doc
check_global nil = []
check_global (cons (declaration left right doc) ds) = check_doc doc ++ check_global ds
check_global (cons _ ds) = check_global ds

unfoldable pub lint_unknown_doc_tags : Ruleset → List String
unfolding check_rules check_global
lint_unknown_doc_tags ast = check_rules ast.rules ++ check_global ast.global

unfoldable pub meta_names : String → List MetaProperty → List String → List String
meta_names key [] names = names
meta_names key (p ∷ ps) names =
    meta_names key ps (if p.key == key then add_keys p.ids names else names)

unfoldable pub meta_name_set : Ruleset → String → List String
unfolding meta_names
meta_name_set ast key = meta_names key ast.meta []

-- `dec.right && dec.right.type !== 'Function'`
unfoldable pub no_function : Node → Bool
no_function absent = false
no_function (function ps body ret) = false
no_function _ = true

-- The names of annotated functions that neither list has.
unfoldable pub unlisted : List String → List String → Nodes → List String
unfolding no_function
unlisted shares provides nil = []
unlisted shares provides (cons (declaration (identifier name) right (some doc)) ds) =
    let rest = unlisted shares provides ds in
    if no_function right || (marked name shares || marked name provides) then rest else name ∷ rest
unlisted shares provides (cons _ ds) = unlisted shares provides ds

abbrev unlisted_warning : String → String
unlisted_warning name =
    cat ("Annotated function " ∷ name ∷ " is not listed in meta shares or provides" ∷ [])

unfoldable pub lint_annotated_functions_not_shared : Ruleset → List String
unfolding unlisted meta_name_set
lint_annotated_functions_not_shared ast =
    map unlisted_warning
      (unlisted (meta_name_set ast "shares") (meta_name_set ast "provides") ast.global)

-- The keys of an example's values that are not allowed.
unfoldable pub strange_keys : List String → List String → List String
strange_keys allowed [] = []
strange_keys allowed (k ∷ ks) =
    let rest = strange_keys allowed ks in if marked k allowed then rest else k ∷ rest

abbrev strange_key : String → String → String → String
strange_key name what k = cat ("@example \"" ∷ name ∷ "\" key " ∷ k ∷ what ∷ [])

unfoldable pub check_examples : List String → String → List DocTag → List String
unfolding strange_keys
check_examples allowed what [] = []
check_examples allowed what (example name values ∷ ts) =
    map (strange_key name what) (strange_keys allowed (keys values))
    ++ check_examples allowed what ts
check_examples allowed what (_ ∷ ts) = check_examples allowed what ts

unfoldable pub check_operations : Ruleset → List Operation → List String
unfolding check_examples attr_names rule_by_name doc_of_rule
check_operations ast [] = []
check_operations ast (op ∷ ops) =
    let rest = check_operations ast ops in
    elim (doc_of_rule (rule_by_name op.rule ast.rules)) [
      | none ↦ rest
      | some (r, doc) ↦
          check_examples (attr_names op.attrs) (" is not an attribute of rule " <> op.rule) doc.tags
          ++ rest
    ]

-- The doc comment of the first declaration with a name.
unfoldable pub doc_of_name : String → Nodes → Option DocComment
doc_of_name name nil = none
doc_of_name name (cons (declaration (identifier n) right doc) ds) =
    let rest = doc_of_name name ds in if n == name then doc else rest
doc_of_name name (cons _ ds) = doc_of_name name ds

unfoldable pub check_queries : Ruleset → List Query → List String
unfolding check_examples attr_names doc_of_name
check_queries ast [] = []
check_queries ast (q ∷ qs) =
    let rest = check_queries ast qs in
    elim (doc_of_name q.name ast.global) [
      | none ↦ rest
      | some doc ↦
          check_examples (attr_names q.args) (" is not a parameter of " <> q.name) doc.tags ++ rest
    ]

unfoldable pub lint_example_keys : Ruleset → RulesetSchema → List String
unfolding check_operations check_queries
lint_example_keys ast schema =
    check_operations ast schema.operations ++ check_queries ast schema.queries
