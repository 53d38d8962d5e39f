-- ===== src/DocComments/Tags.antt =====
-- krl-parser/src/docComment.ts: the tags of a doc comment. `JSON.parse` of a text that starts with
-- a brace is an argument: an object by its members, or the message of the error.
use Prim.Native.String.{◌++◌}
use text.Mathlib.Text.{starts_with}
use pico_engine.Base.{
  String, Bool, true, false, ◌==◌, if◌then◌else◌, has, List, [], ◌∷◌, Option, none, some,
}
use pico_engine.Ast.{Json, DocTag, attr, param, returns, example}
use pico_engine.Generate.{join, trim, trim_start}
use pico_engine.Schema.Queries.{Result, ok, err}
use pico_engine.DocComments.Split.{parse_quoted_string, split_rest}

abbrev pub type_names : List String
type_names = "String" ∷ "Number" ∷ "Boolean" ∷ "Map" ∷ "Array" ∷ "Any" ∷ []

-- `parts.slice(i).join(" ")`, where there are parts left.
unfoldable pub description_of : List String → Option String
description_of [] = none
description_of (p ∷ ps) = some (join " " (p ∷ ps))

-- The type that comes next, `Any` where none does, and the parts behind it.
unfoldable pub type_of : List String → String × List String
type_of [] = ("Any", [])
type_of (p ∷ ps) = if has p type_names then (p, ps) else ("Any", p ∷ ps)

unfoldable pub optional_of : List String → Bool × List String
optional_of [] = (false, [])
optional_of (p ∷ ps) = if p == "optional" then (true, ps) else (false, p ∷ ps)

unfoldable pub attr_from : List String → Result DocTag
unfolding type_of optional_of description_of
attr_from [] = err "@attr requires a name"
attr_from (name ∷ parts) =
    let typed = type_of parts in
    let flagged = optional_of typed.1 in
    ok (attr name (some typed.0) flagged.0 (description_of flagged.1))

unfoldable pub parse_attr_tag : String → Result DocTag
unfolding attr_from split_rest
parse_attr_tag rest = attr_from (split_rest rest)

unfoldable pub param_from : List String → Result DocTag
unfolding type_of description_of
param_from [] = err "@param requires a name"
param_from (name ∷ parts) =
    let typed = type_of parts in ok (param name (some typed.0) (description_of typed.1))

unfoldable pub parse_param_tag : String → Result DocTag
unfolding param_from
parse_param_tag rest = param_from (split_rest rest)

unfoldable pub returns_from : List String → Result DocTag
unfolding description_of
returns_from [] = err "@returns requires a type"
returns_from (type ∷ parts) =
    if has type type_names
    then ok (returns type (description_of parts))
    else err ("Unknown type in @returns: " ++ type)

unfoldable pub parse_returns_tag : String → Result DocTag
unfolding returns_from
parse_returns_tag rest = returns_from (split_rest rest)

abbrev pub JsonParse : Type 0
JsonParse = String → Result (List (String × Json))

unfoldable pub example_from : JsonParse → String → String → Result DocTag
example_from json_parse name text =
    if starts_with text "{"
    then elim (json_parse text) [
      | ok members ↦ ok (example name members)
      | err message ↦ err ("@example JSON map is invalid: " ++ message)
    ]
    else err "@example requires a JSON map after the name"

unfoldable pub parse_example_tag : JsonParse → String → Result DocTag
unfolding example_from
parse_example_tag json_parse rest = elim (parse_quoted_string (trim_start rest)) [
  | none ↦ err "@example requires a quoted name"
  | some (name, behind) ↦ example_from json_parse name (trim behind)
]
