-- ===== src/Generate/Pieces.antt =====
-- The parts of krl-generator's printers that do not print a child themselves: they put the
-- texts of the children together.
use Prim.Native.String.{◌++◌, count}
use pico_engine.Base.{
  ℕ, suc, ◌+◌, String, Bool, true, false, not, ◌||◌, ◌==◌, if◌then◌else◌, List, [], ◌∷◌, Option,
  none, some,
}
use Prim.Native.Nat.{compare, Ordering}
use pico_engine.Ast.{
  Node, Nodes, nil, cons, absent, string, infix_operator, conditional, member, Method, index, dot,
  path, application, named_argument, parameter,
}
use pico_engine.Generate.Text.{
  join, repeat, trim, single_lines, escape_chevron, starts_with_letter, cat,
}

unfoldable pub ind : ℕ → String
unfolding repeat
ind n = repeat "    " n

-- A part that is printed only if its node is there.
unfoldable pub optional : Node → String → String
optional absent s = ""
optional _ s = s

unfoldable pub is_absent : Node → Bool
is_absent absent = true
is_absent _ = false

abbrev pub first : List String → String
first [] = ""
first (s ∷ ss) = s

abbrev pub rest : List String → List String
rest [] = []
rest (s ∷ ss) = ss

abbrev more_than : ℕ → ℕ → Bool
more_than n m = elim (compare n m) [ Ordering.lt ↦ true | _ ↦ false ]

unfoldable pub size : Nodes → ℕ
size nil = 0
size (cons n ns) = suc (size ns)

-- g/InfixOperator.js: brackets round an operand that is an operation of another operator.
unfoldable pub bracket : String → Node → String → String
bracket op (infix_operator op' l r) s = if op' == op then s else cat ("(" ∷ s ∷ ")" ∷ [])
bracket op _ s = s

-- g/UnaryOperator.js
unfoldable pub unary_text : String → String → String
unfolding starts_with_letter
unary_text op arg = cat (op ∷ (if starts_with_letter op then " " else "") ∷ arg ∷ [])

-- g/Chevron.js: one part.
unfoldable pub chevron_part : Node → String → String
unfolding escape_chevron
chevron_part (string s) text = escape_chevron s
chevron_part _ text = cat ("#{" ∷ text ∷ "}" ∷ [])

-- g/ConditionalExpression.js: the last alternative.
unfoldable pub alternate_text : ℕ → Node → String → String
unfolding ind
alternate_text l (conditional t c a) text = ind l ++ text
alternate_text l _ text = ind (l + 1) ++ text

-- g/MemberExpression.js: a chain of method calls has a line for each.
unfoldable pub is_chained : Node → Bool
is_chained (application (member o dot p) args) = true
is_chained _ = false

unfoldable pub member_text : ℕ → Node → Method → String → String → String
unfolding ind is_chained
member_text l object path o p = cat (o ∷ "{" ∷ p ∷ "}" ∷ [])
member_text l object index o p = cat (o ∷ "[" ∷ p ∷ "]" ∷ [])
member_text l object dot o p =
    if is_chained object
    then cat (o ∷ "\n" ∷ ind (l + 1) ∷ "." ∷ p ∷ [])
    else cat (o ∷ "." ∷ p ∷ [])

-- A list on lines of its own, with `ind` at both ends.
unfoldable pub on_lines : ℕ → String → List String → String
unfolding ind join
on_lines l last texts =
    cat ("\n" ∷ ind (l + 1) ∷ join (",\n" ++ ind (l + 1)) texts ∷ last ∷ "\n" ∷ ind l ∷ [])

count_named : Nodes → ℕ
count_named nil = 0
count_named (cons (named_argument id v) ns) = suc (count_named ns)
count_named (cons _ ns) = count_named ns

-- g/Arguments.js
unfoldable pub arguments_text : ℕ → Nodes → List String → String
unfolding on_lines count_named join
arguments_text l args texts =
    if more_than 1 (count_named args) then on_lines l "," texts else join ", " texts

has_default : Nodes → Bool
has_default nil = false
has_default (cons (parameter id absent) ns) = has_default ns
has_default (cons (parameter id _) ns) = true
has_default (cons _ ns) = has_default ns

-- g/Parameters.js
unfoldable pub parameters_text : ℕ → Nodes → List String → String
unfolding on_lines has_default join
parameters_text l params texts =
    if has_default params then on_lines l "," texts else join ", " texts

-- g/Array.js
unfoldable pub array_text : ℕ → List String → String
unfolding on_lines join
array_text l texts = cat (
    "["
    ∷ (if more_than 45 (count (join ", " texts)) then on_lines l "" texts else join ", " texts)
    ∷ "]"
    ∷ [])

-- g/Map.js: the texts at the next level, and those at this level for at most one pair.
unfoldable pub map_text : ℕ → Nodes → List String → List String → String
unfolding on_lines size join
map_text l pairs deeper texts =
    cat (
      "{" ∷ (if more_than 1 (size pairs) then on_lines l "" deeper else join ", " texts) ∷ "}" ∷ [])

unfoldable pub regexp_text : String → Bool → Bool → String
regexp_text source global ignore_case = cat (
    "re#"
    ∷ (if source == "(?:)" then "" else source)
    ∷ "#"
    ∷ (if global then "g" else "")
    ∷ (if ignore_case then "i" else "")
    ∷ [])

-- ` setting(a, b)`, or nothing for no name.
unfoldable pub setting_text : List String → String
unfolding join
setting_text [] = ""
setting_text (s ∷ ss) = cat (" setting(" ∷ join ", " (s ∷ ss) ∷ ")" ∷ [])

-- g/Action.js
unfoldable pub action_text : ℕ → Option String → String → String → List String → String
unfolding ind setting_text
action_text l none callee args setting =
    cat ("\n" ∷ ind l ∷ callee ∷ "(" ∷ args ∷ ")" ∷ setting_text setting ∷ ";" ∷ "\n" ∷ [])
action_text l (some label) callee args setting = cat (
    "\n"
    ∷ ind l
    ∷ label
    ∷ " =>\n"
    ∷ ind (l + 1)
    ∷ callee
    ∷ "("
    ∷ args
    ∷ ")"
    ∷ setting_text setting
    ∷ ";"
    ∷ "\n"
    ∷ [])

in_curlies : ℕ → String → String
in_curlies l actions =
    cat ("{\n" ∷ ind (l + 1) ∷ single_lines (trim actions) ∷ "\n" ∷ ind l ∷ "}" ∷ "\n" ∷ [])

-- g/ActionBlock.js: `deeper` is `gen(actions, 1)` and `actions` is `gen(actions)`.
unfoldable pub action_block_text :
    ℕ → Node → String → String → String → Nodes → String → String → String
unfolding ind is_absent in_curlies size
action_block_text l condition cond_text block_type disc_text acts deeper actions =
    let gap = if is_absent condition then "\n" else "" in
    let head =
      if is_absent condition then "" else cat ("\n" ∷ ind l ∷ "if " ∷ cond_text ∷ " then\n" ∷ []) in
    if block_type == "choose"
    then cat (head ∷ gap ∷ ind l ∷ block_type ∷ " " ∷ disc_text ∷ " " ∷ in_curlies l deeper ∷ [])
    else if more_than 1 (size acts) || not (block_type == "every")
    then cat (head ∷ gap ∷ ind l ∷ block_type ∷ " " ∷ in_curlies l deeper ∷ [])
    else if is_absent condition
    then head ++ actions
    else cat (head ∷ ind (l + 1) ∷ trim deeper ∷ "\n" ∷ [])
