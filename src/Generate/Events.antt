-- ===== src/Generate/Events.antt =====
-- krl-generator's g/EventExpression.js, g/EventOperator.js, g/RaiseEventStatement.js,
-- g/ScheduleEventStatement.js, g/RuleSelect.js and g/RulePostlude.js: how the texts of the
-- children are put together.
use Prim.Native.String.{◌++◌}
use pico_engine.Base.{
  ℕ, ◌+◌, String, Bool, false, ◌==◌, if◌then◌else◌, List, [], ◌∷◌, Option, none, some, has,
}
use pico_engine.Ast.{Node, Nodes, nil, cons, absent, string, identifier, event_operator}
use pico_engine.Generate.Text.{join, cat, starts_with_newline}
use pico_engine.Generate.Pieces.{ind, first, rest, setting_text}

-- `gen` of an identifier that may be missing.
abbrev pub name_text : Option String → String
name_text none = ""
name_text (some s) = s

-- The attribute matches of an event, and ` setting(…)`: on lines of their own from two on.
unfoldable pub event_text : ℕ → String → String → List String → List String → String
unfolding ind setting_text join
event_text l domain type [] setting = cat (domain ∷ " " ∷ type ∷ setting_text setting ∷ [])
event_text l domain type (a ∷ []) setting =
    cat (domain ∷ " " ∷ type ∷ " " ∷ a ∷ setting_text setting ∷ [])
event_text l domain type (a ∷ b ∷ as') [] =
    cat (domain ∷ " " ∷ type ∷ "\n" ∷ ind (l + 2) ∷ join ("\n" ++ ind (l + 2)) (a ∷ b ∷ as') ∷ [])
event_text l domain type (a ∷ b ∷ as') (s ∷ ss) = cat (
    domain
    ∷ " "
    ∷ type
    ∷ "\n"
    ∷ ind (l + 2)
    ∷ join ("\n" ++ ind (l + 2)) (a ∷ b ∷ as')
    ∷ "\n"
    ∷ ind (l + 2)
    ∷ "setting("
    ∷ join ", " (s ∷ ss)
    ∷ ")"
    ∷ [])

abbrev infix_ops : List String
infix_ops = "or" ∷ "and" ∷ "before" ∷ "then" ∷ "after" ∷ []

abbrev ops_n_args : List String
ops_n_args = "any" ∷ "count" ∷ "repeat" ∷ []

abbrev aggregators : List String
aggregators = "max" ∷ "min" ∷ "sum" ∷ "avg" ∷ "push" ∷ []

-- `isInfix`: one of the infix operators with two arguments.
is_infix : Node → Bool
unfolding has
is_infix (event_operator op (cons a (cons b nil))) = has op infix_ops
is_infix _ = false

second : Nodes → Node
second (cons a (cons b ns)) = b
second _ = absent

head_node : Nodes → Node
head_node (cons a ns) = a
head_node nil = absent

-- The value of the third argument of `within`.
third_text : Nodes → String
third_text (cons a (cons b (cons (string s) ns))) = s
third_text (cons a (cons b (cons (identifier s) ns))) = s
third_text _ = ""

fmt_args : ℕ → List String → String
fmt_args l texts =
    cat ("(\n" ∷ ind (l + 1) ∷ join (",\n" ++ ind (l + 1)) texts ∷ "\n" ∷ ind l ∷ ")" ∷ [])

infix_side : ℕ → Node → String → String → String
infix_side l n text deeper =
    if is_infix n then cat ("(\n" ∷ ind (l + 2) ∷ deeper ∷ "\n" ∷ ind (l + 1) ∷ ")" ∷ []) else text

-- The whole of g/EventOperator.js: `texts` are the arguments at this level, `deeper` at the next.
unfoldable pub event_operator_text : ℕ → String → Nodes → List String → List String → String
unfolding has ind join is_infix second head_node third_text fmt_args infix_side
event_operator_text l op args texts deeper =
    if has op ops_n_args
    then cat (op ∷ " " ∷ first texts ∷ " " ∷ fmt_args l (rest deeper) ∷ [])
    else if has op aggregators
    then cat (first texts ∷ " " ∷ op ∷ "(" ∷ join ", " (rest texts) ∷ ")" ∷ [])
    else if op == "within"
    then cat (
        first texts
        ∷ "\n"
        ∷ ind (l + 1)
        ∷ op
        ∷ " "
        ∷ first (rest texts)
        ∷ " "
        ∷ third_text args
        ∷ [])
    else if has op ("between" ∷ "not between" ∷ [])
    then cat (first texts ∷ " " ∷ op ∷ fmt_args l (rest deeper) ∷ [])
    else if is_infix (event_operator op args)
    then cat (
        infix_side l (head_node args) (first texts) (first deeper)
        ∷ "\n"
        ∷ ind (l + 1)
        ∷ op
        ∷ "\n"
        ∷ ind (l + 1)
        ∷ infix_side l (second args) (first (rest texts)) (first (rest deeper))
        ∷ [])
    else op ++ fmt_args l deeper

-- g/RaiseEventStatement.js and g/ScheduleEventStatement.js: which event.
unfoldable pub target_text : Node → String → Option String → String → String
target_text absent both domain type = cat (name_text domain ∷ " event " ∷ type ∷ [])
target_text _ both domain type = "event " ++ both

-- g/RuleSelect.js for `select when`.
unfoldable pub select_when_text : String → String → String
unfolding starts_with_newline
select_when_text event within =
    cat ("select when" ∷ (if starts_with_newline event then "" else " ") ∷ event ∷ within ∷ [])

-- g/RulePostlude.js, `postBlock`.
unfoldable pub post_block : ℕ → List String → String
unfolding ind join
post_block l texts = cat ("{\n" ∷ join ";\n" texts ∷ "\n" ∷ ind l ∷ "}" ∷ [])

-- ` else {…}` and ` finally {…}`, for a block that is there.
postlude_part : ℕ → String → Option (List String) → String
unfolding post_block
postlude_part l word none = ""
postlude_part l word (some texts) = word ++ post_block l texts

-- g/RulePostlude.js: a text is `none` where its block is null. A rule with `notfired` alone has
-- no text.
unfoldable pub postlude_text :
    ℕ → Option (List String) → Option (List String) → Option (List String) → String
unfolding ind post_block postlude_part
postlude_text l (some fired) notfired always = cat (
    ind l
    ∷ "fired "
    ∷ post_block l fired
    ∷ postlude_part l " else " notfired
    ∷ postlude_part l " finally " always
    ∷ [])
postlude_text l none notfired (some always) = cat (ind l ∷ "always " ∷ post_block l always ∷ [])
postlude_text l none notfired none = ""
