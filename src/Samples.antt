-- ===== src/Samples.antt =====
-- A ruleset to try the definitions on, and the theorems at concrete inputs.
pub mod Schemas
pub mod Builds
pub mod Compiling
pub mod Texts
pub mod Tokens
pub mod Comments
pub mod Jobs
pub mod Moves
pub mod Parsing
pub mod Picos
pub mod Uses
pub mod Warnings
pub mod Windows
use pico_engine.Base.{String, true, false, List, [], ◌∷◌, Option, Option, none, some}
use pico_engine.Ast.{
  Node, Nodes, nil, cons, absent, string, number, identifier, domain_identifier, infix_operator,
  unary_operator, function, parameters, parameter, application, arguments, declaration,
  event_expression, event_operator, select_when, action_block, action, block, postlude,
  guard_condition, raise_event, DocTag, param, DocComment, Rule,
}
use pico_engine.Derive.Globals.{Globals}

-- `event:attr(name)`
abbrev pub attr_call : String → Node
attr_call name = application (domain_identifier "event" "attr") (arguments (cons (string name) nil))

-- `function(who, count = 1) { event:attr("hidden") }`
abbrev pub greeter : Node
greeter =
    function
      (parameters (cons (parameter "who" absent) (cons (parameter "count" (number "1")) nil))) nil
      (attr_call "hidden")

-- `greet = hello`, `hello = function…`, and the circle `a = b`, `b = a`.
abbrev pub global_block : Nodes
global_block = cons (declaration (identifier "greet") (identifier "hello") none) (
    cons (declaration (identifier "hello") greeter none) (
      cons (declaration (identifier "a") (identifier "b") none)
        (cons (declaration (identifier "b") (identifier "a") none) nil)))

abbrev pub global_names : Globals
global_names =
    ("greet", declaration (identifier "greet") (identifier "hello") none)
    ∷ ("hello", declaration (identifier "hello") greeter none)
    ∷ ("a", declaration (identifier "a") (identifier "b") none)
    ∷ ("b", declaration (identifier "b") (identifier "a") none)
    ∷ []

-- `event:attr("kind") == "short" && event:attr("name") == "Ann"`
abbrev pub kind_clause : Node
kind_clause =
    infix_operator "&&" (infix_operator "==" (attr_call "kind") (string "short"))
      (infix_operator "==" (attr_call "name") (string "Ann"))

abbrev pub echo_hello : Node
echo_hello = event_expression "echo" "hello" nil [] kind_clause absent

abbrev pub echo_either : Node
echo_either =
    event_operator "or"
      (cons echo_hello (cons (event_expression "echo" "hi" nil [] absent absent) nil))

-- `isFull(bin) || greet(bin)`
abbrev pub full_condition : Node
full_condition =
    infix_operator "||"
      (application (identifier "isFull") (arguments (cons (identifier "bin") nil)))
      (application (identifier "greet") (arguments (cons (identifier "bin") nil)))

-- `bin = event:attr("bin")`
abbrev pub prelude : Nodes
prelude = cons (declaration (identifier "bin") (attr_call "bin") none) nil

-- `if isFull(bin) then raise echo event "full"`
abbrev pub guarded_raise : Node
guarded_raise =
    guard_condition (identifier "bin")
      (raise_event (some "echo") (string "full") absent absent absent)

abbrev pub rule_with : String → Option DocComment → Rule
rule_with name comment = record {
  name = name;
  active = true;
  select = select_when echo_either absent;
  foreach = nil;
  prelude = prelude;
  action_block =
      action_block full_condition "choose" (identifier "bin")
        (cons (action (some "first") (identifier "noop") (arguments nil) []) nil);
  postlude = postlude (block (cons guarded_raise nil)) absent absent;
  doc = comment;
}

abbrev pub rule_named : String → Rule
rule_named name = rule_with name none

abbrev pub rules : List Rule
rules = rule_named "answer" ∷ rule_named "record_it" ∷ []

abbrev pub greeter_tags : List DocTag
greeter_tags = param "who" (some "String") none ∷ []
