-- ===== src/Ast/Defs.antt =====
-- packages/krl-parser/src/types.ts: the nodes, and the comments and rules above them.
use pico_engine.Base.{String, Bool, List, [], ◌∷◌, Option, none, some}

-- A value in an `@example`: a string, number or boolean, or an array or object, each by its JSON
-- text; or null.
pub data Json : Type 0 where
  scalar nested : String → Json
  json_null : Json

-- `@attr`, `@param`, `@returns` and `@example`.
pub data DocTag : Type 0 where
  attr : String → Option String → Bool → Option String → DocTag
  param : String → Option String → Option String → DocTag
  returns : String → Option String → DocTag
  example : String → List (String × Json) → DocTag

pub record DocComment : Type 0 where
  pub description : String
  pub tags : List DocTag
  pub unknown_tags : List String

-- `object[property]`, `object.property` and `object{property}`.
pub data Method : Type 0 where
  index dot path : Method

mutual
  pub data Node : Type 0 where
    absent : Node
    number : String → Node
    boolean : Bool → Node
    null : Node
    string : String → Node
    regexp : String → Bool → Bool → Node
    chevron : Nodes → Node
    identifier : String → Node
    domain_identifier : String → String → Node
    infix_operator : String → Node → Node → Node
    unary_operator : String → Node → Node
    conditional : Node → Node → Node → Node
    member : Node → Method → Node → Node
    function : Node → Nodes → Node → Node
    def_action : Node → Nodes → Node → Node → Node
    parameters : Nodes → Node
    parameter : String → Node → Node
    application : Node → Node → Node
    arguments : Nodes → Node
    named_argument : String → Node → Node
    array : Nodes → Node
    map_literal : Nodes → Node
    map_pair : String → Node → Node
    declaration : Node → Node → Option DocComment → Node
    event_expression : String → String → Nodes → List String → Node → Node → Node
    attribute_match : String → Node → Node
    event_operator : String → Nodes → Node
    event_group_operator : String → Node → Node → Node
    event_aggregator : String → List String → Node
    event_within : Node → String → Node
    select_when : Node → Node → Node
    select_where : Node → Node
    rule_for_each : Node → List String → Node
    action_block : Node → String → Node → Nodes → Node
    action : Option String → Node → Node → List String → Node
    block : Nodes → Node
    postlude : Node → Node → Node → Node
    on_final : Node
    guard_condition : Node → Node → Node
    persistent_assignment : Node → Node → Node → Node
    clear_persistent : Node → Node → Node
    raise_event : Option String → Node → Node → Node → Node → Node
    schedule_event : Option String → Node → Node → Node → Option String → Node → Node → Node
    log_statement : String → Node → Node
    error_statement : String → Node → Node
    last_statement : Node

  pub data Nodes : Type 0 where
    nil : Nodes
    cons : Node → Nodes → Nodes

pub record Rule : Type 0 where
  pub name : String
  pub active : Bool
  pub select : Node
  pub foreach : Nodes
  pub prelude : Nodes
  pub action_block : Node
  pub postlude : Node
  pub doc : Option DocComment

-- A property of `meta`: its keyword, its text or chevron, and the identifiers that it lists.
pub record MetaProperty : Type 0 where
  pub key : String
  pub value : Node
  pub ids : List String

pub record Ruleset : Type 0 where
  pub rid : String
  pub version : Node
  pub meta : List MetaProperty
  pub global : Nodes
  pub rules : List Rule

abbrev pub to_list : Nodes → List Node
to_list nil = []
to_list (cons n ns) = n ∷ to_list ns

abbrev pub of_list : List Node → Nodes
of_list [] = nil
of_list (n ∷ ns) = cons n (of_list ns)

-- `node.value` of a string literal.
unfoldable pub string_value : Node → Option String
string_value (string s) = some s
string_value _ = none

-- `expr.args && expr.args.args && expr.args.args[0]`.
unfoldable pub first_arg : Node → Node
first_arg (arguments (cons a _)) = a
first_arg _ = absent
