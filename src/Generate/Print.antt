-- ===== src/Generate/Print.antt =====
-- krl-generator's `generate` and the printers of src/g, one clause for each node type.
use Prim.Native.String.{◌++◌}
use pico_engine.Base.{ℕ, suc, ◌+◌, String, if◌then◌else◌, List, [], ◌∷◌, Option, none, some}
use pico_engine.Ast.{
  Node, Nodes, nil, cons, absent, number, boolean, null, string, regexp, chevron, identifier,
  domain_identifier, infix_operator, unary_operator, conditional, member, function, def_action,
  parameters, parameter, application, arguments, named_argument, array, map_literal, map_pair,
  declaration, event_expression, attribute_match, event_operator, event_group_operator,
  event_aggregator, event_within, select_when, select_where, rule_for_each, action_block, action,
  block, postlude, on_final, guard_condition, persistent_assignment, clear_persistent, raise_event,
  schedule_event, log_statement, error_statement, last_statement, Rule,
}
use pico_engine.Generate.Text.{join, trim_end, json_string, cat}
use pico_engine.Generate.Pieces.{
  ind, optional, bracket, unary_text, chevron_part, alternate_text, member_text, arguments_text,
  parameters_text, array_text, map_text, regexp_text, setting_text, action_text, action_block_text,
}
use pico_engine.Generate.Events.{
  event_text, event_operator_text, target_text, select_when_text, postlude_text,
}

-- `gen(stmt, 1) + ';'` for each statement.
ended : List String → List String
ended [] = []
ended (s ∷ ss) = (s ++ ";") ∷ ended ss

-- g/Function.js
function_text : ℕ → String → List String → String → String
unfolding ind join ended
function_text l params [] ret =
    cat ("function(" ∷ params ∷ "){\n" ∷ ind (l + 1) ∷ ret ∷ ";" ∷ "\n" ∷ ind l ∷ "}" ∷ [])
function_text l params (s ∷ ss) ret = cat (
    "function("
    ∷ params
    ∷ "){\n"
    ∷ join "\n" (ended (s ∷ ss))
    ∷ "\n"
    ∷ ind (l + 1)
    ∷ ret
    ∷ ";"
    ∷ "\n"
    ∷ ind l
    ∷ "}"
    ∷ [])

-- g/DefAction.js
def_action_text : ℕ → String → List String → String → Node → String → String
unfolding ind join optional trim_end
def_action_text l params body actions ret ret_text =
    let statements : String = elim body [ [] ↦ "" | s ∷ ss ↦ join ";\n" (s ∷ ss) ++ ";\n" ] in
    cat (
      trim_end (
        cat (
          "defaction("
          ∷ params
          ∷ "){\n"
          ∷ statements
          ∷ actions
          ∷ optional ret (cat ("\n" ∷ ind (l + 1) ∷ "return " ∷ ret_text ∷ ";" ∷ []))
          ∷ []))
      ∷ "\n"
      ∷ ind l
      ∷ "}"
      ∷ [])

gen_setting : ℕ → Option String → String
unfolding ind
gen_setting l none = ""
gen_setting l (some s) = cat ("\n" ∷ ind (l + 1) ∷ "setting(" ∷ s ∷ ")" ∷ [])

unfoldable mutual
  unfolding gen_setting ind optional join json_string bracket unary_text chevron_part alternate_text
      member_text arguments_text parameters_text array_text map_text regexp_text setting_text
      action_text action_block_text event_text event_operator_text target_text select_when_text
      postlude_text function_text def_action_text

  pub gen : ℕ → Node → String
  gen l absent = ""
  gen l (number s) = s
  gen l (boolean b) = if b then "true" else "false"
  gen l null = "null"
  gen l (string s) = json_string s
  gen l (regexp source g i) = regexp_text source g i
  gen l (chevron parts) = cat ("<<" ∷ join "" (gen_parts l parts) ∷ ">>" ∷ [])
  gen l (identifier s) = s
  gen l (domain_identifier d v) = cat (d ∷ ":" ∷ v ∷ [])
  gen l (infix_operator op a b) =
      cat (bracket op a (gen l a) ∷ " " ∷ op ∷ " " ∷ bracket op b (gen l b) ∷ [])
  gen l (unary_operator op a) = unary_text op (gen l a)
  gen l (conditional t c a) =
      cat (gen l t ∷ " => " ∷ gen l c ∷ " |\n" ∷ alternate_text l a (gen l a) ∷ [])
  gen l (member o m p) = member_text l o m (gen l o) (gen l p)
  gen l (function ps b r) = function_text l (gen l ps) (gen_all (suc l) b) (gen (suc l) r)
  gen l (def_action ps b ab r) =
      def_action_text l (gen l ps) (gen_all (suc l) b) (gen (suc l) ab) r (gen (suc l) r)
  gen l (parameters ps) = parameters_text l ps (gen_all l ps)
  gen l (parameter id d) = cat (id ∷ optional d (" = " ++ gen l d) ∷ [])
  gen l (application c as') = cat (gen l c ∷ "(" ∷ gen l as' ∷ ")" ∷ [])
  gen l (arguments as') = arguments_text l as' (gen_all l as')
  gen l (named_argument id v) = cat (id ∷ " = " ∷ gen l v ∷ [])
  gen l (array vs) = array_text l (gen_all l vs)
  gen l (map_literal ps) = map_text l ps (gen_all (suc l) ps) (gen_all l ps)
  gen l (map_pair k v) = cat (json_string k ∷ ": " ∷ gen l v ∷ [])
  gen l (declaration left right doc) = cat (ind l ∷ gen l left ∷ " = " ∷ gen l right ∷ [])
  gen l (event_expression d t as' s w ag) =
      cat (event_text l d t (gen_all (suc l) as') s ∷ optional w (" where " ++ gen l w) ∷ [])
  gen l (attribute_match k v) = cat (k ∷ " " ∷ gen l v ∷ [])
  gen l (event_operator op as') = event_operator_text l op as' (gen_all l as') (gen_all (suc l) as')
  gen l (event_group_operator op n e) = cat (
      op
      ∷ " "
      ∷ gen l n
      ∷ " (\n"
      ∷ ind (l + 1)
      ∷ gen l e
      ∷ "\n"
      ∷ ind l
      ∷ ")"
      ∷ gen_aggregator l e
      ∷ [])
  gen l (event_aggregator op as') = cat (op ∷ "(" ∷ join ", " as' ∷ ")" ∷ [])
  gen l (event_within e period) = cat ("within " ∷ gen l e ∷ " " ∷ period ∷ [])
  gen l (select_when e w) =
      select_when_text (gen l e) (optional w (cat ("\n" ∷ ind (l + 1) ∷ gen l w ∷ [])))
  gen l (select_where e) = "select where " ++ gen (suc l) e
  gen l (rule_for_each e s) = cat ("foreach " ∷ gen l e ∷ setting_text s ∷ [])
  gen l (action_block c bt d as') =
      action_block_text l c (gen l c) bt (gen l d) as' (join "\n" (gen_all (suc l) as'))
        (join "\n" (gen_all l as'))
  gen l (action label a as' s) = action_text l label (gen l a) (gen l as') s
  gen l (block ss) = join "\n" (gen_all l ss)
  gen l (postlude f n a) = postlude_text l (gen_block l f) (gen_block l n) (gen_block l a)
  gen l on_final = "on final"
  gen l (guard_condition on_final s) = gen l s ++ " on final"
  gen l (guard_condition c s) = cat (gen l s ∷ " if " ∷ gen l c ∷ [])
  gen l (persistent_assignment v p r) =
      cat (ind l ∷ gen l v ∷ optional p (cat ("{" ∷ gen l p ∷ "}" ∷ [])) ∷ " := " ∷ gen l r ∷ [])
  gen l (clear_persistent v p) =
      cat (ind l ∷ "clear " ∷ gen l v ∷ optional p (cat ("{" ∷ gen l p ∷ "}" ∷ [])) ∷ [])
  gen l (raise_event d t dt as' for_rid) = cat (
      ind l
      ∷ "raise "
      ∷ target_text dt (gen l dt) d (gen l t)
      ∷ optional for_rid (" for " ++ gen l for_rid)
      ∷ optional as' (cat ("\n" ∷ ind (l + 1) ∷ "attributes " ∷ gen (suc l) as' ∷ []))
      ∷ [])
  gen l (schedule_event d t dt as' s at ts) = cat (
      ind l
      ∷ "schedule "
      ∷ target_text dt (gen l dt) d (gen l t)
      ∷ optional at (cat ("\n" ∷ ind (l + 1) ∷ "at " ∷ gen l at ∷ []))
      ∷ optional ts (cat ("\n" ∷ ind (l + 1) ∷ "repeat " ∷ gen l ts ∷ []))
      ∷ optional as' (cat ("\n" ∷ ind (l + 1) ∷ "attributes " ∷ gen (suc l) as' ∷ []))
      ∷ gen_setting l s
      ∷ [])
  gen l (log_statement level e) = cat (ind l ∷ "log " ∷ level ∷ " " ∷ gen l e ∷ [])
  gen l (error_statement level e) = cat (ind l ∷ "error " ∷ level ∷ " " ∷ gen l e ∷ [])
  gen l last_statement = ind l ++ "last"

  pub gen_all : ℕ → Nodes → List String
  gen_all l nil = []
  gen_all l (cons n ns) = gen l n ∷ gen_all l ns

  gen_parts : ℕ → Nodes → List String
  gen_parts l nil = []
  gen_parts l (cons n ns) = chevron_part n (gen l n) ∷ gen_parts l ns

  -- g/EventGroupOperator.js reads the aggregator of the event that it holds.
  gen_aggregator : ℕ → Node → String
  gen_aggregator l (event_expression d t as' s w ag) = optional ag (" " ++ gen l ag)
  gen_aggregator l _ = ""

  gen_block : ℕ → Node → Option (List String)
  gen_block l (block ss) = some (gen_all (suc l) ss)
  gen_block l _ = none

-- The lines for `foreach`, each one step further in: `i` is the loop's index.
gen_foreach : ℕ → ℕ → Nodes → String
unfolding ind
gen_foreach l i nil = ""
gen_foreach l i (cons f fs) =
    cat (ind (l + (i + 1)) ∷ gen (l + (i + 1)) f ∷ "\n" ∷ gen_foreach l (i + 1) fs ∷ [])

gen_prelude : ℕ → Nodes → String
unfolding ind join
gen_prelude l nil = ""
gen_prelude l (cons d ds) = cat (
    "\n"
    ∷ ind (l + 1)
    ∷ "pre {\n"
    ∷ join "\n" (gen_all (l + 2) (cons d ds))
    ∷ "\n"
    ∷ ind (l + 1)
    ∷ "}\n"
    ∷ [])

-- g/Rule.js
unfoldable pub gen_rule : ℕ → Rule → String
unfolding ind optional trim_end gen_foreach gen_prelude
gen_rule l r = cat (
    trim_end (
      cat (
        ind l
        ∷ "rule "
        ∷ r.name
        ∷ (if r.active then "" else " is inactive")
        ∷ " {\n"
        ∷ optional r.select (cat (ind (l + 1) ∷ gen (l + 1) r.select ∷ "\n" ∷ []))
        ∷ gen_foreach l 0 r.foreach
        ∷ gen_prelude l r.prelude
        ∷ optional r.action_block (gen (l + 1) r.action_block ++ "\n")
        ∷ optional r.postlude (gen (l + 1) r.postlude ++ "\n")
        ∷ []))
    ∷ "\n"
    ∷ ind l
    ∷ "}"
    ∷ [])

-- `krlGenerator(ast)`, with the default options.
unfoldable pub generate : Node → String
generate n = gen 0 n
