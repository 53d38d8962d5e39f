-- ===== src/Ast/Walk.antt =====
-- `walk` of annotationLint.js and of deriveEmits.js, one text in both: the visits, in order.
-- An object's keys are taken in the order in which the parser sets them. A child that the tree
-- keeps as its text is visited as the node that it stands for. The values inside a doc comment,
-- which are no nodes, are left out.
use pico_engine.Base.{List, [], ◌∷◌, ◌++◌, String, Option, none, some}
use pico_engine.Ast.Defs.{
  Node, Nodes, nil, cons, absent, string, chevron, identifier, infix_operator, unary_operator,
  conditional, member, function, def_action, parameters, parameter, application, arguments,
  named_argument, array, map_literal, map_pair, declaration, event_expression, attribute_match,
  event_operator, event_group_operator, event_aggregator, event_within, select_when, select_where,
  rule_for_each, action_block, action, block, postlude, on_final, guard_condition,
  persistent_assignment, clear_persistent, raise_event, schedule_event, log_statement,
  error_statement, Rule,
}

-- The visits of identifiers that the tree keeps as text.
abbrev ids : List String → List Node
ids [] = []
ids (s ∷ ss) = identifier s ∷ ids ss

abbrev id? : Option String → List Node
id? none = []
id? (some s) = identifier s ∷ []

unfoldable mutual
  pub walk : Node → List Node
  walk absent = []
  walk on_final = []
  walk (block ss) = walk_nodes ss
  walk (chevron ns) = chevron ns ∷ walk_nodes ns
  walk (infix_operator op l r) = infix_operator op l r ∷ (walk l ++ walk r)
  walk (unary_operator op a) = unary_operator op a ∷ walk a
  walk (conditional t c a) = conditional t c a ∷ (walk t ++ (walk c ++ walk a))
  walk (member o m p) = member o m p ∷ (walk o ++ walk p)
  walk (function ps b r) = function ps b r ∷ (walk ps ++ (walk_nodes b ++ walk r))
  walk (def_action ps b ab r) =
      def_action ps b ab r ∷ (walk ps ++ (walk_nodes b ++ (walk ab ++ walk r)))
  walk (parameters ps) = parameters ps ∷ walk_nodes ps
  walk (parameter id d) = parameter id d ∷ (identifier id ∷ walk d)
  walk (application c as') = application c as' ∷ (walk c ++ walk as')
  walk (arguments as') = arguments as' ∷ walk_nodes as'
  walk (named_argument id v) = named_argument id v ∷ (identifier id ∷ walk v)
  walk (array vs) = array vs ∷ walk_nodes vs
  walk (map_literal ps) = map_literal ps ∷ walk_nodes ps
  walk (map_pair k v) = map_pair k v ∷ (string k ∷ walk v)
  walk (declaration l r d) = declaration l r d ∷ (walk l ++ walk r)
  walk (event_expression d t as' s w ag) =
      event_expression d t as' s w ag
      ∷ (identifier d ∷ identifier t ∷ (walk_nodes as' ++ (ids s ++ (walk w ++ walk ag))))
  walk (attribute_match k v) = attribute_match k v ∷ (identifier k ∷ walk v)
  walk (event_operator op as') = event_operator op as' ∷ walk_nodes as'
  walk (event_group_operator op n e) = event_group_operator op n e ∷ (walk n ++ walk e)
  walk (event_aggregator op as') = event_aggregator op as' ∷ ids as'
  walk (event_within e p) = event_within e p ∷ walk e
  walk (select_when e w) = select_when e w ∷ (walk e ++ walk w)
  walk (select_where e) = select_where e ∷ walk e
  walk (rule_for_each e s) = rule_for_each e s ∷ (walk e ++ ids s)
  walk (action_block c b d as') = action_block c b d as' ∷ (walk c ++ (walk d ++ walk_nodes as'))
  walk (action l a as' s) = action l a as' s ∷ (id? l ++ (walk a ++ (walk as' ++ ids s)))
  walk (postlude f n a) = postlude f n a ∷ (walk f ++ (walk n ++ walk a))
  walk (guard_condition c s) = guard_condition c s ∷ (walk c ++ walk s)
  walk (persistent_assignment l p r) = persistent_assignment l p r ∷ (walk l ++ (walk p ++ walk r))
  walk (clear_persistent v p) = clear_persistent v p ∷ (walk v ++ walk p)
  walk (raise_event d t dt as' for_rid) =
      raise_event d t dt as' for_rid
      ∷ (walk as' ++ (walk for_rid ++ (walk dt ++ (walk t ++ id? d))))
  walk (schedule_event d t dt as' s at ts) =
      schedule_event d t dt as' s at ts
      ∷ (walk as' ++ (id? s ++ (walk dt ++ (id? d ++ (walk t ++ (walk at ++ walk ts))))))
  walk (log_statement l e) = log_statement l e ∷ walk e
  walk (error_statement l e) = error_statement l e ∷ walk e
  walk leaf = leaf ∷ []

  pub walk_nodes : Nodes → List Node
  walk_nodes nil = []
  walk_nodes (cons n ns) = walk n ++ walk_nodes ns

-- `walk(rule, visit)`, from the rule's first child on: no visitor looks for the rule itself.
unfoldable pub walk_rule : Rule → List Node
walk_rule r =
    identifier r.name
    ∷ (walk r.select
        ++ (walk_nodes r.foreach
            ++ (walk_nodes r.prelude ++ (walk r.action_block ++ walk r.postlude))))
