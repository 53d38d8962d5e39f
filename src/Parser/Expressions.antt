-- ===== src/Parser/Expressions.antt =====
-- krl-parser/src/krl.ts: expressions. The fuel counts nested calls; `parseFloat` and the errors of
-- `new RegExp` are arguments. Left out are `defaction`, and a map whose key goes on behind its
-- string, which `chompString` lets through although the node is no string then.
use Prim.Native.Nat.{compare, Ordering}
use Prim.Native.String.{◌++◌}
use pico_engine.Base.{
  ℕ, zero, suc, ◌*◌, String, Bool, true, false, ◌&&◌, ◌||◌, ◌==◌, List, [], ◌∷◌, Option, none, some,
  length,
}
use pico_engine.Ast.{
  Node, Nodes, nil, cons, absent, number, boolean, null, string, chevron, identifier,
  infix_operator, unary_operator, conditional, member, dot, index, path, function, parameters,
  parameter, application, arguments, named_argument, array, map_literal, map_pair, declaration,
  string_value,
}
use pico_engine.Lexer.State.{
  TokenType, Token, raw, symbol, chevron_string, chevron_beesting_open, chevron_beesting_close,
  chevron_close,
}
use pico_engine.Lexer.State as Kind
use pico_engine.Parser.Rules.{
  Nud, map_nud, brackets_nud, array_nud, function_nud, def_action_nud, null_nud, symbol_nud,
  number_nud, string_nud, chevron_nud, regexp_nud, boolean_nud, prefix_nud, Led, dot_led, path_led,
  application_led, index_led, conditional_led, infix_led, reserved_words,
}
use pico_engine.Parser.State.{
  State, Outcome, done, failed, left_out, out_of_fuel, ◌>>=◌, advance_base, advance, next_token,
  is_at, is_end, same_type,
}
use pico_engine.Parser.Chomps.{
  chomp, chomp_maybe, is_identifier, chomp_identifier, after_colon,
  chomp_identifier_or_domain_identifier,
}
use pico_engine.Parser.Values.{string_of, chevron_string_of, regexp_of, regexp_node}
use pico_engine.Base as Base

abbrev pub binds_tighter : ℕ → ℕ → Bool
binds_tighter rbp lbp = elim (compare rbp lbp) [ Ordering.lt ↦ true | _ ↦ false ]

-- A function that a rule may lack, or what the parser says without it.
abbrev pub or_failed : {A B : Type 0} → Option A → String → (A → Outcome B) → Outcome B
or_failed none message use_it = failed message
or_failed (some a) message use_it = use_it a

-- The branches are called, so that only one of them is followed.
abbrev pub branch :
    {A : Type 0} → Bool → (Unit {0} → Outcome A) → (Unit {0} → Outcome A) → Outcome A
branch true yes_branch no_branch = yes_branch tt
branch false yes_branch no_branch = no_branch tt

abbrev pub consed : Node → Outcome Nodes → Outcome Nodes
consed n r = r >>= λ ns c. done (cons n ns) c

abbrev pub expected : String
expected = "Expected an expression"

abbrev pub is_assignment : Option Token → Bool
is_assignment none = false
is_assignment (some t) = same_type t.type raw && t.src == "="

-- The end of the declarations, where no doc comment may stand.
abbrev pub end_of_declarations : Option Token → State → Outcome Nodes
end_of_declarations none c = done nil c
end_of_declarations (some doc) c =
    failed "Doc comment must immediately precede a rule or shared global declaration"

abbrev pub is_name : Node → Bool
is_name (identifier _) = true
is_name _ = false

abbrev named : Node → Node → Node
named (identifier name) value = named_argument name value
named other value = value

module _ (parse_float : String → String) (regexp_error : String × String → Option String) where
  abbrev pub regexp_literal : String × String → Option String → State → Outcome Node
  regexp_literal parts none c = done (regexp_node parts) c
  regexp_literal parts (some message) c = failed message

  unfoldable mutual
    unfolding regexp_of string_of

    pub expression : ℕ → ℕ → String → State → Outcome Node
    expression zero rbp message c = out_of_fuel
    expression (suc f) rbp message c =
        or_failed c.rule.nud message
          λ n. advance c >>= λ _ d. run_nud f n c.token d >>= λ left e. operators f rbp left e

    -- The loop of `expression`.
    pub operators : ℕ → ℕ → Node → State → Outcome Node
    operators zero rbp left c = out_of_fuel
    operators (suc f) rbp left c =
        branch (binds_tighter rbp c.rule.lbp)
          (λ _. advance c >>= λ _ d.
            or_failed c.rule.led ("Rule does not have a .led " ++ c.rule.id)
              λ l. run_led f l c.token left d >>= λ left' e. operators f rbp left' e)
          (λ _. done left c)

    pub run_nud : ℕ → Nud → Token → State → Outcome Node
    run_nud zero nud t c = out_of_fuel
    run_nud (suc f) map_nud t c =
        map_items f c >>= λ ps d. chomp raw "}" d >>= λ _ e. done (map_literal ps) e
    run_nud (suc f) brackets_nud t c =
        expression f 0 expected c >>= λ e d. chomp raw ")" d >>= λ _ d'. done e d'
    run_nud (suc f) array_nud t c =
        array_items f c >>= λ vs d. chomp raw "]" d >>= λ _ e. done (array vs) e
    run_nud (suc f) function_nud t c = chomp raw "(" c >>= λ _ c1. parameter_list f c1 >>= λ ps c2.
        chomp raw ")" c2 >>= λ _ c3. chomp raw "{" c3 >>= λ _ c4.
        declaration_list f c4 >>= λ body c5. chomp_maybe symbol "return" c5 >>= λ _ c6.
        expression f 0 "Expected the function return expression" c6 >>= λ value c7.
        chomp_maybe raw ";" c7 >>= λ _ c8.
        chomp raw "}" c8 >>= λ _ c9. done (function (parameters ps) body value) c9
    run_nud (suc f) def_action_nud t c = left_out
    run_nud (suc f) null_nud t c = done null c
    run_nud (suc f) symbol_nud t c =
        branch (Base.has t.src reserved_words) (λ _. failed "Reserved word")
          (λ _. chomp_maybe raw ":" c >>= λ colon d. after_colon t.src colon d)
    run_nud (suc f) number_nud t c = done (number (parse_float t.src)) c
    run_nud (suc f) string_nud t c = done (string (string_of t.src)) c
    run_nud (suc f) chevron_nud t c =
        chevron_parts f c >>= λ ps d. chomp chevron_close ">>" d >>= λ _ e. done (chevron ps) e
    run_nud (suc f) regexp_nud t c =
        regexp_literal (regexp_of t.src) (regexp_error (regexp_of t.src)) c
    run_nud (suc f) (boolean_nud b) t c = done (boolean b) c
    run_nud (suc f) (prefix_nud rbp) t c =
        expression f rbp expected c >>= λ arg d. done (unary_operator t.src arg) d

    pub run_led : ℕ → Led → Token → Node → State → Outcome Node
    run_led zero led t left c = out_of_fuel
    run_led (suc f) dot_led t left c =
        chomp_identifier_or_domain_identifier c >>= λ property d. done (member left dot property) d
    run_led (suc f) path_led t left c = expression f 0 expected c >>= λ property d.
        chomp raw "}" d >>= λ _ e. done (member left path property) e
    run_led (suc f) application_led t left c = argument_list f c >>= λ args d.
        chomp raw ")" d >>= λ _ e. done (application left (arguments args)) e
    run_led (suc f) index_led t left c = expression f 0 expected c >>= λ property d.
        chomp raw "]" d >>= λ _ e. done (member left index property) e
    run_led (suc f) conditional_led t left c = expression f 10 expected c >>= λ consequent d.
        chomp raw "|" d >>= λ _ e.
        expression f 0 expected e >>= λ alternate g. done (conditional left consequent alternate) g
    run_led (suc f) (infix_led op bp) t left c =
        expression f bp expected c >>= λ right d. done (infix_operator op left right) d

    pub array_items : ℕ → State → Outcome Nodes
    array_items zero c = out_of_fuel
    array_items (suc f) c =
        branch (c.rule.id == "]") (λ _. done nil c)
          (λ _. expression f 0 expected c >>= λ v d.
            branch (d.rule.id == ",") (λ _. advance d >>= λ _ e. consed v (array_items f e))
              (λ _. done (cons v nil) d))

    pub map_items : ℕ → State → Outcome Nodes
    map_items zero c = out_of_fuel
    map_items (suc f) c =
        branch (c.rule.id == "}") (λ _. done nil c)
          (λ _.
            branch (same_type c.token.type Kind.string)
              (λ _. expression f 0 expected c >>= λ key d. chomp raw ":" d >>= λ _ e.
                expression f 0 expected e >>= λ v g. map_rest f (string_value key) v g)
              (λ _. failed "Expected String"))

    pub map_rest : ℕ → Option String → Node → State → Outcome Nodes
    map_rest zero key v c = out_of_fuel
    map_rest (suc f) none v c = left_out
    map_rest (suc f) (some key) v c =
        branch (c.rule.id == ",")
          (λ _. advance c >>= λ _ d. consed (map_pair key v) (map_items f d))
          (λ _. done (cons (map_pair key v) nil) c)

    -- The loop of `chompArgumentsBase`.
    pub argument_list : ℕ → State → Outcome Nodes
    argument_list zero c = out_of_fuel
    argument_list (suc f) c =
        branch (is_end c || is_at raw ")" c) (λ _. done nil c)
          (λ _. expression f 0 expected c >>= λ a d.
            branch (is_name a && is_at raw "=" d)
              (λ _. advance d >>= λ _ e.
                expression f 0 expected e >>= λ v g. argument_rest f (named a v) g)
              (λ _. argument_rest f a d))

    pub argument_rest : ℕ → Node → State → Outcome Nodes
    argument_rest zero a c = out_of_fuel
    argument_rest (suc f) a c =
        branch (is_at raw "," c) (λ _. advance c >>= λ _ d. consed a (argument_list f d))
          (λ _. done (cons a nil) c)

    pub parameter_list : ℕ → State → Outcome Nodes
    parameter_list zero c = out_of_fuel
    parameter_list (suc f) c =
        branch (is_end c || is_at raw ")" c) (λ _. done nil c)
          (λ _. chomp_identifier c >>= λ name d.
            branch (is_at raw "=" d)
              (λ _. advance d >>= λ _ e.
                expression f 0 expected e >>= λ v g. parameter_rest f (parameter name v) g)
              (λ _. parameter_rest f (parameter name absent) d))

    pub parameter_rest : ℕ → Node → State → Outcome Nodes
    parameter_rest zero p c = out_of_fuel
    parameter_rest (suc f) p c =
        branch (is_at raw "," c) (λ _. advance c >>= λ _ d. consed p (parameter_list f d))
          (λ _. done (cons p nil) c)

    -- `declarationList` without shared names, as in the body of a function: a doc comment before a
    -- declaration is passed over.
    pub declaration_list : ℕ → State → Outcome Nodes
    declaration_list zero c = out_of_fuel
    declaration_list (suc f) c =
        branch (is_end c) (λ _. done nil c)
          (λ _.
            branch (is_identifier c)
              (λ _. next_token c.rest c >>= λ next _.
                branch (is_assignment next)
                  (λ _. declaration_of f c >>= λ n d.
                    chomp_maybe raw ";" d >>= λ _ e. consed n (declaration_list f e))
                  (λ _. end_of_declarations c.doc c))
              (λ _. end_of_declarations c.doc c))

    pub declaration_of : ℕ → State → Outcome Node
    declaration_of zero c = out_of_fuel
    declaration_of (suc f) c =
        branch (is_identifier c)
          (λ _. chomp_identifier c >>= λ name d.
            branch (is_at raw "=" d)
              (λ _. advance d >>= λ _ e. expression f 0 expected e >>= λ right g.
                done (declaration (identifier name) right none) g)
              (λ _. failed "Expected a declaration"))
          (λ _. failed "Expected a declaration")

    pub chevron_parts : ℕ → State → Outcome Nodes
    chevron_parts zero c = out_of_fuel
    chevron_parts (suc f) c =
        branch (same_type c.token.type chevron_string)
          (λ _. advance c >>= λ _ d.
            consed (string (chevron_string_of c.token.src)) (chevron_parts f d))
          (λ _.
            branch (same_type c.token.type chevron_beesting_open)
              (λ _. advance c >>= λ _ d. expression f 0 expected d >>= λ v e.
                chomp chevron_beesting_close "}" e >>= λ _ g. consed v (chevron_parts f g))
              (λ _. done nil c))

  -- `parseCore` with `expression`: the whole of the tokens. The first token of none has no place.
  abbrev whole : Outcome Node → Outcome Node
  whole r = r >>= λ e c.
      branch (c.rule.id == "(end)") (λ _. done e c)
        (λ _. failed ("Expected `(end)` but was " ++ c.rule.id))

  -- `parseExpression` with the nested calls counted.
  unfoldable pub parse_within : ℕ → List Token → Outcome Node
  unfolding expression advance_base
  parse_within f [] = failed "Cannot read properties of undefined"
  parse_within f (t ∷ ts) = advance_base none (t ∷ ts) >>= λ _ c. whole (expression f 0 expected c)

  unfoldable pub parse_expression : List Token → Outcome Node
  unfolding parse_within
  parse_expression tokens = parse_within (8 * length tokens) tokens
