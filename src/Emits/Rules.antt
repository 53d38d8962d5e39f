-- ===== src/Emits/Rules.antt =====
-- deriveEmits.js, `calleeLabel`, `replyToFromExpr`, `mapGetString`, `mapGetExpr`,
-- `emitSendFromAction`, `actionBlockWhen` and `deriveEmitsFromRule`.
pub mod Choices
use Prim.Native.Nat.{compare, Ordering}
use Prim.Native.Char.{Char, code}
use pico_engine.Base.{
  String, Bool, true, false, ◌==◌, ◌&&◌, ◌||◌, if◌then◌else◌, List, [], ◌∷◌, ◌++◌, Option, none,
  some, truthy, of_option,
}
use pico_engine.Ast.{
  Node, Nodes, nil, cons, absent, string, identifier, domain_identifier, application, map_literal,
  map_pair, action, action_block, postlude, string_value, first_arg, Rule,
}
use pico_engine.Generate.{cat}
use pico_engine.Derive.Entries.{gen_text}
use pico_engine.Emits.Statements.{
  When, on_branch, on_every, on_sample, on_choose, on_key, on_condition, Emit, signal, send, act,
  walk_postlude_stmts,
}

unfoldable pub callee_label : Node → Option String
callee_label (identifier s) = some s
callee_label (domain_identifier d v) = some (cat (d ∷ ":" ∷ v ∷ []))
callee_label _ = none

unfoldable pub reply_to_from_expr : Node → Option String
unfolding string_value first_arg
reply_to_from_expr (application (domain_identifier d v) args) =
    if d == "event" && v == "attr" then string_value (first_arg args) else none
reply_to_from_expr _ = none

-- The value of the first pair with a key.
unfoldable pub pair_value : String → Nodes → Node
pair_value key nil = absent
pair_value key (cons (map_pair k v) ps) = if k == key then v else pair_value key ps
pair_value key (cons _ ps) = pair_value key ps

unfoldable pub map_get_expr : Node → String → Node
unfolding pair_value
map_get_expr (map_literal ps) key = pair_value key ps
map_get_expr _ key = absent

-- A string's own text, the printed text of any other expression.
unfoldable pub text_of : Node → Option String
text_of absent = none
text_of (string s) = some s
text_of n = some (gen_text n)

unfoldable pub map_get_string : Node → String → Option String
unfolding map_get_expr text_of
map_get_string m key = text_of (map_get_expr m key)

-- `eciExpr ? derive.gen(eciExpr) : null`
unfoldable pub target_of : Node → Option String
target_of absent = none
target_of n = some (gen_text n)

has_colon : String → Bool
has_colon String.[] = false
has_colon (String.◌∷◌ c s) =
    elim (compare 58 (code c)) [ Ordering.eq ↦ true | _ ↦ false ] || has_colon s

unfoldable pub is_identifier : Node → Bool
is_identifier (identifier s) = true
is_identifier _ = false

-- What is left after `event:send`, by the label.
unfoldable pub emit_action : Node → Option String → List When → Option Emit
unfolding has_colon is_identifier
emit_action callee none when = none
emit_action callee (some label) when =
    if label == "send_directive" || label == "noop"
    then none
    else if has_colon label || is_identifier callee
    then some (act label when)
    else none

unfoldable pub emit_send : Node → List When → Emit
unfolding map_get_string map_get_expr target_of reply_to_from_expr
emit_send arg when =
    let eci = map_get_expr arg "eci" in
    send (map_get_string arg "domain") (map_get_string arg "type") (target_of eci)
      (truthy (reply_to_from_expr eci)) when

unfoldable pub is_label : Option String → String → Bool
is_label none s = false
is_label (some label) s = label == s

unfoldable pub emit_send_from_action : Node → List When → Option Emit
unfolding callee_label first_arg emit_send emit_action is_label
emit_send_from_action (action label callee args setting) when =
    if is_label (callee_label callee) "event:send"
    then some (emit_send (first_arg args) when)
    else emit_action callee (callee_label callee) when
emit_send_from_action _ when = none

-- `block_type === 'choose' && discriminant`
unfoldable pub choose_when : Node → List When
choose_when absent = []
choose_when d = on_choose (gen_text d) ∷ []

unfoldable pub action_block_when : String → Node → List When → List When
unfolding choose_when
action_block_when block_type discriminant prefix =
    if block_type == "every"
    then prefix ++ (on_every ∷ [])
    else if block_type == "sample"
    then prefix ++ (on_sample ∷ [])
    else if block_type == "choose"
    then prefix ++ choose_when discriminant
    else prefix

-- `if (act.label) w.push({ key: act.label.value })`
unfoldable pub key_when : Node → List When
key_when (action (some label) callee args setting) = on_key label ∷ []
key_when _ = []

-- The loop over the actions of a `choose` block, and that over those of any other.
unfoldable pub choose_actions : List When → Nodes → List Emit
unfolding emit_send_from_action key_when
choose_actions prefix nil = []
choose_actions prefix (cons a as') =
    of_option (emit_send_from_action a (prefix ++ (on_every ∷ key_when a)))
    ++ choose_actions prefix as'

unfoldable pub block_actions : List When → Nodes → List Emit
unfolding emit_send_from_action
block_actions when nil = []
block_actions when (cons a as') = of_option (emit_send_from_action a when) ++ block_actions when as'

unfoldable pub condition_when : Node → List When
condition_when absent = []
condition_when c = on_condition (gen_text c) ∷ []

unfoldable pub block_prefix : Node → List When
unfolding condition_when
block_prefix (action_block c block_type d acts) = condition_when c
block_prefix _ = []

unfoldable pub action_emits : Node → List Emit
unfolding condition_when choose_actions block_actions action_block_when
action_emits (action_block c block_type d acts) =
    if block_type == "choose"
    then choose_actions (condition_when c) acts
    else block_actions (action_block_when block_type d (condition_when c)) acts
action_emits _ = []

unfoldable pub postlude_emits : List When → Node → List Emit
unfolding walk_postlude_stmts
postlude_emits prefix (postlude fired notfired always) =
    walk_postlude_stmts (prefix ++ (on_branch "fired" ∷ [])) fired
    ++ (walk_postlude_stmts (prefix ++ (on_branch "notfired" ∷ [])) notfired
        ++ walk_postlude_stmts (prefix ++ (on_branch "always" ∷ [])) always)
postlude_emits prefix _ = []

unfoldable pub derive_emits_from_rule : Rule → List Emit
unfolding action_emits postlude_emits block_prefix
derive_emits_from_rule r =
    action_emits r.action_block ++ postlude_emits (block_prefix r.action_block) r.postlude
