-- ===== src/Emits/Rules/Choices.antt =====
-- What the emissions of a `choose` block say of the choice.
use pico_engine.Base.{
  String, ◌==◌, ◌≡◌, refl, inl, inr, Bool, true, false, ◌||◌, if◌then◌else◌, List, [], ◌∷◌, ◌++◌,
  Option, none, some, All, All-append, of_option, Bool-cases,
}
use pico_engine.Ast.{
  Node, Nodes, nil, cons, absent, on_final, guard_condition, raise_event, schedule_event,
  declaration, walk, block, first_arg, postlude, action, action_block, Rule,
}
use pico_engine.Emits.Statements.{
  When, on_branch, on_every, on_sample, on_choose, Emit, act, when_of, emit_raise, emit_schedule,
  signals_of, guard_when, walk_statement, walk_statements, walk_postlude_stmts, signal_of,
}
use pico_engine.Emits.Rules.{
  emit_send, emit_action, emit_send_from_action, callee_label, is_label, has_colon, is_identifier,
  action_block_when, key_when, choose_actions, block_actions, condition_when, block_prefix,
  action_emits, postlude_emits, derive_emits_from_rule,
}

abbrev pub is_choose : When → Bool
is_choose (on_choose s) = true
is_choose _ = false

-- `when` does not tell the expression that a `choose` block chooses by.
abbrev pub IsSilent : List When → Type 0
IsSilent = All (λ w. is_choose w ≡ false)

abbrev Silent : List Emit → Type 0
Silent = All (λ e. IsSilent (when_of e))

IsSilent-snoc :
    (w : List When) (x : When) → IsSilent w → is_choose x ≡ false → IsSilent (w ++ (x ∷ []))
IsSilent-snoc w x h e = All-append _ w (x ∷ []) h (e, tt)

signals-Silent : (w : List When) (ns : List Node) → IsSilent w → Silent (signals_of w ns)
unfolding signals_of emit_raise emit_schedule signal_of
signals-Silent w [] h = tt
signals-Silent w (raise_event d t b as' f ∷ ns) h = (h, signals-Silent w ns h)
signals-Silent w (schedule_event d t b as' s at ts ∷ ns) h = (h, signals-Silent w ns h)
signals-Silent w (_ ∷ ns) h = signals-Silent w ns h

guard_silent : (c : Node) → is_choose (guard_when c) ≡ false
unfolding guard_when
guard_silent on_final = refl
guard_silent _ = refl

statement-Silent : (w : List When) (s : Node) → IsSilent w → Silent (walk_statement w s)
unfolding walk_statement signal_of
statement-Silent w (guard_condition c s) h =
    statement-Silent (w ++ (guard_when c ∷ [])) s
      (IsSilent-snoc w (guard_when c) h (guard_silent c))
statement-Silent w (raise_event d t b as' f) h = (h, tt)
statement-Silent w (schedule_event d t b as' s at ts) h = (h, tt)
statement-Silent w (declaration l r doc) h = signals-Silent w (walk (declaration l r doc)) h
statement-Silent w _ h = tt

statements-Silent : (w : List When) (ss : Nodes) → IsSilent w → Silent (walk_statements w ss)
unfolding walk_statement
statements-Silent w nil h = tt
statements-Silent w (cons s ss) h =
    All-append _ (walk_statement w s) _ (statement-Silent w s h) (statements-Silent w ss h)

stmts-Silent : (w : List When) (b : Node) → IsSilent w → Silent (walk_postlude_stmts w b)
unfolding walk_postlude_stmts
stmts-Silent w (block ss) h = statements-Silent w ss h
stmts-Silent w _ h = tt

either-Silent :
    (b : Bool) (o p : Option Emit)
    → Silent (of_option o)
    → Silent (of_option p)
    → Silent (of_option (if b then o else p))
either-Silent true o p h k = h
either-Silent false o p h k = k

emit_action-Silent :
    (c : Node) (l : Option String) (w : List When)
    → IsSilent w
    → Silent (of_option (emit_action c l w))
unfolding emit_action
emit_action-Silent c none w h = tt
emit_action-Silent c (some label) w h =
    let named : Option Emit =
      if has_colon label || is_identifier c then some (act label w) else none in
    either-Silent (label == "send_directive" || label == "noop") none named tt
      (either-Silent (has_colon label || is_identifier c) (some (act label w)) none (h, tt) tt)

action-Silent :
    (a : Node) (w : List When) → IsSilent w → Silent (of_option (emit_send_from_action a w))
unfolding emit_send_from_action emit_send
action-Silent (action l c as' s) w h =
    either-Silent (is_label (callee_label c) "event:send") (some (emit_send (first_arg as') w))
      (emit_action c (callee_label c) w) (h, tt) (emit_action-Silent c (callee_label c) w h)
action-Silent _ w h = tt

key-IsSilent : (a : Node) → IsSilent (key_when a)
unfolding key_when
key-IsSilent (action (some l) c as' s) = (refl, tt)
key-IsSilent (action none c as' s) = tt
key-IsSilent _ = tt

choose_actions-Silent : (w : List When) (as' : Nodes) → IsSilent w → Silent (choose_actions w as')
unfolding choose_actions
choose_actions-Silent w nil h = tt
choose_actions-Silent w (cons a as') h =
    All-append _ (of_option (emit_send_from_action a (w ++ (on_every ∷ key_when a)))) _
      (action-Silent a _ (All-append _ w _ h (refl, key-IsSilent a)))
      (choose_actions-Silent w as' h)

block_actions-Silent : (w : List When) (as' : Nodes) → IsSilent w → Silent (block_actions w as')
unfolding block_actions
block_actions-Silent w nil h = tt
block_actions-Silent w (cons a as') h =
    All-append _ (of_option (emit_send_from_action a w)) _ (action-Silent a w h)
      (block_actions-Silent w as' h)

condition-IsSilent : (c : Node) → IsSilent (condition_when c)
unfolding condition_when
condition-IsSilent absent = tt
condition-IsSilent _ = (refl, tt)

-- In a block of another type.
block_when-IsSilent :
    (bt : String) (d : Node) (w : List When)
    → (bt == "choose") ≡ false
    → IsSilent w
    → IsSilent (action_block_when bt d w)
unfolding action_block_when
block_when-IsSilent bt d w n h = elim (Bool-cases (bt == "every")) [
  | inl e ↦ rw e (IsSilent-snoc w on_every h refl)
  | inr e ↦ elim (Bool-cases (bt == "sample")) [
    | inl e' ↦ rw (e, e') (IsSilent-snoc w on_sample h refl)
    | inr e' ↦ rw (e, e', n) h
  ]
]

either_block-Silent :
    (b : Bool) (w v : List When) (acts : Nodes)
    → IsSilent w
    → (b ≡ false → IsSilent v)
    → Silent (if b then choose_actions w acts else block_actions v acts)
either_block-Silent true w v acts h k = choose_actions-Silent w acts h
either_block-Silent false w v acts h k = block_actions-Silent v acts (k refl)

action_emits-Silent : (b : Node) → Silent (action_emits b)
unfolding action_emits
action_emits-Silent (action_block c bt d acts) =
    either_block-Silent (bt == "choose") (condition_when c)
      (action_block_when bt d (condition_when c)) acts (condition-IsSilent c)
      (λ n. block_when-IsSilent bt d (condition_when c) n (condition-IsSilent c))
action_emits-Silent _ = tt

prefix-IsSilent : (b : Node) → IsSilent (block_prefix b)
unfolding block_prefix
prefix-IsSilent (action_block c bt d acts) = condition-IsSilent c
prefix-IsSilent _ = tt

postlude-Silent : (w : List When) (p : Node) → IsSilent w → Silent (postlude_emits w p)
unfolding postlude_emits
postlude-Silent w (postlude f n a) h =
    let on = λ (b : String). IsSilent-snoc w (on_branch b) h refl in
    All-append _ (walk_postlude_stmts (w ++ (on_branch "fired" ∷ [])) f) _
      (stmts-Silent _ f (on "fired"))
      (All-append _ (walk_postlude_stmts (w ++ (on_branch "notfired" ∷ [])) n) _
        (stmts-Silent _ n (on "notfired")) (stmts-Silent _ a (on "always")))
postlude-Silent w _ h = tt

-- No emission that the schema lists for a rule tells the expression that the rule's `choose` block
-- chooses by: its `when` never has a `choose` element, whatever the rule.
pub derive_emits-IsSilent : (r : Rule) → All (λ e. IsSilent (when_of e)) (derive_emits_from_rule r)
unfolding derive_emits_from_rule
derive_emits-IsSilent r =
    All-append _ (action_emits r.action_block) _ (action_emits-Silent r.action_block)
      (postlude-Silent (block_prefix r.action_block) r.postlude (prefix-IsSilent r.action_block))
