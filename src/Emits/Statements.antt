-- ===== src/Emits/Statements.antt =====
-- deriveEmits.js, `raiseDomainType`, `emitRaise`, `emitSchedule` and `walkPostludeStmts`.
pub mod Guards
use pico_engine.Base.{
  String, Bool, true, false, ◌==◌, if◌then◌else◌, List, [], ◌∷◌, ◌++◌, Option, none, some, truthy,
}
use pico_engine.Ast.{
  Node, Nodes, nil, cons, absent, string, declaration, guard_condition, on_final, raise_event,
  schedule_event, block, walk,
}
use pico_engine.Derive.Entries.{gen_text}

-- An element of `when`: what must hold for the emission to be made.
pub data When : Type 0 where
  on_branch : String → When
  if_holds : String → When
  on_final_only : When
  on_every : When
  on_sample : When
  on_choose : String → When
  on_key : String → When
  on_condition : String → When

pub data Emit : Type 0 where
  -- A raise or a schedule: `via`, domain, type, the text of a computed type, `when`.
  signal : String → Option String → Option String → Option String → List When → Emit
  -- `event:send`: domain, type, the text of the target, the attribute that names it, `when`.
  send : Option String → Option String → Option String → Option String → List When → Emit
  -- Any other action, by its name.
  act : String → List When → Emit

abbrev pub when_of : Emit → List When
when_of (signal via d t x w) = w
when_of (send d t target reply w) = w
when_of (act n w) = w

-- `{ domain, type, typeExpr }`
abbrev pub Target : Type 0
Target = Option String × Option String × Option String

unfoldable pub typed_target : String → Node → Target
typed_target d (string s) = (some d, some s, none)
typed_target d e = (some d, none, some (gen_text e))

unfoldable pub combined_target : Node → Target
combined_target absent = (none, none, none)
combined_target e = (none, none, some (gen_text e))

unfoldable pub raise_domain_type : Option String → Node → Node → Target
unfolding typed_target combined_target
raise_domain_type none type both = combined_target both
raise_domain_type (some d) absent both = combined_target both
raise_domain_type (some d) type both = typed_target d type

-- The common text of `emitRaise` and `emitSchedule`.
unfoldable pub signal_of : String → Target → List When → Emit
signal_of via (d, t, x) when = signal via d t (truthy x) when

unfoldable pub emit_raise : Option String → Node → Node → List When → Emit
unfolding raise_domain_type signal_of
emit_raise d t both when = signal_of "raise" (raise_domain_type d t both) when

unfoldable pub emit_schedule : Option String → Node → Node → List When → Emit
unfolding raise_domain_type signal_of
emit_schedule d t both when = signal_of "schedule" (raise_domain_type d t both) when

-- The visitor of a declaration's nodes.
unfoldable pub signals_of : List When → List Node → List Emit
unfolding emit_raise emit_schedule
signals_of when [] = []
signals_of when (raise_event d t both attrs for_rid ∷ ns) =
    emit_raise d t both when ∷ signals_of when ns
signals_of when (schedule_event d t both attrs s at ts ∷ ns) =
    emit_schedule d t both when ∷ signals_of when ns
signals_of when (_ ∷ ns) = signals_of when ns

-- What a guard adds to `when`.
unfoldable pub guard_when : Node → When
guard_when on_final = on_final_only
guard_when c = if_holds (gen_text c)

unfoldable mutual
  unfolding emit_raise emit_schedule signals_of guard_when

  -- One statement of `walkPostludeStmts`.
  pub walk_statement : List When → Node → List Emit
  walk_statement when (guard_condition c s) = walk_statement (when ++ (guard_when c ∷ [])) s
  walk_statement when (raise_event d t both attrs for_rid) = emit_raise d t both when ∷ []
  walk_statement when (schedule_event d t both attrs s at ts) = emit_schedule d t both when ∷ []
  walk_statement when (declaration l r doc) = signals_of when (walk (declaration l r doc))
  walk_statement when _ = []

  pub walk_statements : List When → Nodes → List Emit
  walk_statements when nil = []
  walk_statements when (cons s ss) = walk_statement when s ++ walk_statements when ss

-- `if (rule.postlude.fired) walkPostludeStmts(…)`: a null block has no statement.
unfoldable pub walk_postlude_stmts : List When → Node → List Emit
walk_postlude_stmts when (block ss) = walk_statements when ss
walk_postlude_stmts when _ = []
