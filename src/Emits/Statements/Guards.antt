-- ===== src/Emits/Statements/Guards.antt =====
-- The emissions of a postlude are its `raise` and `schedule` statements, each under its guards.
use pico_engine.Base.{
  String, ◌≡◌, ◌↔◌, ◌⊎◌, inl, inr, refl, subst, List, [], ◌∷◌, ◌++◌, Option, In, In-append,
  In-append_left, In-append_right,
}
use pico_engine.Ast.{
  Node, Nodes, nil, cons, declaration, guard_condition, raise_event, schedule_event, block, walk,
  to_list, DocComment,
}
use pico_engine.Emits.Statements.{
  When, Emit, emit_raise, emit_schedule, signals_of, guard_when, walk_statement, walk_statements,
  walk_postlude_stmts,
}

-- The statement, or a node of it, makes the emission `e`: a raise or a schedule.
pub data Signals (w : List When) (e : Emit) : Node → Type 0 where
  raises :
      (d : Option String) (t both attrs for_rid : Node)
      → e ≡ emit_raise d t both w
      → Signals w e (raise_event d t both attrs for_rid)
  schedules :
      (d : Option String) (t both attrs : Node) (s : Option String) (at ts : Node)
      → e ≡ emit_schedule d t both w
      → Signals w e (schedule_event d t both attrs s at ts)

-- The statement makes the emission `e`, where `w` must hold for the statement to be reached:
-- each guard on the way adds its condition at the end.
pub data Makes (e : Emit) : List When → Node → Type 0 where
  signal : {w : List When} {n : Node} → Signals w e n → Makes e w n
  guarded :
      {w : List When} {s : Node} (c : Node)
      → Makes e (w ++ (guard_when c ∷ [])) s
      → Makes e w (guard_condition c s)
  declared :
      {w : List When} (l r x : Node) (doc : Option DocComment)
      → In x (walk (declaration l r doc))
      → Signals w e x
      → Makes e w (declaration l r doc)

module _ (e : Emit) where
  Signals-cons :
      (w : List When) (x : Node) (ns : List Node)
      → In e (signals_of w (x ∷ ns))
      → Signals w e x ⊎ In e (signals_of w ns)
  unfolding signals_of
  Signals-cons w (raise_event d t b as' f) ns (inl i) = inl (raises d t b as' f i)
  Signals-cons w (raise_event d t b as' f) ns (inr i) = inr i
  Signals-cons w (schedule_event d t b as' s at ts) ns (inl i) = inl (schedules d t b as' s at ts i)
  Signals-cons w (schedule_event d t b as' s at ts) ns (inr i) = inr i
  Signals-cons w _ ns i = inr i

  Signals-node :
      (w : List When) (ns : List Node)
      → In e (signals_of w ns)
      → (x : Node) × In x ns × Signals w e x
  unfolding signals_of
  Signals-node w [] i = absurd i
  Signals-node w (x ∷ ns) i = elim (Signals-cons w x ns i) [
    | inl s ↦ (x, inl refl, s)
    | inr j ↦ let (y, at, s) = Signals-node w ns j in (y, inr at, s)
  ]

  statement-Makes : (w : List When) (s : Node) → In e (walk_statement w s) → Makes e w s
  unfolding walk_statement
  statement-Makes w (guard_condition c s) i =
      guarded c (statement-Makes (w ++ (guard_when c ∷ [])) s i)
  statement-Makes w (raise_event d t b as' f) (inl i) = signal (raises d t b as' f i)
  statement-Makes w (raise_event d t b as' f) (inr i) = absurd i
  statement-Makes w (schedule_event d t b as' s at ts) (inl i) =
      signal (schedules d t b as' s at ts i)
  statement-Makes w (schedule_event d t b as' s at ts) (inr i) = absurd i
  statement-Makes w (declaration l r doc) i =
      let (x, at, s) = Signals-node w (walk (declaration l r doc)) i in declared l r x doc at s
  statement-Makes w _ i = absurd i

  signals_tail :
      (w : List When) (x : Node) (ns : List Node)
      → In e (signals_of w ns)
      → In e (signals_of w (x ∷ ns))
  unfolding signals_of
  signals_tail w (raise_event d t b as' f) ns i = inr i
  signals_tail w (schedule_event d t b as' s at ts) ns i = inr i
  signals_tail w _ ns i = i

  Signals-head :
      {w : List When} {x : Node} (ns : List Node) → Signals w e x → In e (signals_of w (x ∷ ns))
  unfolding signals_of
  Signals-head ns (raises d t b as' f h) = inl h
  Signals-head ns (schedules d t b as' s at ts h) = inl h

  node-Signals :
      (w : List When) (x : Node) (ns : List Node) → In x ns → Signals w e x → In e (signals_of w ns)
  node-Signals w x [] i s = absurd i
  node-Signals w x (y ∷ ns) (inl same) s = Signals-head ns (rw same at s)
  node-Signals w x (y ∷ ns) (inr i) s = signals_tail w y ns (node-Signals w x ns i s)

  signal_statement : {w : List When} {n : Node} → Signals w e n → In e (walk_statement w n)
  unfolding walk_statement
  signal_statement (raises d t b as' f h) = inl h
  signal_statement (schedules d t b as' s at ts h) = inl h

  Makes-statement : {w : List When} {s : Node} → Makes e w s → In e (walk_statement w s)
  unfolding walk_statement
  Makes-statement (signal s) = signal_statement s
  Makes-statement (guarded c m) = Makes-statement m
  Makes-statement (declared {w = w} l r x doc at s) =
      node-Signals w x (walk (declaration l r doc)) at s

  statements-Makes :
      (w : List When) (ss : Nodes)
      → In e (walk_statements w ss)
      → (s : Node) × In s (to_list ss) × Makes e w s
  unfolding walk_statement
  statements-Makes w nil i = absurd i
  statements-Makes w (cons s ss) i = elim (In-append e (walk_statement w s) _ i) [
    | inl j ↦ (s, inl refl, statement-Makes w s j)
    | inr j ↦ let (x, at, m) = statements-Makes w ss j in (x, inr at, m)
  ]

  Makes-statements :
      (w : List When) (ss : Nodes) (s : Node)
      → In s (to_list ss)
      → Makes e w s
      → In e (walk_statements w ss)
  unfolding walk_statement
  Makes-statements w nil s i m = absurd i
  Makes-statements w (cons x ss) s (inl same) m =
      In-append_left e _ _ (Makes-statement (subst (Makes e w) same m))
  Makes-statements w (cons x ss) s (inr i) m =
      In-append_right e (walk_statement w x) _ (Makes-statements w ss s i m)

-- A block of the postlude yields the emission `e` exactly when one of its statements makes it: a
-- raise or a schedule under any number of guards, whose conditions stand behind the block's own in
-- `when`, outermost first; or one inside a declaration.
pub walk_postlude_stmts-Makes :
    (e : Emit) (w : List When) (ss : Nodes)
    → In e (walk_postlude_stmts w (block ss)) ↔ ((s : Node) × In s (to_list ss) × Makes e w s)
unfolding walk_postlude_stmts
walk_postlude_stmts-Makes e w ss =
    (statements-Makes e w ss, λ (s, i, m). Makes-statements e w ss s i m)
