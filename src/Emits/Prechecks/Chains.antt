-- ===== src/Emits/Prechecks/Chains.antt =====
-- `traceToEventAttr` follows the bindings of the prelude for at most twelve steps.
use pico_engine.Base.{
  ℕ, zero, suc, ◌<◌, ◌≤◌, String, ◌≡◌, ◌↔◌, subst, inl, inr, refl, Option, none, some, ◌∙◌, truthy,
  lookup, Option-cases, arith,
}
use pico_engine.Ast.{Node, identifier}
use pico_engine.Emits.Rules.{reply_to_from_expr}
use pico_engine.Emits.Prechecks.{Bindings, binding_of, trace_levels, trace_to_event_attr}

-- After `h` bindings of the prelude the expression `e` is `event:attr(a)`, for a name `a` that
-- is not empty.
pub data Chain (pre : Bindings) (a : String) : ℕ → Node → Type 0 where
  attr : (e : Node) → truthy (reply_to_from_expr e) ≡ some a → Chain pre a zero e
  bound :
      {h : ℕ} (n : String) (e : Node)
      → lookup n pre ≡ some e
      → Chain pre a h e
      → Chain pre a (suc h) (identifier n)

module _ (pre : Bindings) (a : String) where
  binding_name :
      (e bound : Node)
      → binding_of pre e ≡ some bound
      → (n : String) × (identifier n ≡ e) × (lookup n pre ≡ some bound)
  unfolding binding_of
  binding_name (identifier n) b h = (n, refl, h)
  binding_name _ b h = cc

  trace_bound :
      (levels : ℕ) (e : Node) (o : Option Node)
      → binding_of pre e ≡ o
      → ((b : Node) → trace_levels levels pre b ≡ some a → (h : ℕ) × (h < levels) × Chain pre a h b)
      → elim o [ none ↦ none | some b ↦ trace_levels levels pre b ] ≡ some a
      → (h : ℕ) × (h < suc levels) × Chain pre a h e
  trace_bound levels e none at later t = cc
  trace_bound levels e (some b) at later t =
      let (n, same, found) = binding_name e b at in
      let (h, lt, c) = later b t in
      (suc h, omega arith, subst (Chain pre a (suc h)) same (bound n b found c))

  trace_sound :
      (levels : ℕ) (e : Node)
      → trace_levels levels pre e ≡ some a
      → (h : ℕ) × (h < levels) × Chain pre a h e
  unfolding trace_levels
  trace_sound zero e t = cc
  trace_sound (suc levels) e t = elim (Option-cases (truthy (reply_to_from_expr e))) [
    | inr (b, d) ↦ (0, omega arith, attr e (d ∙ (rw d at t)))
    | inl d ↦ trace_bound levels e (binding_of pre e) refl (trace_sound levels) (rw d at t)
  ]

  trace_complete :
      (levels : ℕ) {h : ℕ} {e : Node}
      → Chain pre a h e
      → h < levels
      → trace_levels levels pre e ≡ some a
  unfolding trace_levels binding_of reply_to_from_expr
  trace_complete zero c lt = absurd (omega arith)
  trace_complete (suc levels) (attr e d) lt = rw d
  trace_complete (suc levels) (bound n e at c) lt = rw at (trace_complete levels c (omega arith))

-- An expression is traced to the event attribute `a` exactly when it is `event:attr(a)`, for a
-- name that is not empty, or a name that the prelude binds, through at most twelve such bindings,
-- to that; so a circle of bindings ends in no attribute.
pub trace_to_event_attr-Chain :
    (pre : Bindings) (a : String) (e : Node)
    → (trace_to_event_attr pre e ≡ some a) ↔ ((h : ℕ) × (h ≤ 12) × Chain pre a h e)
unfolding trace_to_event_attr
trace_to_event_attr-Chain pre a e = (
  λ t. let (h, lt, c) = trace_sound pre a 13 e t in (h, omega arith, c),
  λ (h, le, c). trace_complete pre a 13 c (omega arith),
)
