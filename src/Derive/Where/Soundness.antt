-- ===== src/Derive/Where/Soundness.antt =====
-- An event that the `where` clause accepts meets every constraint derived from the clause.
use pico_engine.Base.{String, ◌≡◌, Bool, true, Option, some, truthy, In}
use pico_engine.Ast.{Node, infix_operator, string_value}
use pico_engine.Derive.Where.{const, event_attr_name, constraints_from_where}
use pico_engine.Derive.Where.Conjuncts.{
  Conjunct, whole, left, right, constraints_from_where-Demands,
}

-- How the engine evaluates a condition for one event, whose attributes are `attrs`. The two laws
-- are what the compiled code relies on: `&&` accepts only what both sides accept, and `==`
-- between an attribute and a literal accepts only that text.
pub record Evaluation : Type 0 where
  pub accepts : Node → Bool
  pub attrs : String → Option String
  pub and_law :
      (l r : Node)
      → accepts (infix_operator "&&" l r) ≡ true
      → (accepts l ≡ true) × (accepts r ≡ true)
  pub equal_law :
      (l r : Node) (a v : String)
      → truthy (event_attr_name l) ≡ some a
      → string_value r ≡ some v
      → accepts (infix_operator "==" l r) ≡ true
      → attrs a ≡ some v

module _ (ev : Evaluation) where
  Conjunct-accepted :
      (t : Node) {w : Node} → Conjunct t w → ev.accepts w ≡ true → ev.accepts t ≡ true
  Conjunct-accepted t whole h = h
  Conjunct-accepted t (left c) h = Conjunct-accepted t c (ev.and_law _ _ h).0
  Conjunct-accepted t (right c) h = Conjunct-accepted t c (ev.and_law _ _ h).1

  -- If the `where` clause accepts an event, then each constraint `a` is `v` that the compiler
  -- derives from the clause holds of the event's attributes. The evaluation of conditions obeys
  -- the two laws of `Evaluation`.
  pub constraints_from_where_sound :
      (w : Node) (a v : String)
      → ev.accepts w ≡ true
      → In (const a v) (constraints_from_where w)
      → ev.attrs a ≡ some v
  constraints_from_where_sound w a v h i =
      let d = (constraints_from_where-Demands w a v).0 i in
      ev.equal_law d.attr_side d.literal a v d.attr d.value (Conjunct-accepted _ d.conjunct h)
