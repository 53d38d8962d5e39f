-- ===== src/Generate/Brackets.antt =====
-- Two expressions that krl-generator prints alike.
use text.Mathlib.TextLemmas.{append_assoc, append-nil}
use pico_engine.Base.{ℕ, String, ◌≡◌, refl, Bool, true, false, eq_refl}
use pico_engine.Ast.{Node, infix_operator, unary_operator}
use pico_engine.Generate.Pieces.{bracket, unary_text}
use pico_engine.Generate.Print.{gen}

-- A chain of one operator is printed without brackets, however it is grouped: `a - (b - c)` has
-- the text of `(a - b) - c`.
pub gen-regrouped :
    (l : ℕ) (op : String) (a b c : Node)
    → gen l (infix_operator op a (infix_operator op b c))
      ≡ gen l (infix_operator op (infix_operator op a b) c)
unfolding gen bracket
gen-regrouped l op a b c = rw (eq_refl op) (simp (append_assoc, append-nil))

abbrev pub is_operation : Node → Bool
is_operation (infix_operator op a b) = true
is_operation _ = false

bare : (op : String) (a : Node) (s : String) → is_operation a ≡ false → bracket op a s ≡ s
unfolding bracket
bare op (infix_operator op' a b) s h = cc
bare op _ s h = refl

unary_bare : (op op' : String) (a : Node) (s : String) → bracket op (unary_operator op' a) s ≡ s
unfolding bracket
unary_bare op op' a s = refl

-- A prefix operator is printed without brackets round its operand: `not (a == b)` has the text of
-- `(not a) == b`, for an `a` that is no operation itself.
pub gen-prefix_regrouped :
    (l : ℕ) (op op' : String) (a b : Node)
    → is_operation a ≡ false
    → gen l (unary_operator op (infix_operator op' a b))
      ≡ gen l (infix_operator op' (unary_operator op a) b)
unfolding gen unary_text
gen-prefix_regrouped l op op' a b h =
    rw (bare op' a (gen l a) h, unary_bare op' op a) (simp (append_assoc, append-nil))
