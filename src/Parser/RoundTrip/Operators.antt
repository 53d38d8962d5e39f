-- ===== src/Parser/RoundTrip/Operators.antt =====
-- krl-parser/src/krl.ts: operators and conditionals that are written out.
use pico_engine.Base.{ℕ, ◌+◌, ◌-◌, String, ◌≡◌, refl, ap, ◌∙◌, ◌∷◌, Option, lookup, arith}
use pico_engine.Ast.{infix_operator, unary_operator, conditional}
use pico_engine.Lexer.State.{raw}
use pico_engine.Parser.Rules.{
  prefix_nud, goes_on_rule, either_rule, rules, find_rule, infix_led, conditional_led, type_name,
}
use pico_engine.Parser.State.{done}
use pico_engine.Parser.Chomps.{chomp}
use pico_engine.Parser.Expressions.{expected, run_nud, run_led}
use pico_engine.Parser.Forms.{
  Form, operated, prefixed, choice, node, operator_type, bare, written, IsForm, Follows,
}
use pico_engine.Parser.Steps.{bind-done, chomp-Spells}
use pico_engine.Parser.Written.{
  cost, Reads-append, infix_facts, infix_level, prefix_facts, edge_behind, edge_whole, Spells-rule,
  Spells-Follows,
}
use pico_engine.Parser.Places.{Spine, starts, whole_read, goes_on, run}

module _ (parse_float : String → String) (regexp_error : String × String → Option String) where
  pub prefixed-Spine :
      (op : String) (t : Form)
      → IsForm (prefixed op t)
      → Spine parse_float regexp_error t
      → Spine parse_float regexp_error (prefixed op t)
  unfolding run_nud bare IsForm node cost find_rule
  prefixed-Spine op t (i, w) s f k m c d n lt (x, sp, r) fo =
      let (rule, look, nud, _, _) = prefix_facts op i in
      let found = ap (λ o. either_rule o (lookup (type_name (operator_type op)) rules)) look in
      let (g, a, b) =
        starts parse_float regexp_error (4 + cost t) f k m (prefix_nud 70)
          (unary_operator op (node parse_float t)) c x d
          (ap (λ r. r.nud) (Spells-rule (operator_type op) op c x rule sp found) ∙ nud) sp.3
          (λ g h.
            bind-done (run parse_float regexp_error g 70 x) _ (node parse_float t) d
              (whole_read parse_float regexp_error t g 70 expected x d w s h (omega arith) r fo)
            ∙ ap (λ a. done (unary_operator a (node parse_float t)) d) sp.1)
          (omega arith) in
      (g, omega arith, b)

  pub operated-Spine :
      (op : String) (bp : ℕ) (l r : Form)
      → IsForm (operated op bp l r)
      → Spine parse_float regexp_error l
      → Spine parse_float regexp_error r
      → Spine parse_float regexp_error (operated op bp l r)
  unfolding run_led bare IsForm node cost find_rule
  operated-Spine op bp l r (i, wl, wr) sl sr f k m c d n lt rd fo =
      let (c1, r1, (x, sp, r2)) =
        Reads-append (written (bp - 1) l) ((operator_type op, op) ∷ written bp r) c d rd in
      let (nud, look, _, _, colon) = infix_facts op bp i in
      let bounds = infix_level op bp i in
      let found = ap (λ o. either_rule o (lookup (type_name (operator_type op)) rules)) look in
      let rule =
        Spells-rule (operator_type op) op c1 x (goes_on_rule op nud bp (infix_led op bp)) sp
          found in
      let tight : c1.rule.lbp ≡ bp = ap (λ r. r.lbp) rule in
      let behind =
        Spells-Follows (operator_type op) op c1 x (goes_on_rule op nud bp (infix_led op bp)) sp
          found bp (omega arith) colon in
      let (g, a, b) =
        goes_on parse_float regexp_error l (4 + cost r) f k (bp - 1) m (infix_led op bp)
          (infix_operator op (node parse_float l) (node parse_float r)) c c1 x d wl sl r1
          (λ h. (
            omega (
              arith,
              behind.0,
              edge_behind l bp wl bounds.0 (omega arith) (omega (arith, bounds.1)),
            ),
            behind.1,
          ))
          (omega arith) (omega arith) (ap (λ r. r.led) rule) sp.3
          (λ g h. bind-done (run parse_float regexp_error g bp x) _ (node parse_float r) d (
            whole_read parse_float regexp_error r g bp expected x d wr sr h
              (omega (arith, bounds.1)) r2 fo))
          (omega arith) (omega arith) in
      (g, omega arith, b)

  pub choice-Spine :
      (p q r : Form)
      → IsForm (choice p q r)
      → Spine parse_float regexp_error p
      → Spine parse_float regexp_error q
      → Spine parse_float regexp_error r
      → Spine parse_float regexp_error (choice p q r)
  unfolding run_led bare IsForm node cost find_rule lookup
  choice-Spine p q r (wp, wq, wr) sp sq sr f k m c d n lt rd fo =
      let (c1, r1, (c2, arrow, rest)) = Reads-append (written 10 p) _ c d rd in
      let (c3, r2, (c4, bar, r3)) = Reads-append (written 10 q) _ c2 d rest in
      let rule = Spells-rule raw "=>" c1 c2 _ arrow refl in
      let behind : Follows 10 c1 =
        Spells-Follows raw "=>" c1 c2 _ arrow refl 10 (omega arith) refl in
      let between : Follows 10 c3 = Spells-Follows raw "|" c3 c4 _ bar refl 10 (omega arith) refl in
      let tight : c1.rule.lbp ≡ 10 = ap (λ r. r.lbp) rule in
      let (g, a, b) =
        goes_on parse_float regexp_error p (8 + (cost q + cost r)) f k 10 m conditional_led
          (conditional (node parse_float p) (node parse_float q) (node parse_float r)) c c1 c2 d wp
          sp r1 (λ h. (edge_whole p 10 c1.rule.lbp wp h behind.0 (omega arith), behind.1))
          (omega arith) (omega arith) (ap (λ r. r.led) rule) arrow.3
          (λ g h.
            bind-done (run parse_float regexp_error g 10 c2) _ (node parse_float q) c3 (
              whole_read parse_float regexp_error q g 10 expected c2 c3 wq sq (omega arith)
                (omega arith) r2 between)
            ∙ bind-done (chomp raw "|" c3) _ tt c4 (chomp-Spells raw "|" c3 c4 bar)
            ∙ bind-done (run parse_float regexp_error g 0 c4) _ (node parse_float r) d (
                whole_read parse_float regexp_error r g 0 expected c4 d wr sr (omega arith)
                  (omega arith) r3 fo))
          (omega arith) (omega arith) in
      (g, omega arith, b)
