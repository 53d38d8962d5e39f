-- ===== src/Parser/RoundTrip/Calls.antt =====
-- krl-parser/src/krl.ts: calls that are written out.
use pico_engine.Base.{
  ℕ, suc, ◌+◌, ◌≤◌, String, false, ◌==◌, ◌&&◌, ◌||◌, ◌≡◌, refl, ap, ◌∙◌, Option, lookup, arith,
}
use pico_engine.Ast.{application, arguments}
use pico_engine.Lexer.State.{raw}
use pico_engine.Parser.Rules.{find_rule, application_led}
use pico_engine.Parser.State.{State, done, advance, is_at, is_end}
use pico_engine.Parser.Chomps.{chomp}
use pico_engine.Parser.Expressions.{expected, run_led, argument_list, argument_rest, is_name}
use pico_engine.Parser.Forms.{
  Form, Forms, call, last, more, node, nodes, bare, listed, written, IsForm, Spells, Reads, Follows,
}
use pico_engine.Parser.Steps.{bind-done, branch-true, branch-false, is_at-Spells, chomp-Spells}
use pico_engine.Parser.Written.{
  cost, costs, Reads-append, edge_closed, Spells-rule, Spells-Follows, two_more,
}
use pico_engine.Parser.Places.{Spine, whole_read, goes_on, run}
use pico_engine.Parser.Openings.{written-Opens, is_at-other}

module _ (parse_float : String → String) (regexp_error : String × String → Option String) where
  -- One argument, and the token behind it.
  pub argument_read :
      (t : Form) (f : ℕ) (src : String) (c d e : State)
      → IsForm t
      → Spine parse_float regexp_error t
      → 4 + cost t ≤ f
      → Reads c (written 0 t) d
      → Spells d (raw, src) e
      → Follows 0 d
      → (src == "=") ≡ false
      → argument_list parse_float regexp_error (suc f) c
        ≡ argument_rest parse_float regexp_error f (node parse_float t) d
  unfolding argument_list
  argument_read t f src c d e w s n r x fo h =
      let other = is_at-other raw raw src "=" d e x h in
      branch-false (is_end c || is_at raw ")" c) _ _ (written-Opens 0 t w c d r)
      ∙ bind-done (run parse_float regexp_error f 0 c) _ (node parse_float t) d
          (whole_read parse_float regexp_error t f 0 expected c d w s n (omega arith) r fo)
      ∙ branch-false (is_name (node parse_float t) && is_at raw "=" d) _ _ (ground (arith, other))

  -- The list is read up to its closing bracket.
  abbrev pub IsListed : Forms → Type 0
  IsListed rest =
      (f : ℕ) (c d e : State)
      → costs rest ≤ f
      → Reads c (listed rest) d
      → Spells d (raw, ")") e
      → argument_list parse_float regexp_error f c ≡ done (nodes parse_float rest) d

  pub last-IsListed : (t : Form) → IsForm t → Spine parse_float regexp_error t → IsListed (last t)
  unfolding listed nodes costs argument_rest find_rule lookup
  last-IsListed t w s f c d e n r x =
      let (g, p) = two_more f (omega arith) in
      let closing : Follows 0 d = Spells-Follows raw ")" d e _ x refl 0 (omega arith) refl in
      ap (λ f. argument_list parse_float regexp_error f c) p
      ∙ argument_read t (suc g) ")" c d e w s (omega arith) r x closing refl
      ∙ branch-false (is_at raw "," d) _ _ (is_at-other raw raw ")" "," d e x refl)

  pub more-IsListed :
      (t : Form) (rest : Forms)
      → IsForm t
      → Spine parse_float regexp_error t
      → IsListed rest
      → IsListed (more t rest)
  unfolding listed nodes costs argument_rest find_rule lookup
  more-IsListed t rest w s ih f c d e n r x =
      let (g, p) = two_more f (omega arith) in
      let (c1, r1, (c2, comma, r2)) = Reads-append (written 0 t) _ c d r in
      let follows : Follows 0 c1 = Spells-Follows raw "," c1 c2 _ comma refl 0 (omega arith) refl in
      ap (λ f. argument_list parse_float regexp_error f c) p
      ∙ argument_read t (suc g) "," c c1 c2 w s (omega arith) r1 comma follows refl
      ∙ branch-true (is_at raw "," c1) _ _ (is_at-Spells raw "," c1 c2 comma)
      ∙ bind-done (advance c1) _ tt c2 comma.3
      ∙ bind-done (argument_list parse_float regexp_error g c2) _ (nodes parse_float rest) d
          (ih g c2 d e (omega arith) r2 x)

  pub call-Spine :
      (t : Form) (rest : Forms)
      → IsForm t
      → Spine parse_float regexp_error t
      → IsListed rest
      → Spine parse_float regexp_error (call t rest)
  unfolding run_led bare node cost find_rule lookup
  call-Spine t rest w st ls f k m c d n lt rd fo =
      let (c1, r1, (c2, opening, inner)) = Reads-append (written 79 t) _ c d rd in
      let (c3, r2, (c4, closing, e)) = Reads-append (listed rest) _ c2 d inner in
      let rule = Spells-rule raw "(" c1 c2 _ opening refl in
      let behind : Follows 90 c1 =
        Spells-Follows raw "(" c1 c2 _ opening refl 90 (omega arith) refl in
      let tight : c1.rule.lbp ≡ 90 = ap (λ r. r.lbp) rule in
      let left = application (node parse_float t) (arguments (nodes parse_float rest)) in
      let (g, a, b) =
        goes_on parse_float regexp_error t (costs rest) f k 79 m application_led left c c1 c2 d w st
          r1 (λ h. (omega (arith, behind.0, edge_closed t w (omega arith)), behind.1)) (omega arith)
          (omega arith) (ap (λ r. r.led) rule) opening.3
          (λ g h.
            bind-done (argument_list parse_float regexp_error g c2) _ (nodes parse_float rest) c3
              (ls g c2 c3 c4 h r2 closing)
            ∙ bind-done (chomp raw ")" c3) _ tt c4 (chomp-Spells raw ")" c3 c4 closing)
            ∙ ap (done left) e)
          (omega arith) (omega arith) in
      (g, omega arith, b)
