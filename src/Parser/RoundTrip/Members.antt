-- ===== src/Parser/RoundTrip/Members.antt =====
-- krl-parser/src/krl.ts: members and indices that are written out.
use pico_engine.Base.{◌+◌, String, false, ◌≡◌, refl, ap, ◌∙◌, Option, lookup, arith}
use pico_engine.Ast.{identifier, member, dot, index}
use pico_engine.Lexer.State.{raw}
use pico_engine.Parser.Rules.{find_rule, dot_led, index_led}
use pico_engine.Parser.State.{done, is_at}
use pico_engine.Parser.Chomps.{
  chomp, chomp_maybe, chomp_identifier, chomp_identifier_or_domain_identifier,
}
use pico_engine.Parser.Expressions.{expected, run_led}
use pico_engine.Parser.Forms.{Form, dot_word, at_index, node, bare, written, IsForm, Follows}
use pico_engine.Parser.Steps.{bind-done, chomp-Spells}
use pico_engine.Parser.Written.{cost, Reads-append, edge_closed, Spells-rule, Spells-Follows}
use pico_engine.Parser.Places.{Spine, whole_read, goes_on, run}
use pico_engine.Parser.Openings.{chomp_maybe-other, chomp_identifier-Spells}

module _ (parse_float : String → String) (regexp_error : String × String → Option String) where
  pub dot_word-Spine :
      (t : Form) (s : String)
      → IsForm (dot_word t s)
      → Spine parse_float regexp_error t
      → Spine parse_float regexp_error (dot_word t s)
  unfolding run_led bare IsForm node cost find_rule lookup chomp_identifier_or_domain_identifier
  dot_word-Spine t s (w, (_, free)) st f k m c d n lt rd fo =
      let (c1, r1, (c2, point, (c3, name, e))) = Reads-append (written 79 t) _ c d rd in
      let rule = Spells-rule raw "." c1 c2 _ point refl in
      let behind : Follows 80 c1 =
        Spells-Follows raw "." c1 c2 _ point refl 80 (omega arith) refl in
      let tight : c1.rule.lbp ≡ 80 = ap (λ r. r.lbp) rule in
      let (g, a, b) =
        goes_on parse_float regexp_error t 0 f k 79 m dot_led
          (member (node parse_float t) dot (identifier s)) c c1 c2 d w st r1
          (λ h. (omega (arith, behind.0, edge_closed t w (omega arith)), behind.1)) (omega arith)
          (omega arith) (ap (λ r. r.led) rule) point.3
          (λ g h.
            bind-done (chomp_identifier_or_domain_identifier c2) _ (identifier s) c3 (
              bind-done (chomp_identifier c2) _ s c3 (chomp_identifier-Spells s c2 c3 name free)
              ∙ bind-done (chomp_maybe raw ":" c3) _ false c3
                  (chomp_maybe-other raw ":" c3 (ap (is_at raw ":") e ∙ fo.1)))
            ∙ ap (done (member (node parse_float t) dot (identifier s))) e)
          (omega arith) (omega arith) in
      (g, omega arith, b)

  pub at_index-Spine :
      (t i : Form)
      → IsForm (at_index t i)
      → Spine parse_float regexp_error t
      → Spine parse_float regexp_error i
      → Spine parse_float regexp_error (at_index t i)
  unfolding run_led bare IsForm node cost find_rule lookup
  at_index-Spine t i (w, wi) st si f k m c d n lt rd fo =
      let (c1, r1, (c2, opening, inner)) = Reads-append (written 79 t) _ c d rd in
      let (c3, r2, (c4, closing, e)) = Reads-append (written 0 i) _ c2 d inner in
      let rule = Spells-rule raw "[" c1 c2 _ opening refl in
      let behind : Follows 80 c1 =
        Spells-Follows raw "[" c1 c2 _ opening refl 80 (omega arith) refl in
      let shut : Follows 0 c3 = Spells-Follows raw "]" c3 c4 _ closing refl 0 (omega arith) refl in
      let tight : c1.rule.lbp ≡ 80 = ap (λ r. r.lbp) rule in
      let left = member (node parse_float t) index (node parse_float i) in
      let (g, a, b) =
        goes_on parse_float regexp_error t (4 + cost i) f k 79 m index_led left c c1 c2 d w st r1
          (λ h. (omega (arith, behind.0, edge_closed t w (omega arith)), behind.1)) (omega arith)
          (omega arith) (ap (λ r. r.led) rule) opening.3
          (λ g h.
            bind-done (run parse_float regexp_error g 0 c2) _ (node parse_float i) c3 (
              whole_read parse_float regexp_error i g 0 expected c2 c3 wi si h (omega arith) r2
                shut)
            ∙ bind-done (chomp raw "]" c3) _ tt c4 (chomp-Spells raw "]" c3 c4 closing)
            ∙ ap (done left) e)
          (omega arith) (omega arith) in
      (g, omega arith, b)
