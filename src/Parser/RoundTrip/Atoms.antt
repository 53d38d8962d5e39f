-- ===== src/Parser/RoundTrip/Atoms.antt =====
-- krl-parser/src/krl.ts: names and literals that are written out.
use pico_engine.Base.{String, Bool, true, false, refl, ap, ◌∙◌, Option, lookup, arith, has}
use pico_engine.Ast.{number, boolean, null, identifier, domain_identifier}
use pico_engine.Lexer.State.{TokenType, raw, symbol}
use pico_engine.Lexer.State as Kind
use pico_engine.Parser.Rules.{
  symbol_nud, number_nud, boolean_nud, null_nud, either_rule, rules, find_rule, reserved_words,
}
use pico_engine.Parser.State.{done, is_at}
use pico_engine.Parser.Chomps.{chomp_maybe, chomp_identifier}
use pico_engine.Parser.Expressions.{run_nud}
use pico_engine.Parser.Forms.{word, domain_word, numeral, truth, nothing, node, bare, IsForm}
use pico_engine.Parser.Steps.{bind-done, branch-false}
use pico_engine.Parser.Written.{cost, Spells-rule}
use pico_engine.Parser.Places.{Spine, starts}
use pico_engine.Parser.Openings.{chomp_maybe-Spells, chomp_maybe-other, chomp_identifier-Spells}

module _ (parse_float : String → String) (regexp_error : String × String → Option String) where
  pub word-Spine : (s : String) → IsForm (word s) → Spine parse_float regexp_error (word s)
  unfolding run_nud bare IsForm node cost find_rule lookup
  word-Spine s (w, free) f k m c d n lt (x, sp, e) fo =
      let found = ap (λ o. either_rule o (lookup "SYMBOL" rules)) w in
      let (g, a, b) =
        starts parse_float regexp_error 0 f k m symbol_nud (identifier s) c x d
          (ap (λ r. r.nud) (Spells-rule symbol s c x _ sp found)) sp.3
          (λ g h.
            branch-false (has c.token.src reserved_words) _ _
              (ap (λ a. has a reserved_words) sp.1 ∙ free)
            ∙ bind-done (chomp_maybe raw ":" x) _ false x
                (chomp_maybe-other raw ":" x (ap (is_at raw ":") e ∙ fo.1))
            ∙ ap (λ a. done (identifier a) x) sp.1
            ∙ ap (done (identifier s)) e)
          n in
      (g, omega arith, b)

  pub domain_word-Spine :
      (q s : String) → IsForm (domain_word q s) → Spine parse_float regexp_error (domain_word q s)
  unfolding run_nud bare IsForm node cost find_rule lookup
  domain_word-Spine q s ((w, free), (_, free')) f k m c d n lt (x, sp, (y, colon, (z, sp', e))) fo =
      let found = ap (λ o. either_rule o (lookup "SYMBOL" rules)) w in
      let (g, a, b) =
        starts parse_float regexp_error 0 f k m symbol_nud (domain_identifier q s) c x d
          (ap (λ r. r.nud) (Spells-rule symbol q c x _ sp found)) sp.3
          (λ g h.
            branch-false (has c.token.src reserved_words) _ _
              (ap (λ a. has a reserved_words) sp.1 ∙ free)
            ∙ bind-done (chomp_maybe raw ":" x) _ true y (chomp_maybe-Spells raw ":" x y colon)
            ∙ bind-done (chomp_identifier y) _ s z (chomp_identifier-Spells s y z sp' free')
            ∙ ap (λ a. done (domain_identifier a s) z) sp.1
            ∙ ap (done (domain_identifier q s)) e)
          n in
      (g, omega arith, b)

  pub numeral-Spine : (s : String) → IsForm (numeral s) → Spine parse_float regexp_error (numeral s)
  unfolding run_nud bare IsForm node cost find_rule lookup
  numeral-Spine s w f k m c d n lt (x, sp, e) fo =
      let found = ap (λ o. either_rule o (lookup "NUMBER" rules)) w in
      let (g, a, b) =
        starts parse_float regexp_error 0 f k m number_nud (number (parse_float s)) c x d
          (ap (λ r. r.nud) (Spells-rule Kind.number s c x _ sp found)) sp.3
          (λ g h.
            ap (λ a. done (number (parse_float a)) x) sp.1 ∙ ap (done (number (parse_float s))) e)
          n in
      (g, omega arith, b)

  pub truth-Spine : (v : Bool) → Spine parse_float regexp_error (truth v)
  unfolding run_nud bare node cost find_rule lookup
  truth-Spine true f k m c d n lt (x, sp, e) fo =
      let (g, a, b) =
        starts parse_float regexp_error 0 f k m (boolean_nud true) (boolean true) c x d
          (ap (λ r. r.nud) (Spells-rule symbol "true" c x _ sp refl)) sp.3
          (λ g h. ap (done (boolean true)) e) n in
      (g, omega arith, b)
  truth-Spine false f k m c d n lt (x, sp, e) fo =
      let (g, a, b) =
        starts parse_float regexp_error 0 f k m (boolean_nud false) (boolean false) c x d
          (ap (λ r. r.nud) (Spells-rule symbol "false" c x _ sp refl)) sp.3
          (λ g h. ap (done (boolean false)) e) n in
      (g, omega arith, b)

  pub nothing-Spine : Spine parse_float regexp_error nothing
  unfolding run_nud bare node cost find_rule lookup
  nothing-Spine f k m c d n lt (x, sp, e) fo =
      let (g, a, b) =
        starts parse_float regexp_error 0 f k m null_nud null c x d
          (ap (λ r. r.nud) (Spells-rule symbol "null" c x _ sp refl)) sp.3 (λ g h. ap (done null) e)
          n in
      (g, omega arith, b)
