-- ===== src/Parser/Fuel.antt =====
-- krl-parser/src/krl.ts and tdop.ts: the fuel of parse_expression is enough for what is written out.
use pico_engine.Base.{
  ℕ, suc, ◌+◌, ◌*◌, ◌≤◌, Bool, true, false, if◌then◌else◌, ◌≡◌, subst, List, [], ◌∷◌, ◌++◌, Option,
  none, some, length, arith,
}
use pico_engine.Lexer.State.{Token, raw}
use pico_engine.Parser.Rules.{Rule, find_rule}
use pico_engine.Parser.State.{
  State, Outcome, done, Significance, significant, passed_over, refused, check_significant_token,
  advance_base, advance, or_unhandled, doc_behind, when_checked, is_end,
}
use pico_engine.Parser.Forms.{
  Form, Forms, word, domain_word, numeral, truth, nothing, operated, prefixed, choice, dot_word,
  at_index, call, last, more, Piece, wrap, bare, listed, written, Spells, Reads, level,
}
use pico_engine.Parser.Expressions.{binds_tighter}
use pico_engine.Parser.Written.{cost, costs}

length-append : (ps qs : List Piece) → length (ps ++ qs) ≡ length ps + length qs
length-append [] qs = omega arith
length-append (p ∷ ps) qs = omega (arith, length-append ps qs)

length-wrap : (b : Bool) (ps : List Piece) → length ps ≤ length (wrap b ps)
length-wrap true ps = omega arith
length-wrap false ps = omega (arith, length-append ps ((raw, ")") ∷ []))

mutual
  unfolding cost costs bare listed

  cost-bare : (t : Form) → 6 + cost t ≤ 8 * length (bare t)
  cost-bare (word s) = omega arith
  cost-bare (domain_word q s) = omega arith
  cost-bare (numeral s) = omega arith
  cost-bare (truth true) = omega arith
  cost-bare (truth false) = omega arith
  cost-bare nothing = omega arith
  cost-bare (operated op bp l r) =
      omega (arith, length-append, length-wrap, cost-bare l, cost-bare r)
  cost-bare (prefixed op a) = omega (arith, length-wrap, cost-bare a)
  cost-bare (choice a b c) =
      omega (arith, length-append, length-wrap, cost-bare a, cost-bare b, cost-bare c)
  cost-bare (dot_word a s) = omega (arith, length-append, length-wrap, cost-bare a)
  cost-bare (at_index a i) = omega (arith, length-append, length-wrap, cost-bare a, cost-bare i)
  cost-bare (call a rest) =
      omega (arith, length-append, length-wrap, cost-bare a, costs-listed rest)

  costs-listed : (rest : Forms) → costs rest ≤ 8 * length (listed rest)
  costs-listed (last a) = omega (arith, length-wrap, cost-bare a)
  costs-listed (more a rest) =
      omega (arith, length-append, length-wrap, cost-bare a, costs-listed rest)

pub cost-written : (k : ℕ) (t : Form) → 4 + cost t ≤ 8 * length (written k t)
cost-written k t = omega (arith, length-wrap (binds_tighter k (level t)) (bare t), cost-bare t)

-- The tokens from the current one on.
abbrev pub tokens_left : State → ℕ
tokens_left c = if is_end c then 0 else suc (length c.rest)

done-injective : (c d : State) → ◌≡◌ {A = Outcome Unit} (done tt c) (done tt d) → c ≡ d
done-injective c d h = cc

unhandled-left :
    (o : Option Rule) (t : Token) (ts : List Token) (doc : Option Token) (d : State)
    → or_unhandled o t ts doc ≡ done tt d
    → tokens_left d ≤ suc (length ts)
unhandled-left none t ts doc d h = cc
unhandled-left (some r) t ts doc d h =
    subst (λ d. tokens_left d ≤ suc (length ts)) (done-injective _ d h) (ground arith)

checked-left :
    (s : Significance) (go_on : Unit {0} → Outcome Unit) (stop : Outcome Unit) (n : ℕ) (d : State)
    → (go_on tt ≡ done tt d → tokens_left d ≤ n)
    → (stop ≡ done tt d → tokens_left d ≤ n)
    → when_checked s go_on stop ≡ done tt d
    → tokens_left d ≤ n
checked-left (refused message) go_on stop n d a b h = cc
checked-left passed_over go_on stop n d a b h = a h
checked-left significant go_on stop n d a b h = b h

pub advance_base-left :
    (doc : Option Token) (ts : List Token) (d : State)
    → advance_base doc ts ≡ done tt d
    → tokens_left d ≤ length ts
unfolding advance_base is_end
advance_base-left doc [] d h = subst (λ d. tokens_left d ≤ 0) (done-injective _ d h) (omega arith)
advance_base-left doc (t ∷ ts) d h =
    checked-left (check_significant_token t) _ _ (suc (length ts)) d
      (λ e. omega (arith, advance_base-left (doc_behind t.type t doc) ts d e))
      (unhandled-left (find_rule t.type t.src) t ts doc d) h

Spells-left : (c d : State) (p : Piece) → Spells c p d → suc (tokens_left d) ≤ tokens_left c
unfolding advance
Spells-left c d (type, src) (_, _, _, a, e) = ground (arith, advance_base-left none c.rest d a, e)

pub Reads-left :
    (ps : List Piece) (c d : State) → Reads c ps d → length ps + tokens_left d ≤ tokens_left c
Reads-left [] c d r = subst (λ d. 0 + tokens_left d ≤ tokens_left c) r (omega arith)
Reads-left (p ∷ ps) c d (e, s, r) = omega (arith, Spells-left c e p s, Reads-left ps e d r)
