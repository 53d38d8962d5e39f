-- ===== src/Parser/Openings.antt =====
-- krl-parser/src/krl.ts: the token that a written expression starts with, and the names in it.
use pico_engine.Base.{
  ◌-◌, String, Bool, true, false, ◌==◌, ◌||◌, ◌≡◌, refl, sym, ap, ◌∙◌, inl, inr, Bool-cases, has,
  List, ◌++◌, none, lookup, eq_iff, arith,
}
use pico_engine.Lexer.State.{TokenType, white_space, raw, symbol}
use pico_engine.Lexer.State as Kind
use pico_engine.Parser.Rules.{rules, reserved_words}
use pico_engine.Parser.State.{State, done, advance, same_type, is_at, is_end}
use pico_engine.Parser.Chomps.{chomp_maybe, is_identifier, chomp_identifier}
use pico_engine.Parser.Expressions.{binds_tighter}
use pico_engine.Parser.Forms.{
  Form, word, domain_word, numeral, truth, nothing, operated, prefixed, choice, dot_word, at_index,
  call, level, Piece, wrap, operator_type, bare, written, IsForm, Spells, Reads,
}
use pico_engine.Parser.Steps.{bind-done, is_at-Spells}
use pico_engine.Parser.Written.{Reads-append, prefix_facts}

-- Neither the end nor a closing bracket.
abbrev pub Opens : State → Type 0
Opens c = (is_end c || is_at raw ")" c) ≡ false

piece-Opens :
    (type : TokenType) (src : String) (c d : State)
    → Spells c (type, src) d
    → same_type type white_space ≡ false
    → (src == ")") ≡ false
    → Opens c
unfolding is_end is_at
piece-Opens type src c d (t, s, _, _, _) h k =
    ground (arith, ap (λ a. same_type a white_space) t ∙ h, ap (λ a. a == ")") s ∙ k)

word_open : (s : String) → lookup s rules ≡ none → (s == ")") ≡ false
unfolding lookup
word_open s h = elim (Bool-cases (s == ")")) [
  | inl e ↦
      let w : lookup ")" rules ≡ none = ap (λ a. lookup a rules) (sym ((eq_iff s ")").0 e)) ∙ h in
      cc
  | inr e ↦ e
]

wrap-Opens :
    (b : Bool) (ps : List Piece)
    → ((c d : State) → Reads c ps d → Opens c)
    → (c d : State) → Reads c (wrap b ps) d
    → Opens c
wrap-Opens true ps h c d r = h c d r
wrap-Opens false ps h c d (e, s, _) = piece-Opens raw "(" c e s refl refl

infix-Opens :
    (b : Bool) (ps qs : List Piece)
    → ((c d : State) → Reads c ps d → Opens c)
    → (c d : State) → Reads c (wrap b ps ++ qs) d
    → Opens c
infix-Opens b ps qs h c d r =
    let (e, r', _) = Reads-append (wrap b ps) qs c d r in wrap-Opens b ps h c e r'

bare-Opens : (t : Form) → IsForm t → (c d : State) → Reads c (bare t) d → Opens c
unfolding IsForm bare
bare-Opens (word s) (w, _) c d (e, p, _) = piece-Opens symbol s c e p refl (word_open s w)
bare-Opens (domain_word x s) ((w, _), _) c d (e, p, _) =
    piece-Opens symbol x c e p refl (word_open x w)
bare-Opens (numeral s) w c d (e, p, _) = piece-Opens Kind.number s c e p refl (word_open s w)
bare-Opens (truth true) w c d (e, p, _) = piece-Opens symbol "true" c e p refl refl
bare-Opens (truth false) w c d (e, p, _) = piece-Opens symbol "false" c e p refl refl
bare-Opens nothing w c d (e, p, _) = piece-Opens symbol "null" c e p refl refl
bare-Opens (operated op bp l r) (_, w, _) c d x =
    infix-Opens (binds_tighter (bp - 1) (level l)) (bare l) _ (bare-Opens l w) c d x
bare-Opens (prefixed op a) (w, _) c d (e, p, _) =
    let (_, _, _, h, k) = prefix_facts op w in piece-Opens (operator_type op) op c e p k h
bare-Opens (choice a b x) (w, _, _) c d r =
    infix-Opens (binds_tighter 10 (level a)) (bare a) _ (bare-Opens a w) c d r
bare-Opens (dot_word a s) (w, _) c d r =
    infix-Opens (binds_tighter 79 (level a)) (bare a) _ (bare-Opens a w) c d r
bare-Opens (at_index a i) (w, _) c d r =
    infix-Opens (binds_tighter 79 (level a)) (bare a) _ (bare-Opens a w) c d r
bare-Opens (call a rest) (w, _) c d r =
    infix-Opens (binds_tighter 79 (level a)) (bare a) _ (bare-Opens a w) c d r

pub written-Opens :
    (k : _) (t : Form) → IsForm t → (c d : State) → Reads c (written k t) d → Opens c
written-Opens k t w = wrap-Opens (binds_tighter k (level t)) (bare t) (bare-Opens t w)

pub is_at-other :
    (type asked : TokenType) (src other : String) (c d : State)
    → Spells c (type, src) d
    → (src == other) ≡ false
    → is_at asked other c ≡ false
unfolding is_at
is_at-other type asked src other c d (_, s, _, _, _) h = ground (arith, ap (λ a. a == other) s ∙ h)

pub chomp_maybe-Spells :
    (type : TokenType) (src : String) (c d : State)
    → Spells c (type, src) d
    → chomp_maybe type src c ≡ done true d
unfolding chomp_maybe
chomp_maybe-Spells type src c d s =
    rw (chomp_maybe, is_at-Spells type src c d s) (bind-done (advance c) _ tt d s.3)

pub chomp_maybe-other :
    (type : TokenType) (src : String) (c : State)
    → is_at type src c ≡ false
    → chomp_maybe type src c ≡ done false c
unfolding chomp_maybe
chomp_maybe-other type src c h = rw (chomp_maybe, h) refl

pub chomp_identifier-Spells :
    (s : String) (c d : State)
    → Spells c (symbol, s) d
    → has s reserved_words ≡ false
    → chomp_identifier c ≡ done s d
unfolding chomp_identifier is_identifier
chomp_identifier-Spells s c d (t, e, _, a, _) h =
    let named : is_identifier c ≡ true =
      ground (arith, ap (λ x. same_type x symbol) t, ap (λ x. has x reserved_words) e ∙ h) in
    rw (chomp_identifier, named) (bind-done (advance c) _ tt d a ∙ ap (λ x. done x d) e)
