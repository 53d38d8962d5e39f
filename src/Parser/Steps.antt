-- ===== src/Parser/Steps.antt =====
-- krl-parser/src/krl.ts: single steps of the expression parser.
use pico_engine.Base.{
  ℕ, suc, ◌≤◌, ◌<◌, String, Bool, true, false, ◌==◌, ◌&&◌, ◌≡◌, ap, ◌∙◌, Option, some, eq_refl,
  arith,
}
use pico_engine.Ast.{Node}
use pico_engine.Lexer.State.{TokenType}
use pico_engine.Parser.Rules.{Nud, Led, type_name}
use pico_engine.Parser.State.{State, Outcome, done, ◌>>=◌, advance, is_at, same_type}
use pico_engine.Parser.Chomps.{chomp}
use pico_engine.Parser.Expressions.{
  binds_tighter, or_failed, branch, expression, operators, run_nud, run_led,
}
use pico_engine.Parser.Forms.{Spells}

pub some-injective : {A : Type 0} (a b : A) → some a ≡ some b → a ≡ b
some-injective a b h = cc

module _ {A B : Type 0} where
  pub or_failed-some :
      (o : Option A) (m : String) (g : A → Outcome B) (a : A) → o ≡ some a → or_failed o m g ≡ g a
  or_failed-some o m g a h = ap (λ o. or_failed o m g) h

  pub bind-done :
      (r : Outcome A) (g : A → State → Outcome B) (a : A) (c : State)
      → r ≡ done a c
      → (r >>= g) ≡ g a c
  bind-done r g a c h = ap (λ r. r >>= g) h

module _ {A : Type 0} (b : Bool) (x y : Unit {0} → Outcome A) where
  pub branch-true : b ≡ true → branch b x y ≡ x tt
  branch-true h = ap (λ b. branch b x y) h

  pub branch-false : b ≡ false → branch b x y ≡ y tt
  branch-false h = ap (λ b. branch b x y) h

pub binds_tighter-true : (k n : ℕ) → k < n → binds_tighter k n ≡ true
binds_tighter-true k n h = ground arith

pub binds_tighter-false : (k n : ℕ) → n ≤ k → binds_tighter k n ≡ false
binds_tighter-false k n h = ground arith

module _ (parse_float : String → String) (regexp_error : String × String → Option String) where
  pub expression-starts :
      (f k : ℕ) (m : String) (n : Nud) (c d : State)
      → c.rule.nud ≡ some n
      → advance c ≡ done tt d
      → expression parse_float regexp_error (suc f) k m c ≡ (
          run_nud parse_float regexp_error f n c.token d >>= λ left e.
          operators parse_float regexp_error f k left e)
  unfolding expression
  expression-starts f k m n c d h a =
      or_failed-some c.rule.nud m _ n h ∙ bind-done (advance c) _ tt d a

  pub operators-goes_on :
      (f k : ℕ) (left : Node) (l : Led) (c d : State)
      → k < c.rule.lbp
      → c.rule.led ≡ some l
      → advance c ≡ done tt d
      → operators parse_float regexp_error (suc f) k left c ≡ (
          run_led parse_float regexp_error f l c.token left d >>= λ left' e.
          operators parse_float regexp_error f k left' e)
  unfolding operators
  operators-goes_on f k left l c d lt h a =
      branch-true (binds_tighter k c.rule.lbp) _ _ (binds_tighter-true k c.rule.lbp lt)
      ∙ bind-done (advance c) _ tt d a
      ∙ or_failed-some c.rule.led _ _ l h

  pub operators-ends :
      (f k : ℕ) (left : Node) (c : State)
      → c.rule.lbp ≤ k
      → operators parse_float regexp_error (suc f) k left c ≡ done left c
  unfolding operators
  operators-ends f k left c le =
      branch-false (binds_tighter k c.rule.lbp) _ _ (binds_tighter-false k c.rule.lbp le)

pub is_at-Spells :
    (type : TokenType) (src : String) (c d : State)
    → Spells c (type, src) d
    → is_at type src c ≡ true
unfolding is_at
is_at-Spells type src c d (t, s, _, _, _) =
    ap (λ a. same_type a type && c.token.src == src) t
    ∙ ap (λ b. same_type type type && b == src) s
    ∙ ground (arith, eq_refl src, eq_refl (type_name type))

pub chomp-Spells :
    (type : TokenType) (src : String) (c d : State)
    → Spells c (type, src) d
    → chomp type src c ≡ done tt d
unfolding chomp
chomp-Spells type src c d h = rw (chomp, is_at-Spells type src c d h) h.3
