-- ===== src/Parser/Written.antt =====
-- krl-parser/src/krl.ts: the tables' operators, and how tight a form binds.
use pico_engine.Base.{
  ℕ, zero, suc, ◌+◌, ◌⊎◌, ◌≤◌, ◌<◌, String, true, false, ◌==◌, ◌&&◌, ◌≡◌, refl, sym, ap, subst, ◌∙◌,
  inl, inr, All-In, In, List, [], ◌∷◌, ◌++◌, Option, none, some, lookup, arith, has,
}
use pico_engine.Lexer.State.{TokenType, raw, white_space}
use pico_engine.Parser.Rules.{Rule, Nud, goes_on_rule, rules, find_rule, infix_led, prefix_nud}
use pico_engine.Parser.State.{State, is_at, same_type}
use pico_engine.Parser.Expressions.{binds_tighter}
use pico_engine.Parser.Forms.{
  Form, Forms, word, domain_word, numeral, truth, nothing, operated, prefixed, choice, dot_word,
  at_index, call, last, more, level, edge, Piece, operator_type, all_infixes, IsForm, Spells, Reads,
  Follows,
}
use pico_engine.Parser.Steps.{some-injective}

-- Calls nested in one another while the form is read.
unfoldable mutual
  pub cost : Form → ℕ
  cost (word s) = 2
  cost (domain_word d s) = 2
  cost (numeral s) = 2
  cost (truth b) = 2
  cost nothing = 2
  cost (operated op bp l r) = 10 + (cost l + cost r)
  cost (prefixed op a) = 6 + cost a
  cost (choice a b c) = 14 + (cost a + (cost b + cost c))
  cost (dot_word a s) = 6 + cost a
  cost (at_index a i) = 10 + (cost a + cost i)
  cost (call a rest) = 6 + (cost a + costs rest)

  pub costs : Forms → ℕ
  costs (last a) = 6 + cost a
  costs (more a rest) = 6 + (cost a + costs rest)

pub Reads-append :
    (ps qs : List Piece) (c d : State)
    → Reads c (ps ++ qs) d
    → (e : State) × Reads c ps e × Reads e qs d
Reads-append [] qs c d r = (c, refl, r)
Reads-append (p ∷ ps) qs c d (e, s, r) =
    let (x, a, b) = Reads-append ps qs e d r in (x, (e, s, a), b)

-- What the table says of an infix operator.
abbrev pub InfixFacts : String × ℕ → Type 0
InfixFacts (op, bp) =
    (n : Option Nud) × (lookup op rules ≡ some (goes_on_rule op n bp (infix_led op bp)))
    × (binds_tighter 19 bp ≡ true)
    × (binds_tighter bp 61 ≡ true)
    × ((op == ":") ≡ false)

pub infix_facts : (op : String) (bp : ℕ) → In (op, bp) all_infixes → InfixFacts (op, bp)
unfolding lookup
infix_facts op bp i =
    All-In InfixFacts (op, bp) all_infixes
      (
        (some (prefix_nud 70), refl, refl, refl, refl),
        (
          (some (prefix_nud 70), refl, refl, refl, refl),
          (
            (none, refl, refl, refl, refl),
            (
              (none, refl, refl, refl, refl),
              (
                (none, refl, refl, refl, refl),
                (
                  (none, refl, refl, refl, refl),
                  (
                    (none, refl, refl, refl, refl),
                    (
                      (none, refl, refl, refl, refl),
                      (
                        (none, refl, refl, refl, refl),
                        (
                          (none, refl, refl, refl, refl),
                          (
                            (none, refl, refl, refl, refl),
                            (
                              (none, refl, refl, refl, refl),
                              (
                                (none, refl, refl, refl, refl),
                                (
                                  (none, refl, refl, refl, refl),
                                  (
                                    (none, refl, refl, refl, refl),
                                    (
                                      (none, refl, refl, refl, refl),
                                      ((none, refl, refl, refl, refl), tt),
                                    ),
                                  ),
                                ),
                              ),
                            ),
                          ),
                        ),
                      ),
                    ),
                  ),
                ),
              ),
            ),
          ),
        ),
      )
      i

pub infix_level : (op : String) (bp : ℕ) → In (op, bp) all_infixes → (20 ≤ bp) × (bp ≤ 60)
infix_level op bp i = let (_, _, a, b, _) = infix_facts op bp i in ground (arith, a, b)

-- What the table says of a prefix, which is no closing bracket.
abbrev pub PrefixFacts : String → Type 0
PrefixFacts op =
    (r : Rule) × (lookup op rules ≡ some r)
    × (r.nud ≡ some (prefix_nud 70))
    × ((op == ")") ≡ false)
    × (same_type (operator_type op) white_space ≡ false)

pub prefix_facts : (op : String) → In op ("+" ∷ "-" ∷ "not" ∷ []) → PrefixFacts op
unfolding lookup has
prefix_facts op i =
    All-In PrefixFacts op ("+" ∷ "-" ∷ "not" ∷ [])
      (
        (_, refl, refl, refl, refl),
        ((_, refl, refl, refl, refl), ((_, refl, refl, refl, refl), tt)),
      )
      i

-- Level and edge are one, up to 70; or the expression is closed; or a conditional.
abbrev Shape : Form → Type 0
Shape t =
    ((edge t ≡ level t) × (level t ≤ 70) × (0 < level t))
    ⊎ (((80 ≤ level t) × (edge t ≡ 100)) ⊎ ((level t ≡ 1) × (edge t ≡ 0)))

shape : (t : Form) → IsForm t → Shape t
unfolding IsForm
shape (operated op bp l r) (i, _, _) =
    inl (refl, omega (arith, infix_level op bp i), omega (arith, infix_level op bp i))
shape (prefixed op a) h = inl (refl, omega arith, omega arith)
shape (choice a b c) h = inr (inr (refl, refl))
shape (dot_word a s) h = inr (inl (omega arith, refl))
shape (at_index a i) h = inr (inl (omega arith, refl))
shape (call a rest) h = inr (inl (omega arith, refl))
shape (word s) h = inr (inl (omega arith, refl))
shape (domain_word d s) h = inr (inl (omega arith, refl))
shape (numeral s) h = inr (inl (omega arith, refl))
shape (truth b) h = inr (inl (omega arith, refl))
shape nothing h = inr (inl (omega arith, refl))

pub level_positive : (t : Form) → IsForm t → 0 < level t
level_positive t w = elim (shape t w) [
  | inl (a, b, c) ↦ c
  | inr (inl (a, b)) ↦ omega arith
  | inr (inr (a, b)) ↦ omega arith
]

pub edge_behind : (t : Form) (n : ℕ) → IsForm t → 20 ≤ n → n ≤ level t → n ≤ 90 → n ≤ edge t
edge_behind t n w h k l = elim (shape t w) [
  | inl (a, b, c) ↦ omega arith
  | inr (inl (a, b)) ↦ omega arith
  | inr (inr (a, b)) ↦ absurd (omega arith)
]

pub edge_closed : (t : Form) → IsForm t → 80 ≤ level t → 90 ≤ edge t
edge_closed t w h = elim (shape t w) [
  | inl (a, b, c) ↦ absurd (omega arith)
  | inr (inl (a, b)) ↦ omega arith
  | inr (inr (a, b)) ↦ absurd (omega arith)
]

pub edge_whole : (t : Form) (k n : ℕ) → IsForm t → k < level t → n ≤ k → k ≤ 70 → n ≤ edge t
edge_whole t k n w h l u = elim (shape t w) [
  | inl (a, b, c) ↦ omega arith
  | inr (inl (a, b)) ↦ omega arith
  | inr (inr (a, b)) ↦ omega arith
]

pub tighter : (k n : ℕ) → binds_tighter k n ≡ true → k < n
tighter k n h = ground (arith, h)

pub two_more : (n : ℕ) → 2 ≤ n → (m : ℕ) × (n ≡ suc (suc m))
two_more zero h = absurd (omega arith)
two_more (suc zero) h = absurd (omega arith)
two_more (suc (suc m)) h = (m, refl)

module _ (type : TokenType) (src : String) (c d : State) (r : Rule) (s : Spells c (type, src) d)
    (h : find_rule type src ≡ some r) where
  pub Spells-rule : c.rule ≡ r
  Spells-rule = some-injective c.rule r (s.2 ∙ h)

  pub Spells-Follows : (n : ℕ) → r.lbp ≤ n → (src == ":") ≡ false → Follows n c
  unfolding is_at
  Spells-Follows n l e = (
    subst (λ r. r.lbp ≤ n) (sym Spells-rule) l,
    ap (λ a. same_type c.token.type raw && a == ":") s.1 ∙ ground (arith, e),
  )
