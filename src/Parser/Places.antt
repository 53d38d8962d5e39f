-- ===== src/Parser/Places.antt =====
-- krl-parser/src/krl.ts: an expression that is written out in its place.
use pico_engine.Base.{
  ℕ, zero, suc, ◌+◌, ◌≤◌, ◌<◌, String, false, ◌≡◌, refl, ap, subst, ◌∙◌, inl, inr, Bool-cases, [],
  ◌∷◌, Option, some, lookup, arith,
}
use pico_engine.Ast.{Node}
use pico_engine.Lexer.State.{raw}
use pico_engine.Parser.Rules.{Nud, Led, find_rule}
use pico_engine.Parser.State.{State, Outcome, done, advance}
use pico_engine.Parser.Chomps.{chomp}
use pico_engine.Parser.Expressions.{
  binds_tighter, expected, expression, operators, run_nud, run_led,
}
use pico_engine.Parser.Forms.{Form, node, level, edge, wrap, bare, written, IsForm, Reads, Follows}
use pico_engine.Parser.Steps.{
  bind-done, expression-starts, operators-goes_on, operators-ends, chomp-Spells,
}
use pico_engine.Parser.Written.{
  cost, Reads-append, level_positive, edge_whole, tighter, two_more, Spells-rule, Spells-Follows,
}

module _ (parse_float : String → String) (regexp_error : String × String → Option String) where
  abbrev pub Spine : Form → Type 0
  Spine t =
      (f k : ℕ) (m : String) (c d : State)
      → cost t ≤ f
      → k < level t
      → Reads c (bare t) d
      → Follows (edge t) d
      → (g : ℕ) × (f ≤ g + cost t)
        × (expression parse_float regexp_error f k m c
            ≡ operators parse_float regexp_error g k (node parse_float t) d)

  -- An expression with the error message that most places give it.
  abbrev pub run : ℕ → ℕ → State → Outcome Node
  run f k c = expression parse_float regexp_error f k expected c

  ends_after :
      (g a n k : ℕ) (left : Node) (d : State)
      → n ≤ g + a
      → suc a ≤ n
      → d.rule.lbp ≤ k
      → operators parse_float regexp_error g k left d ≡ done left d
  ends_after zero a n k left d p q h = absurd (omega arith)
  ends_after (suc g) a n k left d p q h = operators-ends parse_float regexp_error g k left d h

  -- What the token that starts an expression makes.
  pub starts :
      (need f k : ℕ) (m : String) (n : Nud) (left : Node) (c x d : State)
      → c.rule.nud ≡ some n
      → advance c ≡ done tt x
      → ((g : ℕ) → need ≤ g → run_nud parse_float regexp_error (suc g) n c.token x ≡ done left d)
      → 2 + need ≤ f
      → (g : ℕ) × (f ≤ g + 1)
        × (expression parse_float regexp_error f k m c
            ≡ operators parse_float regexp_error g k left d)
  starts need f k m n left c x d r a runs h =
      let (p, e) = two_more f (omega arith) in
      (
        suc p,
        omega arith,
        ap (λ f. expression parse_float regexp_error f k m c) e
            ∙ expression-starts parse_float regexp_error (suc p) k m n c x r a
            ∙ bind-done (run_nud parse_float regexp_error (suc p) n c.token x) _ left d
                (runs p (omega arith)),
      )

  bracketed :
      (t : Form) (f k : ℕ) (m : String) (c d : State)
      → IsForm t
      → Spine t
      → 4 + cost t ≤ f
      → Reads c (wrap false (bare t)) d
      → (g : ℕ) × (f ≤ g + 1)
        × (expression parse_float regexp_error f k m c
            ≡ operators parse_float regexp_error g k (node parse_float t) d)
  unfolding run_nud find_rule lookup
  bracketed t f k m c d w s n (c1, s1, r1) =
      let (c2, rb, (c3, s2, e)) = Reads-append (bare t) ((raw, ")") ∷ []) c1 d r1 in
      let closing : Follows 0 c2 = Spells-Follows raw ")" c2 c3 _ s2 refl 0 (omega arith) refl in
      starts (2 + cost t) f k m _ (node parse_float t) c c1 d
        (ap (λ r. r.nud) (Spells-rule raw "(" c c1 _ s1 refl)) s1.3
        (λ g h.
          let (g', n', inner) =
            s g 0 expected c1 c2 (omega arith) (level_positive t w) rb (omega arith, closing.1) in
          bind-done (expression parse_float regexp_error g 0 expected c1) _ (node parse_float t) c2
            (inner ∙ ends_after g' (cost t) g 0 (node parse_float t) c2 n' (omega arith) closing.0)
          ∙ bind-done (chomp raw ")" c2) _ tt c3 (chomp-Spells raw ")" c2 c3 s2)
          ∙ ap (done (node parse_float t)) e)
        (omega arith)

  pub placed :
      (t : Form) (f k j : ℕ) (m : String) (c d : State)
      → IsForm t
      → Spine t
      → 4 + cost t ≤ f
      → k ≤ j
      → Reads c (written j t) d
      → (j < level t → Follows (edge t) d)
      → (g : ℕ) × (f ≤ g + (2 + cost t))
        × (expression parse_float regexp_error f k m c
            ≡ operators parse_float regexp_error g k (node parse_float t) d)
  placed t f k j m c d w s n l r h = elim (Bool-cases (binds_tighter j (level t))) [
    | inl e ↦
        let lt = tighter j (level t) e in
        let (g, a, b) =
          s f k m c d (omega arith) (omega arith) (subst (λ b. Reads c (wrap b (bare t)) d) e r)
            (h lt) in
        (g, omega arith, b)
    | inr e ↦
        let (g, a, b) =
          bracketed t f k m c d w s n (subst (λ b. Reads c (wrap b (bare t)) d) e r) in
        (g, omega arith, b)
  ]

  pub whole_read :
      (t : Form) (f k : ℕ) (m : String) (c d : State)
      → IsForm t
      → Spine t
      → 4 + cost t ≤ f
      → k ≤ 70
      → Reads c (written k t) d
      → Follows k d
      → expression parse_float regexp_error f k m c ≡ done (node parse_float t) d
  whole_read t f k m c d w s n u r h =
      let (g, a, b) =
        placed t f k k m c d w s n (omega arith) r
          (λ lt. (edge_whole t k d.rule.lbp w lt h.0 u, h.1)) in
      b ∙ ends_after g (2 + cost t) f k (node parse_float t) d a (omega arith) h.0

  -- An operator behind the form.
  pub goes_on :
      (t : Form) (need f k j : ℕ) (m : String) (l : Led) (left : Node) (c c1 x d : State)
      → IsForm t
      → Spine t
      → Reads c (written j t) c1
      → (j < level t → Follows (edge t) c1)
      → k ≤ j
      → k < c1.rule.lbp
      → c1.rule.led ≡ some l
      → advance c1 ≡ done tt x
      → ((g : ℕ)
          → need ≤ g
          → run_led parse_float regexp_error (suc g) l c1.token (node parse_float t) x
            ≡ done left d)
      → 4 + (cost t + need) ≤ f
      → 4 + cost t ≤ f
      → (g : ℕ) × (f ≤ g + (4 + cost t))
        × (expression parse_float regexp_error f k m c
            ≡ operators parse_float regexp_error g k left d)
  goes_on t need f k j m l left c c1 x d w s r h kj lt led a runs n n' =
      let (g, p, b) = placed t f k j m c c1 w s n' kj r h in
      let (q, e) = two_more g (omega arith) in
      (
        suc q,
        omega arith,
        b
            ∙ ap (λ g. operators parse_float regexp_error g k (node parse_float t) c1) e
            ∙ operators-goes_on parse_float regexp_error (suc q) k (node parse_float t) l c1 x lt
                led a
            ∙ bind-done (run_led parse_float regexp_error (suc q) l c1.token (node parse_float t) x)
                _ left d (runs q (omega arith)),
      )
