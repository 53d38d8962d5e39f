-- ===== src/Parser/Settled.antt =====
-- krl-parser/src/tdop.ts and krl.ts: what one step of the parser leaves of the tokens.
use pico_engine.Base.{
  ℕ, zero, suc, ◌+◌, ◌≤◌, ◌<◌, String, Bool, true, false, if◌then◌else◌, ◌≡◌, ◌≢◌, ◌≢◌, refl, List,
  [], ◌∷◌, Option, none, some, length, arith, eq_iff,
}
use pico_engine.Ast.{Node, Nodes, identifier}
use pico_engine.Lexer.State.{TokenType, Token, raw, symbol, white_space}
use pico_engine.Parser.Rules.{Rule, Nud, bare_rule, find_rule, type_name}
use pico_engine.Parser.State.{
  State, Outcome, done, failed, left_out, out_of_fuel, ◌>>=◌, Significance, significant,
  passed_over, refused, check_significant_token, or_unhandled, doc_behind, when_checked,
  advance_base, advance, next_token, is_at, is_end, same_type, end_token,
}
use pico_engine.Parser.Chomps.{
  chomp, chomp_maybe, is_identifier, chomp_identifier, after_colon,
  chomp_identifier_or_domain_identifier,
}
use pico_engine.Parser.Expressions.{or_failed, branch, consed, binds_tighter}

abbrev pending : Bool → Option Nud → ℕ → ℕ
pending false nud lbp = 1
pending true (some n) lbp = 1
pending true none zero = 0
pending true none (suc n) = 1

-- The tokens that may still be read: the end has no rule that reads it.
unfoldable pub size : State → ℕ
unfolding is_end
size c = pending (is_end c) c.rule.nud c.rule.lbp + length c.rest

abbrev Leaves : {A : Type 0} → ℕ → ℕ → Outcome A → Type 0
Leaves k n (done a c) = k + size c ≤ n
Leaves k n (failed message) = Unit
Leaves k n left_out = Unit
Leaves k n out_of_fuel = ⊥

-- The fuel is not used up, and `k` tokens at least are taken where `n` were left.
pub record Ends {A : Type 0} (k n : ℕ) (r : Outcome A) : Type 0 where
  leaves : Leaves k n r

module _ {A B : Type 0} where
  pub bind-Ends :
      {j m k n : ℕ} (r : Outcome A) (g : A → State → Outcome B)
      → Ends j m r
      → ((a : A) (d : State) → j + size d ≤ m → Ends k n (g a d))
      → Ends k n (r >>= g)
  bind-Ends (done a c) g h next = next a c h.leaves
  bind-Ends (failed message) g h next = record { leaves = tt }
  bind-Ends left_out g h next = record { leaves = tt }
  bind-Ends out_of_fuel g h next = absurd h.leaves

  pub or_failed-Ends :
      {k n : ℕ} (o : Option A) (message : String) (g : A → Outcome B)
      → ((a : A) → o ≡ some a → Ends k n (g a))
      → Ends k n (or_failed o message g)
  or_failed-Ends none message g next = record { leaves = tt }
  or_failed-Ends (some a) message g next = next a refl

module _ {A : Type 0} where
  pub done-Ends : {k n : ℕ} (a : A) (c : State) → k + size c ≤ n → Ends k n (done a c)
  done-Ends a c h = record { leaves = h }

  pub failed-Ends : {k n : ℕ} (message : String) → Ends {A = A} k n (failed message)
  failed-Ends message = record { leaves = tt }

  pub left_out-Ends : {k n : ℕ} → Ends {A = A} k n left_out
  left_out-Ends = record { leaves = tt }

  pub wider : {j m k n : ℕ} (r : Outcome A) → Ends j m r → k + m ≤ n + j → Ends k n r
  wider (done a c) h e = record { leaves = omega (arith, h.leaves) }
  wider (failed message) h e = record { leaves = tt }
  wider left_out h e = record { leaves = tt }
  wider out_of_fuel h e = absurd h.leaves

  pub branch-Ends :
      {k n : ℕ} (b : Bool) (x y : Unit {0} → Outcome A)
      → (b ≡ true → Ends k n (x tt))
      → (b ≡ false → Ends k n (y tt))
      → Ends k n (branch b x y)
  branch-Ends true x y yes_branch no_branch = yes_branch refl
  branch-Ends false x y yes_branch no_branch = no_branch refl

  if-Ends :
      {k n : ℕ} (b : Bool) (x y : Outcome A)
      → (b ≡ true → Ends k n x)
      → (b ≡ false → Ends k n y)
      → Ends k n (if b then x else y)
  if-Ends true x y yes_branch no_branch = yes_branch refl
  if-Ends false x y yes_branch no_branch = no_branch refl

  when_checked-Ends :
      {k n : ℕ} (s : Significance) (go_on : Unit {0} → Outcome A) (stop : Outcome A)
      → Ends k n (go_on tt)
      → Ends k n stop
      → Ends k n (when_checked s go_on stop)
  when_checked-Ends (refused message) go_on stop a b = failed-Ends message
  when_checked-Ends passed_over go_on stop a b = a
  when_checked-Ends significant go_on stop a b = b

pub consed-Ends : {k n : ℕ} (v : Node) (r : Outcome Nodes) → Ends k n r → Ends k n (consed v r)
consed-Ends v (done ns c) h = record { leaves = h.leaves }
consed-Ends v (failed message) h = record { leaves = tt }
consed-Ends v left_out h = record { leaves = tt }
consed-Ends v out_of_fuel h = absurd h.leaves

-- How many tokens the current one leaves.
pending-le : (b : Bool) (nud : Option Nud) (lbp : ℕ) → pending b nud lbp ≤ 1
pending-le false nud lbp = omega arith
pending-le true (some n) lbp = omega arith
pending-le true none zero = omega arith
pending-le true none (suc n) = omega arith

size-le : (c : State) → size c ≤ suc (length c.rest)
unfolding size
size-le c = omega (arith, pending-le (is_end c) c.rule.nud c.rule.lbp)

pub rest-size : (c : State) → length c.rest ≤ size c
unfolding size
rest-size c = omega arith

pending-some :
    (b : Bool) (nud : Option Nud) (lbp : ℕ) (n : Nud) → nud ≡ some n → 1 ≤ pending b nud lbp
pending-some false nud lbp n h = omega arith
pending-some true (some a) lbp n h = omega arith
pending-some true none lbp n h = cc

pending-tight : (b : Bool) (nud : Option Nud) (lbp k : ℕ) → k < lbp → 1 ≤ pending b nud lbp
pending-tight false nud lbp k h = omega arith
pending-tight true (some a) lbp k h = omega arith
pending-tight true none zero k h = absurd (omega arith)
pending-tight true none (suc n) k h = omega arith

pub size-nud : (c : State) (n : Nud) → c.rule.nud ≡ some n → suc (length c.rest) ≤ size c
unfolding size
size-nud c n h = omega (arith, pending-some (is_end c) c.rule.nud c.rule.lbp n h)

pub size-tighter :
    (c : State) (k : ℕ) → binds_tighter k c.rule.lbp ≡ true → suc (length c.rest) ≤ size c
unfolding size
size-tighter c k h = omega (arith, pending-tight (is_end c) c.rule.nud c.rule.lbp k (ground arith))

pub size-type :
    (type : TokenType) (c : State)
    → same_type c.token.type type ≡ true
    → same_type type white_space ≡ false
    → suc (length c.rest) ≤ size c
unfolding size is_end
size-type type c h other = ground (arith, eq_iff (type_name c.token.type) (type_name type))

-- The steps.
unhandled-Ends :
    (o : Option Rule) (t : Token) (ts : List Token) (doc : Option Token)
    → Ends 0 (suc (length ts)) (or_unhandled o t ts doc)
unhandled-Ends none t ts doc = failed-Ends "Unhandled token."
unhandled-Ends (some r) t ts doc =
    let c : State = record { token = t; rule = r; rest = ts; doc = doc } in
    done-Ends tt c (omega (arith, size-le c))

end-size :
    (doc : Option Token)
    → 0 + size (record { token = end_token; rule = bare_rule "(end)"; rest = []; doc = doc }) ≤ 0
unfolding size is_end
end-size doc = omega arith

pub advance_base-Ends :
    (doc : Option Token) (ts : List Token) → Ends 0 (length ts) (advance_base doc ts)
unfolding advance_base
advance_base-Ends doc [] = done-Ends tt _ (end-size doc)
advance_base-Ends doc (t ∷ ts) =
    when_checked-Ends (check_significant_token t) _ _
      (wider _ (advance_base-Ends (doc_behind t.type t doc) ts) (omega arith))
      (unhandled-Ends (find_rule t.type t.src) t ts doc)

pub advance-Ends : (c : State) → Ends 0 (length c.rest) (advance c)
unfolding advance
advance-Ends c = advance_base-Ends none c.rest

pub next_token-Ends : (ts : List Token) (c : State) → Ends 0 (size c) (next_token ts c)
unfolding next_token
next_token-Ends [] c = done-Ends none c (omega arith)
next_token-Ends (t ∷ ts) c =
    when_checked-Ends (check_significant_token t) _ _ (next_token-Ends ts c)
      (done-Ends (some t) c (omega arith))

pub chomp-Ends : (type : TokenType) (src : String) (c : State) → Ends 0 (size c) (chomp type src c)
unfolding chomp
chomp-Ends type src c =
    if-Ends (is_at type src c) _ _ (λ _. wider _ (advance-Ends c) (omega (arith, rest-size c)))
      (λ _. failed-Ends _)

pub chomp_maybe-Ends :
    (type : TokenType) (src : String) (c : State) → Ends 0 (size c) (chomp_maybe type src c)
unfolding chomp_maybe
chomp_maybe-Ends type src c =
    if-Ends (is_at type src c) _ _
      (λ _.
        bind-Ends (advance c) _ (advance-Ends c)
          (λ _ d h. done-Ends true d (omega (arith, rest-size c))))
      (λ _. done-Ends false c (omega arith))

pub chomp_identifier-Ends : (c : State) → Ends 1 (size c) (chomp_identifier c)
unfolding chomp_identifier is_identifier
chomp_identifier-Ends c =
    if-Ends (is_identifier c) _ _
      (λ e. bind-Ends (advance c) _ (advance-Ends c) (λ _ d h.
        done-Ends c.token.src d (omega (arith, size-type symbol c (ground (arith, e)) refl))))
      (λ _. failed-Ends _)

pub after_colon-Ends :
    (domain : String) (colon : Bool) (c : State) → Ends 0 (size c) (after_colon domain colon c)
after_colon-Ends domain false c = done-Ends (identifier domain) c (omega arith)
after_colon-Ends domain true c =
    bind-Ends (chomp_identifier c) _ (chomp_identifier-Ends c)
      (λ value d h. done-Ends _ d (omega arith))

pub property-Ends : (c : State) → Ends 0 (size c) (chomp_identifier_or_domain_identifier c)
unfolding chomp_identifier_or_domain_identifier
property-Ends c = bind-Ends (chomp_identifier c) _ (chomp_identifier-Ends c) (λ domain d h.
    bind-Ends (chomp_maybe raw ":" d) _ (chomp_maybe-Ends raw ":" d)
      (λ colon e k. wider _ (after_colon-Ends domain colon e) (omega arith)))

pub Ends-fuel : {A : Type 0} {k n : ℕ} (r : Outcome A) → Ends k n r → r ≢ out_of_fuel
Ends-fuel (done a c) e h = cc
Ends-fuel (failed message) e h = cc
Ends-fuel left_out e h = cc
Ends-fuel out_of_fuel e h = e.leaves
