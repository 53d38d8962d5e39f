-- ===== src/Emits/Conditions/Terms.antt =====
-- The terms of a condition, and what becomes of a negated one.
use pico_engine.Base.{
  String, ◌==◌, ◌≡◌, ◌↔◌, subst, inl, inr, refl, Bool, true, ◌||◌, List, [], ◌∷◌, In, In-append,
  In-append_left, In-append_right, Bool-cases, arith,
}
use pico_engine.Ast.{Node, Nodes, absent, infix_operator, unary_operator, application, identifier}
use pico_engine.Emits.Prechecks.{Params, Bindings, build_pre_bindings}
use pico_engine.Emits.Conditions.{
  collect_boolean_terms, precheck_terms, precheck_term, prechecks_from_condition,
  shared_precheck_call_in_term,
}

abbrev pub joins : String → Bool
joins op = op == "&&" || op == "||"

-- The operand `t` of a condition, under `&&` and `||` alone.
pub data Term (t : Node) : Node → Type 0 where
  whole : Term t t
  left : {op : String} {l r : Node} → joins op ≡ true → Term t l → Term t (infix_operator op l r)
  right : {op : String} {l r : Node} → joins op ≡ true → Term t r → Term t (infix_operator op l r)

-- A call of a name is a term of the condition.
abbrev pub Calls : String → Node → Node → Type 0
Calls fn args condition = Term (application (identifier fn) args) condition

term_of_infix :
    (fn : String) (args : Node) (op : String) (l r : Node)
    → (In (application (identifier fn) args) (collect_boolean_terms l) → Calls fn args l)
    → (In (application (identifier fn) args) (collect_boolean_terms r) → Calls fn args r)
    → In (application (identifier fn) args) (collect_boolean_terms (infix_operator op l r))
    → Calls fn args (infix_operator op l r)
unfolding collect_boolean_terms
term_of_infix fn args op l r from_left from_right i = elim (Bool-cases (joins op)) [
  | inl e ↦ elim (In-append _ (collect_boolean_terms l) _ (rw e at i)) [
    | inl j ↦ left e (from_left j)
    | inr j ↦ right e (from_right j)
  ]
  | inr n ↦
      elim (let j : In (application (identifier fn) args) (infix_operator op l r ∷ []) =
          rw n at i in
        j) [ inl same ↦ cc | inr j ↦ absurd j ]
]

term_of_unary :
    (fn : String) (args : Node) (op : String) (a : Node)
    → In (application (identifier fn) args) (collect_boolean_terms (unary_operator op a))
    → ⊥
unfolding collect_boolean_terms
term_of_unary fn args op a i = elim (Bool-cases (op == "!")) [
  | inl e ↦ let j : In (application (identifier fn) args) [] = rw e at i in j
  | inr n ↦
      let j : In (application (identifier fn) args) (unary_operator op a ∷ []) = rw n at i in
      elim j [ inl same ↦ cc | inr k ↦ k ]
]

In-Calls :
    (fn : String) (args : Node) (c : Node)
    → In (application (identifier fn) args) (collect_boolean_terms c)
    → Calls fn args c
unfolding collect_boolean_terms
In-Calls fn args absent i = absurd i
In-Calls fn args (infix_operator op l r) i =
    term_of_infix fn args op l r (In-Calls fn args l) (In-Calls fn args r) i
In-Calls fn args (unary_operator op a) i = absurd (term_of_unary fn args op a i)
In-Calls fn args (application c as') (inl same) = subst (λ z. Calls fn args z) same whole
In-Calls fn args (application c as') (inr i) = absurd i
In-Calls fn args n (inl same) = cc
In-Calls fn args n (inr i) = absurd i

Calls-In :
    (fn : String) (args : Node) {c : Node}
    → Calls fn args c
    → In (application (identifier fn) args) (collect_boolean_terms c)
unfolding collect_boolean_terms
Calls-In fn args whole = inl refl
Calls-In fn args (left {op = op} {l = l} {r = r} e t) =
    rw e (In-append_left _ _ _ (Calls-In fn args t))
Calls-In fn args (right {op = op} {l = l} {r = r} e t) =
    rw e (In-append_right _ (collect_boolean_terms l) _ (Calls-In fn args t))

-- The terms that the compiler looks at for prechecks: a call of a name is one of them exactly when
-- it stands in the condition under `&&` and `||` alone.
pub collect_boolean_terms-Calls :
    (fn : String) (args condition : Node)
    → In (application (identifier fn) args) (collect_boolean_terms condition)
      ↔ Calls fn args condition
collect_boolean_terms-Calls fn args condition = (In-Calls fn args condition, Calls-In fn args)

negated :
    (op : String) (a : Node) (shares : List String) (pre : Bindings) (params : Params)
    → precheck_terms (collect_boolean_terms (unary_operator op a)) shares pre params [] ≡ []
unfolding precheck_terms precheck_term collect_boolean_terms shared_precheck_call_in_term
negated op a shares pre params = ground arith

-- A negated condition yields no precheck, whatever it negates, so neither does `not isFull()` for
-- a shared function `isFull`.
pub prechecks-negated :
    (op : String) (a : Node) (shares : List String) (prelude : Nodes) (params : Params)
    → prechecks_from_condition (unary_operator op a) shares prelude params ≡ []
unfolding prechecks_from_condition
prechecks-negated op a shares prelude params =
    negated op a shares (build_pre_bindings prelude) params
