-- ===== src/Derive/Where/Conjuncts.antt =====
-- The constraints of a `where` clause are its conjuncts of the form `event:attr("a") == "v"`.
use pico_engine.Base.{
  String, ◌==◌, ◌≡◌, ◌↔◌, inl, inr, refl, Option, none, some, truthy, In, In-append, In-append_left,
  In-append_right, eq_iff, Bool-cases,
}
use pico_engine.Ast.{Node, infix_operator, string_value}
use pico_engine.Derive.Where.{
  Constraint, const, event_attr_name, equality_constraint, constraints_from_where,
}

-- `t` is a term of `w` that stands under `&&` alone.
pub data Conjunct (t : Node) : Node → Type 0 where
  whole : Conjunct t t
  left : {l r : Node} → Conjunct t l → Conjunct t (infix_operator "&&" l r)
  right : {l r : Node} → Conjunct t r → Conjunct t (infix_operator "&&" l r)

-- The `where` clause `w` has the conjunct `event:attr(a) == v`, and `a` is not empty.
pub record Demands (w : Node) (a v : String) : Type 0 where
  pub attr_side : Node
  pub literal : Node
  pub conjunct : Conjunct (infix_operator "==" attr_side literal) w
  pub attr : truthy (event_attr_name attr_side) ≡ some a
  pub value : string_value literal ≡ some v

equality-In :
    (o p : Option String) (a v : String)
    → In (const a v) (equality_constraint o p)
    → (o ≡ some a) × (p ≡ some v)
unfolding equality_constraint
equality-In (some x) (some y) a v (inl e) = (cc, cc)
equality-In (some x) (some y) a v (inr i) = absurd i
equality-In (some x) none a v i = absurd i
equality-In none p a v i = absurd i

of_equality :
    (l r : Node) (a v : String)
    → In (const a v) (equality_constraint (truthy (event_attr_name l)) (string_value r))
    → Demands (infix_operator "==" l r) a v
of_equality l r a v i =
    let (p, q) = equality-In _ _ a v i in
    record { attr_side = l; literal = r; conjunct = whole; attr = p; value = q }

on_left : {l r : Node} {a v : String} → Demands l a v → Demands (infix_operator "&&" l r) a v
on_left d = record {
  attr_side = d.attr_side;
  literal = d.literal;
  conjunct = left d.conjunct;
  attr = d.attr;
  value = d.value;
}

on_right : {l r : Node} {a v : String} → Demands r a v → Demands (infix_operator "&&" l r) a v
on_right d = record {
  attr_side = d.attr_side;
  literal = d.literal;
  conjunct = right d.conjunct;
  attr = d.attr;
  value = d.value;
}

-- At an operation: it is `&&`, or `==`, or it yields nothing.
at_operation :
    (op : String) (l r : Node) (a v : String)
    → (In (const a v) (constraints_from_where l) → Demands l a v)
    → (In (const a v) (constraints_from_where r) → Demands r a v)
    → In (const a v) (constraints_from_where (infix_operator op l r))
    → Demands (infix_operator op l r) a v
unfolding constraints_from_where
at_operation op l r a v from_left from_right i = elim (Bool-cases (op == "&&")) [
  | inl e ↦ rw ((eq_iff op "&&").0 e) (elim (In-append _ (constraints_from_where l) _ (rw e at i)) [
    | inl j ↦ on_left (from_left j)
    | inr j ↦ on_right (from_right j)
  ])
  | inr n ↦ elim (Bool-cases (op == "==")) [
    | inl e ↦ rw ((eq_iff op "==").0 e) (of_equality l r a v (rw (n, e) at i))
    | inr m ↦ absurd (rw (n, m) at i)
  ]
]

constraints-Demands :
    (w : Node) (a v : String) → In (const a v) (constraints_from_where w) → Demands w a v
constraints-Demands (infix_operator op l r) a v i =
    at_operation op l r a v (constraints-Demands l a v) (constraints-Demands r a v) i
constraints-Demands _ a v i = absurd (unfold constraints_from_where in i)

Conjunct-constraints :
    (t : Node) {w : Node} (c : Constraint)
    → Conjunct t w
    → In c (constraints_from_where t)
    → In c (constraints_from_where w)
unfolding constraints_from_where
Conjunct-constraints t c whole i = i
Conjunct-constraints t c (left k) i = In-append_left c _ _ (Conjunct-constraints t c k i)
Conjunct-constraints t c (right k) i = In-append_right c _ _ (Conjunct-constraints t c k i)

equality_constraint-In :
    (l r : Node) (a v : String)
    → truthy (event_attr_name l) ≡ some a
    → string_value r ≡ some v
    → In (const a v) (constraints_from_where (infix_operator "==" l r))
unfolding constraints_from_where equality_constraint
equality_constraint-In l r a v p q = rw (p, q) (inl refl)

-- A `where` clause yields the constraint that attribute `a` is `v` exactly when it has the
-- conjunct `event:attr("a") == "v"`, for a name `a` that is not empty: a term under `&&` alone,
-- none under `||`, `not` or another operator.
pub constraints_from_where-Demands :
    (w : Node) (a v : String) → In (const a v) (constraints_from_where w) ↔ Demands w a v
constraints_from_where-Demands w a v = (
  constraints-Demands w a v,
  λ d.
      Conjunct-constraints _ (const a v) d.conjunct
        (equality_constraint-In d.attr_side d.literal a v d.attr d.value),
)
