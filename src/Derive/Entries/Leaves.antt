-- ===== src/Derive/Entries/Leaves.antt =====
-- The single events among the entries of a select are the event expressions under its `or`s.
use pico_engine.Base.{
  String, ◌==◌, ◌≡◌, ◌↔◌, ◌⊎◌, inl, inr, refl, sym, ap, List, [], ◌∷◌, ◌++◌, none, some, In,
  In-append, In-append_left, In-append_right, eq_iff, Bool-cases,
}
use pico_engine.Ast.{Node, Nodes, nil, cons, event_expression, event_operator, event_group_operator}
use pico_engine.Derive.Where.{Constraint, constraints_from_where}
use pico_engine.Derive.Entries.{
  Entry, match_constraints, entry_from_event_expression, entries_from_args,
}

-- The event `d:t` under these constraints is one of the alternatives of an event expression.
mutual
  pub data Alternative (d t : String) (cs : List Constraint) : Node → Type 0 where
    single :
        (attrs : Nodes) (setting : List String) (wh aggregator : Node)
        → cs ≡ constraints_from_where wh ++ match_constraints attrs
        → Alternative d t cs (event_expression d t attrs setting wh aggregator)
    choice : {args : Nodes} → Among d t cs args → Alternative d t cs (event_operator "or" args)

  pub data Among (d t : String) (cs : List Constraint) : Nodes → Type 0 where
    here : {n : Node} {ns : Nodes} → Alternative d t cs n → Among d t cs (cons n ns)
    there : {n : Node} {ns : Nodes} → Among d t cs ns → Among d t cs (cons n ns)

-- An entry for the event `d:t` under these constraints.
pub record Lists (d t : String) (cs : List Constraint) (es : List Entry) : Type 0 where
  pub entry : Entry
  pub listed : In entry es
  pub domain : entry.domain ≡ some d
  pub name : entry.name ≡ some t
  pub constraints : entry.constraints ≡ cs

module _ (d t : String) (cs : List Constraint) where
  append_cases : (xs ys : List Entry) → Lists d t cs (xs ++ ys) → Lists d t cs xs ⊎ Lists d t cs ys
  append_cases xs ys h = elim (In-append h.entry xs ys h.listed) [
    | inl i ↦ inl (record {
      entry = h.entry;
      listed = i;
      domain = h.domain;
      name = h.name;
      constraints = h.constraints;
    })
    | inr i ↦ inr (record {
      entry = h.entry;
      listed = i;
      domain = h.domain;
      name = h.name;
      constraints = h.constraints;
    })
  ]

  on_left : (xs ys : List Entry) → Lists d t cs xs → Lists d t cs (xs ++ ys)
  on_left xs ys h = record {
    entry = h.entry;
    listed = In-append_left h.entry xs ys h.listed;
    domain = h.domain;
    name = h.name;
    constraints = h.constraints;
  }

  on_right : (xs ys : List Entry) → Lists d t cs ys → Lists d t cs (xs ++ ys)
  on_right xs ys h = record {
    entry = h.entry;
    listed = In-append_right h.entry xs ys h.listed;
    domain = h.domain;
    name = h.name;
    constraints = h.constraints;
  }

  no_sequence : (e : Entry) → e.domain ≡ none → Lists d t cs (e ∷ []) → ⊥
  no_sequence e n h = elim h.listed [ inl same ↦ cc | inr i ↦ i ]

  at_operator :
      (op : String) (args : Nodes)
      → (Lists d t cs (entries_from_args args) → Among d t cs args)
      → Lists d t cs (entry_from_event_expression (event_operator op args))
      → Alternative d t cs (event_operator op args)
  unfolding entry_from_event_expression
  at_operator op args below h = elim (Bool-cases (op == "or")) [
    | inl e ↦ rw ((eq_iff op "or").0 e) (choice (below (rw e at h)))
    | inr n ↦ absurd (no_sequence _ refl (rw n at h))
  ]

  at_single :
      (d' t' : String) (attrs : Nodes) (setting : List String) (wh aggregator : Node)
      → Lists d t cs
          (entry_from_event_expression (event_expression d' t' attrs setting wh aggregator))
      → Alternative d t cs (event_expression d' t' attrs setting wh aggregator)
  unfolding entry_from_event_expression
  at_single d' t' attrs setting wh aggregator h = elim h.listed [
    | inl same ↦
        let domains : d' ≡ d = cc (ap (λ (e : Entry). e.domain) same) in
        let types : t' ≡ t = cc (ap (λ (e : Entry). e.name) same) in
        let constraints : cs ≡ constraints_from_where wh ++ match_constraints attrs =
          cc (ap (λ (e : Entry). e.constraints) same) in
        rw (domains, types) (single attrs setting wh aggregator constraints)
    | inr i ↦ absurd i
  ]

  mutual
    unfolding entry_from_event_expression

    listed-Alternative :
        (n : Node) → Lists d t cs (entry_from_event_expression n) → Alternative d t cs n
    listed-Alternative (event_expression d' t' as' s w ag) h = at_single d' t' as' s w ag h
    listed-Alternative (event_operator op args) h = at_operator op args (listed-Among args) h
    listed-Alternative (event_group_operator op n e) h = absurd (no_sequence _ refl h)
    listed-Alternative _ h = absurd h.listed

    listed-Among : (ns : Nodes) → Lists d t cs (entries_from_args ns) → Among d t cs ns
    listed-Among nil h = absurd h.listed
    listed-Among (cons n ns) h =
        elim (append_cases (entry_from_event_expression n) (entries_from_args ns) h) [
          | inl i ↦ here (listed-Alternative n i)
          | inr i ↦ there (listed-Among ns i)
        ]

  mutual
    unfolding entry_from_event_expression

    Alternative-listed :
        {n : Node} → Alternative d t cs n → Lists d t cs (entry_from_event_expression n)
    Alternative-listed (single as' s w ag e) = record {
      entry = _;
      listed = inl refl;
      domain = refl;
      name = refl;
      constraints = sym e;
    }
    Alternative-listed (choice a) = Among-listed a

    Among-listed : {ns : Nodes} → Among d t cs ns → Lists d t cs (entries_from_args ns)
    Among-listed (here {n = n} {ns = ns} a) =
        on_left (entry_from_event_expression n) (entries_from_args ns) (Alternative-listed a)
    Among-listed (there {n = n} {ns = ns} a) =
        on_right (entry_from_event_expression n) (entries_from_args ns) (Among-listed a)

-- The schema lists the event `d:t` under the constraints `cs` for an event expression exactly
-- when it is one of the alternatives of the expression: the event expression itself, or an
-- alternative of an argument of `or`. Its constraints are those of its `where` clause and the
-- patterns of its attributes. No other operator lists a single event.
pub entry_from_event_expression-Alternative :
    (d t : String) (cs : List Constraint) (n : Node)
    → Lists d t cs (entry_from_event_expression n) ↔ Alternative d t cs n
entry_from_event_expression-Alternative d t cs n =
    (listed-Alternative d t cs n, Alternative-listed d t cs)
