-- ===== src/Lint/Types/Conflicts.antt =====
-- Which attributes are reported for conflicting types.
use pico_engine.Base.{
  String, ◌==◌, ◌≡◌, ◌↔◌, ◌∙◌, inl, inr, refl, sym, ap, Bool, true, false, ◌&&◌, if◌then◌else◌,
  List, [], ◌∷◌, Option, none, some, or_else, is_proto, lookup, lookup-insert, lookup-nil, insert,
  keys, has, has-nil, keys-insert-IsNodup, IsNodup, add_keys, subst, eq_iff, arith, Bool-cases,
}
use pico_engine.Derive.Entries.{Attr}
use pico_engine.Schema.Docs.{type_or_any}
use pico_engine.Lint.Types.Differing.{Two, differ-Two}
use pico_engine.Lint.Types.{
  Source, TypesByAttr, types_at, set_type, set_types, types_by_attr, two_or_more, differ,
  conflicting, conflicts_of,
}

-- The type that an operation's attributes give the name: the last one counts.
abbrev pub type_in : String → List Attr → Option String
type_in n [] = none
type_in n (a ∷ as') =
    or_else (type_in n as') (if a.name == n then some (type_or_any (some a.kind)) else none)

-- The type that a rule gives the name: the last operation with one counts.
abbrev pub given : String → String → List Source → Option String
given r n [] = none
given r n ((rule, attrs) ∷ ss) =
    or_else (given r n ss) (if rule == r then type_in n attrs else none)

abbrev pub Disagree : String → List Source → Type 0
Disagree n ss =
    (r : String) × (s : String) × (t : String) × (u : String) × (given r n ss ≡ some t)
    × (given s n ss ≡ some u)
    × ((t == u) ≡ false)

types_at-insert :
    (k n : String) (ts : List (String × String)) (m : TypesByAttr)
    → types_at n (insert k ts m) ≡ (if k == n then ts else types_at n m)
unfolding types_at
types_at-insert k n ts m = ground (arith, lookup-insert k n ts m)

later_first :
    (b c : Bool) (x y : Option String) (t : String)
    → or_else (if b then x else none) (if c && b then some t else y)
      ≡ or_else (if b then or_else x (if c then some t else none) else none) y
later_first true true none y t = refl
later_first true true (some u) y t = refl
later_first true false none y t = refl
later_first true false (some u) y t = refl
later_first false true x y t = refl
later_first false false x y t = refl

or_else_assoc : (x y z : Option String) → or_else x (or_else y z) ≡ or_else (or_else x y) z
or_else_assoc none y z = refl
or_else_assoc (some u) y z = refl

nothing_at : (n : String) → types_at n [] ≡ []
unfolding types_at lookup
nothing_at n = refl

module _ (r n : String) (plain : is_proto n ≡ false) where
  lookup-set_type :
      (rule name type : String) (m : TypesByAttr)
      → lookup r (types_at n (set_type rule name type m))
        ≡ (if name == n && rule == r then some type else lookup r (types_at n m))
  unfolding set_type
  lookup-set_type rule name type m = ground (
    arith,
    eq_iff name n,
    types_at-insert name n (insert rule type (types_at name m)) m,
    lookup-insert rule r type (types_at n m),
  )

  lookup-set_types :
      (rule : String) (as' : List Attr) (m : TypesByAttr)
      → lookup r (types_at n (set_types rule as' m))
        ≡ or_else (if rule == r then type_in n as' else none) (lookup r (types_at n m))
  unfolding set_types
  lookup-set_types rule [] m = ground arith
  lookup-set_types rule (a ∷ as') m =
      let type = type_or_any (some a.kind) in
      lookup-set_types rule as' (set_type rule a.name type m)
      ∙ ap (or_else (if rule == r then type_in n as' else none))
          (lookup-set_type rule a.name type m)
      ∙ later_first (rule == r) (a.name == n) (type_in n as') (lookup r (types_at n m)) type

  lookup-types_by_attr :
      (ss : List Source) (m : TypesByAttr)
      → lookup r (types_at n (types_by_attr ss m))
        ≡ or_else (given r n ss) (lookup r (types_at n m))
  unfolding types_by_attr
  lookup-types_by_attr [] m = refl
  lookup-types_by_attr ((rule, attrs) ∷ ss) m =
      lookup-types_by_attr ss (set_types rule attrs m)
      ∙ ap (or_else (given r n ss)) (lookup-set_types rule attrs m)
      ∙ or_else_assoc (given r n ss) (if rule == r then type_in n attrs else none)
          (lookup r (types_at n m))

IsNodup-at :
    (k n : String) (ts : List (String × String)) (m : TypesByAttr)
    → IsNodup (keys ts)
    → IsNodup (keys (types_at n m))
    → IsNodup (keys (types_at n (insert k ts m)))
IsNodup-at k n ts m h g =
    subst (λ z. IsNodup (keys z)) (sym (types_at-insert k n ts m))
      (elim (Bool-cases (k == n)) [ inl e ↦ rw e h | inr e ↦ rw e g ])

-- What holds of `typesByAttr` all along: no key stands twice, on either level, and the names are
-- own names.
record Indexed (m : TypesByAttr) : Type 0 where
  names : IsNodup (keys m)
  rules : (n : String) → IsNodup (keys (types_at n m))
  own : (n : String) → is_proto n ≡ true → lookup n m ≡ none

set_type-Indexed :
    (rule name type : String) (m : TypesByAttr) → Indexed m → Indexed (set_type rule name type m)
unfolding set_type
set_type-Indexed rule name type m h = elim (Bool-cases (is_proto name)) [
  | inl proto ↦ rw proto h
  | inr plain ↦ rw plain (record {
    names = keys-insert-IsNodup name (insert rule type (types_at name m)) m h.names;
    rules = λ n.
        IsNodup-at name n _ m (keys-insert-IsNodup rule type (types_at name m) (h.rules name))
          (h.rules n);
    own = λ n p. ground (
      arith,
      eq_iff name n,
      lookup-insert name n (insert rule type (types_at name m)) m,
      h.own n p,
    );
  })
]

set_types-Indexed :
    (rule : String) (as' : List Attr) (m : TypesByAttr) → Indexed m → Indexed (set_types rule as' m)
unfolding set_types
set_types-Indexed rule [] m h = h
set_types-Indexed rule (a ∷ as') m h =
    set_types-Indexed rule as' _ (set_type-Indexed rule a.name _ m h)

types_by_attr-Indexed :
    (ss : List Source) (m : TypesByAttr) → Indexed m → Indexed (types_by_attr ss m)
unfolding types_by_attr
types_by_attr-Indexed [] m h = h
types_by_attr-Indexed ((rule, attrs) ∷ ss) m h =
    types_by_attr-Indexed ss _ (set_types-Indexed rule attrs m h)

not_conflicting :
    (n : String) (m : TypesByAttr) → has n (keys m) ≡ false → has n (conflicting m) ≡ false
unfolding conflicting has
not_conflicting n [] h = refl
not_conflicting n ((name, by_rule) ∷ m) h = ground (arith, not_conflicting n m)

has-conflicting :
    (n : String) (m : TypesByAttr)
    → IsNodup (keys m)
    → has n (conflicting m) ≡ differ (types_at n m)
unfolding conflicting types_at lookup has differ two_or_more add_keys
has-conflicting n [] h = refl
has-conflicting n ((name, by_rule) ∷ m) (new, h) =
    ground (arith, eq_iff name n, has-conflicting n m h, not_conflicting n m)

or_else-none : (x : Option String) → or_else x none ≡ x
or_else-none none = refl
or_else-none (some t) = refl

module _ (ss : List Source) where
  start : Indexed []
  start = record {
    names = tt;
    rules = λ n. subst (λ z. IsNodup (keys z)) (sym (nothing_at n)) tt;
    own = λ n p. lookup-nil n;
  }

  indexed : Indexed (types_by_attr ss [])
  indexed = types_by_attr-Indexed ss [] start

  given_at :
      (r n : String)
      → is_proto n ≡ false
      → lookup r (types_at n (types_by_attr ss [])) ≡ given r n ss
  given_at r n plain =
      lookup-types_by_attr r n plain ss []
      ∙ ap (or_else (given r n ss)) (ap (lookup r) (nothing_at n) ∙ lookup-nil r)
      ∙ or_else-none (given r n ss)

  Two-Disagree :
      (n : String) → is_proto n ≡ false → Two (types_at n (types_by_attr ss [])) ↔ Disagree n ss
  Two-Disagree n plain = (
    λ (r, s, t, u, p, q, d).
        (r, s, t, u, sym (given_at r n plain) ∙ p, sym (given_at s n plain) ∙ q, d),
    λ (r, s, t, u, p, q, d). (r, s, t, u, given_at r n plain ∙ p, given_at s n plain ∙ q, d),
  )

  conflicting-Two :
      (n : String)
      → (has n (conflicting (types_by_attr ss [])) ≡ true) ↔ Two (types_at n (types_by_attr ss []))
  conflicting-Two n =
      let same = has-conflicting n (types_by_attr ss []) indexed.names in
      let two = differ-Two (types_at n (types_by_attr ss [])) (indexed.rules n) in
      (λ h. two.0 (sym same ∙ h), λ t. same ∙ two.1 t)

  plain_name : (n : String) → Two (types_at n (types_by_attr ss [])) → is_proto n ≡ false
  unfolding types_at
  plain_name n (r, s, t, u, p, q, d) = elim (Bool-cases (is_proto n)) [
    | inl proto ↦ ground (arith, indexed.own n proto, lookup-nil {V = String} r)
    | inr plain ↦ plain
  ]

-- An attribute is reported for an entry exactly when two operations or more have the entry, its
-- name is none that every JavaScript object inherits, and two rules give it different types:
-- the type that a rule gives is the one of its last operation with the entry and the attribute.
pub conflicts_of-Disagree :
    (ss : List Source) (n : String)
    → (has n (conflicts_of ss) ≡ true)
      ↔ ((two_or_more ss ≡ true) × (is_proto n ≡ false) × Disagree n ss)
unfolding conflicts_of
conflicts_of-Disagree ss n =
    let two = conflicting-Two ss n in
    elim (Bool-cases (two_or_more ss)) [
      | inl many ↦ (
        λ h.
            let t = two.0 (rw many at h) in
            let plain = plain_name ss n t in (many, plain, (Two-Disagree ss n plain).0 t),
        λ (m, plain, d). rw many (two.1 ((Two-Disagree ss n plain).1 d)),
      )
      | inr one ↦ (λ h. ground (arith, has-nil n), λ (m, plain, d). cc)
    ]
