-- ===== src/Derive/Reads/Names.antt =====
-- The names that `derivedAttrNamesFromRule` finds are those that the rule reads.
use pico_engine.Base.{
  String, ◌≡◌, ◌↔◌, ◌⊎◌, inl, inr, refl, sym, subst, true, not, ◌&&◌, List, [], ◌∷◌, ℕ, In,
  In-append, In-append_left, In-append_right, has, has→In, In→has, has-nil, keys, has-keys,
  is_proto, has-add_keys, Bool-cases, arith,
}
use pico_engine.Ast.{Node, Nodes, application, identifier, member, rule_for_each, walk, Rule}
use pico_engine.Derive.Globals.{
  Globals, Resolved, found, missing, no_fuel, global_by_name_from, resolve_global_function,
}
use pico_engine.Derive.Globals.Aliases.{Alias, direct, alias, resolve_global_function-Alias}
use pico_engine.Derive.Reads.{
  record_attr_reads, call_reads, expression_reads, foreach_reads, walk_with_global_calls,
  function_reads, expand_call, rule_nodes, derived_attr_names_from_rule,
}

-- A node of the list, or one of the expression of a `foreach` in the list.
pub data Visited (x : Node) (ns : List Node) : Type 0 where
  once : In x ns → Visited x ns
  again :
      (expression : Node) (setting : List String)
      → In (rule_for_each expression setting) ns
      → In x (walk expression)
      → Visited x ns

-- The node reads the attribute `n` with `event:attr("n")` or `event:attrs{"n"}`, or it calls a
-- name that stands for a function of the `global` block whose nodes read it so.
pub data ReadBy (m : Globals) (n : String) : Node → Type 0 where
  itself : (x : Node) → In n (record_attr_reads x) → ReadBy m n x
  in_call :
      (f : String) (args : Node) (h : ℕ) (fn y : Node)
      → Alias m h f fn
      → Visited y (walk fn)
      → In n (record_attr_reads y)
      → ReadBy m n (application (identifier f) args)

later : {x : Node} (z : Node) {ns : List Node} → Visited x ns → Visited x (z ∷ ns)
later z (once i) = once (inr i)
later z (again e s i j) = again e s (inr i) j

record-In-walk : (n : String) (e : Node) → In n (record_attr_reads e) → In e (walk e)
unfolding record_attr_reads walk
record-In-walk n (application c as') i = inl refl
record-In-walk n (member o m p) i = inl refl
record-In-walk n _ i = absurd i

module _ (n : String) (expand : String → List String) where
  abbrev Visit : Node → Type 0
  Visit x = In n (record_attr_reads x) ⊎ In n (call_reads expand x)

  expression-Visit :
      (ns : List Node) → In n (expression_reads expand ns) → (x : Node) × In x ns × Visit x
  unfolding expression_reads
  expression-Visit [] i = absurd i
  expression-Visit (x ∷ ns) i = elim (In-append n (record_attr_reads x) _ i) [
    | inl j ↦ (x, inl refl, inl j)
    | inr j ↦ elim (In-append n (call_reads expand x) _ j) [
      | inl k ↦ (x, inl refl, inr k)
      | inr k ↦ let (y, at, v) = expression-Visit ns k in (y, inr at, v)
    ]
  ]

  Visit-expression :
      (x : Node) (ns : List Node) → In x ns → Visit x → In n (expression_reads expand ns)
  unfolding expression_reads
  Visit-expression x [] i v = absurd i
  Visit-expression x (y ∷ ns) (inl e) (inl r) = In-append_left n _ _ (rw e at r)
  Visit-expression x (y ∷ ns) (inl e) (inr c) =
      In-append_right n (record_attr_reads y) _ (In-append_left n _ _ (rw e at c))
  Visit-expression x (y ∷ ns) (inr i) v =
      In-append_right n (record_attr_reads y) _
        (In-append_right n (call_reads expand y) _ (Visit-expression x ns i v))

  foreach-Visit :
      (z : Node)
      → In n (foreach_reads expand z)
      → (e : Node) × (s : List String) × (z ≡ rule_for_each e s)
        × (x : Node) × In x (walk e)
        × Visit x
  unfolding foreach_reads
  foreach-Visit (rule_for_each e s) i = elim (In-append n (record_attr_reads e) _ i) [
    | inl j ↦ (e, s, refl, e, record-In-walk n e j, inl j)
    | inr j ↦ let (x, at, v) = expression-Visit (walk e) j in (e, s, refl, x, at, v)
  ]
  foreach-Visit _ i = absurd i

  walk-Visit :
      (ns : List Node)
      → In n (walk_with_global_calls expand ns)
      → (x : Node) × Visited x ns × Visit x
  unfolding walk_with_global_calls
  walk-Visit [] i = absurd i
  walk-Visit (x ∷ ns) i = elim (In-append n (record_attr_reads x) _ i) [
    | inl j ↦ (x, once (inl refl), inl j)
    | inr j ↦ elim (In-append n (foreach_reads expand x) _ j) [
      | inl k ↦
          let (e, s, same, y, at, v) = foreach-Visit x k in (y, again e s (inl (sym same)) at, v)
      | inr k ↦ elim (In-append n (call_reads expand x) _ k) [
        | inl l ↦ (x, once (inl refl), inr l)
        | inr l ↦ let (y, at, v) = walk-Visit ns l in (y, later x at, v)
      ]
    ]
  ]

  walk_tail :
      (x : Node) (ns : List Node)
      → In n (walk_with_global_calls expand ns)
      → In n (walk_with_global_calls expand (x ∷ ns))
  unfolding walk_with_global_calls
  walk_tail x ns i =
      In-append_right n (record_attr_reads x) _
        (In-append_right n (foreach_reads expand x) _ (In-append_right n (call_reads expand x) _ i))

  once_walk :
      (x : Node) (ns : List Node) → In x ns → Visit x → In n (walk_with_global_calls expand ns)
  unfolding walk_with_global_calls
  once_walk x [] i v = absurd i
  once_walk x (y ∷ ns) (inl e) (inl r) = In-append_left n _ _ (rw e at r)
  once_walk x (y ∷ ns) (inl e) (inr c) =
      In-append_right n (record_attr_reads y) _
        (In-append_right n (foreach_reads expand y) _ (In-append_left n _ _ (rw e at c)))
  once_walk x (y ∷ ns) (inr i) v = walk_tail y ns (once_walk x ns i v)

  foreach-In :
      (e : Node) (s : List String) (x : Node)
      → In x (walk e)
      → Visit x
      → In n (foreach_reads expand (rule_for_each e s))
  unfolding foreach_reads
  foreach-In e s x j v = In-append_right n (record_attr_reads e) _ (Visit-expression x (walk e) j v)

  again_walk :
      (e : Node) (s : List String) (ns : List Node)
      → In (rule_for_each e s) ns
      → In n (foreach_reads expand (rule_for_each e s))
      → In n (walk_with_global_calls expand ns)
  unfolding walk_with_global_calls
  again_walk e s [] i j = absurd i
  again_walk e s (y ∷ ns) (inl same) j =
      In-append_right n (record_attr_reads y) _
        (In-append_left n _ _ (subst (λ z. In n (foreach_reads expand z)) same j))
  again_walk e s (y ∷ ns) (inr i) j = walk_tail y ns (again_walk e s ns i j)

  Visit-walk :
      (x : Node) (ns : List Node) → Visited x ns → Visit x → In n (walk_with_global_calls expand ns)
  Visit-walk x ns (once i) v = once_walk x ns i v
  Visit-walk x ns (again e s i j) v = again_walk e s ns i (foreach-In e s x j v)

module _ (m : Globals) (n : String) where
  -- Inside a global function no call is followed.
  no_call : (x : Node) → In n (call_reads (λ f. []) x) → ⊥
  unfolding call_reads
  no_call (application (identifier f) as') i = i
  no_call _ i = i

  In-function :
      (r : Resolved)
      → In n (function_reads r)
      → (fn : Node) × (r ≡ found fn) × (y : Node) × Visited y (walk fn) × In n (record_attr_reads y)
  unfolding function_reads
  In-function (found fn) i =
      let (y, at, v) = walk-Visit n (λ f. []) (walk fn) i in
      (fn, refl, y, at, elim v [ inl r ↦ r | inr c ↦ absurd (no_call y c) ])
  In-function missing i = absurd i
  In-function no_fuel i = absurd i

  expanded :
      (f : String) (as' : Node)
      → In n (expand_call m f)
      → ReadBy m n (application (identifier f) as')
  unfolding expand_call
  expanded f as' i = elim (Bool-cases (has f (keys m) && not (is_proto f))) [
    | inl e ↦
        let (fn, r, y, at, reads) = In-function (resolve_global_function m f) (rw e at i) in
        let (h, a) = (resolve_global_function-Alias m f fn).0 r in in_call f as' h fn y a at reads
    | inr e ↦ absurd (rw e at i)
  ]

  call-ReadBy : (x : Node) → In n (call_reads (expand_call m) x) → ReadBy m n x
  unfolding call_reads
  call-ReadBy (application (identifier f) as') i = expanded f as' i
  call-ReadBy _ i = absurd i

  Visit-ReadBy : (x : Node) → Visit n (expand_call m) x → ReadBy m n x
  Visit-ReadBy x (inl r) = itself x r
  Visit-ReadBy x (inr c) = call-ReadBy x c

  declared :
      {h : ℕ} {f : String} {fn : Node}
      → Alias m h f fn
      → (has f (keys m) && not (is_proto f)) ≡ true
  declared {f = f} (direct l ps b r d p e) = ground (arith, has-keys f m)
  declared {f = f} (alias l k d p e a) = ground (arith, has-keys f m)

  ReadBy-Visit : {x : Node} → ReadBy m n x → Visit n (expand_call m) x
  unfolding call_reads expand_call function_reads
  ReadBy-Visit (itself x r) = inl r
  ReadBy-Visit (in_call f as' h fn y a at r) = inr (
      rw (declared a, (resolve_global_function-Alias m f fn).1 (h, a))
        (Visit-walk n (λ f. []) y (walk fn) at (inl r)))

-- A rule's derived names are exactly those that a node of its prelude, its `foreach`es, its
-- action block or its postlude reads from the event, itself or by a call of a name that stands for
-- a function of the `global` block whose own nodes read it. A call inside that function is not
-- followed further.
pub derived_attr_names-ReadBy :
    (r : Rule) (global : Nodes) (n : String)
    → (has n (derived_attr_names_from_rule r global) ≡ true)
      ↔ ((x : Node) × Visited x (rule_nodes r) × ReadBy (global_by_name_from global) n x)
unfolding derived_attr_names_from_rule
derived_attr_names-ReadBy r global n =
    let m = global_by_name_from global in
    let reads = walk_with_global_calls (expand_call m) (rule_nodes r) in
    (
      λ h.
          let (x, at, v) =
            walk-Visit n (expand_call m) (rule_nodes r)
              (has→In n reads (ground (arith, has-add_keys n reads [], has-nil n))) in
          (x, at, Visit-ReadBy m n x v),
      λ (x, at, b).
          let i = Visit-walk n (expand_call m) x (rule_nodes r) at (ReadBy-Visit m n b) in
          ground (arith, has-add_keys n reads [], In→has n reads i),
    )
