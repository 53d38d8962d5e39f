-- ===== src/Aggregates/Pairs.antt =====
-- krl-stdlib/src/aggregateEvent.ts: what a list of pairs leaves under each name.
use pico_engine.Base.{
  String, ◌==◌, ◌≡◌, refl, ap, subst, sym, ◌∙◌, inl, inr, if◌then◌else◌, Bool-cases, has, eq_iff,
  List, [], ◌∷◌, some, lookup, insert, lookup-insert, keys, IsNodup, keys-insert-IsNodup, arith,
}
use pico_engine.Aggregates.{
  Value, Floats, Aggregate, aggregators, State, Gathered, assign, next_values, set_aggregate,
  gather_pair, gather_pairs,
}

abbrev pub pairs_of : (String → Value) → List String → List (String × Value)
pairs_of f [] = []
pairs_of f (n ∷ ns) = (n, f n) ∷ pairs_of f ns

pub assign-lookup :
    {V : Type 0}
    → (target source : List (String × V)) (k : String) → IsNodup (keys source)
    → lookup k (assign target source)
      ≡ (if has k (keys source) then lookup k source else lookup k target)
unfolding assign lookup has
assign-lookup target [] k h = refl
assign-lookup target ((j, v) ∷ source) k h =
    assign-lookup (insert j v target) source k h.1
    ∙ ground (arith, lookup-insert j k v target, eq_iff j k, h)

module _ {Number : Type 0} (floats : Floats Number) (op : String) where
  pub gather_pairs-lookup :
      (state : State Number) (f : String → Value) (names : List String) (name : String)
      (g : Gathered Number)
      → lookup name (gather_pairs floats state op (pairs_of f names) g).aggregates ≡ (
          if has name names
          then some (next_values state name (f name))
          else lookup name g.aggregates)
  unfolding gather_pairs has gather_pair
  gather_pairs-lookup state f [] name g = refl
  gather_pairs-lookup state f (n ∷ ns) name g =
      let later = gather_pairs-lookup state f ns name (gather_pair floats state op n (f n) g) in
      elim (Bool-cases (n == name)) [
        | inl e ↦
            let same : n ≡ name = ground (arith, eq_iff n name, e) in
            later
            ∙ ground (
              arith,
              lookup-insert n name (next_values state n (f n)) g.aggregates,
              ap (λ m. next_values state m (f m)) same,
              e,
            )
        | inr e ↦
            later ∙ ground (arith, lookup-insert n name (next_values state n (f n)) g.aggregates, e)
      ]

  module _ (aggregator : List Value → Aggregate Number)
      (known : aggregators floats op ≡ some aggregator) where
    pub gather_pairs-setting :
        (state : State Number) (f : String → Value) (names : List String) (name : String)
        (g : Gathered Number)
        → lookup name (gather_pairs floats state op (pairs_of f names) g).setting ≡ (
            if has name names
            then some (aggregator (next_values state name (f name)))
            else lookup name g.setting)
    unfolding gather_pairs has gather_pair set_aggregate
    gather_pairs-setting state f [] name g = refl
    gather_pairs-setting state f (n ∷ ns) name g =
        let vals = next_values state n (f n) in
        let set : set_aggregate (aggregators floats op) n vals g.setting
            ≡ insert n (aggregator vals) g.setting =
          ap (λ a. set_aggregate a n vals g.setting) known in
        let later = gather_pairs-setting state f ns name (gather_pair floats state op n (f n) g) in
        elim (Bool-cases (n == name)) [
          | inl e ↦
              let same : n ≡ name = ground (arith, eq_iff n name, e) in
              later
              ∙ ground (
                arith,
                ap (lookup name) set,
                lookup-insert n name (aggregator vals) g.setting,
                ap (λ m. next_values state m (f m)) same,
                e,
              )
          | inr e ↦
              later
              ∙ ground
                  (arith, ap (lookup name) set, lookup-insert n name (aggregator vals) g.setting, e)
        ]

    pub gather_pairs-IsNodup :
        (state : State Number) (pairs : List (String × Value)) (g : Gathered Number)
        → IsNodup (keys g.setting)
        → IsNodup (keys (gather_pairs floats state op pairs g).setting)
    unfolding gather_pairs gather_pair set_aggregate
    gather_pairs-IsNodup state [] g h = h
    gather_pairs-IsNodup state ((n, v) ∷ pairs) g h =
        gather_pairs-IsNodup state pairs (gather_pair floats state op n v g) (
          subst (λ a. IsNodup (keys (set_aggregate a n (next_values state n v) g.setting)))
            (sym known) (keys-insert-IsNodup n (aggregator (next_values state n v)) g.setting h))
