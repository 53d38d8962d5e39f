-- ===== src/PicoSchema/Firsts.antt =====
-- pico-engine-core/src/ruleOutcomes.ts: each rule gets one outcome, the first.
use pico_engine.Base.{
  String, Bool, false, ◌||◌, ◌==◌, eq_iff, ◌≡◌, refl, ap, sym, ◌∙◌, inl, inr, if◌then◌else◌,
  Bool-cases, List, [], ◌∷◌, ◌++◌, Option, none, some, or_else, is_some, has, keys, arith, IsNodup,
}
use pico_engine.PicoSchema.Channel.{Installed, GetCached}
use pico_engine.PicoSchema.Outcomes.{
  RuleOutcome, outcome_key, Collected, push_outcome, push_runtime, insert_sorted, sort,
  annotated_rule_outcomes_for_event,
}
use pico_engine.PicoSchema.Selected.{
  annotated, unselected, push_all, push_runtime-all, push_rulesets-all, outcome_at, outcome_keys,
}

-- The collected keys are those of the outcomes, each once.
abbrev IsCollected : Collected → Type 0
IsCollected st =
    ((key : String) → has key st.seen ≡ is_some (outcome_at key st.out))
    × IsNodup (outcome_keys st.out)

has-outcome_keys :
    (key : String) (os : List RuleOutcome) → has key (outcome_keys os) ≡ is_some (outcome_at key os)
unfolding has
has-outcome_keys key [] = refl
has-outcome_keys key (o ∷ os) = ground (arith, has-outcome_keys key os)

IsCollected-fresh : IsCollected (record { seen = []; out = [] })
unfolding has
IsCollected-fresh = (λ key. refl, tt)

outcome_at-snoc :
    (key : String) (os : List RuleOutcome) (o : RuleOutcome)
    → outcome_at key (os ++ (o ∷ [])) ≡ or_else (outcome_at key os) (outcome_at key (o ∷ []))
outcome_at-snoc key [] o = refl
outcome_at-snoc key (p ∷ os) o = elim (Bool-cases (outcome_key p == key)) [
  | inl e ↦ rw e refl
  | inr e ↦ rw e (outcome_at-snoc key os o)
]

nodup-snoc :
    (os : List RuleOutcome) (o : RuleOutcome)
    → IsNodup (outcome_keys os)
    → has (outcome_key o) (outcome_keys os) ≡ false
    → IsNodup (outcome_keys (os ++ (o ∷ [])))
unfolding has
nodup-snoc [] o h e = (refl, tt)
nodup-snoc (p ∷ os) o (a, h) e = ground (
  arith,
  a,
  e,
  has-outcome_keys (outcome_key p) (os ++ (o ∷ [])),
  has-outcome_keys (outcome_key p) os,
  outcome_at-snoc (outcome_key p) os o,
  eq_iff (outcome_key p) (outcome_key o),
  eq_iff (outcome_key o) (outcome_key p),
  nodup-snoc os o h,
)

module _ (o : RuleOutcome) (st : Collected) (h : IsCollected st) where
  IsCollected-push : IsCollected (push_outcome o st)
  unfolding push_outcome has
  IsCollected-push = elim (Bool-cases (has (outcome_key o) st.seen)) [
    | inl e ↦ rw e h
    | inr e ↦ rw e (
      λ key. ground (arith, h.0 key, outcome_at-snoc key st.out o),
      nodup-snoc st.out o h.1
          (has-outcome_keys (outcome_key o) st.out ∙ sym (h.0 (outcome_key o)) ∙ e),
    )
  ]

  outcome_at-push :
      (key : String)
      → outcome_at key (push_outcome o st).out
        ≡ or_else (outcome_at key st.out) (outcome_at key (o ∷ []))
  unfolding push_outcome
  outcome_at-push key = elim (Bool-cases (has (outcome_key o) st.seen)) [
    | inl e ↦ rw e (ground (arith, h.0 key, eq_iff (outcome_key o) key))
    | inr e ↦ rw e (outcome_at-snoc key st.out o)
  ]

or_else_assoc : (a b c : Option RuleOutcome) → or_else (or_else a b) c ≡ or_else a (or_else b c)
or_else_assoc none b c = refl
or_else_assoc (some x) b c = refl

outcome_at-cons :
    (key : String) (o : RuleOutcome) (os : List RuleOutcome)
    → or_else (outcome_at key (o ∷ [])) (outcome_at key os) ≡ outcome_at key (o ∷ os)
outcome_at-cons key o os = elim (Bool-cases (outcome_key o == key)) [
  | inl e ↦ rw e refl
  | inr e ↦ rw e refl
]

push_all-lem :
    (os : List RuleOutcome) (st : Collected)
    → IsCollected st
    → IsCollected (push_all os st)
      × ((key : String)
          → outcome_at key (push_all os st).out
            ≡ or_else (outcome_at key st.out) (outcome_at key os))
push_all-lem [] st h = (h, λ key. none_else (outcome_at key st.out))
  where
    none_else : (a : Option RuleOutcome) → a ≡ or_else a none
    none_else none = refl
    none_else (some x) = refl
push_all-lem (o ∷ os) st h =
    let (k, f) = push_all-lem os (push_outcome o st) (IsCollected-push o st h) in
    (
      k,
      λ key.
          f key
          ∙ ap (λ a. or_else a (outcome_at key os)) (outcome_at-push o st h key)
          ∙ or_else_assoc (outcome_at key st.out) _ (outcome_at key os)
          ∙ ap (or_else (outcome_at key st.out)) (outcome_at-cons key o os),
    )

module _ (locale_after : String → String → Bool) where
  has-insert_sorted :
      (key : String) (o : RuleOutcome) (os : List RuleOutcome)
      → has key (outcome_keys (insert_sorted locale_after o os)) ≡ has key (outcome_keys (o ∷ os))
  unfolding insert_sorted has
  has-insert_sorted key o [] = refl
  has-insert_sorted key o (p ∷ ps) = ground (arith, has-insert_sorted key o ps)

  insert_sorted-at :
      (key : String) (o : RuleOutcome) (os : List RuleOutcome)
      → has (outcome_key o) (outcome_keys os) ≡ false
      → outcome_at key (insert_sorted locale_after o os) ≡ outcome_at key (o ∷ os)
  unfolding insert_sorted has
  insert_sorted-at key o [] h = refl
  insert_sorted-at key o (p ∷ ps) h = ground (
    arith,
    insert_sorted-at key o ps,
    h,
    eq_iff (outcome_key p) (outcome_key o),
    eq_iff (outcome_key o) key,
    eq_iff (outcome_key p) key,
  )

  insert_sorted-nodup :
      (o : RuleOutcome) (os : List RuleOutcome)
      → IsNodup (outcome_keys (o ∷ os))
      → IsNodup (outcome_keys (insert_sorted locale_after o os))
  unfolding insert_sorted has
  insert_sorted-nodup o [] h = h
  insert_sorted-nodup o (p ∷ ps) (a, (b, h)) = ground (
    arith,
    a,
    b,
    h,
    has-insert_sorted (outcome_key p) o ps,
    insert_sorted-nodup o ps,
    eq_iff (outcome_key p) (outcome_key o),
    eq_iff (outcome_key o) (outcome_key p),
  )

  sort-lem :
      (os : List RuleOutcome)
      → IsNodup (outcome_keys os)
      → IsNodup (outcome_keys (sort locale_after os))
        × ((key : String)
            → has key (outcome_keys (sort locale_after os)) ≡ has key (outcome_keys os))
        × ((key : String) → outcome_at key (sort locale_after os) ≡ outcome_at key os)
  unfolding sort has
  sort-lem [] h = (h, λ key. refl, λ key. refl)
  sort-lem (o ∷ os) (a, h) =
      let (n, k, f) = sort-lem os h in
      let away = k (outcome_key o) ∙ a in
      (
        insert_sorted-nodup o (sort locale_after os) (away, n),
        λ key.
            has-insert_sorted key o (sort locale_after os)
            ∙ ap (λ b. (outcome_key o == key) || b) (k key),
        λ key.
            insert_sorted-at key o (sort locale_after os) away
            ∙ ap (λ r. if outcome_key o == key then some o else r) (f key),
      )

-- A rule gets one outcome for an event: the first of the run's where the rule is annotated, else
-- `not_selected` where one of the rule's operations has the event, else none.
pub annotated_rule_outcomes-firsts :
    (locale_after : String → String → Bool) (installed : Installed) (get_cached : GetCached)
    (domain name : String) (runtime : List RuleOutcome)
    → (let outcomes =
          annotated_rule_outcomes_for_event locale_after installed get_cached domain name runtime in
        IsNodup (outcome_keys outcomes)
        × ((key : String)
            → outcome_at key outcomes
              ≡ or_else
                  (outcome_at key (annotated installed get_cached runtime))
                  (outcome_at key (unselected installed get_cached domain name (keys installed)))))
unfolding annotated_rule_outcomes_for_event
annotated_rule_outcomes-firsts locale_after installed get_cached domain name runtime =
    let those = annotated installed get_cached runtime in
    let others = unselected installed get_cached domain name (keys installed) in
    let fresh : Collected = record { seen = []; out = [] } in
    let as_list =
      push_rulesets-all installed get_cached domain name (keys installed)
        (push_runtime installed get_cached runtime fresh)
      ∙ ap (push_all others) (push_runtime-all installed get_cached runtime fresh) in
    let (mid, f) = push_all-lem those fresh (IsCollected-fresh) in
    let (end, g) = push_all-lem others (push_all those fresh) mid in
    let (n, _, k) = sort-lem locale_after (push_all others (push_all those fresh)).out end.1 in
    rw as_list (n, λ key. k key ∙ g key ∙ ap (λ a. or_else a (outcome_at key others)) (f key))
