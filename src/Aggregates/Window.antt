-- ===== src/Aggregates/Window.antt =====
-- krl-stdlib/src/aggregateEvent.ts: the window of values over a run of events.
use pico_engine.Base.{
  ℕ, zero, suc, String, Bool, true, false, ◌≡◌, refl, ap, sym, ◌∙◌, has, All, List, [], ◌∷◌, ◌++◌,
  some, length, lookup, has-keys, is_some, keys,
}
use mathlib.Core.List.{append_assoc, append-nil}
use pico_engine.Aggregates.{
  Value, Floats, Aggregate, aggregators, State, tail, Gathered, gathered, next_values, gather_pairs,
  aggregate_event,
}
use pico_engine.Aggregates.Pairs.{
  pairs_of, assign-lookup, gather_pairs-lookup, gather_pairs-setting, gather_pairs-IsNodup,
}

-- An event of a run: the states that the machine is in, and the value of each name.
pub record Event : Type 0 where
  pub states : List String
  pub value_of : String → Value

abbrev pub drop : ℕ → List Value → List Value
drop zero vs = vs
drop (suc n) [] = []
drop (suc n) (v ∷ vs) = drop n vs

abbrev pub starts : Event → Bool
starts e = has "start" e.states

abbrev pub ends : Event → Bool
ends e = has "end" e.states

abbrev pub values_of : String → List Event → List Value
values_of name [] = []
values_of name (e ∷ es) = e.value_of name ∷ values_of name es

module _ {Number : Type 0} (floats : Floats Number) (op : String) (names : List String) where
  abbrev pub step : State Number → Event → State Number
  step state e =
      aggregate_event floats (record state { states = e.states }) op (pairs_of e.value_of names)

  abbrev pub run : State Number → List Event → State Number
  run state [] = state
  run state (e ∷ es) = run (step state e) es

  module _ (name : String) (listed : has name names ≡ true) where
    step-gathered :
        (state : State Number) (e : Event)
        → gathered (step state e) name
          ≡ next_values (record state { states = e.states }) name (e.value_of name)
    unfolding aggregate_event gathered
    step-gathered state e =
        let found =
          gather_pairs-lookup floats op (record state { states = e.states }) e.value_of names name
            (record { aggregates = []; setting = [] }) in
        rw (found, listed) refl

    -- Neither at the start nor at the end, the value is added.
    abbrev pub Fills : Event → Type 0
    Fills e = (starts e ≡ false) × (ends e ≡ false)

    -- At the end, the oldest value goes.
    abbrev pub Slides : Event → Type 0
    Slides e = (starts e ≡ false) × (ends e ≡ true)

    next-first :
        (state : State Number) (e : Event)
        → starts e ≡ true
        → gathered (step state e) name ≡ e.value_of name ∷ []
    unfolding next_values
    next-first state e a = step-gathered state e ∙ rw a refl

    next-added :
        (state : State Number) (e : Event)
        → Fills e
        → gathered (step state e) name ≡ gathered state name ++ (e.value_of name ∷ [])
    unfolding next_values gathered
    next-added state e (a, b) = step-gathered state e ∙ rw (a, b) refl

    next-moved :
        (state : State Number) (e : Event)
        → Slides e
        → gathered (step state e) name ≡ tail (gathered state name ++ (e.value_of name ∷ []))
    unfolding next_values gathered
    next-moved state e (a, b) = step-gathered state e ∙ rw (a, b) refl

    run-Fills :
        (state : State Number) (es : List Event)
        → All Fills es
        → gathered (run state es) name ≡ gathered state name ++ values_of name es
    run-Fills state [] h = sym (append-nil (gathered state name))
    run-Fills state (e ∷ es) (f, h) =
        run-Fills (step state e) es h
        ∙ ap (λ vs. vs ++ values_of name es) (next-added state e f)
        ∙ append_assoc (gathered state name) (e.value_of name ∷ []) (values_of name es)

    run-Slides :
        (state : State Number) (es : List Event) (v : Value) (vs : List Value)
        → All Slides es
        → gathered state name ≡ v ∷ vs
        → gathered (run state es) name ≡ drop (length es) ((v ∷ vs) ++ values_of name es)
    run-Slides state [] v vs h k = k ∙ sym (append-nil (v ∷ vs))
    run-Slides state (e ∷ es) v [] (f, h) k =
        run-Slides (step state e) es (e.value_of name) [] h
          (next-moved state e f ∙ ap (λ l. tail (l ++ (e.value_of name ∷ []))) k)
    run-Slides state (e ∷ es) v (u ∷ us) (f, h) k =
        run-Slides (step state e) es u (us ++ (e.value_of name ∷ [])) h
          (next-moved state e f ∙ ap (λ l. tail (l ++ (e.value_of name ∷ []))) k)
        ∙ ap (drop (length es)) (append_assoc (u ∷ us) (e.value_of name ∷ []) (values_of name es))

    run-append :
        (state : State Number) (es ds : List Event) → run state (es ++ ds) ≡ run (run state es) ds
    run-append state [] ds = refl
    run-append state (e ∷ es) ds = run-append (step state e) es ds

    values_of-append :
        (es ds : List Event) → values_of name (es ++ ds) ≡ values_of name es ++ values_of name ds
    values_of-append [] ds = refl
    values_of-append (e ∷ es) ds = ap (λ l. e.value_of name ∷ l) (values_of-append es ds)

    module _ (aggregator : List Value → Aggregate Number)
        (known : aggregators floats op ≡ some aggregator) where
      -- The setting holds what the aggregator makes of the gathered values.
      abbrev Matches : State Number → Type 0
      Matches state = lookup name state.setting ≡ some (aggregator (gathered state name))

      step-Matches : (state : State Number) (e : Event) → Matches (step state e)
      unfolding aggregate_event
      step-Matches state e =
          let inside = record state { states = e.states } in
          let start : Gathered Number = record { aggregates = []; setting = [] } in
          let pairs = pairs_of e.value_of names in
          let g = gather_pairs floats inside op pairs start in
          let found : lookup name g.setting
              ≡ some (aggregator (next_values inside name (e.value_of name))) =
            gather_pairs-setting floats op aggregator known inside e.value_of names name start
            ∙ rw listed refl in
          let present : has name (keys g.setting) ≡ true =
            has-keys name g.setting ∙ ap is_some found in
          assign-lookup state.setting g.setting name
            (gather_pairs-IsNodup floats op aggregator known inside pairs start tt)
          ∙ rw present (found ∙ ap (λ vs. some (aggregator vs)) (sym (step-gathered state e)))

      run-Matches :
          (state : State Number) (es : List Event) → Matches state → Matches (run state es)
      run-Matches state [] h = h
      run-Matches state (e ∷ es) h = run-Matches (step state e) es (step-Matches state e)

      -- With one of the aggregators, over an event at the group's start, events that are neither at its
      -- start nor at its end, and events at its end: each name that the group lists has the values in
      -- order, less one from the front for each event at the end, and the setting has the aggregator's
      -- result on them.
      pub aggregate_event-Window :
          (state : State Number) (first : Event) (filling sliding : List Event)
          → starts first ≡ true
          → All Fills filling
          → All Slides sliding
          → let final = run state (first ∷ (filling ++ sliding)) in
            let window = drop (length sliding) (values_of name (first ∷ (filling ++ sliding))) in
            (gathered final name ≡ window) × (lookup name final.setting ≡ some (aggregator window))
      aggregate_event-Window state first filling sliding a h k =
          let once = step state first in
          let full : gathered (run once filling) name
              ≡ first.value_of name ∷ values_of name filling =
            run-Fills once filling h
            ∙ ap (λ vs. vs ++ values_of name filling) (next-first state first a) in
          let window : gathered (run once (filling ++ sliding)) name
              ≡ drop (length sliding) (first.value_of name ∷ values_of name (filling ++ sliding)) =
            ap (λ s. gathered s name) (run-append once filling sliding)
            ∙ run-Slides (run once filling) sliding (first.value_of name) (values_of name filling) k
                full
            ∙ ap (λ vs. drop (length sliding) (first.value_of name ∷ vs))
                (sym (values_of-append filling sliding)) in
          (
            window,
            run-Matches once (filling ++ sliding) (step-Matches state first)
                ∙ ap (λ vs. some (aggregator vs)) window,
          )
