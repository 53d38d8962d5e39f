-- ===== src/Samples/Windows.antt =====
-- The theorem on the values that an event group gathers, and two runs.
use Prim.Native.String.{count}
use pico_engine.Base.{
  ℕ, ◌+◌, String, true, false, ◌≡◌, refl, has, List, [], ◌∷◌, none, some, map, lookup, insert,
}
use pico_engine.Aggregates.{
  Value, Floats, Aggregate, number, to_float, aggregators, State, gathered, aggregate_event, assign,
  gather_pair, gather_pairs, next_values, set_aggregate, sum_from, to_number_or_null, is_hex,
}
use pico_engine.Aggregates.Window.{Event, run, aggregate_event-Window}

-- Numbers by the length of their text.
abbrev counts : Floats ℕ
counts = record {
  zero = 0;
  parse_hex = count;
  to_number = count;
  is_finite = λ n. true;
  is_truthy = λ n. true;
  plus = λ m n. m + n;
  divide = λ m n. m;
  of_size = λ n. n;
  max_of = λ ns. none;
  min_of = λ ns. none;
}

abbrev total : List Value → Aggregate ℕ
total values = number (some (sum_from counts 0 (map (to_float counts) values)))

abbrev fresh : State ℕ
fresh = record { states = []; aggregates = []; setting = [] }

abbrev event_in : String → String → Event
event_in state text = record { states = state ∷ []; value_of = λ name. some text }

total_known : aggregators counts "sum" ≡ some total
unfolding aggregators
total_known = refl

n_listed : has "n" ("n" ∷ []) ≡ true
unfolding has
n_listed = refl

start_started : has "start" ("start" ∷ []) ≡ true
unfolding has
start_started = refl

middle_out : (has "start" ("s1" ∷ []) ≡ false) × (has "end" ("s1" ∷ []) ≡ false)
unfolding has
middle_out = (refl, refl)

end_in : (has "start" ("end" ∷ []) ≡ false) × (has "end" ("end" ∷ []) ≡ true)
unfolding has
end_in = (refl, refl)

-- `select when repeat 2 (d t a re#(.*)#) sum(n)` and three events.
aggregate_event-Window_example :
    let final =
      run counts "sum"
        ("n" ∷ [])
        fresh
        (event_in "start" "a" ∷ (event_in "s1" "bb" ∷ event_in "end" "ccc" ∷ [])) in
    (gathered final "n" ≡ some "bb" ∷ some "ccc" ∷ [])
    × (lookup "n" final.setting ≡ some (total (some "bb" ∷ some "ccc" ∷ [])))
aggregate_event-Window_example =
    aggregate_event-Window counts "sum" ("n" ∷ []) "n" n_listed total total_known fresh
      (event_in "start" "a") (event_in "s1" "bb" ∷ []) (event_in "end" "ccc" ∷ []) start_started
      (middle_out, tt) (end_in, tt)

total_of_two : total (some "bb" ∷ some "0x1F" ∷ none ∷ []) ≡ number (some 6)
unfolding sum_from to_float to_number_or_null is_hex
total_of_two = refl

-- A name that stands twice keeps its last value, and an unknown aggregator sets nothing.
twice_named :
    aggregate_event counts fresh "count" (("n", some "a") ∷ ("n", some "b") ∷ [])
    ≡ record fresh { aggregates = ("n", some "b" ∷ []) ∷ [] }
unfolding aggregate_event gather_pairs gather_pair set_aggregate aggregators assign next_values
    gathered lookup insert has
twice_named = refl
