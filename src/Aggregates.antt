-- ===== src/Aggregates.antt =====
-- krl-stdlib/src/aggregateEvent.ts: the values that an event group gathers from its events.
-- A value is a captured text, or none where nothing was captured; floating point and lodash's
-- functions on numbers are an argument.
pub mod Pairs
pub mod Window
use Prim.Native.Char.{Char}
use pico_engine.Base.{
  ℕ, String, Bool, true, false, not, ◌&&◌, ◌||◌, ◌==◌, if◌then◌else◌, has, List, [], ◌∷◌, ◌++◌,
  Option, none, some, map, length, lookup, insert,
}
use pico_engine.Generate.{is_code, below}
use pico_engine.Lexer.Scan.{is_digit}

abbrev pub Value : Type 0
Value = Option String

pub record Floats (Number : Type 0) : Type 0 where
  pub zero : Number
  pub parse_hex : String → Number
  pub to_number : String → Number
  pub is_finite : Number → Bool
  pub is_truthy : Number → Bool
  pub plus : Number → Number → Number
  pub divide : Number → Number → Number
  pub of_size : ℕ → Number
  pub max_of : List Number → Option Number
  pub min_of : List Number → Option Number

-- `/^0x[A-F0-9]+$/i`
abbrev is_hex_digit : Char → Bool
is_hex_digit c =
    is_digit c || ((below 71 c && not (below 65 c)) || (below 103 c && not (below 97 c)))

abbrev all_hex : String → Bool
all_hex String.[] = true
all_hex (String.◌∷◌ c s) = is_hex_digit c && all_hex s

abbrev digits_behind : String → Bool
digits_behind String.[] = false
digits_behind (String.◌∷◌ x s) = (is_code 120 x || is_code 88 x) && (not (s == "") && all_hex s)

unfoldable pub is_hex : String → Bool
is_hex String.[] = false
is_hex (String.◌∷◌ c s) = is_code 48 c && digits_behind s

-- What an aggregator makes of the values: a number, undefined for the extremum of none, or the
-- values themselves.
pub data Aggregate (Number : Type 0) : Type 0 where
  number : Option Number → Aggregate Number
  pushed : List Value → Aggregate Number

module _ {Number : Type 0} (floats : Floats Number) where
  -- On texts and undefined, which counts as null.
  unfoldable pub to_number_or_null : Value → Option Number
  unfolding is_hex
  to_number_or_null none = some floats.zero
  to_number_or_null (some s) =
      if is_hex s
      then some (floats.parse_hex s)
      else if floats.is_finite (floats.to_number s)
      then some (floats.to_number s)
      else none

  abbrev or_zero : Option Number → Number
  or_zero none = floats.zero
  or_zero (some n) = if floats.is_truthy n then n else floats.zero

  unfoldable pub to_float : Value → Number
  unfolding to_number_or_null
  to_float v = or_zero (to_number_or_null v)

  unfoldable pub sum_from : Number → List Number → Number
  sum_from sum [] = sum
  sum_from sum (n ∷ ns) = sum_from (floats.plus sum n) ns

  -- The table `aggregators`; the grammar lets no other name through.
  unfoldable pub aggregators : String → Option (List Value → Aggregate Number)
  unfolding sum_from to_float
  aggregators op =
      if op == "max"
      then some (λ values. number (floats.max_of (map to_float values)))
      else if op == "min"
      then some (λ values. number (floats.min_of (map to_float values)))
      else if op == "sum"
      then some (λ values. number (some (sum_from floats.zero (map to_float values))))
      else if op == "avg"
      then some (λ values. number (
          some (
            floats.divide (sum_from floats.zero (map to_float values))
              (floats.of_size (length values)))))
      else if op == "push"
      then some (λ values. pushed values)
      else none

-- The state of an event expression; a missing part is an empty one.
pub record State (Number : Type 0) : Type 0 where
  pub states : List String
  pub aggregates : List (String × List Value)
  pub setting : List (String × Aggregate Number)

abbrev or_empty : Option (List Value) → List Value
or_empty none = []
or_empty (some vals) = vals

abbrev pub tail : List Value → List Value
tail [] = []
tail (v ∷ vs) = vs

-- `newAggregates` and `newSetting`
pub record Gathered (Number : Type 0) : Type 0 where
  pub aggregates : List (String × List Value)
  pub setting : List (String × Aggregate Number)

-- `Object.assign(target, source)`
unfoldable pub assign : {V : Type 0} → List (String × V) → List (String × V) → List (String × V)
assign target [] = target
assign target ((k, v) ∷ source) = assign (insert k v target) source

module _ {Number : Type 0} where
  -- `state.aggregates[name]`, where it is an array.
  unfoldable pub gathered : State Number → String → List Value
  gathered state name = or_empty (lookup name state.aggregates)

  unfoldable pub next_values : State Number → String → Value → List Value
  unfolding gathered
  next_values state name value =
      if has "start" state.states
      then value ∷ []
      else if has "end" state.states
      then tail (gathered state name ++ (value ∷ []))
      else gathered state name ++ (value ∷ [])

  -- `if (aggregators[op])`
  unfoldable pub set_aggregate :
      Option (List Value → Aggregate Number)
      → String
      → List Value
      → List (String × Aggregate Number)
      → List (String × Aggregate Number)
  set_aggregate none name vals setting = setting
  set_aggregate (some aggregator) name vals setting = insert name (aggregator vals) setting

  module _ (floats : Floats Number) (state : State Number) (op : String) where
    unfoldable pub gather_pair : String → Value → Gathered Number → Gathered Number
    unfolding next_values set_aggregate
    gather_pair name value g = record {
      aggregates = insert name (next_values state name value) g.aggregates;
      setting = set_aggregate (aggregators floats op) name (next_values state name value) g.setting;
    }

    unfoldable pub gather_pairs : List (String × Value) → Gathered Number → Gathered Number
    unfolding gather_pair
    gather_pairs [] g = g
    gather_pairs ((name, value) ∷ pairs) g = gather_pairs pairs (gather_pair name value g)

    unfoldable pub aggregate_event : List (String × Value) → State Number
    unfolding gather_pairs assign
    aggregate_event pairs =
        let g = gather_pairs pairs (record { aggregates = []; setting = [] }) in
        record state { aggregates = g.aggregates; setting = assign state.setting g.setting }
