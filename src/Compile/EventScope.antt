-- ===== src/Compile/EventScope.antt =====
-- compile.js, `eventScope`: the events that the rules select, by rule, domain and type, each with
-- the attributes that are read after it. Names of Object.prototype are outside the model.
pub mod Order
use pico_engine.Base.{
  String, ◌==◌, if◌then◌else◌, List, [], ◌∷◌, ◌++◌, Option, none, some, lookup, insert, add_key,
}

abbrev pub ByType : Type 0
ByType = List (String × List String)

abbrev pub ByDomain : Type 0
ByDomain = List (String × ByType)

abbrev pub EventMap : Type 0
EventMap = List (String × ByDomain)

-- `map[rname] || {}`, and likewise one level below.
unfoldable pub or_empty {ℓ} : {A : Type ℓ} → Option (List A) → List A
or_empty none = []
or_empty (some xs) = xs

unfoldable pub types_in : String → String → EventMap → ByType
unfolding or_empty
types_in r d m = or_empty (lookup d (or_empty (lookup r m)))

-- `add(domain, name)`, in the rule `r`.
unfoldable pub add : String → String → String → EventMap → EventMap
unfolding types_in or_empty
add r d n m = elim (lookup n (types_in r d m)) [
  | some attrs ↦ m
  | none ↦ insert r (insert d (insert n [] (types_in r d m)) (or_empty (lookup r m))) m
]

unfoldable pub read_in_types : String → ByType → ByType
read_in_types key [] = []
read_in_types key ((n, attrs) ∷ ts) = (n, add_key key attrs) ∷ read_in_types key ts

unfoldable pub read_in_domains : String → ByDomain → ByDomain
unfolding read_in_types
read_in_domains key [] = []
read_in_domains key ((d, ts) ∷ ds) = (d, read_in_types key ts) ∷ read_in_domains key ds

-- `addAttr(key)`, in the rule `r`: under a rule without an event nothing is set.
unfoldable pub add_attr : String → String → EventMap → EventMap
unfolding read_in_domains
add_attr r key m = elim (lookup r m) [ none ↦ m | some ds ↦ insert r (read_in_domains key ds) m ]

-- What compiling a rule calls, with the rule's name.
pub data Call : Type 0 where
  selects : String → String → String → Call
  reads : String → String → Call

unfoldable pub record_call : Call → EventMap → EventMap
unfolding add add_attr
record_call (selects r d n) m = add r d n m
record_call (reads r key) m = add_attr r key m

unfoldable pub record_calls : List Call → EventMap → EventMap
unfolding record_call
record_calls [] m = m
record_calls (c ∷ cs) m = record_calls cs (record_call c m)

unfoldable pub types_json : String → ByType → List (String × String × List String)
types_json d [] = []
types_json d ((n, attrs) ∷ ts) = (d, n, attrs) ∷ types_json d ts

unfoldable pub domains_json : ByDomain → List (String × String × List String)
unfolding types_json
domains_json [] = []
domains_json ((d, ts) ∷ ds) = types_json d ts ++ domains_json ds

-- `getTestingJSON()`
unfoldable pub get_testing_json : EventMap → List (String × String × List String)
unfolding domains_json
get_testing_json [] = []
get_testing_json ((r, ds) ∷ m) = domains_json ds ++ get_testing_json m
