-- ===== src/Testing/Firsts.antt =====
-- The events of the testing form are the first candidates of each key, and when there is no form.
use pico_engine.Base.{
  String, ◌≡◌, ◌∙◌, refl, sym, ap, inl, inr, true, false, if◌then◌else◌, List, [], ◌∷◌, ◌++◌,
  Option, none, some, truthy, map, has, eq_iff, Bool-cases, arith,
}
use pico_engine.Derive.Entries.{attr_names, Entry}
use pico_engine.Schema.Docs.{Example}
use pico_engine.Schema.Build.{Operation}
use pico_engine.Testing.{
  TestEvent, bare_event, example_event, State, push_event, base_key, example_key, push_examples,
  push_named, push_entry, push_entries, push_operations, test_events,
}

-- An event with the key under which it may stand once.
abbrev pub Candidate : Type 0
Candidate = String × TestEvent

abbrev pub event_of : Candidate → TestEvent
event_of (key, ev) = ev

-- An entry has one candidate, or one for each example of its operation.
abbrev pub of_examples : String → String → List String → List Example → List Candidate
of_examples d n names [] = []
of_examples d n names (ex ∷ exs) =
    (example_key (base_key d n) ex, example_event d n names ex) ∷ of_examples d n names exs

abbrev pub of_entry : Option String → Option String → List String → List Example → List Candidate
of_entry (some d) (some n) names [] = (base_key d n, bare_event d n names) ∷ []
of_entry (some d) (some n) names (ex ∷ exs) = of_examples d n names (ex ∷ exs)
of_entry _ _ names examples = []

abbrev pub of_entries : List Entry → List String → List Example → List Candidate
of_entries [] names examples = []
of_entries (e ∷ es) names examples =
    of_entry (truthy e.domain) (truthy e.name) names examples ++ of_entries es names examples

abbrev pub candidates : List Operation → List Candidate
candidates [] = []
candidates (op ∷ ops) = of_entries op.entry (attr_names op.attrs) op.examples ++ candidates ops

-- The candidates whose key is none of these.
abbrev pub without : List String → List Candidate → List Candidate
without ks [] = []
without ks ((key, ev) ∷ cs) =
    let rest = without ks cs in if has key ks then rest else (key, ev) ∷ rest

-- The first candidate of each key.
abbrev pub firsts : List Candidate → List Candidate
firsts [] = []
firsts ((key, ev) ∷ cs) = (key, ev) ∷ without (key ∷ []) (firsts cs)

without-cons :
    (k : String) (ks : List String) (cs : List Candidate)
    → without (k ∷ ks) cs ≡ without ks (without (k ∷ []) cs)
unfolding has
without-cons k ks [] = refl
without-cons k ks ((key, ev) ∷ cs) = ground (arith, eq_iff k key, without-cons k ks cs)

without_known :
    (k : String) (ks : List String) (cs : List Candidate)
    → has k ks ≡ true
    → without (k ∷ ks) cs ≡ without ks cs
unfolding has
without_known k ks [] h = refl
without_known k ks ((key, ev) ∷ cs) h = ground (arith, eq_iff k key, without_known k ks cs)

without-nil : (cs : List Candidate) → without [] cs ≡ cs
unfolding has
without-nil [] = refl
without-nil (c ∷ cs) = cc (without-nil cs)

-- The loops push the candidates one after another.
abbrev push_all : List Candidate → State → State
push_all [] st = st
push_all ((key, ev) ∷ cs) st = push_all cs (push_event key ev st)

push_all-append :
    (cs ds : List Candidate) (st : State) → push_all (cs ++ ds) st ≡ push_all ds (push_all cs st)
push_all-append [] ds st = refl
push_all-append ((key, ev) ∷ cs) ds st = push_all-append cs ds (push_event key ev st)

push_all-of_examples :
    (d n : String) (names : List String) (exs : List Example) (st : State)
    → push_examples d n names exs st ≡ push_all (of_examples d n names exs) st
unfolding push_examples
push_all-of_examples d n names [] st = refl
push_all-of_examples d n names (ex ∷ exs) st = push_all-of_examples d n names exs _

push_all-of_entry :
    (d n : Option String) (names : List String) (exs : List Example) (st : State)
    → push_entry d n names exs st ≡ push_all (of_entry d n names exs) st
unfolding push_entry push_named
push_all-of_entry (some d) (some n) names [] st = refl
push_all-of_entry (some d) (some n) names (ex ∷ exs) st =
    push_all-of_examples d n names (ex ∷ exs) st
push_all-of_entry (some d) none names exs st = refl
push_all-of_entry none n names exs st = refl

push_all-of_entries :
    (es : List Entry) (names : List String) (exs : List Example) (st : State)
    → push_entries es names exs st ≡ push_all (of_entries es names exs) st
unfolding push_entries
push_all-of_entries [] names exs st = refl
push_all-of_entries (e ∷ es) names exs st =
    let own = of_entry (truthy e.domain) (truthy e.name) names exs in
    ap (push_entries es names exs)
      (push_all-of_entry (truthy e.domain) (truthy e.name) names exs st)
    ∙ push_all-of_entries es names exs (push_all own st)
    ∙ sym (push_all-append own (of_entries es names exs) st)

push_all-candidates :
    (ops : List Operation) (st : State) → push_operations ops st ≡ push_all (candidates ops) st
unfolding push_operations
push_all-candidates [] st = refl
push_all-candidates (op ∷ ops) st =
    let own = of_entries op.entry (attr_names op.attrs) op.examples in
    ap (push_operations ops) (push_all-of_entries op.entry (attr_names op.attrs) op.examples st)
    ∙ push_all-candidates ops (push_all own st)
    ∙ sym (push_all-append own (candidates ops) st)

append_one :
    (xs : List TestEvent) (y : TestEvent) (ys : List TestEvent)
    → (xs ++ (y ∷ [])) ++ ys ≡ xs ++ (y ∷ ys)
append_one [] y ys = refl
append_one (x ∷ xs) y ys = cc (append_one xs y ys)

push_event_seen :
    (key : String) (ev : TestEvent) (seen : List String) (evs : List TestEvent)
    → has key seen ≡ true
    → push_event key ev (seen, evs) ≡ (seen, evs)
unfolding push_event
push_event_seen key ev seen evs h = rw h refl

push_event_new :
    (key : String) (ev : TestEvent) (seen : List String) (evs : List TestEvent)
    → has key seen ≡ false
    → push_event key ev (seen, evs) ≡ (key ∷ seen, evs ++ (ev ∷ []))
unfolding push_event
push_event_new key ev seen evs h = rw h refl

pushed :
    (cs : List Candidate) (seen : List String) (evs : List TestEvent)
    → (push_all cs (seen, evs)).1 ≡ evs ++ map event_of (without seen (firsts cs))
unfolding push_event
pushed [] seen [] = refl
pushed [] seen (e ∷ es) = cc (pushed [] seen es)
pushed ((key, ev) ∷ cs) seen evs = elim (Bool-cases (has key seen)) [
  | inl old ↦ rw old (
      ap (λ st. (push_all cs st).1) (push_event_seen key ev seen evs old)
      ∙ pushed cs seen evs
      ∙ ap (λ z. evs ++ map event_of z)
          (sym (without_known key seen (firsts cs) old) ∙ without-cons key seen (firsts cs)))
  | inr new ↦ rw new (
      ap (λ st. (push_all cs st).1) (push_event_new key ev seen evs new)
      ∙ pushed cs (key ∷ seen) (evs ++ (ev ∷ []))
      ∙ append_one evs ev _
      ∙ ap (λ z. evs ++ (ev ∷ map event_of z)) (without-cons key seen (firsts cs)))
]

-- The events of the testing form are, in order, the first candidate of each key: a candidate
-- for each entry with a domain and a name, or for each example of its operation where it has
-- some, under the key `domain:name`, with the example's name behind it.
pub test_events-firsts :
    (ops : List Operation) → test_events ops ≡ map event_of (firsts (candidates ops))
unfolding test_events
test_events-firsts ops =
    ap (λ st. st.1) (push_all-candidates ops ([], []))
    ∙ pushed (candidates ops) [] []
    ∙ ap (map event_of) (without-nil (firsts (candidates ops)))
