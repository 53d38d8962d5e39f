-- ===== src/Compile/EventScope/Order.antt =====
-- Which attributes the scope records for an event: those read after the event.
use pico_engine.Base.{
  String, ◌==◌, ◌≡◌, ◌↔◌, ◌∙◌, inl, inr, refl, sym, ap, Bool, true, false, ◌||◌, ◌&&◌,
  if◌then◌else◌, List, [], ◌∷◌, Option, none, some, is_some, lookup, lookup-insert, lookup-nil,
  insert, has, has-add_key, add_key, eq_iff, arith, Bool-cases, In,
}
use pico_engine.Compile.EventScope.{
  ByType, ByDomain, EventMap, or_empty, types_in, add, read_in_types, read_in_domains, add_attr,
  Call, selects, reads, record_call, record_calls,
}

-- The attributes recorded for the event `d:n` of rule `r`.
abbrev pub attrs_of : String → String → String → EventMap → Option (List String)
attrs_of r d n m = lookup n (types_in r d m)

-- A read of `key` in rule `r`, after a call that selects `d:n` in it.
pub data ReadAfter (r d n key : String) : List Call → Type 0 where
  here : {cs : List Call} → In (reads r key) cs → ReadAfter r d n key (selects r d n ∷ cs)
  later : {c : Call} {cs : List Call} → ReadAfter r d n key cs → ReadAfter r d n key (c ∷ cs)

abbrev then_read : String → Option (List String) → Option (List String)
then_read key none = none
then_read key (some attrs) = some (add_key key attrs)

lookup-read_in_types :
    (key n : String) (ts : ByType) → lookup n (read_in_types key ts) ≡ then_read key (lookup n ts)
unfolding lookup read_in_types
lookup-read_in_types key n [] = refl
lookup-read_in_types key n ((m, attrs) ∷ ts) = elim (Bool-cases (m == n)) [
  | inl e ↦ rw e refl
  | inr e ↦ rw e (lookup-read_in_types key n ts)
]

lookup-read_in_domains :
    (key d : String) (ds : ByDomain)
    → or_empty (lookup d (read_in_domains key ds)) ≡ read_in_types key (or_empty (lookup d ds))
unfolding lookup read_in_domains read_in_types or_empty
lookup-read_in_domains key d [] = refl
lookup-read_in_domains key d ((e, ts) ∷ ds) = elim (Bool-cases (e == d)) [
  | inl s ↦ rw s refl
  | inr o ↦ rw o (lookup-read_in_domains key d ds)
]

types_in-insert :
    (r s d : String) (ds : ByDomain) (m : EventMap)
    → types_in s d (insert r ds m) ≡ (if r == s then or_empty (lookup d ds) else types_in s d m)
unfolding types_in or_empty
types_in-insert r s d ds m = ground (arith, lookup-insert r s ds m)

types_in-found :
    (r s d : String) (ds : ByDomain) (m : EventMap)
    → r == s ≡ true
    → lookup r m ≡ some ds
    → types_in s d m ≡ or_empty (lookup d ds)
unfolding types_in or_empty
types_in-found r s d ds m same e = ground (arith, eq_iff r s)

read_found :
    (r s d n key : String) (m : EventMap) (o : Option ByDomain)
    → lookup r m ≡ o
    → attrs_of s d n (elim o [ none ↦ m | some ds ↦ insert r (read_in_domains key ds) m ])
      ≡ (if r == s then then_read key (attrs_of s d n m) else attrs_of s d n m)
unfolding types_in or_empty
read_found r s d n key m none e =
    ground (arith, eq_iff r s, lookup-nil {V = ByType} d, lookup-nil {V = List String} n)
read_found r s d n key m (some ds) e = elim (Bool-cases (r == s)) [
  | inl same ↦ rw same (
      ap (lookup n) (types_in-insert r s d (read_in_domains key ds) m)
      ∙ rw same (
          ap (lookup n) (lookup-read_in_domains key d ds)
          ∙ lookup-read_in_types key n (or_empty (lookup d ds))
          ∙ ap (λ ts. then_read key (lookup n ts)) (sym (types_in-found r s d ds m same e))))
  | inr other ↦
      rw other (ap (lookup n) (types_in-insert r s d (read_in_domains key ds) m) ∙ rw other refl)
]

attrs_of-read :
    (r s d n key : String) (m : EventMap)
    → attrs_of s d n (add_attr r key m)
      ≡ (if r == s then then_read key (attrs_of s d n m) else attrs_of s d n m)
unfolding add_attr
attrs_of-read r s d n key m = read_found r s d n key m (lookup r m) refl

add_found :
    (r s d e n k : String) (m : EventMap) (o : Option (List String))
    → lookup n (types_in r d m) ≡ o
    → attrs_of s e k (elim o [
      | some attrs ↦ m
      | none ↦ insert r (insert d (insert n [] (types_in r d m)) (or_empty (lookup r m))) m
    ])
      ≡ (if (r == s && d == e) && n == k
          then some (or_empty (attrs_of s e k m))
          else attrs_of s e k m)
unfolding types_in or_empty
add_found r s d e n k m (some attrs) h = ground (arith, eq_iff r s, eq_iff d e, eq_iff n k)
add_found r s d e n k m none h =
    ap (lookup k)
      (types_in-insert r s e (insert d (insert n [] (types_in r d m)) (or_empty (lookup r m))) m)
    ∙ ground (
      arith,
      eq_iff r s,
      eq_iff d e,
      eq_iff n k,
      lookup-insert d e (insert n [] (types_in r d m)) (or_empty (lookup r m)),
      lookup-insert n k [] (types_in r d m),
    )

attrs_of-add :
    (r s d e n k : String) (m : EventMap)
    → attrs_of s e k (add r d n m) ≡ (
        if (r == s && d == e) && n == k
        then some (or_empty (attrs_of s e k m))
        else attrs_of s e k m)
unfolding add
attrs_of-add r s d e n k m = add_found r s d e n k m (lookup n (types_in r d m)) refl

module _ (r d n key : String) where
  any_read : List Call → Bool
  any_read [] = false
  any_read (selects s e k ∷ cs) = any_read cs
  any_read (reads s k ∷ cs) = (s == r && k == key) || any_read cs

  read_after : List Call → Bool
  read_after [] = false
  read_after (selects s e k ∷ cs) = (((s == r && e == d) && k == n) && any_read cs) || read_after cs
  read_after (reads s k ∷ cs) = read_after cs

  any_read-In : (cs : List Call) → (any_read cs ≡ true) ↔ In (reads r key) cs
  unfolding any_read
  any_read-In [] = (λ h. cc, λ i. absurd i)
  any_read-In (selects s e k ∷ cs) =
      let rest = any_read-In cs in
      (λ h. inr (rest.0 h), λ i. elim i [ inl e ↦ cc | inr j ↦ rest.1 j ])
  any_read-In (reads s k ∷ cs) =
      let rest = any_read-In cs in
      (
        λ h. ground (arith, eq_iff s r, eq_iff k key),
        λ i. elim i [
          | inl e ↦
              let same_rule : r ≡ s = cc in
              let same_key : key ≡ k = cc in ground (arith, eq_iff s r, eq_iff k key)
          | inr j ↦ ground (arith, rest.1 j)
        ],
      )

  read_after-ReadAfter : (cs : List Call) → read_after cs ≡ true → ReadAfter r d n key cs
  unfolding read_after
  read_after-ReadAfter [] h = cc
  read_after-ReadAfter (reads s k ∷ cs) h = later (read_after-ReadAfter cs h)
  read_after-ReadAfter (selects s e k ∷ cs) h =
      elim (Bool-cases (((s == r && e == d) && k == n) && any_read cs)) [
        | inl both ↦
            let rule : s ≡ r = ground (arith, eq_iff s r) in
            let domain : e ≡ d = ground (arith, eq_iff e d) in
            let type : k ≡ n = ground (arith, eq_iff k n) in
            let read : any_read cs ≡ true = ground arith in
            rw (rule, domain, type) (here ((any_read-In cs).0 read))
        | inr other ↦ later (read_after-ReadAfter cs (ground arith))
      ]

  ReadAfter-read_after : {cs : List Call} → ReadAfter r d n key cs → read_after cs ≡ true
  unfolding read_after
  ReadAfter-read_after (here {cs = cs} i) =
      ground (arith, eq_iff r r, eq_iff d d, eq_iff n n, (any_read-In cs).1 i)
  ReadAfter-read_after (later {c = selects s e k} {cs = cs} a) =
      ground (arith, ReadAfter-read_after a)
  ReadAfter-read_after (later {c = reads s k} {cs = cs} a) = ReadAfter-read_after a

  -- What was recorded before, what is read for an event recorded before, and what is read later.
  recorded : List Call → Option (List String) → Bool
  recorded cs o = has key (or_empty o) || ((is_some o && any_read cs) || read_after cs)

  recorded-add :
      (s e k : String) (cs : List Call) (o : Option (List String))
      → recorded cs (if (s == r && e == d) && k == n then some (or_empty o) else o)
        ≡ recorded (selects s e k ∷ cs) o
  unfolding recorded any_read read_after or_empty has
  recorded-add s e k cs none = ground arith
  recorded-add s e k cs (some as') = ground arith

  recorded-read :
      (s k : String) (cs : List Call) (o : Option (List String))
      → recorded cs (if s == r then then_read k o else o) ≡ recorded (reads s k ∷ cs) o
  unfolding recorded any_read read_after or_empty has
  recorded-read s k cs none = ground arith
  recorded-read s k cs (some as') = ground (arith, has-add_key key k as')

  has-record_calls :
      (cs : List Call) (m : EventMap)
      → has key (or_empty (attrs_of r d n (record_calls cs m))) ≡ recorded cs (attrs_of r d n m)
  unfolding record_calls record_call recorded any_read read_after
  has-record_calls [] m = ground arith
  has-record_calls (selects s e k ∷ cs) m =
      has-record_calls cs (add s e k m)
      ∙ ap (recorded cs) (attrs_of-add s r e d k n m)
      ∙ recorded-add s e k cs (attrs_of r d n m)
  has-record_calls (reads s k ∷ cs) m =
      has-record_calls cs (add_attr s k m)
      ∙ ap (recorded cs) (attrs_of-read s r d n k m)
      ∙ recorded-read s k cs (attrs_of r d n m)

nothing_recorded :
    (r d n key : String) (cs : List Call)
    → recorded r d n key cs (attrs_of r d n []) ≡ read_after r d n key cs
unfolding recorded types_in or_empty lookup has
nothing_recorded r d n key cs = refl

-- The scope lists `key` for the event `d:n` of rule `r` exactly when `r` reads it after it selected
-- `d:n`: a read that comes before the selection is not recorded, and one of another rule neither.
pub record_calls-ReadAfter :
    (r d n key : String) (cs : List Call)
    → (has key (or_empty (attrs_of r d n (record_calls cs []))) ≡ true) ↔ ReadAfter r d n key cs
record_calls-ReadAfter r d n key cs =
    let e = has-record_calls r d n key cs [] ∙ nothing_recorded r d n key cs in
    (λ h. read_after-ReadAfter r d n key cs (sym e ∙ h), λ a. e ∙ ReadAfter-read_after r d n key a)
