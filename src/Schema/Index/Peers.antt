-- ===== src/Schema/Index/Peers.antt =====
-- `alsoSelectedBy` names the other active rules that share an entry.
use pico_engine.Base.{
  String, ◌==◌, ◌≡◌, ◌↔◌, ◌⊎◌, inl, inr, refl, sym, ◌∙◌, lookup, ap, subst, true, false, List, [],
  ◌∷◌, Option, none, some, map, In, has, keys, has-keys-insert, eq_iff, Bool-cases, IsNamed,
  insert-IsNamed, names-values, arith,
}
use pico_engine.Ast.{Rule}
use pico_engine.Derive.Entries.{Entry, entry_key}
use pico_engine.Schema.Index.{
  Peer, EntryIndex, peer_of, peers_at, entry_index, index_rules, ByRule, add_peers, keyed_peers,
  collect_peers, also_selected_by,
}
use pico_engine.Schema.Index.Filing.{HasKey, HasKey-cons, Selects, filed_rules, rules_filed}

abbrev pub rule_of : Peer → String
rule_of p = p.rule

-- A peer with this name, other than the rule's own.
abbrev Named : String → String → List Peer → Type 0
Named n rule ps = (p : Peer) × In p ps × (p.rule ≡ n) × ((n == rule) ≡ false)

module _ (n rule : String) where
  added_peers :
      (ps : List Peer) (m : ByRule)
      → has n (keys (add_peers rule ps m)) ≡ true
      → (has n (keys m) ≡ true) ⊎ Named n rule ps
  unfolding add_peers
  added_peers [] m h = inl h
  added_peers (p ∷ ps) m h = elim (added_peers ps _ h) [
    | inr (q, i, e, other) ↦ inr (q, inr i, e, other)
    | inl old ↦ elim (Bool-cases (p.rule == rule)) [
      | inl own ↦ inl (rw own at old)
      | inr other ↦ elim (Bool-cases (p.rule == n)) [
        | inl e ↦
            let same : p.rule ≡ n = (eq_iff p.rule n).0 e in
            inr (p, inl refl, same, rw same at other)
        | inr e ↦ inl (ground (arith, has-keys-insert p.rule n p m))
      ]
    ]
  ]

  peers_kept :
      (ps : List Peer) (m : ByRule)
      → has n (keys m) ≡ true
      → has n (keys (add_peers rule ps m)) ≡ true
  unfolding add_peers
  peers_kept [] m h = h
  peers_kept (p ∷ ps) m h = peers_kept ps _ (elim (Bool-cases (p.rule == rule)) [
    | inl own ↦ rw own h
    | inr other ↦ rw other (ground (arith, has-keys-insert p.rule n p m))
  ])

  peer_added :
      (ps : List Peer) (m : ByRule) → Named n rule ps → has n (keys (add_peers rule ps m)) ≡ true
  unfolding add_peers
  peer_added [] m (q, i, e, other) = absurd i
  peer_added (p ∷ ps) m (q, inr i, e, other) = peer_added ps _ (q, i, e, other)
  peer_added (p ∷ ps) m (q, inl i, e, other) =
      let same : p.rule ≡ n = sym (ap rule_of i) ∙ e in
      peers_kept ps _ (rw (same, other) (ground (arith, has-keys-insert n n p m, eq_iff n n)))

  -- The peers of an entry stand under its key.
  of_keyed :
      (index : EntryIndex) (e : Entry) (es : List Entry) (o : Option String)
      → entry_key e ≡ o
      → Named n rule (keyed_peers index o)
      → (k : String) × HasKey k (e ∷ es) × Named n rule (peers_at k index)
  unfolding keyed_peers
  of_keyed index e es none at (q, i, same, other) = absurd i
  of_keyed index e es (some k) at named =
      (k, (record { entry = e; listed = inl refl; key = at }), named)

  collected :
      (index : EntryIndex) (es : List Entry) (m : ByRule)
      → has n (keys (collect_peers index rule es m)) ≡ true
      → (has n (keys m) ≡ true) ⊎ ((k : String) × HasKey k es × Named n rule (peers_at k index))
  unfolding collect_peers
  collected index [] m h = inl h
  collected index (e ∷ es) m h = elim (collected index es _ h) [
    | inr (k, has_key, named) ↦ inr (k, HasKey-cons e has_key, named)
    | inl old ↦ elim (added_peers (keyed_peers index (entry_key e)) m old) [
      | inl older ↦ inl older
      | inr named ↦ inr (of_keyed index e es (entry_key e) refl named)
    ]
  ]

  collected_kept :
      (index : EntryIndex) (es : List Entry) (m : ByRule)
      → has n (keys m) ≡ true
      → has n (keys (collect_peers index rule es m)) ≡ true
  unfolding collect_peers
  collected_kept index [] m h = h
  collected_kept index (e ∷ es) m h =
      collected_kept index es _ (peers_kept (keyed_peers index (entry_key e)) m h)

  collects :
      (index : EntryIndex) (k : String) (es : List Entry) (m : ByRule) (e : Entry)
      → In e es
      → entry_key e ≡ some k
      → Named n rule (peers_at k index)
      → has n (keys (collect_peers index rule es m)) ≡ true
  unfolding collect_peers keyed_peers
  collects index k [] m e i at named = absurd i
  collects index k (x ∷ es) m e (inl same) at named =
      let here : entry_key x ≡ some k = subst (λ y. entry_key y ≡ some k) same at in
      collected_kept index es _ (
        peer_added (keyed_peers index (entry_key x)) m
          (subst (λ o. Named n rule (keyed_peers index o)) (sym here) named))
  collects index k (x ∷ es) m e (inr i) at named = collects index k es _ e i at named

add_peers-IsNamed :
    (rule : String) (ps : List Peer) (m : ByRule)
    → IsNamed rule_of m
    → IsNamed rule_of (add_peers rule ps m)
unfolding add_peers
add_peers-IsNamed rule [] m h = h
add_peers-IsNamed rule (p ∷ ps) m h =
    add_peers-IsNamed rule ps _ (elim (Bool-cases (p.rule == rule)) [
      | inl own ↦ rw own h
      | inr other ↦ rw other (insert-IsNamed rule_of p m h)
    ])

collect_peers-IsNamed :
    (index : EntryIndex) (rule : String) (es : List Entry) (m : ByRule)
    → IsNamed rule_of m
    → IsNamed rule_of (collect_peers index rule es m)
unfolding collect_peers
collect_peers-IsNamed index rule [] m h = h
collect_peers-IsNamed index rule (e ∷ es) m h =
    collect_peers-IsNamed index rule es _
      (add_peers-IsNamed rule (keyed_peers index (entry_key e)) m h)

-- A key that both the entries and an active rule named `n` have.
pub record SharesKey (rules : List Rule) (entries : List Entry) (n : String) : Type 0 where
  pub key : String
  pub own : HasKey key entries
  pub other : Rule
  pub listed : In other rules
  pub selects : Selects key other
  pub name : other.name ≡ n

absurd_nil {ℓ} : {A : Type ℓ} (n : String) → has n [] ≡ true → A
unfolding has
absurd_nil n h = cc

nothing_filed : (k : String) (p : Peer) → In p (peers_at k []) → ⊥
unfolding peers_at lookup
nothing_filed k p i = i

-- `alsoSelectedBy` of a rule names `n` exactly when `n` is another name than the rule's and an
-- active rule of that name has an entry with the key (`entryKey`) of one of the rule's entries.
pub also_selected_by-SharesKey :
    (rules : List Rule) (rule : String) (entries : List Entry) (n : String)
    → (has n (map rule_of (also_selected_by (entry_index rules) rule entries)) ≡ true)
      ↔ (((n == rule) ≡ false) × SharesKey rules entries n)
unfolding also_selected_by entry_index
also_selected_by-SharesKey rules rule entries n =
    let index = index_rules rules [] in
    let at_keys =
      names-values rule_of (collect_peers index rule entries [])
        (collect_peers-IsNamed index rule entries [] tt) in
    (
      λ h. elim (collected n rule index entries [] (rw at_keys at h)) [
        | inl none_yet ↦ absurd_nil n none_yet
        | inr (k, own, (p, i, e, other)) ↦ elim (filed_rules k p rules [] i) [
          | inl j ↦ absurd (nothing_filed k p j)
          | inr (r, listed, selects, same) ↦ (
            other,
            record {
              key = k;
              own = own;
              other = r;
              listed = listed;
              selects = selects;
              name = sym (ap rule_of same) ∙ e;
            },
          )
        ]
      ],
      λ (other, s). rw at_keys (
          collects n rule index s.key entries [] s.own.entry s.own.listed s.own.key (
            peer_of s.other,
            rules_filed s.key s.other rules [] s.listed s.selects,
            s.name,
            other,
          )),
    )
