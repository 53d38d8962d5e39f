-- ===== src/Schema/Index/Filing.antt =====
-- What the entry index holds under a key: the active rules that select it.
use pico_engine.Base.{
  String, ◌==◌, ◌≡◌, ◌⊎◌, inl, inr, refl, ap, subst, true, if◌then◌else◌, List, [], ◌∷◌, ◌++◌,
  Option, none, some, In, In-append, In-append_left, In-append_right, lookup-insert, eq_iff,
  Bool-cases, arith,
}
use pico_engine.Ast.{Rule}
use pico_engine.Derive.Entries.{Entry, entries_from_select, entry_key}
use pico_engine.Schema.Index.{
  Peer, EntryIndex, peer_of, peers_at, push_peer, index_entries, index_rules,
}

-- One of the entries has the key.
pub record HasKey (k : String) (es : List Entry) : Type 0 where
  pub entry : Entry
  pub listed : In entry es
  pub key : entry_key entry ≡ some k

-- The rule is active and its select has an entry with the key.
pub record Selects (k : String) (r : Rule) : Type 0 where
  pub active : r.active ≡ true
  pub has_key : HasKey k (entries_from_select r.select)

pub HasKey-cons : {k : String} {es : List Entry} (e : Entry) → HasKey k es → HasKey k (e ∷ es)
HasKey-cons e h = record { entry = h.entry; listed = inr h.listed; key = h.key }

module _ (k : String) where
  peers_at-push :
      (j : String) (p : Peer) (m : EntryIndex)
      → peers_at k (push_peer (some j) p m)
        ≡ (if j == k then peers_at k m ++ (p ∷ []) else peers_at k m)
  unfolding push_peer
  peers_at-push j p m = ground (arith, lookup-insert j k (peers_at j m ++ (p ∷ [])) m, eq_iff j k)

  -- What is filed under the key after the entries of one rule, and after all rules.
  filed_entry :
      (q p : Peer) (o : Option String) (m : EntryIndex)
      → In q (peers_at k (push_peer o p m))
      → In q (peers_at k m) ⊎ (q ≡ p) × (o ≡ some k)
  filed_entry q p none m i = inl (unfold push_peer in i)
  filed_entry q p (some j) m i = elim (Bool-cases (j == k)) [
    | inl e ↦ elim (In-append q (peers_at k m) (p ∷ []) (rw (peers_at-push j p m, e) at i)) [
      | inl old ↦ inl old
      | inr (inl new) ↦ inr (new, ap some ((eq_iff j k).0 e))
      | inr (inr no_more) ↦ absurd no_more
    ]
    | inr n ↦ inl (rw (peers_at-push j p m, n) at i)
  ]

  entry_kept :
      (q p : Peer) (o : Option String) (m : EntryIndex)
      → In q (peers_at k m)
      → In q (peers_at k (push_peer o p m))
  entry_kept q p none m i = unfold push_peer in i
  entry_kept q p (some j) m i = rw (peers_at-push j p m) (elim (Bool-cases (j == k)) [
    | inl e ↦ rw e (In-append_left q (peers_at k m) (p ∷ []) i)
    | inr n ↦ rw n i
  ])

  entry_filed :
      (p : Peer) (o : Option String) (m : EntryIndex)
      → o ≡ some k
      → In p (peers_at k (push_peer o p m))
  entry_filed p none m e = cc
  entry_filed p (some j) m e =
      let same : (j == k) ≡ true = (eq_iff j k).1 (cc) in
      rw (peers_at-push j p m, same) (In-append_right p (peers_at k m) (p ∷ []) (inl refl))

  filed_entries :
      (q p : Peer) (es : List Entry) (m : EntryIndex)
      → In q (peers_at k (index_entries es p m))
      → In q (peers_at k m) ⊎ (q ≡ p) × HasKey k es
  unfolding index_entries
  filed_entries q p [] m i = inl i
  filed_entries q p (e ∷ es) m i = elim (filed_entries q p es (push_peer (entry_key e) p m) i) [
    | inl j ↦ elim (filed_entry q p (entry_key e) m j) [
      | inl old ↦ inl old
      | inr (same, at) ↦ inr (same, record { entry = e; listed = inl refl; key = at })
    ]
    | inr (same, h) ↦ inr (same, HasKey-cons e h)
  ]

  entries_kept :
      (q p : Peer) (es : List Entry) (m : EntryIndex)
      → In q (peers_at k m)
      → In q (peers_at k (index_entries es p m))
  unfolding index_entries
  entries_kept q p [] m i = i
  entries_kept q p (e ∷ es) m i =
      entries_kept q p es (push_peer (entry_key e) p m) (entry_kept q p (entry_key e) m i)

  entries_filed :
      (p : Peer) (es : List Entry) (m : EntryIndex) (e : Entry)
      → In e es
      → entry_key e ≡ some k
      → In p (peers_at k (index_entries es p m))
  unfolding index_entries
  entries_filed p [] m e i at = absurd i
  entries_filed p (x ∷ es) m e (inl same) at =
      entries_kept p p es (push_peer (entry_key x) p m)
        (entry_filed p (entry_key x) m (subst (λ y. entry_key y ≡ some k) same at))
  entries_filed p (x ∷ es) m e (inr i) at = entries_filed p es (push_peer (entry_key x) p m) e i at

  -- One of the rules selects the key, and `q` is what the index says of it.
  abbrev pub FiledFor : Peer → List Rule → Type 0
  FiledFor q rs = (r : Rule) × In r rs × Selects k r × (q ≡ peer_of r)

  FiledFor-cons : (q : Peer) (r : Rule) (rs : List Rule) → FiledFor q rs → FiledFor q (r ∷ rs)
  FiledFor-cons q r rs (x, i, s, e) = (x, inr i, s, e)

  pub filed_rules :
      (q : Peer) (rs : List Rule) (m : EntryIndex)
      → In q (peers_at k (index_rules rs m))
      → In q (peers_at k m) ⊎ FiledFor q rs
  unfolding index_rules
  filed_rules q [] m i = inl i
  filed_rules q (r ∷ rs) m i = elim (filed_rules q rs _ i) [
    | inr f ↦ inr (FiledFor-cons q r rs f)
    | inl j ↦ elim (Bool-cases r.active) [
      | inl on ↦ elim (filed_entries q (peer_of r) (entries_from_select r.select) m (rw on at j)) [
        | inl old ↦ inl old
        | inr (same, h) ↦ inr (r, inl refl, (record { active = on; has_key = h }), same)
      ]
      | inr off ↦ inl (rw off at j)
    ]
  ]

  rules_kept :
      (q : Peer) (rs : List Rule) (m : EntryIndex)
      → In q (peers_at k m)
      → In q (peers_at k (index_rules rs m))
  unfolding index_rules
  rules_kept q [] m i = i
  rules_kept q (r ∷ rs) m i = rules_kept q rs _ (elim (Bool-cases r.active) [
    | inl on ↦ rw on (entries_kept q (peer_of r) (entries_from_select r.select) m i)
    | inr off ↦ rw off i
  ])

  pub rules_filed :
      (r : Rule) (rs : List Rule) (m : EntryIndex)
      → In r rs
      → Selects k r
      → In (peer_of r) (peers_at k (index_rules rs m))
  unfolding index_rules
  rules_filed r [] m i s = absurd i
  rules_filed r (x ∷ rs) m (inl same) s = rules_kept (peer_of r) rs _ (
      subst
        (λ y. In (peer_of r) (
          peers_at k
            (if y.active then index_entries (entries_from_select y.select) (peer_of y) m else m)))
        same
        (rw s.active (
          entries_filed (peer_of r) (entries_from_select r.select) m s.has_key.entry
            s.has_key.listed s.has_key.key)))
  rules_filed r (x ∷ rs) m (inr i) s = rules_filed r rs _ i s
