-- ===== src/Lint/Types/Differing.antt =====
-- `types` of one attribute has two keys or more exactly when two rules give it different types.
use pico_engine.Base.{
  String, ◌==◌, ◌≡◌, ◌↔◌, inl, inr, refl, true, false, List, [], ◌∷◌, some, lookup, keys, values,
  has, has-nil, has-keys, IsNodup, add_keys, has-add_keys, add_keys-IsNodup, eq_iff, arith,
  Bool-cases,
}
use pico_engine.Lint.Types.{two_or_more, differ}

-- Two rules with different types, in the types of one attribute.
abbrev pub Two : List (String × String) → Type 0
Two m =
    (r : String) × (s : String) × (t : String) × (u : String) × (lookup r m ≡ some t)
    × (lookup s m ≡ some u)
    × ((t == u) ≡ false)

key_of_value :
    (t : String) (m : List (String × String))
    → IsNodup (keys m)
    → has t (values m) ≡ true
    → (r : String) × (lookup r m ≡ some t)
unfolding lookup has
key_of_value t [] h g = cc
key_of_value t ((k, v) ∷ m) (new, h) g = elim (Bool-cases (v == t)) [
  | inl e ↦ (k, ground (arith, eq_iff k k, eq_iff v t))
  | inr e ↦
      let (r, found) = key_of_value t m h (ground arith) in
      (r, ground (arith, eq_iff k r, has-keys k m))
]

value_of_key :
    (r t : String) (m : List (String × String)) → lookup r m ≡ some t → has t (values m) ≡ true
unfolding lookup has
value_of_key r t [] h = cc
value_of_key r t ((k, v) ∷ m) h = ground (arith, eq_iff k r, eq_iff v t, value_of_key r t m)

two_values :
    (xs : List String)
    → IsNodup xs
    → two_or_more xs ≡ true
    → (t : String) × (u : String) × (has t xs ≡ true) × (has u xs ≡ true) × ((t == u) ≡ false)
unfolding two_or_more has
two_values [] h g = cc
two_values (x ∷ []) h g = cc
two_values (x ∷ (y ∷ zs)) (new, h) g =
    (y, x, ground (arith, eq_iff y y), ground (arith, eq_iff x x), ground arith)

values_two :
    (t u : String) (xs : List String)
    → has t xs ≡ true
    → has u xs ≡ true
    → (t == u) ≡ false
    → two_or_more xs ≡ true
unfolding two_or_more has
values_two t u [] h g d = cc
values_two t u (x ∷ []) h g d = ground (arith, eq_iff x t, eq_iff x u, eq_iff t u)
values_two t u (x ∷ (y ∷ zs)) h g d = refl

pub differ-Two : (m : List (String × String)) → IsNodup (keys m) → (differ m ≡ true) ↔ Two m
unfolding differ
differ-Two m nodup =
    let same = λ (v : String). has-add_keys v (values m) [] in
    (
      λ h.
          let (t, u, ht, hu, d) =
            two_values (add_keys (values m) []) (add_keys-IsNodup (values m) [] tt) h in
          let (r, p) = key_of_value t m nodup (ground (arith, same t, has-nil t)) in
          let (s, q) = key_of_value u m nodup (ground (arith, same u, has-nil u)) in
          (r, s, t, u, p, q, d),
      λ (r, s, t, u, p, q, d).
          values_two t u (add_keys (values m) []) (ground (arith, same t, value_of_key r t m p))
            (ground (arith, same u, value_of_key s u m q)) d,
    )
