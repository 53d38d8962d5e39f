-- ===== src/Base/Objects.antt =====
-- JavaScript objects used as dictionaries: keys in the order of their insertion, an assignment
-- to a known key leaving its place. Integer-like keys, which a JavaScript engine lists first,
-- and the key `__proto__` are outside the model.
use Prim.Native.String.{String}
use mathlib.Core.Path.{◌≡◌, refl}
use mathlib.Core.Logic.{inl, inr}
use mathlib.Core.Bool.{Bool, false, ◌||◌}
use mathlib.Core.Option.{Option, none, some}
use mathlib.Core.List.{List, [], ◌∷◌, ◌++◌}
use native.Mathlib.Omega.{arith}
use text.Mathlib.Text.{◌==◌}
use text.Mathlib.TextEquality.{eq_iff}
use pico_engine.Base.Tests.{if◌then◌else◌, Bool-cases, is_some}
use pico_engine.Base.Lists.{has, has-append, IsNodup}

-- The names that every plain object inherits: `o[k]` is a function for these, so it is truthy.
abbrev pub proto_names : List String
proto_names =
    "constructor" ∷ "hasOwnProperty" ∷ "isPrototypeOf" ∷ "propertyIsEnumerable" ∷ "toLocaleString"
    ∷ "toString" ∷ "valueOf" ∷ "__defineGetter__" ∷ "__defineSetter__" ∷ "__lookupGetter__"
    ∷ "__lookupSetter__" ∷ []

unfoldable pub is_proto : String → Bool
unfolding has
is_proto k = has k proto_names

-- `seen[k]` on an object whose own values are all truthy.
unfoldable pub marked : String → List String → Bool
marked k seen = has k seen || is_proto k

-- `names[k] = true`, the object read as the list of its own keys.
unfoldable pub add_key : String → List String → List String
add_key k keys = if has k keys then keys else keys ++ (k ∷ [])

-- One such assignment after another.
unfoldable pub add_keys : List String → List String → List String
add_keys [] keys = keys
add_keys (k ∷ ks) keys = add_keys ks (add_key k keys)

module _ {ℓ} {V : Type ℓ} where
  -- `o[k]` of an own key.
  unfoldable pub lookup : String → List (String × V) → Option V
  lookup k [] = none
  lookup k ((own, x) ∷ obj) = if own == k then some x else lookup k obj

  -- `o[k] = x`
  unfoldable pub insert : String → V → List (String × V) → List (String × V)
  insert k x [] = (k, x) ∷ []
  insert k x ((own, y) ∷ obj) =
      let behind = insert k x obj in if own == k then (own, x) ∷ obj else (own, y) ∷ behind

  abbrev pub keys : List (String × V) → List String
  keys [] = []
  keys ((j, v) ∷ m) = j ∷ keys m

  abbrev pub values : List (String × V) → List V
  values [] = []
  values ((j, v) ∷ m) = v ∷ values m

  pub lookup-insert :
      (wrote asked : String) (x : V) (obj : List (String × V))
      → lookup asked (insert wrote x obj) ≡ (if wrote == asked then some x else lookup asked obj)
  unfolding lookup insert
  lookup-insert wrote asked x [] = refl
  lookup-insert wrote asked x ((own, y) ∷ obj) = ground (
    arith,
    lookup-insert wrote asked x obj,
    eq_iff wrote asked,
    eq_iff own wrote,
    eq_iff own asked,
  )

  pub lookup-nil : (k : String) → lookup k [] ≡ none
  unfolding lookup
  lookup-nil k = refl

  pub has-keys : (k : String) (m : List (String × V)) → has k (keys m) ≡ is_some (lookup k m)
  unfolding has lookup
  has-keys k [] = refl
  has-keys k ((j, v) ∷ m) = ground (arith, has-keys k m)

  pub has-keys-insert :
      (k j : String) (v : V) (m : List (String × V))
      → has j (keys (insert k v m)) ≡ (k == j || has j (keys m))
  unfolding insert has
  has-keys-insert k j v [] = refl
  has-keys-insert k j v ((i, w) ∷ m) = ground (arith, eq_iff i k, has-keys-insert k j v m)

  pub keys-insert-IsNodup :
      (k : String) (v : V) (m : List (String × V))
      → IsNodup (keys m)
      → IsNodup (keys (insert k v m))
  unfolding insert has
  keys-insert-IsNodup k v [] h = (refl, tt)
  keys-insert-IsNodup k v ((i, w) ∷ m) h =
      ground (arith, has-keys-insert k i v m, eq_iff k i, eq_iff i k, keys-insert-IsNodup k v m h.1)

pub has-add_key : (j k : String) (ks : List String) → has j (add_key k ks) ≡ (k == j || has j ks)
unfolding add_key has
has-add_key j k ks = ground (arith, has-append j ks (k ∷ []), eq_iff k j)

IsNodup-snoc :
    (k : String) (ks : List String) → IsNodup ks → has k ks ≡ false → IsNodup (ks ++ (k ∷ []))
unfolding has
IsNodup-snoc k [] h e = (refl, tt)
IsNodup-snoc k (x ∷ xs) h e =
    ground (arith, has-append x xs (k ∷ []), eq_iff k x, eq_iff x k, IsNodup-snoc k xs)

pub add_key-IsNodup : (k : String) (ks : List String) → IsNodup ks → IsNodup (add_key k ks)
unfolding add_key
add_key-IsNodup k ks h = elim (Bool-cases (has k ks)) [
  | inl e ↦ rw e h
  | inr e ↦ rw e (IsNodup-snoc k ks h e)
]

pub add_keys-IsNodup : (ks ms : List String) → IsNodup ms → IsNodup (add_keys ks ms)
unfolding add_keys
add_keys-IsNodup [] ms h = h
add_keys-IsNodup (k ∷ ks) ms h = add_keys-IsNodup ks (add_key k ms) (add_key-IsNodup k ms h)

pub has-add_keys :
    (j : String) (ks ms : List String) → has j (add_keys ks ms) ≡ (has j ks || has j ms)
unfolding add_keys has
has-add_keys j [] ms = refl
has-add_keys j (k ∷ ks) ms =
    ground (arith, has-add_keys j ks (add_key k ms), has-add_key j k ms, eq_iff k j)
