-- ===== src/Base/Named.antt =====
-- JavaScript objects that keep each value under its own name.
use Prim.Native.String.{String}
use mathlib.Core.Path.{◌≡◌, refl}
use mathlib.Core.Logic.{inl, inr}
use mathlib.Core.List.{List, [], ◌∷◌, map}
use text.Mathlib.Text.{◌==◌}
use text.Mathlib.TextEquality.{eq_iff}
use pico_engine.Base.Tests.{Bool-cases}
use pico_engine.Base.Objects.{insert, keys, values}

module _ {V : Type 0} (name : V → String) where
  abbrev pub IsNamed : List (String × V) → Type 0
  IsNamed [] = Unit
  IsNamed ((k, v) ∷ m) = (k ≡ name v) × IsNamed m

  pub insert-IsNamed : (v : V) (m : List (String × V)) → IsNamed m → IsNamed (insert (name v) v m)
  unfolding insert
  insert-IsNamed v [] h = (refl, tt)
  insert-IsNamed v ((j, w) ∷ m) (e, h) = elim (Bool-cases (j == name v)) [
    | inl same ↦ rw same ((eq_iff j (name v)).0 same, h)
    | inr other ↦ rw other (e, insert-IsNamed v m h)
  ]

  pub names-values : (m : List (String × V)) → IsNamed m → map name (values m) ≡ keys m
  names-values [] h = refl
  names-values ((k, v) ∷ m) (e, h) = cc (names-values m h)
