-- ===== src/Derive/Globals/Termination.antt =====
-- `resolveGlobalFunction` ends: each round of its loop sees a new name of the `global` block.
use pico_engine.Base.{
  ℕ, zero, suc, ◌+◌, ◌≤◌, ◌<◌, String, ◌==◌, ◌≡◌, ◌≢◌, refl, false, ◌||◌, if◌then◌else◌, List, [],
  ◌∷◌, Option, none, some, length, has, marked, lookup, arith, eq_iff, Bool-cases, Option-cases,
  inl, inr,
}
use pico_engine.Ast.{Node, function, identifier, declaration}
use pico_engine.Derive.Globals.{
  Globals, Resolved, no_fuel, follow, follow_right, resolve_loop, resolve_global_function,
}

-- The entries whose name is not in `seen`.
unfoldable pub unseen : List String → Globals → ℕ
unseen seen [] = 0
unseen seen ((k, d) ∷ m) = if has k seen then unseen seen m else suc (unseen seen m)

pub unseen-nil : (m : Globals) → unseen [] m ≡ length m
unfolding unseen has
unseen-nil [] = refl
unseen-nil ((k, d) ∷ m) = ground (arith, unseen-nil m)

unseen-cons-le :
    (c : String) (seen : List String) (m : Globals) → unseen (c ∷ seen) m ≤ unseen seen m
unfolding unseen has
unseen-cons-le c seen [] = omega arith
unseen-cons-le c seen ((k, d) ∷ m) = ground (arith, unseen-cons-le c seen m)

pub unseen-cons-lt :
    (c : String) (seen : List String) (m : Globals) (d : Node)
    → lookup c m ≡ some d
    → has c seen ≡ false
    → unseen (c ∷ seen) m < unseen seen m
unfolding unseen has lookup
unseen-cons-lt c seen [] d h fresh = cc
unseen-cons-lt c seen ((k, e) ∷ m) d h fresh =
    ground (arith, unseen-cons-le c seen m, unseen-cons-lt c seen m d, eq_iff k c, eq_iff c k)

follow_right_total :
    (right : Node) (continue : String → Resolved)
    → ((n : String) → continue n ≢ no_fuel)
    → follow_right right continue ≢ no_fuel
unfolding follow_right
follow_right_total (function ps body ret) continue h = cc
follow_right_total (identifier n) continue h = h n
follow_right_total _ continue h = cc

follow-none : (continue : String → Resolved) → follow none continue ≢ no_fuel
unfolding follow
follow-none continue = cc

pub fresh_of_unmarked :
    (cur : String) (seen : List String)
    → (cur == "" || marked cur seen) ≡ false
    → has cur seen ≡ false
unfolding marked
fresh_of_unmarked cur seen h = ground arith

follow_total :
    (o : Option Node) (continue : String → Resolved)
    → ((n : String) → continue n ≢ no_fuel)
    → follow o continue ≢ no_fuel
unfolding follow
follow_total (some (declaration l r d)) continue h = follow_right_total r continue h
follow_total _ continue h = cc

loop_total :
    (fuel : ℕ) (m : Globals) (cur : String) (seen : List String)
    → unseen seen m < fuel
    → resolve_loop fuel m cur seen ≢ no_fuel
unfolding resolve_loop
loop_total zero m cur seen h = absurd (omega arith)
loop_total (suc fuel) m cur seen h = elim (Bool-cases (cur == "" || marked cur seen)) [
  | inl stop ↦ rw stop (cc)
  | inr go ↦ rw go elim (Option-cases (lookup cur m)) [
    | inl e ↦ rw e (follow-none _)
    | inr (d, e) ↦ follow_total (lookup cur m) _ (λ n.
        loop_total fuel m n (cur ∷ seen)
          (omega (arith, unseen-cons-lt cur seen m d e (fresh_of_unmarked cur seen go))))
  ]
]

-- The fuel that the model gives always suffices: the loop of `resolveGlobalFunction` ends for
-- every name, also where the aliases of the `global` block go round in a circle.
pub resolve_global_function-ends :
    (m : Globals) (name : String) → resolve_global_function m name ≢ no_fuel
unfolding resolve_global_function
resolve_global_function-ends m name =
    loop_total (length m + 1) m name [] (omega (arith, unseen-nil m))
