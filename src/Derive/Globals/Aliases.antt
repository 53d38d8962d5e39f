-- ===== src/Derive/Globals/Aliases.antt =====
-- `resolveGlobalFunction` finds the function at the end of a chain of aliases, and no other.
use pico_engine.Base.{
  ℕ, zero, suc, ◌+◌, ◌<◌, String, ◌==◌, ◌≡◌, ◌↔◌, refl, false, ◌||◌, List, [], ◌∷◌, Option, none,
  some, length, All, has, is_proto, marked, lookup, arith, eq_iff, Bool-cases, ◌⊎◌, inl, inr, ap,
  subst,
}
use pico_engine.Ast.{Node, Nodes, function, identifier, declaration, DocComment}
use pico_engine.Derive.Globals.{
  Globals, Resolved, found, follow, follow_right, resolve_loop, resolve_global_function,
}
use pico_engine.Derive.Globals.Termination.{unseen, unseen-nil, unseen-cons-lt}

-- `n` names something, and no property that every object inherits.
abbrev pub IsPlain : String → Type 0
IsPlain n = ((n == "") ≡ false) × (is_proto n ≡ false)

-- After `h` aliases `n` is declared as the function `f`.
pub data Alias (m : Globals) : ℕ → String → Node → Type 0 where
  direct :
      {n : String} (l ps : Node) (body : Nodes) (ret : Node) (doc : Option DocComment)
      → IsPlain n
      → lookup n m ≡ some (declaration l (function ps body ret) doc)
      → Alias m zero n (function ps body ret)
  alias :
      {h : ℕ} {n : String} {f : Node} (l : Node) (k : String) (doc : Option DocComment)
      → IsPlain n
      → lookup n m ≡ some (declaration l (identifier k) doc)
      → Alias m h k f
      → Alias m (suc h) n f

-- What `dec.right` was, where the loop's answer is a function.
right_cases :
    (l right : Node) (doc : Option DocComment) (continue : String → Resolved) {f : Node}
    → follow_right right continue ≡ found f
    → ((ps : Node) × (b : Nodes) × (r : Node) × (right ≡ function ps b r) × (f ≡ function ps b r))
      ⊎ ((k : String) × (right ≡ identifier k) × (continue k ≡ found f))
unfolding follow_right
right_cases l (function ps b r) doc continue e = inl (ps, b, r, refl, cc)
right_cases l (identifier k) doc continue e = inr (k, refl, e)
right_cases l _ doc continue e = cc

module _ (m : Globals) where
  plain : {h : ℕ} {n : String} {f : Node} → Alias m h n f → IsPlain n
  plain (direct l ps b r d p e) = p
  plain (alias l k d p e a) = p

  Alias-height : {h i : ℕ} {n : String} {f g : Node} → Alias m h n f → Alias m i n g → h ≡ i
  Alias-height (direct l ps b r d p e) (direct l' ps' b' r' d' p' e') = refl
  Alias-height (direct l ps b r d p e) (alias l' k' d' p' e' a') = cc
  Alias-height (alias l k d p e a) (direct l' ps' b' r' d' p' e') = cc
  Alias-height (alias l k d p e a) (alias {h = i} {f = g} l' k' d' p' e' a') =
      let same : k' ≡ k = cc in ap suc (Alias-height a (subst (λ x. Alias m i x g) same a'))

  follow_sound :
      (o : Option Node) (cur : String) (continue : String → Resolved) (f : Node)
      → IsPlain cur
      → lookup cur m ≡ o
      → ((k : String) → continue k ≡ found f → (h : ℕ) × Alias m h k f)
      → follow o continue ≡ found f
      → (h : ℕ) × Alias m h cur f
  unfolding follow
  follow_sound (some (declaration l right doc)) cur continue f p at later e =
      elim (right_cases l right doc continue e) [
        | inl (ps, b, r, q, q') ↦ rw q' (zero, direct l ps b r doc p (rw (← q) at))
        | inr (k, q, e') ↦ let (h, a) = later k e' in (suc h, alias l k doc p (rw (← q) at) a)
      ]
  follow_sound none cur continue f p at later e = cc
  follow_sound _ cur continue f p at later e = cc

  loop_sound :
      (fuel : ℕ) (cur : String) (seen : List String) (f : Node)
      → resolve_loop fuel m cur seen ≡ found f
      → (h : ℕ) × Alias m h cur f
  unfolding resolve_loop marked
  loop_sound zero cur seen f e = cc
  loop_sound (suc fuel) cur seen f e = elim (Bool-cases (cur == "" || marked cur seen)) [
    | inl stop ↦ cc
    | inr go ↦
        follow_sound (lookup cur m) cur _ f (ground arith) refl
          (λ k e'. loop_sound fuel k (cur ∷ seen) f e') (rw go at e)
  ]

  -- The names met before stand higher in the chain.
  abbrev Above : ℕ → String → Type 0
  Above h s = (i : ℕ) × (g : Node) × Alias m i s g × (h < i)

  lower : (h : ℕ) (seen : List String) → All (Above (suc h)) seen → All (Above h) seen
  lower h [] all = tt
  lower h (x ∷ xs) ((i, g, b, lt), all) = ((i, g, b, omega arith), lower h xs all)

  fresh :
      {h : ℕ} {n : String} {f : Node} (seen : List String)
      → Alias m h n f
      → All (Above h) seen
      → has n seen ≡ false
  unfolding has
  fresh [] a all = refl
  fresh {h} {n} (x ∷ xs) a ((i, g, b, lt), all) = elim (Bool-cases (x == n)) [
    | inl e ↦
        absurd
          (let up = Alias-height a (subst (λ y. Alias m i y g) ((eq_iff x n).0 e) b) in omega arith)
    | inr e ↦ rw e (fresh xs a all)
  ]

  go :
      {h : ℕ} {n : String} {f : Node} (seen : List String)
      → Alias m h n f
      → All (Above h) seen
      → (n == "" || marked n seen) ≡ false
  unfolding marked
  go {n = n} seen a all = ground (arith, fresh seen a all, plain a)

  loop_complete :
      (fuel : ℕ) {h : ℕ} {cur : String} {f : Node} (seen : List String)
      → Alias m h cur f
      → All (Above h) seen
      → unseen seen m < fuel
      → resolve_loop fuel m cur seen ≡ found f
  unfolding resolve_loop follow follow_right
  loop_complete zero seen a all lt = absurd (omega arith)
  loop_complete (suc fuel) {cur = cur} seen (direct l ps b r d p e) all lt =
      rw (go seen (direct l ps b r d p e) all) (rw e refl)
  loop_complete (suc fuel) {h = suc h} {cur = cur} seen (alias l k d p e a) all lt =
      let on = go seen (alias l k d p e a) all in
      let step = unseen-cons-lt cur seen m _ e (fresh seen (alias l k d p e a) all) in
      rw on (
        rw e (
          loop_complete fuel (cur ∷ seen) a
            ((suc h, _, alias l k d p e a, omega arith), lower h seen all) (omega arith)))

-- The loop answers with a function exactly when the name stands for it through aliases that
-- name no property of Object.prototype: it follows every such chain to its end, and answers
-- with nothing else.
pub resolve_global_function-Alias :
    (m : Globals) (name : String) (f : Node)
    → (resolve_global_function m name ≡ found f) ↔ ((h : ℕ) × Alias m h name f)
unfolding resolve_global_function
resolve_global_function-Alias m name f = (
  loop_sound m (length m + 1) name [] f,
  λ (h, a). loop_complete m (length m + 1) [] a tt (omega (arith, unseen-nil m)),
)
