-- ===== src/Modules/Walks.antt =====
-- pico-engine-core/src/moduleDependencies.ts: walks along the uses of modules, and what set the
-- searched part of the graph is.
use pico_engine.Base.{
  ℕ, suc, String, ◌==◌, ◌≡◌, refl, ap, inl, inr, false, Bool-cases, eq_iff, some, List, [], ◌∷◌,
  ◌++◌, has, All, In, arith, All-In,
}
use pico_engine.Modules.Graph.{Graph, deps_of, index_of, drop, slice, pop, delete}

-- Each node uses the next.
abbrev pub IsWalk : Graph → List String → Type 0
IsWalk g [] = Unit
IsWalk g (a ∷ []) = Unit
IsWalk g (a ∷ b ∷ r) = In b (deps_of g a) × IsWalk g (b ∷ r)

-- A walk of at least one step that ends where it starts.
abbrev pub IsCycle : Graph → List String → Type 0
IsCycle g c = (a : String) × (middle : List String) × (c ≡ a ∷ (middle ++ (a ∷ []))) × IsWalk g c

-- Every node of the list uses only nodes that stand behind it.
abbrev pub IsFinished : Graph → List String → Type 0
IsFinished g [] = Unit
IsFinished g (v ∷ vs) = All (λ d. In d vs) (deps_of g v) × IsFinished g vs

pub index_of-In : (p : List String) (x : String) → In x p → (n : ℕ) × (index_of x p ≡ some n)
unfolding index_of
index_of-In [] x i = absurd i
index_of-In (y ∷ p) x i = elim (Bool-cases (y == x)) [
  | inl e ↦ rw e (0, refl)
  | inr e ↦ let (n, f) = index_of-In p x (later i e) in rw (e, f) (suc n, refl)
]
  where
    later : In x (y ∷ p) → (y == x) ≡ false → In x p
    later (inl k) e = ground (arith, eq_iff y x)
    later (inr k) e = k

module _ (g : Graph) where
  pub IsWalk-snoc :
      (p : List String) (a b : String)
      → IsWalk g (p ++ (a ∷ []))
      → In b (deps_of g a)
      → IsWalk g ((p ++ (a ∷ [])) ++ (b ∷ []))
  IsWalk-snoc [] a b h i = (i, tt)
  IsWalk-snoc (x ∷ []) a b (e, h) i = (e, (i, tt))
  IsWalk-snoc (x ∷ y ∷ p) a b (e, h) i = (e, IsWalk-snoc (y ∷ p) a b h i)

  pub IsWalk-tail : (a : String) (p : List String) → IsWalk g (a ∷ p) → IsWalk g p
  IsWalk-tail a [] h = tt
  IsWalk-tail a (b ∷ p) (_, h) = h

  -- The path from a node on it to a node that its last one uses.
  pub closed_walk :
      (p : List String) (node : String)
      → In node p
      → IsWalk g (p ++ (node ∷ []))
      → IsCycle g (slice (index_of node p) p ++ (node ∷ []))
  unfolding index_of slice drop
  closed_walk [] node i h = absurd i
  closed_walk (x ∷ p) node i h = elim (Bool-cases (x == node)) [
    | inl e ↦ rw e (node, p, ap (λ y. y ∷ (p ++ (node ∷ []))) ((eq_iff x node).0 e), h)
    | inr e ↦
        let (n, f) = index_of-In p node (later i e) in
        rw (e, f) (rw f at (closed_walk p node (later i e) (IsWalk-tail x (p ++ (node ∷ [])) h)))
  ]
    where
      later : In node (x ∷ p) → (x == node) ≡ false → In node p
      later (inl k) e = ground (arith, eq_iff x node)
      later (inr k) e = k

  -- A finished list is closed under uses.
  pub IsFinished-uses :
      (vs : List String) (v d : String) → IsFinished g vs → In v vs → In d (deps_of g v) → In d vs
  IsFinished-uses [] v d h i j = absurd i
  IsFinished-uses (w ∷ vs) v d (p, h) (inl e) j =
      inr (All-In (λ x. In x vs) d (deps_of g w) p (rw (← e) j))
  IsFinished-uses (w ∷ vs) v d (p, h) (inr i) j = inr (IsFinished-uses vs v d h i j)

  walk_stays :
      (vs p : List String) (a b : String)
      → IsFinished g vs
      → In a vs
      → IsWalk g (a ∷ (p ++ (b ∷ [])))
      → In b vs
  walk_stays vs [] a b h i (e, w) = IsFinished-uses vs a b h i e
  walk_stays vs (c ∷ p) a b h i (e, w) = walk_stays vs p c b h (IsFinished-uses vs a c h i e) w

  -- No cycle starts at a finished node.
  pub IsFinished-acyclic :
      (vs m : List String) (a : String)
      → IsFinished g vs
      → In a vs
      → IsWalk g (a ∷ (m ++ (a ∷ [])))
      → ⊥
  IsFinished-acyclic [] m a h i w = absurd i
  IsFinished-acyclic (v ∷ vs) m a (p, h) (inl e) w =
      IsFinished-acyclic vs m a h (first m (rw e p) w) w
    where
      first :
          (m : List String)
          → All (λ d. In d vs) (deps_of g a)
          → IsWalk g (a ∷ (m ++ (a ∷ [])))
          → In a vs
      first [] p (e, w) = All-In (λ x. In x vs) a (deps_of g a) p e
      first (c ∷ m) p (e, w) = walk_stays vs m c a h (All-In (λ x. In x vs) c (deps_of g a) p e) w
  IsFinished-acyclic (v ∷ vs) m a (p, h) (inr i) w = IsFinished-acyclic vs m a h i w

pub pop-snoc : (p : List String) (x : String) → pop (p ++ (x ∷ [])) ≡ p
unfolding pop
pop-snoc [] x = refl
pop-snoc (y ∷ []) x = refl
pop-snoc (y ∷ z ∷ p) x = ap (λ r. y ∷ r) (pop-snoc (z ∷ p) x)

pub delete-none : (x : String) (xs : List String) → has x xs ≡ false → delete x xs ≡ xs
unfolding delete has
delete-none x [] h = refl
delete-none x (y ∷ ys) h = ground (arith, delete-none x ys)
