-- ===== src/Modules/Fuel.antt =====
-- pico-engine-core/src/moduleDependencies.ts: the depth of dfs's calls is bounded by the number of
-- keys that are not being visited.
use pico_engine.Base.{
  ℕ, zero, suc, ◌<◌, ◌≤◌, String, ◌≡◌, refl, ap, inl, inr, Bool, true, false, Bool-cases,
  Option-cases, is_some, if◌then◌else◌, eq_iff, List, [], ◌∷◌, has, All, arith, keys, length,
  lookup, has-keys,
}
use pico_engine.Modules.Graph.{
  Graph, deps_of, State, Search, found, ended, out_of_fuel, each, enter, leave, dfs, fresh,
  find_cycle,
}
use pico_engine.Modules.Search.{
  IsReady, Leads, Contract, IsAfter, Outcome, IsReady-enter, Leads-enter, dfs-Contract, All-of_In,
}

abbrev pub finishes : Search → Bool
finishes (found c) = true
finishes (ended st) = true
finishes out_of_fuel = false

-- How many of the keys are not being visited.
abbrev unvisited : List String → List String → ℕ
unvisited [] visiting = 0
unvisited (k ∷ ks) visiting =
    if has k visiting then unvisited ks visiting else suc (unvisited ks visiting)

unvisited-le :
    (ks visiting : List String) (node : String)
    → unvisited ks (node ∷ visiting) ≤ unvisited ks visiting
unfolding has
unvisited-le [] visiting node = omega arith
unvisited-le (k ∷ ks) visiting node = ground (arith, unvisited-le ks visiting node)

unvisited-lt :
    (ks visiting : List String) (node : String)
    → has node ks ≡ true
    → has node visiting ≡ false
    → unvisited ks (node ∷ visiting) < unvisited ks visiting
unfolding has
unvisited-lt [] visiting node h e = cc
unvisited-lt (k ∷ ks) visiting node h e = ground (
  arith,
  unvisited-le ks visiting node,
  unvisited-lt ks visiting node,
  eq_iff node k,
  eq_iff k node,
)

unvisited-none : (ks : List String) → unvisited ks [] ≤ length ks
unfolding has
unvisited-none [] = omega arith
unvisited-none (k ∷ ks) = ground (arith, unvisited-none ks)

module _ (g : Graph) where
  pub deps_of-none : (node : String) → has node (keys g) ≡ false → deps_of g node ≡ []
  unfolding deps_of
  deps_of-none node h = elim (Option-cases (lookup node g)) [
    | inl e ↦ rw (deps_of, e) refl
    | inr (ds, e) ↦ absurd (ground (arith, h, has-keys node g, ap is_some e))
  ]

  -- The loop needs no more fuel than its calls: those before leave the visiting nodes as they were.
  each-finishes :
      (visit : String → State → Search) (bound : ℕ)
      → Contract g visit
      → ((node : String) (st : State)
          → IsReady g st
          → Leads g st node
          → unvisited (keys g) st.visiting < bound
          → finishes (visit node st) ≡ true)
      → (deps : List String) (st : State) → IsReady g st
      → All (Leads g st) deps
      → unvisited (keys g) st.visiting < bound
      → finishes (each visit deps st) ≡ true
  unfolding each
  each-finishes visit bound c f [] st r h l = refl
  each-finishes visit bound c f (d ∷ deps) st r (w, h) l =
      go (visit d st) (c d st r w) (f d st r w l) (λ st' a.
        each-finishes visit bound c f deps st' (rw (a.same_visiting, a.same_path) r.0, a.finished)
          (rw a.same_path h) (rw a.same_visiting l))
    where
      go :
          (s : Search)
          → Outcome g (d ∷ []) st s
          → finishes s ≡ true
          → ((st' : State) → IsAfter g st st' → finishes (each visit deps st') ≡ true)
          → finishes (elim s [
            | found cycle ↦ found cycle
            | ended st' ↦ each visit deps st'
            | out_of_fuel ↦ out_of_fuel
          ])
            ≡ true
      go (found cycle') o e k = refl
      go (ended st') (a, _) e k = k st' a
      go out_of_fuel o e k = cc

  leave-finishes : (node : String) (s : Search) → finishes s ≡ true → finishes (leave node s) ≡ true
  unfolding leave
  leave-finishes node (found c) h = refl
  leave-finishes node (ended st) h = refl
  leave-finishes node out_of_fuel h = h

  enter-unvisited :
      (node : String) (st : State) (fuel : ℕ)
      → has node (keys g) ≡ true
      → has node st.visiting ≡ false
      → unvisited (keys g) st.visiting < suc fuel
      → unvisited (keys g) (enter node st).visiting < fuel
  unfolding enter
  enter-unvisited node st fuel k e l = omega (arith, unvisited-lt (keys g) st.visiting node k e)

  -- A node that is no key uses nothing, so its loop has no call.
  each-leaf :
      (visit : String → State → Search) (node : String) (st : State)
      → has node (keys g) ≡ false
      → finishes (each visit (deps_of g node) st) ≡ true
  unfolding each
  each-leaf visit node st k = rw (deps_of-none node k) refl

  pub dfs-finishes :
      (fuel : ℕ) (node : String) (st : State)
      → IsReady g st
      → Leads g st node
      → unvisited (keys g) st.visiting < fuel
      → finishes (dfs g fuel node st) ≡ true
  unfolding dfs
  dfs-finishes zero node st r w l = absurd (omega arith)
  dfs-finishes (suc fuel) node st r w l = elim (Bool-cases (has node st.visiting)) [
    | inl e ↦ rw e refl
    | inr e ↦ elim (Bool-cases (has node st.visited)) [
      | inl f ↦ rw (e, f) refl
      | inr f ↦ elim (Bool-cases (has node (keys g))) [
        | inl k ↦
            rw (e, f)
              (leave-finishes node _ (
                each-finishes (dfs g fuel) fuel (dfs-Contract g fuel) (dfs-finishes fuel)
                  (deps_of g node) (enter node st) (IsReady-enter g node st r)
                  (Leads-enter g node st w) (enter-unvisited node st fuel k e l)))
        | inr k ↦ rw (e, f) (leave-finishes node _ (each-leaf (dfs g fuel) node (enter node st) k))
      ]
    ]
  ]

  pub find_cycle-finishes : finishes (find_cycle g) ≡ true
  unfolding find_cycle
  find_cycle-finishes =
      each-finishes (dfs g (suc (length (keys g)))) (suc (length (keys g))) (dfs-Contract g _)
        (dfs-finishes (suc (length (keys g)))) (keys g) fresh (tt, tt)
        (All-of_In g (Leads g fresh) (keys g) (λ d i. tt)) (omega (arith, unvisited-none (keys g)))
