-- ===== src/Modules/Cycles.antt =====
-- pico-engine-core/src/moduleDependencies.ts: findCycle decides whether the graph has a cycle.
use pico_engine.Base.{
  String, ◌≡◌, inl, inr, subst, true, Bool-cases, List, [], ◌∷◌, ◌++◌, has, In, keys, length,
  has→In, All-In, suc,
}
use pico_engine.Modules.Graph.{
  Graph, deps_of, Search, found, ended, out_of_fuel, dfs, fresh, find_cycle,
}
use pico_engine.Modules.Walks.{IsWalk, IsCycle, IsFinished-acyclic}
use pico_engine.Modules.Search.{Outcome, Leads, each-Outcome, dfs-Contract, All-of_In}
use pico_engine.Modules.Fuel.{finishes, find_cycle-finishes, deps_of-none}

module _ (g : Graph) where
  -- What the search says is so: a cycle of the graph, or there is none. It does say something.
  abbrev pub IsDecided : Search → Type 0
  IsDecided (found c) = IsCycle g c
  IsDecided (ended st) = (c : List String) → IsCycle g c → ⊥
  IsDecided out_of_fuel = ⊥

  -- A node that uses another is a key.
  uses-keys : (a d : String) → In d (deps_of g a) → In a (keys g)
  uses-keys a d i = elim (Bool-cases (has a (keys g))) [
    | inl h ↦ has→In a (keys g) h
    | inr h ↦ absurd (rw (deps_of-none g a h) at i)
  ]

  first_use : (a : String) (m : List String) → IsWalk g (a ∷ (m ++ (a ∷ []))) → In a (keys g)
  first_use a [] (e, w) = uses-keys a a e
  first_use a (b ∷ m) (e, w) = uses-keys a b e

  decided : (s : Search) → Outcome g (keys g) fresh s → finishes s ≡ true → IsDecided s
  decided (found c) o h = o
  decided (ended st) (a, o) h = no_cycle
    where
      no_cycle : (c : List String) → IsCycle g c → ⊥
      no_cycle c (x, m, e, w) =
          let walk : IsWalk g (x ∷ (m ++ (x ∷ []))) = subst (IsWalk g) e w in
          IsFinished-acyclic g st.visited m x a.finished
            (All-In (λ k. In k st.visited) x (keys g) o (first_use x m walk)) walk
  decided out_of_fuel o h = cc

-- findCycle gives a closed walk along the uses of modules, or null, and then there is no closed
-- walk: it always gives one of the two.
pub find_cycle_decides : (g : Graph) → IsDecided g (find_cycle g)
unfolding find_cycle
find_cycle_decides g =
    decided g (find_cycle g)
      (each-Outcome g (dfs g (suc (length (keys g)))) (dfs-Contract g _) (keys g) fresh (tt, tt)
        (All-of_In g (Leads g fresh) (keys g) (λ d i. tt)))
      (find_cycle-finishes g)
