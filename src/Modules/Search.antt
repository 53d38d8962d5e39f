-- ===== src/Modules/Search.antt =====
-- pico-engine-core/src/moduleDependencies.ts: what a call of dfs gives, found by following it.
use pico_engine.Base.{
  ℕ, zero, suc, String, ◌≡◌, refl, ◌∙◌, inl, inr, false, Bool-cases, eq_refl, List, [], ◌∷◌, ◌++◌,
  has, All, In, has→In, All-In, In-append_left, In-append_right,
}
use pico_engine.Modules.Graph.{
  Graph, deps_of, State, Search, found, ended, out_of_fuel, each, enter, leave, dfs, delete,
}
use pico_engine.Modules.Walks.{
  IsWalk, IsCycle, IsFinished, IsWalk-snoc, closed_walk, pop-snoc, delete-none,
}

module _ (g : Graph) where
  -- The nodes being visited are on the path, and those visited are finished.
  abbrev pub IsReady : State → Type 0
  IsReady st = All (λ k. In k st.path) st.visiting × IsFinished g st.visited

  -- The path and the nodes being visited are as before, and no node is forgotten.
  pub record IsAfter (before after : State) : Type 0 where
    pub same_visiting : after.visiting ≡ before.visiting
    pub same_path : after.path ≡ before.path
    pub finished : IsFinished g after.visited
    pub grows : (k : String) → In k before.visited → In k after.visited

  -- A call for the given nodes: a cycle of the graph, or all of them visited.
  abbrev pub Outcome : List String → State → Search → Type 0
  Outcome nodes st (found c) = IsCycle g c
  Outcome nodes st (ended after) = IsAfter st after × All (λ d. In d after.visited) nodes
  Outcome nodes st out_of_fuel = Unit

  abbrev pub Leads : State → String → Type 0
  Leads st node = IsWalk g (st.path ++ (node ∷ []))

  abbrev pub Contract : (String → State → Search) → Type 0
  Contract visit =
      (node : String) (st : State)
      → IsReady st
      → Leads st node
      → Outcome (node ∷ []) st (visit node st)

  seen_also :
      (d : String) (deps : List String) (st st' : State)
      → IsAfter st st'
      → In d st'.visited
      → (s : Search) → Outcome deps st' s
      → Outcome (d ∷ deps) st s
  seen_also d deps st st' a i (found c) o = o
  seen_also d deps st st' a i (ended after) (b, o) = (
    record {
      same_visiting = b.same_visiting ∙ a.same_visiting;
      same_path = b.same_path ∙ a.same_path;
      finished = b.finished;
      grows = λ k j. b.grows k (a.grows k j);
    },
    (b.grows d i, o),
  )
  seen_also d deps st st' a i out_of_fuel o = tt

  -- The rest of the loop, after the call for one dependency.
  on_result :
      (visit : String → State → Search) (d : String) (deps : List String) (st : State)
      → ((st' : State) → IsAfter st st' → Outcome deps st' (each visit deps st'))
      → (s : Search) → Outcome (d ∷ []) st s
      → Outcome (d ∷ deps) st (elim s [
        | found cycle ↦ found cycle
        | ended st' ↦ each visit deps st'
        | out_of_fuel ↦ out_of_fuel
      ])
  on_result visit d deps st rest (found c) o = o
  on_result visit d deps st rest (ended st') (a, (i, _)) =
      seen_also d deps st st' a i (each visit deps st') (rest st' a)
  on_result visit d deps st rest out_of_fuel o = tt

  pub each-Outcome :
      (visit : String → State → Search)
      → Contract visit
      → (deps : List String) (st : State) → IsReady st
      → All (Leads st) deps
      → Outcome deps st (each visit deps st)
  unfolding each
  each-Outcome visit c [] st r h =
      (record { same_visiting = refl; same_path = refl; finished = r.1; grows = λ k i. i }, tt)
  each-Outcome visit c (d ∷ deps) st r (w, h) =
      on_result visit d deps st
        (λ st' a.
          each-Outcome visit c deps st' (rw (a.same_visiting, a.same_path) r.0, a.finished)
            (rw a.same_path h))
        (visit d st) (c d st r w)

  pub All-of_In :
      (P : String → Type 0) (xs : List String) → ((x : String) → In x xs → P x) → All P xs
  All-of_In P [] f = tt
  All-of_In P (x ∷ xs) f = (f x (inl refl), All-of_In P xs (λ y i. f y (inr i)))

  pub IsReady-enter : (node : String) (st : State) → IsReady st → IsReady (enter node st)
  unfolding enter
  IsReady-enter node st (h, k) = (
    (
      In-append_right node st.path (node ∷ []) (inl refl),
      All-of_In _ st.visiting (λ x i.
          In-append_left x st.path (node ∷ []) (All-In (λ y. In y st.path) x st.visiting h i)),
    ),
    k,
  )

  pub Leads-enter :
      (node : String) (st : State) → Leads st node → All (Leads (enter node st)) (deps_of g node)
  unfolding enter
  Leads-enter node st w = All-of_In _ (deps_of g node) (λ d i. IsWalk-snoc g st.path node d w i)

  leave-Outcome :
      (node : String) (st : State)
      → has node st.visiting ≡ false
      → (s : Search) → Outcome (deps_of g node) (enter node st) s
      → Outcome (node ∷ []) st (leave node s)
  unfolding leave enter delete
  leave-Outcome node st e (found c) o = o
  leave-Outcome node st e (ended after) (a, o) = (
    record {
      same_visiting = rw (a.same_visiting, eq_refl node) (delete-none node st.visiting e);
      same_path = rw a.same_path (pop-snoc st.path node);
      finished = (o, a.finished);
      grows = λ k i. inr (a.grows k i);
    },
    (inl refl, tt),
  )
  leave-Outcome node st e out_of_fuel o = tt

  pub dfs-Contract : (fuel : ℕ) → Contract (dfs g fuel)
  unfolding dfs enter
  dfs-Contract zero node st r w = tt
  dfs-Contract (suc fuel) node st r w = elim (Bool-cases (has node st.visiting)) [
    | inl e ↦ rw e (
        closed_walk g st.path node
          (All-In (λ k. In k st.path) node st.visiting r.0 (has→In node st.visiting e)) w)
    | inr e ↦ elim (Bool-cases (has node st.visited)) [
      | inl f ↦
          rw (e, f)
            (
              record { same_visiting = refl; same_path = refl; finished = r.1; grows = λ k i. i },
              (has→In node st.visited f, tt),
            )
      | inr f ↦
          rw (e, f)
            (leave-Outcome node st e _ (
              each-Outcome (dfs g fuel) (dfs-Contract fuel) (deps_of g node) (enter node st)
                (IsReady-enter node st r) (Leads-enter node st w)))
    ]
  ]
