-- ===== src/Dependencies/Build.antt =====
-- The graph that `buildDependencyGraph` of internal/health/composite/dependency.go builds is
-- well formed.
use roost_keeper.Prelude.{
  ◌+◌, ◌≤◌, ◌<◌, ◌≡◌, ◌∙◌, ◌⊎◌, ◌∷◌, ℕ, String, List, suc, [], refl, sym, ap, inl, inr, arith,
  Option-cases, length, All, max_int64, lookup, keys,
}
use mathlib.Core.Path.{subst}
use roost_keeper.Roost.{with_text, HealthCheckSpec, Reply, ok, err}
use roost_keeper.Dependencies.{
  topological_sort, Graph, add_nodes, add_edge, add_edges, add_dependencies, and_then,
  build_dependency_graph,
}
use roost_keeper.Dependencies.Order.{Topological, count}
use roost_keeper.Dependencies.Edges.{
  degree_of, keys-add_edge, add_edge-Counted, count-lookup, Counted,
}
use roost_keeper.Dependencies.Sort.{topological_sort_lem, IsWellFormed}
use roost_keeper.Dependencies.Nodes.{Fresh, add_nodes-Fresh, add_nodes-there, Fresh-Counted}

-- how many dependencies some checks have
abbrev pub total : (HealthCheckSpec → List String) → List HealthCheckSpec → ℕ
total extract [] = 0
total extract (c ∷ cs) = length (extract c) + total extract cs

recount : (n m : ℕ) (g : Graph) → n ≡ m → Counted n g → Counted m g
recount n m g e c = subst (λ k. Counted k g) e c

-- a graph with `n` edges or fewer and with these nodes, if there is one
abbrev After : ℕ → List String → Reply Graph → Type 0
After n names (err e) = Unit
After n names (ok g) = Counted n g × (keys g.nodes ≡ names)

After-and_then :
    (n m : ℕ) (names : List String) (r : Reply Graph) (f : Graph → Reply Graph)
    → After n names r
    → ((g : Graph) → Counted n g → keys g.nodes ≡ names → After m names (f g))
    → After m names (and_then r f)
After-and_then n m names (err e) f a go_on = tt
After-and_then n m names (ok g) f (c, same) go_on = go_on g c same

pub add_edges_step :
    (check dep : String) (deps : List String) (g : Graph)
    → (add_edges check (dep ∷ deps) g
        ≡ err (with_text "health check '%s' depends on a non-existent check" check))
      ⊎ ((0 < count dep (keys g.nodes))
          × (add_edges check (dep ∷ deps) g ≡ add_edges check deps (add_edge check dep g)))
unfolding add_edges
add_edges_step check dep deps g = elim (Option-cases (lookup dep g.nodes)) [
  | inl missing ↦ inl (rw (missing, add_edges) refl)
  | inr (node, found) ↦ inr (ground (arith, count-lookup dep g.nodes), rw (found, add_edges) refl)
]

add_edges-After :
    (check : String) (deps : List String) (n : ℕ) (g : Graph)
    → Counted n g
    → n + length deps ≤ max_int64
    → 0 < count check (keys g.nodes)
    → After (n + length deps) (keys g.nodes) (add_edges check deps g)
unfolding add_edges
add_edges-After check [] n g c fits here = (recount n (n + 0) g (omega arith) c, refl)
add_edges-After check (dep ∷ deps) n g c fits here = elim (add_edges_step check dep deps g) [
  | inl e ↦ subst (After (n + length (dep ∷ deps)) (keys g.nodes)) (sym e) tt
  | inr (there, e) ↦
      let next = add_edge check dep g in
      let same = keys-add_edge n g check dep c in
      let more : After (suc n + length deps) (keys next.nodes) (add_edges check deps next) =
        add_edges-After check deps (suc n) next
          (add_edge-Counted n g check dep c (omega arith) here there) (omega arith)
          (subst (λ names. 0 < count check names) (sym same) here) in
      subst (After (n + length (dep ∷ deps)) (keys g.nodes)) (sym e) (
        subst (λ names. After (n + length (dep ∷ deps)) names (add_edges check deps next)) same
          (subst (λ k. After k (keys next.nodes) (add_edges check deps next)) (omega arith) more))
]

add_dependencies-After :
    (extract : HealthCheckSpec → List String) (cs : List HealthCheckSpec) (n : ℕ) (g : Graph)
    → Counted n g
    → n + total extract cs ≤ max_int64
    → All (λ c. 0 < count c.name (keys g.nodes)) cs
    → After (n + total extract cs) (keys g.nodes) (add_dependencies extract cs g)
unfolding add_dependencies
add_dependencies-After extract [] n g c fits here = (recount n (n + 0) g (omega arith) c, refl)
add_dependencies-After extract (check ∷ cs) n g c fits (here, rest) =
    After-and_then (n + length (extract check)) (n + total extract (check ∷ cs)) (keys g.nodes)
      (add_edges check.name (extract check) g) (add_dependencies extract cs)
      (add_edges-After check.name (extract check) n g c (omega arith) here)
      (λ g' c' same.
        let more =
          add_dependencies-After extract cs (n + length (extract check)) g' c' (omega arith)
            (subst (λ names. All (λ c. 0 < count c.name names) cs) (sym same) rest) in
        subst (λ k. After k (keys g.nodes) (add_dependencies extract cs g')) (omega arith)
          (subst
            (λ names.
              After (n + length (extract check) + total extract cs) names
                (add_dependencies extract cs g'))
            same more))

-- the nodes of the graph that the checks get
abbrev pub no_edges : List HealthCheckSpec → Graph
no_edges checks = add_nodes checks (record { nodes = []; edges = []; reverse_edges = [] })

pub empty-Fresh : Fresh (record { nodes = []; edges = []; reverse_edges = [] })
unfolding degree_of lookup
empty-Fresh = record { edges = λ u. refl; degree = λ v. refl; once = λ v. omega arith }

build_dependency_graph-After :
    (extract : HealthCheckSpec → List String) (checks : List HealthCheckSpec)
    → total extract checks ≤ max_int64
    → After
        (total extract checks)
        (keys (no_edges checks).nodes)
        (build_dependency_graph extract checks)
unfolding build_dependency_graph
build_dependency_graph-After extract checks fits =
    let empty : Graph = record { nodes = []; edges = []; reverse_edges = [] } in
    subst
      (λ k.
        After k (keys (no_edges checks).nodes) (add_dependencies extract checks (no_edges checks)))
      (omega arith)
      (add_dependencies-After extract checks 0 (no_edges checks)
        (Fresh-Counted (no_edges checks) (add_nodes-Fresh checks empty empty-Fresh)) (omega arith)
        (add_nodes-there checks empty))

-- Where the checks name at most 2⁶³ - 1 dependencies in all, a graph that `buildDependencyGraph`
-- returns is well formed: its in-degrees count its edges, no name has two nodes, and every edge
-- goes to a node.
pub build_dependency_graph-IsWellFormed :
    (extract : HealthCheckSpec → List String) (checks : List HealthCheckSpec) (g : Graph)
    → total extract checks ≤ max_int64
    → build_dependency_graph extract checks ≡ ok g
    → IsWellFormed g
build_dependency_graph-IsWellFormed extract checks g fits e =
    let (c, same) : After (total extract checks) (keys (no_edges checks).nodes) (ok g) =
      subst (After (total extract checks) (keys (no_edges checks).nodes)) e
        (build_dependency_graph-After extract checks fits) in
    c.well_formed

-- an order that the sort returns is topological and complete
pub sorted_all :
    (g : Graph)
    → IsWellFormed g
    → (out : List String) → topological_sort g ≡ ok out
    → Topological g (keys g.nodes) out × (length out ≡ length g.nodes)
sorted_all g well out e =
    let (out', sorted, cases) = topological_sort_lem g well in
    elim cases [
      | inl (returned, all) ↦
          let same : out' ≡ out = ground arith in
          (subst (Topological g (keys g.nodes)) same sorted, ap length (sym same) ∙ all)
      | inr (failed, stuck) ↦ absurd (ground arith)
    ]
