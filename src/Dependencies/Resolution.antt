-- ===== src/Dependencies/Resolution.antt =====
-- The order that `ResolveExecutionOrder` of internal/health/composite/dependency.go finds.
use roost_keeper.Prelude.{
  ◌+◌, ◌≤◌, ◌≡◌, ◌∙◌, ◌∷◌, if◌then◌else◌, ℕ, String, List, suc, pos, false, none, [], refl, sym, ap,
  inl, inr, arith, eq_iff, length, insert, member, keys,
}
use roost_keeper.Roost.{HealthCheckSpec, Reply, ok}
use roost_keeper.Dependencies.{
  resolve_execution_order, resolve_with, extract_dependencies, topological_sort, detect_cycles,
  detect_from, has_cycle_dfs, any_cycle, Node, Marks, ordered, Graph, add_nodes, add_edges,
  add_dependencies, and_then, build_dependency_graph, slice_at,
}
use roost_keeper.Dependencies.Order.{count, left_of}
use roost_keeper.Dependencies.Edges.{count-keys-insert}
use roost_keeper.Dependencies.Sort.{topological_sort_lem, Stuck}
use roost_keeper.Dependencies.Nodes.{Fresh, add_nodes-Fresh, into-Fresh, Fresh-Counted}
use roost_keeper.Dependencies.Build.{no_edges, empty-Fresh}
use roost_keeper.Dependencies.Levels.{names_of}
use roost_keeper.Dependencies.Parallel.{all_listed}

-- no check has a dependency
extracts_none :
    (cs : List HealthCheckSpec) (g : Graph) → add_dependencies extract_dependencies cs g ≡ ok g
unfolding add_dependencies add_edges extract_dependencies
extracts_none [] g = refl
extracts_none (c ∷ cs) g = extracts_none cs g

build_graph_lem :
    (checks : List HealthCheckSpec)
    → build_dependency_graph extract_dependencies checks ≡ ok (no_edges checks)
unfolding build_dependency_graph
build_graph_lem checks = extracts_none checks (no_edges checks)

-- a search from a node without edges finds no cycle
search_finds_none :
    (fuel : ℕ) (g : Graph) (node : String) (m : Marks)
    → slice_at node g.edges ≡ []
    → (has_cycle_dfs (suc fuel) g node m).0 ≡ false
unfolding has_cycle_dfs any_cycle
search_finds_none fuel g node m e = rw e refl

detects_none :
    (fuel : ℕ) (g : Graph) (nodes : List (String × Node)) (m : Marks)
    → Fresh g
    → detect_from (suc fuel) g nodes m ≡ none
unfolding detect_from
detects_none fuel g [] m f = refl
detects_none fuel g ((name, node) ∷ rest) m f =
    let here = search_finds_none fuel g name m (f.edges name) in
    let after_search = detects_none fuel g rest (has_cycle_dfs (suc fuel) g name m).1 f in
    let go_on = detects_none fuel g rest m f in rw (here, after_search, go_on) (ground arith)

detect_cycles-none : (g : Graph) → Fresh g → detect_cycles g ≡ none
unfolding detect_cycles
detect_cycles-none g f =
    let fuel : length g.nodes + 1 ≡ suc (length g.nodes) = omega arith in
    rw fuel (detects_none (length g.nodes) g g.nodes (record { visited = []; stack = [] }) f)

Fresh-Stuck : (g : Graph) (rest : List String) → Fresh g → Stuck g rest → ⊥
Fresh-Stuck g [] f s = absurd (omega (arith, s.some_left))
Fresh-Stuck g (v ∷ rest) f s =
    absurd (ground (arith, s.entered v, into-Fresh g f v (v ∷ rest), eq_iff v v))

-- a graph without edges is sorted
sorts-Fresh :
    (g : Graph)
    → Fresh g
    → (out : List String) × (topological_sort g ≡ ok out)
      × ((v : String) → count v (keys g.nodes) ≡ count v out)
sorts-Fresh g f =
    let (out, t, cases) = topological_sort_lem g (Fresh-Counted g f).well_formed in
    elim cases [
      | inl (returned, all) ↦ (out, returned, all_listed g out t all)
      | inr (failed, stuck) ↦ absurd (Fresh-Stuck g (left_of (keys g.nodes) out) f stuck)
    ]

-- the nodes that the checks add, each once
count-keys-add_nodes :
    (cs : List HealthCheckSpec) (g : Graph) (v : String)
    → count v (keys g.nodes) ≤ 1
    → count v (keys (add_nodes cs g).nodes)
      ≡ (if member v (names_of cs) then 1 else count v (keys g.nodes))
unfolding add_nodes
count-keys-add_nodes [] g v h = refl
count-keys-add_nodes (c ∷ cs) g v h =
    let node : Node = record {
      name = c.name;
      dependencies = [];
      dependents = [];
      in_degree = pos 0;
    } in
    let added = count-keys-insert c.name node v g.nodes in
    let more : Graph = record {
      nodes = insert c.name node g.nodes;
      edges = insert c.name [] g.edges;
      reverse_edges = insert c.name [] g.reverse_edges;
    } in
    ground (arith, added, h, count-keys-add_nodes cs more v (ground (arith, added, h)))

-- an order of the names, each of which stands in it once
abbrev pub ListsOnce : List String → Reply (List String) → Type 0
ListsOnce names r =
    (out : List String) × (r ≡ ok out)
    × ((v : String) → count v out ≡ (if member v names then 1 else 0))

-- `ResolveExecutionOrder` never fails: for any checks it returns an order in which the name of each
-- check stands exactly once, also where several checks have it, and no other name.
pub resolve_execution_order-ListsOnce :
    (checks : List HealthCheckSpec) → ListsOnce (names_of checks) (resolve_execution_order checks)
unfolding resolve_execution_order resolve_with
resolve_execution_order-ListsOnce [] = ([], refl, λ v. refl)
resolve_execution_order-ListsOnce (c ∷ cs) =
    let empty : Graph = record { nodes = []; edges = []; reverse_edges = [] } in
    let g = no_edges (c ∷ cs) in
    let fresh = add_nodes-Fresh (c ∷ cs) empty empty-Fresh in
    let (out, returned, counted) = sorts-Fresh g fresh in
    (
      out,
      ap (λ r. and_then r (λ g. ordered g (detect_cycles g))) (build_graph_lem (c ∷ cs))
          ∙ ap (ordered g) (detect_cycles-none g fresh)
          ∙ returned,
      λ v. sym (counted v) ∙ count-keys-add_nodes (c ∷ cs) empty v (omega arith),
    )
