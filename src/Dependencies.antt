-- ===== src/Dependencies.antt =====
-- The order of the health checks: internal/health/composite/dependency.go, from
-- `ResolveExecutionOrder` down. A `range` over a map visits it in the order of its list.
pub mod Order
pub mod Sort
pub mod Edges
pub mod Nodes
pub mod Build
pub mod Search
pub mod Levels
pub mod Phases
pub mod Links
pub mod Parallel
pub mod Resolution
use roost_keeper.Prelude.{
  ◌+◌, ◌∷◌, ◌++◌, ◌==◌, if◌then◌else◌, ℕ, ℤ, String, List, Option, Bool, zero, suc, pos, negsuc,
  true, false, not, none, some, [], str_eq, length, inc, max_int64, lookup, insert, member,
  keys_where,
}
use roost_keeper.Roost.{HealthCheckSpec, Reply, ok, err, with_text, text}

-- `DependencyNode`; the in-degree is an `int`
pub record Node : Type 0 where
  pub name : String
  pub dependencies : List String
  pub dependents : List String
  pub in_degree : ℤ

-- `DependencyGraph`
pub record Graph : Type 0 where
  pub nodes : List (String × Node)
  pub edges : List (String × List String)
  pub reverse_edges : List (String × List String)

-- `m[k]` of a map to slices: nil where the key is missing
abbrev pub slice_at : String → List (String × List String) → List String
slice_at k m = elim (lookup k m) [ none ↦ [] | some xs ↦ xs ]

-- `m[k] = append(m[k], x)`
abbrev append_at : String → String → List (String × List String) → List (String × List String)
append_at k x m = insert k (slice_at k m ++ (x ∷ [])) m

-- `extractDependencies`, which finds none as long as the resource has no field for them
unfoldable pub extract_dependencies : HealthCheckSpec → List String
extract_dependencies check = []

-- the first pass of `buildDependencyGraph`: a node for every check
unfoldable pub add_nodes : List HealthCheckSpec → Graph → Graph
add_nodes [] g = g
add_nodes (c ∷ cs) g = add_nodes cs (record {
  nodes =
      insert c.name
        (record { name = c.name; dependencies = []; dependents = []; in_degree = pos 0 }) g.nodes;
  edges = insert c.name [] g.edges;
  reverse_edges = insert c.name [] g.reverse_edges;
})

-- an update of a node that is there
abbrev update_node : (Node → Node) → String → List (String × Node) → List (String × Node)
update_node f k m = elim (lookup k m) [ none ↦ m | some n ↦ insert k (f n) m ]

-- the body of the second pass for one dependency of a check, which is known to exist
unfoldable pub add_edge : String → String → Graph → Graph
add_edge check dep g =
    let depending =
      update_node
        (λ n. record n {
          dependencies = n.dependencies ++ (dep ∷ []);
          in_degree = inc max_int64 n.in_degree;
        })
        check g.nodes in
    record {
      edges = append_at dep check g.edges;
      reverse_edges = append_at check dep g.reverse_edges;
      nodes =
          update_node (λ n. record n { dependents = n.dependents ++ (check ∷ []) }) dep depending;
    }

unfoldable pub add_edges : String → List String → Graph → Reply Graph
add_edges check [] g = ok g
add_edges check (dep ∷ deps) g =
    let rest = add_edges check deps (add_edge check dep g) in
    elim (lookup dep g.nodes) [
      | none ↦ err (with_text "health check '%s' depends on a non-existent check" check)
      | some n ↦ rest
    ]

abbrev and_then {ℓ} : {A B : Type ℓ} → Reply A → (A → Reply B) → Reply B
and_then (ok a) f = f a
and_then (err e) f = err e

-- the second pass, over what a check depends on
unfoldable pub add_dependencies :
    (HealthCheckSpec → List String) → List HealthCheckSpec → Graph → Reply Graph
add_dependencies extract [] g = ok g
add_dependencies extract (c ∷ cs) g =
    and_then (add_edges c.name (extract c) g) (add_dependencies extract cs)

-- `buildDependencyGraph`, for any extraction of dependencies
unfoldable pub build_dependency_graph :
    (HealthCheckSpec → List String) → List HealthCheckSpec → Reply Graph
build_dependency_graph extract checks =
    add_dependencies extract checks
      (add_nodes checks (record { nodes = []; edges = []; reverse_edges = [] }))

-- the maps `visited` and `recursionStack`, as the lists of the names that are true in them
pub record Marks : Type 0 where
  pub visited : List String
  pub stack : List String

-- `recursionStack[node] = false`
abbrev unmark : String → List String → List String
unmark k [] = []
unmark k (j ∷ js) = let rest = unmark k js in if str_eq k j then rest else j ∷ rest

-- the loop over the dependents in `hasCycleDFS`; `dfs` is the recursive call
unfoldable pub any_cycle : (String → Marks → Bool × Marks) → List String → Marks → Bool × Marks
any_cycle dfs [] m = (false, m)
any_cycle dfs (d ∷ ds) m =
    let deeper = dfs d m in
    let after_deeper : Bool × Marks = elim (deeper.0) [
      | true ↦ (true, deeper.1)
      | false ↦ any_cycle dfs ds deeper.1
    ] in
    let go_on = any_cycle dfs ds m in
    if not (member d m.visited) then after_deeper else if member d m.stack then (true, m) else go_on

-- `hasCycleDFS`; it goes only to nodes that are not visited, so that the fuel of `detect_cycles`
-- is not used up
unfoldable pub has_cycle_dfs : ℕ → Graph → String → Marks → Bool × Marks
has_cycle_dfs zero g node m = (false, m)
has_cycle_dfs (suc fuel) g node m =
    let (found, m') =
      any_cycle (has_cycle_dfs fuel g) (slice_at node g.edges)
        (record { visited = node ∷ m.visited; stack = node ∷ m.stack }) in
    if found then (true, m') else (false, record m' { stack = unmark node m'.stack })

-- the loop of `detectCycles`: the node at which a cycle is found
unfoldable pub detect_from : ℕ → Graph → List (String × Node) → Marks → Option String
detect_from fuel g [] m = none
detect_from fuel g ((name, node) ∷ rest) m =
    let (found, m') = has_cycle_dfs fuel g name m in
    let after_search = if found then some name else detect_from fuel g rest m' in
    let go_on = detect_from fuel g rest m in if member name m.visited then go_on else after_search

-- `detectCycles`
unfoldable pub detect_cycles : Graph → Option String
detect_cycles g = detect_from (length g.nodes + 1) g g.nodes (record { visited = []; stack = [] })

-- `inDegree[d]--`: a missing entry counts as 0
unfoldable pub dec : ℤ → ℤ
dec (pos zero) = negsuc zero
dec (pos (suc n)) = pos n
dec (negsuc n) = negsuc (suc n)

abbrev pub degree_at : String → List (String × ℤ) → ℤ
degree_at k m = elim (lookup k m) [ none ↦ pos 0 | some d ↦ d ]

abbrev is_zero : ℤ → Bool
is_zero (pos zero) = true
is_zero _ = false

-- the loop over the dependents in `topologicalSort`
unfoldable pub release_all :
    List String → List (String × ℤ) → List String → List (String × ℤ) × List String
release_all [] degrees queue = (degrees, queue)
release_all (d ∷ ds) degrees queue =
    let now = dec (degree_at d degrees) in
    release_all ds (insert d now degrees) (if is_zero now then queue ++ (d ∷ []) else queue)

-- the loop of `topologicalSort`; a node is queued only when its degree comes down to 0, which
-- happens once, so that the fuel of `topological_sort` is enough
unfoldable pub sort_loop : ℕ → Graph → List (String × ℤ) → List String → List String → List String
sort_loop zero g degrees queue result = result
sort_loop (suc fuel) g degrees [] result = result
sort_loop (suc fuel) g degrees (current ∷ queue) result =
    let (degrees', queue') = release_all (slice_at current g.edges) degrees queue in
    sort_loop fuel g degrees' queue' (result ++ (current ∷ []))

abbrev degrees_of : List (String × Node) → List (String × ℤ)
degrees_of [] = []
degrees_of ((name, node) ∷ rest) = (name, node.in_degree) ∷ degrees_of rest

-- `topologicalSort`
unfoldable pub topological_sort : Graph → Reply (List String)
topological_sort g =
    let degrees = degrees_of g.nodes in
    let result = sort_loop (length g.nodes + 1) g degrees (keys_where is_zero degrees) [] in
    if length result == length g.nodes
    then ok result
    else err (text "graph contains cycles, cannot perform topological sort")

abbrev ordered : Graph → Option String → Reply (List String)
ordered g (some name) = err (with_text "circular dependency detected involving node '%s'" name)
ordered g none = topological_sort g

-- the body of `ResolveExecutionOrder`, for any extraction of dependencies
unfoldable pub resolve_with :
    (HealthCheckSpec → List String) → List HealthCheckSpec → Reply (List String)
resolve_with extract [] = ok []
resolve_with extract (c ∷ cs) =
    and_then (build_dependency_graph extract (c ∷ cs)) (λ g. ordered g (detect_cycles g))

-- `ResolveExecutionOrder`
unfoldable pub resolve_execution_order : List HealthCheckSpec → Reply (List String)
unfolding resolve_with extract_dependencies
resolve_execution_order checks = resolve_with extract_dependencies checks
