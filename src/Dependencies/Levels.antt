-- ===== src/Dependencies/Levels.antt =====
-- What internal/health/composite/dependency.go makes of an order: the levels of the checks, and the
-- phases of checks that may run at the same time.
use roost_keeper.Prelude.{
  ◌+◌, ◌∷◌, ◌++◌, ◌==◌, if◌then◌else◌, ℕ, String, List, Option, zero, suc, none, some, [], ltb, leb,
  str_eq, length, lookup, insert, member,
}
use roost_keeper.Roost.{HealthCheckSpec, Reply, ok, err, Message, with_text, with_texts}
use roost_keeper.Dependencies.{
  Node, Graph, build_dependency_graph, extract_dependencies, topological_sort,
}

-- `graph.nodes[name].Dependencies`; the order names nodes of the graph only
abbrev pub dependencies_at : String → Graph → List String
dependencies_at name g = elim (lookup name g.nodes) [ none ↦ [] | some n ↦ n.dependencies ]

abbrev pub above : Option ℕ → ℕ → ℕ
above none most = most
above (some level) most = if leb most level then suc level else most

-- the inner loop of `calculateDependencyLevels`
abbrev pub level_above : List (String × ℕ) → List String → ℕ → ℕ
level_above levels [] most = most
level_above levels (dep ∷ deps) most = level_above levels deps (above (lookup dep levels) most)

abbrev pub levels_from : Graph → List String → List (String × ℕ) → List (String × ℕ)
levels_from g [] levels = levels
levels_from g (name ∷ names) levels =
    levels_from g names (insert name (level_above levels (dependencies_at name g) 0) levels)

-- `calculateDependencyLevels`
unfoldable pub calculate_dependency_levels : Graph → List String → List (String × ℕ)
calculate_dependency_levels g order = levels_from g order []

-- `levelGroups[level]`
abbrev pub group : ℕ → List (String × ℕ) → List String
group level [] = []
group level ((name, l) ∷ levels) =
    let rest = group level levels in if l == level then name ∷ rest else rest

abbrev pub max_level : List (String × ℕ) → ℕ → ℕ
max_level [] most = most
max_level ((name, l) ∷ levels) most = max_level levels (if ltb most l then l else most)

-- `ExecutionPhase`
pub record Phase : Type 0 where
  pub level : ℕ
  pub checks : List String

abbrev pub phases_from : ℕ → ℕ → List (String × ℕ) → List Phase
phases_from zero level levels = []
phases_from (suc n) level levels =
    record { level = level; checks = group level levels } ∷ phases_from n (suc level) levels

-- `calculateMaxParallelism`
abbrev pub max_parallelism : List Phase → ℕ → ℕ
max_parallelism [] most = most
max_parallelism (p ∷ ps) most =
    max_parallelism ps (if ltb most (length p.checks) then length p.checks else most)

-- `OptimizedExecution`
pub record Execution : Type 0 where
  pub sequential_order : List String
  pub parallel_phases : List Phase
  pub max_parallel : ℕ
  pub total_phases : ℕ

abbrev pub optimized : List String → List (String × ℕ) → Execution
optimized order levels =
    let phases = phases_from (suc (max_level levels 0)) 0 levels in
    record {
      sequential_order = order;
      parallel_phases = phases;
      max_parallel = max_parallelism phases 0;
      total_phases = length phases;
    }

abbrev pub sorted : Graph → Reply (List String) → Reply Execution
sorted g (err e) = err e
sorted g (ok order) = ok (optimized order (calculate_dependency_levels g order))

abbrev pub built : Reply Graph → Reply Execution
built (err e) = err e
built (ok g) = sorted g (topological_sort g)

-- `OptimizeExecutionOrder`
unfoldable pub optimize_execution_order : List HealthCheckSpec → Reply Execution
unfolding calculate_dependency_levels build_dependency_graph extract_dependencies
optimize_execution_order checks = built (build_dependency_graph extract_dependencies checks)

-- the loop of `ValidateDependencies` over what a check depends on; `names` are those of the checks
abbrev pub warnings_of : List String → String → List String → List Message
warnings_of names check [] = []
warnings_of names check (dep ∷ deps) =
    (if member dep names
      then []
      else with_texts "Health check '%s' depends on non-existent check '%s'" (check ∷ dep ∷ [])
        ∷ [])
    ++ (if str_eq dep check
        then with_text "Health check '%s' cannot depend on itself" check ∷ []
        else [])
    ++ warnings_of names check deps

abbrev pub names_of : List HealthCheckSpec → List String
names_of [] = []
names_of (c ∷ cs) = c.name ∷ names_of cs

abbrev pub warnings_from :
    (HealthCheckSpec → List String) → List String → List HealthCheckSpec → List Message
warnings_from extract names [] = []
warnings_from extract names (c ∷ cs) =
    warnings_of names c.name (extract c) ++ warnings_from extract names cs

-- `ValidateDependencies`
unfoldable pub validate_dependencies : List HealthCheckSpec → List Message
unfolding extract_dependencies
validate_dependencies checks = warnings_from extract_dependencies (names_of checks) checks

-- `countTotalDependencies`
unfoldable pub count_total_dependencies : List (String × Node) → ℕ
count_total_dependencies [] = 0
count_total_dependencies ((name, node) ∷ nodes) =
    length node.dependencies + count_total_dependencies nodes
