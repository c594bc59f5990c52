-- ===== src/Tests/Checks.antt =====
-- The circuit breaker, the result cache and the dependency graph of internal/health/composite on
-- concrete values.
use roost_keeper.Prelude.{
  ◌≡◌, ◌⊎◌, ◌∷◌, if◌then◌else◌, String, List, Option, pos, true, false, none, some, [], refl, arith,
  str_eq, length, inc, lookup, insert, keys_where, keys,
}
use roost_keeper.Health.{HealthResult, Error}
use roost_keeper.Roost.{HealthCheckSpec, ok, err, text}
use roost_keeper.Breaker.{
  Config, Breaker, new, opened, half_open, record_result, is_success, reset_failure_count,
  increment_failure_count, transition_to_open,
}
use roost_keeper.Breaker.Invariant.{
  InRange, IsValid, record_action, reset_action, act_all, act_all-new-IsValid,
}
use roost_keeper.Breaker.Spec.{is_failing, reaches}
use roost_keeper.Breaker.Refinement.{view, Outcome, record_all, record_all-opened}
use roost_keeper.HealthCache.{new as new_cache, Cache, set, perform_cleanup}
use roost_keeper.HealthCache.Invariant.{
  IsValid as IsValidCache, run-new-IsValid, run, Call, set_call,
}
use roost_keeper.HealthCache.Reads.{answer_at, answer_at-perform_cleanup}
use roost_keeper.Dependencies.{
  detect_cycles, detect_from, has_cycle_dfs, any_cycle, sort_loop, release_all, dec, add_edge,
  add_nodes, add_edges, add_dependencies, Graph, build_dependency_graph, topological_sort,
  resolve_execution_order, resolve_with,
}
use roost_keeper.Dependencies.Order.{Topological, left_of}
use roost_keeper.Dependencies.Sort.{Stuck, topological_sort_lem}
use roost_keeper.Dependencies.Resolution.{ListsOnce, resolve_execution_order-ListsOnce}
use roost_keeper.Dependencies.Build.{build_dependency_graph-IsWellFormed}

abbrev config : Config
config = record {
  name = "web";
  failure_threshold = pos 2;
  success_threshold = pos 1;
  timeout = pos 60;
  half_open_timeout = pos 30;
}

config-InRange : InRange config
config-InRange = record { failure_fits = omega arith; success_fits = omega arith }

abbrev good : HealthResult
good = record {
  healthy = true;
  message = text "";
  response_time = pos 0;
  check_time = 0;
  failure_count = pos 0;
  last_error = text "";
}

abbrev failure : Option Error
failure = some (text "refused")

abbrev two_failures : List Outcome
two_failures = (11, some good, none) ∷ (12, none, failure) ∷ (13, none, failure) ∷ []

abbrev tripped : Breaker
tripped = record (new 10 config) { state = opened; failure_count = pos 2; state_changed = 13 }

abbrev trial : Breaker
trial = record tripped { state = half_open; state_changed = 80 }

tripped_test : (record_all two_failures (new 10 config)).state ≡ opened
unfolding record_all record_result new is_success reset_failure_count increment_failure_count
    transition_to_open
tripped_test = refl

record_all-opened_example :
    is_failing (view (record_all two_failures (new 10 config)))
    ≡ reaches 2 0 (true ∷ false ∷ false ∷ [])
unfolding is_success
record_all-opened_example = record_all-opened 10 config two_failures config-InRange

act_all-new-IsValid_example :
    IsValid (act_all (record_action 11 none failure ∷ reset_action 12 ∷ []) (new 10 config))
act_all-new-IsValid_example =
    act_all-new-IsValid (record_action 11 none failure ∷ reset_action 12 ∷ []) 10 config
      config-InRange

abbrev empty : Cache
empty = record { entries = [] }

abbrev bad : HealthResult
bad = record good { healthy = false }

abbrev calls : List Call
calls = set_call 10 "a" good (pos 5) ∷ set_call 12 "b" bad (pos 9) ∷ []

abbrev filled : Cache
filled = set 12 "b" bad (pos 9) (set 10 "a" good (pos 5) empty)

filled-IsValid : IsValidCache filled
unfolding set run new new_cache
filled-IsValid = run-new-IsValid calls

answer_at-perform_cleanup_example :
    answer_at 20 "b" (perform_cleanup 16 filled) ≡ answer_at 20 "b" filled
answer_at-perform_cleanup_example =
    answer_at-perform_cleanup 16 20 "b" filled (omega arith) filled-IsValid

abbrev check_of : String → HealthCheckSpec
check_of name = record {
  name = name;
  type_ = "http";
  http = true;
  tcp = false;
  udp = false;
  grpc = false;
  prometheus = false;
  kubernetes = false;
  interval = pos 0;
  weight = pos 0;
}

-- "api" depends on "db"
abbrev needs_db : HealthCheckSpec → List String
needs_db c = if str_eq c.name "api" then "db" ∷ [] else []

abbrev two_checks : List HealthCheckSpec
two_checks = check_of "api" ∷ check_of "db" ∷ []

abbrev graph : Graph
graph = record {
  nodes =
      ("api", record { name = "api"; dependencies = "db" ∷ []; dependents = []; in_degree = pos 1 })
      ∷ (
        "db",
        record { name = "db"; dependencies = []; dependents = "api" ∷ []; in_degree = pos 0 },
      )
      ∷ [];
  edges = ("api", []) ∷ ("db", "api" ∷ []) ∷ [];
  reverse_edges = ("api", "db" ∷ []) ∷ ("db", []) ∷ [];
}

graph_built : build_dependency_graph needs_db two_checks ≡ ok graph
unfolding build_dependency_graph add_dependencies add_edges lookup add_nodes insert add_edge inc
graph_built = refl

graph_ordered : resolve_with needs_db two_checks ≡ ok ("db" ∷ "api" ∷ [])
unfolding resolve_with build_dependency_graph add_dependencies add_edges lookup add_nodes insert
    detect_cycles detect_from add_edge has_cycle_dfs any_cycle topological_sort sort_loop keys_where
    inc release_all dec
graph_ordered = refl

resolve_execution_order-ListsOnce_example :
    ListsOnce ("api" ∷ "db" ∷ []) (resolve_execution_order two_checks)
resolve_execution_order-ListsOnce_example = resolve_execution_order-ListsOnce two_checks

topological_sort_lem_example :
    (out : List String) × Topological graph (keys graph.nodes) out
    × (((topological_sort graph ≡ ok out) × (length out ≡ 2))
        ⊎ ((topological_sort graph
              ≡ err (text "graph contains cycles, cannot perform topological sort"))
            × Stuck graph (left_of (keys graph.nodes) out)))
topological_sort_lem_example =
    topological_sort_lem graph
      (build_dependency_graph-IsWellFormed needs_db two_checks graph (omega arith) graph_built)
