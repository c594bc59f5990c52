-- ===== src/Tests/Engines.antt =====
-- The engine of internal/health/composite/engine.go on concrete checks.
use roost_keeper.Prelude.{
  ◌≡◌, ◌≢◌, ◌↔◌, ◌∷◌, ◌+ℤ◌, ℕ, String, pos, true, false, none, some, [], refl, arith, lookup,
  insert, keys_where,
}
use roost_keeper.Roost.{text, HealthCheckSpec, ok, with_counts}
use roost_keeper.Health.{HealthResult}
use roost_keeper.Breaker.{
  Breaker, opened, closed, is_open, new, get_status, is_open_among, is_success, record_result,
  reset_failure_count,
}
use roost_keeper.Dependencies.{
  extract_dependencies, resolve_with, build_dependency_graph, add_dependencies, add_edges,
  detect_cycles, detect_from, add_nodes, has_cycle_dfs, any_cycle, topological_sort, sort_loop,
  release_all,
}
use roost_keeper.HealthCache.{set, get, get_info}
use roost_keeper.Engine.{
  Engine, Checks, errored, placeholders, default_config, get_or_create, run_check,
  execute_health_check, find_health_check_by_name, get_cache_ttl,
}
use roost_keeper.Engine.Evaluation.{
  CompositeHealthResult, evaluate_composite_health, evaluate_composite_result, evaluate_each,
  evaluate_one, evaluate_simple_logic, should_stop_on_failure,
}
use roost_keeper.Engine.Invariant.{IsValid}
use roost_keeper.Engine.Kept.{evaluate_composite_health-IsValid}
use roost_keeper.Engine.Verdict.{AllHealthy, evaluate_composite_health-overall_healthy}

abbrev web : HealthCheckSpec
web = record {
  name = "web";
  type_ = "http";
  http = true;
  tcp = false;
  udp = false;
  grpc = false;
  prometheus = false;
  kubernetes = false;
  interval = pos 0;
  weight = pos 0;
}

-- a TCP check without its specification
abbrev bare : HealthCheckSpec
bare = record web { type_ = "tcp" }

-- an HTTP server that refuses
abbrev refusing : Checks
refusing = record placeholders { http_check = λ check. errored none (text "refused") }

abbrev empty_engine : Engine
empty_engine = record { circuit_breakers = []; cache = record { entries = [] } }

empty_engine-IsValid : IsValid empty_engine
unfolding lookup
empty_engine-IsValid = record {
  breakers = λ name cb h. absurd (ground arith);
  cached_once = record { distinct = tt };
  cached_healthy = λ name entry h. absurd (ground arith);
}

abbrev shut : Breaker
shut = record (new 0 (default_config "web")) {
  state = opened;
  failure_count = pos 5;
  state_changed = 100;
}

abbrev shut_engine : Engine
shut_engine = record empty_engine { circuit_breakers = ("web", shut) ∷ [] }

abbrev times : String → ℕ × ℕ
times name = (10, 20)

evaluate_composite_health-IsValid_example :
    IsValid
      (evaluate_composite_health refusing extract_dependencies times (web ∷ []) empty_engine).0
evaluate_composite_health-IsValid_example =
    evaluate_composite_health-IsValid refusing extract_dependencies times (web ∷ []) empty_engine
      empty_engine-IsValid

-- the engine that has cached a healthy result
abbrev used_engine : Engine
used_engine = (execute_health_check placeholders 10 20 web empty_engine).0

abbrev all_well : HealthResult
all_well = record {
  healthy = true;
  message = text "HTTP check placeholder";
  response_time = pos 10;
  check_time = 20;
  failure_count = pos 0;
  last_error = text "";
}

abbrev verdict : CompositeHealthResult
verdict = record {
  overall_healthy = true;
  message = with_counts "Health: %d/%d checks passing" (pos 1) (pos 1);
  individual_results = ("web", all_well) ∷ [];
  execution_order = "web" ∷ [];
  circuit_breaker_info =
      (
        "web",
        record {
          state = closed;
          failure_count = pos 0;
          success_count = pos 0;
          last_failure = none;
          state_changed = 10;
          next_attempt = none;
        },
      )
      ∷ [];
  cache_info =
      (
        "web",
        record { cached = true; cache_time = some 20; ttl = pos 15_000_000_000; hit_count = pos 0 },
      )
      ∷ [];
}

verdict_reached :
    (evaluate_composite_health placeholders extract_dependencies times (web ∷ []) empty_engine).1
    ≡ ok verdict
unfolding evaluate_composite_health resolve_with build_dependency_graph add_dependencies add_edges
    extract_dependencies detect_cycles detect_from add_nodes insert has_cycle_dfs any_cycle lookup
    topological_sort sort_loop keys_where release_all get_status is_open is_open_among is_success
    new record_result reset_failure_count evaluate_composite_result evaluate_each evaluate_one
    evaluate_simple_logic should_stop_on_failure execute_health_check find_health_check_by_name
    get_cache_ttl get_or_create run_check get get_info set placeholders ◌+ℤ◌
verdict_reached = refl

evaluate_composite_health-overall_healthy_example :
    (verdict.overall_healthy ≡ true)
    ↔ ((verdict.individual_results ≢ []) × AllHealthy verdict.individual_results)
evaluate_composite_health-overall_healthy_example =
    evaluate_composite_health-overall_healthy placeholders extract_dependencies times web []
      empty_engine verdict verdict_reached
