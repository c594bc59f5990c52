-- ===== src/Engine/Evaluation.antt =====
-- `EvaluateCompositeHealth` of internal/health/composite/engine.go, over the checks in their order.
use roost_keeper.Prelude.{
  ◌+◌, ◌≡◌, ◌⊎◌, ◌&&◌, ◌∷◌, if◌then◌else◌, ℕ, String, List, Bool, pos, true, false, not, none, some,
  [], refl, inl, inr, arith, Option-cases, length, lookup, insert,
}
use roost_keeper.Roost.{Message, text, about, with_counts, HealthCheckSpec, Reply, ok, err}
use roost_keeper.Health.{HealthResult}
use roost_keeper.Breaker.{Status, get_status}
use roost_keeper.HealthCache.{CacheInfo, get_info}
use roost_keeper.Dependencies.{resolve_with}
use roost_keeper.Engine.{Checks, Engine, execute_health_check, find_health_check_by_name, result_of}

-- the engine, and the maps of the `CompositeHealthResult` that the loop fills
pub record Evaluation : Type 0 where
  pub engine : Engine
  pub individual_results : List (String × HealthResult)
  pub circuit_breaker_info : List (String × Status)
  pub cache_info : List (String × CacheInfo)

-- `CompositeHealthResult`, without score, anomalies and audit trail
pub record CompositeHealthResult : Type 0 where
  pub overall_healthy : Bool
  pub message : Message
  pub individual_results : List (String × HealthResult)
  pub execution_order : List String
  pub circuit_breaker_info : List (String × Status)
  pub cache_info : List (String × CacheInfo)

-- `shouldStopOnFailure`
unfoldable pub should_stop_on_failure : HealthCheckSpec → Bool
should_stop_on_failure check = false

abbrev info_of_breaker : String → Engine → List (String × Status) → List (String × Status)
info_of_breaker name e infos = elim (lookup name e.circuit_breakers) [
  | none ↦ infos
  | some cb ↦ insert name (get_status cb) infos
]

-- the body of the loop for a check that is found
unfoldable pub evaluate_one :
    Checks → ℕ × ℕ → HealthCheckSpec → Evaluation → HealthResult × Evaluation
evaluate_one checks (start, finish) check v =
    let (e, c) = execute_health_check checks start finish check v.engine in
    let r = result_of finish c in
    (
      r,
      record {
        engine = e;
        individual_results = insert check.name r v.individual_results;
        circuit_breaker_info = info_of_breaker check.name e v.circuit_breaker_info;
        cache_info = insert check.name (get_info check.name e.cache) v.cache_info;
      },
    )

-- the loop over the execution order; `times` has the instants before and after each check
unfoldable pub evaluate_each :
    Checks → (String → ℕ × ℕ) → List HealthCheckSpec → List String → Evaluation → Evaluation
evaluate_each checks times specs [] v = v
evaluate_each checks times specs (name ∷ names) v = elim (find_health_check_by_name name specs) [
  | none ↦ evaluate_each checks times specs names v
  | some check ↦
      let (r, v') = evaluate_one checks (times name) check v in
      let rest = evaluate_each checks times specs names v' in
      if not r.healthy && should_stop_on_failure check then v' else rest
]

go_on :
    (r : HealthResult) (check : HealthCheckSpec) (v v' : Evaluation)
    → (if not r.healthy && should_stop_on_failure check then v' else v) ≡ v
unfolding should_stop_on_failure
go_on r check v v' = ground arith

-- one round of the loop, which never stops early
pub evaluate_each_step :
    (checks : Checks) (times : String → ℕ × ℕ) (specs : List HealthCheckSpec) (name : String)
    (names : List String) (v : Evaluation)
    → ((find_health_check_by_name name specs ≡ none)
        × (evaluate_each checks times specs (name ∷ names) v
            ≡ evaluate_each checks times specs names v))
      ⊎ ((check : HealthCheckSpec) × (find_health_check_by_name name specs ≡ some check)
          × (evaluate_each checks times specs (name ∷ names) v
              ≡ evaluate_each checks times specs names
                  (evaluate_one checks (times name) check v).1))
unfolding evaluate_each
evaluate_each_step checks times specs name names v =
    elim (Option-cases (find_health_check_by_name name specs)) [
      | inl missing ↦ inl (missing, rw (missing, evaluate_each) refl)
      | inr (check, there) ↦ inr (
        check,
        there,
        rw (there, evaluate_each) (go_on (evaluate_one checks (times name) check v).0 check _ _),
      )
    ]

-- the loops of `evaluateSimpleLogic`
abbrev pub any_failed : List HealthCheckSpec → List (String × HealthResult) → Bool
any_failed [] results = false
any_failed (c ∷ cs) results = elim (lookup c.name results) [
  | none ↦ any_failed cs results
  | some r ↦ if not r.healthy then true else any_failed cs results
]

abbrev pub any_healthy : List (String × HealthResult) → Bool
any_healthy [] = false
any_healthy ((name, r) ∷ rest) = if r.healthy then true else any_healthy rest

-- `evaluateSimpleLogic`
unfoldable pub evaluate_simple_logic : List HealthCheckSpec → List (String × HealthResult) → Bool
evaluate_simple_logic specs results =
    if any_failed specs results then false else any_healthy results

abbrev healthy_count : List (String × HealthResult) → ℕ
healthy_count [] = 0
healthy_count ((name, r) ∷ rest) = (if r.healthy then 1 else 0) + healthy_count rest

-- `evaluateCompositeResult`: the verdict and the message
unfoldable pub evaluate_composite_result :
    List HealthCheckSpec → List (String × HealthResult) → Bool × Message
evaluate_composite_result specs [] = (false, text "No health checks executed")
evaluate_composite_result specs (r ∷ rs) = (
  evaluate_simple_logic specs (r ∷ rs),
  with_counts "Health: %d/%d checks passing" (pos (healthy_count (r ∷ rs))) (pos (length (r ∷ rs))),
)

abbrev pub no_results : Engine → Evaluation
no_results e = record {
  engine = e;
  individual_results = [];
  circuit_breaker_info = [];
  cache_info = [];
}

abbrev pub composite :
    List HealthCheckSpec → List String → Evaluation → Engine × Reply CompositeHealthResult
composite specs order v =
    let (healthy, message) = evaluate_composite_result specs v.individual_results in
    (
      v.engine,
      ok (record {
        overall_healthy = healthy;
        message = message;
        individual_results = v.individual_results;
        execution_order = order;
        circuit_breaker_info = v.circuit_breaker_info;
        cache_info = v.cache_info;
      }),
    )

abbrev pub evaluated :
    Checks
    → (String → ℕ × ℕ)
    → List HealthCheckSpec
    → Engine
    → Reply (List String)
    → Engine × Reply CompositeHealthResult
evaluated checks times specs e (err m) = (e, err (about "failed to resolve dependency order: %w" m))
evaluated checks times specs e (ok order) =
    composite specs order (evaluate_each checks times specs order (no_results e))

-- `EvaluateCompositeHealth`, over the health checks of the roost
unfoldable pub evaluate_composite_health :
    Checks
    → (HealthCheckSpec → List String)
    → (String → ℕ × ℕ)
    → List HealthCheckSpec
    → Engine
    → Engine × Reply CompositeHealthResult
evaluate_composite_health checks extract times [] e = (
  e,
  ok (record {
    overall_healthy = true;
    message = text "No health checks defined, considering healthy";
    individual_results = [];
    execution_order = [];
    circuit_breaker_info = [];
    cache_info = [];
  }),
)
evaluate_composite_health checks extract times (c ∷ cs) e =
    evaluated checks times (c ∷ cs) e (resolve_with extract (c ∷ cs))
