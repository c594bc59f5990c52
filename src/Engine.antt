-- ===== src/Engine.antt =====
-- The composite health engine: internal/health/composite/engine.go. Its state is a circuit breaker
-- for each check, and the cache. Scores, anomalies, the audit trail and metrics are left out.
pub mod Evaluation
pub mod Invariant
pub mod Kept
pub mod Verdict
pub mod Guards
use roost_keeper.Prelude.{
  ◌/◌, ◌∷◌, if◌then◌else◌, ℕ, ℤ, String, List, Option, Bool, pos, true, false, none, some, [],
  str_eq, pos_part, ltb_ℤ, lookup, insert,
}
use mathlib.Core.Option
use roost_keeper.Roost.{text, about, with_text, HealthCheckSpec, Reply, ok, err}
use roost_keeper.Health.{HealthResult, Error, since}
use roost_keeper.Breaker.{Config, Breaker, new, is_open, record_result}
use roost_keeper.HealthCache.{Cache, get, set}

-- what a check returns: a result, or an error and perhaps a result. A check that returns neither
-- would make the engine panic, and there is none.
pub data Checked : Type 0 where
  answered : HealthResult → Checked
  errored : Option HealthResult → Error → Checked

-- the six kinds of check
pub record Checks : Type 0 where
  pub http_check : HealthCheckSpec → Checked
  pub tcp_check : HealthCheckSpec → Checked
  pub udp_check : HealthCheckSpec → Checked
  pub grpc_check : HealthCheckSpec → Checked
  pub prometheus_check : HealthCheckSpec → Checked
  pub kubernetes_check : HealthCheckSpec → Checked

abbrev placeholder : String → HealthCheckSpec → Checked
placeholder message check = answered (record {
  healthy = true;
  message = text message;
  response_time = pos 0;
  check_time = 0;
  failure_count = pos 0;
  last_error = text "";
})

-- `executeHTTPCheck` and the other five, as they are: each answers that all is well
unfoldable pub placeholders : Checks
placeholders = record {
  http_check = placeholder "HTTP check placeholder";
  tcp_check = placeholder "TCP check placeholder";
  udp_check = placeholder "UDP check placeholder";
  grpc_check = placeholder "gRPC check placeholder";
  prometheus_check = placeholder "Prometheus check placeholder";
  kubernetes_check = placeholder "Kubernetes check placeholder";
}

-- `CompositeEngine`
pub record Engine : Type 0 where
  pub circuit_breakers : List (String × Breaker)
  pub cache : Cache

-- the configuration of every breaker of the engine
abbrev pub default_config : String → Config
default_config name = record {
  name = name;
  failure_threshold = pos 5;
  success_threshold = pos 3;
  timeout = pos 60_000_000_000;
  half_open_timeout = pos 30_000_000_000;
}

-- `getOrCreateCircuitBreaker`
unfoldable pub get_or_create : ℕ → String → List (String × Breaker) → Breaker
get_or_create now name breakers = elim (lookup name breakers) [
  | none ↦ new now (default_config name)
  | some cb ↦ cb
]

-- `getCacheTTL`
unfoldable pub get_cache_ttl : HealthCheckSpec → ℤ
get_cache_ttl check =
    if ltb_ℤ (pos 0) check.interval then pos (pos_part check.interval / 2) else pos 15_000_000_000

abbrev with_spec : Bool → String → Checked → Reply Checked
with_spec true message c = ok c
with_spec false message c = err (text message)

-- the `switch` of `executeHealthCheck` on the type
unfoldable pub run_check : Checks → HealthCheckSpec → Reply Checked
run_check checks check =
    if str_eq check.type_ "http"
    then with_spec check.http "HTTP health check spec is required" (checks.http_check check)
    else if str_eq check.type_ "tcp"
    then with_spec check.tcp "TCP health check spec is required" (checks.tcp_check check)
    else if str_eq check.type_ "udp"
    then with_spec check.udp "UDP health check spec is required" (checks.udp_check check)
    else if str_eq check.type_ "grpc"
    then with_spec check.grpc "gRPC health check spec is required" (checks.grpc_check check)
    else if str_eq check.type_ "prometheus"
    then with_spec check.prometheus "Prometheus health check spec is required"
        (checks.prometheus_check check)
    else if str_eq check.type_ "kubernetes"
    then with_spec check.kubernetes "Kubernetes health check spec is required"
        (checks.kubernetes_check check)
    else err (with_text "unsupported health check type: %s" check.type_)

-- the result gets its times
abbrev timed : ℕ → ℕ → HealthResult → HealthResult
timed start finish r = record r { response_time = since finish start; check_time = finish }

abbrev timed_check : ℕ → ℕ → Checked → Checked
timed_check start finish (answered r) = answered (timed start finish r)
timed_check start finish (errored r e) = errored (Option.map (timed start finish) r) e

abbrev recorded : ℕ → Checked → Breaker → Breaker
recorded finish (answered r) cb = record_result finish (some r) none cb
recorded finish (errored r e) cb = record_result finish r (some e) cb

abbrev cached : ℕ → HealthCheckSpec → Checked → Cache → Cache
cached finish check (answered r) c =
    if r.healthy then set finish check.name r (get_cache_ttl check) c else c
cached finish check (errored r e) c = c

abbrev set_breaker : String → Breaker → Engine → Engine
set_breaker name cb e = record e { circuit_breakers = insert name cb e.circuit_breakers }

-- from the `switch` to the end of `executeHealthCheck`; a check that is not run leaves the breaker
-- and the cache alone
abbrev executed : ℕ → ℕ → HealthCheckSpec → Breaker → Engine → Reply Checked → Engine × Checked
executed start finish check cb e (err m) = (e, errored none m)
executed start finish check cb e (ok c) =
    let c' = timed_check start finish c in
    let e' = set_breaker check.name (recorded finish c' cb) e in
    (record e' { cache = cached finish check c' e'.cache }, c')

abbrev unless_cached :
    Checks → ℕ → ℕ → HealthCheckSpec → Breaker → Engine → Option HealthResult → Engine × Checked
unless_cached checks start finish check cb e (some r) = (e, answered r)
unless_cached checks start finish check cb e none =
    executed start finish check cb e (run_check checks check)

-- `executeHealthCheck`, which begins at the instant `start`; a check that is run ends at `finish`
unfoldable pub execute_health_check : Checks → ℕ → ℕ → HealthCheckSpec → Engine → Engine × Checked
execute_health_check checks start finish check e =
    let (cb, opened) = is_open start (get_or_create start check.name e.circuit_breakers) in
    let e' = set_breaker check.name cb e in
    let got = get start check.name e'.cache in
    if opened
    then (
      e',
      answered (record {
        healthy = false;
        message = text "Circuit breaker open";
        response_time = pos 0;
        check_time = start;
        failure_count = pos 0;
        last_error = text "";
      }),
    )
    else unless_cached checks start finish check cb (record e' { cache = got.cache }) got.answer

-- `findHealthCheckByName`
unfoldable pub find_health_check_by_name : String → List HealthCheckSpec → Option HealthCheckSpec
find_health_check_by_name name [] = none
find_health_check_by_name name (c ∷ cs) =
    let rest = find_health_check_by_name name cs in if str_eq c.name name then some c else rest

-- the result that stands for an error
abbrev result_of : ℕ → Checked → HealthResult
result_of now (answered r) = r
result_of now (errored r e) = record {
  healthy = false;
  message = about "Execution failed: %v" e;
  response_time = pos 0;
  check_time = now;
  failure_count = pos 1;
  last_error = e;
}
