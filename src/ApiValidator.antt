-- ===== src/ApiValidator.antt =====
-- The rule of internal/api/validator.go for health checks: `validateHealthChecks`, and the rules of
-- the kinds of check that it calls. All its errors are of the level "error".
pub mod Verdict
use roost_keeper.Prelude.{
  ◌&&◌, ◌||◌, ◌∷◌, ◌++◌, if◌then◌else◌, ℕ, ℤ, String, List, Option, Bool, suc, pos, true, false,
  not, none, some, [], str_eq, ltb_ℤ, member,
}
use roost_keeper.Roost.{Message, with_count}

-- `HealthCheckSpec`, as far as the rule reads it: for HTTP the URL and the method, for TCP and gRPC
-- the host and the port, for Prometheus the query and the threshold
pub record HealthCheck : Type 0 where
  pub name : String
  pub type_ : String
  pub http : Option (String × String)
  pub tcp : Option (String × ℤ)
  pub grpc : Option (String × ℤ)
  pub prometheus : Option (String × String)
  pub has_kubernetes : Bool
  pub failure_threshold : ℤ
  pub weight : ℤ

-- `ValidationError`
pub record ValidationError : Type 0 where
  pub field : Message
  pub message : String
  pub code : String

abbrev pub error_if : Bool → String → ℕ → String → String → List ValidationError
error_if true field i message code =
    record { field = with_count field (pos i); message = message; code = code } ∷ []
error_if false field i message code = []

abbrev pub methods : List String
methods = "GET" ∷ "POST" ∷ "PUT" ∷ "HEAD" ∷ []

-- `validateHTTPHealthCheck`
unfoldable pub validate_http : ℕ → Option (String × String) → List ValidationError
validate_http i none =
    error_if true "spec.healthChecks[%d].http" i
      "HTTP configuration is required for HTTP health checks" "HTTP_CONFIG_MISSING"
validate_http i (some (url, method)) =
    error_if (str_eq url "") "spec.healthChecks[%d].http.url" i "HTTP URL is required"
      "HTTP_URL_MISSING"
    ++ error_if (not (str_eq method "") && not (member method methods))
        "spec.healthChecks[%d].http.method" i "HTTP method must be one of: GET, POST, PUT, HEAD"
        "HTTP_METHOD_INVALID"

abbrev pub is_port : ℤ → Bool
is_port port = not (ltb_ℤ port (pos 1) || ltb_ℤ (pos 65535) port)

-- `validateTCPHealthCheck`
unfoldable pub validate_tcp : ℕ → Option (String × ℤ) → List ValidationError
validate_tcp i none =
    error_if true "spec.healthChecks[%d].tcp" i
      "TCP configuration is required for TCP health checks" "TCP_CONFIG_MISSING"
validate_tcp i (some (host, port)) =
    error_if (str_eq host "") "spec.healthChecks[%d].tcp.host" i "TCP host is required"
      "TCP_HOST_MISSING"
    ++ error_if (not (is_port port)) "spec.healthChecks[%d].tcp.port" i
        "TCP port must be between 1 and 65535" "TCP_PORT_INVALID"

-- `validateGRPCHealthCheck`
unfoldable pub validate_grpc : ℕ → Option (String × ℤ) → List ValidationError
validate_grpc i none =
    error_if true "spec.healthChecks[%d].grpc" i
      "gRPC configuration is required for gRPC health checks" "GRPC_CONFIG_MISSING"
validate_grpc i (some (host, port)) =
    error_if (str_eq host "") "spec.healthChecks[%d].grpc.host" i "gRPC host is required"
      "GRPC_HOST_MISSING"
    ++ error_if (not (is_port port)) "spec.healthChecks[%d].grpc.port" i
        "gRPC port must be between 1 and 65535" "GRPC_PORT_INVALID"

-- `validatePrometheusHealthCheck`
unfoldable pub validate_prometheus : ℕ → Option (String × String) → List ValidationError
validate_prometheus i none =
    error_if true "spec.healthChecks[%d].prometheus" i
      "Prometheus configuration is required for Prometheus health checks"
      "PROMETHEUS_CONFIG_MISSING"
validate_prometheus i (some (query, threshold)) =
    error_if (str_eq query "") "spec.healthChecks[%d].prometheus.query" i
      "Prometheus query is required" "PROMETHEUS_QUERY_MISSING"
    ++ error_if (str_eq threshold "") "spec.healthChecks[%d].prometheus.threshold" i
        "Prometheus threshold is required" "PROMETHEUS_THRESHOLD_MISSING"

-- the switch over the type; it has no case for "udp"
unfoldable pub validate_type : ℕ → HealthCheck → List ValidationError
unfolding validate_http validate_tcp validate_grpc validate_prometheus
validate_type i c =
    if str_eq c.type_ "http"
    then validate_http i c.http
    else if str_eq c.type_ "tcp"
    then validate_tcp i c.tcp
    else if str_eq c.type_ "grpc"
    then validate_grpc i c.grpc
    else if str_eq c.type_ "prometheus"
    then validate_prometheus i c.prometheus
    else if str_eq c.type_ "kubernetes"
    then error_if (not c.has_kubernetes) "spec.healthChecks[%d].kubernetes" i
        "Kubernetes configuration is required for Kubernetes health checks"
        "KUBERNETES_CONFIG_MISSING"
    else error_if true "spec.healthChecks[%d].type" i
        "Invalid health check type. Must be one of: http, tcp, udp, grpc, prometheus, kubernetes"
        "HEALTH_CHECK_TYPE_INVALID"

-- the body of the loop
unfoldable pub validate_one : ℕ → HealthCheck → List ValidationError
unfolding validate_type
validate_one i c =
    error_if (str_eq c.name "") "spec.healthChecks[%d].name" i "Health check name is required"
      "HEALTH_CHECK_NAME_MISSING"
    ++ error_if (str_eq c.type_ "") "spec.healthChecks[%d].type" i "Health check type is required"
        "HEALTH_CHECK_TYPE_MISSING"
    ++ validate_type i c
    ++ error_if (ltb_ℤ c.failure_threshold (pos 1)) "spec.healthChecks[%d].failureThreshold" i
        "Failure threshold must be at least 1" "FAILURE_THRESHOLD_INVALID"
    ++ error_if (ltb_ℤ c.weight (pos 0) || ltb_ℤ (pos 100) c.weight) "spec.healthChecks[%d].weight"
        i "Weight must be between 0 and 100" "WEIGHT_INVALID"

unfoldable pub validate_from : ℕ → List HealthCheck → List ValidationError
unfolding validate_one
validate_from i [] = []
validate_from i (c ∷ cs) = validate_one i c ++ validate_from (suc i) cs

-- `validateHealthChecks`
unfoldable pub validate_health_checks : List HealthCheck → List ValidationError
unfolding validate_from
validate_health_checks checks = validate_from 0 checks
