-- ===== src/Tests/Validations.antt =====
-- The rule of internal/api/validator.go for health checks on concrete checks.
use roost_keeper.Prelude.{◌≡◌, ◌∷◌, pos, false, none, some, [], refl}
use roost_keeper.Roost.{with_count}
use roost_keeper.ApiValidator.{HealthCheck, validate_health_checks}
use roost_keeper.ApiValidator.Verdict.{no_errors, all_fit, validate_health_checks-fit}

abbrev web : HealthCheck
web = record {
  name = "web";
  type_ = "http";
  http = some ("http://web", "GET");
  tcp = none;
  grpc = none;
  prometheus = none;
  has_kubernetes = false;
  failure_threshold = pos 3;
  weight = pos 50;
}

validate_health_checks-fit_example :
    no_errors (validate_health_checks (web ∷ [])) ≡ all_fit (web ∷ [])
validate_health_checks-fit_example = validate_health_checks-fit (web ∷ [])

accepts_web : validate_health_checks (web ∷ []) ≡ []
unfolding validate_health_checks
accepts_web = refl

-- the message names the type that it refuses
refuses_udp :
    validate_health_checks (web ∷ record web { type_ = "udp" } ∷ [])
    ≡ record {
      field = with_count "spec.healthChecks[%d].type" (pos 1);
      message =
          "Invalid health check type. Must be one of: http, tcp, udp, grpc, prometheus, kubernetes";
      code = "HEALTH_CHECK_TYPE_INVALID";
    }
      ∷ []
unfolding validate_health_checks
refuses_udp = refl
