-- ===== src/Engine/Guards.antt =====
-- What the circuit breaker and the cache spare in `executeHealthCheck` of
-- internal/health/composite/engine.go.
use roost_keeper.Prelude.{
  ◌≡◌, ◌≤ℤ◌, ℕ, String, List, pos, true, false, some, refl, inl, inr, arith, eq_iff, Option-cases,
  lookup, lookup-insert,
}
use roost_keeper.Roost.{Message, text, HealthCheckSpec, err}
use roost_keeper.Health.{HealthResult, since}
use roost_keeper.Breaker.{Breaker, opened, is_open}
use roost_keeper.Breaker.Polling.{is_open_lem}
use roost_keeper.HealthCache.{get}
use roost_keeper.HealthCache.Reads.{answer_at}
use roost_keeper.Engine.{Engine, Checks, answered, get_or_create, run_check, execute_health_check}
use roost_keeper.Engine.Invariant.{IsValid}
use roost_keeper.Engine.Kept.{asked}

abbrev pub breaker_open : ℕ → HealthResult
breaker_open start = record {
  healthy = false;
  message = text "Circuit breaker open";
  response_time = pos 0;
  check_time = start;
  failure_count = pos 0;
  last_error = text "";
}

pub get_or_create-there :
    (now : ℕ) (name : String) (breakers : List (String × Breaker)) (cb : Breaker)
    → lookup name breakers ≡ some cb
    → get_or_create now name breakers ≡ cb
unfolding get_or_create
get_or_create-there now name breakers cb h = ground arith

still_open :
    (now : ℕ) (cb : Breaker)
    → cb.state ≡ opened
    → since now cb.state_changed ≤ℤ cb.config.timeout
    → is_open now cb ≡ (cb, true)
still_open now cb o t = ground (arith, is_open_lem now cb)

-- what the cache answers is healthy
answer_cached :
    (now : ℕ) (name : String) (e : Engine) (r : HealthResult)
    → IsValid e
    → answer_at now name e.cache ≡ some r
    → r.healthy ≡ true
unfolding get
answer_cached now name e r v a = elim (Option-cases (lookup name e.cache.entries)) [
  | inl missing ↦ absurd (ground arith)
  | inr (entry, there) ↦ ground (arith, v.cached_healthy name entry there)
]

-- While the timeout of an open breaker runs, its check is neither run nor looked up: the answer is
-- "Circuit breaker open", the cache stays, and so does the breaker.
pub execute_health_check-opened :
    (checks : Checks) (start finish : ℕ) (check : HealthCheckSpec) (e : Engine) (cb : Breaker)
    → lookup check.name e.circuit_breakers ≡ some cb
    → cb.state ≡ opened
    → since start cb.state_changed ≤ℤ cb.config.timeout
    → let (e', answer) = execute_health_check checks start finish check e in
      (answer ≡ answered (breaker_open start))
      × (e'.cache ≡ e.cache)
      × (lookup check.name e'.circuit_breakers ≡ some cb)
unfolding execute_health_check
execute_health_check-opened checks start finish check e cb there o t =
    let known = get_or_create-there start check.name e.circuit_breakers cb there in
    let shut = still_open start cb o t in
    rw (known, shut)
      (
        refl,
        refl,
        ground (
          arith,
          eq_iff check.name check.name,
          lookup-insert check.name check.name cb e.circuit_breakers,
        ),
      )

-- A check that cannot be run, for a missing specification or an unknown type, is not recorded: the
-- breakers are as they were after the check's breaker was asked.
pub execute_health_check-refused :
    (checks : Checks) (start finish : ℕ) (check : HealthCheckSpec) (e : Engine) (m : Message)
    → run_check checks check ≡ err m
    → (execute_health_check checks start finish check e).0.circuit_breakers
      ≡ (asked start check.name e).circuit_breakers
unfolding execute_health_check
execute_health_check-refused checks start finish check e m r = ground arith

-- On a valid engine whose breaker lets the check through, a result that the cache still holds is
-- the answer, it is healthy, and nothing is recorded on the breaker.
pub execute_health_check-cached :
    (checks : Checks) (start finish : ℕ) (check : HealthCheckSpec) (e : Engine) (r : HealthResult)
    → IsValid e
    → (is_open start (get_or_create start check.name e.circuit_breakers)).1 ≡ false
    → answer_at start check.name e.cache ≡ some r
    → let (e', answer) = execute_health_check checks start finish check e in
      (answer ≡ answered r)
      × (r.healthy ≡ true)
      × (e'.circuit_breakers ≡ (asked start check.name e).circuit_breakers)
unfolding execute_health_check
execute_health_check-cached checks start finish check e r v o a =
    ground (arith, answer_cached start check.name e r v a)
