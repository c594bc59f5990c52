-- ===== src/EventBreaker.antt =====
-- The circuit breaker of the event system: internal/events/circuit_breaker.go. Its counters are
-- `int` values, and a call is executed between the two locked sections.
pub mod Trials
use roost_keeper.Prelude.{
  if◌then◌else◌, ℕ, ℤ, Option, Bool, pos, true, false, none, some, ltb_ℤ, leb_ℤ, inc, max_int64,
}
use roost_keeper.Health.{since}
use roost_keeper.Roost.{Message, text}

-- `CircuitState`
pub data State : Type 0 where
  closed opened half_open : State

-- `CircuitBreakerConfig`, as far as the breaker reads it
pub record Config : Type 0 where
  pub failure_threshold : ℤ
  pub success_threshold : ℤ
  pub recovery_timeout : ℤ
  pub max_half_open_calls : ℤ

-- `SimpleCircuitBreaker`; the instants are zero until the first failure or success
pub record Breaker : Type 0 where
  pub config : Config
  pub state : State
  pub failure_count : ℤ
  pub success_count : ℤ
  pub last_failure_time : ℕ
  pub last_success_time : ℕ
  pub half_open_calls : ℤ

-- `NewCircuitBreaker`
unfoldable pub new : Config → Breaker
new config = record {
  config = config;
  state = closed;
  failure_count = pos 0;
  success_count = pos 0;
  last_failure_time = 0;
  last_success_time = 0;
  half_open_calls = pos 0;
}

-- `Reset`
unfoldable pub reset : Breaker → Breaker
reset cb = record cb {
  state = closed;
  failure_count = pos 0;
  success_count = pos 0;
  half_open_calls = pos 0;
}

abbrev allow_in : State → ℕ → Breaker → Breaker × Bool
allow_in closed now cb = (cb, true)
allow_in opened now cb =
    if leb_ℤ cb.config.recovery_timeout (since now cb.last_failure_time)
    then (record cb { state = half_open; half_open_calls = pos 0 }, true)
    else (cb, false)
allow_in half_open now cb =
    if ltb_ℤ cb.half_open_calls cb.config.max_half_open_calls
    then (record cb { half_open_calls = inc max_int64 cb.half_open_calls }, true)
    else (cb, false)

-- `allowCall`
unfoldable pub allow_call : ℕ → Breaker → Breaker × Bool
allow_call now cb = allow_in cb.state now cb

abbrev fail_in : State → Breaker → Breaker
fail_in closed cb =
    if leb_ℤ cb.config.failure_threshold cb.failure_count then record cb { state = opened } else cb
fail_in half_open cb = record cb { state = opened }
fail_in opened cb = cb

-- `recordFailure`
unfoldable pub record_failure : ℕ → Breaker → Breaker
record_failure now cb =
    fail_in cb.state
      (record cb { failure_count = inc max_int64 cb.failure_count; last_failure_time = now })

abbrev succeed_in : State → Breaker → Breaker
succeed_in half_open cb =
    if leb_ℤ cb.config.success_threshold cb.success_count
    then record cb { state = closed; failure_count = pos 0 }
    else cb
succeed_in closed cb = record cb { failure_count = pos 0 }
succeed_in opened cb = cb

-- `recordSuccess`
unfoldable pub record_success : ℕ → Breaker → Breaker
record_success now cb =
    succeed_in cb.state
      (record cb { success_count = inc max_int64 cb.success_count; last_success_time = now })

abbrev result_in : Option Message → ℕ → Breaker → Breaker
result_in (some e) now cb = record_failure now cb
result_in none now cb = record_success now cb

-- `recordResult`
unfoldable pub record_result : ℕ → Option Message → Breaker → Breaker
record_result now err cb = result_in err now cb

-- `Execute`: `answer` is what the function returns; `start` and `finish` are the instants of the two
-- locked sections, and `during` stands for the other calls between them
unfoldable pub execute :
    ℕ → ℕ → (Breaker → Breaker) → Option Message → Breaker → Breaker × Option Message
execute start finish during answer cb =
    let (cb', allowed) = allow_call start cb in
    if allowed
    then (record_result finish answer (during cb'), answer)
    else (cb', some (text "circuit breaker is open"))
