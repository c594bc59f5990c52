-- ===== src/Breaker.antt =====
-- The circuit breaker of the composite health checks:
-- internal/health/composite/circuit_breaker.go. The counters are `int32` values and wrap.
-- A method takes the instant at which it runs, and returns the new breaker.
pub mod Invariant
pub mod Spec
pub mod Refinement
pub mod Polling
use roost_keeper.Prelude.{
  ◌&&◌, ◌+ℤ◌, if◌then◌else◌, ℕ, ℤ, String, Option, Bool, pos, true, false, none, some, ltb_ℤ, leb_ℤ,
  inc, max_int32,
}
use roost_keeper.Health.{HealthResult, Error, since}

-- `CircuitBreakerState`; `open` is a reserved word
pub data State : Type 0 where
  closed opened half_open : State

pub record Config : Type 0 where
  pub name : String
  pub failure_threshold : ℤ
  pub success_threshold : ℤ
  pub timeout : ℤ
  pub half_open_timeout : ℤ

pub record Breaker : Type 0 where
  pub config : Config
  pub state : State
  pub failure_count : ℤ
  pub success_count : ℤ
  pub last_failure : Option ℕ
  pub state_changed : ℕ

-- `NewCircuitBreaker`
unfoldable pub new : ℕ → Config → Breaker
new now config = record {
  config = config;
  state = closed;
  failure_count = pos 0;
  success_count = pos 0;
  last_failure = none;
  state_changed = now;
}

-- the body of `transitionToOpen` under its guard
abbrev enter_open : State → ℕ → Breaker → Breaker
enter_open opened now cb = cb
enter_open _ now cb = record cb { state = opened; state_changed = now; success_count = pos 0 }

unfoldable pub transition_to_open : ℕ → Breaker → Breaker
transition_to_open now cb = enter_open cb.state now cb

abbrev enter_half_open : State → ℕ → Breaker → Breaker
enter_half_open half_open now cb = cb
enter_half_open _ now cb = record cb {
  state = half_open;
  state_changed = now;
  success_count = pos 0;
}

unfoldable pub transition_to_half_open : ℕ → Breaker → Breaker
transition_to_half_open now cb = enter_half_open cb.state now cb

abbrev enter_closed : State → ℕ → Breaker → Breaker
enter_closed closed now cb = cb
enter_closed _ now cb = record cb {
  state = closed;
  state_changed = now;
  failure_count = pos 0;
  success_count = pos 0;
}

unfoldable pub transition_to_closed : ℕ → Breaker → Breaker
transition_to_closed now cb = enter_closed cb.state now cb

unfoldable pub increment_failure_count : ℕ → Breaker → Breaker
unfolding inc
increment_failure_count now cb = record cb {
  failure_count = inc max_int32 cb.failure_count;
  last_failure = some now;
}

unfoldable pub reset_failure_count : Breaker → Breaker
reset_failure_count cb = record cb { failure_count = pos 0 }

unfoldable pub increment_success_count : Breaker → Breaker
unfolding inc
increment_success_count cb = record cb { success_count = inc max_int32 cb.success_count }

-- `isSuccess := err == nil && result != nil && result.Healthy`
unfoldable pub is_success : Option HealthResult → Option Error → Bool
is_success (some r) none = r.healthy
is_success none none = false
is_success _ (some e) = false

-- the `switch` of `RecordResult`, on the state and on `isSuccess`
dispatch : State → Bool → ℕ → Breaker → Breaker
dispatch closed true now cb = reset_failure_count cb
dispatch closed false now cb =
    let cb' = increment_failure_count now cb in
    if leb_ℤ cb'.config.failure_threshold cb'.failure_count then transition_to_open now cb' else cb'
dispatch half_open true now cb =
    let cb' = increment_success_count cb in
    if leb_ℤ cb'.config.success_threshold cb'.success_count
    then transition_to_closed now cb'
    else cb'
dispatch half_open false now cb = transition_to_open now cb
dispatch opened true now cb = cb
dispatch opened false now cb = record cb { last_failure = some now }

unfoldable pub record_result : ℕ → Option HealthResult → Option Error → Breaker → Breaker
unfolding dispatch
record_result now result err cb = dispatch cb.state (is_success result err) now cb

abbrev is_state_open : State → Bool
is_state_open opened = true
is_state_open _ = false

abbrev is_state_half_open : State → Bool
is_state_half_open half_open = true
is_state_half_open _ = false

-- the double check under the write lock, in the branch of an open breaker
unfoldable pub retry_open : ℕ → Breaker → Breaker
retry_open now cb =
    if is_state_open cb.state && ltb_ℤ cb.config.timeout (since now cb.state_changed)
    then transition_to_half_open now cb
    else cb

-- the double check under the write lock, in the branch of a half-open breaker
unfoldable pub retry_half_open : ℕ → Breaker → Breaker
retry_half_open now cb =
    if is_state_half_open cb.state && ltb_ℤ cb.config.half_open_timeout (since now cb.state_changed)
    then transition_to_open now cb
    else cb

-- the `switch` of `IsOpen`, on the state that the read lock shows. While neither lock is held
-- other calls may run: `before` stands for those between the read lock and the write lock, and
-- `after` for those between the write lock and the read lock that is taken again.
poll : State → ℕ → ℕ → (Breaker → Breaker) → (Breaker → Breaker) → Breaker → Breaker × Bool
poll opened now later before after cb =
    let cb' =
      if ltb_ℤ cb.config.timeout (since now cb.state_changed)
      then after (retry_open later (before cb))
      else cb in
    (cb', is_state_open cb'.state)
poll half_open now later before after cb = (
  if ltb_ℤ cb.config.half_open_timeout (since now cb.state_changed)
      then after (retry_half_open later (before cb))
      else cb,
  false,
)
poll closed now later before after cb = (cb, false)

-- `IsOpen` among other calls: `now` is read under the read lock, `later` under the write lock
unfoldable pub is_open_among :
    (Breaker → Breaker) → (Breaker → Breaker) → ℕ → ℕ → Breaker → Breaker × Bool
unfolding poll
is_open_among before after now later cb = poll cb.state now later before after cb

-- `IsOpen` with no other call in between
unfoldable pub is_open : ℕ → Breaker → Breaker × Bool
unfolding is_open_among
is_open now cb = is_open_among (λ b. b) (λ b. b) now now cb

pub record Status : Type 0 where
  pub state : State
  pub failure_count : ℤ
  pub success_count : ℤ
  pub last_failure : Option ℕ
  pub state_changed : ℕ
  pub next_attempt : Option ℤ

abbrev next_attempt_at : State → ℤ → Option ℤ
next_attempt_at opened at = some at
next_attempt_at _ at = none

-- `GetStatus`
unfoldable pub get_status : Breaker → Status
get_status cb = record {
  state = cb.state;
  failure_count = cb.failure_count;
  success_count = cb.success_count;
  last_failure = cb.last_failure;
  state_changed = cb.state_changed;
  next_attempt = next_attempt_at cb.state (pos cb.state_changed +ℤ cb.config.timeout);
}

-- `Reset`
unfoldable pub reset : ℕ → Breaker → Breaker
reset now cb = record cb {
  state = closed;
  failure_count = pos 0;
  success_count = pos 0;
  last_failure = none;
  state_changed = now;
}
