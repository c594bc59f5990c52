-- ===== src/Breaker/Polling.antt =====
-- What `IsOpen` of circuit_breaker.go answers, and how it moves the breaker.
use roost_keeper.Prelude.{◌≡◌, ◌↔◌, ◌⊎◌, ◌≤ℤ◌, ◌<ℤ◌, ◌+ℤ◌, ℕ, ℤ, pos, true, false, some, arith}
use roost_keeper.Health.{since}
use roost_keeper.Breaker.{
  State, opened, half_open, Breaker, is_open, is_open_among, poll, retry_open, retry_half_open,
  transition_to_half_open, transition_to_open, get_status,
}
use roost_keeper.Breaker.Spec.{time_out}
use roost_keeper.Breaker.Refinement.{view}

-- the time that a breaker in a state waits before it moves by itself
abbrev limit_at : State → ℤ → ℤ → ℤ
limit_at opened timeout half_open_timeout = timeout
limit_at _ timeout half_open_timeout = half_open_timeout

abbrev pub limit : Breaker → ℤ
limit cb = limit_at cb.state cb.config.timeout cb.config.half_open_timeout

-- With no other call in between, `IsOpen` answers "open" exactly when the breaker was open and its
-- timeout has not passed; it moves the breaker by the time-out step of the abstract machine when
-- the limit of its state has passed, and leaves the breaker as it is otherwise.
pub is_open_lem :
    (now : ℕ) (cb : Breaker)
    → (((is_open now cb).1 ≡ true)
        ↔ ((cb.state ≡ opened) × (since now cb.state_changed ≤ℤ cb.config.timeout)))
      × ((limit cb <ℤ since now cb.state_changed × (view (is_open now cb).0 ≡ time_out (view cb)))
          ⊎ (since now cb.state_changed ≤ℤ limit cb × ((is_open now cb).0 ≡ cb)))
unfolding is_open poll retry_open retry_half_open transition_to_half_open transition_to_open
is_open_lem now cb = ground arith

-- Whatever other sections run while `IsOpen` changes its lock, a true answer tells that the breaker
-- it returns is open.
pub is_open_among-opened :
    (before after : Breaker → Breaker) (now later : ℕ) (cb : Breaker)
    → (is_open_among before after now later cb).1 ≡ true
    → (is_open_among before after now later cb).0.state ≡ opened
unfolding is_open_among poll
is_open_among-opened before after now later cb h = ground arith

-- A half-open breaker whose trial has lasted too long is open after `IsOpen`, and yet the answer
-- is "not open": the caller goes on with the check.
pub is_open-half_open_expired :
    (now : ℕ) (cb : Breaker)
    → cb.state ≡ half_open
    → cb.config.half_open_timeout <ℤ since now cb.state_changed
    → ((is_open now cb).0.state ≡ opened) × ((is_open now cb).1 ≡ false)
unfolding is_open poll retry_half_open transition_to_open
is_open-half_open_expired now cb e h = ground arith

-- `GetStatus` shows a next attempt exactly for an open breaker, at the first instant from which
-- `IsOpen` may let a check through.
pub get_status-next_attempt :
    (cb : Breaker) (at : ℤ)
    → ((get_status cb).next_attempt ≡ some at)
      ↔ ((cb.state ≡ opened) × (at ≡ pos cb.state_changed +ℤ cb.config.timeout))
unfolding get_status
get_status-next_attempt cb at = ground arith

pub config-is_open : (now : ℕ) (cb : Breaker) → (is_open now cb).0.config ≡ cb.config
unfolding is_open poll retry_open retry_half_open transition_to_half_open transition_to_open
config-is_open now cb = ground arith
