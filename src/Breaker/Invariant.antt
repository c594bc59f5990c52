-- ===== src/Breaker/Invariant.antt =====
-- What holds of a breaker between two calls, whatever the calls were (circuit_breaker.go).
use roost_keeper.Prelude.{
  ◌≡◌, ◌⊎◌, ◌∷◌, ◌≤ℤ◌, ◌<ℤ◌, ℕ, List, Option, Bool, pos, true, false, [], refl, inl, inr, arith,
  Bool-cases, ltb_ℤ, inc, max_int32,
}
use roost_keeper.Health.{HealthResult, Error, since}
use roost_keeper.Breaker.{
  State, closed, opened, half_open, Config, Breaker, new, record_result, dispatch, is_success,
  transition_to_half_open, retry_open, retry_half_open, poll, is_open_among, reset,
  transition_to_open, transition_to_closed, increment_failure_count, increment_success_count,
  reset_failure_count,
}

-- the thresholds are `int32` values
pub record InRange (c : Config) : Type 0 where
  pub failure_fits : c.failure_threshold ≤ℤ pos max_int32
  pub success_fits : c.success_threshold ≤ℤ pos max_int32

pub record IsValid (cb : Breaker) : Type 0 where
  pub range : InRange cb.config
  pub failures_natural : pos 0 ≤ℤ cb.failure_count
  pub successes_natural : pos 0 ≤ℤ cb.success_count
  pub failures_fit : cb.failure_count ≤ℤ pos max_int32
  pub successes_fit : cb.success_count ≤ℤ pos max_int32
  -- a closed breaker has room for one failure more
  pub closed_below :
      cb.state ≡ closed
      → (cb.failure_count ≡ pos 0) ⊎ (cb.failure_count <ℤ cb.config.failure_threshold)
  -- a breaker that is not closed got there by its failures, and still shows them
  pub opened_reached : cb.state ≡ opened → cb.config.failure_threshold ≤ℤ cb.failure_count
  pub half_open_reached : cb.state ≡ half_open → cb.config.failure_threshold ≤ℤ cb.failure_count
  -- successes are counted in the half-open state alone
  pub closed_unprobed : cb.state ≡ closed → cb.success_count ≡ pos 0
  pub opened_unprobed : cb.state ≡ opened → cb.success_count ≡ pos 0
  pub half_open_below :
      cb.state ≡ half_open
      → (cb.success_count ≡ pos 0) ⊎ (cb.success_count <ℤ cb.config.success_threshold)

pub new-IsValid : (now : ℕ) {c : Config} → InRange c → IsValid (new now c)
unfolding new
new-IsValid now r = ground arith

dispatch-IsValid :
    (s : State) (b : Bool) (now : ℕ) (cb : Breaker)
    → cb.state ≡ s
    → IsValid cb
    → IsValid (dispatch s b now cb)
unfolding dispatch reset_failure_count increment_failure_count increment_success_count
    transition_to_open transition_to_closed inc
dispatch-IsValid closed true now cb e v = ground arith
dispatch-IsValid closed false now cb e v = ground arith
dispatch-IsValid half_open true now cb e v = ground arith
dispatch-IsValid half_open false now cb e v = ground arith
dispatch-IsValid opened true now cb e v = ground arith
dispatch-IsValid opened false now cb e v = ground arith

pub record_result-IsValid :
    (now : ℕ) (r : Option HealthResult) (err : Option Error) (cb : Breaker)
    → IsValid cb
    → IsValid (record_result now r err cb)
unfolding record_result
record_result-IsValid now r err cb v = dispatch-IsValid cb.state (is_success r err) now cb refl v

pub reset-IsValid : (now : ℕ) (cb : Breaker) → IsValid cb → IsValid (reset now cb)
unfolding reset
reset-IsValid now cb v = ground arith

retry_open-IsValid : (now : ℕ) (cb : Breaker) → IsValid cb → IsValid (retry_open now cb)
unfolding retry_open transition_to_half_open
retry_open-IsValid now cb v = ground arith

retry_half_open-IsValid : (now : ℕ) (cb : Breaker) → IsValid cb → IsValid (retry_half_open now cb)
unfolding retry_half_open transition_to_open
retry_half_open-IsValid now cb v = ground arith

-- The sections of the methods that change the breaker, each under the write lock. Whatever the
-- threads do, the breaker goes through one such section after another.
pub data Action : Type 0 where
  record_action : ℕ → Option HealthResult → Option Error → Action
  reset_action : ℕ → Action
  retry_open_action : ℕ → Action
  retry_half_open_action : ℕ → Action

unfoldable pub act : Action → Breaker → Breaker
act (record_action now r err) cb = record_result now r err cb
act (reset_action now) cb = reset now cb
act (retry_open_action now) cb = retry_open now cb
act (retry_half_open_action now) cb = retry_half_open now cb

unfoldable pub act_all : List Action → Breaker → Breaker
act_all [] cb = cb
act_all (a ∷ rest) cb = act_all rest (act a cb)

pub act-IsValid : (a : Action) (cb : Breaker) → IsValid cb → IsValid (act a cb)
unfolding act
act-IsValid (record_action now r err) cb v = record_result-IsValid now r err cb v
act-IsValid (reset_action now) cb v = reset-IsValid now cb v
act-IsValid (retry_open_action now) cb v = retry_open-IsValid now cb v
act-IsValid (retry_half_open_action now) cb v = retry_half_open-IsValid now cb v

act_all-IsValid : (acts : List Action) (cb : Breaker) → IsValid cb → IsValid (act_all acts cb)
unfolding act_all
act_all-IsValid [] cb v = v
act_all-IsValid (a ∷ rest) cb v = act_all-IsValid rest (act a cb) (act-IsValid a cb v)

-- Whatever sections of the methods run on a new breaker whose thresholds are `int32` values, in any
-- order and at any instants, the counters stay between 0 and the largest `int32`, a closed breaker
-- has fewer failures than the threshold (or none), an open or half-open one has at least the
-- threshold, successes are counted in the half-open state alone, and stay below their threshold
-- there (or are none).
pub act_all-new-IsValid :
    (acts : List Action) (now : ℕ) (c : Config) → InRange c → IsValid (act_all acts (new now c))
act_all-new-IsValid acts now c r = act_all-IsValid acts (new now c) (new-IsValid now r)

poll-IsValid :
    (before after : List Action) (s : State) (now later : ℕ) (cb : Breaker)
    → IsValid cb
    → IsValid (poll s now later (act_all before) (act_all after) cb).0
unfolding poll
poll-IsValid before after closed now later cb v = v
poll-IsValid before after opened now later cb v =
    elim (Bool-cases (ltb_ℤ cb.config.timeout (since now cb.state_changed))) [
      | inl e ↦
          rw e (act_all-IsValid after _ (retry_open-IsValid later _ (act_all-IsValid before cb v)))
      | inr e ↦ rw e v
    ]
poll-IsValid before after half_open now later cb v =
    elim (Bool-cases (ltb_ℤ cb.config.half_open_timeout (since now cb.state_changed))) [
      | inl e ↦
          rw e (
            act_all-IsValid after _ (retry_half_open-IsValid later _ (act_all-IsValid before cb v)))
      | inr e ↦ rw e v
    ]

-- `IsOpen` keeps the invariant of a breaker, whatever sections of the other methods run while it
-- changes its lock.
pub is_open_among-IsValid :
    (before after : List Action) (now later : ℕ) (cb : Breaker)
    → IsValid cb
    → IsValid (is_open_among (act_all before) (act_all after) now later cb).0
unfolding is_open_among
is_open_among-IsValid before after now later cb v =
    poll-IsValid before after cb.state now later cb v
