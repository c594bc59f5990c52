-- ===== src/EventBreaker/Trials.antt =====
-- How a half-open breaker of internal/events/circuit_breaker.go tries calls, and when it lets none
-- through any more.
use roost_keeper.Prelude.{
  ◌+◌, ◌-◌, ◌≤◌, ◌<◌, ◌≡◌, ◌∷◌, ◌≤ℤ◌, ◌<ℤ◌, if◌then◌else◌, ℕ, List, Option, suc, pos, true, false,
  none, some, [], refl, ap, inl, inr, arith, ltb, ltb→lt, Bool-cases, length, replicate, inc,
  max_int64,
}
use roost_keeper.Health.{since}
use roost_keeper.Roost.{Message, text}
use roost_keeper.EventBreaker.{
  Breaker, closed, opened, half_open, allow_call, record_result, record_success, execute,
}

-- the calls of `Execute` one after another: the instants before and after each, and its answer
unfoldable pub execute_all : List (ℕ × ℕ × Option Message) → Breaker → Breaker
execute_all [] cb = cb
execute_all ((start, finish, answer) ∷ calls) cb =
    execute_all calls (execute start finish (λ b. b) answer cb).0

refused :
    (start finish : ℕ) (answer : Option Message) (cb : Breaker)
    → cb.state ≡ half_open
    → cb.config.max_half_open_calls ≤ℤ cb.half_open_calls
    → execute start finish (λ b. b) answer cb ≡ (cb, some (text "circuit breaker is open"))
unfolding execute allow_call
refused start finish answer cb h m = ground arith

-- the errors that the calls of `Execute` return, one after another
unfoldable pub errors_all : List (ℕ × ℕ × Option Message) → Breaker → List (Option Message)
errors_all [] cb = []
errors_all ((start, finish, answer) ∷ calls) cb =
    let (cb', e) = execute start finish (λ b. b) answer cb in e ∷ errors_all calls cb'

-- A half-open breaker that has let `MaxHalfOpenCalls` calls through, none of which is still running,
-- refuses every call from then on, at whatever instants, and stays as it is.
pub execute_all-half_open :
    (calls : List (ℕ × ℕ × Option Message)) (cb : Breaker)
    → cb.state ≡ half_open
    → cb.config.max_half_open_calls ≤ℤ cb.half_open_calls
    → (execute_all calls cb ≡ cb)
      × (errors_all calls cb ≡ replicate (length calls) (some (text "circuit breaker is open")))
unfolding execute_all errors_all
execute_all-half_open [] cb h m = (refl, refl)
execute_all-half_open ((start, finish, answer) ∷ calls) cb h m =
    let (a, b) = execute_all-half_open calls cb h m in
    rw (refused start finish answer cb h m) (a, ap (◌∷◌ (some (text "circuit breaker is open"))) b)

-- how many of the calls that ask at these instants are let through, while nothing is recorded
unfoldable pub allowed : List ℕ → Breaker → ℕ
allowed [] cb = 0
allowed (now ∷ times) cb =
    let (cb', yes_) = allow_call now cb in (if yes_ then 1 else 0) + allowed times cb'

abbrev pub least : ℕ → ℕ → ℕ
least a b = if ltb a b then a else b

counting_step :
    (now j m : ℕ) (cb : Breaker)
    → cb.state ≡ half_open
    → cb.config.max_half_open_calls ≡ pos m
    → cb.half_open_calls ≡ pos j
    → m ≤ max_int64
    → j < m
    → allow_call now cb ≡ (record cb { half_open_calls = pos (suc j) }, true)
unfolding allow_call inc
counting_step now j m cb h c e fits below = ground arith

shut_step :
    (now j m : ℕ) (cb : Breaker)
    → cb.state ≡ half_open
    → cb.config.max_half_open_calls ≡ pos m
    → cb.half_open_calls ≡ pos j
    → m ≤ j
    → allow_call now cb ≡ (cb, false)
unfolding allow_call
shut_step now j m cb h c e above = ground arith

allowed-half_open :
    (times : List ℕ) (j m : ℕ) (cb : Breaker)
    → cb.state ≡ half_open
    → cb.config.max_half_open_calls ≡ pos m
    → cb.half_open_calls ≡ pos j
    → m ≤ max_int64
    → j ≤ m
    → allowed times cb ≡ least (length times) (m - j)
unfolding allowed
allowed-half_open [] j m cb h c e fits below = ground arith
allowed-half_open (now ∷ times) j m cb h c e fits below = elim (Bool-cases (ltb j m)) [
  | inl room ↦
      let counted : Breaker = record cb { half_open_calls = pos (suc j) } in
      let next = allowed-half_open times (suc j) m counted h c refl fits (ltb→lt j m room) in
      rw (counting_step now j m cb h c e fits (ltb→lt j m room))
        (ground (arith, next, ltb→lt j m room))
  | inr full ↦
      let next = allowed-half_open times j m cb h c e fits below in
      rw (shut_step now j m cb h c e (ground arith)) (ground (arith, next))
]

-- While no result is recorded, an open breaker whose recovery timeout has passed lets one call more
-- through than its limit of half-open calls, an `int`, says: the call that makes it half-open is
-- not counted.
pub allowed-opened :
    (now : ℕ) (times : List ℕ) (m : ℕ) (cb : Breaker)
    → cb.state ≡ opened
    → cb.config.recovery_timeout ≤ℤ since now cb.last_failure_time
    → cb.config.max_half_open_calls ≡ pos m
    → m ≤ max_int64
    → allowed (now ∷ times) cb ≡ 1 + least (length times) m
unfolding allowed allow_call
allowed-opened now times m cb o r c fits =
    let trial : Breaker = record cb { state = half_open; half_open_calls = pos 0 } in
    ground (arith, allowed-half_open times 0 m trial refl c refl fits (omega arith))

-- An open breaker that has recorded at least as many successes as the threshold, at any time since
-- it was created or reset, and fewer than 2⁶³ - 1, closes on the first success after its recovery
-- timeout: the count of successes is not reset when the trial begins.
pub execute_early :
    (start finish : ℕ) (cb : Breaker)
    → cb.state ≡ opened
    → cb.config.recovery_timeout ≤ℤ since start cb.last_failure_time
    → pos 0 ≤ℤ cb.success_count
    → cb.success_count <ℤ pos max_int64
    → cb.config.success_threshold ≤ℤ cb.success_count
    → (execute start finish (λ b. b) none cb).0.state ≡ closed
unfolding execute allow_call record_result record_success inc
execute_early start finish cb o r p m t = ground arith
