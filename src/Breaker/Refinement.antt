-- ===== src/Breaker/Refinement.antt =====
-- The breaker of circuit_breaker.go implements the abstract machine.
use roost_keeper.Prelude.{
  ◌≡◌, ◌∙◌, ◌∷◌, ℕ, ℤ, List, Option, Bool, true, false, [], refl, arith, pos_part, inc,
}
use roost_keeper.Health.{HealthResult, Error}
use roost_keeper.Breaker.{
  State, closed, opened, half_open, Config, Breaker, new, record_result, dispatch, is_success,
  transition_to_open, transition_to_closed, increment_failure_count, increment_success_count,
  reset_failure_count,
}
use roost_keeper.Breaker.Spec.{
  Phase, counting, failing, probing, observe, observe_all, is_failing, reaches, observe_all-reaches,
}
use roost_keeper.Breaker.Invariant.{IsValid, InRange, record_result-IsValid, new-IsValid}

abbrev view_at : State → ℤ → ℤ → Phase
view_at closed f s = counting (pos_part f)
view_at opened f s = failing
view_at half_open f s = probing (pos_part s)

abbrev pub view : Breaker → Phase
view cb = view_at cb.state cb.failure_count cb.success_count

abbrev pub fails : Config → ℕ
fails c = pos_part c.failure_threshold

abbrev pub succeeds : Config → ℕ
succeeds c = pos_part c.success_threshold

view-dispatch :
    (s : State) (b : Bool) (now : ℕ) (cb : Breaker)
    → cb.state ≡ s
    → IsValid cb
    → view (dispatch s b now cb)
      ≡ observe
          (fails cb.config)
          (succeeds cb.config)
          b
          (view_at s cb.failure_count cb.success_count)
unfolding dispatch reset_failure_count increment_failure_count increment_success_count
    transition_to_open transition_to_closed inc observe
view-dispatch closed true now cb e v = ground arith
view-dispatch closed false now cb e v = ground arith
view-dispatch half_open true now cb e v = ground arith
view-dispatch half_open false now cb e v = ground arith
view-dispatch opened true now cb e v = ground arith
view-dispatch opened false now cb e v = ground arith

pub view-record_result :
    (now : ℕ) (r : Option HealthResult) (err : Option Error) (cb : Breaker)
    → IsValid cb
    → view (record_result now r err cb)
      ≡ observe (fails cb.config) (succeeds cb.config) (is_success r err) (view cb)
unfolding record_result
view-record_result now r err cb v = view-dispatch cb.state (is_success r err) now cb refl v

pub config-record_result :
    (now : ℕ) (r : Option HealthResult) (err : Option Error) (cb : Breaker)
    → (record_result now r err cb).config ≡ cb.config
unfolding record_result dispatch reset_failure_count increment_failure_count increment_success_count
    transition_to_open transition_to_closed
config-record_result now r err cb = ground arith

-- a health check's outcome, and the instant at which it is recorded
abbrev pub Outcome : Type 0
Outcome = ℕ × Option HealthResult × Option Error

unfoldable pub record_all : List Outcome → Breaker → Breaker
record_all [] cb = cb
record_all ((now, r, err) ∷ os) cb = record_all os (record_result now r err cb)

abbrev pub successes : List Outcome → List Bool
successes [] = []
successes ((now, r, err) ∷ os) = is_success r err ∷ successes os

view-record_all :
    (os : List Outcome) (cb : Breaker)
    → IsValid cb
    → view (record_all os cb)
      ≡ observe_all (fails cb.config) (succeeds cb.config) (successes os) (view cb)
unfolding record_all observe_all
view-record_all [] cb v = refl
view-record_all ((now, r, err) ∷ os) cb v =
    let same = config-record_result now r err cb in
    let step = view-record_result now r err cb v in
    view-record_all os (record_result now r err cb) (record_result-IsValid now r err cb v)
    ∙ (λ i. observe_all (fails (same i)) (succeeds (same i)) (successes os) (step i))

-- A new breaker whose thresholds are `int32` values, and that only records results, is open after
-- them exactly when they hold a run of as many failures in a row as the threshold says, or of one
-- failure where the threshold is not positive.
pub record_all-opened :
    (now : ℕ) (c : Config) (os : List Outcome)
    → InRange c
    → is_failing (view (record_all os (new now c))) ≡ reaches (fails c) 0 (successes os)
unfolding new
record_all-opened now c os r =
    rw (view-record_all os (new now c) (new-IsValid now r))
      (observe_all-reaches (fails c) (succeeds c) 0 (successes os))
