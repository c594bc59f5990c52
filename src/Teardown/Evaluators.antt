-- ===== src/Teardown/Evaluators.antt =====
-- The evaluators of internal/teardown/evaluators.go, and `registerDefaultEvaluators` of manager.go.
use roost_keeper.Prelude.{
  ◌≡◌, ◌≢◌, ◌↔◌, ◌∷◌, ◌+ℤ◌, if◌then◌else◌, ℕ, ℤ, String, List, Option, pos, negsuc, true, false,
  none, some, [], inl, inr, arith, str_eq, Option-cases, ltb_ℤ, leb_ℤ,
}
use roost_keeper.Roost.{
  Message, text, with_duration, with_counts, Trigger, TeardownPolicy, HealthCheckStatus, ok, Roost,
}
use roost_keeper.Health.{since}
use roost_keeper.Lifecycle.{add_int32}
use roost_keeper.Controller.{should_teardown, first_trigger, evaluate_teardown_trigger}
use roost_keeper.Teardown.{Decision, Urgency, unset_urgency, medium, high, Evaluator, register}

-- `&TeardownDecision{ShouldTeardown: false}`: the other fields are zero values
abbrev undecided : Decision
undecided = record {
  should_teardown = false;
  reason = text "";
  urgency = unset_urgency;
  safety_checks = [];
  trigger_type = "";
  evaluated_at = 0;
  score = pos 0;
}

abbrev decision_for : String → Message → Urgency → ℤ → ℕ → Decision
decision_for trigger reason urgency score now = record {
  should_teardown = true;
  reason = reason;
  urgency = urgency;
  safety_checks = [];
  trigger_type = trigger;
  evaluated_at = now;
  score = score;
}

abbrev reached : ℕ → Roost → Option ℤ → Decision → Decision
reached now r none rest = rest
reached now r (some limit) rest =
    if ltb_ℤ (pos r.creation_timestamp +ℤ limit) (pos now)
    then decision_for "timeout" (with_duration "Timeout reached: %s elapsed since creation" limit)
        medium (pos 50) now
    else rest

-- the loop of `TimeoutEvaluator.ShouldTeardown`
timeout_among : ℕ → Roost → List Trigger → Decision
timeout_among now r [] = undecided
timeout_among now r (t ∷ ts) =
    let rest = timeout_among now r ts in
    if str_eq t.type_ "timeout" then reached now r t.timeout rest else rest

abbrev with_policy : (List Trigger → Decision) → Option TeardownPolicy → Decision
with_policy f none = undecided
with_policy f (some p) = f p.triggers

unfoldable pub timeout_decision : ℕ → Roost → Decision
unfolding timeout_among
timeout_decision now r = with_policy (timeout_among now r) r.spec.teardown_policy

-- `NewTimeoutEvaluator`
abbrev pub timeout_evaluator : Evaluator
timeout_evaluator = record {
  type_ = "timeout";
  priority = pos 100;
  should_teardown_of = λ now r. ok (some (timeout_decision now r));
}

-- `TimeoutEvaluator.Validate`
unfoldable pub validate_timeout : List Trigger → Option Message
validate_timeout [] = none
validate_timeout (t ∷ ts) =
    let rest = validate_timeout ts in
    if str_eq t.type_ "timeout"
    then elim t.timeout [
      | none ↦ some (text "timeout trigger requires timeout configuration")
      | some limit ↦ rest
    ]
    else rest

-- `HealthBasedEvaluator.ShouldTeardown`
unfoldable pub health_decision : ℕ → Roost → Decision
health_decision now r =
    if str_eq r.status.health "unhealthy"
    then decision_for "health_based" (text "Roost has been unhealthy for extended period") high
        (pos 70) now
    else undecided

-- the sum of the failures of the health checks, an `int32`
sum_failures : List HealthCheckStatus → ℤ → ℤ
sum_failures [] n = n
sum_failures (h ∷ hs) n = sum_failures hs (add_int32 n h.failure_count)

abbrev exceeded : ℕ → Roost → Option ℤ → Decision → Decision
unfolding sum_failures
exceeded now r none rest = rest
exceeded now r (some limit) rest =
    let n = sum_failures r.status.health_checks (pos 0) in
    if leb_ℤ limit n
    then decision_for "failure_count"
        (with_counts "Failure count threshold reached: %d >= %d" n limit) high (pos 80) now
    else rest

-- the loop of `FailureCountEvaluator.ShouldTeardown`
failures_among : ℕ → Roost → List Trigger → Decision
unfolding exceeded
failures_among now r [] = undecided
failures_among now r (t ∷ ts) =
    let rest = failures_among now r ts in
    if str_eq t.type_ "failure_count" then exceeded now r t.failure_count rest else rest

unfoldable pub failure_decision : ℕ → Roost → Decision
unfolding failures_among
failure_decision now r = with_policy (failures_among now r) r.spec.teardown_policy

-- `FailureCountEvaluator.Validate`
unfoldable pub validate_failure_count : List Trigger → Option Message
validate_failure_count [] = none
validate_failure_count (t ∷ ts) =
    let rest = validate_failure_count ts in
    if str_eq t.type_ "failure_count"
    then elim t.failure_count [
      | none ↦ some (text "failure_count trigger requires failureCount configuration")
      | some limit ↦ rest
    ]
    else rest

-- the evaluators whose `ShouldTeardown` is a placeholder that decides nothing
abbrev idle_evaluator : String → ℤ → Evaluator
idle_evaluator type_ priority = record {
  type_ = type_;
  priority = priority;
  should_teardown_of = λ now r. ok (some undecided);
}

-- `registerDefaultEvaluators`
unfoldable pub register_default_evaluators : List (String × Evaluator) → List (String × Evaluator)
register_default_evaluators registry = register (idle_evaluator "webhook" (pos 50)) (
    register (idle_evaluator "schedule" (pos 60)) (
      register
        (record {
          type_ = "failure_count";
          priority = pos 70;
          should_teardown_of = λ now r. ok (some (failure_decision now r));
        })
        (register
          (record {
            type_ = "health_based";
            priority = pos 90;
            should_teardown_of = λ now r. ok (some (health_decision now r));
          })
          (register (idle_evaluator "resource_threshold" (pos 80))
            (register timeout_evaluator registry)))))

-- the instant is past the deadline exactly when the age is past the limit
same_deadline :
    (now created : ℕ) (limit : ℤ)
    → ltb_ℤ (pos created +ℤ limit) (pos now) ≡ ltb_ℤ limit (since now created)
unfolding ◌+ℤ◌
same_deadline now created (pos n) = ground arith
same_deadline now created (negsuc n) = ground arith

timeout_among_lem :
    (now : ℕ) (r : Roost) (ts : List Trigger)
    → ((timeout_among now r ts).should_teardown ≡ true) ↔ (first_trigger now r ts ≢ none)
unfolding timeout_among first_trigger evaluate_teardown_trigger
timeout_among_lem now r [] = ground arith
timeout_among_lem now r (t ∷ ts) = elim (Option-cases t.timeout) [
  | inl absent ↦ ground (arith, timeout_among_lem now r ts)
  | inr (limit, there) ↦
      ground (arith, timeout_among_lem now r ts, same_deadline now r.creation_timestamp limit)
]

-- The timeout evaluator of the teardown manager decides a teardown exactly when `shouldTeardown` of
-- the reconciler gives a reason for one.
pub timeout_decision_lem :
    (now : ℕ) (r : Roost)
    → ((timeout_decision now r).should_teardown ≡ true) ↔ (should_teardown now r ≢ none)
unfolding timeout_decision should_teardown first_trigger
timeout_decision_lem now r = elim (Option-cases r.spec.teardown_policy) [
  | inl absent ↦ ground arith
  | inr (p, there) ↦ ground (arith, timeout_among_lem now r p.triggers)
]
