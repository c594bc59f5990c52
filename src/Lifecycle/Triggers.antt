-- ===== src/Lifecycle/Triggers.antt =====
-- The triggers that `evaluateTeardownPolicies` of internal/lifecycle/manager.go looks at.
use roost_keeper.Prelude.{
  ◌≡◌, ◌∙◌, ◌&&◌, ◌||◌, ◌∷◌, if◌then◌else◌, ℕ, ℤ, String, List, Option, Bool, true, false, none,
  some, [], refl, arith, eq_iff, str_eq, ltb_ℤ, leb_ℤ, lookup,
}
use roost_keeper.Roost.{Message, Roost}
use roost_keeper.Health.{since}
use roost_keeper.Roost.{with_text, Trigger, TeardownPolicy}
use roost_keeper.Roost.{with_text}
use roost_keeper.Lifecycle.{
  evaluate_teardown_trigger, timeout_trigger, failure_trigger, resource_trigger, schedule_trigger,
  webhook_trigger, check_resource_thresholds, should_trigger_by_schedule, count_recent_failures,
  first_trigger, policy_trigger,
}

-- what the triggers look at
abbrev pub SameFacts : Roost → Roost → Type 0
SameFacts r r' =
    (r'.spec ≡ r.spec)
    × (r'.creation_timestamp ≡ r.creation_timestamp)
    × (r'.annotations ≡ r.annotations)
    × (r'.status.conditions ≡ r.status.conditions)
    × (r'.status.health_checks ≡ r.status.health_checks)

abbrev passes_limit : (ℤ → Bool) → Option ℤ → Bool
passes_limit test none = false
passes_limit test (some limit) = test limit

abbrev pub is_some {ℓ} : {A : Type ℓ} → Option A → Bool
is_some none = false
is_some (some a) = true

-- whether a trigger asks for a teardown: the roost is older than its limit, its failures reach
-- their limit, or it has the annotation and the trigger is for webhooks
abbrev pub is_due : ℕ → Roost → Trigger → Bool
is_due now r t =
    if str_eq t.type_ "timeout"
    then passes_limit (λ limit. ltb_ℤ limit (since now r.creation_timestamp)) t.timeout
    else if str_eq t.type_ "failure_count"
    then passes_limit (λ limit. leb_ℤ limit (count_recent_failures r)) t.failure_count
    else str_eq t.type_ "webhook"
      && (t.webhook && is_some (lookup "roost-keeper.io/teardown-trigger" r.annotations))

abbrev pub any_due : ℕ → Roost → List Trigger → Bool
any_due now r [] = false
any_due now r (t ∷ ts) = is_due now r t || any_due now r ts

-- whether a trigger of the policy asks for a teardown, where there is a policy
abbrev pub is_to_go : ℕ → Roost → Option TeardownPolicy → Bool
is_to_go now r none = false
is_to_go now r (some policy) = any_due now r policy.triggers

is_some-chain :
    (t f q s w : Bool) (a b c d e : Option Message)
    → is_some
        (if t then a else if f then b else if q then c else if s then d else if w then e else none)
      ≡ (if t
          then is_some a
          else if f
          then is_some b
          else if q
          then is_some c
          else if s
          then is_some d
          else if w
          then is_some e
          else false)
is_some-chain t f q s w a b c d e = ground arith

timeout-is_some :
    (now : ℕ) (r : Roost) (o : Option ℤ)
    → is_some (timeout_trigger now r o)
      ≡ passes_limit (λ limit. ltb_ℤ limit (since now r.creation_timestamp)) o
timeout-is_some now r none = refl
timeout-is_some now r (some limit) = ground arith

failure-is_some :
    (r : Roost) (o : Option ℤ)
    → is_some (failure_trigger r o)
      ≡ passes_limit (λ limit. leb_ℤ limit (count_recent_failures r)) o
failure-is_some r none = refl
failure-is_some r (some limit) = ground arith

resource-is_some : (r : Roost) (b : Bool) → is_some (resource_trigger r b) ≡ false
unfolding check_resource_thresholds
resource-is_some r true = refl
resource-is_some r false = refl

schedule-is_some : (r : Roost) (schedule : String) → is_some (schedule_trigger r schedule) ≡ false
unfolding should_trigger_by_schedule
schedule-is_some r schedule = ground arith

found-is_some :
    (o : Option String)
    → is_some (elim o [
      | none ↦ none
      | some reason ↦ some (with_text "webhook triggered teardown: %s" reason)
    ])
      ≡ is_some o
found-is_some none = refl
found-is_some (some reason) = refl

webhook-is_some :
    (r : Roost) (b : Bool)
    → is_some (webhook_trigger r b)
      ≡ b && is_some (lookup "roost-keeper.io/teardown-trigger" r.annotations)
webhook-is_some r false = refl
webhook-is_some r true = found-is_some (lookup "roost-keeper.io/teardown-trigger" r.annotations)

-- a test of a text that has another value is false
not_webhook :
    (type_ other : String)
    → str_eq other "webhook" ≡ false
    → str_eq type_ other ≡ true
    → str_eq type_ "webhook" ≡ false
not_webhook type_ other h e = rw ((eq_iff type_ other).0 e) h

chain :
    (t f q s w a b c : Bool)
    → (q ≡ true → w ≡ false)
    → (s ≡ true → w ≡ false)
    → (if t
        then a
        else if f
        then b
        else if q
        then false
        else if s
        then false
        else if w
        then c
        else false)
      ≡ (if t then a else if f then b else w && c)
chain t f q s w a b c h k = ground (arith, h, k)

trigger-is_due :
    (now : ℕ) (r : Roost) (t : Trigger)
    → is_some (evaluate_teardown_trigger now r t) ≡ is_due now r t
unfolding evaluate_teardown_trigger
trigger-is_due now r t =
    is_some-chain (str_eq t.type_ "timeout") (str_eq t.type_ "failure_count")
      (str_eq t.type_ "resource_threshold") (str_eq t.type_ "schedule") (str_eq t.type_ "webhook")
      (timeout_trigger now r t.timeout) (failure_trigger r t.failure_count)
      (resource_trigger r t.resource_threshold) (schedule_trigger r t.schedule)
      (webhook_trigger r t.webhook)
    ∙ rw
        (
          timeout-is_some now r t.timeout,
          failure-is_some r t.failure_count,
          resource-is_some r t.resource_threshold,
          schedule-is_some r t.schedule,
          webhook-is_some r t.webhook,
        )
        (chain (str_eq t.type_ "timeout") (str_eq t.type_ "failure_count")
          (str_eq t.type_ "resource_threshold") (str_eq t.type_ "schedule")
          (str_eq t.type_ "webhook")
          (passes_limit (λ limit. ltb_ℤ limit (since now r.creation_timestamp)) t.timeout)
          (passes_limit (λ limit. leb_ℤ limit (count_recent_failures r)) t.failure_count)
          (t.webhook && is_some (lookup "roost-keeper.io/teardown-trigger" r.annotations))
          (not_webhook t.type_ "resource_threshold" refl) (not_webhook t.type_ "schedule" refl))

first_trigger-any_due :
    (now : ℕ) (r : Roost) (ts : List Trigger) → is_some (first_trigger now r ts) ≡ any_due now r ts
unfolding first_trigger
first_trigger-any_due now r [] = refl
first_trigger-any_due now r (t ∷ ts) =
    ground (arith, trigger-is_due now r t, first_trigger-any_due now r ts)

pub policy-is_to_go :
    (now : ℕ) (r : Roost) (o : Option TeardownPolicy)
    → is_some (policy_trigger now r o) ≡ is_to_go now r o
policy-is_to_go now r none = refl
policy-is_to_go now r (some policy) = first_trigger-any_due now r policy.triggers

same-is_due :
    (now : ℕ) (r r' : Roost) (t : Trigger) → SameFacts r r' → is_due now r' t ≡ is_due now r t
unfolding count_recent_failures
same-is_due now r r' t (s, c, a, k, h) = rw (c, a, k, h) refl

same-any_due :
    (now : ℕ) (r r' : Roost) (ts : List Trigger)
    → SameFacts r r'
    → any_due now r' ts ≡ any_due now r ts
same-any_due now r r' [] same = refl
same-any_due now r r' (t ∷ ts) same =
    rw (same-is_due now r r' t same, same-any_due now r r' ts same) refl

pub same-is_to_go :
    (now : ℕ) (r r' : Roost) (o : Option TeardownPolicy)
    → SameFacts r r'
    → is_to_go now r' o ≡ is_to_go now r o
same-is_to_go now r r' none same = refl
same-is_to_go now r r' (some policy) same = same-any_due now r r' policy.triggers same

-- without a teardown policy no trigger asks for a teardown
pub no_policy-is_to_go :
    (now : ℕ) (r : Roost)
    → r.spec.teardown_policy ≡ none
    → is_to_go now r r.spec.teardown_policy ≡ false
no_policy-is_to_go now r h = rw h refl
