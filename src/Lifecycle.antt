-- ===== src/Lifecycle.antt =====
-- The lifecycle manager: internal/lifecycle/manager.go, `ProcessLifecycle` and what it calls, and
-- `CleanupResources`. The calls of the Helm manager are arguments; metrics and logs are left out.
pub mod Triggers
pub mod Phases
use roost_keeper.Prelude.{
  ◌&&◌, ◌||◌, ◌∷◌, ◌+ℤ◌, if◌then◌else◌, ℕ, ℤ, String, List, Option, Bool, pos, true, false, not,
  none, some, [], str_eq, ltb_ℤ, leb_ℤ, inc, max_int32, wrap_int32, lookup,
}
use roost_keeper.Health.{since}
use roost_keeper.Roost.{
  Message, text, about, with_text, with_durations, with_counts, Phase, unset, pending, deploying,
  ready, failed, tearing_down, Trigger, TeardownPolicy, HealthCheckStatus, TeardownStatus,
  HelmRelease, ConditionStatus, condition_false, Condition, Roost,
}

-- what `helmManager.GetStatus` returns: an `IsNotFound` error, another error, or a status, which
-- may be nil
pub data HelmStatus : Type 0 where
  release_not_found : HelmStatus
  status_failed : Message → HelmStatus
  release : Option HelmRelease → HelmStatus

abbrev set_phase : ℕ → Phase → Roost → Roost
set_phase now p r = record r {
  status = record (r.status) { phase = p; last_update_time = some now };
}

abbrev is_unset : Phase → Bool
is_unset unset = true
is_unset _ = false

-- `trackRoostCreation`
unfoldable pub track_roost_creation : ℕ → Roost → Roost
track_roost_creation now r = if is_unset r.status.phase then set_phase now pending r else r

-- `determinePhaseFromHelmStatus`
unfoldable pub determine_phase_from_helm_status : HelmRelease → Phase
determine_phase_from_helm_status h =
    if str_eq h.status "deployed"
    then ready
    else if str_eq h.status "pending-install" || str_eq h.status "pending-upgrade"
    then deploying
    else if str_eq h.status "pending-rollback"
    then deploying
    else if str_eq h.status "failed"
    then failed
    else if str_eq h.status "uninstalling"
    then tearing_down
    else pending

-- `oldPhase != newPhase`; a phase that Helm's status gives is never unset or unknown
abbrev same_phase : Phase → Phase → Bool
same_phase pending pending = true
same_phase deploying deploying = true
same_phase ready ready = true
same_phase failed failed = true
same_phase tearing_down tearing_down = true
same_phase _ _ = false

abbrev follow_release : ℕ → Roost → HelmRelease → Roost
follow_release now r h =
    let p = determine_phase_from_helm_status h in
    if same_phase r.status.phase p then r else record r {
      status = record (r.status) { phase = p; last_update_time = some now; helm_release = some h };
    }

-- `monitorDeploymentStatus`
unfoldable pub monitor_deployment_status : ℕ → HelmStatus → Roost → Roost × Option Message
monitor_deployment_status now release_not_found r = (r, none)
monitor_deployment_status now (status_failed e) r =
    (r, some (about "failed to get release status: %w" e))
monitor_deployment_status now (release none) r = (r, none)
monitor_deployment_status now (release (some h)) r = (follow_release now r h, none)

-- `int32` addition wraps
unfoldable pub add_int32 : ℤ → ℤ → ℤ
add_int32 a b = wrap_int32 (a +ℤ b)

abbrev is_false : ConditionStatus → Bool
is_false condition_false = true
is_false _ = false

count_conditions : List Condition → ℤ → ℤ
count_conditions [] n = n
count_conditions (c ∷ cs) n = count_conditions cs (
    let n' = if str_eq c.type_ "Ready" && is_false c.status then inc max_int32 n else n in
    if str_eq c.type_ "Healthy" && is_false c.status then inc max_int32 n' else n')

count_checks : List HealthCheckStatus → ℤ → ℤ
count_checks [] n = n
count_checks (h ∷ hs) n =
    count_checks hs (if str_eq h.status "unhealthy" then add_int32 n h.failure_count else n)

-- `countRecentFailures`
unfoldable pub count_recent_failures : Roost → ℤ
unfolding count_conditions count_checks
count_recent_failures r =
    count_checks r.status.health_checks (count_conditions r.status.conditions (pos 0))

-- `checkResourceThresholds` and `shouldTriggerBySchedule`, which always answer no
unfoldable pub check_resource_thresholds : Roost → Bool × Message
check_resource_thresholds r = (false, text "")

unfoldable pub should_trigger_by_schedule : String → ℕ → Bool
should_trigger_by_schedule schedule created = false

abbrev timeout_trigger : ℕ → Roost → Option ℤ → Option Message
timeout_trigger now r none = none
timeout_trigger now r (some limit) =
    let age = since now r.creation_timestamp in
    if ltb_ℤ limit age
    then some (with_durations "timeout exceeded: %v (age: %v)" limit age)
    else none

abbrev failure_trigger : Roost → Option ℤ → Option Message
failure_trigger r none = none
failure_trigger r (some limit) =
    let n = count_recent_failures r in
    if leb_ℤ limit n then some (with_counts "failure count exceeded: %d/%d" n limit) else none

abbrev resource_trigger : Roost → Bool → Option Message
resource_trigger r false = none
resource_trigger r true =
    let (exceeded, reason) = check_resource_thresholds r in
    if exceeded then some (about "resource threshold exceeded: %s" reason) else none

abbrev schedule_trigger : Roost → String → Option Message
schedule_trigger r schedule =
    if not (str_eq schedule "") && should_trigger_by_schedule schedule r.creation_timestamp
    then some (with_text "scheduled teardown: %s" schedule)
    else none

abbrev webhook_trigger : Roost → Bool → Option Message
webhook_trigger r false = none
webhook_trigger r true = elim (lookup "roost-keeper.io/teardown-trigger" r.annotations) [
  | none ↦ none
  | some reason ↦ some (with_text "webhook triggered teardown: %s" reason)
]

-- `evaluateTeardownTrigger`: the reason, if the trigger says that the roost is to go
unfoldable pub evaluate_teardown_trigger : ℕ → Roost → Trigger → Option Message
evaluate_teardown_trigger now r t =
    if str_eq t.type_ "timeout"
    then timeout_trigger now r t.timeout
    else if str_eq t.type_ "failure_count"
    then failure_trigger r t.failure_count
    else if str_eq t.type_ "resource_threshold"
    then resource_trigger r t.resource_threshold
    else if str_eq t.type_ "schedule"
    then schedule_trigger r t.schedule
    else if str_eq t.type_ "webhook"
    then webhook_trigger r t.webhook
    else none

-- the loop of `evaluateTeardownPolicies`: the first trigger that fires
unfoldable pub first_trigger : ℕ → Roost → List Trigger → Option Message
first_trigger now r [] = none
first_trigger now r (t ∷ ts) = elim (evaluate_teardown_trigger now r t) [
  | none ↦ first_trigger now r ts
  | some reason ↦ some reason
]

abbrev policy_trigger : ℕ → Roost → Option TeardownPolicy → Option Message
policy_trigger now r none = none
policy_trigger now r (some policy) = first_trigger now r policy.triggers

-- `evaluateTeardownPolicies`
unfoldable pub evaluate_teardown_policies : ℕ → Roost → Option Message
evaluate_teardown_policies now r = policy_trigger now r r.spec.teardown_policy

-- `triggerTeardown`
unfoldable pub trigger_teardown : ℕ → Message → Roost → Roost
trigger_teardown now reason r = record r {
  status = record (r.status) {
    phase = tearing_down;
    last_update_time = some now;
    teardown = some (record {
      triggered = true;
      trigger_reason = reason;
      trigger_time = some now;
      completion_time = none;
      progress = pos 0;
    });
  };
}

abbrev trigger_found : ℕ → Roost → Option Message → Roost
trigger_found now r none = r
trigger_found now r (some reason) = trigger_teardown now reason r

abbrev after_monitor : ℕ → Roost × Option Message → Roost × Option Message
after_monitor now (r, some e) = (r, some (about "failed to monitor deployment status: %w" e))
after_monitor now (r, none) = (trigger_found now r (evaluate_teardown_policies now r), none)

-- `ProcessLifecycle`
unfoldable pub process_lifecycle : ℕ → HelmStatus → Roost → Roost × Option Message
process_lifecycle now helm r =
    after_monitor now (monitor_deployment_status now helm (track_roost_creation now r))

abbrev set_progress : ℤ → Roost → Option TeardownStatus → Roost
set_progress n r none = r
set_progress n r (some t) = record r {
  status = record (r.status) { teardown = some (record t { progress = n }) };
}

abbrev complete : ℕ → Roost → Option TeardownStatus → Roost
complete now r none = r
complete now r (some t) = record r {
  status = record (r.status) {
    teardown = some (record t { progress = pos 100; completion_time = some now });
  };
}

abbrev after_uninstall : ℕ → Roost → Option Message → Roost × Option Message
after_uninstall now r (some e) = (r, some (about "failed to cleanup Helm release: %w" e))
after_uninstall now r none =
    let r' = set_progress (pos 70) r r.status.teardown in (complete now r' r'.status.teardown, none)

-- `CleanupResources`; `cleanupOperatorManagedResources` does nothing and cannot fail
unfoldable pub cleanup_resources : ℕ → Option Message → Roost → Roost × Option Message
cleanup_resources now uninstall r =
    after_uninstall now (set_progress (pos 10) r r.status.teardown) uninstall
