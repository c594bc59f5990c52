-- ===== src/Teardown/Safety.antt =====
-- The safety checks before a teardown: internal/teardown/safety.go, over what the cluster lists.
use roost_keeper.Prelude.{
  ◌+◌, ◌∷◌, ◌++◌, if◌then◌else◌, ℕ, String, List, Option, Bool, pos, true, false, none, some, [],
  ltb, str_eq, length,
}
use roost_keeper.Roost.{
  Message, text, about, with_count, TeardownPolicy, DataPreservation, Reply, ok, err, Roost,
}
use roost_keeper.Teardown.{Severity, info, warning, error, critical, SafetyCheck}

-- what the checks read of a pod: whether its phase is Running
abbrev pub Pod : Type 0
Pod = Bool

pub data ServiceType : Type 0 where
  load_balancer node_port other_type : ServiceType

-- a service, with the address and the host name of each ingress of its load balancer
pub record Service : Type 0 where
  pub type_ : ServiceType
  pub ingress : List (String × String)

-- what the five listings return, by the check that asks
pub record Listings : Type 0 where
  pub active_pods : Reply (List Pod)
  pub claims : Reply (List String)
  pub dependent_services : Reply (List Service)
  pub running_pods : Reply (List Pod)
  pub external_services : Reply (List Service)

abbrev check_of : String → Bool → Severity → ℕ → Bool → Message → SafetyCheck
check_of name can_override severity now passed message = record {
  name = name;
  passed = passed;
  message = message;
  can_override = can_override;
  severity = severity;
  checked_at = now;
}

abbrev count_true : List Bool → ℕ
count_true [] = 0
count_true (b ∷ bs) = (if b then 1 else 0) + count_true bs

-- `checkActiveConnections`
unfoldable pub check_active_connections : ℕ → Reply (List Pod) → SafetyCheck
check_active_connections now (err m) =
    check_of "active_connections" true error now false
      (about "Failed to check for active connections: %v" m)
check_active_connections now (ok pods) =
    if ltb 0 (count_true pods)
    then check_of "active_connections" true warning now false
        (with_count "Found %d pods with potential active connections" (pos (count_true pods)))
    else check_of "active_connections" true warning now true (text "No active connections detected")

-- whether data preservation is there and enabled
abbrev pub preservation_enabled : Option DataPreservation → Bool
preservation_enabled none = false
preservation_enabled (some p) = p.enabled

abbrev pub policy_preserves : Option TeardownPolicy → Bool
policy_preserves none = false
policy_preserves (some p) = preservation_enabled p.data_preservation

abbrev pub preserves : Roost → Bool
preserves r = policy_preserves r.spec.teardown_policy

-- `checkPersistentVolumes`
unfoldable pub check_persistent_volumes : ℕ → Reply (List String) → Roost → SafetyCheck
check_persistent_volumes now (err m) r =
    check_of "persistent_volumes" false critical now false
      (about "Failed to check persistent volumes: %v" m)
check_persistent_volumes now (ok []) r =
    check_of "persistent_volumes" false critical now true (text "No persistent volumes found")
check_persistent_volumes now (ok (c ∷ cs)) r =
    let n = pos (length (c ∷ cs)) in
    if preserves r
    then check_of "persistent_volumes" true warning now true
        (with_count "Found %d PVCs but data preservation is enabled" n)
    else check_of "persistent_volumes" false critical now false
        (with_count "Found %d PVCs without data preservation enabled" n)

abbrev has_outside_access : ServiceType → Bool
has_outside_access load_balancer = true
has_outside_access node_port = true
has_outside_access other_type = false

abbrev count_outside : List Service → ℕ
count_outside [] = 0
count_outside (s ∷ ss) = (if has_outside_access s.type_ then 1 else 0) + count_outside ss

-- `checkDependentResources`
unfoldable pub check_dependent_resources : ℕ → Reply (List Service) → SafetyCheck
check_dependent_resources now (err m) =
    check_of "dependent_resources" true warning now false
      (about "Failed to check dependent resources: %v" m)
check_dependent_resources now (ok services) =
    let n = count_outside services in
    if ltb 0 n
    then check_of "dependent_resources" true warning now false
        (with_count "Found %d services with external access that may have dependencies" (pos n))
    else check_of "dependent_resources" true warning now true
        (text "No external dependencies detected")

-- `checkRunningPods`
unfoldable pub check_running_pods : ℕ → Reply (List Pod) → SafetyCheck
check_running_pods now (err m) =
    check_of "running_pods" true error now false (about "Failed to check running pods: %v" m)
check_running_pods now (ok pods) =
    if ltb 0 (count_true pods)
    then check_of "running_pods" true info now true
        (with_count "Found %d running pods that will be terminated" (pos (count_true pods)))
    else check_of "running_pods" true info now true (text "No running pods found")

-- the endpoints of the ingresses of a load balancer
abbrev endpoints : List (String × String) → List String
endpoints [] = []
endpoints ((ip, host) ∷ rest) =
    let more = endpoints rest in
    let hosts = if str_eq host "" then more else host ∷ more in
    if str_eq ip "" then hosts else ip ∷ hosts

abbrev is_load_balancer : ServiceType → Bool
is_load_balancer load_balancer = true
is_load_balancer _ = false

abbrev all_endpoints : List Service → List String
all_endpoints [] = []
all_endpoints (s ∷ ss) =
    let rest = all_endpoints ss in
    if is_load_balancer s.type_ then endpoints s.ingress ++ rest else rest

-- `checkServicesWithExternalEndpoints`
unfoldable pub check_services_with_external_endpoints : ℕ → Reply (List Service) → SafetyCheck
check_services_with_external_endpoints now (err m) =
    check_of "external_endpoints" true error now false (about "Failed to check services: %v" m)
check_services_with_external_endpoints now (ok services) =
    let n = length (all_endpoints services) in
    if ltb 0 n
    then check_of "external_endpoints" true warning now false
        (with_count "Found %d external endpoints that will become unavailable" (pos n))
    else check_of "external_endpoints" true warning now true (text "No external endpoints found")

-- `checkDataPersistence`
unfoldable pub check_data_persistence : ℕ → Roost → SafetyCheck
check_data_persistence now r =
    if preserves r
    then check_of "data_persistence" true warning now true (text "Data preservation is enabled")
    else check_of "data_persistence" true warning now false
        (text "Data preservation is not enabled - data may be lost")

abbrev has_backup : Option DataPreservation → Bool
has_backup none = false
has_backup (some p) = p.backup_policy

abbrev policy_backs_up : Option TeardownPolicy → Bool
policy_backs_up none = false
policy_backs_up (some p) = has_backup p.data_preservation

-- `checkBackupRequirements`
unfoldable pub check_backup_requirements : ℕ → Roost → SafetyCheck
check_backup_requirements now r =
    if policy_backs_up r.spec.teardown_policy
    then check_of "backup_requirements" true info now true (text "Backup policy is configured")
    else check_of "backup_requirements" true info now true (text "No backup policy configured")

abbrev pub policy_asks : Option TeardownPolicy → Bool
policy_asks none = false
policy_asks (some p) = p.require_manual_approval

abbrev pub requires_approval : Roost → Bool
requires_approval r = policy_asks r.spec.teardown_policy

-- `checkManualApprovalRequirements`: an approval cannot be given
unfoldable pub check_manual_approval_requirements : ℕ → Roost → SafetyCheck
check_manual_approval_requirements now r =
    if requires_approval r
    then check_of "manual_approval" false critical now false
        (text "Manual approval is required but not yet granted")
    else check_of "manual_approval" false critical now true (text "Manual approval is not required")

-- `PerformSafetyChecks`, which returns no error
unfoldable pub perform_safety_checks : ℕ → Listings → Roost → List SafetyCheck
perform_safety_checks now listings r =
    check_active_connections now listings.active_pods
    ∷ check_persistent_volumes now listings.claims r
    ∷ check_dependent_resources now listings.dependent_services
    ∷ check_running_pods now listings.running_pods
    ∷ check_services_with_external_endpoints now listings.external_services
    ∷ check_data_persistence now r
    ∷ check_backup_requirements now r
    ∷ check_manual_approval_requirements now r
    ∷ []
