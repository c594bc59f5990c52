-- ===== src/Tenancy/Manager.antt =====
-- The manager of internal/tenancy/manager.go. What the managers of RBAC, network policies and
-- quotas return is an argument.
use Prim.Native.Char.{Char, code}
use Prim.Native.String.{len}
use roost_keeper.Prelude.{
  ◌&&◌, ◌||◌, ◌∷◌, ◌++◌, ◌==◌, if◌then◌else◌, String, List, Option, Bool, pos, true, false, not,
  none, some, [], ltb, leb, str_eq, insert, member,
}
use roost_keeper.Roost.{Message, text, with_text, with_count, about, about_text}
use roost_keeper.Tenancy.{
  Answer, found, not_found, failed, Namespace, validate_tenant_access, tenant_id_label,
  tenant_isolation_label, isolation_enabled_annotation, policy_version_annotation,
  created_by_annotation, current_policy_version,
}

-- `NamespaceIsolationSpec`
pub record NamespaceIsolation : Type 0 where
  pub enabled : Bool
  pub labels : List (String × String)
  pub annotations : List (String × String)

-- `ResourceQuotaSpec`; a quantity is its `String()`
pub record ResourceQuota : Type 0 where
  pub enabled : Bool
  pub hard : List (String × String)
  pub scopes : List String

-- `TenancySpec`; of `RBAC` and `NetworkPolicy` is read whether they are enabled
pub record Tenancy : Type 0 where
  pub tenant_id : String
  pub namespace_isolation : Option NamespaceIsolation
  pub rbac : Option Bool
  pub network_policy : Option Bool
  pub resource_quota : Option ResourceQuota

-- what the calls of one run return
pub record Calls : Type 0 where
  pub access_get : Answer Namespace
  pub isolation_get : Answer Namespace
  pub update : Option Message
  pub setup_rbac : Option Message
  pub apply_network_policies : Option Message
  pub setup_resource_quota : Option Message

-- the calls that change the cluster
pub data Action : Type 0 where
  update_namespace : Namespace → Action
  tenant_rbac network_policies quota : Action

-- `for key, value := range entries { m[key] = value }`
unfoldable pub set_all : List (String × String) → List (String × String) → List (String × String)
set_all [] m = m
set_all ((k, v) ∷ es) m = set_all es (insert k v m)

abbrev pub or_new : Option (List (String × String)) → List (String × String)
or_new none = []
or_new (some m) = m

abbrev pub extra_labels : Option NamespaceIsolation → List (String × String)
extra_labels none = []
extra_labels (some iso) = iso.labels

abbrev pub extra_annotations : Option NamespaceIsolation → List (String × String)
extra_annotations none = []
extra_annotations (some iso) = iso.annotations

-- the namespace that `enforceNamespaceIsolation` writes
unfoldable pub isolated : String → Option NamespaceIsolation → Namespace → Namespace
unfolding set_all
isolated tenant iso n = record n {
  labels = some (
      set_all (extra_labels iso) (
        insert tenant_isolation_label "enabled" (insert tenant_id_label tenant (or_new n.labels))));
  annotations = some (
      insert created_by_annotation "roost-keeper" (
        insert policy_version_annotation current_policy_version (
          insert isolation_enabled_annotation "true"
            (set_all (extra_annotations iso) (or_new n.annotations)))));
}

-- the actions so far, and the error of the step
abbrev pub Step : Type 0
Step = List Action × Option Message

abbrev wrap : String → Option Message → Option Message
wrap format none = none
wrap format (some e) = some (about format e)

-- `enforceNamespaceIsolation`
unfoldable pub enforce_namespace_isolation :
    Calls → String → String → Option NamespaceIsolation → Step
unfolding isolated
enforce_namespace_isolation calls name tenant iso = elim calls.isolation_get [
  | found n ↦ (
    update_namespace (isolated tenant iso n) ∷ [],
    wrap "failed to update namespace labels and annotations: %w" calls.update,
  )
  | not_found e ↦ ([], some (about_text "failed to get namespace %s: %w" name e))
  | failed e ↦ ([], some (about_text "failed to get namespace %s: %w" name e))
]

-- a step of `EnforceTenantIsolation` after those before it: it runs if it is enabled and they
-- have not failed
unfoldable pub then_step : Step → Bool → String → Step → Step
then_step (done, some e) enabled format next = (done, some e)
then_step (done, none) enabled format next =
    if enabled then (done ++ next.0, wrap format next.1) else (done, none)

abbrev pub is_on : Option Bool → Bool
is_on none = false
is_on (some enabled) = enabled

abbrev pub isolation_on : Option NamespaceIsolation → Bool
isolation_on none = false
isolation_on (some iso) = iso.enabled

abbrev pub quota_on : Option ResourceQuota → Bool
quota_on none = false
quota_on (some q) = q.enabled

-- the steps after the validation of the tenant's access
abbrev enforce_steps : Calls → String → Tenancy → Option Message → Step
enforce_steps calls name t (some e) = ([], some (about "tenant access validation failed: %w" e))
enforce_steps calls name t none =
    then_step
      (then_step
        (then_step
          (then_step ([], none) (isolation_on t.namespace_isolation)
            "failed to enforce namespace isolation: %w"
            (enforce_namespace_isolation calls name t.tenant_id t.namespace_isolation))
          (is_on t.rbac) "failed to setup tenant RBAC: %w" (tenant_rbac ∷ [], calls.setup_rbac))
        (is_on t.network_policy) "failed to apply network policies: %w"
        (network_policies ∷ [], calls.apply_network_policies))
      (quota_on t.resource_quota) "failed to setup resource quota: %w"
      (quota ∷ [], calls.setup_resource_quota)

-- `EnforceTenantIsolation`, for a roost in the namespace `name`
unfoldable pub enforce_tenant_isolation : Calls → String → Option Tenancy → Step
unfolding then_step enforce_namespace_isolation validate_tenant_access
enforce_tenant_isolation calls name none = ([], none)
enforce_tenant_isolation calls name (some t) =
    if str_eq t.tenant_id ""
    then ([], some (text "tenant ID is required when tenancy is enabled"))
    else enforce_steps calls name t (validate_tenant_access name t.tenant_id calls.access_get)

-- a character of a DNS label
unfoldable pub is_label_char : Char → Bool
is_label_char c =
    (leb b'a' (code c) && leb (code c) b'z')
    || (leb b'0' (code c) && leb (code c) b'9')
    || code c == b'-'

abbrev pub is_first_or_last : Bool → String → Bool
is_first_or_last first String.[] = true
is_first_or_last first (String.◌∷◌ d s) = first

-- the loop of `isDNSLabel`. A character that passes is one byte, so that the last of the bytes is
-- the one that nothing follows.
unfoldable pub label_loop : Bool → String → Bool
unfolding is_label_char
label_loop first String.[] = true
label_loop first (String.◌∷◌ c s) =
    let rest = label_loop false s in
    if not (is_label_char c)
    then false
    else if is_first_or_last first s && code c == b'-'
    then false
    else rest

-- `isDNSLabel`
unfoldable pub is_dns_label : String → Bool
unfolding label_loop
is_dns_label value = if len value == 0 || ltb 63 (len value) then false else label_loop true value

-- `ValidateQuotaSpec` of quota.go; `parses` is whether `resource.ParseQuantity` succeeds
unfoldable pub first_unparsed : (String → Option Message) → List (String × String) → Option Message
first_unparsed parse [] = none
first_unparsed parse ((r, q) ∷ es) =
    let rest = first_unparsed parse es in
    elim (parse q) [
      | some e ↦ some (about_text "invalid quantity for resource %s: %w" r e)
      | none ↦ rest
    ]

abbrev valid_scopes : List String
valid_scopes =
    "Terminating" ∷ "NotTerminating" ∷ "BestEffort" ∷ "NotBestEffort" ∷ "PriorityClass" ∷ []

unfoldable pub first_invalid_scope : List String → Option Message
first_invalid_scope [] = none
first_invalid_scope (scope ∷ scopes) =
    let rest = first_invalid_scope scopes in
    if member scope valid_scopes
    then rest
    else some (with_text "invalid resource quota scope: %s" scope)

abbrev or_else : Option Message → Option Message → Option Message
or_else none m = m
or_else (some e) m = some e

abbrev hard_checked : (String → Option Message) → List (String × String) → Option Message
hard_checked parse [] = some (text "quota spec must define hard limits")
hard_checked parse (e ∷ es) = first_unparsed parse (e ∷ es)

unfoldable pub validate_quota_spec : (String → Option Message) → ResourceQuota → Option Message
unfolding first_unparsed first_invalid_scope
validate_quota_spec parse q = or_else (hard_checked parse q.hard) (first_invalid_scope q.scopes)

abbrev quota_checked : (String → Option Message) → Option ResourceQuota → Option Message
quota_checked parse none = none
quota_checked parse (some q) =
    if q.enabled
    then wrap "invalid resource quota specification: %w" (validate_quota_spec parse q)
    else none

-- `ValidateTenantSpec`
unfoldable pub validate_tenant_spec : (String → Option Message) → Option Tenancy → Option Message
unfolding is_dns_label validate_quota_spec
validate_tenant_spec parse none = none
validate_tenant_spec parse (some t) =
    if str_eq t.tenant_id ""
    then some (text "tenantId is required when tenancy is configured")
    else if ltb 63 (len t.tenant_id)
    then some (with_count "tenantId must be 63 characters or less, got %d" (pos (len t.tenant_id)))
    else if not (is_dns_label t.tenant_id)
    then some (text "tenantId must be a valid DNS label (lowercase alphanumeric and hyphens)")
    else quota_checked parse t.resource_quota
