-- ===== src/Tenancy.antt =====
-- The isolation of tenants: internal/tenancy/validator.go, internal/tenancy/manager.go and the
-- checks of internal/tenancy/quota.go. What the cluster answers to the calls of a client is an
-- argument, and a `nil` map is `none`.
pub mod Manager
pub mod Isolation
pub mod Labels
pub mod Names
use roost_keeper.Prelude.{
  ◌||◌, ◌∷◌, if◌then◌else◌, ℕ, String, List, Option, suc, not, none, some, [], str_eq, lookup,
}
use roost_keeper.Roost.{Message, text, with_text, with_texts, about, about_text, Reply, ok, err}

-- the answer of `client.Get`, with the test `errors.IsNotFound`
pub data Answer (A : Type 0) : Type 0 where
  found : A → Answer A
  not_found : Message → Answer A
  failed : Message → Answer A

-- `corev1.Namespace`, a type of Kubernetes
pub record Namespace : Type 0 where
  pub name : String
  pub labels : Option (List (String × String))
  pub annotations : Option (List (String × String))

-- the constants of manager.go
abbrev pub tenant_id_label : String
tenant_id_label = "roost-keeper.io/tenant"

abbrev pub tenant_isolation_label : String
tenant_isolation_label = "roost-keeper.io/isolation"

abbrev pub isolation_enabled_annotation : String
isolation_enabled_annotation = "roost-keeper.io/tenant-isolation-enforced"

abbrev pub policy_version_annotation : String
policy_version_annotation = "roost-keeper.io/tenant-policy-version"

abbrev pub created_by_annotation : String
created_by_annotation = "roost-keeper.io/tenant-created-by"

abbrev pub current_policy_version : String
current_policy_version = "v1"

-- `m[k]`: the empty string where the key is missing
abbrev pub or_empty : Option String → String
or_empty none = ""
or_empty (some v) = v

unfoldable pub value_at : String → List (String × String) → String
value_at k m = or_empty (lookup k m)

-- `m[k]` where `m` may be `nil`
abbrev pub value_in : String → Option (List (String × String)) → String
value_in k none = ""
value_in k (some m) = value_at k m

-- the tenant by which a namespace is labelled
abbrev pub tenant_of : Namespace → String
tenant_of n = value_in tenant_id_label n.labels

abbrev access_labelled :
    Namespace → String → String → Option (List (String × String)) → Option Message
access_labelled n name tenant none =
    some (with_text "namespace %s is not labeled for any tenant" name)
access_labelled n name tenant (some labels) =
    let owner = value_at tenant_id_label labels in
    if str_eq owner ""
    then none
    else if str_eq owner tenant
    then none
    else some (with_texts "namespace %s belongs to tenant %s, not %s" (name ∷ owner ∷ tenant ∷ []))

-- `ValidateTenantAccess`
unfoldable pub validate_tenant_access : String → String → Answer Namespace → Option Message
unfolding value_at
validate_tenant_access name tenant (not_found e) =
    some (with_text "namespace %s does not exist" name)
validate_tenant_access name tenant (failed e) =
    some (about_text "failed to get namespace %s: %w" name e)
validate_tenant_access name tenant (found n) = access_labelled n name tenant n.labels

-- `ValidateCrossNamespaceAccess`, for a namespace that is named
unfoldable pub validate_cross_namespace_access : String → String → Answer Namespace → Option Message
validate_cross_namespace_access tenant target (not_found e) =
    some (with_text "target namespace %s does not exist" target)
validate_cross_namespace_access tenant target (failed e) =
    some (about_text "failed to get target namespace %s: %w" target e)
validate_cross_namespace_access tenant target (found n) =
    if str_eq (tenant_of n) "" || str_eq (tenant_of n) tenant
    then none
    else some (
        with_texts "tenant %s cannot access namespace %s belonging to tenant %s"
          (tenant ∷ target ∷ tenant_of n ∷ []))

-- the answers of the calls of `Get`, by the number of the call and the name asked for
abbrev pub Answers : Type 0
Answers = ℕ → String → Answer Namespace

-- one loop of `validateChartValues` over the namespaces of references, from the call with number
-- `n`: the number of the next call
abbrev ref_checked : String → ℕ → Option Message → Reply ℕ
ref_checked kind n none = ok (suc n)
ref_checked kind n (some e) = err (about kind e)

infixl 5 ◌>>=◌
abbrev pub ◌>>=◌ : Reply ℕ → (ℕ → Reply ℕ) → Reply ℕ
ok n >>= f = f n
err e >>= f = err e

unfoldable pub validate_refs : Answers → String → String → List String → ℕ → Reply ℕ
unfolding validate_cross_namespace_access
validate_refs get kind tenant [] n = ok n
validate_refs get kind tenant (ref ∷ refs) n =
    (if str_eq ref ""
      then ok n
      else ref_checked kind n (validate_cross_namespace_access tenant ref (get n ref)))
    >>= validate_refs get kind tenant refs

-- the namespaces of the references of `ChartValuesSpec`
pub record ChartValues : Type 0 where
  pub config_map_refs : List String
  pub secret_refs : List String

-- `validateChartValues`
unfoldable pub validate_chart_values : Answers → ChartValues → String → Reply ℕ
unfolding validate_refs
validate_chart_values get values tenant =
    validate_refs get "invalid ConfigMap reference: %w" tenant values.config_map_refs 0
    >>= validate_refs get "invalid Secret reference: %w" tenant values.secret_refs

abbrev chart_checked : Reply ℕ → Option Message
chart_checked (ok n) = none
chart_checked (err e) = some (about "chart values validation failed: %w" e)

-- `ValidateResourceAccess`, over the tenant and the chart's values that the roost names
unfoldable pub validate_resource_access :
    Answers → Option String → Option ChartValues → Option Message
unfolding validate_chart_values
validate_resource_access get none values = none
validate_resource_access get (some tenant) none = none
validate_resource_access get (some tenant) (some values) =
    chart_checked (validate_chart_values get values tenant)

-- `ValidateNamespaceLabels`
abbrev labels_checked : Namespace → String → Option (List (String × String)) → Option Message
labels_checked n expected none = some (with_text "namespace %s has no labels" n.name)
labels_checked n expected (some labels) =
    let actual = value_at tenant_id_label labels in
    if str_eq actual ""
    then some (with_texts "namespace %s missing tenant label %s" (n.name ∷ tenant_id_label ∷ []))
    else if not (str_eq actual expected)
    then some
        (with_texts "namespace %s has tenant %s, expected %s" (n.name ∷ actual ∷ expected ∷ []))
    else if not (str_eq (value_at tenant_isolation_label labels) "enabled")
    then some (with_text "namespace %s does not have isolation enabled" n.name)
    else none

unfoldable pub validate_namespace_labels : Namespace → String → Option Message
unfolding value_at
validate_namespace_labels n expected = labels_checked n expected n.labels

-- `GetNamespaceTenant`
abbrev labelled_tenant : String → Option (List (String × String)) → Reply String
labelled_tenant name none = err (with_text "namespace %s has no labels" name)
labelled_tenant name (some labels) =
    let tenant = value_at tenant_id_label labels in
    if str_eq tenant "" then err (with_text "namespace %s has no tenant label" name) else ok tenant

unfoldable pub get_namespace_tenant : String → Answer Namespace → Reply String
unfolding value_at
get_namespace_tenant name (not_found e) = err (about_text "failed to get namespace %s: %w" name e)
get_namespace_tenant name (failed e) = err (about_text "failed to get namespace %s: %w" name e)
get_namespace_tenant name (found n) = labelled_tenant name n.labels

-- `ValidateTenantIsolationEnabled`; an outdated policy version is logged
abbrev annotations_checked : String → Option (List (String × String)) → Option Message
annotations_checked name none =
    some (with_text "namespace %s missing tenant isolation annotations" name)
annotations_checked name (some annotations) =
    if not (str_eq (value_at isolation_enabled_annotation annotations) "true")
    then some (with_text "tenant isolation not enabled for namespace %s" name)
    else if str_eq (value_at policy_version_annotation annotations) ""
    then some (with_text "namespace %s missing tenant policy version" name)
    else none

unfoldable pub validate_tenant_isolation_enabled : String → Answer Namespace → Option Message
unfolding value_at
validate_tenant_isolation_enabled name (not_found e) =
    some (about_text "failed to get namespace %s: %w" name e)
validate_tenant_isolation_enabled name (failed e) =
    some (about_text "failed to get namespace %s: %w" name e)
validate_tenant_isolation_enabled name (found n) = annotations_checked name n.annotations
