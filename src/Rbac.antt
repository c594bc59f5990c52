-- ===== src/Rbac.antt =====
-- The validation of RBAC policies: internal/rbac/validator.go, over the types of
-- api/v1alpha1/managedroost_types.go that it reads. Severities are the strings of its literals.
pub mod Checks
pub mod Scores
pub mod Verdict
use Prim.Native.Char.{Char, code}
use Prim.Native.String.{len, find}
use roost_keeper.Prelude.{
  ◌&&◌, ◌||◌, ◌==◌, ℕ, ℤ, String, List, Option, Bool, true, false, leb, member,
}
use roost_keeper.Roost.{Message}

-- `rbacv1.PolicyRule`, a type of Kubernetes
pub record PolicyRule : Type 0 where
  pub verbs : List String
  pub api_groups : List String
  pub resources : List String
  pub resource_names : List String
  pub non_resource_urls : List String

-- `TokenRotationPolicy`
pub record TokenRotation : Type 0 where
  pub enabled : Bool
  pub rotation_interval : ℤ

-- `ServiceAccountSpec`; its lifecycle is read for the token rotation alone
pub record ServiceAccount : Type 0 where
  pub name : String
  pub automount_token : Bool
  pub lifecycle : Option (Option TokenRotation)

-- `RoleSpec`
pub record Role : Type 0 where
  pub name : String
  pub rules : List PolicyRule

-- `RoleBindingSpec`; of a subject its name is read
pub record RoleBinding : Type 0 where
  pub name : String
  pub subjects : List String

-- `RBACSpec`; of `Audit` and `PolicyValidation` is read whether they are enabled
pub record RbacSpec : Type 0 where
  pub identity_provider : String
  pub service_accounts : List ServiceAccount
  pub roles : List Role
  pub role_bindings : List RoleBinding
  pub audit : Option Bool
  pub policy_validation : Option Bool

pub data Severity : Type 0 where
  error critical high medium warning info : Severity

-- `ValidationIssue`
pub record Issue : Type 0 where
  pub severity : Severity
  pub component : String
  pub rule : String
  pub message : Message
  pub suggestion : String
  pub resource_ref : Message

-- `ValidationStats`
pub record Stats : Type 0 where
  pub total_rules : ℕ
  pub error_count : ℕ
  pub warning_count : ℕ
  pub info_count : ℕ
  pub security_score : ℕ
  pub compliance_score : ℕ

-- `ValidationResult`
pub record Result : Type 0 where
  pub valid : Bool
  pub issues : List Issue
  pub stats : Stats

-- `[a-z0-9]`
unfoldable pub is_alphanumeric : Char → Bool
is_alphanumeric c =
    (leb b'a' (code c) && leb (code c) b'z') || (leb b'0' (code c) && leb (code c) b'9')

-- what may follow the first character: `([-a-z0-9]*[a-z0-9])?$`
unfoldable pub ends_well : String → Bool
unfolding is_alphanumeric
ends_well String.[] = true
ends_well (String.◌∷◌ c String.[]) = is_alphanumeric c
ends_well (String.◌∷◌ c (String.◌∷◌ d s)) =
    (is_alphanumeric c || code c == b'-') && ends_well (String.◌∷◌ d s)

-- the expression `^[a-z0-9]([-a-z0-9]*[a-z0-9])?$`
unfoldable pub matches_name : String → Bool
unfolding is_alphanumeric ends_well
matches_name String.[] = false
matches_name (String.◌∷◌ c s) = is_alphanumeric c && ends_well s

-- `isValidKubernetesName`
unfoldable pub is_valid_kubernetes_name : String → Bool
unfolding matches_name
is_valid_kubernetes_name name = leb (len name) 63 && matches_name name

-- `contains`; `member` is the loop
unfoldable pub contains : List String → String → Bool
contains slice item = member item slice

-- `containsWildcard`
unfoldable pub contains_wildcard : List String → Bool
unfolding contains
contains_wildcard slice = contains slice "*"

-- `strings.Contains(name, "*")`
abbrev pub has_star : String → Bool
has_star name = leb (find name "*") (len name)

-- `hasRBACPermissions`
unfoldable pub has_rbac_permissions : PolicyRule → Bool
unfolding contains
has_rbac_permissions rule =
    contains rule.resources "roles"
    || contains rule.resources "rolebindings"
    || contains rule.resources "clusterroles"
    || contains rule.resources "clusterrolebindings"

-- `hasClusterAdminPermissions`
unfoldable pub has_cluster_admin_permissions : PolicyRule → Bool
unfolding contains_wildcard
has_cluster_admin_permissions rule =
    contains_wildcard rule.api_groups
    && contains_wildcard rule.resources
    && contains_wildcard rule.verbs
