-- ===== src/Rbac/Checks.antt =====
-- The checks of internal/rbac/validator.go. A check returns the issues that it appends, in their
-- order.
use roost_keeper.Prelude.{
  ◌+◌, ◌&&◌, ◌||◌, ◌∷◌, ◌++◌, if◌then◌else◌, ℕ, String, List, Option, Bool, suc, pos, true, false,
  not, none, some, [], str_eq, length, ltb_ℤ,
}
use roost_keeper.Roost.{Message, text, with_text, with_index}
use roost_keeper.Rbac.{
  PolicyRule, TokenRotation, ServiceAccount, Role, RoleBinding, RbacSpec, Severity, error, critical,
  high, medium, warning, info, Issue, is_valid_kubernetes_name, contains, contains_wildcard,
  has_star, has_rbac_permissions, has_cluster_admin_permissions,
}

-- `append(result.Issues, ...)` under a test
abbrev pub issue_if : Bool → Severity → String → String → Message → String → Message → List Issue
issue_if test severity component rule message suggestion resource_ref =
    if test
    then record {
      severity = severity;
      component = component;
      rule = rule;
      message = message;
      suggestion = suggestion;
      resource_ref = resource_ref;
    }
      ∷ []
    else []

abbrev pub is_empty {ℓ} : {A : Type ℓ} → List A → Bool
is_empty [] = true
is_empty (x ∷ xs) = false

-- the hours of the interval are less than 24, where the rotation is configured and enabled
unfoldable pub rotates_too_often : Option (Option TokenRotation) → Bool
rotates_too_often none = false
rotates_too_often (some none) = false
rotates_too_often (some (some r)) = r.enabled && ltb_ℤ r.rotation_interval (pos 86_400_000_000_000)

-- `validateServiceAccounts`
unfoldable pub check_service_account : ServiceAccount → List Issue
unfolding rotates_too_often
check_service_account sa =
    issue_if (not (is_valid_kubernetes_name sa.name)) error "service_account" "invalid_name"
      (with_text "Service account name '%s' is not valid" sa.name)
      "Use lowercase alphanumeric characters and hyphens only" (text sa.name)
    ++ issue_if sa.automount_token warning "service_account" "automount_token"
        (with_text "Service account '%s' has automount token enabled" sa.name)
        "Disable automount token unless specifically required" (text sa.name)
    ++ issue_if (rotates_too_often sa.lifecycle) warning "service_account" "short_rotation_interval"
        (with_text "Service account '%s' has very short token rotation interval" sa.name)
        "Consider using at least 24 hour rotation interval" (text sa.name)

unfoldable pub validate_service_accounts : List ServiceAccount → List Issue
unfolding check_service_account
validate_service_accounts [] = []
validate_service_accounts (sa ∷ sas) = check_service_account sa ++ validate_service_accounts sas

abbrev pub rule_ref : String → ℕ → Message
rule_ref role i = with_index "%s.rule[%d]" role i

-- `checkDangerousPermissions`
unfoldable pub check_dangerous_permissions : PolicyRule → String → Message → List Issue
check_dangerous_permissions rule role ref =
    issue_if
      (contains rule.resources "pods"
        && contains rule.verbs "create"
        && is_empty rule.resource_names)
      medium "policy_rule" "pod_create_access"
      (with_text "Role '%s' can create pods without restriction" role)
      "Consider restricting pod creation or adding resource name constraints" ref
    ++ issue_if (contains rule.resources "nodes") high "policy_rule" "node_access"
        (with_text "Role '%s' has access to node resources" role)
        "Node access should be limited to cluster administrators" ref

-- `validatePolicyRules`, from the rule with the index `i`
unfoldable pub validate_policy_rules : ℕ → List PolicyRule → String → List Issue
unfolding check_dangerous_permissions
validate_policy_rules i [] role = []
validate_policy_rules i (rule ∷ rules) role =
    (issue_if (is_empty rule.verbs) error "policy_rule" "no_verbs"
        (with_text "Policy rule in role '%s' has no verbs" role)
        "Specify at least one verb for the policy rule" (rule_ref role i)
      ++ issue_if (is_empty rule.resources && is_empty rule.non_resource_urls) error "policy_rule"
          "no_resources" (with_text "Policy rule in role '%s' has no resources or URLs" role)
          "Specify resources or non-resource URLs for the policy rule" (rule_ref role i)
      ++ check_dangerous_permissions rule role (rule_ref role i))
    ++ validate_policy_rules (suc i) rules role

-- `checkBroadPermissions`
unfoldable pub check_broad_permissions : ℕ → List PolicyRule → String → List Issue
check_broad_permissions i [] role = []
check_broad_permissions i (rule ∷ rules) role =
    issue_if (contains rule.resources "secrets" && contains rule.verbs "*") high "policy_rule"
      "broad_secret_access" (with_text "Role '%s' has broad access to secrets" role)
      "Limit secret access to specific resources when possible" (rule_ref role i)
    ++ check_broad_permissions (suc i) rules role

-- `validateRoles`; the check of the rules of a role without rules appends nothing
unfoldable pub validate_roles : List Role → List Issue
unfolding validate_policy_rules check_broad_permissions
validate_roles [] = []
validate_roles (role ∷ roles) =
    (issue_if (not (is_valid_kubernetes_name role.name)) error "role" "invalid_name"
        (with_text "Role name '%s' is not valid" role.name)
        "Use lowercase alphanumeric characters and hyphens only" (text role.name)
      ++ validate_policy_rules 0 role.rules role.name
      ++ check_broad_permissions 0 role.rules role.name)
    ++ validate_roles roles

-- what `validateRoles` adds to the count of rules
unfoldable pub total_rules : List Role → ℕ
total_rules [] = 0
total_rules (role ∷ roles) = length role.rules + total_rules roles

-- the loop of `validateRoleBindings` over the subjects
unfoldable pub validate_subjects : String → List String → List Issue
validate_subjects binding [] = []
validate_subjects binding (subject ∷ subjects) =
    issue_if (str_eq subject "") error "role_binding" "empty_subject_name"
      (with_text "Role binding '%s' has subject with empty name" binding)
      "Provide a valid name for all subjects" (text binding)
    ++ validate_subjects binding subjects

-- `checkWildcardSubjects`
unfoldable pub check_wildcard_subjects : String → List String → List Issue
check_wildcard_subjects binding [] = []
check_wildcard_subjects binding (subject ∷ subjects) =
    issue_if (has_star subject) high "role_binding" "wildcard_subject"
      (with_text "Role binding '%s' uses wildcard in subject name" binding)
      "Use explicit subject names instead of wildcards" (text binding)
    ++ check_wildcard_subjects binding subjects

-- `validateRoleBindings`
unfoldable pub validate_role_bindings : List RoleBinding → List Issue
unfolding validate_subjects check_wildcard_subjects
validate_role_bindings [] = []
validate_role_bindings (binding ∷ bindings) =
    (issue_if (not (is_valid_kubernetes_name binding.name)) error "role_binding" "invalid_name"
        (with_text "Role binding name '%s' is not valid" binding.name)
        "Use lowercase alphanumeric characters and hyphens only" (text binding.name)
      ++ issue_if (is_empty binding.subjects) error "role_binding" "no_subjects"
          (with_text "Role binding '%s' has no subjects" binding.name)
          "Add at least one subject to the role binding" (text binding.name)
      ++ validate_subjects binding.name binding.subjects
      ++ check_wildcard_subjects binding.name binding.subjects)
    ++ validate_role_bindings bindings

abbrev is_on : Option Bool → Bool
is_on none = false
is_on (some enabled) = enabled

-- `validateSecurityBestPractices`
unfoldable pub validate_security_best_practices : RbacSpec → List Issue
validate_security_best_practices spec =
    issue_if (not (is_on spec.audit)) warning "configuration" "audit_disabled"
      (text "Audit logging is not enabled") "Enable audit logging for security compliance" (text "")
    ++ issue_if (not (is_on spec.policy_validation)) info "configuration" "validation_disabled"
        (text "Policy validation is not enabled") "Enable policy validation for better security"
        (text "")
    ++ issue_if (str_eq spec.identity_provider "") info "configuration" "no_identity_provider"
        (text "No identity provider configured")
        "Consider integrating with an identity provider for better user management" (text "")

-- the loop of `validateLeastPrivilege` over the rules of a role
unfoldable pub check_least_privilege : ℕ → List PolicyRule → String → List Issue
check_least_privilege i [] role = []
check_least_privilege i (rule ∷ rules) role =
    (issue_if (contains_wildcard rule.verbs) warning "policy_rule" "wildcard_verbs"
        (with_text "Role '%s' uses wildcard verbs" role)
        "Specify explicit verbs instead of wildcards" (rule_ref role i)
      ++ issue_if (contains_wildcard rule.resources) warning "policy_rule" "wildcard_resources"
          (with_text "Role '%s' uses wildcard resources" role)
          "Specify explicit resources instead of wildcards" (rule_ref role i)
      ++ issue_if (contains_wildcard rule.api_groups || contains rule.api_groups "") warning
          "policy_rule" "broad_api_groups"
          (with_text "Role '%s' grants access to core API group or uses wildcards" role)
          "Limit to specific API groups when possible" (rule_ref role i))
    ++ check_least_privilege (suc i) rules role

-- `validateLeastPrivilege`
unfoldable pub validate_least_privilege : List Role → List Issue
unfolding check_least_privilege
validate_least_privilege [] = []
validate_least_privilege (role ∷ roles) =
    check_least_privilege 0 role.rules role.name ++ validate_least_privilege roles

-- the loop of `validatePrivilegeEscalation` over the rules of a role
unfoldable pub check_privilege_escalation : ℕ → List PolicyRule → String → List Issue
check_privilege_escalation i [] role = []
check_privilege_escalation i (rule ∷ rules) role =
    (issue_if (has_rbac_permissions rule) high "policy_rule" "rbac_permissions"
        (with_text "Role '%s' has RBAC management permissions" role)
        "Limit RBAC permissions to authorized administrators only" (rule_ref role i)
      ++ issue_if (has_cluster_admin_permissions rule) critical "policy_rule"
          "cluster_admin_permissions"
          (with_text "Role '%s' has cluster-admin level permissions" role)
          "Review if such broad permissions are truly necessary" (rule_ref role i))
    ++ check_privilege_escalation (suc i) rules role

-- `validatePrivilegeEscalation`
unfoldable pub validate_privilege_escalation : List Role → List Issue
unfolding check_privilege_escalation
validate_privilege_escalation [] = []
validate_privilege_escalation (role ∷ roles) =
    check_privilege_escalation 0 role.rules role.name ++ validate_privilege_escalation roles
