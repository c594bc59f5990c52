-- ===== src/Rbac/Scores.antt =====
-- The scores, the counts and the verdict of internal/rbac/validator.go.
use roost_keeper.Prelude.{
  ◌+◌, ◌-◌, ◌*◌, ◌≤◌, ◌≡◌, ◌↔◌, ◌∷◌, ◌++◌, ◌==◌, if◌then◌else◌, ℕ, List, Bool, true, false, [],
  refl, arith, ltb, count_if, All,
}
use roost_keeper.Rbac.{
  RbacSpec, Severity, error, critical, high, medium, warning, info, Issue, Stats, Result,
}
use roost_keeper.Rbac.Checks.{
  validate_service_accounts, validate_roles, validate_role_bindings, total_rules,
  validate_security_best_practices, validate_least_privilege, validate_privilege_escalation,
}

-- `severityWeights`; a severity that is not in the map weighs nothing
unfoldable pub weight : Severity → ℕ
weight error = 10
weight high = 7
weight medium = 4
weight warning = 2
weight info = 1
weight critical = 0

unfoldable pub total_weight : List Issue → ℕ
unfolding weight
total_weight [] = 0
total_weight (i ∷ is) = weight i.severity + total_weight is

-- the security score of `calculateScores`
abbrev penalty : ℕ → ℕ
penalty w = if ltb 80 (w * 2) then 80 else w * 2

unfoldable pub security_score : List Issue → ℕ
unfolding total_weight
security_score [] = 100
security_score (i ∷ is) = 100 - penalty (total_weight (i ∷ is))

unfoldable pub is_error : Issue → Bool
is_error i = elim i.severity [ error ↦ true | critical ↦ true | _ ↦ false ]

unfoldable pub is_warning : Issue → Bool
is_warning i = elim i.severity [ warning ↦ true | high ↦ true | medium ↦ true | _ ↦ false ]

unfoldable pub is_info : Issue → Bool
is_info i = elim i.severity [ info ↦ true | _ ↦ false ]

-- `calculateScores`
unfoldable pub calculate_scores : List Issue → ℕ → Stats
unfolding security_score is_error is_warning is_info
calculate_scores issues rules = record {
  total_rules = rules;
  error_count = count_if is_error issues;
  warning_count = count_if is_warning issues;
  info_count = count_if is_info issues;
  security_score = security_score issues;
  compliance_score = security_score issues;
}

-- the issues in the order in which `ValidateRBACConfiguration` finds them
unfoldable pub all_issues : RbacSpec → List Issue
unfolding validate_service_accounts validate_roles validate_role_bindings
    validate_security_best_practices validate_least_privilege validate_privilege_escalation
all_issues spec =
    validate_service_accounts spec.service_accounts
    ++ validate_roles spec.roles
    ++ validate_role_bindings spec.role_bindings
    ++ validate_security_best_practices spec
    ++ validate_least_privilege spec.roles
    ++ validate_privilege_escalation spec.roles

-- `ValidateRBACConfiguration`
unfoldable pub validate_rbac_configuration : RbacSpec → Result
unfolding all_issues calculate_scores total_rules
validate_rbac_configuration spec =
    let stats = calculate_scores (all_issues spec) (total_rules spec.roles) in
    record { valid = stats.error_count == 0; issues = all_issues spec; stats = stats }

weightless : (s : Severity) → weight s ≡ 0 → s ≡ critical
unfolding weight
weightless critical h = refl
weightless error h = absurd (omega (arith, h))
weightless high h = absurd (omega (arith, h))
weightless medium h = absurd (omega (arith, h))
weightless warning h = absurd (omega (arith, h))
weightless info h = absurd (omega (arith, h))

weightless_issues :
    (issues : List Issue)
    → total_weight issues ≡ 0
    → All (λ (i : Issue). i.severity ≡ critical) issues
unfolding total_weight
weightless_issues [] h = tt
weightless_issues (i ∷ is) h =
    (weightless i.severity (omega (arith, h)), weightless_issues is (omega (arith, h)))

weighs_nothing :
    (issues : List Issue)
    → All (λ (i : Issue). i.severity ≡ critical) issues
    → total_weight issues ≡ 0
unfolding total_weight weight
weighs_nothing [] h = refl
weighs_nothing (i ∷ is) h = rw h.0 (omega (arith, weighs_nothing is h.1))

-- A score lies between 20 and 100, and it is 100 exactly when every issue is critical: the most
-- severe issues take nothing off it.
pub security_score_bounds :
    (issues : List Issue)
    → (20 ≤ security_score issues)
      × (security_score issues ≤ 100)
      × ((security_score issues ≡ 100) ↔ All (λ (i : Issue). i.severity ≡ critical) issues)
unfolding security_score
security_score_bounds [] = (omega arith, omega arith, ((λ h. tt), (λ h. refl)))
security_score_bounds (i ∷ is) = (
  ground arith,
  ground arith,
  (
    (λ h. weightless_issues (i ∷ is) (ground (arith, h))),
    (λ h. rw (weighs_nothing (i ∷ is) h) refl),
  ),
)
