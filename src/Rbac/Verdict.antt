-- ===== src/Rbac/Verdict.antt =====
-- When internal/rbac/validator.go finds a configuration valid.
use roost_keeper.Prelude.{
  ◌≡◌, ◌&&◌, ◌||◌, ◌∷◌, ◌++◌, ◌==◌, ℕ, String, List, Bool, suc, true, false, not, [], refl, arith,
  leb, str_eq, count_if, member,
}
use roost_keeper.Rbac.{
  PolicyRule, ServiceAccount, Role, RoleBinding, RbacSpec, Severity, error, critical, Issue,
  is_valid_kubernetes_name, has_cluster_admin_permissions,
}
use Prim.Native.Char.{Char, code}
use Prim.Native.String.{len}
use roost_keeper.Roost.{Message}
use roost_keeper.Rbac.{ends_well, is_alphanumeric, matches_name, contains_wildcard, contains}
use roost_keeper.Rbac.Checks.{
  issue_if, is_empty, check_service_account, validate_policy_rules, check_broad_permissions,
  validate_subjects, check_wildcard_subjects, check_least_privilege, check_privilege_escalation,
  validate_service_accounts, validate_roles, validate_role_bindings, validate_least_privilege,
  validate_privilege_escalation,
}
use roost_keeper.Rbac.Scores.{is_error, calculate_scores, all_issues, validate_rbac_configuration}

-- a test that every entry of a list passes
abbrev pub every {ℓ} : {A : Type ℓ} → (A → Bool) → List A → Bool
every p [] = true
every p (x ∷ xs) = p x && every p xs

-- no issue counts as an error
clean : List Issue → Bool
unfolding is_error
clean is = every (λ (i : Issue). not (is_error i)) is

-- a lower-case ASCII letter or a digit
abbrev is_plain : Char → Bool
is_plain c = (leb 97 (code c) && leb (code c) 122) || (leb 48 (code c) && leb (code c) 57)

abbrev all_plain_or_dash : String → Bool
all_plain_or_dash String.[] = true
all_plain_or_dash (String.◌∷◌ c s) = (is_plain c || code c == 45) && all_plain_or_dash s

abbrev ends_plain : String → Bool
ends_plain String.[] = false
ends_plain (String.◌∷◌ c String.[]) = is_plain c
ends_plain (String.◌∷◌ c (String.◌∷◌ d s)) = ends_plain (String.◌∷◌ d s)

abbrev starts_plain : String → Bool
starts_plain String.[] = false
starts_plain (String.◌∷◌ c s) = is_plain c

-- a label: at most 63 bytes, small letters, digits and dashes, with a dash at neither end
abbrev pub is_label : String → Bool
is_label s = leb (len s) 63 && starts_plain s && all_plain_or_dash s && ends_plain s

ends_well-label :
    (c : Char) (s : String)
    → ends_well (String.◌∷◌ c s) ≡ all_plain_or_dash (String.◌∷◌ c s) && ends_plain (String.◌∷◌ c s)
unfolding ends_well is_alphanumeric
ends_well-label c String.[] = ground arith
ends_well-label c (String.◌∷◌ d s) = ground (arith, ends_well-label d s)

matches_name-label :
    (s : String) → matches_name s ≡ starts_plain s && all_plain_or_dash s && ends_plain s
unfolding matches_name is_alphanumeric ends_well
matches_name-label String.[] = refl
matches_name-label (String.◌∷◌ c String.[]) = ground arith
matches_name-label (String.◌∷◌ c (String.◌∷◌ d s)) = ground (arith, ends_well-label d s)

name-label : (s : String) → is_valid_kubernetes_name s ≡ is_label s
unfolding is_valid_kubernetes_name
name-label s = rw (matches_name-label s) (ground arith)

-- all verbs on all resources of all API groups
abbrev grants_everything : PolicyRule → Bool
grants_everything rule =
    member "*" rule.api_groups && member "*" rule.resources && member "*" rule.verbs

grants-everything :
    (rule : PolicyRule) → has_cluster_admin_permissions rule ≡ grants_everything rule
unfolding has_cluster_admin_permissions contains_wildcard contains
grants-everything rule = ground arith

-- what a rule of a role must have, and must not grant
abbrev pub is_sound_rule : PolicyRule → Bool
is_sound_rule rule =
    not (is_empty rule.verbs)
    && not (is_empty rule.resources && is_empty rule.non_resource_urls)
    && not (grants_everything rule)

abbrev pub is_sound_role : Role → Bool
is_sound_role role = is_label role.name && every is_sound_rule role.rules

abbrev pub is_sound_binding : RoleBinding → Bool
is_sound_binding binding =
    is_label binding.name
    && not (is_empty binding.subjects)
    && every (λ (s : String). not (str_eq s "")) binding.subjects

-- what makes a configuration valid
abbrev pub is_sound : RbacSpec → Bool
is_sound spec =
    every (λ (sa : ServiceAccount). is_label sa.name) spec.service_accounts
    && every is_sound_role spec.roles
    && every is_sound_binding spec.role_bindings

every-append {ℓ} :
    {A : Type ℓ} (p : A → Bool) (xs ys : List A) → every p (xs ++ ys) ≡ every p xs && every p ys
every-append p [] ys = refl
every-append p (x ∷ xs) ys = ground (arith, every-append p xs ys)

clean-append : (xs ys : List Issue) → clean (xs ++ ys) ≡ clean xs && clean ys
unfolding clean
clean-append xs ys = every-append (λ (i : Issue). not (is_error i)) xs ys

count-clean : (is : List Issue) → (count_if is_error is == 0) ≡ clean is
unfolding clean
count-clean [] = refl
count-clean (i ∷ is) = ground (arith, count-clean is)

-- an issue of one severity under a test
clean-issue_if :
    (test : Bool) (s : Severity) (component rule : String) (m : Message) (suggestion : String)
    (ref : Message)
    → clean (issue_if test s component rule m suggestion ref)
      ≡ not (test && elim s [ error ↦ true | critical ↦ true | _ ↦ false ])
unfolding clean is_error
clean-issue_if true s component rule m suggestion ref = ground arith
clean-issue_if false s component rule m suggestion ref = refl

clean-nil : clean [] ≡ true
unfolding clean
clean-nil = refl

ruleset cleaning = (clean-append, clean-issue_if, clean-nil, name-label, grants-everything)

clean-service_accounts :
    (sas : List ServiceAccount)
    → clean (validate_service_accounts sas) ≡ every (λ (sa : ServiceAccount). is_label sa.name) sas
unfolding validate_service_accounts check_service_account
clean-service_accounts [] = clean-nil
clean-service_accounts (sa ∷ sas) = simp (cleaning, clean-service_accounts sas) (ground arith)

-- the rules of a role, without what they grant
abbrev is_complete_rule : PolicyRule → Bool
is_complete_rule rule =
    not (is_empty rule.verbs) && not (is_empty rule.resources && is_empty rule.non_resource_urls)

clean-policy_rules :
    (i : ℕ) (rules : List PolicyRule) (role : String)
    → clean (validate_policy_rules i rules role) ≡ every is_complete_rule rules
unfolding validate_policy_rules
clean-policy_rules i [] role = clean-nil
clean-policy_rules i (rule ∷ rules) role =
    simp (cleaning, clean-policy_rules (suc i) rules role) (ground arith)

clean-broad :
    (i : ℕ) (rules : List PolicyRule) (role : String)
    → clean (check_broad_permissions i rules role) ≡ true
unfolding check_broad_permissions
clean-broad i [] role = clean-nil
clean-broad i (rule ∷ rules) role = simp (cleaning, clean-broad (suc i) rules role) (ground arith)

clean-roles :
    (roles : List Role)
    → clean (validate_roles roles)
      ≡ every (λ (r : Role). is_label r.name && every is_complete_rule r.rules) roles
unfolding validate_roles
clean-roles [] = clean-nil
clean-roles (role ∷ roles) =
    simp (cleaning, clean-policy_rules, clean-broad, clean-roles roles) (ground arith)

clean-subjects :
    (binding : String) (subjects : List String)
    → clean (validate_subjects binding subjects)
      ≡ every (λ (s : String). not (str_eq s "")) subjects
unfolding validate_subjects
clean-subjects binding [] = clean-nil
clean-subjects binding (subject ∷ subjects) =
    simp (cleaning, clean-subjects binding subjects) (ground arith)

clean-wildcards :
    (binding : String) (subjects : List String)
    → clean (check_wildcard_subjects binding subjects) ≡ true
unfolding check_wildcard_subjects
clean-wildcards binding [] = clean-nil
clean-wildcards binding (subject ∷ subjects) =
    simp (cleaning, clean-wildcards binding subjects) (ground arith)

clean-role_bindings :
    (bindings : List RoleBinding)
    → clean (validate_role_bindings bindings) ≡ every is_sound_binding bindings
unfolding validate_role_bindings
clean-role_bindings [] = clean-nil
clean-role_bindings (binding ∷ bindings) =
    simp (cleaning, clean-subjects, clean-wildcards, clean-role_bindings bindings) (ground arith)

clean-least :
    (i : ℕ) (rules : List PolicyRule) (role : String)
    → clean (check_least_privilege i rules role) ≡ true
unfolding check_least_privilege
clean-least i [] role = clean-nil
clean-least i (rule ∷ rules) role = simp (cleaning, clean-least (suc i) rules role) (ground arith)

clean-least_privilege : (roles : List Role) → clean (validate_least_privilege roles) ≡ true
unfolding validate_least_privilege
clean-least_privilege [] = clean-nil
clean-least_privilege (role ∷ roles) = simp (cleaning, clean-least, clean-least_privilege roles)

clean-escalation :
    (i : ℕ) (rules : List PolicyRule) (role : String)
    → clean (check_privilege_escalation i rules role)
      ≡ every (λ (r : PolicyRule). not (grants_everything r)) rules
unfolding check_privilege_escalation
clean-escalation i [] role = clean-nil
clean-escalation i (rule ∷ rules) role =
    simp (cleaning, clean-escalation (suc i) rules role) (ground arith)

clean-privilege_escalation :
    (roles : List Role)
    → clean (validate_privilege_escalation roles)
      ≡ every
          (λ (role : Role). every (λ (r : PolicyRule). not (grants_everything r)) role.rules)
          roles
unfolding validate_privilege_escalation
clean-privilege_escalation [] = clean-nil
clean-privilege_escalation (role ∷ roles) =
    simp (cleaning, clean-escalation, clean-privilege_escalation roles)

-- two passes over the rules of a role make one
one_pass :
    (rules : List PolicyRule)
    → every is_sound_rule rules
      ≡ every is_complete_rule rules && every (λ (r : PolicyRule). not (grants_everything r)) rules
one_pass [] = refl
one_pass (rule ∷ rules) = ground (arith, one_pass rules)

two_passes :
    (roles : List Role)
    → every is_sound_role roles
      ≡ every (λ (r : Role). is_label r.name && every is_complete_rule r.rules) roles
        && every
            (λ (role : Role). every (λ (r : PolicyRule). not (grants_everything r)) role.rules)
            roles
two_passes [] = refl
two_passes (role ∷ roles) = ground (arith, one_pass role.rules, two_passes roles)

-- `ValidateRBACConfiguration` finds a configuration valid exactly when every name of a service
-- account, a role and a binding is a label of at most 63 bytes, with small letters, digits and
-- dashes and a dash at neither end, every rule has verbs, has resources or URLs, and does not have
-- "*" among its API groups, its resources and its verbs, and every binding has subjects, none of
-- them without a name.
pub validate_rbac_configuration_lem :
    (spec : RbacSpec) → (validate_rbac_configuration spec).valid ≡ is_sound spec
unfolding validate_rbac_configuration calculate_scores all_issues
validate_rbac_configuration_lem spec = rw (count-clean (all_issues spec)) (
    simp
      (
        cleaning, clean-service_accounts, clean-roles, clean-role_bindings, clean-least_privilege,
        clean-privilege_escalation,
      )
      (ground (arith, two_passes spec.roles)))
