-- ===== src/Tests/Policies.antt =====
-- The policies of internal/rbac and internal/tenancy on concrete values.
use mathlib.Core.List.{cons≢nil}
use roost_keeper.Prelude.{
  ◌≡◌, ◌≢◌, ◌∷◌, String, true, false, none, some, [], refl, arith, eq_iff, All, lookup,
}
use roost_keeper.Roost.{ok, text}
use roost_keeper.Rbac.{
  has_cluster_admin_permissions, has_rbac_permissions, contains_wildcard, contains, PolicyRule,
  RbacSpec, critical, Issue, is_valid_kubernetes_name,
}
use roost_keeper.Rbac.Scores.{validate_rbac_configuration}
use roost_keeper.Rbac.Verdict.{is_sound, validate_rbac_configuration_lem}
use roost_keeper.Tenancy.{
  value_at, found, Namespace, tenant_of, ChartValues, validate_resource_access,
  validate_namespace_labels, validate_tenant_isolation_enabled, get_namespace_tenant,
  tenant_id_label,
}
use roost_keeper.Tenancy.Manager.{
  NamespaceIsolation, Tenancy, Calls, isolated, enforce_tenant_isolation, is_dns_label,
}
use roost_keeper.Tenancy.Isolation.{
  IsAccessible, IsChecked, validate_resource_access-IsChecked,
  enforce_tenant_isolation-IsAccessible,
}
use roost_keeper.Tenancy.Labels.{tenant_of-isolated, isolated_passes}
use roost_keeper.Tenancy.Names.{is_dns_label-is_valid_kubernetes_name}

abbrev everything : PolicyRule
everything = record {
  verbs = "*" ∷ [];
  api_groups = "*" ∷ [];
  resources = "*" ∷ [];
  resource_names = [];
  non_resource_urls = [];
}

abbrev spec : RbacSpec
spec = record {
  identity_provider = "oidc";
  service_accounts = record { name = "roost"; automount_token = false; lifecycle = none } ∷ [];
  roles = record { name = "admin"; rules = everything ∷ [] } ∷ [];
  role_bindings = record { name = "admins"; subjects = "alice" ∷ [] } ∷ [];
  audit = some true;
  policy_validation = some true;
}

validate_rbac_configuration_lem_example : (validate_rbac_configuration spec).valid ≡ is_sound spec
validate_rbac_configuration_lem_example = validate_rbac_configuration_lem spec

refuses_admin : (validate_rbac_configuration spec).valid ≡ false
unfolding validate_rbac_configuration is_valid_kubernetes_name contains contains_wildcard
    has_rbac_permissions has_cluster_admin_permissions
refuses_admin = refl

abbrev issue : Issue
issue = record {
  severity = critical;
  component = "policy_rule";
  rule = "cluster_admin_permissions";
  message = text "";
  suggestion = "";
  resource_ref = text "";
}

abbrev labelled : String → Namespace
labelled tenant = record {
  name = "apps";
  labels = some ((tenant_id_label, tenant) ∷ []);
  annotations = none;
}

abbrev values : ChartValues
values = record { config_map_refs = "" ∷ "apps" ∷ []; secret_refs = "apps" ∷ [] }

validate_resource_access-IsChecked_example :
    All (IsChecked (λ i name. found (labelled "a")) "a") values.config_map_refs
    × All (IsChecked (λ i name. found (labelled "a")) "a") values.secret_refs
unfolding validate_resource_access value_at lookup
validate_resource_access-IsChecked_example =
    validate_resource_access-IsChecked (λ i name. found (labelled "a")) "a" values refl

abbrev isolation : NamespaceIsolation
isolation = record { enabled = true; labels = ("tier", "web") ∷ []; annotations = [] }

abbrev tenancy : Tenancy
tenancy = record {
  tenant_id = "a";
  namespace_isolation = some isolation;
  rbac = none;
  network_policy = none;
  resource_quota = none;
}

abbrev calls : Calls
calls = record {
  access_get = found (labelled "a");
  isolation_get = found (labelled "a");
  update = none;
  setup_rbac = none;
  apply_network_policies = none;
  setup_resource_quota = none;
}

enforce_tenant_isolation-IsAccessible_example :
    (n : Namespace) × (calls.access_get ≡ found n) × (n.labels ≢ none) × IsAccessible "a" n
unfolding enforce_tenant_isolation lookup value_at
enforce_tenant_isolation-IsAccessible_example =
    enforce_tenant_isolation-IsAccessible calls "apps" tenancy cons≢nil

tenant_of-isolated_example :
    tenant_of (
      isolated "a"
        (some (record isolation { labels = (tenant_id_label, "b") ∷ [] }))
        (labelled "a"))
    ≡ "b"
unfolding lookup
tenant_of-isolated_example =
    tenant_of-isolated "a" (record isolation { labels = (tenant_id_label, "b") ∷ [] })
      (labelled "a") (refl, tt)

isolated_passes_example :
    (validate_namespace_labels (isolated "a" (some isolation) (labelled "a")) "a" ≡ none)
    × (validate_tenant_isolation_enabled "apps"
          (found (isolated "a" (some isolation) (labelled "a")))
        ≡ none)
    × (get_namespace_tenant "apps" (found (isolated "a" (some isolation) (labelled "a"))) ≡ ok "a")
unfolding lookup
isolated_passes_example =
    isolated_passes "a" isolation (labelled "a") (ground (arith, eq_iff "a" "")) (refl, tt) refl
      refl

is_dns_label-is_valid_kubernetes_name_example :
    is_dns_label "team-a" ≡ is_valid_kubernetes_name "team-a"
is_dns_label-is_valid_kubernetes_name_example = is_dns_label-is_valid_kubernetes_name "team-a"

accepts_label : is_dns_label "team-a" ≡ true
unfolding is_dns_label
accepts_label = refl
