-- ===== src/Tenancy/Labels.antt =====
-- The labels and annotations that the manager of internal/tenancy/manager.go writes.
use roost_keeper.Prelude.{
  ◌≡◌, ◌≢◌, ◌∷◌, String, List, none, some, [], refl, inl, inr, arith, eq_iff, Option-cases, lookup,
  insert, lookup-insert, Distinct,
}
use roost_keeper.Roost.{ok}
use roost_keeper.Tenancy.{
  found, Namespace, tenant_of, value_at, tenant_id_label, tenant_isolation_label,
  isolation_enabled_annotation, policy_version_annotation, created_by_annotation,
  current_policy_version, validate_namespace_labels, validate_tenant_isolation_enabled,
  get_namespace_tenant,
}
use roost_keeper.Tenancy.Manager.{NamespaceIsolation, set_all, or_new, isolated}

lookup-set_all :
    (k : String) (es m : List (String × String))
    → Distinct es
    → lookup k (set_all es m) ≡ elim (lookup k es) [ none ↦ lookup k m | some v ↦ some v ]
unfolding set_all lookup
lookup-set_all k [] m d = refl
lookup-set_all k ((j, v) ∷ es) m d =
    ground (arith, lookup-set_all k es (insert j v m) d.1, lookup-insert j k v m, eq_iff j k)

-- the labels and the annotations that are written, where the roost's own do not set them
module _ (es m : List (String × String)) (d : Distinct es) (tenant : String) where
  written_labels : List (String × String)
  written_labels =
      set_all es (insert tenant_isolation_label "enabled" (insert tenant_id_label tenant m))

  written-tenant :
      lookup tenant_id_label es ≡ none → value_at tenant_id_label written_labels ≡ tenant
  unfolding value_at written_labels
  written-tenant e = simp (lookup-set_all _ _ _ d, e, lookup-insert)

  written-isolation :
      lookup tenant_isolation_label es ≡ none
      → value_at tenant_isolation_label written_labels ≡ "enabled"
  unfolding value_at written_labels
  written-isolation e = simp (lookup-set_all _ _ _ d, e, lookup-insert)

module _ (m : List (String × String)) where
  written_annotations : List (String × String)
  written_annotations = insert created_by_annotation "roost-keeper" (
      insert policy_version_annotation current_policy_version
        (insert isolation_enabled_annotation "true" m))

  written-enabled : value_at isolation_enabled_annotation written_annotations ≡ "true"
  unfolding value_at written_annotations
  written-enabled = simp lookup-insert

  written-version : value_at policy_version_annotation written_annotations ≡ "v1"
  unfolding value_at written_annotations
  written-version = simp lookup-insert

-- The namespace that is written is labelled for the tenant that the roost's own list of labels
-- names, if it names one, and only otherwise for the roost's tenant.
pub tenant_of-isolated :
    (tenant : String) (iso : NamespaceIsolation) (n : Namespace)
    → Distinct iso.labels
    → tenant_of (isolated tenant (some iso) n)
      ≡ elim (lookup tenant_id_label iso.labels) [ none ↦ tenant | some v ↦ v ]
unfolding isolated value_at written_labels
tenant_of-isolated tenant iso n d = elim (Option-cases (lookup tenant_id_label iso.labels)) [
  | inl e ↦ rw e (written-tenant iso.labels (or_new n.labels) d tenant e)
  | inr (v, e) ↦ rw (lookup-set_all _ _ _ d) (rw e)
]

-- The namespace that is written passes the three checks of the validator for the roost's tenant,
-- if the roost's own labels set neither the tenant nor the isolation.
pub isolated_passes :
    (tenant : String) (iso : NamespaceIsolation) (n : Namespace)
    → tenant ≢ ""
    → Distinct iso.labels
    → lookup tenant_id_label iso.labels ≡ none
    → lookup tenant_isolation_label iso.labels ≡ none
    → (validate_namespace_labels (isolated tenant (some iso) n) tenant ≡ none)
      × (validate_tenant_isolation_enabled n.name (found (isolated tenant (some iso) n)) ≡ none)
      × (get_namespace_tenant n.name (found (isolated tenant (some iso) n)) ≡ ok tenant)
unfolding isolated validate_namespace_labels validate_tenant_isolation_enabled get_namespace_tenant
    written_labels written_annotations
isolated_passes tenant iso n named d no_tenant no_isolation =
    let owned = written-tenant iso.labels (or_new n.labels) d tenant no_tenant in
    let isolation = written-isolation iso.labels (or_new n.labels) d tenant no_isolation in
    let annotations = set_all iso.annotations (or_new n.annotations) in
    let enabled = written-enabled annotations in
    let version = written-version annotations in
    (
      rw (owned, isolation) (ground (arith, eq_iff tenant "", eq_iff tenant tenant)),
      rw (enabled, version) refl,
      rw owned (ground (arith, eq_iff tenant "")),
    )
