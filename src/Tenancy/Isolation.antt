-- ===== src/Tenancy/Isolation.antt =====
-- What the tenant checks of internal/tenancy let through.
use roost_keeper.Prelude.{
  ◌≡◌, ◌≢◌, ◌⊎◌, ◌∷◌, ℕ, String, List, suc, none, some, [], refl, inl, inr, arith, eq_iff, str_eq,
  Bool-cases, Option-cases, All,
}
use roost_keeper.Roost.{Message, Reply, ok, err}
use roost_keeper.Tenancy.{
  Answer, found, not_found, failed, Answers, Namespace, tenant_of, validate_tenant_access,
  ChartValues, validate_refs, validate_chart_values, validate_resource_access,
  validate_cross_namespace_access,
}
use roost_keeper.Tenancy.Manager.{Tenancy, Calls, enforce_tenant_isolation}

-- a namespace that is not labelled for another tenant
abbrev pub IsAccessible : String → Namespace → Type 0
IsAccessible tenant n = (tenant_of n ≡ "") ⊎ (tenant_of n ≡ tenant)

-- a reference to the roost's own namespace, or to one that a call has found accessible
abbrev pub IsChecked : Answers → String → String → Type 0
IsChecked get tenant ref =
    (ref ≡ "") ⊎ ((i : ℕ) × (n : Namespace) × (get i ref ≡ found n) × IsAccessible tenant n)

accessible :
    (tenant ref : String) (i : ℕ) (get : Answers) (a : Answer Namespace)
    → get i ref ≡ a
    → validate_cross_namespace_access tenant ref a ≡ none
    → IsChecked get tenant ref
unfolding validate_cross_namespace_access
accessible tenant ref i get (found n) e h = inr (
  i,
  n,
  e,
  elim (Bool-cases (str_eq (tenant_of n) "")) [
    | inl free ↦ inl ((eq_iff (tenant_of n) "").0 free)
    | inr owned ↦ elim (Bool-cases (str_eq (tenant_of n) tenant)) [
      | inl own ↦ inr ((eq_iff (tenant_of n) tenant).0 own)
      | inr other ↦ absurd (ground (arith, owned, other, h))
    ]
  ],
)
accessible tenant ref i get (not_found m) e h = absurd (cc)
accessible tenant ref i get (failed m) e h = absurd (cc)

Reply-cases : (r : Reply ℕ) → ((n : ℕ) × (r ≡ ok n)) ⊎ ((e : Message) × (r ≡ err e))
Reply-cases (ok n) = inl (n, refl)
Reply-cases (err e) = inr (e, refl)

validate_refs-IsChecked :
    (get : Answers) (kind tenant : String) (refs : List String) (n m : ℕ)
    → validate_refs get kind tenant refs n ≡ ok m
    → All (IsChecked get tenant) refs
unfolding validate_refs
validate_refs-IsChecked get kind tenant [] n m h = tt
validate_refs-IsChecked get kind tenant (ref ∷ refs) n m h = elim (Bool-cases (str_eq ref "")) [
  | inl local ↦ (
    inl ((eq_iff ref "").0 local),
    validate_refs-IsChecked get kind tenant refs n m (rw local at h),
  )
  | inr named ↦ elim (Option-cases (validate_cross_namespace_access tenant ref (get n ref))) [
    | inl e ↦ (
      accessible tenant ref n get (get n ref) refl e,
      validate_refs-IsChecked get kind tenant refs (suc n) m (rw (named, e) at h),
    )
    | inr (x, e) ↦ absurd (ground (arith, named, e, h))
  ]
]

-- A chart's values that `ValidateResourceAccess` accepts for a tenant refer to no namespace but the
-- roost's own and those that the cluster has shown, at a call, to be labelled for that tenant or
-- for none.
pub validate_resource_access-IsChecked :
    (get : Answers) (tenant : String) (values : ChartValues)
    → validate_resource_access get (some tenant) (some values) ≡ none
    → All (IsChecked get tenant) values.config_map_refs
      × All (IsChecked get tenant) values.secret_refs
unfolding validate_resource_access validate_chart_values
validate_resource_access-IsChecked get tenant values h =
    let maps : String = "invalid ConfigMap reference: %w" in
    elim (Reply-cases (validate_refs get maps tenant values.config_map_refs 0)) [
      | inl (n, e) ↦
          let kind : String = "invalid Secret reference: %w" in
          elim (Reply-cases (validate_refs get kind tenant values.secret_refs n)) [
            | inl (m, e') ↦ (
              validate_refs-IsChecked get maps tenant values.config_map_refs 0 n e,
              validate_refs-IsChecked get kind tenant values.secret_refs n m e',
            )
            | inr (x, e') ↦ absurd (ground (arith, e, e', h))
          ]
      | inr (x, e) ↦ absurd (ground (arith, e, h))
    ]

access-IsAccessible :
    (name tenant : String) (a : Answer Namespace)
    → validate_tenant_access name tenant a ≡ none
    → (n : Namespace) × (a ≡ found n) × (n.labels ≢ none) × IsAccessible tenant n
unfolding validate_tenant_access
access-IsAccessible name tenant (found n) h = elim (Option-cases n.labels) [
  | inl e ↦ absurd (ground (arith, e, h))
  | inr (labels, e) ↦ (
    n,
    refl,
    ground (arith, e),
    elim (Bool-cases (str_eq (tenant_of n) "")) [
      | inl free ↦ inl ((eq_iff (tenant_of n) "").0 free)
      | inr owned ↦ elim (Bool-cases (str_eq (tenant_of n) tenant)) [
        | inl own ↦ inr ((eq_iff (tenant_of n) tenant).0 own)
        | inr other ↦ absurd (ground (arith, rw e at owned, rw e at other, rw e at h))
      ]
    ],
  )
]
access-IsAccessible name tenant (not_found m) h = absurd (cc)
access-IsAccessible name tenant (failed m) h = absurd (cc)

-- `EnforceTenantIsolation` changes the cluster only for a roost in a namespace that the cluster
-- has shown to be labelled, for the roost's tenant or for none.
pub enforce_tenant_isolation-IsAccessible :
    (calls : Calls) (name : String) (t : Tenancy)
    → (enforce_tenant_isolation calls name (some t)).0 ≢ []
    → (n : Namespace) × (calls.access_get ≡ found n)
      × (n.labels ≢ none)
      × IsAccessible t.tenant_id n
unfolding enforce_tenant_isolation
enforce_tenant_isolation-IsAccessible calls name t h = elim (Bool-cases (str_eq t.tenant_id "")) [
  | inl nameless ↦ absurd (h (rw nameless))
  | inr named ↦
      let answer = validate_tenant_access name t.tenant_id calls.access_get in
      elim (Option-cases answer) [
        | inl e ↦ access-IsAccessible name t.tenant_id calls.access_get e
        | inr (x, e) ↦ absurd (h (rw (named, e)))
      ]
]
