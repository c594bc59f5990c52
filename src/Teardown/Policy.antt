-- ===== src/Teardown/Policy.antt =====
-- `EvaluateTeardownPolicy` of internal/teardown/manager.go: when a teardown is decided.
use roost_keeper.Prelude.{
  ◌≡◌, ◌∙◌, ◌≢◌, ◌↔◌, ◌&&◌, ◌∷◌, if◌then◌else◌, ℕ, ℤ, String, List, Option, Bool, negsuc, true,
  false, not, none, some, [], refl, sym, ap, inl, inr, arith, Bool-cases, Option-cases, All, ltb_ℤ,
}
use mathlib.Core.Path.{subst}
use mathlib.Core.List.{Permᴰ}
use roost_keeper.Roost.{with_text, TeardownPolicy, Trigger, DataPreservation, Reply, ok, err, Roost}
use roost_keeper.Teardown.{
  Severity, error, critical, SafetyCheck, Decision, Evaluator, get_by_trigger, known, trigger_types,
  no_teardown, collect, kept, aggregate_decisions, highest, or_first,
}
use roost_keeper.Teardown.Safety.{
  Listings, perform_safety_checks, preserves, requires_approval, policy_asks, policy_preserves,
  preservation_enabled, check_active_connections, check_persistent_volumes,
  check_dependent_resources, check_running_pods, check_services_with_external_endpoints,
  check_data_persistence, check_backup_requirements, check_manual_approval_requirements,
}
use roost_keeper.Teardown.Firing.{
  any_fires, is_preserved, any_says-Permᴰ, collect-any_says, known-any_type, triggers-any_fires,
}

-- the settings of `ManagerConfig` that the evaluation reads
pub record Config : Type 0 where
  pub enable_safety_checks : Bool

abbrev is_severe : Severity → Bool
is_severe error = true
is_severe critical = true
is_severe _ = false

-- the first check that bars the teardown
unfoldable pub first_blocking : List SafetyCheck → Option SafetyCheck
first_blocking [] = none
first_blocking (c ∷ cs) =
    if not c.passed && not c.can_override && is_severe c.severity then some c else first_blocking cs

abbrev stopped : Decision → Option SafetyCheck → Decision
stopped d none = d
stopped d (some c) = record d {
  should_teardown = false;
  reason = with_text "Critical safety check failed: %s" c.name;
}

-- the safety checks of a decision
unfoldable pub check_safety : Config → ℕ → Listings → Roost → Decision → Decision
check_safety config now listings r d =
    let checks = perform_safety_checks now listings r in
    if d.should_teardown && config.enable_safety_checks
    then stopped (record d { safety_checks = checks }) (first_blocking checks)
    else d

-- the comparison that the manager sorts the evaluators by
abbrev pub higher_priority : Evaluator → Evaluator → Bool
higher_priority a b = ltb_ℤ b.priority a.priority

-- `sort.Slice`, which is not stable: a function of the comparison and the evaluators
abbrev pub Sort : Type 0
Sort = (Evaluator → Evaluator → Bool) → List Evaluator → List Evaluator

-- the evaluators of a policy, the highest priority first
abbrev pub decided_by : Sort → Config → ℕ → Listings → Roost → List Evaluator → Decision
decided_by sort_slice config now listings r [] =
    no_teardown now "No matching evaluators for configured triggers"
decided_by sort_slice config now listings r (e ∷ es) =
    check_safety config now listings r
      (aggregate_decisions now (collect now r (sort_slice higher_priority (e ∷ es))))

abbrev pub by_policy :
    Sort
    → Config
    → List (String × Evaluator)
    → ℕ
    → Listings
    → Roost
    → Option TeardownPolicy
    → Decision
by_policy sort_slice config registry now listings r none =
    no_teardown now "No teardown policy configured"
by_policy sort_slice config registry now listings r (some policy) =
    decided_by sort_slice config now listings r (get_by_trigger policy.triggers registry)

-- `EvaluateTeardownPolicy`
unfoldable pub evaluate_teardown_policy :
    Sort → Config → List (String × Evaluator) → ℕ → Listings → Roost → Decision
evaluate_teardown_policy sort_slice config registry now listings r =
    by_policy sort_slice config registry now listings r r.spec.teardown_policy

-- whether the data of a roost is safe, by the listing of its claims: the listing succeeded, and
-- there is no claim, or the data is preserved
abbrev pub data_safe : Reply (List String) → Bool → Bool
data_safe (err m) preserved = false
data_safe (ok []) preserved = true
data_safe (ok (c ∷ cs)) preserved = preserved

abbrev blocks : SafetyCheck → Bool
blocks c = not c.passed && not c.can_override && is_severe c.severity

blocks-claims :
    (now : ℕ) (claims : Reply (List String)) (r : Roost)
    → blocks (check_persistent_volumes now claims r) ≡ not (data_safe claims (preserves r))
unfolding check_persistent_volumes
blocks-claims now (err m) r = refl
blocks-claims now (ok []) r = refl
blocks-claims now (ok (c ∷ cs)) r = ground arith

blocks-approval :
    (now : ℕ) (r : Roost) → blocks (check_manual_approval_requirements now r) ≡ requires_approval r
unfolding check_manual_approval_requirements
blocks-approval now r = ground arith

others :
    (now : ℕ) (l : Listings) (r : Roost)
    → (blocks (check_active_connections now l.active_pods) ≡ false)
      × (blocks (check_dependent_resources now l.dependent_services) ≡ false)
      × (blocks (check_running_pods now l.running_pods) ≡ false)
      × (blocks (check_services_with_external_endpoints now l.external_services) ≡ false)
      × (blocks (check_data_persistence now r) ≡ false)
      × (blocks (check_backup_requirements now r) ≡ false)
unfolding check_active_connections check_dependent_resources check_running_pods
    check_services_with_external_endpoints check_data_persistence check_backup_requirements
others now l r = ground arith

-- which checks bar a teardown
blocking :
    (now : ℕ) (l : Listings) (r : Roost)
    → (first_blocking (perform_safety_checks now l r) ≡ none)
      ↔ ((requires_approval r ≡ false) × (data_safe l.claims (preserves r) ≡ true))
unfolding first_blocking perform_safety_checks
blocking now l r =
    let (a, b, c, d, e, f) = others now l r in
    rw (a, b, c, d, e, f, blocks-claims now l.claims r, blocks-approval now r) (ground arith)

-- a choice among decisions for a teardown is one
highest_for :
    (score : ℤ) (best : Option Decision) (ds : List Decision) (d : Decision)
    → d.should_teardown ≡ true
    → (or_first d best).should_teardown ≡ true
    → All (λ x. x.should_teardown ≡ true) ds
    → (or_first d (highest score best ds)).should_teardown ≡ true
highest_for score best [] d h b a = b
highest_for score best (x ∷ ds) d h b (hx, a) = elim (Bool-cases (ltb_ℤ score x.score)) [
  | inl better ↦ rw better (highest_for x.score (some x) ds d h hx a)
  | inr worse ↦ rw worse (highest_for score best ds d h b a)
]

kept-All :
    (reply : Reply (Option Decision)) (ds : List Decision)
    → All (λ x. x.should_teardown ≡ true) ds
    → All (λ x. x.should_teardown ≡ true) (kept reply ds)
kept-All (err m) ds a = a
kept-All (ok none) ds a = a
kept-All (ok (some d)) ds a = ground arith

collect-All :
    (now : ℕ) (r : Roost) (es : List Evaluator)
    → All (λ x. x.should_teardown ≡ true) (collect now r es)
unfolding collect
collect-All now r [] = tt
collect-All now r (e ∷ es) =
    kept-All (e.should_teardown_of now r) (collect now r es) (collect-All now r es)

aggregate-should_teardown :
    (now : ℕ) (ds : List Decision)
    → All (λ x. x.should_teardown ≡ true) ds
    → ((aggregate_decisions now ds).should_teardown ≡ true) ↔ (ds ≢ [])
unfolding aggregate_decisions
aggregate-should_teardown now [] a = ground arith
aggregate-should_teardown now (d ∷ ds) (h, a) =
    (λ x e. absurd (ground arith), λ x. highest_for (negsuc 0) none (d ∷ ds) d h h (h, a))

check_safety-should_teardown :
    (config : Config) (now : ℕ) (l : Listings) (r : Roost) (d : Decision)
    → config.enable_safety_checks ≡ true
    → ((check_safety config now l r d).should_teardown ≡ true)
      ↔ ((d.should_teardown ≡ true) × (first_blocking (perform_safety_checks now l r) ≡ none))
unfolding check_safety
check_safety-should_teardown config now l r d on =
    elim (Option-cases (first_blocking (perform_safety_checks now l r))) [
      | inl clear ↦ ground arith
      | inr (c, there) ↦ ground arith
    ]

-- the sorted evaluators that are asked come to a decision exactly when a trigger fires
asked-any_fires :
    (sort_slice : Sort) (registry : List (String × Evaluator)) (now : ℕ) (r : Roost)
    (ts : List Trigger)
    → ((less : Evaluator → Evaluator → Bool) (es : List Evaluator) → Permᴰ (sort_slice less es) es)
    → (collect now r (sort_slice higher_priority (get_by_trigger ts registry)) ≢ [])
      ↔ (any_fires now r registry ts ≡ true)
unfolding get_by_trigger
asked-any_fires sort_slice registry now r ts permutes =
    let es = known registry (trigger_types ts) in
    let same =
      any_says-Permᴰ now r (permutes higher_priority es)
      ∙ known-any_type now r registry (trigger_types ts)
      ∙ triggers-any_fires now r registry ts in
    subst (λ b. (collect now r (sort_slice higher_priority es) ≢ []) ↔ (b ≡ true)) same
      (collect-any_says now r (sort_slice higher_priority es))

decided_by-should_teardown :
    (sort_slice : Sort) (config : Config) (now : ℕ) (l : Listings) (r : Roost) (es : List Evaluator)
    → Permᴰ (sort_slice higher_priority []) []
    → config.enable_safety_checks ≡ true
    → ((decided_by sort_slice config now l r es).should_teardown ≡ true) ↔ (
        (collect now r (sort_slice higher_priority es) ≢ [])
        × (requires_approval r ≡ false)
        × (data_safe l.claims (preserves r) ≡ true))
unfolding collect
decided_by-should_teardown sort_slice config now l r [] permutes on =
    let silent = any_says-Permᴰ now r permutes in
    (
      λ x. absurd (ground arith),
      λ x.
          absurd (
            ground (arith, silent, (collect-any_says now r (sort_slice higher_priority [])).0 x.0)),
    )
decided_by-should_teardown sort_slice config now l r (e ∷ es) permutes on =
    let asked = sort_slice higher_priority (e ∷ es) in
    let ds = collect now r asked in
    ground (
      arith,
      check_safety-should_teardown config now l r (aggregate_decisions now ds) on,
      aggregate-should_teardown now ds (collect-All now r asked),
      blocking now l r,
    )

-- With the safety checks on, a policy decides a teardown exactly when the evaluator that is
-- registered for the type of one of its triggers answers with a decision for a teardown, the policy
-- requires no manual approval, and the data is safe: the claims could be listed, and there are none
-- or the policy preserves the data. Of `sort.Slice` is used that it permutes what it sorts.
pub evaluate_teardown_policy-should_teardown :
    (sort_slice : Sort) (config : Config) (registry : List (String × Evaluator)) (now : ℕ)
    (l : Listings) (r : Roost) (p : TeardownPolicy)
    → ((less : Evaluator → Evaluator → Bool) (es : List Evaluator) → Permᴰ (sort_slice less es) es)
    → config.enable_safety_checks ≡ true
    → r.spec.teardown_policy ≡ some p
    → ((evaluate_teardown_policy sort_slice config registry now l r).should_teardown ≡ true) ↔ (
        (any_fires now r registry p.triggers ≡ true)
        × (p.require_manual_approval ≡ false)
        × (data_safe l.claims (is_preserved p.data_preservation) ≡ true))
unfolding evaluate_teardown_policy
evaluate_teardown_policy-should_teardown sort_slice config registry now l r p permutes on has =
    let same : evaluate_teardown_policy sort_slice config registry now l r
        ≡ decided_by sort_slice config now l r (get_by_trigger p.triggers registry) =
      ap (by_policy sort_slice config registry now l r) has in
    let approval : requires_approval r ≡ p.require_manual_approval = ap policy_asks has in
    let preserved : preserves r ≡ is_preserved p.data_preservation =
      ap policy_preserves has ∙ preserved_same p.data_preservation in
    let decided =
      decided_by-should_teardown sort_slice config now l r (get_by_trigger p.triggers registry)
        (permutes higher_priority []) on in
    let asked = asked-any_fires sort_slice registry now r p.triggers permutes in
    let safe = ap (data_safe l.claims) preserved in
    let decides = ap (λ d. d.should_teardown) same in
    (
      λ x.
          let (a, b, c) = decided.0 (sym decides ∙ x) in
          (asked.0 a, sym approval ∙ b, sym safe ∙ c),
      λ (a, b, c). decides ∙ decided.1 (asked.1 a, approval ∙ b, safe ∙ c),
    )
  where
    preserved_same : (o : Option DataPreservation) → preservation_enabled o ≡ is_preserved o
    preserved_same none = refl
    preserved_same (some q) = refl
