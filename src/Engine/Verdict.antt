-- ===== src/Engine/Verdict.antt =====
-- The verdict of `EvaluateCompositeHealth` of internal/health/composite/engine.go, and what a
-- breaker and the cache spare.
use roost_keeper.Prelude.{
  ◌≡◌, ◌≢◌, ◌↔◌, ◌∷◌, ℕ, String, List, true, false, none, some, [], refl, sym, inl, inr, arith,
  eq_iff, Option-cases, lookup, lookup-insert,
}
use mathlib.Core.Path.{subst}
use roost_keeper.Roost.{HealthCheckSpec, Reply, ok, err}
use roost_keeper.Health.{HealthResult}
use roost_keeper.Dependencies.{resolve_with}
use roost_keeper.Engine.{Engine, Checks, find_health_check_by_name}
use roost_keeper.Engine.Evaluation.{
  Evaluation, CompositeHealthResult, evaluate_one, evaluate_each, evaluate_each_step,
  evaluate_composite_health, evaluate_composite_result, evaluate_simple_logic, evaluated,
  no_results, any_failed,
}

-- every result is healthy
abbrev pub AllHealthy : List (String × HealthResult) → Type 0
AllHealthy results =
    (name : String) (r : HealthResult) → lookup name results ≡ some r → r.healthy ≡ true

-- every result is that of a check
abbrev Known : List HealthCheckSpec → List (String × HealthResult) → Type 0
Known specs results =
    (name : String) (r : HealthResult)
    → lookup name results ≡ some r
    → find_health_check_by_name name specs ≢ none

found_name :
    (name : String) (specs : List HealthCheckSpec) (check : HealthCheckSpec)
    → find_health_check_by_name name specs ≡ some check
    → check.name ≡ name
unfolding find_health_check_by_name
found_name name [] check h = cc
found_name name (c ∷ cs) check h = ground (arith, eq_iff c.name name, found_name name cs check)

empty_results : (specs : List HealthCheckSpec) → Known specs []
unfolding lookup
empty_results specs name r h = absurd (ground arith)

evaluate_each-Known :
    (checks : Checks) (times : String → ℕ × ℕ) (specs : List HealthCheckSpec) (names : List String)
    (v : Evaluation)
    → Known specs v.individual_results
    → Known specs (evaluate_each checks times specs names v).individual_results
unfolding evaluate_each evaluate_one
evaluate_each-Known checks times specs [] v k = k
evaluate_each-Known checks times specs (name ∷ names) v k =
    elim (evaluate_each_step checks times specs name names v) [
      | inl (missing, e) ↦
          subst (λ w. Known specs w.individual_results) (sym e)
            (evaluate_each-Known checks times specs names v k)
      | inr (check, there, e) ↦
          let (r, v') = evaluate_one checks (times name) check v in
          let same = found_name name specs check there in
          subst (λ w. Known specs w.individual_results) (sym e)
            (evaluate_each-Known checks times specs names v' (λ j s h. ground (
              arith,
              same,
              there,
              k j s,
              eq_iff check.name j,
              lookup-insert check.name j r v.individual_results,
            )))
    ]

-- no failure was found: the result of each check is healthy
unfailed :
    (specs : List HealthCheckSpec) (results : List (String × HealthResult)) (name : String)
    (r : HealthResult)
    → any_failed specs results ≡ false
    → find_health_check_by_name name specs ≢ none
    → lookup name results ≡ some r
    → r.healthy ≡ true
unfolding find_health_check_by_name
unfailed [] results name r f k h = absurd (k refl)
unfailed (c ∷ cs) results name r f k h =
    ground (arith, eq_iff c.name name, unfailed cs results name r)

healthy-unfailed :
    (specs : List HealthCheckSpec) (results : List (String × HealthResult))
    → AllHealthy results
    → any_failed specs results ≡ false
healthy-unfailed [] results a = refl
healthy-unfailed (c ∷ cs) results a = elim (Option-cases (lookup c.name results)) [
  | inl missing ↦ ground (arith, healthy-unfailed cs results a)
  | inr (r, there) ↦ ground (arith, healthy-unfailed cs results a, a c.name r there)
]

first_lookup :
    (name : String) (r : HealthResult) (rest : List (String × HealthResult))
    → lookup name ((name, r) ∷ rest) ≡ some r
unfolding lookup
first_lookup name r rest = ground (arith, eq_iff name name)

verdict :
    (specs : List HealthCheckSpec) (results : List (String × HealthResult))
    → Known specs results
    → ((evaluate_composite_result specs results).0 ≡ true) ↔ ((results ≢ []) × AllHealthy results)
unfolding evaluate_composite_result evaluate_simple_logic
verdict specs [] k = ground arith
verdict specs ((name, r) ∷ rest) k =
    let results : List (String × HealthResult) = (name, r) ∷ rest in
    (
      λ h. (
        λ e. absurd (ground arith),
        λ n s there. unfailed specs results n s (ground arith) (k n s there) there,
      ),
      λ (nonempty, a).
          ground (arith, healthy-unfailed specs results a, a name r, first_lookup name r rest),
    )

-- An evaluation of at least one check finds the roost healthy exactly when some check was executed,
-- and every check that was executed is healthy.
pub evaluate_composite_health-overall_healthy :
    (checks : Checks) (extract : HealthCheckSpec → List String) (times : String → ℕ × ℕ)
    (c : HealthCheckSpec) (cs : List HealthCheckSpec) (e : Engine) (r : CompositeHealthResult)
    → (evaluate_composite_health checks extract times (c ∷ cs) e).1 ≡ ok r
    → (r.overall_healthy ≡ true) ↔ ((r.individual_results ≢ []) × AllHealthy r.individual_results)
unfolding evaluate_composite_health
evaluate_composite_health-overall_healthy checks extract times c cs e r h =
    go (resolve_with extract (c ∷ cs)) h
  where
    go :
        (order : Reply (List String))
        → (evaluated checks times (c ∷ cs) e order).1 ≡ ok r
        → (r.overall_healthy ≡ true)
          ↔ ((r.individual_results ≢ []) × AllHealthy r.individual_results)
    go (err m) x = absurd (ground arith)
    go (ok order) x =
        let v = evaluate_each checks times (c ∷ cs) order (no_results e) in
        let same : r.overall_healthy ≡ (evaluate_composite_result (c ∷ cs) v.individual_results).0 =
          ground arith in
        let results : r.individual_results ≡ v.individual_results = ground arith in
        rw (same, results)
          (verdict (c ∷ cs) v.individual_results (
            evaluate_each-Known checks times (c ∷ cs) order (no_results e)
              (empty_results (c ∷ cs))))
