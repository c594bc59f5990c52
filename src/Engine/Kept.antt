-- ===== src/Engine/Kept.antt =====
-- Every step of the engine of internal/health/composite/engine.go keeps what holds of it.
use roost_keeper.Prelude.{◌∷◌, ℕ, String, List, Option, none, some, [], sym, inl, inr, Bool-cases}
use mathlib.Core.Path.{subst}
use roost_keeper.Roost.{HealthCheckSpec, Reply, ok, err}
use roost_keeper.Health.{HealthResult}
use roost_keeper.Breaker.{Breaker, is_open}
use roost_keeper.Engine.{
  Engine, Checks, Checked, get_or_create, run_check, timed_check, recorded, set_breaker, executed,
  unless_cached, execute_health_check,
}
use roost_keeper.Dependencies.{resolve_with}
use roost_keeper.Engine.Evaluation.{
  no_results, Evaluation, evaluate_one, evaluate_each, evaluate_composite_health, evaluated,
  evaluate_each_step,
}
use roost_keeper.Engine.Invariant.{
  IsBreaker, IsValid, get_or_create-IsBreaker, is_open-IsBreaker, recorded-IsBreaker,
  set_breaker-IsValid, got-IsValid, cached-IsValid,
}

executed-IsValid :
    (start finish : ℕ) (check : HealthCheckSpec) (cb : Breaker) (e : Engine) (r : Reply Checked)
    → IsBreaker check.name cb
    → IsValid e
    → IsValid (executed start finish check cb e r).0
executed-IsValid start finish check cb e (err m) b v = v
executed-IsValid start finish check cb e (ok c) b v =
    let c' = timed_check start finish c in
    cached-IsValid finish check c' (set_breaker check.name (recorded finish c' cb) e) (
      set_breaker-IsValid check.name (recorded finish c' cb) e
        (recorded-IsBreaker finish check.name c' cb b) v)

unless_cached-IsValid :
    (checks : Checks) (start finish : ℕ) (check : HealthCheckSpec) (cb : Breaker) (e : Engine)
    (o : Option HealthResult)
    → IsBreaker check.name cb
    → IsValid e
    → IsValid (unless_cached checks start finish check cb e o).0
unless_cached-IsValid checks start finish check cb e (some r) b v = v
unless_cached-IsValid checks start finish check cb e none b v =
    executed-IsValid start finish check cb e (run_check checks check) b v

-- the engine after the breaker of a check is asked
abbrev pub asked : ℕ → String → Engine → Engine
asked start name e =
    set_breaker name (is_open start (get_or_create start name e.circuit_breakers)).0 e

asked-IsValid : (start : ℕ) (name : String) (e : Engine) → IsValid e → IsValid (asked start name e)
asked-IsValid start name e v =
    set_breaker-IsValid name _ e
      (is_open-IsBreaker start name _ (get_or_create-IsBreaker start name e v)) v

-- `executeHealthCheck` keeps the invariant, whatever the checks return.
pub execute_health_check-IsValid :
    (checks : Checks) (start finish : ℕ) (check : HealthCheckSpec) (e : Engine)
    → IsValid e
    → IsValid (execute_health_check checks start finish check e).0
unfolding execute_health_check
execute_health_check-IsValid checks start finish check e v =
    let b = is_open-IsBreaker start check.name _ (get_or_create-IsBreaker start check.name e v) in
    let a = asked-IsValid start check.name e v in
    elim (Bool-cases (is_open start (get_or_create start check.name e.circuit_breakers)).1) [
      | inl yes_ ↦ rw yes_ a
      | inr no_ ↦ rw no_ (
          unless_cached-IsValid checks start finish check _ _ _ b
            (got-IsValid start check.name _ a))
    ]

evaluate_each-IsValid :
    (checks : Checks) (times : String → ℕ × ℕ) (specs : List HealthCheckSpec) (names : List String)
    (v : Evaluation)
    → IsValid v.engine
    → IsValid (evaluate_each checks times specs names v).engine
unfolding evaluate_each evaluate_one
evaluate_each-IsValid checks times specs [] v h = h
evaluate_each-IsValid checks times specs (name ∷ names) v h =
    elim (evaluate_each_step checks times specs name names v) [
      | inl (missing, e) ↦
          subst (λ w. IsValid w.engine) (sym e) (evaluate_each-IsValid checks times specs names v h)
      | inr (check, there, e) ↦
          let (start, finish) = times name in
          subst (λ w. IsValid w.engine) (sym e)
            (evaluate_each-IsValid checks times specs names
              (evaluate_one checks (times name) check v).1
              (execute_health_check-IsValid checks start finish check v.engine h))
    ]

-- `EvaluateCompositeHealth` keeps every breaker of the engine valid and under the default
-- configuration, caches no name twice, and caches healthy results alone, whatever the checks
-- return and depend on.
pub evaluate_composite_health-IsValid :
    (checks : Checks) (extract : HealthCheckSpec → List String) (times : String → ℕ × ℕ)
    (specs : List HealthCheckSpec) (e : Engine)
    → IsValid e
    → IsValid (evaluate_composite_health checks extract times specs e).0
unfolding evaluate_composite_health
evaluate_composite_health-IsValid checks extract times [] e v = v
evaluate_composite_health-IsValid checks extract times (c ∷ cs) e v =
    go (resolve_with extract (c ∷ cs))
  where
    go : (r : Reply (List String)) → IsValid (evaluated checks times (c ∷ cs) e r).0
    go (err m) = v
    go (ok order) = evaluate_each-IsValid checks times (c ∷ cs) order (no_results e) v
