-- ===== src/Lib.antt =====
-- roost-keeper: the logic of the operator that installs, watches and tears down ManagedRoosts,
-- modelled from its Go sources.
--
-- The reconciler (controllers/managedroost_controller.go) runs a pass over a stored ManagedRoost:
-- it dispatches on the phase, calls Helm and the health checker, asks the lifecycle manager
-- (internal/lifecycle/manager.go) for the phase that Helm's release shows and for a teardown, and
-- writes the object. The composite health checks (internal/health/composite) put an order on the
-- checks, guard each by a circuit breaker, and cache the results.
--
-- Prelude     numbers, integers with Go's wrap-around, lists, and Go's maps as association lists;
--             a `range` over a map visits one order of its entries, and the theorems hold of each
-- Roost       api/v1alpha1/managedroost_types.go: `Phase`, `Spec`, `Status`, `Roost`, with the
--             fields that the modelled code reads or writes
-- Lifecycle   internal/lifecycle/manager.go: `process_lifecycle` is `ProcessLifecycle`,
--             `cleanup_resources` is `CleanupResources`; what Helm answers is an argument
-- Controller  controllers/managedroost_controller.go: the state is `World`, the object in memory,
--             the stored object and the calls made so far; `reconcile` is `Reconcile`, and each
--             handler is a function of its name, in the children Writes, Progress, Ready, Teardown
--             and Reconcile. `Env` holds what the calls of one pass return. The functions of
--             k8s.io/apimachinery and controller-runtime are the record `Kube`, with the laws
--             `KubeLaws` of their documentation. `Runs.run` is a sequence of passes, each with its
--             own answers.
-- Health      `HealthResult` of internal/health/composite/engine.go
-- Engine      internal/health/composite/engine.go: the state is `Engine`, a breaker for each check
--             and the cache; `execute_health_check` is `executeHealthCheck`, and, in Evaluation,
--             `evaluate_composite_health` is `EvaluateCompositeHealth`. The six kinds of check are
--             the record `Checks`, of which `placeholders` is what the source has: they are always
--             healthy. What is stated of the engine holds for any such functions.
-- Breaker     internal/health/composite/circuit_breaker.go: the state is `Breaker`, and a method
--             takes the instant at which it runs; `is_open_among` has the other calls that run
--             while `IsOpen` changes its lock. Spec is an abstract machine without clocks and
--             machine integers, to which Refinement relates the breaker.
-- HealthCache internal/health/composite/cache.go: the state is `Cache`; `remove_expired` and
--             `perform_cleanup` are the turns of its goroutines
-- Dependencies internal/health/composite/dependency.go: `resolve_execution_order` is
--             `ResolveExecutionOrder`, and `extract_dependencies` the extraction of dependencies that
--             it calls, which finds none; `resolve_with` is its body for any extraction, which the
--             engine is modelled over. The graph, its sort and its levels are modelled for any
--             edges. Levels has `OptimizeExecutionOrder`, and Phases, Links and Parallel are about
--             it; Resolution is about the order of the checks.
-- Teardown    internal/teardown: the registry and the choice among decisions (evaluator.go,
--             manager.go); in Safety the checks of safety.go, over what the cluster lists; in Policy
--             `evaluate_teardown_policy`, which is `EvaluateTeardownPolicy`; in Execution the steps
--             of execution.go and `execute_teardown`, which is `ExecuteTeardown`; in Concurrency its
--             limit, over the locked sections of calls that run at the same time. The evaluators
--             are the record `Evaluator`, and Evaluators has those of evaluators.go; `sort.Slice` is
--             an argument, a function of the comparison `higher_priority` and the evaluators; Firing
--             says which triggers ask for a teardown.
-- EventBreaker internal/events/circuit_breaker.go: the state is `Breaker`, `execute` is `Execute`,
--             with the calls that run while the function runs
-- ResourceCache internal/performance/resource_cache.go: the state is `Cache`, and `get_among` is
--             `Get`, with what other goroutines do while it holds no lock; Eviction, Invariant and
--             Counts are about it
-- Rbac        internal/rbac/validator.go: `validate_rbac_configuration` is
--             `ValidateRBACConfiguration`, its checks are in Checks and its scores in Scores
-- Tenancy     internal/tenancy: the checks of validator.go; in Manager the enforcement of isolation
--             of manager.go, over the answers of the cluster. A call of `Get` is answered by its
--             number, so that two calls for one namespace may be answered differently.
-- Expressions internal/health/composite/evaluator.go: Parser, Evaluation and validation of the
--             logical expressions, over `Text`, the functions of Go's `strings` and `regexp` that
--             they use, for ASCII; Meaning is the Boolean formula of an expression
-- Admission   internal/webhook/admission.go: `handle` is `Handle`, with the checks and the patches
--             of policy_simple.go; what the decoder makes of a request is part of the request
-- RollingUpdate internal/ha/rolling_update.go: `perform_rolling_update` is `PerformRollingUpdate`,
--             over what the cluster answers and the signals that its loops select from; a `nil`
--             that is dereferenced is the outcome `panicked`
-- ApiValidator internal/api/validator.go: `validate_health_checks` is `validateHealthChecks`
-- WorkerPool  internal/performance/worker_pool.go: the state is `Pool`, the channels with the
--             goroutines around them; in Loops, `turn` is a step of one of these, and `run` a sequence
--             of steps, which stands for their interleaving; Conservation follows the jobs by a `History`
-- ConnectionPool internal/performance/connection_pool.go: the state is `Pool`, with its connections
--             in a store; Exclusion has sequences of calls, checks and cleanups
-- EventConfig internal/events/config.go: `validate` is `Validate`
-- Tests       examples, and the theorems applied to them
--
-- Instants are nanoseconds since some epoch, as natural numbers, and durations are integers; the
-- wrap-around of a duration (292 years) is not modelled. `int32` counters and the `int` and `int64`
-- counters that only grow wrap as in Go. The in-degrees that `topologicalSort` counts down do not:
-- they start from the number of the edges.
--
-- Fuel: `sort_loop` has one unit more than the graph has nodes, and a node is taken once;
-- `has_cycle_dfs` has as much, and goes only to nodes that it has not visited. The parser of
-- expressions has one unit more than the text has characters, and calls itself on shorter texts.
--
-- Not modelled: logs, metrics, traces and events' texts; the scorer of the composite checks,
-- anomalies and the audit trail; the scheduler of internal/teardown, whose methods only log; the
-- Kafka client of internal/events, the map of connection pools of internal/performance, the
-- creation of RBAC, quota and network policy objects, the general policies and the certificates of
-- internal/webhook, the election of internal/ha, the API server beyond its rule for health checks,
-- the command line and the checkers, most of which call the network, the cluster or a library.
pub mod Prelude
pub mod Roost
pub mod Health
pub mod Breaker
pub mod HealthCache
pub mod Lifecycle
pub mod Controller
pub mod Dependencies
pub mod Engine
pub mod Teardown
pub mod EventBreaker
pub mod ResourceCache
pub mod Rbac
pub mod Tenancy
pub mod Expressions
pub mod Admission
pub mod RollingUpdate
pub mod EventConfig
pub mod ApiValidator
pub mod WorkerPool
pub mod ConnectionPool
mod Tests
