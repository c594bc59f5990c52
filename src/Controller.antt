-- ===== src/Controller.antt =====
-- The reconciler of ManagedRoosts: controllers/managedroost_controller.go. A pass takes what the
-- calls of the cluster, of Helm and of the health checker return, and yields the object in memory,
-- the stored object, the calls that were made, the result and the error.
pub mod Writes
pub mod Progress
pub mod Ready
pub mod Teardown
pub mod Reconcile
pub mod Moves
pub mod Transitions
pub mod Finalizers
pub mod Deletion
pub mod Runs
pub mod Outcomes
use roost_keeper.Prelude.{
  ◌≡◌, ◌∷◌, ◌++◌, if◌then◌else◌, ℕ, ℤ, String, List, Option, Bool, pos, true, false, none, some, [],
  str_eq, ltb_ℤ,
}
use roost_keeper.Health.{since}
use roost_keeper.Roost.{
  Message, text, with_duration, Reply, Trigger, TeardownPolicy, Spec, Condition, Roost, status_of,
}
use roost_keeper.Lifecycle.{HelmStatus}

-- the functions of k8s.io/apimachinery and controller-runtime that the reconciler calls on an
-- object
pub record Kube : Type 0 where
  pub contains_finalizer : List String → String → Bool
  pub add_finalizer : List String → String → List String
  pub remove_finalizer : List String → String → List String
  pub set_status_condition : List Condition → Condition → List Condition

-- what their documentation says of them
pub record KubeLaws (k : Kube) : Type 0 where
  pub contains-add :
      (fs : List String) (f : String) → k.contains_finalizer (k.add_finalizer fs f) f ≡ true
  pub contains-remove :
      (fs : List String) (f : String) → k.contains_finalizer (k.remove_finalizer fs f) f ≡ false
  pub status_of-set :
      (cs : List Condition) (c : Condition) (t : String)
      → status_of t (k.set_status_condition cs c)
        ≡ (if str_eq c.type_ t then some c.status else status_of t cs)

-- what `r.Get` finds
pub data Fetched : Type 0 where
  found : Fetched
  object_not_found : Fetched
  get_failed : Message → Fetched

-- what the calls of one pass return; a `nil` error is `none`
pub record Env : Type 0 where
  pub fetched : Fetched
  pub update : Option Message
  pub status_update : Option Message
  pub release_exists : Reply Bool
  pub install : Reply Bool
  -- `r.LifecycleManager != nil`
  pub has_lifecycle_manager : Bool
  pub helm_status : HelmStatus
  pub needs_upgrade : Reply Bool
  pub upgrade : Option Message
  pub check_health : Reply Bool
  pub uninstall : Option Message

-- a call that a pass makes, in order
pub data Action : Type 0 where
  helm_exists helm_install helm_needs_upgrade helm_upgrade helm_uninstall : Action
  health_check update_object update_status_call : Action
  event : String → Action

pub record World : Type 0 where
  pub roost : Roost
  pub stored : Roost
  pub log : List Action

-- `ctrl.Result` and the error
pub record Outcome : Type 0 where
  pub requeue : Bool
  pub requeue_after : ℤ
  pub error : Option Message

abbrev pub Pass : Type 0
Pass = World × Outcome

abbrev pub done : Outcome
done = record { requeue = false; requeue_after = pos 0; error = none }

abbrev pub requeue_now : Outcome
requeue_now = record { requeue = true; requeue_after = pos 0; error = none }

abbrev pub after : ℤ → Outcome
after d = record { requeue = false; requeue_after = d; error = none }

abbrev pub fail_with : Message → Outcome
fail_with e = record { requeue = false; requeue_after = pos 0; error = some e }

abbrev pub fail_after : ℤ → Message → Outcome
fail_after d e = record { requeue = false; requeue_after = d; error = some e }

-- the intervals, in nanoseconds
abbrev pub default_requeue_interval : ℤ
default_requeue_interval = pos 300_000_000_000

abbrev pub fast_requeue_interval : ℤ
fast_requeue_interval = pos 30_000_000_000

abbrev pub slow_requeue_interval : ℤ
slow_requeue_interval = pos 600_000_000_000

abbrev pub managed_roost_finalizer : String
managed_roost_finalizer = "roost-keeper.io/finalizer"

abbrev pub log_call : Action → World → World
log_call a w = record w { log = w.log ++ (a ∷ []) }

-- `validateSpec`
unfoldable pub validate_spec : Spec → Option Message
validate_spec s =
    if str_eq s.chart_name ""
    then some (text "chart name is required")
    else if str_eq s.chart_repository_url ""
    then some (text "chart repository URL is required")
    else if str_eq s.chart_version ""
    then some (text "chart version is required")
    else none

abbrev timeout_exceeded : ℕ → Roost → Option ℤ → Option Message
timeout_exceeded now r none = none
timeout_exceeded now r (some limit) =
    if ltb_ℤ limit (since now r.creation_timestamp)
    then some (with_duration "timeout exceeded: %v" limit)
    else none

-- `evaluateTeardownTrigger`: the other kinds of trigger are not implemented there
unfoldable pub evaluate_teardown_trigger : ℕ → Roost → Trigger → Option Message
evaluate_teardown_trigger now r t =
    if str_eq t.type_ "timeout" then timeout_exceeded now r t.timeout else none

unfoldable pub first_trigger : ℕ → Roost → List Trigger → Option Message
first_trigger now r [] = none
first_trigger now r (t ∷ ts) = elim (evaluate_teardown_trigger now r t) [
  | none ↦ first_trigger now r ts
  | some reason ↦ some reason
]

abbrev policy_trigger : ℕ → Roost → Option TeardownPolicy → Option Message
policy_trigger now r none = none
policy_trigger now r (some policy) = first_trigger now r policy.triggers

-- `shouldTeardown`: the reason, if there is one
unfoldable pub should_teardown : ℕ → Roost → Option Message
should_teardown now r = policy_trigger now r r.spec.teardown_policy

-- the object in memory, changed
abbrev pub set_roost : Roost → World → World
set_roost r w = record w { roost = r }
