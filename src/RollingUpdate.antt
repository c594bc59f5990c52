-- ===== src/RollingUpdate.antt =====
-- The rolling update of the controller's deployment: internal/ha/rolling_update.go. What the
-- cluster answers is an argument, and so is the sequence of signals that a loop selects from: a
-- cancelled context, the deadline, and the ticks with the deployment that each one reads.
pub mod Monitoring
pub mod Perform
pub mod Outcomes
pub mod Status
use roost_keeper.Prelude.{
  ◌&&◌, ◌∷◌, if◌then◌else◌, ℕ, ℤ, String, List, Option, Bool, pos, none, some, [], str_eq, ltb_ℤ,
  leb_ℤ,
}
use roost_keeper.Roost.{Message, text, about, with_duration, with_text, Reply, ok, err}

pub data ConditionType : Type 0 where
  progressing available : ConditionType
  other : String → ConditionType

-- `appsv1.DeploymentCondition`
pub record Condition : Type 0 where
  pub type_ : ConditionType
  pub status : String
  pub message : String

-- `appsv1.Deployment`, a type of Kubernetes, as far as it is read or written: `image` is that of
-- its first container, and `limits` are the unavailable and the extra pods of its strategy
pub record Deployment : Type 0 where
  pub image : String
  pub strategy : String
  pub limits : Option (Option ℤ × Option ℤ)
  pub spec_replicas : Option ℤ
  pub replicas : ℤ
  pub updated_replicas : ℤ
  pub ready_replicas : ℤ
  pub conditions : List Condition

-- a progress: a percentage, or the quotient `updated / wanted * 100`, a floating-point number
pub data Progress : Type 0 where
  percent : ℕ → Progress
  quotient : ℤ → ℤ → Progress

-- the values of `UpdateStatus.Status`
pub data Stage : Type 0 where
  unset starting failed in_progress failed_with_rollback_error rolled_back completed : Stage

-- `UpdateStatus`
pub record UpdateStatus : Type 0 where
  pub id : Message
  pub start_time : ℕ
  pub status : Stage
  pub current_replicas : ℤ
  pub updated_replicas : ℤ
  pub ready_replicas : ℤ
  pub progress : Progress
  pub message : Message

pub data Signal : Type 0 where
  cancelled : Message → Signal
  deadline : Signal
  tick : Reply Deployment → Signal

-- what a loop, or the check of the conditions, comes to
pub data Outcome : Type 0 where
  done : Outcome
  gave_up : Message → Outcome
  waiting : Outcome
  panicked : Outcome

abbrev pub eq_ℤ : ℤ → ℤ → Bool
eq_ℤ a b = leb_ℤ a b && leb_ℤ b a

-- `UpdatedReplicas == *Spec.Replicas && ReadyReplicas == *Spec.Replicas`; a `nil` is dereferenced
unfoldable pub all_replicas : Deployment → Option ℤ → Outcome
all_replicas d none = panicked
all_replicas d (some n) =
    if eq_ℤ d.updated_replicas n && eq_ℤ d.ready_replicas n then done else waiting

-- one condition in the loop of `monitorRollout`; `next` is the rest of the loop
abbrev pub after_available : Outcome → Outcome → Outcome
after_available waiting next = next
after_available done next = done
after_available panicked next = panicked
after_available (gave_up e) next = gave_up e

abbrev pub settle : Outcome → Message → Outcome × Message → Outcome × Message
settle waiting message later = later
settle done message later = (done, message)
settle panicked message later = (panicked, message)
settle (gave_up e) message later = (gave_up e, message)

unfoldable pub check_one :
    Deployment
    → Condition
    → ConditionType
    → (Message → Outcome × Message)
    → Message
    → Outcome × Message
unfolding all_replicas
check_one d c progressing next message =
    if str_eq c.status "False"
    then (gave_up (with_text "deployment failed to progress: %s" c.message), message)
    else next (text c.message)
check_one d c available next message =
    if str_eq c.status "True"
    then settle (all_replicas d d.spec_replicas) message (next message)
    else next message
check_one d c (other t) next message = next message

unfoldable pub check_conditions : Deployment → List Condition → Message → Outcome × Message
unfolding check_one
check_conditions d [] message = (waiting, message)
check_conditions d (c ∷ cs) message = check_one d c c.type_ (check_conditions d cs) message

abbrev pub progress_of : Option ℤ → ℤ → Progress → Progress
progress_of none updated before = before
progress_of (some n) updated before = if ltb_ℤ (pos 0) n then quotient updated n else before

-- a tick of `monitorRollout`
unfoldable pub observe : Deployment → UpdateStatus → Outcome × UpdateStatus
unfolding check_conditions
observe d s =
    let (outcome, message) = check_conditions d d.conditions s.message in
    (
      outcome,
      record s {
        current_replicas = d.replicas;
        updated_replicas = d.updated_replicas;
        ready_replicas = d.ready_replicas;
        progress = progress_of d.spec_replicas d.updated_replicas s.progress;
        message = message;
      },
    )

abbrev pub go_on :
    (UpdateStatus → Outcome × UpdateStatus) → Outcome × UpdateStatus → Outcome × UpdateStatus
go_on next (waiting, s) = next s
go_on next (done, s) = (done, s)
go_on next (gave_up e, s) = (gave_up e, s)
go_on next (panicked, s) = (panicked, s)

-- `monitorRollout`
unfoldable pub monitor_rollout : ℤ → List Signal → UpdateStatus → Outcome × UpdateStatus
unfolding observe
monitor_rollout timeout [] s = (waiting, s)
monitor_rollout timeout (cancelled e ∷ signals) s =
    (gave_up (about "rollout monitoring cancelled: %w" e), s)
monitor_rollout timeout (deadline ∷ signals) s =
    (gave_up (with_duration "rollout timed out after %v" timeout), s)
monitor_rollout timeout (tick (err e) ∷ signals) s =
    (gave_up (about "failed to get deployment status: %w" e), s)
monitor_rollout timeout (tick (ok d) ∷ signals) s =
    go_on (monitor_rollout timeout signals) (observe d s)
