-- ===== src/Teardown.antt =====
-- The teardown manager: internal/teardown/types.go, and evaluator.go and manager.go down to the
-- choice among decisions. Metadata, metrics and the audit log are left out.
pub mod Safety
pub mod Firing
pub mod Policy
pub mod Choice
pub mod Execution
pub mod Concurrency
pub mod Evaluators
use roost_keeper.Prelude.{
  ◌∷◌, if◌then◌else◌, ℕ, ℤ, String, List, Option, Bool, pos, negsuc, false, none, some, [], ltb_ℤ,
  lookup, insert, member,
}
use roost_keeper.Roost.{Message, text, Trigger, Reply, ok, err, Roost}

-- `TeardownUrgency`; `unset_urgency` is the empty string
pub data Urgency : Type 0 where
  unset_urgency low medium high critical_urgency : Urgency

-- `SafetySeverity`
pub data Severity : Type 0 where
  info warning error critical : Severity

-- `SafetyCheck`, without its details
pub record SafetyCheck : Type 0 where
  pub name : String
  pub passed : Bool
  pub message : Message
  pub can_override : Bool
  pub severity : Severity
  pub checked_at : ℕ

-- `TeardownDecision`, without its metadata
pub record Decision : Type 0 where
  pub should_teardown : Bool
  pub reason : Message
  pub urgency : Urgency
  pub safety_checks : List SafetyCheck
  pub trigger_type : String
  pub evaluated_at : ℕ
  pub score : ℤ

-- `TeardownEvaluator`, as far as the manager calls it: a decision may be nil
pub record Evaluator : Type 0 where
  pub type_ : String
  pub priority : ℤ
  pub should_teardown_of : ℕ → Roost → Reply (Option Decision)

-- `EvaluatorRegistry.Register`
unfoldable pub register : Evaluator → List (String × Evaluator) → List (String × Evaluator)
register e registry = insert e.type_ e registry

-- the map `triggerTypes`, as the list of its keys
abbrev pub trigger_types : List Trigger → List String
trigger_types [] = []
trigger_types (t ∷ ts) =
    let rest = trigger_types ts in if member t.type_ rest then rest else t.type_ ∷ rest

abbrev pub known : List (String × Evaluator) → List String → List Evaluator
known registry [] = []
known registry (t ∷ ts) = elim (lookup t registry) [
  | none ↦ known registry ts
  | some e ↦ e ∷ known registry ts
]

-- `GetByTrigger`
unfoldable pub get_by_trigger : List Trigger → List (String × Evaluator) → List Evaluator
get_by_trigger triggers registry = known registry (trigger_types triggers)

-- the decision for no teardown
abbrev pub no_teardown : ℕ → String → Decision
no_teardown now reason = record {
  should_teardown = false;
  reason = text reason;
  urgency = low;
  safety_checks = [];
  trigger_type = "none";
  evaluated_at = now;
  score = pos 0;
}

-- the decisions that the evaluators come to, of those that say that the roost is to go
abbrev pub kept : Reply (Option Decision) → List Decision → List Decision
kept (err m) ds = ds
kept (ok none) ds = ds
kept (ok (some d)) ds = if d.should_teardown then d ∷ ds else ds

unfoldable pub collect : ℕ → Roost → List Evaluator → List Decision
collect now r [] = []
collect now r (e ∷ es) = kept (e.should_teardown_of now r) (collect now r es)

-- the loop of `aggregateDecisions`, with the highest score so far and the decision that has it
abbrev highest : ℤ → Option Decision → List Decision → Option Decision
highest score best [] = best
highest score best (d ∷ ds) =
    if ltb_ℤ score d.score then highest d.score (some d) ds else highest score best ds

abbrev or_first : Decision → Option Decision → Decision
or_first first none = first
or_first first (some d) = d

-- `aggregateDecisions`
unfoldable pub aggregate_decisions : ℕ → List Decision → Decision
aggregate_decisions now [] = no_teardown now "No triggers activated"
aggregate_decisions now (d ∷ ds) = or_first d (highest (negsuc 0) none (d ∷ ds))
