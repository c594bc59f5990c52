-- ===== src/Roost.antt =====
-- The ManagedRoost resource, as far as the modelled code reads it: api/v1alpha1/
-- managedroost_types.go. A `fmt.Sprintf` or `fmt.Errorf` is kept as its format with its arguments.
use roost_keeper.Prelude.{
  ◌∷◌, if◌then◌else◌, ℕ, ℤ, String, List, Option, Bool, none, some, [], str_eq,
}

pub data Message : Type 0 where
  text : String → Message
  about : String → Message → Message
  about_text : String → String → Message → Message
  about_both : String → Message → Message → Message
  with_text : String → String → Message
  with_duration : String → ℤ → Message
  with_durations : String → ℤ → ℤ → Message
  with_count : String → ℤ → Message
  with_counts : String → ℤ → ℤ → Message
  with_index : String → String → ℕ → Message
  with_texts : String → List String → Message

-- what a fallible call returns
pub data Reply {ℓ} (A : Type ℓ) : Type ℓ where
  ok : A → Reply A
  err : Message → Reply A

-- `ManagedRoostPhase`: the empty string, the constants, and any other string
pub data Phase : Type 0 where
  unset pending deploying ready failed tearing_down : Phase
  unknown : String → Phase

-- `TeardownTriggerSpec`; a pointer that is only tested against nil is a `Bool`
pub record Trigger : Type 0 where
  pub type_ : String
  pub timeout : Option ℤ
  pub failure_count : Option ℤ
  pub resource_threshold : Bool
  pub schedule : String
  pub webhook : Bool

-- `DataPreservationSpec`
pub record DataPreservation : Type 0 where
  pub enabled : Bool
  pub backup_policy : Bool

-- `TeardownPolicySpec`
pub record TeardownPolicy : Type 0 where
  pub triggers : List Trigger
  pub require_manual_approval : Bool
  pub data_preservation : Option DataPreservation

-- `HealthCheckSpec`; the six specifications of a kind are tested against nil alone
pub record HealthCheckSpec : Type 0 where
  pub name : String
  pub type_ : String
  pub http : Bool
  pub tcp : Bool
  pub udp : Bool
  pub grpc : Bool
  pub prometheus : Bool
  pub kubernetes : Bool
  pub interval : ℤ
  pub weight : ℤ

-- `ManagedRoostSpec`
pub record Spec : Type 0 where
  pub chart_name : String
  pub chart_repository_url : String
  pub chart_version : String
  pub health_checks : List HealthCheckSpec
  pub teardown_policy : Option TeardownPolicy

-- `HealthCheckStatus`
pub record HealthCheckStatus : Type 0 where
  pub name : String
  pub status : String
  pub failure_count : ℤ

-- `TeardownStatus`
pub record TeardownStatus : Type 0 where
  pub triggered : Bool
  pub trigger_reason : Message
  pub trigger_time : Option ℕ
  pub completion_time : Option ℕ
  pub progress : ℤ

-- `HelmReleaseStatus`
pub record HelmRelease : Type 0 where
  pub name : String
  pub status : String

-- `metav1.Condition`; its status is "True", "False" or "Unknown"
pub data ConditionStatus : Type 0 where
  condition_true condition_false condition_unknown : ConditionStatus

pub record Condition : Type 0 where
  pub type_ : String
  pub status : ConditionStatus
  pub observed_generation : ℤ
  pub last_transition_time : ℕ
  pub reason : String
  pub message : Message

-- `ManagedRoostStatus`
pub record Status : Type 0 where
  pub phase : Phase
  pub helm_release : Option HelmRelease
  pub health_checks : List HealthCheckStatus
  pub health : String
  pub teardown : Option TeardownStatus
  pub conditions : List Condition
  pub last_update_time : Option ℕ
  pub observed_generation : ℤ

-- `ManagedRoost`
pub record Roost : Type 0 where
  pub name : String
  pub namespace : String
  pub finalizers : List String
  pub deletion_timestamp : Option ℕ
  pub creation_timestamp : ℕ
  pub generation : ℤ
  pub annotations : List (String × String)
  pub spec : Spec
  pub status : Status

-- the status of the first condition of a type
abbrev pub status_of : String → List Condition → Option ConditionStatus
status_of t [] = none
status_of t (c ∷ cs) = if str_eq c.type_ t then some c.status else status_of t cs
