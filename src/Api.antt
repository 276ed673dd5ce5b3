-- ===== src/Api.antt =====
-- The types of the API group hotswap.io/v1alpha1 (api/v1alpha1/hotswappolicy_types.go). A pointer is
-- an `Option`, an `int32` or `int64` the integer that it stands for (Prelude.Int), and an instant the
-- number of nanoseconds since Go's zero time, 1 January of the year 1.
pub mod Kube
pub mod Memory
pub mod DeepCopy
use hotswap_operator.Prelude.{ℕ, ℤ, String, Bool, Option, List}
use Kube.{ObjectMeta, Probe, Condition}
pub use Kube.{Time}

-- The type is a string: the three values that the CRD admits, and any other text.
pub data RemediationStrategy : Type 0 where
  auto rollout_restart delete_pod : RemediationStrategy
  unknown : String → RemediationStrategy

-- `string(strategy)`.
abbrev pub strategy_text : RemediationStrategy → String
strategy_text auto = "Auto"
strategy_text rollout_restart = "RolloutRestart"
strategy_text delete_pod = "DeletePod"
strategy_text (unknown s) = s

pub record TargetReference : Type 0 where
  pub api_version : String
  pub kind : String
  pub name : String

pub record RemediationSpec : Type 0 where
  pub strategy : RemediationStrategy
  pub require_stable : Option Bool
  pub max_consecutive_attempts : ℤ  -- int32
  pub cooldown_seconds : ℤ  -- int32
  pub max_concurrent : ℤ  -- int32
  pub systemic_failure_skip_percent : ℤ  -- int32
  pub dry_run : Bool

pub record HotSwapPolicySpec : Type 0 where
  pub target_ref : TargetReference
  pub hotswap_probe : Probe
  pub remediation : RemediationSpec

pub record TargetHealth : Type 0 where
  pub pod_name : String
  pub pod_ip : String
  pub healthy : Bool
  pub consecutive_failures : ℤ  -- int32
  pub last_probe_time : Option Time
  pub last_transition_time : Option Time

pub record RemediationRecord : Type 0 where
  pub pod_name : String
  pub strategy : RemediationStrategy
  pub time : Time
  pub reason : String

pub record HotSwapPolicyStatus : Type 0 where
  pub observed_generation : ℤ  -- int64
  pub targets : List TargetHealth
  pub last_remediation : Option RemediationRecord
  pub consecutive_attempts : ℤ  -- int32
  pub conditions : List Condition

pub record HotSwapPolicy : Type 0 where
  pub meta : ObjectMeta
  pub spec : HotSwapPolicySpec
  pub status : HotSwapPolicyStatus

-- The names of the conditions and of their reasons.
abbrev pub condition_healthy : String
condition_healthy = "Healthy"

abbrev pub condition_remediating : String
condition_remediating = "Remediating"

abbrev pub condition_degraded : String
condition_degraded = "Degraded"

abbrev pub reason_all_healthy : String
reason_all_healthy = "AllHealthy"

abbrev pub reason_remediating : String
reason_remediating = "Remediating"

abbrev pub reason_dry_run : String
reason_dry_run = "DryRun"

abbrev pub reason_target_not_found : String
reason_target_not_found = "TargetNotFound"

abbrev pub reason_circuit_open : String
reason_circuit_open = "CircuitOpen"

abbrev pub reason_rollout_stalled : String
reason_rollout_stalled = "RolloutStalled"

abbrev pub reason_systemic_failure : String
reason_systemic_failure = "SystemicFailure"

abbrev pub reason_conflicting_policy : String
reason_conflicting_policy = "ConflictingPolicy"

abbrev pub reason_invalid_probe : String
reason_invalid_probe = "InvalidProbe"
