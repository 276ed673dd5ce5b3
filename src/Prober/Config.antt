-- ===== src/Prober/Config.antt =====
-- The data of the prober (internal/prober/checker.go and prober.go): the normalised probe, the pods to
-- be probed and the health that is kept for each.
use hotswap_operator.Prelude.{ℕ, ℤ, String, Bool}
use hotswap_operator.Prelude.Dict.{Dict}
use hotswap_operator.Api.Kube.{Time}

-- Durations are nanoseconds, an `int64`.
abbrev pub second : ℕ
second = 1000000000

pub record ProbeConfig : Type 0 where
  pub path : String
  pub scheme : String
  pub port : ℤ  -- int32
  pub timeout : ℤ
  pub period : ℤ
  pub initial_delay : ℤ
  pub success_threshold : ℤ  -- int32
  pub failure_threshold : ℤ  -- int32
  pub headers : Dict String

pub record PodTarget : Type 0 where
  pub name : String
  pub uid : String
  pub ip : String

-- A time of 0 is Go's zero time: no probe, or no transition, yet.
pub record PodState : Type 0 where
  pub pod_name : String
  pub pod_uid : String
  pub pod_ip : String
  pub healthy : Bool
  pub consecutive_failures : ℤ  -- int32
  pub consecutive_successes : ℤ  -- int32
  pub seen_ready : Bool
  pub last_probe : Time
  pub last_transition : Time
