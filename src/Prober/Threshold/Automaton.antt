-- ===== src/Prober/Threshold/Automaton.antt =====
-- What the thresholds of `record` promise: a hysteresis automaton over unbounded counts.
use hotswap_operator.Prelude.{
  set_or, ℕ, suc, pos, pos_part, ◌≤ℤ◌, ◌<ℤ◌, max_int32, inc32_lem, leb, Bool, true, false, ◌≡◌,
  if◌then◌else◌, arith,
}
use hotswap_operator.Api.Kube.{Time}
use hotswap_operator.Prober.Config.{ProbeConfig}
use hotswap_operator.Prober.Threshold.{PodEntry, record_probe}

-- Healthy after so many failures in a row, or unhealthy after so many successes in a row.
pub data Health : Type 0 where
  up down : ℕ → Health

-- One probe: the new health, and whether it flipped.
unfoldable pub observe : (success failure : ℕ) → Bool → Health → Health × Bool
observe success failure true (up n) = (up 0, false)
observe success failure false (up n) =
    if leb failure (suc n) then (down 0, true) else (up (suc n), false)
observe success failure true (down n) =
    if leb success (suc n) then (up 0, true) else (down (suc n), false)
observe success failure false (down n) = (down 0, false)

-- The counter that matters is that of failures while healthy, and of successes while unhealthy.
abbrev pub health : PodEntry → Health
health pod =
    if pod.state.healthy
    then up (pos_part pod.state.consecutive_failures)
    else down (pos_part pod.state.consecutive_successes)

-- That counter has not wrapped. The other one may.
pub record IsCounting (pod : PodEntry) : Type 0 where
  pub failures :
      pod.state.healthy ≡ true
      → (pos 0 ≤ℤ pod.state.consecutive_failures)
        × (pod.state.consecutive_failures <ℤ pos max_int32)
  pub successes :
      pod.state.healthy ≡ false
      → (pos 0 ≤ℤ pod.state.consecutive_successes)
        × (pod.state.consecutive_successes <ℤ pos max_int32)

-- The thresholds are of type `int32`.
pub record IsTyped (cfg : ProbeConfig) : Type 0 where
  pub success : cfg.success_threshold ≤ℤ pos max_int32
  pub failure : cfg.failure_threshold ≤ℤ pos max_int32

abbrev pub success_count : ProbeConfig → ℕ
success_count cfg = set_or cfg.success_threshold 1

abbrev pub failure_count : ProbeConfig → ℕ
failure_count cfg = set_or cfg.failure_threshold 3

-- On an entry whose counter that matters has not wrapped, and with thresholds of type `int32`, `record` takes
-- the step of the automaton, reports its flip, and keeps that counter from wrapping.
pub record_probe-observe :
    (pod : PodEntry) (cfg : ProbeConfig) (ok : Bool) (now : Time)
    → IsTyped cfg
    → IsCounting pod
    → let (pod', flipped) = record_probe pod cfg ok now in
      ((health pod', flipped) ≡ observe (success_count cfg) (failure_count cfg) ok (health pod))
      × IsCounting pod'
unfolding record_probe observe
record_probe-observe pod cfg true now t c =
    ground (arith, inc32_lem pod.state.consecutive_successes)
record_probe-observe pod cfg false now t c =
    ground (arith, inc32_lem pod.state.consecutive_failures)
