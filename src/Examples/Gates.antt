-- ===== src/Examples/Gates.antt =====
-- The decision functions at concrete inputs.
use hotswap_operator.Prelude.{pos_part, ◌≤◌, ◌≤ℤ◌, ◌*◌, pos, true, ◌≡◌, refl, ◌↔◌, some, ok, arith}
use hotswap_operator.Api.{RemediationRecord, delete_pod}
use hotswap_operator.Prober.Config.{ProbeConfig, second}
use hotswap_operator.Controller.Logic.{
  normalize_probe, normalize_http, normalize_port, probe_config, time_sub, is_systemic,
  breaker_open, cooldown_active,
}
use hotswap_operator.Controller.Logic.Probes.{
  HasNumericPort, IsTyped, Normalizes, normalize_probe-ok_iff, normalize_probe-Normalizes,
}
use hotswap_operator.Controller.Logic.Gates.{
  is_systemic_iff, is_systemic_of_two, breaker_open-cooldown_active,
}
use hotswap_operator.Examples.World.{probe, http_get}

pub probe-IsTyped : IsTyped probe
probe-IsTyped = record { initial_delay = omega arith; timeout = omega arith; period = omega arith }

normalize_probe-ok_iff_example :
    ((cfg : ProbeConfig) × (normalize_probe probe ≡ ok cfg)) ↔ HasNumericPort probe
normalize_probe-ok_iff_example = normalize_probe-ok_iff probe

normalize_probe-Normalizes_example :
    Normalizes probe http_get (probe_config probe http_get (pos 8080))
unfolding normalize_probe normalize_http normalize_port
normalize_probe-Normalizes_example =
    normalize_probe-Normalizes probe http_get probe-IsTyped refl refl

is_systemic_iff_example :
    (is_systemic (pos 1) (pos 3) (pos 50) ≡ true)
    ↔ ((2 ≤ 3) × (1 ≤ 1) × (pos 1 ≤ℤ pos 50) × (pos_part (pos 50) * 3 ≤ 1 * 100))
is_systemic_iff_example = is_systemic_iff 1 3 (pos 50) (omega arith) (omega arith) (omega arith)

is_systemic_of_two_example : is_systemic (pos 1) (pos 2) (pos 50) ≡ true
is_systemic_of_two_example =
    is_systemic_of_two 1 50 (omega arith) (omega arith) (omega arith) (omega arith)

abbrev last : RemediationRecord
last = record {
  pod_name = "a";
  strategy = delete_pod;
  time = 100 * second;
  reason = "hotswapProbe health regression";
}

breaker_open-cooldown_active_example :
    cooldown_active (some last) (pos (60 * second)) (110 * second) ≡ true
unfolding breaker_open time_sub
breaker_open-cooldown_active_example =
    breaker_open-cooldown_active (pos 3) (pos 3) (some last) (pos (60 * second)) (110 * second)
      (omega arith) refl
