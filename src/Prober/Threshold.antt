-- ===== src/Prober/Threshold.antt =====
-- The record of one pod and `record` of internal/prober/prober.go, which counts the results of its
-- probes and flips its health at the thresholds.
pub mod Automaton
pub mod History
pub mod Flaps
use hotswap_operator.Prelude.{
  ℕ, ℤ, pos, leb_ℤ, inc32, Bool, true, false, not, ◌&&◌, Option, if◌then◌else◌,
}
use hotswap_operator.Api.Kube.{Time}
use hotswap_operator.Prober.Config.{ProbeConfig, PodState, PodTarget}

-- `cancel` is the context whose cancel function the entry holds; contexts are numbered.
pub record PodEntry : Type 0 where
  pub state : PodState
  pub started : Bool
  pub cancel : Option ℕ

-- The entry that `Sync` makes of a new pod, with its context.
unfoldable pub new_entry : PodTarget → Option ℕ → PodEntry
new_entry t ctx = record {
  state = record {
    pod_name = t.name;
    pod_uid = t.uid;
    pod_ip = t.ip;
    healthy = true;
    consecutive_failures = pos 0;
    consecutive_successes = pos 0;
    seen_ready = false;
    last_probe = 0;
    last_transition = 0;
  };
  started = false;
  cancel = ctx;
}

-- A threshold that is not positive stands for its default.
abbrev pub at_least_one : ℤ → ℤ → ℤ
at_least_one v def = if leb_ℤ v (pos 0) then def else v

unfoldable pub record_success : PodState → ℤ → Time → PodState × Bool
record_success s success now =
    let counted = record s {
      consecutive_successes = inc32 s.consecutive_successes;
      consecutive_failures = pos 0;
    } in
    if not counted.healthy && leb_ℤ success counted.consecutive_successes
    then (record counted { healthy = true; last_transition = now }, true)
    else (counted, false)

unfoldable pub record_failure : PodState → ℤ → Time → PodState × Bool
record_failure s failure now =
    let counted = record s {
      consecutive_failures = inc32 s.consecutive_failures;
      consecutive_successes = pos 0;
    } in
    if counted.healthy && leb_ℤ failure counted.consecutive_failures
    then (record counted { healthy = false; last_transition = now }, true)
    else (counted, false)

-- `record`: the entry after one probe, and whether its health flipped.
unfoldable pub record_probe : PodEntry → ProbeConfig → Bool → Time → PodEntry × Bool
unfolding record_success record_failure
record_probe pod cfg ok now =
    let success = at_least_one cfg.success_threshold (pos 1) in
    let failure = at_least_one cfg.failure_threshold (pos 3) in
    let probed = record pod.state { last_probe = now } in
    let r = if ok then record_success probed success now else record_failure probed failure now in
    (record pod { state = r.0; started = true }, r.1)
