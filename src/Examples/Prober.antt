-- ===== src/Examples/Prober.antt =====
-- The prober at concrete inputs: two targets, of which one is probed twice without success.
use hotswap_operator.Prelude.{
  ℕ, suc, ◌*◌, ◌≤◌, pos, String, true, false, ◌≡◌, ◌↔◌, ◌⊎◌, some, List, [], ◌∷◌, arith,
}
use hotswap_operator.Prober.Config.{ProbeConfig, PodTarget, second}
use hotswap_operator.Prober.Threshold.{PodEntry, new_entry, record_probe}
use hotswap_operator.Prober.Threshold.Automaton.{
  observe, health, IsCounting, IsTyped, success_count, failure_count, record_probe-observe,
}
use hotswap_operator.Prober.Threshold.History.{
  History, successes_in_row, failures_in_row, feed, new_entry-IsCounting, flip_iff, feed_verdict,
}
use hotswap_operator.Prober.Threshold.Flaps.{results_like, flips_by, flips_bound}
use hotswap_operator.Prober.Manager.{Manager, new_manager, key, slot, sync, snapshot}
use hotswap_operator.Prober.Manager.Sync.{last_target, synced, sync_slots}
use hotswap_operator.Prober.Manager.Workers.{Probes}
use hotswap_operator.Prober.Manager.Snapshot.{shown, sync_snapshot}
use mathlib.Core.List.{Memᴰ}
use hotswap_operator.Prober.Manager.Interleavings.{
  Step, Reachable, initial, next, Reachable-IsSound, one_prober,
}
use hotswap_operator.Prober.Manager.Interleavings
use hotswap_operator.Examples.World.{runtime, guard_key}

abbrev pub cfg : ProbeConfig
cfg = record {
  path = "/healthz";
  scheme = "HTTP";
  port = pos 8080;
  timeout = pos (2 * second);
  period = pos (10 * second);
  initial_delay = pos 0;
  success_threshold = pos 1;
  failure_threshold = pos 2;
  headers = [];
}

abbrev pub target : PodTarget
target = record { name = "web-1"; uid = "u1"; ip = "10.0.0.1" }

abbrev pub targets : List PodTarget
targets = target ∷ record { name = "web-2"; uid = "u2"; ip = "10.0.0.2" } ∷ []

cfg-IsTyped : IsTyped cfg
cfg-IsTyped = record { success = omega arith; failure = omega arith }

-- One failure, then one more.
abbrev failing : History
failing = (false, 20) ∷ (false, 10) ∷ []

record_probe-observe_example :
    let (pod', flipped) = record_probe (new_entry target (some 0)) cfg false 10 in
    ((health pod', flipped)
      ≡ observe (success_count cfg) (failure_count cfg) false (health (new_entry target (some 0))))
    × IsCounting pod'
record_probe-observe_example =
    record_probe-observe (new_entry target (some 0)) cfg false 10 cfg-IsTyped
      (new_entry-IsCounting target (some 0))

flips_bound_example :
    (failure_count cfg * flips_by false cfg (new_entry target (some 0)) failing
      ≤ results_like false failing)
    × (success_count cfg * flips_by true cfg (new_entry target (some 0)) failing
        ≤ results_like true failing)
    × (flips_by true cfg (new_entry target (some 0)) failing
        ≤ flips_by false cfg (new_entry target (some 0)) failing)
    × (flips_by false cfg (new_entry target (some 0)) failing
        ≤ suc (flips_by true cfg (new_entry target (some 0)) failing))
flips_bound_example = flips_bound cfg target (some 0) failing cfg-IsTyped

feed_verdict_example :
    let pod = feed cfg (new_entry target (some 0)) failing in
    (failure_count cfg ≤ failures_in_row failing → pod.state.healthy ≡ false)
    × (success_count cfg ≤ successes_in_row failing → pod.state.healthy ≡ true)
feed_verdict_example = feed_verdict cfg target (some 0) failing cfg-IsTyped

flip_iff_example :
    let pod = feed cfg (new_entry target (some 0)) failing in
    ((record_probe pod cfg true 30).1 ≡ true) ↔ (
      ((pod.state.healthy ≡ true)
        × (true ≡ false)
        × (suc (failures_in_row failing) ≡ failure_count cfg))
      ⊎ ((pod.state.healthy ≡ false)
          × (true ≡ true)
          × (suc (successes_in_row failing) ≡ success_count cfg)))
flip_iff_example = flip_iff cfg target (some 0) failing true 30 cfg-IsTyped

-- The manager after the first call of `Sync`.
abbrev pub busy : Manager
busy = sync runtime guard_key cfg targets new_manager

pub busy-Reachable : Reachable runtime busy
busy-Reachable = next initial (Interleavings.synced guard_key cfg targets)

sync_slots_example :
    (c : ℕ) × (slot (key runtime guard_key) "u1" (sync runtime guard_key cfg targets busy)
      ≡ synced (last_target "u1" targets) (slot (key runtime guard_key) "u1" busy) c)
sync_slots_example =
    sync_slots runtime guard_key cfg targets busy (Reachable-IsSound runtime busy-Reachable).tidy
      "u1"

sync_snapshot_example :
    let st = shown target (slot (key runtime guard_key) "u1" busy) in
    Memᴰ st (snapshot runtime guard_key (sync runtime guard_key cfg targets busy)) ↔ (
      (uid : String) × (t : PodTarget) × (last_target uid targets ≡ some t)
      × (st ≡ shown t (slot (key runtime guard_key) uid busy)))
sync_snapshot_example =
    sync_snapshot runtime guard_key cfg targets busy
      (shown target (slot (key runtime guard_key) "u1" busy)) busy-Reachable

one_prober_example :
    ((pod : PodEntry)
      → slot "guard" "u1" busy ≡ some pod
      → (c : ℕ) × Probes runtime busy "guard" "u1" c
        × ((d : ℕ) → Probes runtime busy "guard" "u1" d → d ≡ c))
    × ((c : ℕ)
        → Probes runtime busy "guard" "u1" c
        → (pod : PodEntry) × (slot "guard" "u1" busy ≡ some pod))
one_prober_example = one_prober runtime busy "guard" "u1" busy-Reachable
