-- ===== src/Examples/Loop.antt =====
-- The goroutines at concrete inputs: two targets, of which the goroutine of the first begins.
use hotswap_operator.Prelude.{
  ℕ, ◌++◌, ◌∷◌, ◌+◌, ◌*◌, ◌≤◌, ◌⊎◌, pos, true, false, ◌≡◌, refl, some, [],
}
use hotswap_operator.Prelude.Dict.{lookup, insert}
use hotswap_operator.Prober.Config.{ProbeConfig, second}
use hotswap_operator.Prober.Threshold.{new_entry}
use hotswap_operator.Prober.Manager.{
  send_event, Manager, Worker, key, slot, pods_of, set_pods, new_manager, sync, open_entry,
  desired_from, stop_missing, start_desired, add_or_refresh, start_pod,
}
use hotswap_operator.Prober.Manager.Workers.{Probes}
use hotswap_operator.Prober.Loop.{
  is_done, reporting, waiting, sends, entering, beginning, enter, Prober, new_prober, at, enters,
  synced, turns, Reachable, initial, next,
}
use hotswap_operator.Prober.Loop.Places.{is_ended}
use hotswap_operator.Prober.Loop.Running.{Moves, watched}
use hotswap_operator.Prober.Loop.Turns.{
  distance, period_of, Run, stays, goes_on, turns_taken, ticks_seen,
}
use hotswap_operator.Prober.Loop.Pace.{pace, period_kept}
use hotswap_operator.Prober.Loop.Return.{winds_down}
use hotswap_operator.Prober.Loop.Events.{IsQueued, event_kept}
use hotswap_operator.Examples.World.{runtime, guard_key}
use hotswap_operator.Examples.Prober.{cfg, target, targets, busy}

-- The prober after the first `Sync`.
abbrev pub started : Prober
started = record { manager = busy; phase = λ c. entering; stopped = false; counted = [] }

started-Reachable : Reachable runtime started
unfolding new_prober
started-Reachable = next initial (synced guard_key cfg targets)

first_known : slot "guard" "u1" busy ≡ some (new_entry target (some 0))
unfolding slot pods_of sync key new_manager open_entry desired_from stop_missing start_desired
    add_or_refresh start_pod set_pods lookup insert new_entry
first_known = refl

watched_example :
    (c : ℕ) × (probes : Probes runtime busy "guard" "u1" c) × (is_ended (started.phase c) ≡ false)
    × Moves runtime c (record { policy = probes.nn; uid = "u1" }) started
watched_example =
    watched runtime started "guard" "u1" (new_entry target (some 0)) started-Reachable refl
      first_known

abbrev pub first_worker : Worker
first_worker = record { policy = guard_key; uid = "u1" }

first_runs : busy.workers 0 ≡ some first_worker
unfolding sync key new_manager open_entry desired_from stop_missing start_desired add_or_refresh
    start_pod set_pods lookup insert pods_of slot
first_runs = refl

-- The root context is cancelled before the goroutine has begun.
abbrev stopping : Prober
stopping = record started { stopped = true }

abbrev begun : Prober
begun = at 0 (enter (lookup (key runtime guard_key) busy.policies)) stopping

abbrev begins_late : Run runtime stopping begun
begins_late = goes_on stays (turns 0 first_worker first_runs (enters refl))

no_ticks : ticks_seen runtime 0 begins_late ≡ 0
unfolding ticks_seen
no_ticks = refl

pace_example :
    turns_taken runtime 0 begins_late + distance (begun.phase 0)
    ≤ distance (stopping.phase 0) + 4 * ticks_seen runtime 0 begins_late
pace_example = pace runtime 0 begins_late

begun_runs : begun.manager.workers 0 ≡ some first_worker
begun_runs = first_runs

winds_down_example :
    (turns_taken runtime 0 begins_late ≤ 6)
    × ((s : Prober) × (rest : Run runtime begun s) × (ticks_seen runtime 0 rest ≡ 0)
        × (is_ended (s.phase 0) ≡ true)
        × (turns_taken runtime 0 begins_late + turns_taken runtime 0 rest ≤ 6))
winds_down_example = winds_down runtime 0 first_worker begins_late refl no_ticks begun_runs

-- The goroutine has read a period of ten seconds, and `Sync` stores one of a minute.
abbrev slow : ProbeConfig
slow = record cfg { period = pos (60 * second) }

abbrev pacing : Prober
pacing = at 0 (beginning (pos (10 * second))) started

abbrev resynced : Prober
resynced = record pacing { manager = sync runtime guard_key slow targets busy }

abbrev slower : Run runtime pacing resynced
slower = goes_on stays (synced guard_key slow targets)

period_kept_example :
    (is_ended (resynced.phase 0) ≡ true) ⊎ (period_of (resynced.phase 0) ≡ some (pos (10 * second)))
period_kept_example = period_kept runtime 0 (pos (10 * second)) slower refl

-- The goroutine has seen a flip, and there is room in the channel.
abbrev flipped : Prober
flipped = at 0 (reporting (pos (10 * second))) started

abbrev told : Manager
told = record busy { events = busy.events ++ guard_key ∷ [] }

told_sent : send_event guard_key busy ≡ some told
unfolding send_event sync key new_manager open_entry desired_from stop_missing start_desired
    add_or_refresh start_pod set_pods lookup insert pods_of slot
told_sent = refl

flipped_live : is_done flipped 0 ≡ false
unfolding sync key new_manager open_entry desired_from stop_missing start_desired add_or_refresh
    start_pod set_pods lookup insert pods_of slot
flipped_live = refl

event_kept_example :
    let s' = at 0 (waiting (pos (10 * second))) (record flipped { manager = told }) in
    (s'.phase 0 ≡ reporting (pos (10 * second))) ⊎ IsQueued guard_key flipped s'
event_kept_example =
    event_kept runtime 0 first_worker (pos (10 * second)) flipped
      (at 0 (waiting (pos (10 * second))) (record flipped { manager = told }))
      (turns 0 first_worker first_runs (sends (pos (10 * second)) told refl told_sent)) first_runs
      refl flipped_live
