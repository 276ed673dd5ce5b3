-- ===== src/Examples/System.antt =====
-- The whole system at concrete inputs: three pods, of which one answers two probes with a failure, and the run that
-- follows.
use hotswap_operator.Prelude.{
  ◌⊎◌, true, inl, inr, Option-cases, ◌↔◌, List, ◌*◌, ℤ, pos, String, false, ◌≡◌, refl, some, [],
  ◌∷◌, ok, arith,
}
use hotswap_operator.Prelude.Int.{inc32, mul64, wrap64, ◌*ℤ◌, ◌=ℤ◌}
use hotswap_operator.Prelude.Dict.{lookup, insert}
use hotswap_operator.Api.Kube.{Deployment, Pod}
use hotswap_operator.Prober.Config.{PodTarget, ProbeConfig, second}
use hotswap_operator.Prober.Threshold.{
  PodEntry, new_entry, record_probe, record_success, record_failure,
}
use hotswap_operator.Prober.Threshold.Automaton.{IsTyped}
use hotswap_operator.Prober.Manager.{
  Manager, Worker, key, slot, pods_of, set_pods, new_manager, sync, open_entry, desired_from,
  stop_missing, start_desired, add_or_refresh, start_pod, set_seen_ready, finish_probe, begin_probe,
  snapshot,
}
use hotswap_operator.Prober.Loop.{
  Prober, new_prober, Turn, enters, begins, answers, ticks, enter, begin, conclude, answer, at,
  beginning, checking,
}
use hotswap_operator.Controller.Logic.{
  probe_config, normalize_probe, normalize_http, normalize_port, progress_deadline_exceeded,
  any_stalled,
}
use hotswap_operator.Controller.Status.{is_pod_ready, targets_of, unhealthy_of}
use hotswap_operator.Controller.Overlap.{
  conflicting_policy, winner_name, winner_of, challenge, less_policy,
}
use hotswap_operator.Controller.Env.{Run, Env, Outcome, Cluster}
use hotswap_operator.Controller.Reconcile.{
  answered, finish, triage, recover, decide, mark_ready, observe, with_pods, with_selector,
  with_winner, with_deployment, with_probe, with_policy, reconcile,
}
use hotswap_operator.Controller.Reconcile.Gates.{IsQuiet}
use hotswap_operator.Controller.Reconcile.Admission.{met_by, IsAdmitted}
use hotswap_operator.Api.{HotSwapPolicy}
use hotswap_operator.Controller.Reconcile.Accused.{AreAccused}
use hotswap_operator.Controller.Reconcile.Calls.{reconcile_keeps}
use hotswap_operator.System.{
  goes_on, stops, Evidence, made_by, System, new_system, logged, moves, turns, Moves, stays, source,
  IsWired, Reachable, initial, next, runs,
}
use hotswap_operator.System.Results.{results_of, is_shown, Convicted, IsTypedLog}
use hotswap_operator.System.Verdicts.{verdict_iff, IsGuilty, no_innocent}
use hotswap_operator.Examples.World.{
  runtime, guard_key, policy, probe, http_get, meta_of, library, cluster_with, fine,
}

-- What has been reached, and how.
abbrev Reached : Type 0
Reached = (s : System) × Reachable runtime s

abbrev pod : String → Pod
pod name = record {
  meta = meta_of name;
  pod_ip = "10.0.0.1";
  conditions = record { type = "Ready"; status = "True" } ∷ [];
}

abbrev cluster : Cluster
cluster = record (cluster_with policy fine) {
  list_pods = λ ns selector. ok (pod "a" ∷ pod "b" ∷ pod "c" ∷ []);
}

abbrev env : Env System
env = record {
  lib = library;
  cluster = cluster;
  prober = source runtime (λ s. s);
  now = 1000 * second;
}

env-IsWired : IsWired runtime env
env-IsWired = record { between = λ s. s; wired = refl; moving = λ s. stays }

-- The first run tells the prober of the pods.
abbrev observed : Reached
observed = (
  (reconcile env guard_key (record { state = new_system; effects = [] })).2.state,
  next initial (runs env guard_key [] env-IsWired),
)

abbrev w : Worker
w = record { policy = guard_key; uid = "a" }

abbrev turned :
    (x : Reached) (p : Prober)
    → x.0.prober.manager.workers 0 ≡ some w
    → Turn runtime 0 w x.0.prober p
    → Reached
turned x p running turn = (
  record { prober = p; log = logged runtime 0 w x.0.prober p turn x.0.log },
  next x.1 (moves (turns 0 w p running turn)),
)

abbrev cfg : ProbeConfig
cfg = probe_config probe http_get (pos 8080)

abbrev period : ℤ
period = pos (10 * second)

-- The goroutine of the first pod probes twice, each time with a failure.
unfoldable accused : Reached
unfolding made_by logged new_system new_prober reconcile with_policy with_probe with_deployment
    with_winner with_selector with_pods observe decide progress_deadline_exceeded any_stalled triage
    unhealthy_of recover finish answered mark_ready is_pod_ready targets_of normalize_probe
    normalize_http normalize_port conflicting_policy winner_name winner_of challenge less_policy
    mul64 wrap64 ◌*ℤ◌ ◌=ℤ◌ sync key open_entry desired_from stop_missing start_desired
    add_or_refresh start_pod set_pods lookup insert pods_of slot new_manager new_entry
    set_seen_ready enter begin begin_probe answer conclude finish_probe record_probe record_success
    record_failure inc32 snapshot
accused =
    let x1 = turned observed (at 0 (beginning period) observed.0.prober) refl (enters refl) in
    let x2 =
      turned x1 (at 0 (checking period cfg "10.0.0.1") x1.0.prober) refl (begins period refl) in
    let x3 =
      turned x2 (answer runtime 0 w period cfg false 10 x2.0.prober) refl
        (answers period cfg "10.0.0.1" false 10 refl) in
    let x4 = turned x3 (at 0 (beginning period) x3.0.prober) refl (ticks period refl) in
    let x5 =
      turned x4 (at 0 (checking period cfg "10.0.0.1") x4.0.prober) refl (begins period refl) in
    turned x5 (answer runtime 0 w period cfg false 20 x5.0.prober) refl
      (answers period cfg "10.0.0.1" false 20 refl)

-- The next run, after each of whose calls the prober is stopped.
abbrev ending : System → System
ending s = record s { prober = record s.prober { stopped = true } }

abbrev env_ending : Env System
env_ending = record env { prober = source runtime ending }

ending-IsWired : IsWired runtime env_ending
ending-IsWired = record { between = ending; wired = refl; moving = λ s. goes_on stays stops }

abbrev outcome : Outcome System
outcome = reconcile env_ending guard_key (record { state = accused.0; effects = [] })

made_by-IsTypedLog :
    (k : String) (ts : List PodTarget) (m : Manager) (log : List Evidence)
    → IsTypedLog log
    → IsTypedLog (made_by k ts m log)
unfolding made_by
made_by-IsTypedLog k [] m log h = h
made_by-IsTypedLog k (t ∷ ts) m log h = elim (Option-cases (slot k t.uid m)) [
  | inl new ↦ rw new (tt, made_by-IsTypedLog k ts m log h)
  | inr (pod, known) ↦ rw known (made_by-IsTypedLog k ts m log h)
]

-- A run adds no probe to the log.
run_IsTypedLog :
    (s : System)
    → IsTypedLog s.log
    → IsTypedLog (reconcile env guard_key (record { state = s; effects = [] })).2.state.log
run_IsTypedLog s h =
    reconcile_keeps env (λ s. IsTypedLog s.log)
      (λ nn cfg ts s k. made_by-IsTypedLog (key runtime nn) ts s.prober.manager s.log k)
      (λ nn uid s k. (tt, k)) (λ nn s k. k) (λ nn s k. k) guard_key
      (record { state = s; effects = [] }) h

ending_IsTypedLog :
    (s : System)
    → IsTypedLog s.log
    → IsTypedLog (reconcile env_ending guard_key (record { state = s; effects = [] })).2.state.log
ending_IsTypedLog s h =
    reconcile_keeps env_ending (λ s. IsTypedLog s.log)
      (λ nn cfg ts s k. made_by-IsTypedLog (key runtime nn) ts s.prober.manager s.log k)
      (λ nn uid s k. (tt, k)) (λ nn s k. k) (λ nn s k. k) guard_key
      (record { state = s; effects = [] }) h

accused-IsTypedLog : IsTypedLog accused.0.log
unfolding accused logged new_system
accused-IsTypedLog =
    let t : IsTyped cfg = record { success = ground arith; failure = ground arith } in
    (t, (t, run_IsTypedLog new_system tt))

no_innocent_example :
    let r : Run System = record { state = accused.0; effects = [] } in
    IsQuiet env_ending r outcome
    ⊎ ((policy : HotSwapPolicy) × (cfg : ProbeConfig) × (dep : Deployment) × (pods : List Pod)
        × IsAdmitted env_ending guard_key r policy cfg dep pods
        × Moves runtime (met_by env_ending guard_key cfg pods r) outcome.2.state
        × AreAccused
            (IsGuilty runtime (key runtime guard_key) (met_by env_ending guard_key cfg pods r))
            outcome.2.effects)
no_innocent_example =
    no_innocent runtime accused.0 env_ending guard_key accused.1 ending-IsWired
      (ending_IsTypedLog accused.0 accused-IsTypedLog)

abbrev failing_pod : PodEntry
failing_pod = record {
  state = record {
    pod_name = "a";
    pod_uid = "a";
    pod_ip = "10.0.0.1";
    healthy = false;
    consecutive_failures = pos 2;
    consecutive_successes = pos 0;
    seen_ready = true;
    last_probe = 20;
    last_transition = 20;
  };
  started = true;
  cancel = some 0;
}

accused_slot : slot "guard" "a" accused.0.prober.manager ≡ some failing_pod
unfolding accused made_by logged new_system new_prober reconcile with_policy with_probe
    with_deployment with_winner with_selector with_pods observe decide progress_deadline_exceeded
    any_stalled triage unhealthy_of recover finish answered mark_ready is_pod_ready targets_of
    normalize_probe normalize_http normalize_port conflicting_policy winner_name winner_of challenge
    less_policy mul64 wrap64 ◌*ℤ◌ ◌=ℤ◌ sync key open_entry desired_from stop_missing start_desired
    add_or_refresh start_pod set_pods lookup insert pods_of slot new_manager new_entry
    set_seen_ready enter begin begin_probe answer conclude finish_probe record_probe record_success
    record_failure inc32 snapshot
accused_slot = refl

verdict_iff_example :
    ((false ≡ false) ↔ Convicted (results_of "guard" "a" accused.0.log))
    × (true ≡ is_shown "guard" "a" accused.0.log)
verdict_iff_example =
    verdict_iff runtime accused.0 "guard" "a" failing_pod accused.1 accused-IsTypedLog accused_slot
