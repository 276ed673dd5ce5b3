-- ===== src/Examples/Spacing.antt =====
-- Two runs of `Reconcile` after one another: the first deletes a pod, and so does the second, after the cooldown.
use hotswap_operator.Prelude.{
  ◌/◌, ◌<◌, ◌*◌, ◌≤ℤ◌, Option, none, true, ok, max_int32, ℕ, ◌+◌, ◌≤◌, pos, ◌≡◌, refl, ◌⊎◌, some,
  [], ◌∷◌, arith,
}
use hotswap_operator.Prelude.Int.{◌+ℤ◌, ◌*ℤ◌, ◌=ℤ◌, wrap32, wrap64, inc32, mul64}
use hotswap_operator.Prelude.Dict.{insert}
use hotswap_operator.Api.{HotSwapPolicy, RemediationRecord, delete_pod}
use hotswap_operator.Prober.Config.{second}
use hotswap_operator.Controller.Logic.{
  is_systemic, add_headers, any_stalled, breaker_open, choose_strategy, cooldown_active,
  deployment_stable, effective_replicas, normalize_http, normalize_port, probe_config, seconds,
  settled_at, threshold, time_sub, progress_deadline_exceeded, normalize_probe,
}
use hotswap_operator.Controller.Env.{Env}
use hotswap_operator.Controller.Effects.{carried_out}
use hotswap_operator.Controller.Status.{
  set_healthy, set_remediating, set_degraded, ready_in, is_pod_ready, target_health,
  to_target_health, targets_of, healthy_count, unhealthy_of,
}
use hotswap_operator.Controller.Overlap.{
  less_policy, challenge, winner_of, winner_name, conflicting_policy,
}
use hotswap_operator.Controller.Remedy.{
  concurrency, deleted, delete_one, delete_targets, act, record_remediation, remediation_message,
  report, remediate,
}
use hotswap_operator.Controller.Remedy.Deletions.{allowed}
use hotswap_operator.Controller.Reconcile.{
  cooldown_of, answered, finish, remediated, treat, guard, recover, triage, decide, mark_ready,
  observe, with_pods, with_selector, with_winner, with_deployment, with_probe, with_policy,
  reconcile,
}
use hotswap_operator.Controller.Reconcile.Gates.{IsQuiet}
use hotswap_operator.Examples.World.{policy, states, remediation, env_with, fine, guard_key, run}
use hotswap_operator.Examples.Runs.{env, settled}
use hotswap_operator.Controller.Reconcile.Spacing.{reconcile_bound}
use hotswap_operator.Controller.Reconcile.Memory.{last_written}
use hotswap_operator.Controller.Reconcile.Apart.{TimeStorage, stored, IsSpaced, oldest}
use hotswap_operator.Controller.Reconcile.Rate.{disturbs, Visit, Visits, opens, visits, rate}

-- Times are kept in whole seconds.
keep_le : (t : ℕ) → t / second * second ≤ t
keep_le t = omega arith

keep_lt : (t : ℕ) → t < t / second * second + second
keep_lt t = omega arith

keep-keep : (t : ℕ) → t / second * second / second * second ≡ t / second * second
keep-keep t = omega arith

abbrev whole_seconds : TimeStorage
whole_seconds = record {
  keep = λ t. t / second * second;
  keep_le = keep_le;
  keep_lt = keep_lt;
  keep-keep = keep-keep;
}

abbrev first_record : RemediationRecord
first_record = record {
  pod_name = "a";
  strategy = delete_pod;
  time = 1000 * second;
  reason = "hotswapProbe health regression";
}

-- The policy as the second run reads it, 100 seconds later.
abbrev remembered : HotSwapPolicy
remembered = record policy {
  status = record policy.status { last_remediation = some first_record };
}

abbrev later : Env ℕ
later = record (env_with remembered fine states) { now = 1100 * second }

abbrev first_last : Option RemediationRecord
first_last =
    stored whole_seconds (last_written env.cluster none (reconcile env guard_key run).2.effects)

second_knows : remembered.status.last_remediation ≡ first_last
unfolding last_written answered finish remediated treat guard recover triage decide mark_ready
    observe with_pods with_selector with_winner with_deployment with_probe with_policy reconcile
    is_systemic add_headers any_stalled breaker_open choose_strategy cooldown_active
    deployment_stable effective_replicas normalize_http normalize_port probe_config seconds
    settled_at threshold time_sub progress_deadline_exceeded normalize_probe concurrency deleted
    delete_one delete_targets act record_remediation remediation_message report remediate
    set_healthy set_remediating set_degraded ready_in is_pod_ready target_health to_target_health
    targets_of healthy_count unhealthy_of less_policy challenge winner_of winner_name
    conflicting_policy ◌+ℤ◌ ◌*ℤ◌ ◌=ℤ◌ wrap32 wrap64 inc32 mul64 insert
second_knows = refl

first_sound :
    disturbs ℕ guard_key whole_seconds (60 * second) (reconcile env guard_key run) ≡ true
    → (reconcile env guard_key run).1 ≡ none
first_sound h = settled

second_settled : (reconcile later guard_key run).1 ≡ none
unfolding answered finish remediated treat guard recover triage decide mark_ready observe with_pods
    with_selector with_winner with_deployment with_probe with_policy reconcile is_systemic
    add_headers any_stalled breaker_open choose_strategy cooldown_active deployment_stable
    effective_replicas normalize_http normalize_port probe_config seconds settled_at threshold
    time_sub progress_deadline_exceeded normalize_probe concurrency deleted delete_one
    delete_targets act record_remediation remediation_message report remediate set_healthy
    set_remediating set_degraded ready_in is_pod_ready target_health to_target_health targets_of
    healthy_count unhealthy_of less_policy challenge winner_of winner_name conflicting_policy ◌+ℤ◌
    ◌*ℤ◌ ◌=ℤ◌ wrap32 wrap64 inc32 mul64 insert
second_settled = refl

first_cooldown : pos (60 * second) ≤ℤ cooldown_of remediation
unfolding mul64 wrap64 ◌*ℤ◌
first_cooldown = omega arith

abbrev first_visit : Visit ℕ guard_key whole_seconds (60 * second) none 0
first_visit = record {
  env = env;
  state = 0;
  policy = policy;
  found = refl;
  known = refl;
  cooldown = first_cooldown;
  order = omega arith;
  sound = first_sound;
}

abbrev second_visit : Visit ℕ guard_key whole_seconds (60 * second) first_last (1000 * second)
second_visit = record {
  env = later;
  state = 0;
  policy = remembered;
  found = refl;
  known = second_knows;
  cooldown = first_cooldown;
  order = omega arith;
  sound = λ h. second_settled;
}

twice :
    Visits ℕ guard_key whole_seconds
      (60 * second)
      (stored whole_seconds
        (last_written later.cluster first_last (reconcile later guard_key run).2.effects))
      (1100 * second)
      (1100 * second ∷ 1000 * second ∷ [])
unfolding answered finish remediated treat guard recover triage decide mark_ready observe with_pods
    with_selector with_winner with_deployment with_probe with_policy reconcile is_systemic
    add_headers any_stalled breaker_open choose_strategy cooldown_active deployment_stable
    effective_replicas normalize_http normalize_port probe_config seconds settled_at threshold
    time_sub progress_deadline_exceeded normalize_probe concurrency deleted delete_one
    delete_targets act record_remediation remediation_message report remediate set_healthy
    set_remediating set_degraded ready_in is_pod_ready target_health to_target_health targets_of
    healthy_count unhealthy_of less_policy challenge winner_of winner_name conflicting_policy ◌+ℤ◌
    ◌*ℤ◌ ◌=ℤ◌ wrap32 wrap64 inc32 mul64 insert
twice = visits (visits (opens none tt) first_visit) second_visit

rate_example :
    IsSpaced (60 * second) (1100 * second ∷ 1000 * second ∷ [])
    × (oldest (1100 * second) (1000 * second ∷ []) + 1 * (60 * second) ≤ 1100 * second + 1 * second)
rate_example =
    rate ℕ guard_key whole_seconds (60 * second) (1100 * second) (1000 * second ∷ []) twice

small :
    (p : HotSwapPolicy)
    → env.cluster.get_policy guard_key ≡ ok p
    → p.spec.remediation.max_concurrent ≤ℤ pos max_int32
small p e =
    let same : policy ≡ p = cc in let most : pos 1 ≤ℤ pos max_int32 = omega arith in rw⁻¹ same most

reconcile_bound_example :
    IsQuiet env run (reconcile env guard_key run)
    ⊎ ((p : HotSwapPolicy) × (env.cluster.get_policy guard_key ≡ ok p)
        × (carried_out env.cluster (reconcile env guard_key run).2.effects
            ≤ 0 + allowed p.spec.remediation.max_concurrent))
reconcile_bound_example = reconcile_bound env guard_key run small
