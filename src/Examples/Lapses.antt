-- ===== src/Examples/Lapses.antt =====
-- The overlooked behaviour at concrete inputs: pods that are gone, and a server that fails.
use hotswap_operator.Prelude.{
  ℕ, pos, true, false, ◌≡◌, refl, Option, none, some, List, [], ◌∷◌, str_eq, arith, if◌then◌else◌,
}
use hotswap_operator.Prelude.Int.{◌+ℤ◌, ◌*ℤ◌, ◌=ℤ◌, wrap32, wrap64, inc32, mul64}
use hotswap_operator.Prelude.Dict.{insert}
use hotswap_operator.Api.{HotSwapPolicy, delete_pod}
use hotswap_operator.Prober.Config.{PodState}
use hotswap_operator.Controller.Logic.{
  is_systemic, add_headers, any_stalled, breaker_open, choose_strategy, cooldown_active,
  deployment_stable, effective_replicas, normalize_http, normalize_port, probe_config, seconds,
  settled_at, threshold, time_sub, progress_deadline_exceeded, normalize_probe,
}
use hotswap_operator.Controller.Env
use hotswap_operator.Controller.Env.{ApiError, not_found, failed, Effect, Env}
use hotswap_operator.Controller.Effects.{disruptions, carried_out}
use hotswap_operator.Controller.Status.{
  set_healthy, set_remediating, set_degraded, ready_in, is_pod_ready, target_health,
  to_target_health, targets_of, healthy_count, unhealthy_of,
}
use hotswap_operator.Controller.Overlap.{
  less_policy, challenge, winner_of, winner_name, conflicting_policy,
}
use hotswap_operator.Controller.Remedy.{
  concurrency, deleted, delete_one, delete_targets, act, record_remediation, remediation_message,
  report, remediate,
}
use hotswap_operator.Controller.Reconcile.{
  answered, finish, remediated, treat, guard, recover, triage, decide, mark_ready, observe,
  with_pods, with_selector, with_winner, with_deployment, with_probe, with_policy, reconcile,
}
use hotswap_operator.Controller.Reconcile.Gates.{IsQuiet}
use hotswap_operator.Controller.Reconcile.Lapses.{taken, remediate_of_nothing, reconcile_of_error}
use hotswap_operator.Examples.World.{
  policy, deployment, states, state_of, remediation, env_with, guard_key, run,
}

abbrev gone : Effect → Option ApiError
gone (Env.delete_pod ns name) = some not_found
gone _ = none

remediate_of_nothing_example :
    let (e, policy', r') =
      remediate
        (env_with policy gone states)
        policy
        deployment
        delete_pod
        (state_of "a" false)
        []
        remediation
        run in
    (e ≡ none)
    × (policy'.status.consecutive_attempts ≡ inc32 (pos 0))
    × (policy'.status.last_remediation
        ≡ some (record {
          pod_name = "";
          strategy = delete_pod;
          time = (env_with policy gone states).now;
          reason = "hotswapProbe health regression";
        }))
    × (carried_out (env_with policy gone states).cluster r'.effects ≡ 0)
remediate_of_nothing_example =
    remediate_of_nothing (env_with policy gone states) policy deployment (state_of "a" false) []
      remediation run refl (λ before pod. refl)

-- Two of five pods fail, and both may be deleted; the second deletion is answered with an error.
abbrev broken : Effect → Option ApiError
broken (Env.delete_pod ns name) = if str_eq name "b" then some (failed "timeout") else none
broken _ = none

abbrev bold : HotSwapPolicy
bold = record policy {
  spec = record policy.spec { remediation = record remediation { max_concurrent = pos 2 } };
}

abbrev two_failing : List PodState
two_failing =
    state_of "a" false
    ∷ state_of "b" false
    ∷ state_of "c" true
    ∷ state_of "d" true
    ∷ state_of "e" true
    ∷ []

abbrev env : Env ℕ
env = env_with bold broken two_failing

fails : (reconcile env guard_key run).1 ≡ some (failed "timeout")
unfolding answered finish remediated treat guard recover triage decide mark_ready observe with_pods
    with_selector with_winner with_deployment with_probe with_policy reconcile is_systemic
    add_headers any_stalled breaker_open choose_strategy cooldown_active deployment_stable
    effective_replicas normalize_http normalize_port probe_config seconds settled_at threshold
    time_sub progress_deadline_exceeded normalize_probe concurrency deleted delete_one
    delete_targets act record_remediation remediation_message report remediate set_healthy
    set_remediating set_degraded ready_in is_pod_ready target_health to_target_health targets_of
    healthy_count unhealthy_of less_policy challenge winner_of winner_name conflicting_policy ◌+ℤ◌
    ◌*ℤ◌ ◌=ℤ◌ wrap32 wrap64 inc32 mul64 insert
fails = refl

tried : disruptions (reconcile env guard_key run).2.effects ≡ 2
unfolding answered finish remediated treat guard recover triage decide mark_ready observe with_pods
    with_selector with_winner with_deployment with_probe with_policy reconcile is_systemic
    add_headers any_stalled breaker_open choose_strategy cooldown_active deployment_stable
    effective_replicas normalize_http normalize_port probe_config seconds settled_at threshold
    time_sub progress_deadline_exceeded normalize_probe concurrency deleted delete_one
    delete_targets act record_remediation remediation_message report remediate set_healthy
    set_remediating set_degraded ready_in is_pod_ready target_health to_target_health targets_of
    healthy_count unhealthy_of less_policy challenge winner_of winner_name conflicting_policy ◌+ℤ◌
    ◌*ℤ◌ ◌=ℤ◌ wrap32 wrap64 inc32 mul64 insert
tried = refl

-- The first deletion has been carried out.
half_done : carried_out env.cluster (reconcile env guard_key run).2.effects ≡ 1
unfolding answered finish remediated treat guard recover triage decide mark_ready observe with_pods
    with_selector with_winner with_deployment with_probe with_policy reconcile is_systemic
    add_headers any_stalled breaker_open choose_strategy cooldown_active deployment_stable
    effective_replicas normalize_http normalize_port probe_config seconds settled_at threshold
    time_sub progress_deadline_exceeded normalize_probe concurrency deleted delete_one
    delete_targets act record_remediation remediation_message report remediate set_healthy
    set_remediating set_degraded ready_in is_pod_ready target_health to_target_health targets_of
    healthy_count unhealthy_of less_policy challenge winner_of winner_name conflicting_policy ◌+ℤ◌
    ◌*ℤ◌ ◌=ℤ◌ wrap32 wrap64 inc32 mul64 insert
half_done = refl

loud : IsQuiet env run (reconcile env guard_key run) → ⊥
loud quiet = omega (arith, tried, quiet)

reconcile_of_error_example : taken env.cluster (reconcile env guard_key run).2.effects ≡ []
unfolding taken
reconcile_of_error_example = reconcile_of_error env guard_key run (failed "timeout") loud fails
