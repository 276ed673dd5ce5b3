-- ===== src/Examples/Runs.antt =====
-- Runs of `Reconcile` at concrete inputs: three pods, of which one fails.
use hotswap_operator.Prelude.{
  ℕ, true, false, str_eq_iff, ◌≡◌, ◌≢◌, refl, ◌⊎◌, none, some, List, [], ◌∷◌,
}
use hotswap_operator.Prelude.Int.{◌+ℤ◌, ◌*ℤ◌, ◌=ℤ◌, wrap32, wrap64, inc32, mul64}
use hotswap_operator.Prelude.Dict.{insert}
use mathlib.Core.List.{Memᴰ}
use hotswap_operator.Api.Kube.{Deployment, Pod}
use hotswap_operator.Api.{HotSwapPolicy}
use hotswap_operator.Prober.Config.{ProbeConfig}
use hotswap_operator.Prober.Manager.{Manager, key}
use hotswap_operator.Prober.Manager.Workers.{Probes}
use hotswap_operator.Controller.Logic.{
  is_systemic, add_headers, any_stalled, breaker_open, choose_strategy, cooldown_active,
  deployment_stable, effective_replicas, normalize_http, normalize_port, probe_config, seconds,
  settled_at, threshold, time_sub, progress_deadline_exceeded, normalize_probe,
}
use hotswap_operator.Controller.Env.{Env, Run}
use hotswap_operator.Controller.Status.{
  set_healthy, set_remediating, set_degraded, ready_in, is_pod_ready, target_health,
  to_target_health, targets_of, healthy_count, unhealthy_of,
}
use hotswap_operator.Controller.Overlap.{
  less_policy, challenge, winner_of, winner_name, conflicting_policy,
}
use hotswap_operator.Controller.Overlap.Winner.{AreNamed, one_guardian, some_guardian}
use hotswap_operator.Controller.Remedy.{
  concurrency, deleted, delete_one, delete_targets, act, record_remediation, remediation_message,
  report, remediate,
}
use hotswap_operator.Controller.Reconcile.{
  answered, finish, remediated, treat, guard, recover, triage, decide, mark_ready, observe,
  with_pods, with_selector, with_winner, with_deployment, with_probe, with_policy, reconcile,
}
use hotswap_operator.Controller.Reconcile.Gates.{IsQuiet}
use hotswap_operator.Controller.Reconcile.Admission.{IsAdmitted, reconcile_gates}
use hotswap_operator.Controller.Reconcile.Leaves.{IsTimed, IsBlocked}
use hotswap_operator.Controller.Reconcile.Report.{
  IsKept, Reports, reconcile-Reports, reconcile_requeues,
}
use hotswap_operator.Controller.Reconcile.Finalizer.{manager_source, deleted_policy_is_quiet}
use hotswap_operator.Examples.World.{
  library, policy, states, cluster_with, env_with, fine, guard_key, run, runtime,
}
use hotswap_operator.Examples.Gates.{probe-IsTyped}
use hotswap_operator.Examples.Prober.{busy, busy-Reachable}

abbrev pub env : Env ℕ
env = env_with policy fine states

reconcile_gates_example :
    IsQuiet env run (reconcile env guard_key run)
    ⊎ ((p : HotSwapPolicy) × (cfg : ProbeConfig) × (dep : Deployment) × (pods : List Pod)
        × IsAdmitted env guard_key run p cfg dep pods)
reconcile_gates_example = reconcile_gates env guard_key run

policy-IsKept : IsKept env guard_key policy
policy-IsKept = record {
  found = refl;
  alive = refl;
  owned = refl;
  typed = probe-IsTyped;
  past = tt;
}

pub settled : (reconcile env guard_key run).1 ≡ none
unfolding answered finish remediated treat guard recover triage decide mark_ready observe with_pods
    with_selector with_winner with_deployment with_probe with_policy reconcile is_systemic
    add_headers any_stalled breaker_open choose_strategy cooldown_active deployment_stable
    effective_replicas normalize_http normalize_port probe_config seconds settled_at threshold
    time_sub progress_deadline_exceeded normalize_probe concurrency deleted delete_one
    delete_targets act record_remediation remediation_message report remediate set_healthy
    set_remediating set_degraded ready_in is_pod_ready target_health to_target_health targets_of
    healthy_count unhealthy_of less_policy challenge winner_of winner_name conflicting_policy ◌+ℤ◌
    ◌*ℤ◌ ◌=ℤ◌ wrap32 wrap64 inc32 mul64 insert
settled = refl

reconcile-Reports_example : Reports env policy (reconcile env guard_key run)
reconcile-Reports_example = reconcile-Reports env guard_key policy run policy-IsKept settled

reconcile_requeues_example :
    IsTimed (reconcile env guard_key run).0 ⊎ IsBlocked env guard_key policy
reconcile_requeues_example = reconcile_requeues env guard_key policy run policy-IsKept settled

-- A younger policy for the same Deployment.
abbrev rival : HotSwapPolicy
rival = record policy { meta = record policy.meta { name = "other"; creation_timestamp = 200 } }

abbrev both : List HotSwapPolicy
both = rival ∷ policy ∷ []

both-AreNamed : AreNamed both
both-AreNamed = (λ e. cc, (λ e. cc, tt))

in_both : Memᴰ policy both
in_both = Memᴰ.tail (Memᴰ.head refl)

wins : winner_name policy both ≡ ""
unfolding winner_name winner_of challenge less_policy
wins = refl

one_guardian_example : policy.meta.name ≡ policy.meta.name
one_guardian_example = one_guardian policy policy both both-AreNamed in_both in_both refl wins wins

impossible : false ≡ true → ⊥
impossible h = cc

apart : policy.meta.name ≢ rival.meta.name
apart e = impossible ((str_eq_iff policy.meta.name rival.meta.name).1 e)

some_guardian_example :
    let winner = winner_of rival rival both in
    (winner_name winner both ≡ "") × (winner.spec.target_ref.name ≡ "web")
some_guardian_example =
    some_guardian rival both both-AreNamed (λ e. cc) (λ e. refl, (λ e. absurd (apart e), tt))

abbrev leaving : HotSwapPolicy
leaving = record policy { meta = record policy.meta { deletion_timestamp = some 900 } }

abbrev wired : Env Manager
wired = record {
  lib = library;
  cluster = cluster_with leaving fine;
  prober = manager_source runtime;
  now = 1000;
}

abbrev busy_run : Run Manager
busy_run = record { state = busy; effects = [] }

deleted_policy_is_quiet_example :
    Probes runtime (reconcile wired guard_key busy_run).2.state (key runtime guard_key) "u1" 0 → ⊥
deleted_policy_is_quiet_example =
    deleted_policy_is_quiet runtime wired guard_key leaving busy_run refl refl refl refl
      busy-Reachable "u1" 0
