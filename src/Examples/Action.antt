-- ===== src/Examples/Action.antt =====
-- A run that every gate lets through: one of three pods fails.
use hotswap_operator.Prelude.{ℕ, pos, ◌<◌, ◌≢◌, refl, []}
use hotswap_operator.Prelude.Int.{mul64, wrap64, ◌*ℤ◌, ◌=ℤ◌}
use hotswap_operator.Prober.Config.{ProbeConfig}
use hotswap_operator.Controller.Logic.{
  normalize_probe, normalize_http, normalize_port, probe_config, progress_deadline_exceeded,
  any_stalled, is_systemic, deployment_stable, settled_at, breaker_open, cooldown_active,
}
use hotswap_operator.Controller.Env.{Env}
use hotswap_operator.Controller.Effects.{disruptions}
use hotswap_operator.Controller.Status.{unhealthy_of}
use hotswap_operator.Controller.Overlap.{
  conflicting_policy, winner_name, winner_of, challenge, less_policy,
}
use hotswap_operator.Controller.Reconcile.{reconcile}
use hotswap_operator.Controller.Reconcile.Admission.{IsAdmitted}
use hotswap_operator.Controller.Reconcile.Action.{reconcile_acts}
use hotswap_operator.Examples.World.{
  policy, probe, http_get, deployment, states, env_with, fine, guard_key, run,
}

abbrev env : Env ℕ
env = env_with policy fine states

abbrev cfg : ProbeConfig
cfg = probe_config probe http_get (pos 8080)

some_failing : unhealthy_of states ≢ []
unfolding unhealthy_of
some_failing e = cc

run-IsAdmitted : IsAdmitted env guard_key run policy cfg deployment []
unfolding normalize_probe normalize_http normalize_port progress_deadline_exceeded any_stalled
    is_systemic deployment_stable settled_at breaker_open cooldown_active unhealthy_of
    conflicting_policy winner_name winner_of challenge less_policy mul64 wrap64 ◌*ℤ◌ ◌=ℤ◌
run-IsAdmitted = record {
  found = refl;
  alive = refl;
  owned = refl;
  probe = refl;
  target = refl;
  unrivalled = refl;
  listed = (deployment.selector, refl, refl);
  due = record {
    progressing = refl;
    failing = some_failing;
    contained = refl;
    stable = λ wanted. refl;
    ready = record { closed = refl; cooled = refl; live = refl };
  };
}

reconcile_acts_example :
    disruptions run.effects < disruptions (reconcile env guard_key run).2.effects
reconcile_acts_example = reconcile_acts env guard_key run policy cfg deployment [] run-IsAdmitted
