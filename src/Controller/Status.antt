-- ===== src/Controller/Status.antt =====
-- The status of a policy: its conditions, its targets, and the readiness of pods
-- (internal/controller/hotswappolicy_controller.go).
pub mod Conditions
use hotswap_operator.Prelude.{
  ℕ, suc, ℤ, String, Bool, true, false, not, ◌&&◌, Option, none, some, List, [], ◌∷◌, str_eq, ◌==◌,
  if◌then◌else◌,
}
use hotswap_operator.Api.Kube.{Time, Condition, Pod, PodCondition, is_zero}
use hotswap_operator.Api.{
  HotSwapPolicy, HotSwapPolicyStatus, TargetHealth, condition_healthy, condition_remediating,
  condition_degraded, reason_all_healthy, reason_remediating,
}
use hotswap_operator.Prober.Config.{PodState, PodTarget}
use hotswap_operator.Controller.Env.{Library}

abbrev condition : HotSwapPolicy → (type status reason message : String) → Condition
condition p t s r m = record {
  type = t;
  status = s;
  reason = r;
  message = m;
  observed_generation = p.meta.generation;
}

abbrev pub with_conditions : HotSwapPolicy → List Condition → HotSwapPolicy
with_conditions p cs = record p { status = record p.status { conditions = cs } }

module _ (lib : Library) where
  open lib use {set_status_condition, remove_status_condition}

  -- `setHealthy`.
  unfoldable pub set_healthy : HotSwapPolicy → HotSwapPolicy
  set_healthy p =
      let set =
        set_status_condition p.status.conditions
          (condition p condition_healthy "True" reason_all_healthy "all targets healthy") in
      let removed = remove_status_condition set condition_remediating in
      with_conditions p (remove_status_condition removed condition_degraded)

  -- `setRemediating`.
  unfoldable pub set_remediating : HotSwapPolicy → String → HotSwapPolicy
  set_remediating p msg =
      let set =
        set_status_condition p.status.conditions
          (condition p condition_remediating "True" reason_remediating msg) in
      let set' =
        set_status_condition set (condition p condition_healthy "False" reason_remediating msg) in
      with_conditions p (remove_status_condition set' condition_degraded)

  -- `setDegraded`.
  unfoldable pub set_degraded : HotSwapPolicy → (reason msg : String) → HotSwapPolicy
  set_degraded p reason msg =
      let set =
        set_status_condition p.status.conditions
          (condition p condition_degraded "True" reason msg) in
      let set' = set_status_condition set (condition p condition_healthy "False" reason msg) in
      with_conditions p (remove_status_condition set' condition_remediating)

-- `isPodReady`: the first condition of type Ready decides.
unfoldable pub ready_in : List PodCondition → Bool
ready_in [] = false
ready_in (c ∷ cs) =
    let rest = ready_in cs in if str_eq c.type "Ready" then str_eq c.status "True" else rest

unfoldable pub is_pod_ready : Pod → Bool
unfolding ready_in
is_pod_ready p = ready_in p.conditions

abbrev time_or_nil : Time → Option Time
time_or_nil t = if t == 0 then none else some t

unfoldable pub target_health : PodState → TargetHealth
target_health s = record {
  pod_name = s.pod_name;
  pod_ip = s.pod_ip;
  healthy = s.healthy;
  consecutive_failures = s.consecutive_failures;
  last_probe_time = time_or_nil s.last_probe;
  last_transition_time = time_or_nil s.last_transition;
}

-- `toTargetHealth`.
unfoldable pub to_target_health : List PodState → List TargetHealth
unfolding target_health
to_target_health [] = []
to_target_health (s ∷ rest) = target_health s ∷ to_target_health rest

-- The pods that are not being deleted, as targets.
unfoldable pub targets_of : List Pod → List PodTarget
targets_of [] = []
targets_of (p ∷ rest) =
    let targets = targets_of rest in
    if is_zero p.meta.deletion_timestamp
    then record { name = p.meta.name; uid = p.meta.uid; ip = p.pod_ip } ∷ targets
    else targets

-- `healthyCount`.
unfoldable pub healthy_count : List PodState → ℕ
healthy_count [] = 0
healthy_count (s ∷ rest) = let n = healthy_count rest in if s.healthy then suc n else n

-- The enforced failures: the pods that are unhealthy and have been seen ready before.
unfoldable pub unhealthy_of : List PodState → List PodState
unhealthy_of [] = []
unhealthy_of (s ∷ rest) =
    let others = unhealthy_of rest in if not s.healthy && s.seen_ready then s ∷ others else others
