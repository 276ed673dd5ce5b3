-- ===== src/Controller/Reconcile.antt =====
-- `Reconcile` of internal/controller/hotswappolicy_controller.go, one function for each stretch of it up
-- to the next early return.
pub mod Gates
pub mod Admission
pub mod Leaves
pub mod Report
pub mod Lapses
pub mod Finalizer
pub mod Action
pub mod Spacing
pub mod Memory
pub mod Apart
pub mod Rate
pub mod Untouched
pub mod Calls
pub mod Accused
use Prim.Native.String.{◌++◌}
use hotswap_operator.Prelude.{
  ℕ, ◌*◌, ℤ, pos, leb_ℤ, mul64, length, String, Bool, true, false, not, ◌&&◌, ◌||◌, Option, none,
  some, List, [], ◌∷◌, str_eq, Result, ok, err, if◌then◌else◌,
}
use hotswap_operator.Api.Kube.{Time, NamespacedName, Deployment, Pod, is_zero}
use hotswap_operator.Api.{
  HotSwapPolicy, RemediationSpec, reason_invalid_probe, reason_target_not_found,
  reason_conflicting_policy, reason_rollout_stalled, reason_systemic_failure, reason_circuit_open,
}
use hotswap_operator.Prober.Config.{ProbeConfig, PodState, second}
use hotswap_operator.Controller.Logic.{
  normalize_probe, progress_deadline_exceeded, is_systemic, deployment_stable, breaker_open,
  cooldown_active, choose_strategy, effective_replicas,
}
use hotswap_operator.Controller.Env.{
  ApiError, not_found, failed, Env, Run, note, write, update_policy, update_status, emit,
  set_targets_total, set_targets_healthy, set_circuit_open, CtrlResult, no_result, after, Outcome,
}
use hotswap_operator.Controller.Status.{
  set_healthy, set_remediating, set_degraded, is_pod_ready, to_target_health, targets_of,
  healthy_count, unhealthy_of,
}
use hotswap_operator.Controller.Overlap.{conflicting_policy}
use hotswap_operator.Controller.Remedy.{remediate}
unfoldable pub use hotswap_operator.Controller.Finish.{
  finalizer_name, ignore_not_found, with_finalizers, or_true, attempts_limit, cooldown_of, answered,
  finish, finalize, adopt, remediated,
}

module _ {S : Type 0} (env : Env S) where
  open env use {lib, cluster, prober}

  -- The breaker, the cooldown and the remediation.
  unfoldable pub treat :
      NamespacedName
      → HotSwapPolicy
      → ProbeConfig
      → Deployment
      → PodState
      → List PodState
      → Run S
      → Outcome S
  treat nn policy cfg dep s rest r =
      let spec = policy.spec.remediation in
      let last = policy.status.last_remediation in
      let attempts = policy.status.consecutive_attempts in
      if breaker_open attempts (attempts_limit spec) last (cooldown_of spec) env.now
      then (let msg =
            "circuit breaker open after "
            ++ (lib.decimal attempts ++ " consecutive remediations") in
          let opened = note (set_circuit_open nn.namespace nn.name 1) r in
          let told = note (emit "Warning" reason_circuit_open msg) opened in
          finish env (set_degraded lib policy reason_circuit_open msg) (after (cooldown_of spec))
            told)
      else (if cooldown_active last (cooldown_of spec) env.now
          then finish env (set_remediating lib policy "cooling down before next remediation")
              (after (cooldown_of spec)) r
          else (let strategy = choose_strategy spec.strategy (effective_replicas dep) in
              let (e, policy', r') = remediate env policy dep strategy s rest spec r in
              remediated env cfg e policy' r'))

  -- The systemic valve and the gate of stability, for unhealthy pods `s ∷ rest` of `total`.
  unfoldable pub guard :
      NamespacedName
      → HotSwapPolicy
      → ProbeConfig
      → Deployment
      → ℕ
      → PodState
      → List PodState
      → Run S
      → Outcome S
  guard nn policy cfg dep total s rest r =
      let spec = policy.spec.remediation in
      let unhealthy = length (s ∷ rest) in
      if is_systemic (pos unhealthy) (pos total) spec.systemic_failure_skip_percent
      then (let msg =
            lib.decimal (pos unhealthy)
            ++ ("/"
                ++ (lib.decimal (pos total)
                    ++ " targets unhealthy at once; skipping remediation")) in
          finish env (set_degraded lib policy reason_systemic_failure msg) (after cfg.period)
            (note (emit "Warning" reason_systemic_failure msg) r))
      else (if or_true spec.require_stable && not (deployment_stable dep)
          then finish env (set_remediating lib policy "waiting for target Deployment to stabilize")
              (after cfg.period) r
          else treat nn policy cfg dep s rest r)

  -- All pods are well, as far as the grace goes.
  unfoldable pub recover : NamespacedName → HotSwapPolicy → ProbeConfig → Run S → Outcome S
  recover nn policy cfg r =
      let reset = record policy {
        status = record policy.status { consecutive_attempts = pos 0 };
      } in
      finish env (set_healthy lib reset) (after cfg.period)
        (note (set_circuit_open nn.namespace nn.name 0) r)

  unfoldable pub triage :
      NamespacedName
      → HotSwapPolicy
      → ProbeConfig
      → Deployment
      → ℕ
      → List PodState
      → Run S
      → Outcome S
  triage nn policy cfg dep total [] r = recover nn policy cfg r
  triage nn policy cfg dep total (s ∷ rest) r = guard nn policy cfg dep total s rest r

  -- A stalled rollout is contained, not remediated.
  unfoldable pub decide :
      NamespacedName → HotSwapPolicy → ProbeConfig → Deployment → List PodState → Run S → Outcome S
  decide nn policy cfg dep snapshot r =
      if progress_deadline_exceeded dep
      then finish env
          (set_degraded lib policy reason_rollout_stalled
            "target rollout exceeded its progress deadline")
          (after cfg.period) r
      else triage nn policy cfg dep (length snapshot) (unhealthy_of snapshot) r

  -- The loop that tells the prober of the ready pods.
  unfoldable pub mark_ready : NamespacedName → List Pod → S → S
  mark_ready nn [] state = state
  mark_ready nn (p ∷ rest) state =
      mark_ready nn rest
        (if is_pod_ready p then prober.set_seen_ready nn p.meta.uid state else state)

  -- The prober learns of the pods, and its verdicts are read.
  unfoldable pub observe :
      NamespacedName → HotSwapPolicy → ProbeConfig → Deployment → List Pod → Run S → Outcome S
  observe nn policy cfg dep pods r =
      let marked = mark_ready nn pods (prober.sync nn cfg (targets_of pods) r.state) in
      let (snapshot, state) = prober.snapshot nn marked in
      let policy' = record policy {
        status = record policy.status { targets = to_target_health snapshot };
      } in
      let counted =
        note (set_targets_total nn.namespace nn.name (length snapshot))
          (record r { state = state }) in
      decide nn policy' cfg dep snapshot
        (note (set_targets_healthy nn.namespace nn.name (healthy_count snapshot)) counted)

  unfoldable pub with_pods :
      NamespacedName
      → HotSwapPolicy
      → ProbeConfig
      → Deployment
      → Result ApiError (List Pod)
      → Run S
      → Outcome S
  with_pods nn policy cfg dep (err e) r = (no_result, some e, r)
  with_pods nn policy cfg dep (ok pods) r = observe nn policy cfg dep pods r

  unfoldable pub with_selector :
      NamespacedName
      → HotSwapPolicy
      → ProbeConfig
      → Deployment
      → Result String String
      → Run S
      → Outcome S
  with_selector nn policy cfg dep (err e) r =
      finish env (set_degraded lib policy reason_target_not_found ("invalid selector: " ++ e))
        no_result r
  with_selector nn policy cfg dep (ok selector) r =
      with_pods nn policy cfg dep (cluster.list_pods nn.namespace selector) r

  -- The policy with the Deployment found; the argument before the last is what `conflictingPolicy` returns.
  unfoldable pub with_winner :
      NamespacedName
      → HotSwapPolicy
      → ProbeConfig
      → Deployment
      → Result ApiError String
      → Run S
      → Outcome S
  with_winner nn policy cfg dep (err e) r = (no_result, some e, r)
  with_winner nn policy cfg dep (ok winner) r =
      if str_eq winner ""
      then with_selector nn policy cfg dep (lib.label_selector_as_selector dep.selector) r
      else (let msg =
            "deployment "
            ++ (lib.quote policy.spec.target_ref.name
                ++ (" already guarded by HotSwapPolicy " ++ lib.quote winner)) in
          finish env (set_degraded lib policy reason_conflicting_policy msg)
            (after (pos (60 * second))) (record r { state = prober.forget nn r.state }))

  unfoldable pub with_deployment :
      NamespacedName → HotSwapPolicy → ProbeConfig → Result ApiError Deployment → Run S → Outcome S
  with_deployment nn policy cfg (err not_found) r =
      let msg = "deployment " ++ (lib.quote policy.spec.target_ref.name ++ " not found") in
      finish env (set_degraded lib policy reason_target_not_found msg) (after (pos (30 * second)))
        (record r { state = prober.forget nn r.state })
  with_deployment nn policy cfg (err (failed e)) r = (no_result, some (failed e), r)
  with_deployment nn policy cfg (ok dep) r =
      with_winner nn policy cfg dep (conflicting_policy cluster policy) r

  unfoldable pub with_probe :
      NamespacedName → HotSwapPolicy → Result String ProbeConfig → Run S → Outcome S
  with_probe nn policy (err e) r =
      finish env (set_degraded lib policy reason_invalid_probe e) no_result r
  with_probe nn policy (ok cfg) r =
      let target : NamespacedName = record {
        namespace = nn.namespace;
        name = policy.spec.target_ref.name;
      } in
      with_deployment nn policy cfg (cluster.get_deployment target) r

  unfoldable pub with_policy : NamespacedName → Result ApiError HotSwapPolicy → Run S → Outcome S
  with_policy nn (err e) r = (no_result, ignore_not_found e, r)
  with_policy nn (ok policy) r =
      if not (is_zero policy.meta.deletion_timestamp)
      then finalize env nn policy r
      else (if not (lib.contains_finalizer policy.meta.finalizers finalizer_name)
          then adopt env policy r
          else with_probe nn policy (normalize_probe policy.spec.hotswap_probe) r)

  -- `Reconcile`.
  unfoldable pub reconcile : NamespacedName → Run S → Outcome S
  reconcile nn r = with_policy nn (cluster.get_policy nn) r
