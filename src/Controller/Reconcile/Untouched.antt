-- ===== src/Controller/Reconcile/Untouched.antt =====
-- What a run leaves alone: the state of the prober, once its verdicts have been read.
use hotswap_operator.Prelude.{
  ℕ, ℤ, pos, inc32, length, String, Bool, not, ◌&&◌, ◌≡◌, refl, ap, ◌∙◌, Option, none, some, List,
  [], ◌∷◌, arith, Bool-cases, inl, inr,
}
use hotswap_operator.Api.Kube.{NamespacedName, Deployment, Pod}
use hotswap_operator.Api.{
  HotSwapPolicy, RemediationStrategy, auto, rollout_restart, delete_pod, unknown, RemediationSpec,
}
use hotswap_operator.Prober.Config.{ProbeConfig, PodState}
use hotswap_operator.Controller.Logic.{
  progress_deadline_exceeded, is_systemic, deployment_stable, breaker_open, cooldown_active,
  choose_strategy, effective_replicas,
}
use hotswap_operator.Controller.Env
use hotswap_operator.Controller.Env.{ApiError, not_found, failed, Env, Run, CtrlResult, note}
use hotswap_operator.Controller.Status.{targets_of}
use hotswap_operator.Controller.Remedy.{
  rollout, deleted, delete_one, delete_targets, act, report, reported, remediate,
}
use hotswap_operator.Controller.Reconcile.{
  or_true, attempts_limit, cooldown_of, finish, remediated, treat, guard, recover, triage, decide,
  mark_ready, observe,
}
use hotswap_operator.Controller.Reconcile.Gates.{answered_effects}
use hotswap_operator.Controller.Reconcile.Action.{remedy}

module _ {S : Type 0} (env : Env S) where
  open env use {lib, cluster, prober}

  delete_targets_state :
      (ns : String) (limit : ℤ) (dry : Bool) (pods : List PodState) (n : ℤ) (pod : String)
      (r : Run S)
      → (delete_targets env ns limit dry pods n pod r).2.state ≡ r.state
  unfolding delete_targets delete_one deleted
  delete_targets_state ns limit dry [] n pod r = refl
  delete_targets_state ns limit dry (s ∷ rest) n pod r =
      let r' = note (Env.delete_pod ns s.pod_name) r in
      ground (
        arith,
        delete_targets_state ns limit dry rest (inc32 n) s.pod_name r,
        delete_targets_state ns limit dry rest (inc32 n) s.pod_name r',
        delete_targets_state ns limit dry rest n pod r',
      )

  reported_state :
      (strategy : RemediationStrategy) (spec : RemediationSpec) (policy : HotSwapPolicy)
      (e : Option ApiError) (pod : String) (r : Run S)
      → (reported env strategy spec policy e pod r).2.state ≡ r.state
  unfolding report
  reported_state strategy spec policy (some e) pod r = refl
  reported_state strategy spec policy none pod r = ground arith

  act_state :
      (strategy : RemediationStrategy) (policy : HotSwapPolicy) (dep : Deployment) (s : PodState)
      (rest : List PodState) (spec : RemediationSpec) (r : Run S)
      → (act env strategy policy dep s rest spec r).2.state ≡ r.state
  unfolding act rollout
  act_state rollout_restart policy dep s rest spec r = ground arith
  act_state delete_pod policy dep s rest spec r = delete_targets_state _ _ _ _ _ _ r
  act_state auto policy dep s rest spec r = refl
  act_state (unknown x) policy dep s rest spec r = refl

  remediate_state :
      (policy : HotSwapPolicy) (dep : Deployment) (strategy : RemediationStrategy) (s : PodState)
      (rest : List PodState) (spec : RemediationSpec) (r : Run S)
      → (remediate env policy dep strategy s rest spec r).2.state ≡ r.state
  unfolding remediate
  remediate_state policy dep strategy s rest spec r =
      let (e, pod, r') = act env strategy policy dep s rest spec r in
      reported_state strategy spec policy e pod r' ∙ act_state strategy policy dep s rest spec r

  pub finish_state :
      (p : HotSwapPolicy) (res : CtrlResult) (r : Run S) → (finish env p res r).2.state ≡ r.state
  unfolding finish
  finish_state p res r = ap (λ x. x.state) (answered_effects env _ res _)

  remediated_state :
      (cfg : ProbeConfig) (e : Option ApiError) (p : HotSwapPolicy) (r : Run S)
      → (remediated env cfg e p r).2.state ≡ r.state
  unfolding remediated
  remediated_state cfg (some e) p r = refl
  remediated_state cfg none p r = finish_state p _ r

  pub remedy_state :
      (policy : HotSwapPolicy) (cfg : ProbeConfig) (dep : Deployment) (s : PodState)
      (rest : List PodState) (r : Run S)
      → (remedy env policy cfg dep s rest r).2.state ≡ r.state
  remedy_state policy cfg dep s rest r =
      let spec = policy.spec.remediation in
      remediated_state cfg _ _ _
      ∙ remediate_state policy dep (choose_strategy spec.strategy (effective_replicas dep)) s rest
          spec r

  treat_state :
      (nn : NamespacedName) (policy : HotSwapPolicy) (cfg : ProbeConfig) (dep : Deployment)
      (s : PodState) (rest : List PodState) (r : Run S)
      → (treat env nn policy cfg dep s rest r).2.state ≡ r.state
  unfolding treat
  treat_state nn policy cfg dep s rest r =
      let spec = policy.spec.remediation in
      let last = policy.status.last_remediation in
      let attempts = policy.status.consecutive_attempts in
      elim (Bool-cases
        (breaker_open attempts (attempts_limit spec) last (cooldown_of spec) env.now)) [
          | inl open_ ↦ rw open_ (finish_state _ _ _)
          | inr closed ↦ elim (Bool-cases (cooldown_active last (cooldown_of spec) env.now)) [
            | inl warm ↦ rw (closed, warm) (finish_state _ _ r)
            | inr cooled ↦ rw (closed, cooled) (remedy_state policy cfg dep s rest r)
          ]
        ]

  guard_state :
      (nn : NamespacedName) (policy : HotSwapPolicy) (cfg : ProbeConfig) (dep : Deployment)
      (total : ℕ) (s : PodState) (rest : List PodState) (r : Run S)
      → (guard env nn policy cfg dep total s rest r).2.state ≡ r.state
  unfolding guard
  guard_state nn policy cfg dep total s rest r =
      let spec = policy.spec.remediation in
      elim (Bool-cases
        (is_systemic (pos (length (s ∷ rest))) (pos total) spec.systemic_failure_skip_percent)) [
          | inl systemic ↦ rw systemic (finish_state _ _ _)
          | inr contained ↦
              elim (Bool-cases (or_true spec.require_stable && not (deployment_stable dep))) [
                | inl moving ↦ rw (contained, moving) (finish_state _ _ r)
                | inr settled ↦ rw (contained, settled) (treat_state nn policy cfg dep s rest r)
              ]
        ]

  triage_state :
      (nn : NamespacedName) (policy : HotSwapPolicy) (cfg : ProbeConfig) (dep : Deployment)
      (total : ℕ) (unhealthy : List PodState) (r : Run S)
      → (triage env nn policy cfg dep total unhealthy r).2.state ≡ r.state
  unfolding triage recover
  triage_state nn policy cfg dep total [] r = finish_state _ _ _
  triage_state nn policy cfg dep total (s ∷ rest) r = guard_state nn policy cfg dep total s rest r

  -- After the verdicts have been read, the prober is left alone.
  pub decide_state :
      (nn : NamespacedName) (policy : HotSwapPolicy) (cfg : ProbeConfig) (dep : Deployment)
      (snapshot : List PodState) (r : Run S)
      → (decide env nn policy cfg dep snapshot r).2.state ≡ r.state
  unfolding decide
  decide_state nn policy cfg dep snapshot r = elim (Bool-cases (progress_deadline_exceeded dep)) [
    | inl stalled ↦ rw stalled (finish_state _ _ r)
    | inr progressing ↦ rw progressing (triage_state nn policy cfg dep _ _ r)
  ]

  pub observe_state :
      (nn : NamespacedName) (policy : HotSwapPolicy) (cfg : ProbeConfig) (dep : Deployment)
      (pods : List Pod) (r : Run S)
      → (observe env nn policy cfg dep pods r).2.state
        ≡ (prober.snapshot nn
            (mark_ready env nn pods (prober.sync nn cfg (targets_of pods) r.state))).1
  unfolding observe
  observe_state nn policy cfg dep pods r = decide_state nn _ cfg dep _ _
