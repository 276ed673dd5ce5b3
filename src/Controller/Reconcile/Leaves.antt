-- ===== src/Controller/Reconcile/Leaves.antt =====
-- The ways in which a run ends for a policy that is alive and has its finalizer.
use hotswap_operator.Prelude.{
  ℕ, pos, ◌<ℤ◌, length, String, not, ◌&&◌, ◌≡◌, refl, ◌⊎◌, inl, inr, Option, none, some, List, [],
  ◌∷◌, str_eq, Result, ok, err, arith, Bool-cases,
}
use hotswap_operator.Api.Kube.{NamespacedName, Deployment, Pod}
use hotswap_operator.Api.{HotSwapPolicy, RemediationStrategy, RemediationSpec}
use hotswap_operator.Prober.Config.{ProbeConfig, PodState}
use hotswap_operator.Controller.Logic.{
  normalize_probe, progress_deadline_exceeded, is_systemic, deployment_stable, breaker_open,
  cooldown_active, choose_strategy, effective_replicas,
}
use hotswap_operator.Controller.Logic.Gates.{
  IsPast, breaker_open-cooldown_active, cooldown_active-pos,
}
use hotswap_operator.Controller.Env.{
  ApiError, not_found, failed, Env, Run, CtrlResult, no_result, Outcome,
}
use hotswap_operator.Controller.Status.{set_healthy, set_remediating, set_degraded}
use hotswap_operator.Controller.Overlap.{conflicting_policy}
use hotswap_operator.Controller.Remedy.{act, record_remediation, report, reported, remediate}
use hotswap_operator.Controller.Reconcile.{
  or_true, attempts_limit, cooldown_of, finish, remediated, treat, guard, recover, triage, decide,
  observe, with_pods, with_selector, with_winner, with_deployment, with_probe,
}

-- A copy of a policy whose metadata and conditions are as they were read.
abbrev pub IsCopy : HotSwapPolicy → HotSwapPolicy → Type 0
IsCopy policy q = (q.meta ≡ policy.meta) × (q.status.conditions ≡ policy.status.conditions)

abbrev pub IsTimed : CtrlResult → Type 0
IsTimed res = pos 0 <ℤ res.requeue_after

module _ {S : Type 0} (env : Env S) where
  open env use {lib, cluster, prober}

  -- The probe is invalid, or the selector of the Deployment is.
  abbrev pub IsBlocked : NamespacedName → HotSwapPolicy → Type 0
  IsBlocked nn policy =
      ((e : String) × (normalize_probe policy.spec.hotswap_probe ≡ err e))
      ⊎ ((dep : Deployment) × (e : String) × (cluster.get_deployment
              (record { namespace = nn.namespace; name = policy.spec.target_ref.name })
            ≡ ok dep)
          × (lib.label_selector_as_selector dep.selector ≡ err e))

  -- The ends: an error; a policy degraded for good; and a policy degraded, under remediation or healthy, to be
  -- looked at again after a positive time.
  pub record Leaves (P : Outcome S → Type 0) (nn : NamespacedName) (policy : HotSwapPolicy)
      : Type 0 where
    pub stop : (e : ApiError) (r : Run S) → P (no_result, some e, r)
    pub park :
        (reason msg : String) (r : Run S)
        → IsBlocked nn policy
        → P (finish env (set_degraded lib policy reason msg) no_result r)
    pub degrade :
        (q : HotSwapPolicy) (reason msg : String) (res : CtrlResult) (r : Run S)
        → IsCopy policy q
        → IsTimed res
        → P (finish env (set_degraded lib q reason msg) res r)
    pub wait :
        (q : HotSwapPolicy) (msg : String) (res : CtrlResult) (r : Run S)
        → IsCopy policy q
        → IsTimed res
        → P (finish env (set_remediating lib q msg) res r)
    pub heal :
        (q : HotSwapPolicy) (res : CtrlResult) (r : Run S)
        → IsCopy policy q
        → IsTimed res
        → P (finish env (set_healthy lib q) res r)

  module _ (P : Outcome S → Type 0) (nn : NamespacedName) (policy : HotSwapPolicy)
      (leaves : Leaves P nn policy) (past : IsPast policy.status.last_remediation env.now) where
    remediated_end :
        (q : HotSwapPolicy) (cfg : ProbeConfig) (strategy : RemediationStrategy)
        (spec : RemediationSpec) (e : Option ApiError) (pod : String) (r : Run S)
        → IsCopy policy q
        → pos 0 <ℤ cfg.period
        → let (e', q', r') = reported env strategy spec q e pod r in P (remediated env cfg e' q' r')
    unfolding remediated report record_remediation
    remediated_end q cfg strategy spec (some e) pod r c t = leaves.stop e r
    remediated_end q cfg strategy spec none pod r c t = elim (Bool-cases spec.dry_run) [
      | inl dry ↦ rw dry (leaves.wait _ _ _ _ c t)
      | inr live ↦ rw live (leaves.wait _ _ _ _ c t)
    ]

    treat_end :
        (q : HotSwapPolicy) (cfg : ProbeConfig) (dep : Deployment) (s : PodState)
        (rest : List PodState) (r : Run S)
        → IsCopy policy q
        → q.status.last_remediation ≡ policy.status.last_remediation
        → pos 0 <ℤ cfg.period
        → P (treat env nn q cfg dep s rest r)
    unfolding treat remediate
    treat_end q cfg dep s rest r c l t =
        let spec = q.spec.remediation in
        let last = q.status.last_remediation in
        let attempts = q.status.consecutive_attempts in
        let past' : IsPast last env.now = rw l past in
        elim (Bool-cases
          (breaker_open attempts (attempts_limit spec) last (cooldown_of spec) env.now)) [
            | inl open_ ↦ rw open_ (
                leaves.degrade q _ _ _ _ c (
                  cooldown_active-pos last (cooldown_of spec) env.now (
                    breaker_open-cooldown_active attempts (attempts_limit spec) last
                      (cooldown_of spec) env.now past' open_)))
            | inr closed ↦ elim (Bool-cases (cooldown_active last (cooldown_of spec) env.now)) [
              | inl warm ↦
                  rw (closed, warm)
                    (leaves.wait q _ _ r c
                      (cooldown_active-pos last (cooldown_of spec) env.now warm))
              | inr cooled ↦
                  let strategy = choose_strategy spec.strategy (effective_replicas dep) in
                  let (e, pod, r') = act env strategy q dep s rest spec r in
                  rw (closed, cooled) (remediated_end q cfg strategy spec e pod r' c t)
            ]
          ]

    decide_end :
        (q : HotSwapPolicy) (cfg : ProbeConfig) (dep : Deployment) (total : ℕ)
        (unhealthy : List PodState) (r : Run S)
        → IsCopy policy q
        → q.status.last_remediation ≡ policy.status.last_remediation
        → pos 0 <ℤ cfg.period
        → P (triage env nn q cfg dep total unhealthy r)
    unfolding triage guard recover
    decide_end q cfg dep total [] r c l t = leaves.heal _ _ _ c t
    decide_end q cfg dep total (s ∷ rest) r c l t =
        let spec = q.spec.remediation in
        elim (Bool-cases
          (is_systemic (pos (length (s ∷ rest))) (pos total) spec.systemic_failure_skip_percent)) [
            | inl systemic ↦ rw systemic (leaves.degrade q _ _ _ _ c t)
            | inr contained ↦
                elim (Bool-cases (or_true spec.require_stable && not (deployment_stable dep))) [
                  | inl moving ↦ rw (contained, moving) (leaves.wait q _ _ r c t)
                  | inr settled ↦ rw (contained, settled) (treat_end q cfg dep s rest r c l t)
                ]
          ]

    observe_end :
        (cfg : ProbeConfig) (dep : Deployment) (pods : List Pod) (r : Run S)
        → pos 0 <ℤ cfg.period
        → P (observe env nn policy cfg dep pods r)
    unfolding observe decide
    observe_end cfg dep pods r t = elim (Bool-cases (progress_deadline_exceeded dep)) [
      | inl stalled ↦ rw stalled (leaves.degrade _ _ _ _ _ (refl, refl) t)
      | inr progressing ↦ rw progressing (decide_end _ cfg dep _ _ _ (refl, refl) refl t)
    ]

    with_pods_end :
        (cfg : ProbeConfig) (dep : Deployment) (res : Result ApiError (List Pod)) (r : Run S)
        → pos 0 <ℤ cfg.period
        → P (with_pods env nn policy cfg dep res r)
    unfolding with_pods
    with_pods_end cfg dep (err e) r t = leaves.stop e r
    with_pods_end cfg dep (ok pods) r t = observe_end cfg dep pods r t

    with_selector_end :
        (cfg : ProbeConfig) (dep : Deployment) (res : Result String String) (r : Run S)
        → cluster.get_deployment
            (record { namespace = nn.namespace; name = policy.spec.target_ref.name })
          ≡ ok dep
        → lib.label_selector_as_selector dep.selector ≡ res
        → pos 0 <ℤ cfg.period
        → P (with_selector env nn policy cfg dep res r)
    unfolding with_selector
    with_selector_end cfg dep (err e) r d l t = leaves.park _ _ r (inr (dep, e, d, l))
    with_selector_end cfg dep (ok selector) r d l t =
        with_pods_end cfg dep (cluster.list_pods nn.namespace selector) r t

    with_winner_end :
        (cfg : ProbeConfig) (dep : Deployment) (res : Result ApiError String) (r : Run S)
        → cluster.get_deployment
            (record { namespace = nn.namespace; name = policy.spec.target_ref.name })
          ≡ ok dep
        → pos 0 <ℤ cfg.period
        → P (with_winner env nn policy cfg dep res r)
    unfolding with_winner
    with_winner_end cfg dep (err e) r d t = leaves.stop e r
    with_winner_end cfg dep (ok winner) r d t = elim (Bool-cases (str_eq winner "")) [
      | inl self ↦
          rw self
            (with_selector_end cfg dep (lib.label_selector_as_selector dep.selector) r d refl t)
      | inr other ↦ rw other (leaves.degrade policy _ _ _ _ (refl, refl) (omega arith))
    ]

    with_deployment_end :
        (cfg : ProbeConfig) (res : Result ApiError Deployment) (r : Run S)
        → cluster.get_deployment
            (record { namespace = nn.namespace; name = policy.spec.target_ref.name })
          ≡ res
        → pos 0 <ℤ cfg.period
        → P (with_deployment env nn policy cfg res r)
    unfolding with_deployment
    with_deployment_end cfg (err not_found) r d t =
        leaves.degrade policy _ _ _ _ (refl, refl) (omega arith)
    with_deployment_end cfg (err (failed e)) r d t = leaves.stop (failed e) r
    with_deployment_end cfg (ok dep) r d t =
        with_winner_end cfg dep (conflicting_policy cluster policy) r d t

    pub with_probe_end :
        (probe : Result String ProbeConfig) (r : Run S)
        → normalize_probe policy.spec.hotswap_probe ≡ probe
        → ((cfg : ProbeConfig) → probe ≡ ok cfg → pos 0 <ℤ cfg.period)
        → P (with_probe env nn policy probe r)
    unfolding with_probe
    with_probe_end (err e) r n t = leaves.park _ _ r (inl (e, n))
    with_probe_end (ok cfg) r n t = with_deployment_end cfg _ r refl (t cfg refl)
