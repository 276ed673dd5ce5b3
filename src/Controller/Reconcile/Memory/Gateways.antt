-- ===== src/Controller/Reconcile/Memory/Gateways.antt =====
-- What the stretches of a run between the pods and the remediation leave on record.
use hotswap_operator.Prelude.{
  ℕ, pos, length, String, not, ◌&&◌, ◌≡◌, inl, inr, Option, List, [], ◌∷◌, Result, ok, err,
  Bool-cases,
}
use hotswap_operator.Api.Kube.{NamespacedName, Deployment, Pod}
use hotswap_operator.Api.{HotSwapPolicy, RemediationRecord}
use hotswap_operator.Prober.Config.{ProbeConfig, PodState}
use hotswap_operator.Controller.Logic.{
  progress_deadline_exceeded, is_systemic, deployment_stable, breaker_open, cooldown_active,
  choose_strategy, effective_replicas,
}
use hotswap_operator.Controller.Env.{ApiError, Env, Run}
use hotswap_operator.Controller.Remedy.{act, remediate}
use hotswap_operator.Controller.Reconcile.{
  or_true, attempts_limit, cooldown_of, treat, guard, recover, triage, decide, observe, with_pods,
  with_selector,
}
use hotswap_operator.Controller.Reconcile.Memory.{
  last_written, IsClean, Remembers, degraded-Remembers, remediating-Remembers, healthy-Remembers,
  act-IsClean, remediated-Remembers,
}

module _ {S : Type 0} (env : Env S) (last : Option RemediationRecord) (nn : NamespacedName)
    (cfg : ProbeConfig) (dep : Deployment) where
  open env use {lib, cluster, prober}

  treat-Remembers :
      (q : HotSwapPolicy) (s : PodState) (rest : List PodState) (r : Run S)
      → IsClean env last r
      → q.status.last_remediation ≡ last
      → Remembers env last (treat env nn q cfg dep s rest r)
  unfolding treat remediate last_written
  treat-Remembers q s rest r clean same =
      let spec = q.spec.remediation in
      let stored = q.status.last_remediation in
      elim (Bool-cases (
        breaker_open q.status.consecutive_attempts (attempts_limit spec) stored (cooldown_of spec)
          env.now)) [
            | inl open_ ↦ rw open_ (degraded-Remembers env last q _ _ _ _ clean same)
            | inr closed ↦ elim (Bool-cases (cooldown_active stored (cooldown_of spec) env.now)) [
              | inl warm ↦
                  rw (closed, warm) (remediating-Remembers env last q _ _ r clean (inl same))
              | inr cooled ↦
                  let strategy = choose_strategy spec.strategy (effective_replicas dep) in
                  let (e, pod, r') = act env strategy q dep s rest spec r in
                  rw (closed, cooled)
                    (remediated-Remembers env last q cfg strategy spec e pod r'
                      (act-IsClean env last strategy q dep s rest spec r clean))
            ]
          ]

  triage-Remembers :
      (q : HotSwapPolicy) (total : ℕ) (unhealthy : List PodState) (r : Run S)
      → IsClean env last r
      → q.status.last_remediation ≡ last
      → Remembers env last (triage env nn q cfg dep total unhealthy r)
  unfolding triage guard recover last_written
  triage-Remembers q total [] r clean same = healthy-Remembers env last _ _ _ clean same
  triage-Remembers q total (s ∷ rest) r clean same =
      let spec = q.spec.remediation in
      elim (Bool-cases
        (is_systemic (pos (length (s ∷ rest))) (pos total) spec.systemic_failure_skip_percent)) [
          | inl systemic ↦ rw systemic (degraded-Remembers env last q _ _ _ _ clean same)
          | inr contained ↦
              elim (Bool-cases (or_true spec.require_stable && not (deployment_stable dep))) [
                | inl moving ↦
                    rw (contained, moving) (remediating-Remembers env last q _ _ r clean (inl same))
                | inr settled ↦ rw (contained, settled) (treat-Remembers q s rest r clean same)
              ]
        ]

  observe-Remembers :
      (q : HotSwapPolicy) (pods : List Pod) (r : Run S)
      → IsClean env last r
      → q.status.last_remediation ≡ last
      → Remembers env last (observe env nn q cfg dep pods r)
  unfolding observe decide last_written
  observe-Remembers q pods r clean same = elim (Bool-cases (progress_deadline_exceeded dep)) [
    | inl stalled ↦ rw stalled (degraded-Remembers env last _ _ _ _ _ clean same)
    | inr progressing ↦ rw progressing (triage-Remembers _ _ _ _ clean same)
  ]

  pods-Remembers :
      (q : HotSwapPolicy) (res : Result ApiError (List Pod)) (r : Run S)
      → IsClean env last r
      → q.status.last_remediation ≡ last
      → Remembers env last (with_pods env nn q cfg dep res r)
  unfolding with_pods
  pods-Remembers q (err e) r clean same = inl clean
  pods-Remembers q (ok pods) r clean same = observe-Remembers q pods r clean same

  pub selector-Remembers :
      (q : HotSwapPolicy) (res : Result String String) (r : Run S)
      → IsClean env last r
      → q.status.last_remediation ≡ last
      → Remembers env last (with_selector env nn q cfg dep res r)
  unfolding with_selector
  selector-Remembers q (err e) r clean same = degraded-Remembers env last q _ _ _ r clean same
  selector-Remembers q (ok selector) r clean same =
      pods-Remembers q (cluster.list_pods nn.namespace selector) r clean same
