-- ===== src/Controller/Reconcile/Gates.antt =====
-- The gates of `Reconcile` after the pods have been observed, up to the call of `remediate`.
use hotswap_operator.Prelude.{
  ℕ, pos, length, true, false, not, ◌&&◌, ◌≡◌, ◌≢◌, refl, ap, ◌∙◌, ◌⊎◌, inl, inr, Option, none,
  some, List, [], ◌∷◌, arith, Bool-cases,
}
use hotswap_operator.Api.Kube.{NamespacedName, Deployment}
use hotswap_operator.Api.{HotSwapPolicy}
use hotswap_operator.Prober.Config.{ProbeConfig, PodState}
use hotswap_operator.Controller.Logic.{
  progress_deadline_exceeded, is_systemic, deployment_stable, breaker_open, cooldown_active,
  choose_strategy, effective_replicas,
}
use hotswap_operator.Controller.Env.{ApiError, Env, Run, CtrlResult, Outcome}
use hotswap_operator.Controller.Effects.{disruptions}
use hotswap_operator.Controller.Status.{unhealthy_of}
use hotswap_operator.Controller.Remedy.Deletions.{remediate_dry}
use hotswap_operator.Controller.Reconcile.{
  or_true, attempts_limit, cooldown_of, answered, finish, remediated, treat, guard, recover, triage,
  decide,
}

module _ {S : Type 0} (env : Env S) where
  open env use {lib, cluster, prober}

  -- No attempt to patch the Deployment or to delete a pod.
  abbrev pub IsQuiet : Run S → Outcome S → Type 0
  IsQuiet r o = disruptions o.2.effects ≡ disruptions r.effects

  pub answered_effects :
      (e : Option ApiError) (res : CtrlResult) (r : Run S) → (answered env e res r).2 ≡ r
  unfolding answered
  answered_effects none res r = refl
  answered_effects (some e) res r = refl

  pub finish-IsQuiet :
      (p : HotSwapPolicy) (res : CtrlResult) (r : Run S) → IsQuiet r (finish env p res r)
  unfolding finish
  finish-IsQuiet p res r = ap (λ x. disruptions x.effects) (answered_effects _ res _)

  pub remediated-IsQuiet :
      (cfg : ProbeConfig) (e : Option ApiError) (p : HotSwapPolicy) (r : Run S)
      → IsQuiet r (remediated env cfg e p r)
  unfolding remediated
  remediated-IsQuiet cfg (some e) p r = refl
  remediated-IsQuiet cfg none p r = finish-IsQuiet p _ r

  -- The gates that stand before the remediation proper.
  pub record IsReady (policy : HotSwapPolicy) : Type 0 where
    pub closed :
        breaker_open policy.status.consecutive_attempts
          (attempts_limit policy.spec.remediation)
          policy.status.last_remediation
          (cooldown_of policy.spec.remediation)
          env.now
        ≡ false
    pub cooled :
        cooldown_active policy.status.last_remediation (cooldown_of policy.spec.remediation) env.now
        ≡ false
    pub live : policy.spec.remediation.dry_run ≡ false

  treat_cases :
      (nn : NamespacedName) (policy : HotSwapPolicy) (cfg : ProbeConfig) (dep : Deployment)
      (s : PodState) (rest : List PodState) (r : Run S)
      → IsQuiet r (treat env nn policy cfg dep s rest r) ⊎ IsReady policy
  unfolding treat
  treat_cases nn policy cfg dep s rest r =
      let spec = policy.spec.remediation in
      let last = policy.status.last_remediation in
      let attempts = policy.status.consecutive_attempts in
      elim (Bool-cases
        (breaker_open attempts (attempts_limit spec) last (cooldown_of spec) env.now)) [
          | inl open_ ↦ inl (rw open_ (finish-IsQuiet _ _ _))
          | inr closed ↦ elim (Bool-cases (cooldown_active last (cooldown_of spec) env.now)) [
            | inl warm ↦ inl (rw (closed, warm) (finish-IsQuiet _ _ r))
            | inr cooled ↦ elim (Bool-cases spec.dry_run) [
              | inl dry ↦ inl (
                  rw (closed, cooled)
                    (remediated-IsQuiet cfg _ _ _
                      ∙ remediate_dry env policy dep
                          (choose_strategy spec.strategy (effective_replicas dep)) s rest spec r
                          dry))
              | inr live ↦ inr (record { closed = closed; cooled = cooled; live = live })
            ]
          ]
        ]

  -- The gates after the pods have been observed.
  pub record IsDue (policy : HotSwapPolicy) (dep : Deployment) (snapshot : List PodState)
      : Type 0 where
    pub progressing : progress_deadline_exceeded dep ≡ false
    pub failing : unhealthy_of snapshot ≢ []
    pub contained :
        is_systemic
          (pos (length (unhealthy_of snapshot)))
          (pos (length snapshot))
          policy.spec.remediation.systemic_failure_skip_percent
        ≡ false
    pub stable :
        or_true policy.spec.remediation.require_stable ≡ true → deployment_stable dep ≡ true
    pub ready : IsReady policy

  guard_cases :
      (nn : NamespacedName) (policy : HotSwapPolicy) (cfg : ProbeConfig) (dep : Deployment)
      (total : ℕ) (s : PodState) (rest : List PodState) (r : Run S)
      → IsQuiet r (guard env nn policy cfg dep total s rest r)
        ⊎ ((is_systemic
                (pos (length (s ∷ rest)))
                (pos total)
                policy.spec.remediation.systemic_failure_skip_percent
              ≡ false)
            × (or_true policy.spec.remediation.require_stable ≡ true → deployment_stable dep ≡ true)
            × IsReady policy)
  unfolding guard
  guard_cases nn policy cfg dep total s rest r =
      let spec = policy.spec.remediation in
      elim (Bool-cases
        (is_systemic (pos (length (s ∷ rest))) (pos total) spec.systemic_failure_skip_percent)) [
          | inl systemic ↦ inl (rw systemic (finish-IsQuiet _ _ _))
          | inr contained ↦
              elim (Bool-cases (or_true spec.require_stable && not (deployment_stable dep))) [
                | inl moving ↦ inl (rw (contained, moving) (finish-IsQuiet _ _ r))
                | inr settled ↦ elim (treat_cases nn policy cfg dep s rest r) [
                  | inl quiet ↦ inl (rw (contained, settled) quiet)
                  | inr ready ↦ inr (contained, λ wanted. ground arith, ready)
                ]
              ]
        ]

  triage_cases :
      (nn : NamespacedName) (policy : HotSwapPolicy) (cfg : ProbeConfig) (dep : Deployment)
      (total : ℕ) (unhealthy : List PodState) (r : Run S)
      → IsQuiet r (triage env nn policy cfg dep total unhealthy r)
        ⊎ ((unhealthy ≢ [])
            × (is_systemic
                  (pos (length unhealthy))
                  (pos total)
                  policy.spec.remediation.systemic_failure_skip_percent
                ≡ false)
            × (or_true policy.spec.remediation.require_stable ≡ true → deployment_stable dep ≡ true)
            × IsReady policy)
  unfolding triage recover
  triage_cases nn policy cfg dep total [] r = inl (finish-IsQuiet _ _ _)
  triage_cases nn policy cfg dep total (s ∷ rest) r =
      elim (guard_cases nn policy cfg dep total s rest r) [
        | inl quiet ↦ inl quiet
        | inr (contained, stable, ready) ↦ inr (λ e. cc, contained, stable, ready)
      ]

  pub decide_cases :
      (nn : NamespacedName) (policy : HotSwapPolicy) (cfg : ProbeConfig) (dep : Deployment)
      (snapshot : List PodState) (r : Run S)
      → IsQuiet r (decide env nn policy cfg dep snapshot r) ⊎ IsDue policy dep snapshot
  unfolding decide
  decide_cases nn policy cfg dep snapshot r = elim (Bool-cases (progress_deadline_exceeded dep)) [
    | inl stalled ↦ inl (rw stalled (finish-IsQuiet _ _ r))
    | inr progressing ↦
        elim (triage_cases nn policy cfg dep (length snapshot) (unhealthy_of snapshot) r) [
          | inl quiet ↦ inl (rw progressing quiet)
          | inr (failing, contained, stable, ready) ↦ inr (record {
            progressing = progressing;
            failing = failing;
            contained = contained;
            stable = stable;
            ready = ready;
          })
        ]
  ]
