-- ===== src/Controller/Reconcile/Action.antt =====
-- What `Reconcile` does from the gates on: the attempts of `rolloutRestart` and `deletePod`.
use hotswap_operator.Prelude.{
  ℕ, ℤ, pos, leb_ℤ, inc32, ◌≤◌, ◌<◌, length, String, Bool, true, false, not, ◌&&◌, ◌≡◌, ◌≢◌, refl,
  sym, ap, ◌∙◌, ◌⊎◌, inl, inr, List, [], ◌∷◌, arith,
}
use hotswap_operator.Api.Kube.{NamespacedName, Deployment, Pod}
use hotswap_operator.Api.{
  HotSwapPolicy, RemediationStrategy, RemediationSpec, delete_pod, rollout_restart,
}
use hotswap_operator.Prober.Config.{ProbeConfig, PodState}
use hotswap_operator.Controller.Logic.{
  is_systemic, deployment_stable, choose_strategy, effective_replicas,
}
use hotswap_operator.Controller.Env
use hotswap_operator.Controller.Env.{
  Env, Run, Outcome, note, set_targets_total, set_targets_healthy,
}
use hotswap_operator.Controller.Status.{unhealthy_of, to_target_health}
use hotswap_operator.Controller.Effects.{disruptions, carried_out}
use hotswap_operator.Controller.Remedy.{
  concurrency, rollout, delete_one, delete_targets, deleted, act, reported, remediate,
}
use hotswap_operator.Controller.Remedy.Deletions.{reported_quiet}
use hotswap_operator.Controller.Logic.Gates.{choose_strategy_iff}
use hotswap_operator.Controller.Reconcile.{
  or_true, remediated, treat, guard, triage, decide, observe, with_pods, with_selector, with_winner,
  with_deployment, with_probe, with_policy, reconcile,
}
use hotswap_operator.Controller.Reconcile.Gates.{IsReady, IsDue, remediated-IsQuiet}
use hotswap_operator.Controller.Reconcile.Admission.{snapshot_of, IsAdmitted}

module _ {S : Type 0} (env : Env S) where
  open env use {lib, cluster, prober}

  delete_targets_mono :
      (ns : String) (limit : ℤ) (dry : Bool) (pods : List PodState) (n : ℤ) (pod : String)
      (r : Run S)
      → disruptions r.effects ≤ disruptions (delete_targets env ns limit dry pods n pod r).2.effects
  unfolding delete_targets delete_one deleted
  delete_targets_mono ns limit dry [] n pod r = omega arith
  delete_targets_mono ns limit dry (s ∷ rest) n pod r =
      let r' = note (Env.delete_pod ns s.pod_name) r in
      ground (
        arith,
        delete_targets_mono ns limit dry rest (inc32 n) s.pod_name r,
        delete_targets_mono ns limit dry rest (inc32 n) s.pod_name r',
        delete_targets_mono ns limit dry rest n pod r',
      )

  concurrency_pos : (v : ℤ) → leb_ℤ (concurrency v) (pos 0) ≡ false
  unfolding concurrency
  concurrency_pos v = ground arith

  delete_targets_acts :
      (ns : String) (limit : ℤ) (s : PodState) (rest : List PodState) (r : Run S)
      → leb_ℤ limit (pos 0) ≡ false
      → disruptions r.effects
        < disruptions (delete_targets env ns limit false (s ∷ rest) (pos 0) "" r).2.effects
  unfolding delete_targets delete_one deleted
  delete_targets_acts ns limit s rest r h =
      let r' = note (Env.delete_pod ns s.pod_name) r in
      ground (
        arith,
        h,
        delete_targets_mono ns limit false rest (inc32 (pos 0)) s.pod_name r',
        delete_targets_mono ns limit false rest (pos 0) "" r',
      )

  act_acts :
      (policy : HotSwapPolicy) (dep : Deployment) (strategy : RemediationStrategy) (s : PodState)
      (rest : List PodState) (spec : RemediationSpec) (r : Run S)
      → (strategy ≡ delete_pod) ⊎ (strategy ≡ rollout_restart)
      → spec.dry_run ≡ false
      → disruptions r.effects < disruptions (act env strategy policy dep s rest spec r).2.effects
  unfolding act rollout
  act_acts policy dep strategy s rest spec r (inl deletes) live =
      rw (deletes, act, live)
        (delete_targets_acts policy.meta.namespace (concurrency spec.max_concurrent) s rest r
          (concurrency_pos spec.max_concurrent))
  act_acts policy dep strategy s rest spec r (inr restarts) live =
      rw (restarts, act, live) (omega arith)

  -- The remediation of `s ∷ rest`, and the end of the run.
  abbrev pub remedy :
      HotSwapPolicy → ProbeConfig → Deployment → PodState → List PodState → Run S → Outcome S
  remedy policy cfg dep s rest r =
      let spec = policy.spec.remediation in
      let (e, policy', r') =
        remediate env policy dep (choose_strategy spec.strategy (effective_replicas dep)) s rest
          spec r in
      remediated env cfg e policy' r'

  treat-remedy :
      (nn : NamespacedName) (policy : HotSwapPolicy) (cfg : ProbeConfig) (dep : Deployment)
      (s : PodState) (rest : List PodState) (r : Run S)
      → IsReady env policy
      → treat env nn policy cfg dep s rest r ≡ remedy policy cfg dep s rest r
  unfolding treat
  treat-remedy nn policy cfg dep s rest r ready = rw (ready.closed, ready.cooled)

  settled_if : (b c : Bool) → (b ≡ true → c ≡ true) → (b && not c) ≡ false
  settled_if b c h = ground (arith, h)

  decide-remedy :
      (nn : NamespacedName) (policy : HotSwapPolicy) (cfg : ProbeConfig) (dep : Deployment)
      (snapshot : List PodState) (s : PodState) (rest : List PodState) (r : Run S)
      → IsDue env policy dep snapshot
      → unhealthy_of snapshot ≡ s ∷ rest
      → decide env nn policy cfg dep snapshot r ≡ remedy policy cfg dep s rest r
  unfolding decide triage guard
  decide-remedy nn policy cfg dep snapshot s rest r due failing =
      let contained =
        ap
          (λ u.
            is_systemic (pos (length u)) (pos (length snapshot))
              policy.spec.remediation.systemic_failure_skip_percent)
          (sym failing)
        ∙ due.contained in
      rw
        (
          due.progressing,
          failing,
          contained,
          settled_if (or_true policy.spec.remediation.require_stable) (deployment_stable dep)
              due.stable,
        )
        (treat-remedy nn policy cfg dep s rest r due.ready)

  remedy_acts :
      (policy : HotSwapPolicy) (cfg : ProbeConfig) (dep : Deployment) (s : PodState)
      (rest : List PodState) (r : Run S)
      → policy.spec.remediation.dry_run ≡ false
      → disruptions r.effects < disruptions (remedy policy cfg dep s rest r).2.effects
  unfolding remediate
  remedy_acts policy cfg dep s rest r live =
      let spec = policy.spec.remediation in
      let strategy = choose_strategy spec.strategy (effective_replicas dep) in
      let (e, pod, r') = act env strategy policy dep s rest spec r in
      let (e', policy', r'') = reported env strategy spec policy e pod r' in
      omega (
        arith,
        act_acts policy dep strategy s rest spec r
            (choose_strategy_iff spec.strategy (effective_replicas dep)).1 live,
        (reported_quiet env strategy spec policy e pod r').1,
        remediated-IsQuiet env cfg e' policy' r'',
      )

  cons_of : (l : List PodState) → l ≢ [] → (s : PodState) × (rest : List PodState) × (l ≡ s ∷ rest)
  cons_of [] n = absurd (n refl)
  cons_of (s ∷ rest) n = (s, rest, refl)

  -- The policy as `Reconcile` hands it to `remediate`, with the health of its targets.
  abbrev pub with_health : HotSwapPolicy → List PodState → HotSwapPolicy
  with_health policy snapshot = record policy {
    status = record policy.status { targets = to_target_health snapshot };
  }

  -- The run is a remediation, after effects that disturb nothing.
  pub record Remedies (nn : NamespacedName) (policy : HotSwapPolicy) (cfg : ProbeConfig)
      (dep : Deployment) (snapshot : List PodState) (r : Run S) (o : Outcome S) : Type 0 where
    pub first : PodState
    pub others : List PodState
    pub run : Run S
    pub same : o ≡ remedy (with_health policy snapshot) cfg dep first others run
    pub failing : unhealthy_of snapshot ≡ first ∷ others
    pub noted :
        (total healthy : ℕ) × (run.effects
          ≡ set_targets_healthy nn.namespace nn.name healthy
            ∷ set_targets_total nn.namespace nn.name total
            ∷ r.effects)
    pub tried : disruptions run.effects ≡ disruptions r.effects
    pub carried : carried_out cluster run.effects ≡ carried_out cluster r.effects

  observe-remedy :
      (nn : NamespacedName) (policy : HotSwapPolicy) (cfg : ProbeConfig) (dep : Deployment)
      (pods : List Pod) (r : Run S)
      → IsDue env policy dep (snapshot_of env nn cfg pods r)
      → Remedies nn policy cfg dep
          (snapshot_of env nn cfg pods r)
          r
          (observe env nn policy cfg dep pods r)
  unfolding observe
  observe-remedy nn policy cfg dep pods r due =
      let snapshot = snapshot_of env nn cfg pods r in
      let (s, rest, failing) = cons_of (unhealthy_of snapshot) due.failing in
      let policy' = with_health policy snapshot in
      let due' : IsDue env policy' dep snapshot = record {
        progressing = due.progressing;
        failing = due.failing;
        contained = due.contained;
        stable = due.stable;
        ready = record {
          closed = due.ready.closed;
          cooled = due.ready.cooled;
          live = due.ready.live;
        };
      } in
      record {
        first = s;
        others = rest;
        run = _;
        same = decide-remedy nn policy' cfg dep snapshot s rest _ due' failing;
        failing = failing;
        noted = (_, _, refl);
        tried = refl;
        carried = refl;
      }

  -- A run that every gate lets through is a remediation.
  pub reconcile-remedy :
      (nn : NamespacedName) (r : Run S) (policy : HotSwapPolicy) (cfg : ProbeConfig)
      (dep : Deployment) (pods : List Pod)
      → IsAdmitted env nn r policy cfg dep pods
      → Remedies nn policy cfg dep (snapshot_of env nn cfg pods r) r (reconcile env nn r)
  unfolding reconcile with_policy with_probe with_deployment with_winner with_selector with_pods
  reconcile-remedy nn r policy cfg dep pods a =
      let (selector, selected, listed) = a.listed in
      rw
        (
          a.found, with_policy, a.alive, a.owned, a.probe, with_probe, a.target, with_deployment,
          a.unrivalled, with_winner, selected, with_selector, listed, with_pods,
        )
        (observe-remedy nn policy cfg dep pods r a.due)

  -- A run that every gate lets through attempts to patch the Deployment or to delete a pod.
  pub reconcile_acts :
      (nn : NamespacedName) (r : Run S) (policy : HotSwapPolicy) (cfg : ProbeConfig)
      (dep : Deployment) (pods : List Pod)
      → IsAdmitted env nn r policy cfg dep pods
      → disruptions r.effects < disruptions (reconcile env nn r).2.effects
  reconcile_acts nn r policy cfg dep pods a =
      let remedies = reconcile-remedy nn r policy cfg dep pods a in
      rw (remedies.same, sym remedies.tried)
        (remedy_acts (with_health policy (snapshot_of env nn cfg pods r)) cfg dep remedies.first
          remedies.others remedies.run a.due.ready.live)
