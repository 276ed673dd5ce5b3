-- ===== src/Controller/Reconcile/Lapses.antt =====
-- Behaviour of the remediation and of its guards that is easily overlooked.
use hotswap_operator.Prelude.{
  ℤ, pos, inc32, String, false, ◌≡◌, refl, sym, ap, ◌∙◌, Option, none, some, List, [], ◌∷◌, arith,
  Bool-cases, inl, inr,
}
use hotswap_operator.Api.Kube.{NamespacedName, Deployment}
use hotswap_operator.Api.{HotSwapPolicy, RemediationStrategy, delete_pod, RemediationSpec}
use hotswap_operator.Prober.Config.{ProbeConfig, PodState}
use hotswap_operator.Controller.Logic.{choose_strategy, effective_replicas}
use hotswap_operator.Controller.Env
use hotswap_operator.Controller.Env.{
  ApiError, not_found, Cluster, Env, Run, CtrlResult, note, update_status, Effect,
}
use hotswap_operator.Controller.Effects.{carried_out}
use hotswap_operator.Controller.Status.{set_remediating}
use hotswap_operator.Controller.Remedy.{
  delete_one, delete_targets, deleted, concurrency, act, record_remediation, report, reported,
  remediate,
}
use hotswap_operator.Controller.Remedy.Keeps.{act_keeps}
use hotswap_operator.Controller.Reconcile.{answered, finish, remediated, reconcile}
use hotswap_operator.Controller.Reconcile.Gates.{IsQuiet, answered_effects}
use hotswap_operator.Controller.Reconcile.Admission.{reconcile_gates}
use hotswap_operator.Controller.Reconcile.Action.{remedy, reconcile-remedy}

abbrev taken_by : Option ApiError → HotSwapPolicy → List HotSwapPolicy → List HotSwapPolicy
taken_by none p ps = p ∷ ps
taken_by (some e) p ps = ps

-- The statuses that the server has taken, the newest first.
unfoldable pub taken : Cluster → List Effect → List HotSwapPolicy
taken cluster [] = []
taken cluster (update_status p ∷ before) =
    taken_by (cluster.answer before (update_status p)) p (taken cluster before)
taken cluster (_ ∷ before) = taken cluster before

module _ {S : Type 0} (env : Env S) where
  open env use {cluster}

  -- The server answers every deletion of a pod in the namespace with NotFound.
  abbrev pub IsGone : String → Type 0
  IsGone ns =
      (before : List Effect) (pod : String)
      → cluster.answer before (Env.delete_pod ns pod) ≡ some not_found

  delete_targets_gone :
      (ns : String) (limit : ℤ) (pods : List PodState) (acted : ℤ) (pod : String) (r : Run S)
      → IsGone ns
      → ((delete_targets env ns limit false pods acted pod r).0 ≡ none)
        × ((delete_targets env ns limit false pods acted pod r).1 ≡ pod)
        × (carried_out cluster (delete_targets env ns limit false pods acted pod r).2.effects
            ≡ carried_out cluster r.effects)
  unfolding delete_targets delete_one deleted
  delete_targets_gone ns limit [] acted pod r gone = (refl, refl, refl)
  delete_targets_gone ns limit (s ∷ rest) acted pod r gone = ground (
    arith,
    gone r.effects s.pod_name,
    delete_targets_gone ns limit rest acted pod (note (Env.delete_pod ns s.pod_name) r) gone,
  )

  -- Where the server answers every deletion with NotFound, and in no dry run, DeletePod acts on nothing, and yet
  -- the attempt is counted and a remediation of the pod named "" recorded.
  pub remediate_of_nothing :
      (policy : HotSwapPolicy) (dep : Deployment) (s : PodState) (rest : List PodState)
      (spec : RemediationSpec) (r : Run S)
      → spec.dry_run ≡ false
      → IsGone policy.meta.namespace
      → let (e, policy', r') = remediate env policy dep delete_pod s rest spec r in
        (e ≡ none)
        × (policy'.status.consecutive_attempts ≡ inc32 policy.status.consecutive_attempts)
        × (policy'.status.last_remediation
            ≡ some (record {
              pod_name = "";
              strategy = delete_pod;
              time = env.now;
              reason = "hotswapProbe health regression";
            }))
        × (carried_out cluster r'.effects ≡ carried_out cluster r.effects)
  unfolding remediate act report record_remediation set_remediating
  remediate_of_nothing policy dep s rest spec r live gone =
      let (e, pod, r') =
        delete_targets_gone policy.meta.namespace (concurrency spec.max_concurrent) (s ∷ rest)
          (pos 0) "" r gone in
      rw (live, e, pod) (refl, refl, refl, r')

  kept-taken :
      (o : Option ApiError) (res : CtrlResult) (r : Run S) (p : HotSwapPolicy)
      (l : List HotSwapPolicy) {e : ApiError}
      → (answered env o res r).1 ≡ some e
      → taken_by o p l ≡ l
  unfolding answered
  kept-taken none res r p l h = cc
  kept-taken (some e') res r p l h = refl

  finish-taken :
      (q : HotSwapPolicy) (res : CtrlResult) (r : Run S) {e : ApiError}
      → (finish env q res r).1 ≡ some e
      → taken cluster (finish env q res r).2.effects ≡ taken cluster r.effects
  unfolding finish taken
  finish-taken q res r h = rw (answered_effects env _ res _) (kept-taken _ res _ _ _ h)

  report-taken :
      (strategy : RemediationStrategy) (pod : String) (spec : RemediationSpec) (q : HotSwapPolicy)
      (r : Run S)
      → taken cluster (report env strategy pod spec q r).1.effects ≡ taken cluster r.effects
  unfolding report taken
  report-taken strategy pod spec q r = elim (Bool-cases spec.dry_run) [
    | inl dry ↦ rw dry refl
    | inr live ↦ rw live refl
  ]

  act-taken :
      (strategy : RemediationStrategy) (q : HotSwapPolicy) (dep : Deployment) (s : PodState)
      (rest : List PodState) (spec : RemediationSpec) (r : Run S)
      → taken cluster (act env strategy q dep s rest spec r).2.effects ≡ taken cluster r.effects
  unfolding taken
  act-taken strategy q dep s rest spec r =
      act_keeps env (λ es. taken cluster es ≡ taken cluster r.effects) (λ ns name body es h. h)
        (λ ns pod es h. h) strategy q dep s rest spec r refl

  remediated-taken :
      (cfg : ProbeConfig) (strategy : RemediationStrategy) (spec : RemediationSpec)
      (q : HotSwapPolicy) (o : Option ApiError) (pod : String) (r : Run S) {e : ApiError}
      → let (e', q', r') = reported env strategy spec q o pod r in
        (remediated env cfg e' q' r').1 ≡ some e
        → taken cluster (remediated env cfg e' q' r').2.effects ≡ taken cluster r.effects
  unfolding remediated
  remediated-taken cfg strategy spec q (some e') pod r h = refl
  remediated-taken cfg strategy spec q none pod r h =
      finish-taken _ _ _ h ∙ report-taken strategy pod spec q r

  remedy-taken :
      (q : HotSwapPolicy) (cfg : ProbeConfig) (dep : Deployment) (s : PodState)
      (rest : List PodState) (r : Run S) {e : ApiError}
      → (remedy env q cfg dep s rest r).1 ≡ some e
      → taken cluster (remedy env q cfg dep s rest r).2.effects ≡ taken cluster r.effects
  unfolding remediate
  remedy-taken q cfg dep s rest r h =
      let spec = q.spec.remediation in
      let strategy = choose_strategy spec.strategy (effective_replicas dep) in
      let (e, pod, r') = act env strategy q dep s rest spec r in
      remediated-taken cfg strategy spec q e pod r' h ∙ act-taken strategy q dep s rest spec r

  -- When a run that attempts to patch the Deployment or to delete a pod ends with an error, the server has taken no
  -- status from it, whatever the run has carried out before the error: neither the attempt nor a remediation is on
  -- record for the next run.
  pub reconcile_of_error :
      (nn : NamespacedName) (r : Run S) (e : ApiError)
      → (IsQuiet env r (reconcile env nn r) → ⊥)
      → (reconcile env nn r).1 ≡ some e
      → taken cluster (reconcile env nn r).2.effects ≡ taken cluster r.effects
  unfolding taken
  reconcile_of_error nn r e loud h = elim (reconcile_gates env nn r) [
    | inl quiet ↦ absurd (loud quiet)
    | inr (policy, cfg, dep, pods, a) ↦
        let remedies = reconcile-remedy env nn r policy cfg dep pods a in
        let (total, healthy, noted) = remedies.noted in
        ap (λ o. taken cluster o.2.effects) remedies.same
        ∙ remedy-taken _ cfg dep remedies.first remedies.others remedies.run
            (sym (ap (λ o. o.1) remedies.same) ∙ h)
        ∙ ap (taken cluster) noted
  ]
