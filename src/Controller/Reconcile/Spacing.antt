-- ===== src/Controller/Reconcile/Spacing.antt =====
-- What a run of `Reconcile` that disturbs the workload leaves in the status, and how much it does.
use hotswap_operator.Prelude.{
  ℤ, pos, ◌+◌, ◌≤◌, ◌≤ℤ◌, max_int32, inc32, ◌≡◌, refl, sym, ap, String, ◌∙◌, ◌⊎◌, inl, inr, Option,
  none, some, List, ◌∷◌, Result, ok, arith, Bool-cases,
}
use hotswap_operator.Api.Kube.{NamespacedName, Deployment}
use hotswap_operator.Api.{HotSwapPolicy, RemediationStrategy, RemediationSpec, RemediationRecord}
use hotswap_operator.Prober.Config.{ProbeConfig, PodState}
use hotswap_operator.Controller.Logic.{choose_strategy, effective_replicas}
use hotswap_operator.Controller.Env.{ApiError, Env, Run, CtrlResult, Outcome, Effect, update_status}
use hotswap_operator.Controller.Effects.{carried_out}
use hotswap_operator.Controller.Status.{set_remediating}
use hotswap_operator.Controller.Remedy.{record_remediation, report, act, reported, remediate}
use hotswap_operator.Controller.Remedy.Deletions.{allowed, remediate_bound}
use hotswap_operator.Controller.Reconcile.{finish, remediated, reconcile}
use hotswap_operator.Controller.Reconcile.Gates.{IsQuiet, answered_effects}
use hotswap_operator.Controller.Reconcile.Report.{answered-none}
use hotswap_operator.Controller.Reconcile.Admission.{snapshot_of, reconcile_gates}
use hotswap_operator.Controller.Reconcile.Action.{remedy, with_health, reconcile-remedy}

module _ {S : Type 0} (env : Env S) where
  open env use {lib, cluster}

  -- The status that a run has written last has a remediation of this moment, one more than `attempts`.
  pub record Records (attempts : ℤ) (o : Outcome S) : Type 0 where
    pub written : HotSwapPolicy
    pub before : List Effect
    pub record_of : RemediationRecord
    pub last : o.2.effects ≡ update_status written ∷ before
    pub taken : cluster.answer before (update_status written) ≡ none
    pub remembered : written.status.last_remediation ≡ some record_of
    pub dated : record_of.time ≡ env.now
    pub counted : written.status.consecutive_attempts ≡ inc32 attempts

  finish-Records :
      (q : HotSwapPolicy) (rec : RemediationRecord) (attempts : ℤ) (res : CtrlResult) (r : Run S)
      → q.status.last_remediation ≡ some rec
      → rec.time ≡ env.now
      → q.status.consecutive_attempts ≡ inc32 attempts
      → (finish env q res r).1 ≡ none
      → Records attempts (finish env q res r)
  unfolding finish
  finish-Records q rec attempts res r h t n e =
      let observed = record q {
        status = record q.status { observed_generation = q.meta.generation };
      } in
      let answer = cluster.answer r.effects (update_status observed) in
      record {
        written = observed;
        before = r.effects;
        record_of = rec;
        last = ap (λ x. x.effects) (answered_effects env answer res _);
        taken = (answered-none env answer res _ e).0;
        remembered = h;
        dated = t;
        counted = n;
      }

  report-status :
      (strategy : RemediationStrategy) (pod : String) (spec : RemediationSpec) (q : HotSwapPolicy)
      (r : Run S)
      → let q' = (report env strategy pod spec q r).0 in
        let recorded = record_remediation env strategy pod spec q in
        (q'.status.last_remediation ≡ recorded.status.last_remediation)
        × (q'.status.consecutive_attempts ≡ recorded.status.consecutive_attempts)
  unfolding report set_remediating
  report-status strategy pod spec q r = elim (Bool-cases spec.dry_run) [
    | inl dry ↦ rw dry (refl, refl)
    | inr live ↦ rw live (refl, refl)
  ]

  report-remembers :
      (strategy : RemediationStrategy) (pod : String) (spec : RemediationSpec) (q : HotSwapPolicy)
      (r : Run S)
      → let q' = (report env strategy pod spec q r).0 in
        (rec : RemediationRecord) × (q'.status.last_remediation ≡ some rec)
        × (rec.time ≡ env.now)
        × (q'.status.consecutive_attempts ≡ inc32 q.status.consecutive_attempts)
  unfolding record_remediation
  report-remembers strategy pod spec q r =
      let (last, count) = report-status strategy pod spec q r in (_, last, refl, count)

  remediated-Records :
      (cfg : ProbeConfig) (strategy : RemediationStrategy) (spec : RemediationSpec)
      (q : HotSwapPolicy) (e : Option ApiError) (pod : String) (r : Run S)
      → let (e', q', r') = reported env strategy spec q e pod r in
        (remediated env cfg e' q' r').1 ≡ none
        → Records q.status.consecutive_attempts
            (let (e', q', r') = reported env strategy spec q e pod r in remediated env cfg e' q' r')
  unfolding remediated
  remediated-Records cfg strategy spec q (some e) pod r h = absurd cc
  remediated-Records cfg strategy spec q none pod r h =
      let (rec, remembered, dated, counted) = report-remembers strategy pod spec q r in
      finish-Records _ rec q.status.consecutive_attempts _ _ remembered dated counted h

  remedy-Records :
      (q : HotSwapPolicy) (cfg : ProbeConfig) (dep : Deployment) (s : PodState)
      (rest : List PodState) (r : Run S)
      → (remedy env q cfg dep s rest r).1 ≡ none
      → Records q.status.consecutive_attempts (remedy env q cfg dep s rest r)
  unfolding remediate
  remedy-Records q cfg dep s rest r h =
      let spec = q.spec.remediation in
      let strategy = choose_strategy spec.strategy (effective_replicas dep) in
      let (e, pod, r') = act env strategy q dep s rest spec r in
      remediated-Records cfg strategy spec q e pod r' h

  -- A run without error that attempts to patch the Deployment or to delete a pod has last written a status that the
  -- server has taken, in which this remediation is on record with the time of the run, and counted.
  pub reconcile-Records :
      (nn : NamespacedName) (r : Run S)
      → (IsQuiet env r (reconcile env nn r) → ⊥)
      → (reconcile env nn r).1 ≡ none
      → (policy : HotSwapPolicy) × (cluster.get_policy nn ≡ ok policy)
        × Records policy.status.consecutive_attempts (reconcile env nn r)
  reconcile-Records nn r loud e = elim (reconcile_gates env nn r) [
    | inl quiet ↦ absurd (loud quiet)
    | inr (policy, cfg, dep, pods, a) ↦
        let remedies = reconcile-remedy env nn r policy cfg dep pods a in
        (
          policy,
          a.found,
          rw remedies.same (
              remedy-Records (with_health env policy (snapshot_of env nn cfg pods r)) cfg dep
                remedies.first remedies.others remedies.run
                (sym (ap (λ o. o.1) remedies.same) ∙ e)),
        )
  ]

  remediated-carried :
      (cfg : ProbeConfig) (e : Option ApiError) (q : HotSwapPolicy) (r : Run S)
      → carried_out cluster (remediated env cfg e q r).2.effects ≡ carried_out cluster r.effects
  unfolding remediated finish
  remediated-carried cfg (some e) q r = refl
  remediated-carried cfg none q r =
      ap (λ x. carried_out cluster x.effects) (answered_effects env _ _ _)

  -- A run attempts nothing, or it carries out at most as many restarts and deletions, taken together, as the
  -- `maxConcurrent` of its policy says, an int32 (one where it is not positive).
  pub reconcile_bound :
      (nn : NamespacedName) (r : Run S)
      → ((policy : HotSwapPolicy)
          → cluster.get_policy nn ≡ ok policy
          → policy.spec.remediation.max_concurrent ≤ℤ pos max_int32)
      → IsQuiet env r (reconcile env nn r)
        ⊎ ((policy : HotSwapPolicy) × (cluster.get_policy nn ≡ ok policy)
            × (carried_out cluster (reconcile env nn r).2.effects
                ≤ carried_out cluster r.effects + allowed policy.spec.remediation.max_concurrent))
  reconcile_bound nn r typed = elim (reconcile_gates env nn r) [
    | inl quiet ↦ inl quiet
    | inr (policy, cfg, dep, pods, a) ↦
        let q = with_health env policy (snapshot_of env nn cfg pods r) in
        let spec = q.spec.remediation in
        let remedies = reconcile-remedy env nn r policy cfg dep pods a in
        let strategy = choose_strategy spec.strategy (effective_replicas dep) in
        let done = remediate env q dep strategy remedies.first remedies.others spec remedies.run in
        let bound =
          (remediate_bound env q dep strategy remedies.first remedies.others spec remedies.run
            (typed policy a.found)).0 in
        inr (
          policy,
          a.found,
          rw remedies.same
              (omega (arith, bound, remediated-carried cfg done.0 done.1 done.2, remedies.carried)),
        )
  ]

pub same_policy : {p q : HotSwapPolicy} → Path (Result ApiError HotSwapPolicy) (ok p) (ok q) → p ≡ q
same_policy e = cc
