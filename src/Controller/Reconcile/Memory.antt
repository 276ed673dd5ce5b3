-- ===== src/Controller/Reconcile/Memory.antt =====
-- The last remediation on record at the API server, and what a run of `Reconcile` makes of it.
pub mod Gateways
pub mod Arrivals
use hotswap_operator.Prelude.{
  ℕ, ℤ, pos, length, String, Bool, true, false, not, ◌&&◌, ◌≡◌, refl, sym, ap, ◌∙◌, ◌⊎◌, inl, inr,
  Option, none, some, List, [], ◌∷◌, str_eq, Result, ok, err, Bool-cases, inc32, leb_ℤ,
}
use hotswap_operator.Api.Kube.{NamespacedName, Deployment, Pod, is_zero}
use hotswap_operator.Api.{
  HotSwapPolicy, RemediationStrategy, auto, rollout_restart, delete_pod, unknown, RemediationSpec,
  RemediationRecord,
}
use hotswap_operator.Prober.Config.{ProbeConfig, PodState}
use hotswap_operator.Controller.Logic.{
  normalize_probe, progress_deadline_exceeded, is_systemic, deployment_stable, breaker_open,
  cooldown_active, choose_strategy, effective_replicas,
}
use hotswap_operator.Controller.Env
use hotswap_operator.Controller.Env.{
  ApiError, not_found, failed, Cluster, Env, Run, CtrlResult, no_result, Outcome, Effect,
  update_status, note,
}
use hotswap_operator.Controller.Status.{set_healthy, set_remediating, set_degraded}
use hotswap_operator.Controller.Overlap.{conflicting_policy}
use hotswap_operator.Controller.Remedy.{
  Loop, go, halt, concurrency, rollout, deleted, delete_one, delete_targets, act,
  record_remediation, report, reported, remediate,
}
use hotswap_operator.Controller.Remedy.Keeps.{act_keeps}
use hotswap_operator.Controller.Reconcile.{
  finalizer_name, or_true, attempts_limit, cooldown_of, answered, finish, finalize, adopt,
  remediated, treat, guard, recover, triage, decide, observe, with_pods, with_selector, with_winner,
  with_deployment, with_probe, with_policy, reconcile,
}
use hotswap_operator.Controller.Reconcile.Gates.{answered_effects}

-- What a write of the status leaves as the last one written, with its time as the writer gives it.
abbrev kept_by :
    Option ApiError → HotSwapPolicy → Option RemediationRecord → Option RemediationRecord
kept_by none p old = p.status.last_remediation
kept_by (some e) p old = old

-- The last remediation that the effects have written, where `last` was on record before them. An update of the
-- policy itself leaves its status alone, which is a subresource. How the server keeps it is `stored` of Apart.
unfoldable pub last_written :
    Cluster → Option RemediationRecord → List Effect → Option RemediationRecord
last_written cluster last [] = last
last_written cluster last (update_status p ∷ before) =
    kept_by (cluster.answer before (update_status p)) p (last_written cluster last before)
last_written cluster last (_ ∷ before) = last_written cluster last before

module _ {S : Type 0} (env : Env S) (last : Option RemediationRecord) where
  open env use {lib, cluster, prober}

  -- A run so far that has changed nothing on record.
  abbrev pub IsClean : Run S → Type 0
  IsClean r = last_written cluster last r.effects ≡ last

  -- What was on record, or a remediation of this moment.
  abbrev pub IsRecent : Option RemediationRecord → Type 0
  IsRecent o = (o ≡ last) ⊎ ((rec : RemediationRecord) × (o ≡ some rec) × (rec.time ≡ env.now))

  abbrev pub Remembers : Outcome S → Type 0
  Remembers o = IsRecent (last_written cluster last o.2.effects)

  kept-IsRecent :
      (e : Option ApiError) (p : HotSwapPolicy) (old : Option RemediationRecord)
      → old ≡ last
      → IsRecent p.status.last_remediation
      → IsRecent (kept_by e p old)
  kept-IsRecent none p old clean recent = recent
  kept-IsRecent (some e) p old clean recent = inl clean

  pub finish-Remembers :
      (q : HotSwapPolicy) (res : CtrlResult) (r : Run S)
      → IsClean r
      → IsRecent q.status.last_remediation
      → Remembers (finish env q res r)
  unfolding finish last_written
  finish-Remembers q res r clean recent =
      rw (answered_effects env _ res _) (kept-IsRecent _ _ _ clean recent)

  pub degraded-Remembers :
      (q : HotSwapPolicy) (reason msg : String) (res : CtrlResult) (r : Run S)
      → IsClean r
      → q.status.last_remediation ≡ last
      → Remembers (finish env (set_degraded lib q reason msg) res r)
  unfolding set_degraded
  degraded-Remembers q reason msg res r clean same = finish-Remembers _ res r clean (inl same)

  pub remediating-Remembers :
      (q : HotSwapPolicy) (msg : String) (res : CtrlResult) (r : Run S)
      → IsClean r
      → IsRecent q.status.last_remediation
      → Remembers (finish env (set_remediating lib q msg) res r)
  unfolding set_remediating
  remediating-Remembers q msg res r clean recent = finish-Remembers _ res r clean recent

  pub healthy-Remembers :
      (q : HotSwapPolicy) (res : CtrlResult) (r : Run S)
      → IsClean r
      → q.status.last_remediation ≡ last
      → Remembers (finish env (set_healthy lib q) res r)
  unfolding set_healthy
  healthy-Remembers q res r clean same = finish-Remembers _ res r clean (inl same)

  pub act-IsClean :
      (strategy : RemediationStrategy) (q : HotSwapPolicy) (dep : Deployment) (s : PodState)
      (rest : List PodState) (spec : RemediationSpec) (r : Run S)
      → IsClean r
      → IsClean (act env strategy q dep s rest spec r).2
  unfolding last_written
  act-IsClean strategy q dep s rest spec r clean =
      act_keeps env (λ es. last_written cluster last es ≡ last) (λ ns name body es h. h)
        (λ ns pod es h. h) strategy q dep s rest spec r clean

  pub remediated-Remembers :
      (q : HotSwapPolicy) (cfg : ProbeConfig) (strategy : RemediationStrategy)
      (spec : RemediationSpec) (e : Option ApiError) (pod : String) (r : Run S)
      → IsClean r
      → Remembers
          (let (e', q', r') = reported env strategy spec q e pod r in remediated env cfg e' q' r')
  unfolding remediated report record_remediation last_written
  remediated-Remembers q cfg strategy spec (some e) pod r clean = inl clean
  remediated-Remembers q cfg strategy spec none pod r clean = elim (Bool-cases spec.dry_run) [
    | inl dry ↦ rw dry (remediating-Remembers _ _ _ _ clean (inr (_, refl, refl)))
    | inr live ↦ rw live (remediating-Remembers _ _ _ _ clean (inr (_, refl, refl)))
  ]
