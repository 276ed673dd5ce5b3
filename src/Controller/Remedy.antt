-- ===== src/Controller/Remedy.antt =====
-- `remediate`, `rolloutRestart` and `deletePod` of internal/controller/hotswappolicy_controller.go.
pub mod Deletions
pub mod Keeps
use Prim.Native.String.{◌++◌}
use hotswap_operator.Prelude.{
  ℕ, ℤ, pos, leb_ℤ, inc32, String, Bool, true, false, Option, none, some, List, [], ◌∷◌,
  if◌then◌else◌,
}
use hotswap_operator.Api.Kube.{Time, Deployment}
use hotswap_operator.Api.{
  HotSwapPolicy, RemediationStrategy, auto, rollout_restart, delete_pod, unknown, strategy_text,
  RemediationSpec, RemediationRecord, reason_remediating, reason_dry_run,
}
use hotswap_operator.Prober.Config.{PodState}
use hotswap_operator.Controller.Env
use hotswap_operator.Controller.Env.{
  Library, ApiError, not_found, failed, Env, Run, note, write, patch_deployment, emit,
  inc_remediations, inc_dry_run,
}
use hotswap_operator.Controller.Status.{set_remediating}

abbrev pub restart_annotation : String
restart_annotation = "hotswap.io/restarted-at"

-- The merge patch of `rolloutRestart`.
unfoldable pub restart_patch : Library → Time → String
restart_patch lib now =
    "{\"spec\":{\"template\":{\"metadata\":{\"annotations\":{"
    ++ (lib.quote restart_annotation ++ (":" ++ (lib.quote (lib.rfc3339 now) ++ "}}}}}")))

-- `limit`: `maxConcurrent`, or 1 where that is not positive.
unfoldable pub concurrency : ℤ → ℤ
concurrency v = if leb_ℤ v (pos 0) then pos 1 else v

-- The loop of DeletePod goes on with the number of targets acted on and the last of them, or it ends.
pub data Loop (S : Type 0) : Type 0 where
  go : (acted : ℤ) (acted_pod : String) → Run S → Loop S
  halt : Option ApiError → (acted_pod : String) → Run S → Loop S

module _ {S : Type 0} (env : Env S) where
  -- `rolloutRestart`.
  unfoldable pub rollout : Deployment → Time → Run S → Option ApiError × Run S
  rollout dep now r =
      write env (patch_deployment dep.meta.namespace dep.meta.name (restart_patch env.lib now)) r

  -- What the answer to a deletion does to the loop.
  unfoldable pub deleted : Option ApiError → ℤ → String → String → Run S → Loop S
  deleted none acted acted_pod name r = go (inc32 acted) name r
  deleted (some not_found) acted acted_pod name r = go acted acted_pod r
  deleted (some (failed e)) acted acted_pod name r = halt (some (failed e)) acted_pod r

  -- One round of the loop.
  unfoldable pub delete_one : String → ℤ → Bool → PodState → ℤ → String → Run S → Loop S
  delete_one ns limit dry_run s acted acted_pod r =
      if leb_ℤ limit acted
      then halt none acted_pod r
      else (if dry_run
          then go (inc32 acted) s.pod_name r
          else (let (e, r') = write env (Env.delete_pod ns s.pod_name) r in
              deleted e acted acted_pod s.pod_name r'))

  -- The loop over the unhealthy pods: an error if one ends it, and the last pod acted on.
  unfoldable pub delete_targets :
      String → ℤ → Bool → List PodState → ℤ → String → Run S → Option ApiError × String × Run S
  delete_targets ns limit dry_run [] acted acted_pod r = (none, acted_pod, r)
  delete_targets ns limit dry_run (s ∷ rest) acted acted_pod r =
      elim (delete_one ns limit dry_run s acted acted_pod r) [
        | go acted' pod' r' ↦ delete_targets ns limit dry_run rest acted' pod' r'
        | halt e pod' r' ↦ (e, pod', r')
      ]

  -- The `switch` of `remediate`: the error, if any, and the pod acted on. `s` is `unhealthy[0]`.
  unfoldable pub act :
      RemediationStrategy
      → HotSwapPolicy
      → Deployment
      → PodState
      → List PodState
      → RemediationSpec
      → Run S
      → Option ApiError × String × Run S
  act rollout_restart policy dep s rest spec r =
      if spec.dry_run
      then (none, s.pod_name, r)
      else (let (e, r') = rollout dep env.now r in (e, s.pod_name, r'))
  act delete_pod policy dep s rest spec r =
      delete_targets policy.meta.namespace (concurrency spec.max_concurrent) spec.dry_run (s ∷ rest)
        (pos 0) "" r
  act _ policy dep s rest spec r = (none, "", r)

  -- The status after a remediation.
  unfoldable pub record_remediation :
      RemediationStrategy → String → RemediationSpec → HotSwapPolicy → HotSwapPolicy
  record_remediation strategy acted_pod spec policy =
      let last : RemediationRecord = record {
        pod_name = acted_pod;
        strategy = strategy;
        time = env.now;
        reason =
            if spec.dry_run
            then "hotswapProbe health regression (dry-run)"
            else "hotswapProbe health regression";
      } in
      record policy {
        status = record policy.status {
          consecutive_attempts = inc32 policy.status.consecutive_attempts;
          last_remediation = some last;
        };
      }

  -- `"<prefix> %q via %s (attempt %d)"`.
  unfoldable pub remediation_message : String → String → RemediationStrategy → ℤ → String
  remediation_message prefix acted_pod strategy attempts =
      prefix
      ++ (env.lib.quote acted_pod
          ++ (" via "
              ++ (strategy_text strategy ++ (" (attempt " ++ (env.lib.decimal attempts ++ ")")))))

  -- `remediate` after the switch.
  unfoldable pub report :
      RemediationStrategy → String → RemediationSpec → HotSwapPolicy → Run S → HotSwapPolicy × Run S
  report strategy acted_pod spec policy r =
      let recorded = record_remediation strategy acted_pod spec policy in
      let attempts = recorded.status.consecutive_attempts in
      let ns = policy.meta.namespace in
      if spec.dry_run
      then (let msg = remediation_message "dry-run: would remediate " acted_pod strategy attempts in
          (
            set_remediating env.lib recorded msg,
            note (emit "Normal" reason_dry_run msg)
                (note (inc_dry_run ns policy.meta.name strategy) r),
          ))
      else (let msg = remediation_message "remediated " acted_pod strategy attempts in
          (
            set_remediating env.lib recorded msg,
            note (emit "Normal" reason_remediating msg)
                (note (inc_remediations ns policy.meta.name strategy) r),
          ))

  abbrev pub reported :
      RemediationStrategy
      → RemediationSpec
      → HotSwapPolicy
      → Option ApiError
      → String
      → Run S
      → Option ApiError × HotSwapPolicy × Run S
  reported strategy spec policy (some e) acted_pod r = (some e, policy, r)
  reported strategy spec policy none acted_pod r =
      let (policy', r') = report strategy acted_pod spec policy r in (none, policy', r')

  -- `remediate`.
  unfoldable pub remediate :
      HotSwapPolicy
      → Deployment
      → RemediationStrategy
      → PodState
      → List PodState
      → RemediationSpec
      → Run S
      → Option ApiError × HotSwapPolicy × Run S
  remediate policy dep strategy s rest spec r =
      let (e, acted_pod, r') = act strategy policy dep s rest spec r in
      reported strategy spec policy e acted_pod r'
