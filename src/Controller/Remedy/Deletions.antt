-- ===== src/Controller/Remedy/Deletions.antt =====
-- How much one call of `remediate` disturbs the workload.
use hotswap_operator.Prelude.{
  set_or, ℕ, suc, ◌+◌, ◌-◌, ◌≤◌, ℤ, pos, ◌≤ℤ◌, max_int32, inc32, inc32_pos, String, Bool, true, ◌≡◌,
  refl, ap, ◌∙◌, Option, none, some, List, [], ◌∷◌, arith,
}
use hotswap_operator.Api.Kube.{Deployment}
use hotswap_operator.Api.{
  HotSwapPolicy, RemediationStrategy, auto, rollout_restart, delete_pod, unknown, RemediationSpec,
}
use hotswap_operator.Prober.Config.{PodState}
use hotswap_operator.Controller.Env
use hotswap_operator.Controller.Env.{ApiError, Env, Run, note}
use hotswap_operator.Controller.Effects.{disruptions, carried_out}
use hotswap_operator.Controller.Remedy.{
  rollout, deleted, delete_one, delete_targets, concurrency, act, report, reported, remediate,
}

-- The limit as a number of pods.
abbrev pub allowed : ℤ → ℕ
allowed v = set_or v 1

concurrency_lem : (v : ℤ) → concurrency v ≡ pos (allowed v)
unfolding concurrency
concurrency_lem v = ground arith

allowed_pos : (v : ℤ) → 1 ≤ allowed v
unfolding concurrency
allowed_pos v = ground arith

allowed-le : (v : ℤ) → v ≤ℤ pos max_int32 → allowed v ≤ max_int32
unfolding concurrency
allowed-le v h = ground arith

module _ {S : Type 0} (env : Env S) where
  -- The loop, begun with `n` targets acted on, carries out `limit - n` deletions at most.
  delete_targets_bound :
      (ns : String) (limit : ℕ) (dry : Bool) (pods : List PodState) (n : ℕ) (pod : String)
      (r : Run S)
      → limit ≤ max_int32
      → carried_out env.cluster (delete_targets env ns (pos limit) dry pods (pos n) pod r).2.effects
        ≤ carried_out env.cluster r.effects + (limit - n)
  unfolding delete_targets delete_one deleted
  delete_targets_bound ns limit dry [] n pod r h = omega arith
  delete_targets_bound ns limit dry (s ∷ rest) n pod r h =
      let r' = note (Env.delete_pod ns s.pod_name) r in
      ground (
        arith,
        inc32_pos n,
        delete_targets_bound ns limit dry rest (suc n) s.pod_name r h,
        delete_targets_bound ns limit dry rest (suc n) s.pod_name r' h,
        delete_targets_bound ns limit dry rest n pod r' h,
      )

  -- A dry run of the loop does nothing outside.
  delete_targets_dry :
      (ns : String) (limit : ℤ) (pods : List PodState) (acted : ℤ) (pod : String) (r : Run S)
      → (delete_targets env ns limit true pods acted pod r).2 ≡ r
  unfolding delete_targets delete_one
  delete_targets_dry ns limit [] acted pod r = refl
  delete_targets_dry ns limit (s ∷ rest) acted pod r =
      ground (arith, delete_targets_dry ns limit rest (inc32 acted) s.pod_name r)

  -- What is written after the action disturbs nothing.
  pub reported_quiet :
      (strategy : RemediationStrategy) (spec : RemediationSpec) (policy : HotSwapPolicy)
      (e : Option ApiError) (pod : String) (r : Run S)
      → let r' = (reported env strategy spec policy e pod r).2 in
        (carried_out env.cluster r'.effects ≡ carried_out env.cluster r.effects)
        × (disruptions r'.effects ≡ disruptions r.effects)
  unfolding report
  reported_quiet strategy spec policy (some e) pod r = (refl, refl)
  reported_quiet strategy spec policy none pod r = ground arith

  act_bound :
      (policy : HotSwapPolicy) (dep : Deployment) (strategy : RemediationStrategy) (s : PodState)
      (rest : List PodState) (spec : RemediationSpec) (r : Run S)
      → spec.max_concurrent ≤ℤ pos max_int32
      → let r' = (act env strategy policy dep s rest spec r).2 in
        carried_out env.cluster r'.effects
        ≤ carried_out env.cluster r.effects + allowed spec.max_concurrent
  unfolding act rollout
  act_bound policy dep rollout_restart s rest spec r h =
      ground (arith, allowed_pos spec.max_concurrent)
  act_bound policy dep delete_pod s rest spec r h = rw (concurrency_lem spec.max_concurrent) (
      omega (
        arith,
        delete_targets_bound policy.meta.namespace (allowed spec.max_concurrent) spec.dry_run
            (s ∷ rest) 0 "" r (allowed-le spec.max_concurrent h),
      ))
  act_bound policy dep auto s rest spec r h = omega arith
  act_bound policy dep (unknown x) s rest spec r h = omega arith

  act_dry :
      (policy : HotSwapPolicy) (dep : Deployment) (strategy : RemediationStrategy) (s : PodState)
      (rest : List PodState) (spec : RemediationSpec) (r : Run S)
      → spec.dry_run ≡ true
      → (act env strategy policy dep s rest spec r).2 ≡ r
  unfolding act
  act_dry policy dep rollout_restart s rest spec r d = rw d
  act_dry policy dep delete_pod s rest spec r d = rw d (
      delete_targets_dry policy.meta.namespace (concurrency spec.max_concurrent) (s ∷ rest) (pos 0)
        "" r)
  act_dry policy dep auto s rest spec r d = refl
  act_dry policy dep (unknown x) s rest spec r d = refl

  pub remediate_dry :
      (policy : HotSwapPolicy) (dep : Deployment) (strategy : RemediationStrategy) (s : PodState)
      (rest : List PodState) (spec : RemediationSpec) (r : Run S)
      → spec.dry_run ≡ true
      → disruptions (remediate env policy dep strategy s rest spec r).2.effects
        ≡ disruptions r.effects
  unfolding remediate
  remediate_dry policy dep strategy s rest spec r dry =
      let (e, pod, r') = act env strategy policy dep s rest spec r in
      (reported_quiet strategy spec policy e pod r').1
      ∙ ap (λ x. disruptions x.effects) (act_dry policy dep strategy s rest spec r dry)

  -- Where `maxConcurrent` is an `int32`, a remediation carries out at most as many restarts and deletions, taken
  -- together, as it says (one where it is not positive); and a dry run attempts none.
  pub remediate_bound :
      (policy : HotSwapPolicy) (dep : Deployment) (strategy : RemediationStrategy) (s : PodState)
      (rest : List PodState) (spec : RemediationSpec) (r : Run S)
      → spec.max_concurrent ≤ℤ pos max_int32
      → let r' = (remediate env policy dep strategy s rest spec r).2 in
        (carried_out env.cluster r'.effects
          ≤ carried_out env.cluster r.effects + allowed spec.max_concurrent)
        × (spec.dry_run ≡ true → disruptions r'.effects ≡ disruptions r.effects)
  unfolding remediate
  remediate_bound policy dep strategy s rest spec r h =
      let (e, pod, r') = act env strategy policy dep s rest spec r in
      let (carried, tried) = reported_quiet strategy spec policy e pod r' in
      (
        omega (arith, act_bound policy dep strategy s rest spec r h),
        remediate_dry policy dep strategy s rest spec r,
      )
