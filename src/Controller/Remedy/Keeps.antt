-- ===== src/Controller/Remedy/Keeps.antt =====
-- What a patch and a deletion preserve of the effects, the remediation preserves.
use hotswap_operator.Prelude.{
  ℤ, pos, leb_ℤ, String, Bool, ◌≡◌, refl, Option, none, some, List, [], ◌∷◌, Bool-cases, inl, inr,
}
use hotswap_operator.Api.Kube.{Deployment}
use hotswap_operator.Api.{
  HotSwapPolicy, RemediationStrategy, auto, rollout_restart, delete_pod, unknown, RemediationSpec,
}
use hotswap_operator.Prober.Config.{PodState}
use hotswap_operator.Controller.Env
use hotswap_operator.Controller.Env.{
  ApiError, not_found, failed, Env, Run, Effect, patch_deployment, note,
}
use hotswap_operator.Controller.Remedy.{
  Loop, go, halt, concurrency, rollout, deleted, delete_one, delete_targets, act,
}

module _ {S : Type 0} (env : Env S) (P : List Effect → Type 0)
    (patches : (ns name body : String) (es : List Effect)
      → P es
      → P (patch_deployment ns name body ∷ es))
    (deletes : (ns pod : String) (es : List Effect) → P es → P (Env.delete_pod ns pod ∷ es)) where
  open env use {cluster}

  -- The effects so far, at the end of a round of the loop.
  abbrev effects_of : Loop S → List Effect
  effects_of (go n pod r) = r.effects
  effects_of (halt e pod r) = r.effects

  deleted-effects :
      (e : Option ApiError) (n : ℤ) (pod name : String) (r : Run S)
      → effects_of (deleted env e n pod name r) ≡ r.effects
  unfolding deleted
  deleted-effects none n pod name r = refl
  deleted-effects (some not_found) n pod name r = refl
  deleted-effects (some (failed e)) n pod name r = refl

  delete_one_keeps :
      (ns : String) (limit : ℤ) (dry : Bool) (s : PodState) (n : ℤ) (pod : String) (r : Run S)
      → P r.effects
      → P (effects_of (delete_one env ns limit dry s n pod r))
  unfolding delete_one
  delete_one_keeps ns limit dry s n pod r clean = elim (Bool-cases (leb_ℤ limit n)) [
    | inl full ↦ rw full clean
    | inr room ↦ elim (Bool-cases dry) [
      | inl counted ↦ rw (room, counted) clean
      | inr live ↦
          let e = cluster.answer r.effects (Env.delete_pod ns s.pod_name) in
          rw
            (room, live, deleted-effects e n pod s.pod_name (note (Env.delete_pod ns s.pod_name) r))
            (deletes ns s.pod_name r.effects clean)
    ]
  ]

  -- What follows a round.
  loop_keeps :
      (ns : String) (limit : ℤ) (dry : Bool) (rest : List PodState) (round : Loop S)
      → ((n : ℤ) (pod : String) (r : Run S)
          → P r.effects
          → P (delete_targets env ns limit dry rest n pod r).2.effects)
      → P (effects_of round)
      → P
          (elim round as (λ x. Option ApiError × String × Run S) [
            | go n pod r ↦ delete_targets env ns limit dry rest n pod r
            | halt e pod r ↦ (e, pod, r)
          ]).2.effects
  loop_keeps ns limit dry rest (go n pod r) later clean = later n pod r clean
  loop_keeps ns limit dry rest (halt e pod r) later clean = clean

  delete_targets_keeps :
      (ns : String) (limit : ℤ) (dry : Bool) (pods : List PodState) (n : ℤ) (pod : String)
      (r : Run S)
      → P r.effects
      → P (delete_targets env ns limit dry pods n pod r).2.effects
  unfolding delete_targets
  delete_targets_keeps ns limit dry [] n pod r clean = clean
  delete_targets_keeps ns limit dry (s ∷ rest) n pod r clean =
      let round = delete_one env ns limit dry s n pod r in
      loop_keeps ns limit dry rest round
        (λ n' pod' r' c. delete_targets_keeps ns limit dry rest n' pod' r' c)
        (delete_one_keeps ns limit dry s n pod r clean)

  pub act_keeps :
      (strategy : RemediationStrategy) (q : HotSwapPolicy) (dep : Deployment) (s : PodState)
      (rest : List PodState) (spec : RemediationSpec) (r : Run S)
      → P r.effects
      → P (act env strategy q dep s rest spec r).2.effects
  unfolding act rollout
  act_keeps rollout_restart q dep s rest spec r clean = elim (Bool-cases spec.dry_run) [
    | inl dry ↦ rw dry clean
    | inr live ↦ rw live (patches dep.meta.namespace dep.meta.name _ r.effects clean)
  ]
  act_keeps delete_pod q dep s rest spec r clean =
      delete_targets_keeps q.meta.namespace (concurrency spec.max_concurrent) spec.dry_run
        (s ∷ rest) (pos 0) "" r clean
  act_keeps auto q dep s rest spec r clean = clean
  act_keeps (unknown x) q dep s rest spec r clean = clean
