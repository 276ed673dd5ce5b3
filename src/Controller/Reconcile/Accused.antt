-- ===== src/Controller/Reconcile/Accused.antt =====
-- For which pods a run restarts the Deployment or deletes a pod.
use hotswap_operator.Prelude.{
  ℤ, pos, leb_ℤ, String, Bool, true, false, not, ◌&&◌, ◌≡◌, refl, Option, none, some, List, [], ◌∷◌,
  All, arith, Bool-cases, inl, inr,
}
use mathlib.Core.List.{Memᴰ}
use mathlib.Core.Path.{subst}
use hotswap_operator.Api.Kube.{NamespacedName, Deployment, Pod}
use hotswap_operator.Api.{
  HotSwapPolicy, RemediationStrategy, auto, rollout_restart, delete_pod, unknown, RemediationSpec,
}
use hotswap_operator.Prober.Config.{ProbeConfig, PodState}
use hotswap_operator.Controller.Logic.{choose_strategy, effective_replicas}
use hotswap_operator.Controller.Env
use hotswap_operator.Controller.Env.{
  ApiError, not_found, failed, Env, Run, Effect, note, patch_deployment, emit, update_policy,
  update_status, set_targets_total, set_targets_healthy, set_circuit_open, inc_remediations,
  inc_dry_run,
}
use hotswap_operator.Controller.Status.{unhealthy_of}
use hotswap_operator.Controller.Remedy.{
  Loop, go, halt, rollout, deleted, delete_one, delete_targets, act, report, reported, remediate,
}
use hotswap_operator.Controller.Reconcile.{
  with_pods, with_selector, with_winner, with_deployment, with_probe, with_policy, finish,
  remediated, reconcile,
}
use hotswap_operator.Controller.Reconcile.Gates.{answered_effects}
use hotswap_operator.Controller.Reconcile.Admission.{met_by, snapshot_of, IsAdmitted}
use hotswap_operator.Controller.Reconcile.Action.{remedy, reconcile-remedy}
use hotswap_operator.Controller.Reconcile.Untouched.{observe_state}

module _ {S : Type 0} (env : Env S) where
  open env use {lib, cluster, prober}

  -- The last call of the prober in a run that passes the gates is `Snapshot`.
  pub reconcile-met :
      (nn : NamespacedName) (r : Run S) (policy : HotSwapPolicy) (cfg : ProbeConfig)
      (dep : Deployment) (pods : List Pod)
      → IsAdmitted env nn r policy cfg dep pods
      → (reconcile env nn r).2.state ≡ (prober.snapshot nn (met_by env nn cfg pods r)).1
  unfolding reconcile with_policy with_probe with_deployment with_winner with_selector with_pods
  reconcile-met nn r policy cfg dep pods a =
      let (selector, selected, listed) = a.listed in
      rw
        (
          a.found, with_policy, a.alive, a.owned, a.probe, with_probe, a.target, with_deployment,
          a.unrivalled, with_winner, selected, with_selector, listed, with_pods,
        )
        (observe_state env nn policy cfg dep pods r)

module _ (G : String → Type 0) where
  -- A deletion is of a pod with a name in `G`, and a patch is for the sake of some such pod.
  abbrev pub Accuses : Effect → Type 0
  Accuses (Env.delete_pod ns name) = G name
  Accuses (patch_deployment ns name body) = (pod : String) × G pod
  Accuses _ = Unit

  abbrev pub AreAccused : List Effect → Type 0
  AreAccused = All Accuses

  module _ {S : Type 0} (env : Env S) where
    open env use {lib, cluster, prober}

    abbrev run_of : Loop S → Run S
    run_of (go n pod r) = r
    run_of (halt e pod r) = r

    deleted_run :
        (e : Option ApiError) (n : ℤ) (pod name : String) (r : Run S)
        → run_of (deleted env e n pod name r) ≡ r
    unfolding deleted
    deleted_run none n pod name r = refl
    deleted_run (some not_found) n pod name r = refl
    deleted_run (some (failed e)) n pod name r = refl

    delete_one-AreAccused :
        (ns : String) (limit : ℤ) (dry : Bool) (s : PodState) (n : ℤ) (pod : String) (r : Run S)
        → G s.pod_name
        → AreAccused r.effects
        → AreAccused (run_of (delete_one env ns limit dry s n pod r)).effects
    unfolding delete_one
    delete_one-AreAccused ns limit dry s n pod r g a = elim (Bool-cases (leb_ℤ limit n)) [
      | inl full ↦ rw full a
      | inr room ↦ elim (Bool-cases dry) [
        | inl d ↦ rw (room, d) a
        | inr live ↦ rw (room, live, deleted_run) (g, a)
      ]
    ]

    loop-AreAccused :
        (l : Loop S) (ns : String) (limit : ℤ) (dry : Bool) (pods : List PodState)
        → ((n : ℤ) (pod : String) (r : Run S)
            → AreAccused r.effects
            → AreAccused (delete_targets env ns limit dry pods n pod r).2.effects)
        → AreAccused (run_of l).effects
        → let o : Option ApiError × String × Run S = elim l [
          | go n pod r ↦ delete_targets env ns limit dry pods n pod r
          | halt e pod r ↦ (e, pod, r)
        ] in
          AreAccused o.2.effects
    loop-AreAccused (go n pod r) ns limit dry pods rest a = rest n pod r a
    loop-AreAccused (halt e pod r) ns limit dry pods rest a = a

    delete_targets-AreAccused :
        (ns : String) (limit : ℤ) (dry : Bool) (pods : List PodState)
        → All (λ s. G s.pod_name) pods
        → (n : ℤ) (pod : String) (r : Run S) → AreAccused r.effects
        → AreAccused (delete_targets env ns limit dry pods n pod r).2.effects
    unfolding delete_targets
    delete_targets-AreAccused ns limit dry [] g n pod r a = a
    delete_targets-AreAccused ns limit dry (s ∷ rest) g n pod r a =
        loop-AreAccused (delete_one env ns limit dry s n pod r) ns limit dry rest
          (delete_targets-AreAccused ns limit dry rest g.1)
          (delete_one-AreAccused ns limit dry s n pod r g.0 a)

    act-AreAccused :
        (strategy : RemediationStrategy) (policy : HotSwapPolicy) (dep : Deployment) (s : PodState)
        (rest : List PodState) (spec : RemediationSpec) (r : Run S)
        → All (λ s. G s.pod_name) (s ∷ rest)
        → AreAccused r.effects
        → AreAccused (act env strategy policy dep s rest spec r).2.effects
    unfolding act rollout
    act-AreAccused rollout_restart policy dep s rest spec r g a = elim (Bool-cases spec.dry_run) [
      | inl dry ↦ rw dry a
      | inr live ↦ rw live ((s.pod_name, g.0), a)
    ]
    act-AreAccused delete_pod policy dep s rest spec r g a =
        delete_targets-AreAccused _ _ _ (s ∷ rest) g (pos 0) "" r a
    act-AreAccused auto policy dep s rest spec r g a = a
    act-AreAccused (unknown x) policy dep s rest spec r g a = a

    reported-AreAccused :
        (strategy : RemediationStrategy) (spec : RemediationSpec) (policy : HotSwapPolicy)
        (e : Option ApiError) (pod : String) (r : Run S)
        → AreAccused r.effects
        → AreAccused (reported env strategy spec policy e pod r).2.effects
    unfolding report
    reported-AreAccused strategy spec policy (some e) pod r a = a
    reported-AreAccused strategy spec policy none pod r a = elim (Bool-cases spec.dry_run) [
      | inl dry ↦ rw dry (tt, (tt, a))
      | inr live ↦ rw live (tt, (tt, a))
    ]

    remediated-AreAccused :
        (cfg : ProbeConfig) (e : Option ApiError) (p : HotSwapPolicy) (r : Run S)
        → AreAccused r.effects
        → AreAccused (remediated env cfg e p r).2.effects
    unfolding remediated finish
    remediated-AreAccused cfg (some e) p r a = a
    remediated-AreAccused cfg none p r a = rw answered_effects (tt, a)

    remedy-AreAccused :
        (policy : HotSwapPolicy) (cfg : ProbeConfig) (dep : Deployment) (s : PodState)
        (rest : List PodState) (r : Run S)
        → All (λ s. G s.pod_name) (s ∷ rest)
        → AreAccused r.effects
        → AreAccused (remedy env policy cfg dep s rest r).2.effects
    unfolding remediate
    remedy-AreAccused policy cfg dep s rest r g a =
        let spec = policy.spec.remediation in
        let strategy = choose_strategy spec.strategy (effective_replicas dep) in
        let (e, pod, r') = act env strategy policy dep s rest spec r in
        remediated-AreAccused cfg _ _ _ (
          reported-AreAccused strategy spec policy e pod r'
            (act-AreAccused strategy policy dep s rest spec r g a))

    unhealthy_of-All :
        (l : List PodState)
        → ((st : PodState) → Memᴰ st l → st.healthy ≡ false → st.seen_ready ≡ true → G st.pod_name)
        → All (λ s. G s.pod_name) (unhealthy_of l)
    unfolding unhealthy_of
    unhealthy_of-All [] g = tt
    unhealthy_of-All (s ∷ rest) g =
        let others = unhealthy_of-All rest (λ st m. g st (Memᴰ.tail m)) in
        elim (Bool-cases (not s.healthy && s.seen_ready)) [
          | inl fails ↦ rw fails (g s (Memᴰ.head refl) (ground arith) (ground arith), others)
          | inr well ↦ rw well others
        ]

    -- A run that passes the gates deletes only pods that fail in the snapshot that it has read and that have been
    -- seen ready, and patches the Deployment only where there is such a pod.
    pub reconcile-AreAccused :
        (nn : NamespacedName) (s : S) (policy : HotSwapPolicy) (cfg : ProbeConfig)
        (dep : Deployment) (pods : List Pod)
        → let r : Run S = record { state = s; effects = [] } in
          IsAdmitted env nn r policy cfg dep pods
          → ((st : PodState)
              → Memᴰ st (snapshot_of env nn cfg pods r)
              → st.healthy ≡ false
              → st.seen_ready ≡ true
              → G st.pod_name)
          → AreAccused (reconcile env nn r).2.effects
    reconcile-AreAccused nn s policy cfg dep pods a g =
        let r : Run S = record { state = s; effects = [] } in
        let remedies = reconcile-remedy env nn r policy cfg dep pods a in
        let (total, healthy, noted) = remedies.noted in
        let failing =
          subst (All (λ s. G s.pod_name)) remedies.failing
            (unhealthy_of-All (snapshot_of env nn cfg pods r) g) in
        rw remedies.same (
          remedy-AreAccused _ cfg dep remedies.first remedies.others remedies.run failing
            (rw noted (tt, (tt, tt))))
