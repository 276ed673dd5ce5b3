-- ===== src/System/Verdicts.antt =====
-- From the answers of the checker to the deletion of a pod, through the prober and the reconciler.
use mathlib.Core.List.{Memᴰ, append_assoc}
use mathlib.Core.Path.{subst}
use hotswap_operator.Prelude.{
  ◌⊎◌, inl, inr, ℕ, refl, List, ◌∷◌, ◌++◌, ◌↔◌, false, true, String, ◌≡◌, sym, ap, ◌∙◌, some, [],
}
use hotswap_operator.Api.Kube.{NamespacedName, Deployment, Pod}
use hotswap_operator.Prober.Threshold.{PodEntry}
use hotswap_operator.Prober.Config.{ProbeConfig, PodState}
use hotswap_operator.Prober.Manager.{Worker, Runtime, slot, key, snapshot}
use hotswap_operator.Prober.Manager.Everywhere.{Holds}
use hotswap_operator.Prober.Manager.Interleavings.{Reachable-IsSound}
use hotswap_operator.Prober.Manager.Snapshot.{snapshot_slots}
use hotswap_operator.Prober.Loop.{
  Prober, Turn, enters, delay_over, delay_cancelled, begins, answers, sends, gives_up, ticks, ends,
}
use hotswap_operator.Prober.Loop.Simulation.{Reachable-simulated}
use hotswap_operator.Controller.Env.{Env, Run}
use hotswap_operator.Controller.Reconcile.Gates.{IsQuiet}
use hotswap_operator.Api.{HotSwapPolicy}
use hotswap_operator.Controller.Reconcile.{reconcile}
use hotswap_operator.Controller.Reconcile.Accused.{AreAccused, reconcile-AreAccused}
use hotswap_operator.Controller.Reconcile.Admission.{met_by, IsAdmitted, reconcile_gates}
use hotswap_operator.Controller.Reconcile.Accused.{reconcile-met}
use hotswap_operator.System.{
  Evidence, probed, System, logged, Move, turns, received, stops, Moves, stays, goes_on, IsWired,
  Reachable,
}
use hotswap_operator.System.Refinement.{wired_meets}
use hotswap_operator.System.Results.{results_of, is_shown, Convicted, IsTypedLog}
use hotswap_operator.System.Backing.{Backed, health_verdict}
use hotswap_operator.System.Invariant.{Invariant, moved, syncs, marks, forgets, Reachable-Invariant}

module _ (rt : Runtime) where
  -- A pod of the policy is now called `name`; since it was taken up last its results convict it, and it has been
  -- shown ready.
  abbrev pub IsGuilty : String → System → String → Type 0
  IsGuilty k s name =
      (uid : String) × (pod : PodEntry) × (slot k uid s.prober.manager ≡ some pod)
      × (pod.state.pod_name ≡ name)
      × Convicted (results_of k uid s.log)
      × (is_shown k uid s.log ≡ true)

  -- In any history of the whole system in which the thresholds of the probes are of type `int32`, a known pod counts
  -- as unhealthy exactly if its results since it was taken up convict it: at some probe its failures in a row had
  -- reached the failure threshold of that probe, and since then no successes in a row have reached the success
  -- threshold. It counts as seen ready exactly if it has been shown ready since it was taken up.
  pub verdict_iff :
      (s : System) (k uid : String) (pod : PodEntry)
      → Reachable rt s
      → IsTypedLog s.log
      → slot k uid s.prober.manager ≡ some pod
      → ((pod.state.healthy ≡ false) ↔ Convicted (results_of k uid s.log))
        × (pod.state.seen_ready ≡ is_shown k uid s.log)
  verdict_iff s k uid pod reached typed found =
      let b : Backed s.log k uid pod =
        subst (Holds (Backed s.log k uid)) found ((Reachable-Invariant rt reached).1 typed k uid) in
      (health_verdict (results_of k uid s.log) pod b.supported, b.shown)

  logged-extends :
      (c : ℕ) (w : Worker) (s s' : Prober) (turn : Turn rt c w s s') (log : List Evidence)
      → (later : List Evidence) × (logged rt c w s s' turn log ≡ later ++ log)
  unfolding logged
  logged-extends c w s _ (enters e) log = ([], refl)
  logged-extends c w s _ (delay_over p e) log = ([], refl)
  logged-extends c w s _ (delay_cancelled p e d) log = ([], refl)
  logged-extends c w s _ (begins p e) log = ([], refl)
  logged-extends c w s _ (answers p cfg ip ok now e) log =
      (probed (key rt w.policy) w.uid cfg ok ∷ [], refl)
  logged-extends c w s _ (sends p m e h) log = ([], refl)
  logged-extends c w s _ (gives_up p e d) log = ([], refl)
  logged-extends c w s _ (ticks p e) log = ([], refl)
  logged-extends c w s _ (ends p e d) log = ([], refl)

  Move-log : (s s' : System) → Move rt s s' → (later : List Evidence) × (s'.log ≡ later ++ s.log)
  Move-log s _ (turns c w p running turn) = logged-extends c w s.prober p turn s.log
  Move-log s _ (received nn rest e) = ([], refl)
  Move-log s _ stops = ([], refl)

  -- Moves add to what has become of the pods, and take nothing back.
  Moves-log : (s s' : System) → Moves rt s s' → (later : List Evidence) × (s'.log ≡ later ++ s.log)
  Moves-log s _ stays = ([], refl)
  Moves-log s _ (goes_on {s'} {s''} before move) =
      let (first, e) = Moves-log s s' before in
      let (then_, e') = Move-log s' s'' move in
      (then_ ++ first, e' ∙ ap (λ l. then_ ++ l) e ∙ sym (append_assoc then_ first s.log))

  IsTypedLog-suffix : (later log : List Evidence) → IsTypedLog (later ++ log) → IsTypedLog log
  IsTypedLog-suffix [] log h = h
  IsTypedLog-suffix (e ∷ later) log h = IsTypedLog-suffix later log h.1

  -- A failing pod of a snapshot that has been seen ready is guilty.
  shown-IsGuilty :
      (s : System) (nn : NamespacedName) (st : PodState)
      → Invariant rt s
      → IsTypedLog s.log
      → Memᴰ st (snapshot rt nn s.prober.manager)
      → st.healthy ≡ false
      → st.seen_ready ≡ true
      → IsGuilty (key rt nn) s st.pod_name
  shown-IsGuilty s nn st (loop, backed) typed mem ill seen =
      let tidy = (Reachable-IsSound rt (Reachable-simulated rt loop)).tidy in
      let (uid, pod, found, same) = (snapshot_slots rt nn s.prober.manager st tidy).0 mem in
      let b : Backed s.log (key rt nn) uid pod =
        subst (Holds (Backed s.log (key rt nn) uid)) found (backed typed (key rt nn) uid) in
      (
        uid,
        pod,
        found,
        ap (λ x. x.pod_name) (sym same),
        (health_verdict (results_of (key rt nn) uid s.log) pod b.supported).0
            (ap (λ x. x.healthy) (sym same) ∙ ill),
        sym b.shown ∙ ap (λ x. x.seen_ready) (sym same) ∙ seen,
      )

  -- In any history of the whole system, whatever the goroutines do after each call of a run, also while it calls the
  -- API server, the run attempts no patch and no deletion, or it has passed every gate with the pods that the server
  -- has listed, and then each pod that it asks to delete, and some pod where it patches the Deployment, was in the
  -- state that its `Snapshot` has met, from which moves of the goroutines have led to the one at its end, a pod of the
  -- policy that since it was taken up had been shown ready and was convicted by its probes: at some probe its failures
  -- in a row had reached the failure threshold of that probe, and from then up to the snapshot no successes in a row
  -- had reached the success threshold. Successes that come while the run calls the API server do not count. The
  -- thresholds of the probes are of type `int32`.
  pub no_innocent :
      (s : System) (env : Env System) (nn : NamespacedName)
      → Reachable rt s
      → IsWired rt env
      → IsTypedLog (reconcile env nn (record { state = s; effects = [] })).2.state.log
      → let r : Run System = record { state = s; effects = [] } in
        let o = reconcile env nn r in
        IsQuiet env r o
        ⊎ ((policy : HotSwapPolicy) × (cfg : ProbeConfig) × (dep : Deployment) × (pods : List Pod)
            × IsAdmitted env nn r policy cfg dep pods
            × Moves rt (met_by env nn cfg pods r) o.2.state
            × AreAccused (IsGuilty (key rt nn) (met_by env nn cfg pods r)) o.2.effects)
  no_innocent s env nn reached w typed =
      let r : Run System = record { state = s; effects = [] } in
      let o = reconcile env nn r in
      elim (reconcile_gates env nn r) [
        | inl quiet ↦ inl quiet
        | inr (policy, cfg, dep, pods, a) ↦
            let met = met_by env nn cfg pods r in
            let end : o.2.state ≡ w.between met =
              reconcile-met env nn r policy cfg dep pods a
              ∙ ap (λ src. (src.snapshot nn met).1) w.wired in
            let after : Moves rt met o.2.state = subst (Moves rt met) (sym end) (w.moving met) in
            let (later, grown) = Moves-log met o.2.state after in
            let typed' = IsTypedLog-suffix later met.log (subst IsTypedLog grown typed) in
            let invariant =
              wired_meets rt (Invariant rt) (moved rt) (syncs rt) (marks rt) (forgets rt) env nn cfg
                pods r w (Reachable-Invariant rt reached) in
            inr (
              policy,
              cfg,
              dep,
              pods,
              a,
              after,
              reconcile-AreAccused (IsGuilty (key rt nn) met) env nn s policy cfg dep pods a
                  (λ st mem.
                    shown-IsGuilty met nn st invariant typed'
                      (subst (λ src. Memᴰ st (src.snapshot nn met).0) w.wired mem)),
            )
      ]
