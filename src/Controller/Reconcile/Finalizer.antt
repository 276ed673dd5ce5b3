-- ===== src/Controller/Reconcile/Finalizer.antt =====
-- The beginning of `Reconcile`, where the finalizer is added and removed, also with the manager as the prober.
use hotswap_operator.Prelude.{ℕ, String, Bool, true, false, ◌≡◌, refl, sym, ap, ◌∙◌, ◌∷◌, ok}
use hotswap_operator.Api.Kube.{NamespacedName, is_zero}
use hotswap_operator.Api.{HotSwapPolicy}
use hotswap_operator.Prober.Manager.{Manager, Runtime, key, sync, set_seen_ready, snapshot, forget}
use hotswap_operator.Prober.Manager.Workers.{Probes, no_pod}
use hotswap_operator.Prober.Manager.Interleavings.{Reachable, Reachable-IsSound}
use hotswap_operator.Prober.Manager.Removal.{forget-IsSound}
use hotswap_operator.Controller.Env.{Env, Run, Outcome, note, no_result, update_policy, ProbeSource}
use hotswap_operator.Controller.Reconcile.{
  finalizer_name, with_finalizers, finalize, adopt, with_policy, reconcile,
}
use hotswap_operator.Controller.Reconcile.Gates.{answered_effects}

module _ {S : Type 0} (env : Env S) where
  open env use {lib, cluster, prober}

  -- The run has one effect: it writes the policy, whose finalizers then hold this one or do not.
  abbrev pub Writes : Run S → Bool → Outcome S → Type 0
  Writes r held o =
      (p : HotSwapPolicy) × (o.2.effects ≡ update_policy p ∷ r.effects)
      × (lib.contains_finalizer p.meta.finalizers finalizer_name ≡ held)

  adopt_asks :
      (policy : HotSwapPolicy) (r : Run S)
      → Writes r true (adopt env policy r) × ((adopt env policy r).2.state ≡ r.state)
  unfolding adopt
  adopt_asks policy r =
      let held = lib.add_finalizer policy.meta.finalizers finalizer_name in
      let same = answered_effects env _ _ _ in
      (
        (
          with_finalizers policy held,
          ap (λ x. x.effects) same,
          lib.contains-add policy.meta.finalizers finalizer_name,
        ),
        ap (λ x. x.state) same,
      )

  finalize_asks :
      (nn : NamespacedName) (policy : HotSwapPolicy) (r : Run S)
      → lib.contains_finalizer policy.meta.finalizers finalizer_name ≡ true
      → Writes r false (finalize env nn policy r)
        × ((finalize env nn policy r).2.state ≡ prober.forget nn r.state)
  unfolding finalize
  finalize_asks nn policy r owned =
      let free = lib.remove_finalizer policy.meta.finalizers finalizer_name in
      let released = with_finalizers policy free in
      let forgotten = record r { state = prober.forget nn r.state } in
      let same =
        answered_effects env (cluster.answer r.effects (update_policy released)) no_result
          (note (update_policy released) forgotten) in
      rw (finalize, owned)
        (
          (
            released,
            ap (λ x. x.effects) same,
            lib.contains-remove policy.meta.finalizers finalizer_name,
          ),
          ap (λ x. x.state) same,
        )

  -- A policy without the finalizer is not acted for: the run asks the server to store the finalizer and leaves
  -- the prober alone. A policy that is being deleted, with the finalizer, is forgotten by the prober, and the
  -- run asks the server to remove the finalizer.
  pub reconcile_finalizer :
      (nn : NamespacedName) (policy : HotSwapPolicy) (r : Run S)
      → cluster.get_policy nn ≡ ok policy
      → (is_zero policy.meta.deletion_timestamp ≡ true
          → lib.contains_finalizer policy.meta.finalizers finalizer_name ≡ false
          → Writes r true (reconcile env nn r) × ((reconcile env nn r).2.state ≡ r.state))
        × (is_zero policy.meta.deletion_timestamp ≡ false
            → lib.contains_finalizer policy.meta.finalizers finalizer_name ≡ true
            → Writes r false (reconcile env nn r)
              × ((reconcile env nn r).2.state ≡ prober.forget nn r.state))
  unfolding reconcile with_policy
  reconcile_finalizer nn policy r found = (
    λ alive new. rw (found, with_policy, alive, new) (adopt_asks policy r),
    λ deleting owned. rw (found, with_policy, deleting) (finalize_asks nn policy r owned),
  )

-- The manager as the reconciler's source of verdicts, as cmd/main.go wires them.
abbrev pub manager_source : Runtime → ProbeSource Manager
manager_source rt = record {
  sync = sync rt;
  set_seen_ready = set_seen_ready rt;
  snapshot = λ nn m. (snapshot rt nn m, m);
  forget = forget rt;
}

-- When the manager is the prober, in any state that it can reach, a run for a policy that is being deleted, with
-- the finalizer, leaves no goroutine that probes for the policy and is not cancelled.
pub deleted_policy_is_quiet :
    (rt : Runtime) (env : Env Manager) (nn : NamespacedName) (policy : HotSwapPolicy)
    (r : Run Manager)
    → env.prober ≡ manager_source rt
    → env.cluster.get_policy nn ≡ ok policy
    → is_zero policy.meta.deletion_timestamp ≡ false
    → env.lib.contains_finalizer policy.meta.finalizers finalizer_name ≡ true
    → Reachable rt r.state
    → (uid : String) (c : ℕ) → Probes rt (reconcile env nn r).2.state (key rt nn) uid c
    → ⊥
deleted_policy_is_quiet rt env nn policy r wired found deleting owned reached uid c probes =
    let (_, state) = ((reconcile_finalizer env nn policy r found).1 deleting owned) in
    let state' : (reconcile env nn r).2.state ≡ forget rt nn r.state =
      state ∙ ap (λ p. p.forget nn r.state) wired in
    let (sound', gone) = forget-IsSound rt nn r.state (Reachable-IsSound rt reached) in
    let probes' : Probes rt (forget rt nn r.state) (key rt nn) uid c = rw⁻¹ state' probes in
    let (pod, held, _) = sound'.owned c _ probes'.running probes'.live in
    no_pod (key rt nn) uid (key rt probes'.nn) uid (forget rt nn r.state) (sym probes'.known) refl
      (gone uid) held
