-- ===== src/Controller/Reconcile/Calls.antt =====
-- What the calls of the prober preserve, a run preserves.
use hotswap_operator.Prelude.{String, List, [], ◌∷◌, str_eq, Result, ok, err, Bool-cases, inl, inr}
use hotswap_operator.Api.Kube.{NamespacedName, Deployment, Pod, is_zero}
use hotswap_operator.Api.{HotSwapPolicy}
use hotswap_operator.Prober.Config.{ProbeConfig, PodTarget}
use hotswap_operator.Controller.Env.{ApiError, not_found, failed, Env, Run}
use hotswap_operator.Controller.Status.{targets_of, is_pod_ready}
use hotswap_operator.Controller.Overlap.{conflicting_policy}
use hotswap_operator.Controller.Reconcile.{
  finalizer_name, finalize, adopt, mark_ready, with_pods, with_selector, with_winner,
  with_deployment, with_probe, with_policy, reconcile,
}
use hotswap_operator.Controller.Reconcile.Gates.{answered_effects}
use hotswap_operator.Controller.Reconcile.Untouched.{finish_state, observe_state}

module _ {S : Type 0} (env : Env S) where
  open env use {lib, cluster, prober}

  -- What each call of the prober preserves, a run preserves.
  module _ (P : S → Type 0)
      (syncs : (nn : NamespacedName) (cfg : ProbeConfig) (ts : List PodTarget) (s : S)
        → P s
        → P (prober.sync nn cfg ts s))
      (marks : (nn : NamespacedName) (uid : String) (s : S)
        → P s
        → P (prober.set_seen_ready nn uid s))
      (reads : (nn : NamespacedName) (s : S) → P s → P (prober.snapshot nn s).1)
      (forgets : (nn : NamespacedName) (s : S) → P s → P (prober.forget nn s)) where
    mark_ready_keeps :
        (nn : NamespacedName) (pods : List Pod) (s : S) → P s → P (mark_ready env nn pods s)
    unfolding mark_ready
    mark_ready_keeps nn [] s h = h
    mark_ready_keeps nn (p ∷ rest) s h =
        mark_ready_keeps nn rest _ (elim (Bool-cases (is_pod_ready p)) [
          | inl ready ↦ rw ready (marks nn p.meta.uid s h)
          | inr unready ↦ rw unready h
        ])

    pub observed_keeps :
        (nn : NamespacedName) (cfg : ProbeConfig) (pods : List Pod) (s : S)
        → P s
        → P (mark_ready env nn pods (prober.sync nn cfg (targets_of pods) s))
    observed_keeps nn cfg pods s h = mark_ready_keeps nn pods _ (syncs nn cfg (targets_of pods) s h)

    with_pods_keeps :
        (nn : NamespacedName) (policy : HotSwapPolicy) (cfg : ProbeConfig) (dep : Deployment)
        (res : Result ApiError (List Pod)) (r : Run S)
        → P r.state
        → P (with_pods env nn policy cfg dep res r).2.state
    unfolding with_pods
    with_pods_keeps nn policy cfg dep (err e) r h = h
    with_pods_keeps nn policy cfg dep (ok pods) r h =
        rw (observe_state env nn policy cfg dep pods r)
          (reads nn _ (observed_keeps nn cfg pods r.state h))

    with_selector_keeps :
        (nn : NamespacedName) (policy : HotSwapPolicy) (cfg : ProbeConfig) (dep : Deployment)
        (res : Result String String) (r : Run S)
        → P r.state
        → P (with_selector env nn policy cfg dep res r).2.state
    unfolding with_selector
    with_selector_keeps nn policy cfg dep (err e) r h = rw (finish_state env _ _ r) h
    with_selector_keeps nn policy cfg dep (ok selector) r h =
        with_pods_keeps nn policy cfg dep (cluster.list_pods nn.namespace selector) r h

    with_winner_keeps :
        (nn : NamespacedName) (policy : HotSwapPolicy) (cfg : ProbeConfig) (dep : Deployment)
        (res : Result ApiError String) (r : Run S)
        → P r.state
        → P (with_winner env nn policy cfg dep res r).2.state
    unfolding with_winner
    with_winner_keeps nn policy cfg dep (err e) r h = h
    with_winner_keeps nn policy cfg dep (ok winner) r h = elim (Bool-cases (str_eq winner "")) [
      | inl none_ ↦ rw none_ (with_selector_keeps nn policy cfg dep _ r h)
      | inr some_ ↦ rw (some_, finish_state) (forgets nn r.state h)
    ]

    with_deployment_keeps :
        (nn : NamespacedName) (policy : HotSwapPolicy) (cfg : ProbeConfig)
        (res : Result ApiError Deployment) (r : Run S)
        → P r.state
        → P (with_deployment env nn policy cfg res r).2.state
    unfolding with_deployment
    with_deployment_keeps nn policy cfg (err not_found) r h = rw finish_state (forgets nn r.state h)
    with_deployment_keeps nn policy cfg (err (failed e)) r h = h
    with_deployment_keeps nn policy cfg (ok dep) r h =
        with_winner_keeps nn policy cfg dep (conflicting_policy cluster policy) r h

    with_probe_keeps :
        (nn : NamespacedName) (policy : HotSwapPolicy) (res : Result String ProbeConfig) (r : Run S)
        → P r.state
        → P (with_probe env nn policy res r).2.state
    unfolding with_probe
    with_probe_keeps nn policy (err e) r h = rw (finish_state env _ _ r) h
    with_probe_keeps nn policy (ok cfg) r h = with_deployment_keeps nn policy cfg _ r h

    finalize_keeps :
        (nn : NamespacedName) (policy : HotSwapPolicy) (r : Run S)
        → P r.state
        → P (finalize env nn policy r).2.state
    unfolding finalize
    finalize_keeps nn policy r h =
        elim (Bool-cases (lib.contains_finalizer policy.meta.finalizers finalizer_name)) [
          | inl owned ↦ rw (owned, answered_effects) (forgets nn r.state h)
          | inr released ↦ rw released h
        ]

    with_policy_keeps :
        (nn : NamespacedName) (res : Result ApiError HotSwapPolicy) (r : Run S)
        → P r.state
        → P (with_policy env nn res r).2.state
    unfolding with_policy adopt
    with_policy_keeps nn (err e) r h = h
    with_policy_keeps nn (ok policy) r h =
        elim (Bool-cases (is_zero policy.meta.deletion_timestamp)) [
          | inr deleting ↦ rw deleting (finalize_keeps nn policy r h)
          | inl alive ↦
              elim (Bool-cases (lib.contains_finalizer policy.meta.finalizers finalizer_name)) [
                | inr new ↦ rw (alive, new, answered_effects) h
                | inl owned ↦ rw (alive, owned) (with_probe_keeps nn policy _ r h)
              ]
        ]

    pub reconcile_keeps :
        (nn : NamespacedName) (r : Run S) → P r.state → P (reconcile env nn r).2.state
    unfolding reconcile
    reconcile_keeps nn r h = with_policy_keeps nn (cluster.get_policy nn) r h
