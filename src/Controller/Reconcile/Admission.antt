-- ===== src/Controller/Reconcile/Admission.antt =====
-- The way to the gates: the policy, its probe, its Deployment, its rivals and its pods.
use hotswap_operator.Prelude.{
  String, true, ◌≡◌, refl, ap, ◌⊎◌, inl, inr, List, str_eq, str_eq_iff, Result, ok, err, Bool-cases,
}
use hotswap_operator.Api.Kube.{NamespacedName, Deployment, Pod, is_zero}
use hotswap_operator.Api.{HotSwapPolicy}
use hotswap_operator.Prober.Config.{ProbeConfig, PodState}
use hotswap_operator.Controller.Logic.{normalize_probe}
use hotswap_operator.Controller.Env.{ApiError, not_found, failed, Env, Run}
use hotswap_operator.Controller.Effects.{disruptions}
use hotswap_operator.Controller.Status.{targets_of}
use hotswap_operator.Controller.Overlap.{conflicting_policy}
use hotswap_operator.Controller.Reconcile.{
  finalizer_name, finalize, adopt, mark_ready, observe, with_pods, with_selector, with_winner,
  with_deployment, with_probe, with_policy, reconcile,
}
use hotswap_operator.Controller.Reconcile.Gates.{
  IsQuiet, answered_effects, finish-IsQuiet, IsDue, decide_cases,
}

module _ {S : Type 0} (env : Env S) where
  open env use {lib, cluster, prober}

  -- The prober as `Snapshot` meets it in the run.
  abbrev pub met_by : NamespacedName → ProbeConfig → List Pod → Run S → S
  met_by nn cfg pods r = mark_ready env nn pods (prober.sync nn cfg (targets_of pods) r.state)

  -- What the prober reports in the run.
  abbrev pub snapshot_of : NamespacedName → ProbeConfig → List Pod → Run S → List PodState
  snapshot_of nn cfg pods r = (prober.snapshot nn (met_by nn cfg pods r)).0

  observe_cases :
      (nn : NamespacedName) (policy : HotSwapPolicy) (cfg : ProbeConfig) (dep : Deployment)
      (pods : List Pod) (r : Run S)
      → IsQuiet env r (observe env nn policy cfg dep pods r)
        ⊎ IsDue env policy dep (snapshot_of nn cfg pods r)
  unfolding observe
  observe_cases nn policy cfg dep pods r =
      elim (decide_cases env nn _ cfg dep (snapshot_of nn cfg pods r) _) [
        | inl quiet ↦ inl quiet
        | inr due ↦ inr (record {
          progressing = due.progressing;
          failing = due.failing;
          contained = due.contained;
          stable = due.stable;
          ready = record {
            closed = due.ready.closed;
            cooled = due.ready.cooled;
            live = due.ready.live;
          };
        })
      ]

  -- All the gates of a run, in the order in which it meets them.
  pub record IsAdmitted (nn : NamespacedName) (r : Run S) (policy : HotSwapPolicy)
      (cfg : ProbeConfig) (dep : Deployment) (pods : List Pod) : Type 0 where
    pub found : cluster.get_policy nn ≡ ok policy
    pub alive : is_zero policy.meta.deletion_timestamp ≡ true
    pub owned : lib.contains_finalizer policy.meta.finalizers finalizer_name ≡ true
    pub probe : normalize_probe policy.spec.hotswap_probe ≡ ok cfg
    pub target :
        cluster.get_deployment
          (record { namespace = nn.namespace; name = policy.spec.target_ref.name })
        ≡ ok dep
    pub unrivalled : conflicting_policy cluster policy ≡ ok ""
    pub listed :
        (selector : String) × (lib.label_selector_as_selector dep.selector ≡ ok selector)
        × (cluster.list_pods nn.namespace selector ≡ ok pods)
    pub due : IsDue env policy dep (snapshot_of nn cfg pods r)

  module _ (nn : NamespacedName) (r : Run S) where
    with_pods_cases :
        (policy : HotSwapPolicy) (cfg : ProbeConfig) (dep : Deployment)
        (res : Result ApiError (List Pod))
        → IsQuiet env r (with_pods env nn policy cfg dep res r)
          ⊎ ((pods : List Pod) × (res ≡ ok pods) × IsDue env policy dep (snapshot_of nn cfg pods r))
    unfolding with_pods
    with_pods_cases policy cfg dep (err e) = inl refl
    with_pods_cases policy cfg dep (ok pods) = elim (observe_cases nn policy cfg dep pods r) [
      | inl quiet ↦ inl quiet
      | inr due ↦ inr (pods, refl, due)
    ]

    with_selector_cases :
        (policy : HotSwapPolicy) (cfg : ProbeConfig) (dep : Deployment) (res : Result String String)
        → IsQuiet env r (with_selector env nn policy cfg dep res r)
          ⊎ ((selector : String) × (pods : List Pod) × (res ≡ ok selector)
              × (cluster.list_pods nn.namespace selector ≡ ok pods)
              × IsDue env policy dep (snapshot_of nn cfg pods r))
    unfolding with_selector
    with_selector_cases policy cfg dep (err e) = inl (finish-IsQuiet env _ _ r)
    with_selector_cases policy cfg dep (ok selector) =
        elim (with_pods_cases policy cfg dep (cluster.list_pods nn.namespace selector)) [
          | inl quiet ↦ inl quiet
          | inr (pods, e, due) ↦ inr (selector, pods, refl, e, due)
        ]

    with_winner_cases :
        (policy : HotSwapPolicy) (cfg : ProbeConfig) (dep : Deployment)
        (res : Result ApiError String)
        → IsQuiet env r (with_winner env nn policy cfg dep res r)
          ⊎ ((selector : String) × (pods : List Pod) × (res ≡ ok "")
              × (lib.label_selector_as_selector dep.selector ≡ ok selector)
              × (cluster.list_pods nn.namespace selector ≡ ok pods)
              × IsDue env policy dep (snapshot_of nn cfg pods r))
    unfolding with_winner
    with_winner_cases policy cfg dep (err e) = inl refl
    with_winner_cases policy cfg dep (ok winner) = elim (Bool-cases (str_eq winner "")) [
      | inl self ↦
          elim (with_selector_cases policy cfg dep (lib.label_selector_as_selector dep.selector)) [
            | inl quiet ↦ inl (rw self quiet)
            | inr (selector, pods, e, l, due) ↦
                inr (selector, pods, ap ok ((str_eq_iff winner "").0 self), e, l, due)
          ]
      | inr other ↦ inl (rw other (finish-IsQuiet env _ _ _))
    ]

    with_deployment_cases :
        (policy : HotSwapPolicy) (cfg : ProbeConfig) (res : Result ApiError Deployment)
        → IsQuiet env r (with_deployment env nn policy cfg res r)
          ⊎ ((dep : Deployment) × (selector : String) × (pods : List Pod) × (res ≡ ok dep)
              × (conflicting_policy cluster policy ≡ ok "")
              × (lib.label_selector_as_selector dep.selector ≡ ok selector)
              × (cluster.list_pods nn.namespace selector ≡ ok pods)
              × IsDue env policy dep (snapshot_of nn cfg pods r))
    unfolding with_deployment
    with_deployment_cases policy cfg (err not_found) = inl (finish-IsQuiet env _ _ _)
    with_deployment_cases policy cfg (err (failed e)) = inl refl
    with_deployment_cases policy cfg (ok dep) =
        elim (with_winner_cases policy cfg dep (conflicting_policy cluster policy)) [
          | inl quiet ↦ inl quiet
          | inr (selector, pods, w, e, l, due) ↦ inr (dep, selector, pods, refl, w, e, l, due)
        ]

    -- The gates behind the finalizer.
    Passed : HotSwapPolicy → Result String ProbeConfig → Type 0
    Passed policy probe =
        (cfg : ProbeConfig) × (dep : Deployment) × (selector : String) × (pods : List Pod) × (probe
          ≡ ok cfg)
        × (cluster.get_deployment
              (record { namespace = nn.namespace; name = policy.spec.target_ref.name })
            ≡ ok dep)
        × (conflicting_policy cluster policy ≡ ok "")
        × (lib.label_selector_as_selector dep.selector ≡ ok selector)
        × (cluster.list_pods nn.namespace selector ≡ ok pods)
        × IsDue env policy dep (snapshot_of nn cfg pods r)

    with_probe_cases :
        (policy : HotSwapPolicy) (probe : Result String ProbeConfig)
        → IsQuiet env r (with_probe env nn policy probe r) ⊎ Passed policy probe
    unfolding with_probe Passed
    with_probe_cases policy (err e) = inl (finish-IsQuiet env _ _ r)
    with_probe_cases policy (ok cfg) =
        elim (with_deployment_cases policy cfg (
          cluster.get_deployment
            (record { namespace = nn.namespace; name = policy.spec.target_ref.name }))) [
              | inl quiet ↦ inl quiet
              | inr (dep, selector, pods, d, w, e, l, due) ↦
                  inr (cfg, dep, selector, pods, refl, d, w, e, l, due)
            ]

    finalize-IsQuiet : (policy : HotSwapPolicy) → IsQuiet env r (finalize env nn policy r)
    unfolding finalize
    finalize-IsQuiet policy =
        elim (Bool-cases (lib.contains_finalizer policy.meta.finalizers finalizer_name)) [
          | inl owned ↦ rw owned (ap (λ x. disruptions x.effects) (answered_effects env _ _ _))
          | inr released ↦ rw released
        ]

    with_policy_cases :
        (res : Result ApiError HotSwapPolicy)
        → cluster.get_policy nn ≡ res
        → IsQuiet env r (with_policy env nn res r)
          ⊎ ((policy : HotSwapPolicy) × (cfg : ProbeConfig) × (dep : Deployment) × (pods : List Pod)
              × IsAdmitted nn r policy cfg dep pods)
    unfolding with_policy finalize adopt Passed
    with_policy_cases (err e) g = inl refl
    with_policy_cases (ok policy) g = elim (Bool-cases (is_zero policy.meta.deletion_timestamp)) [
      | inr deleting ↦ inl (rw deleting (finalize-IsQuiet policy))
      | inl alive ↦
          elim (Bool-cases (lib.contains_finalizer policy.meta.finalizers finalizer_name)) [
            | inr new ↦
                inl (rw (alive, new) (ap (λ x. disruptions x.effects) (answered_effects env _ _ _)))
            | inl owned ↦
                elim (with_probe_cases policy (normalize_probe policy.spec.hotswap_probe)) [
                  | inl quiet ↦ inl (rw (alive, owned) quiet)
                  | inr (cfg, dep, selector, pods, p, d, w, e, l, due) ↦ inr (
                    policy,
                    cfg,
                    dep,
                    pods,
                    record {
                      found = g;
                      alive = alive;
                      owned = owned;
                      probe = p;
                      target = d;
                      unrivalled = w;
                      listed = (selector, e, l);
                      due = due;
                    },
                  )
                ]
          ]
    ]

    -- A run that attempts to patch the Deployment or to delete a pod has found its policy, not being deleted and
    -- with the finalizer, a valid probe, the Deployment, no winning rival and the pods; the rollout has not
    -- stalled, some pod that was ready once fails, the failure is not systemic, the Deployment is stable where
    -- that is required, the breaker is closed, the cooldown is over, and it is no dry run.
    pub reconcile_gates :
        IsQuiet env r (reconcile env nn r)
        ⊎ ((policy : HotSwapPolicy) × (cfg : ProbeConfig) × (dep : Deployment) × (pods : List Pod)
            × IsAdmitted nn r policy cfg dep pods)
    unfolding reconcile
    reconcile_gates = with_policy_cases (cluster.get_policy nn) refl
