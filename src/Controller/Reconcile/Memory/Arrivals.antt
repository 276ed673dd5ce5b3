-- ===== src/Controller/Reconcile/Memory/Arrivals.antt =====
-- What a whole run leaves on record of remediations.
use hotswap_operator.Prelude.{String, ◌≡◌, inl, inr, Option, str_eq, Result, ok, err, Bool-cases}
use hotswap_operator.Api.Kube.{NamespacedName, Deployment, is_zero}
use hotswap_operator.Api.{HotSwapPolicy, RemediationRecord}
use hotswap_operator.Prober.Config.{ProbeConfig}
use hotswap_operator.Controller.Logic.{normalize_probe}
use hotswap_operator.Controller.Env.{ApiError, not_found, failed, Env, Run}
use hotswap_operator.Controller.Overlap.{conflicting_policy}
use hotswap_operator.Controller.Reconcile.{
  finalizer_name, finalize, adopt, with_winner, with_deployment, with_probe, with_policy, reconcile,
}
use hotswap_operator.Controller.Reconcile.Gates.{answered_effects}
use hotswap_operator.Controller.Reconcile.Memory.{
  last_written, IsClean, Remembers, degraded-Remembers,
}
use hotswap_operator.Controller.Reconcile.Memory.Gateways.{selector-Remembers}

module _ {S : Type 0} (env : Env S) (last : Option RemediationRecord) (nn : NamespacedName)
    (policy : HotSwapPolicy) (same : policy.status.last_remediation ≡ last) where
  open env use {lib, cluster}

  winner-Remembers :
      (cfg : ProbeConfig) (dep : Deployment) (res : Result ApiError String) (r : Run S)
      → IsClean env last r
      → Remembers env last (with_winner env nn policy cfg dep res r)
  unfolding with_winner
  winner-Remembers cfg dep (err e) r clean = inl clean
  winner-Remembers cfg dep (ok winner) r clean = elim (Bool-cases (str_eq winner "")) [
    | inl self ↦ rw self (
        selector-Remembers env last nn cfg dep policy (lib.label_selector_as_selector dep.selector)
          r clean same)
    | inr other ↦ rw other (degraded-Remembers env last policy _ _ _ _ clean same)
  ]

  deployment-Remembers :
      (cfg : ProbeConfig) (res : Result ApiError Deployment) (r : Run S)
      → IsClean env last r
      → Remembers env last (with_deployment env nn policy cfg res r)
  unfolding with_deployment
  deployment-Remembers cfg (err not_found) r clean =
      degraded-Remembers env last policy _ _ _ _ clean same
  deployment-Remembers cfg (err (failed e)) r clean = inl clean
  deployment-Remembers cfg (ok dep) r clean =
      winner-Remembers cfg dep (conflicting_policy cluster policy) r clean

  probe-Remembers :
      (res : Result String ProbeConfig) (r : Run S)
      → IsClean env last r
      → Remembers env last (with_probe env nn policy res r)
  unfolding with_probe
  probe-Remembers (err e) r clean = degraded-Remembers env last policy _ _ _ r clean same
  probe-Remembers (ok cfg) r clean = deployment-Remembers cfg _ r clean

  finalize-Remembers :
      (r : Run S) → IsClean env last r → Remembers env last (finalize env nn policy r)
  unfolding finalize last_written
  finalize-Remembers r clean =
      elim (Bool-cases (lib.contains_finalizer policy.meta.finalizers finalizer_name)) [
        | inl owned ↦ rw (owned, answered_effects env _ _ _) (inl clean)
        | inr released ↦ rw released (inl clean)
      ]

  adopt-Remembers : (r : Run S) → IsClean env last r → Remembers env last (adopt env policy r)
  unfolding adopt last_written
  adopt-Remembers r clean = rw (answered_effects env _ _ _) (inl clean)

  policy-Remembers :
      (r : Run S) → IsClean env last r → Remembers env last (with_policy env nn (ok policy) r)
  unfolding with_policy
  policy-Remembers r clean = elim (Bool-cases (is_zero policy.meta.deletion_timestamp)) [
    | inr deleting ↦ rw deleting (finalize-Remembers r clean)
    | inl alive ↦ elim (Bool-cases (lib.contains_finalizer policy.meta.finalizers finalizer_name)) [
      | inl owned ↦
          rw (alive, owned) (probe-Remembers (normalize_probe policy.spec.hotswap_probe) r clean)
      | inr new ↦ rw (alive, new) (adopt-Remembers r clean)
    ]
  ]

  -- A run leaves on record the last remediation that it has read, or one of its own moment.
  pub reconcile-Remembers :
      (r : Run S)
      → cluster.get_policy nn ≡ ok policy
      → IsClean env last r
      → Remembers env last (reconcile env nn r)
  unfolding reconcile
  reconcile-Remembers r found clean = rw found (policy-Remembers r clean)
