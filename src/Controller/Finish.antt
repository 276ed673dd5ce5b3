-- ===== src/Controller/Finish.antt =====
-- The ends of a run of `Reconcile`, the finalizer at its beginning, and the small conversions that it makes; of
-- internal/controller/hotswappolicy_controller.go.
use hotswap_operator.Prelude.{
  ℤ, pos, leb_ℤ, mul64, String, Bool, true, Option, none, some, List, if◌then◌else◌,
}
use hotswap_operator.Api.Kube.{NamespacedName}
use hotswap_operator.Api.{HotSwapPolicy, RemediationSpec}
use hotswap_operator.Prober.Config.{ProbeConfig, second}
use hotswap_operator.Controller.Env.{
  ApiError, not_found, failed, Env, Run, write, update_policy, update_status, CtrlResult, no_result,
  after, Outcome,
}

abbrev pub finalizer_name : String
finalizer_name = "hotswap.io/finalizer"

-- `client.IgnoreNotFound`.
abbrev pub ignore_not_found : ApiError → Option ApiError
ignore_not_found not_found = none
ignore_not_found (failed e) = some (failed e)

abbrev pub with_finalizers : HotSwapPolicy → List String → HotSwapPolicy
with_finalizers p fs = record p { meta = record p.meta { finalizers = fs } }

abbrev pub or_true : Option Bool → Bool
or_true none = true
or_true (some b) = b

-- `maxAttempts`.
abbrev pub attempts_limit : RemediationSpec → ℤ
attempts_limit spec =
    if leb_ℤ spec.max_consecutive_attempts (pos 0) then pos 3 else spec.max_consecutive_attempts

-- `cooldown`.
abbrev pub cooldown_of : RemediationSpec → ℤ
cooldown_of spec = mul64 spec.cooldown_seconds (pos second)

module _ {S : Type 0} (env : Env S) where
  open env use {lib, cluster, prober}

  -- The end of a run after a write: the given result, or none and the error.
  unfoldable pub answered : Option ApiError → CtrlResult → Run S → Outcome S
  answered none res r = (res, none, r)
  answered (some e) res r = (no_result, some e, r)

  -- `finish`.
  unfoldable pub finish : HotSwapPolicy → CtrlResult → Run S → Outcome S
  finish policy res r =
      let observed = record policy {
        status = record policy.status { observed_generation = policy.meta.generation };
      } in
      let (e, r') = write env (update_status observed) r in answered e res r'

  -- The handling of a deletion.
  unfoldable pub finalize : NamespacedName → HotSwapPolicy → Run S → Outcome S
  finalize nn policy r =
      if lib.contains_finalizer policy.meta.finalizers finalizer_name
      then (let forgotten = record r { state = prober.forget nn r.state } in
          let released =
            with_finalizers policy (lib.remove_finalizer policy.meta.finalizers finalizer_name) in
          let (e, r') = write env (update_policy released) forgotten in answered e no_result r')
      else (no_result, none, r)

  -- The finalizer is added first, and the rest is left to the next run.
  unfoldable pub adopt : HotSwapPolicy → Run S → Outcome S
  adopt policy r =
      let adopted =
        with_finalizers policy (lib.add_finalizer policy.meta.finalizers finalizer_name) in
      let (e, r') = write env (update_policy adopted) r in
      answered e (record { requeue = true; requeue_after = pos 0 }) r'

  unfoldable pub remediated : ProbeConfig → Option ApiError → HotSwapPolicy → Run S → Outcome S
  remediated cfg (some e) policy r = (no_result, some e, r)
  remediated cfg none policy r = finish policy (after cfg.period) r
