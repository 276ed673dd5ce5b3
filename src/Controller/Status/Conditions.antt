-- ===== src/Controller/Status/Conditions.antt =====
-- The three phases that the conditions of a policy can show.
use hotswap_operator.Prelude.{
  String, Bool, true, false, ◌||◌, ◌≡◌, refl, sym, ◌∙◌, Bool-cases, inl, inr, Option, none, some,
  str_eq, str_eq_iff, if◌then◌else◌, arith,
}
use hotswap_operator.Api.Kube.{Condition}
use hotswap_operator.Api.{
  HotSwapPolicy, condition_healthy, condition_remediating, condition_degraded, reason_all_healthy,
  reason_remediating,
}
use hotswap_operator.Controller.Env.{Library, condition_of}
use hotswap_operator.Controller.Status.{condition, set_healthy, set_remediating, set_degraded}

-- Healthy is true; or a remediation is going on; or the policy is degraded for some reason.
pub data Phase : Type 0 where
  healthy : Phase
  remediating : (message : String) → Phase
  degraded : (reason message : String) → Phase

-- The condition of a type in a phase of policy `p`.
abbrev pub shown : HotSwapPolicy → Phase → String → Option Condition
shown p healthy t =
    if str_eq condition_healthy t
    then some (condition p condition_healthy "True" reason_all_healthy "all targets healthy")
    else none
shown p (remediating m) t =
    if str_eq condition_healthy t
    then some (condition p condition_healthy "False" reason_remediating m)
    else (if str_eq condition_remediating t
        then some (condition p condition_remediating "True" reason_remediating m)
        else none)
shown p (degraded r m) t =
    if str_eq condition_healthy t
    then some (condition p condition_healthy "False" r m)
    else (if str_eq condition_degraded t
        then some (condition p condition_degraded "True" r m)
        else none)

-- The three types that the controller manages.
abbrev pub managed : String → Bool
managed t =
    str_eq condition_healthy t || (str_eq condition_remediating t || str_eq condition_degraded t)

-- The conditions of `p'` show the phase, and those of other types are as in `p`.
abbrev pub Shows : HotSwapPolicy → Phase → HotSwapPolicy → Type 0
Shows p phase p' =
    (t : String)
    → condition_of t p'.status.conditions
      ≡ (if managed t then shown p phase t else condition_of t p.status.conditions)

-- One type is not another.
apart : (s s' t : String) → str_eq s s' ≡ false → str_eq s t ≡ true → str_eq s' t ≡ false
apart s s' t d e = elim (Bool-cases (str_eq s' t)) [
  | inl e' ↦ cc ((str_eq_iff s s').1 ((str_eq_iff s t).0 e ∙ sym ((str_eq_iff s' t).0 e')))
  | inr n ↦ n
]

module _ (lib : Library) (p : HotSwapPolicy) where
  open lib use {condition_of-remove, condition_of-set}

  -- `setHealthy` leaves Healthy true and neither Remediating nor Degraded.
  pub set_healthy-Shows : Shows p healthy (set_healthy lib p)
  unfolding set_healthy
  set_healthy-Shows t =
      simp (condition_of-remove, condition_of-set)
        (ground (
          arith,
          apart condition_healthy condition_degraded t refl,
          apart condition_healthy condition_remediating t refl,
        ))

  pub set_remediating-Shows : (msg : String) → Shows p (remediating msg) (set_remediating lib p msg)
  unfolding set_remediating
  set_remediating-Shows msg t =
      simp (condition_of-remove, condition_of-set)
        (ground (
          arith,
          apart condition_healthy condition_degraded t refl,
          apart condition_healthy condition_remediating t refl,
          apart condition_remediating condition_degraded t refl,
        ))

  pub set_degraded-Shows :
      (reason msg : String) → Shows p (degraded reason msg) (set_degraded lib p reason msg)
  unfolding set_degraded
  set_degraded-Shows reason msg t =
      simp (condition_of-remove, condition_of-set)
        (ground (
          arith,
          apart condition_healthy condition_degraded t refl,
          apart condition_healthy condition_remediating t refl,
          apart condition_degraded condition_remediating t refl,
        ))

  -- Each of the three setters shows its phase in the three conditions and leaves those of other types as they are:
  -- `setHealthy` Healthy true and the other two absent, `setRemediating` Remediating true, Healthy false and
  -- Degraded absent, `setDegraded` Degraded true, Healthy false and Remediating absent.
  pub setters-Shows :
      (reason msg : String)
      → Shows p healthy (set_healthy lib p)
        × Shows p (remediating msg) (set_remediating lib p msg)
        × Shows p (degraded reason msg) (set_degraded lib p reason msg)
  setters-Shows reason msg =
      (set_healthy-Shows, set_remediating-Shows msg, set_degraded-Shows reason msg)
