-- ===== src/Controller/Logic/Gates.antt =====
-- What the gates before a remediation decide: stability, the choice of the strategy, the systemic
-- failure, the circuit breaker and the cooldown.
use hotswap_operator.Prelude.{
  ℕ, ◌*◌, ◌-◌, ◌^◌, ◌≤◌, ◌<◌, ℤ, pos, negsuc, ◌≤ℤ◌, ◌<ℤ◌, mul64_pos, IsInt32, pos_part, =ℤ_iff, ◌≡◌,
  refl, ◌≢◌, ◌↔◌, ◌⊎◌, true, false, Option, none, some, arith,
}
use hotswap_operator.Api.Kube.{Time, Deployment}
use hotswap_operator.Api.{RemediationStrategy, rollout_restart, delete_pod, RemediationRecord}
use hotswap_operator.Controller.Logic.{
  settled_at, deployment_stable, choose_strategy, is_systemic, time_sub, breaker_open,
  cooldown_active,
}

-- A Deployment has settled: its status is of the current generation, and every wanted replica is
-- there, updated and available, with none unavailable.
pub record IsSettled (dep : Deployment) (r : ℤ) : Type 0 where
  pub wanted : dep.replicas ≡ some r
  pub current : dep.meta.generation ≡ dep.observed_generation
  pub present : dep.status_replicas ≡ r
  pub updated : dep.updated_replicas ≡ r
  pub available : dep.available_replicas ≡ r
  pub unavailable : dep.unavailable_replicas ≡ pos 0

settled_at_iff :
    (dep : Deployment) (r : ℤ)
    → (settled_at dep (some r) ≡ true) ↔ (
        (dep.status_replicas ≡ r)
        × (dep.updated_replicas ≡ r)
        × (dep.available_replicas ≡ r)
        × (dep.unavailable_replicas ≡ pos 0))
unfolding settled_at
settled_at_iff dep r = ground (
  arith,
  =ℤ_iff dep.status_replicas r,
  =ℤ_iff dep.updated_replicas r,
  =ℤ_iff dep.available_replicas r,
  =ℤ_iff dep.unavailable_replicas (pos 0),
)

stable-IsSettled :
    (dep : Deployment) (o : Option ℤ)
    → dep.replicas ≡ o
    → deployment_stable dep ≡ true
    → (r : ℤ) × IsSettled dep r
unfolding deployment_stable settled_at
stable-IsSettled dep none e h = ground arith
stable-IsSettled dep (some r) e h =
    (r, ground (arith, settled_at_iff dep r, =ℤ_iff dep.meta.generation dep.observed_generation))

-- `deploymentStable` holds exactly of a settled Deployment that states its number of replicas.
pub deployment_stable_iff :
    (dep : Deployment) → (deployment_stable dep ≡ true) ↔ ((r : ℤ) × IsSettled dep r)
unfolding deployment_stable
deployment_stable_iff dep = (
  stable-IsSettled dep dep.replicas refl,
  λ s.
      rw s.1.wanted (
        ground (arith, settled_at_iff dep s.0, =ℤ_iff dep.meta.generation dep.observed_generation)),
)

-- `chooseStrategy` gives DeletePod exactly where it is asked for, or nothing is chosen and there is
-- more than one replica; and RolloutRestart in all other cases.
pub choose_strategy_iff :
    (s : RemediationStrategy) (replicas : ℤ)
    → ((choose_strategy s replicas ≡ delete_pod)
        ↔ ((s ≡ delete_pod) ⊎ ((s ≢ rollout_restart) × (pos 1 <ℤ replicas))))
      × ((choose_strategy s replicas ≡ delete_pod) ⊎ (choose_strategy s replicas ≡ rollout_restart))
unfolding choose_strategy
choose_strategy_iff s replicas = ground arith

product_bound : (s t : ℕ) → s < 2147483648 → t < 2147483648 → s * t < 2 ^ 63
product_bound s t hs ht = grind arith

-- For counts of targets below 2^31 and a threshold of type `int32` the 64-bit test is the ratio: at least two
-- targets, and `unhealthy / total ≥ skip / 100`.
pub is_systemic_iff :
    (u t : ℕ) (skip : ℤ)
    → u < 2147483648
    → t < 2147483648
    → IsInt32 skip
    → (is_systemic (pos u) (pos t) skip ≡ true)
      ↔ ((2 ≤ t) × (1 ≤ u) × (pos 1 ≤ℤ skip) × (pos_part skip * t ≤ u * 100))
unfolding is_systemic
is_systemic_iff u t (pos s) hu ht hs =
    ground
      (arith, mul64_pos s t (product_bound s t (omega arith) ht), mul64_pos u 100 (omega arith))
is_systemic_iff u t (negsuc s) hu ht hs = ground arith

-- With two targets and a threshold of at most 50 percent (the default is 50) one unhealthy target
-- is a systemic failure already.
pub is_systemic_of_two :
    (u s : ℕ) → 1 ≤ u → u ≤ 2 → 1 ≤ s → s ≤ 50 → is_systemic (pos u) (pos 2) (pos s) ≡ true
is_systemic_of_two u s hu hu' hs hs' =
    (is_systemic_iff u 2 (pos s) (omega arith) (omega arith) (omega arith)).1 (omega arith)

-- The time since the last remediation, if the clock has not gone back.
time_sub-le : (now t : Time) → t ≤ now → time_sub now t ≤ℤ pos (now - t)
unfolding time_sub
time_sub-le now t h = ground arith

time_sub_nonneg : (now t : Time) → t ≤ now → pos 0 ≤ℤ time_sub now t
unfolding time_sub
time_sub_nonneg now t h = ground arith

-- A recorded remediation does not lie in the future.
abbrev pub IsPast : Option RemediationRecord → Time → Type 0
IsPast none now = Unit
IsPast (some last) now = last.time ≤ now

-- Where the breaker is open the cooldown is running too: if the last remediation is not in the
-- future, the breaker holds back no remediation that the cooldown lets through.
pub breaker_open-cooldown_active :
    (attempts max_attempts : ℤ) (last : Option RemediationRecord) (cooldown : ℤ) (now : Time)
    → IsPast last now
    → breaker_open attempts max_attempts last cooldown now ≡ true
    → cooldown_active last cooldown now ≡ true
unfolding breaker_open cooldown_active
breaker_open-cooldown_active a m none c now past h = ground arith
breaker_open-cooldown_active a m (some last) c now past h =
    ground (arith, time_sub_nonneg now last.time)

-- When the cooldown lets a remediation through and the last one is not in the future, it lies back by the cooldown
-- at least.
pub cooldown_active_spacing :
    (last : RemediationRecord) (cooldown : ℤ) (now : Time)
    → last.time ≤ now
    → cooldown_active (some last) cooldown now ≡ false
    → cooldown ≤ℤ pos (now - last.time)
unfolding cooldown_active
cooldown_active_spacing last c now past h = ground (arith, time_sub-le now last.time)

pub cooldown_active-pos :
    (last : Option RemediationRecord) (cooldown : ℤ) (now : Time)
    → cooldown_active last cooldown now ≡ true
    → pos 0 <ℤ cooldown
unfolding cooldown_active
cooldown_active-pos last c now h = ground arith
