-- ===== src/Prober/Threshold/History.antt =====
-- The health of a pod after any history of probes under one configuration.
use hotswap_operator.Prelude.{
  ℕ, suc, ◌≤◌, ◌<◌, Bool, true, false, ◌≡◌, sym, ap, ◌↔◌, ◌⊎◌, List, [], ◌∷◌, Option, if◌then◌else◌,
  arith,
}
use mathlib.Core.Path.{subst}
use hotswap_operator.Api.Kube.{Time}
use hotswap_operator.Prober.Config.{ProbeConfig, PodTarget}
use hotswap_operator.Prober.Threshold.{PodEntry, new_entry, record_probe}
use hotswap_operator.Prober.Threshold.Automaton.{
  Health, up, down, observe, health, IsCounting, IsTyped, success_count, failure_count,
  record_probe-observe,
}

-- The results of probes with their times, the newest first.
abbrev pub History : Type 0
History = List (Bool × Time)

-- How many of the newest results are all successes, or all failures.
unfoldable pub successes_in_row {ℓ} : {A : Type ℓ} → List (Bool × A) → ℕ
successes_in_row [] = 0
successes_in_row ((ok, now) ∷ earlier) = let n = successes_in_row earlier in if ok then suc n else 0

unfoldable pub failures_in_row {ℓ} : {A : Type ℓ} → List (Bool × A) → ℕ
failures_in_row [] = 0
failures_in_row ((ok, now) ∷ earlier) = let n = failures_in_row earlier in if ok then 0 else suc n

-- The entry after a history.
unfoldable pub feed : ProbeConfig → PodEntry → History → PodEntry
feed cfg pod [] = pod
feed cfg pod ((ok, now) ∷ earlier) = (record_probe (feed cfg pod earlier) cfg ok now).0

pub new_entry-IsCounting : (t : PodTarget) (ctx : Option ℕ) → IsCounting (new_entry t ctx)
unfolding new_entry
new_entry-IsCounting t ctx = ground arith

-- What the newest results say of the health.
abbrev Agrees : (success failure : ℕ) → History → Health → Type 0
Agrees success failure h (up n) = (n ≡ failures_in_row h) × (n < failure)
Agrees success failure h (down n) = (n ≡ successes_in_row h) × (n < success)

observe-Agrees :
    (success failure : ℕ) (ok : Bool) (now : Time) (h : History) (s : Health)
    → 0 < success
    → 0 < failure
    → Agrees success failure h s
    → Agrees success failure ((ok, now) ∷ h) (observe success failure ok s).0
unfolding observe successes_in_row failures_in_row
observe-Agrees success failure true now h (up n) p q a = ground arith
observe-Agrees success failure true now h (down n) p q a = ground arith
observe-Agrees success failure false now h (up n) p q a = ground arith
observe-Agrees success failure false now h (down n) p q a = ground arith

-- The flip that the automaton reports, in terms of the history.
flip_cases :
    (success failure : ℕ) (h : History) (ok : Bool) (pod : PodEntry) {flipped : Bool}
    → Agrees success failure h (health pod)
    → flipped ≡ (observe success failure ok (health pod)).1
    → (flipped ≡ true) ↔ (
        ((pod.state.healthy ≡ true) × (ok ≡ false) × (suc (failures_in_row h) ≡ failure))
        ⊎ ((pod.state.healthy ≡ false) × (ok ≡ true) × (suc (successes_in_row h) ≡ success)))
unfolding observe
flip_cases success failure h true pod a e = ground arith
flip_cases success failure h false pod a e = ground arith

feed-Agrees :
    (cfg : ProbeConfig) (t : PodTarget) (ctx : Option ℕ) (h : History)
    → IsTyped cfg
    → let pod = feed cfg (new_entry t ctx) h in
      IsCounting pod × Agrees (success_count cfg) (failure_count cfg) h (health pod)
unfolding feed new_entry successes_in_row failures_in_row
feed-Agrees cfg t ctx [] w = (new_entry-IsCounting t ctx, ground arith)
feed-Agrees cfg t ctx ((ok, now) ∷ h) w =
    let (c, a) = feed-Agrees cfg t ctx h w in
    let (step, c') = record_probe-observe (feed cfg (new_entry t ctx) h) cfg ok now w c in
    (
      c',
      subst (Agrees (success_count cfg) (failure_count cfg) ((ok, now) ∷ h))
          (sym (ap (λ x. x.0) step))
          (observe-Agrees (success_count cfg) (failure_count cfg) ok now h
            (health (feed cfg (new_entry t ctx) h)) (ground arith) (ground arith) a),
    )

-- With thresholds of type `int32`, after any history a new pod is unhealthy when the newest results are as many
-- failures as the failure threshold, and healthy when they are as many successes as the success threshold.
pub feed_verdict :
    (cfg : ProbeConfig) (t : PodTarget) (ctx : Option ℕ) (h : History)
    → IsTyped cfg
    → let pod = feed cfg (new_entry t ctx) h in
      (failure_count cfg ≤ failures_in_row h → pod.state.healthy ≡ false)
      × (success_count cfg ≤ successes_in_row h → pod.state.healthy ≡ true)
feed_verdict cfg t ctx h w =
    let (c, a) = feed-Agrees cfg t ctx h w in (λ many. ground arith, λ many. ground arith)

-- With thresholds of type `int32`, the health of a new pod after a history flips exactly at the probe that
-- completes the threshold: from healthy at the failure that makes the failures in a row as many as the failure
-- threshold, from unhealthy likewise at a success.
pub flip_iff :
    (cfg : ProbeConfig) (t : PodTarget) (ctx : Option ℕ) (h : History) (ok : Bool) (now : Time)
    → IsTyped cfg
    → let pod = feed cfg (new_entry t ctx) h in
      ((record_probe pod cfg ok now).1 ≡ true) ↔ (
        ((pod.state.healthy ≡ true) × (ok ≡ false) × (suc (failures_in_row h) ≡ failure_count cfg))
        ⊎ ((pod.state.healthy ≡ false)
            × (ok ≡ true)
            × (suc (successes_in_row h) ≡ success_count cfg)))
unfolding observe
flip_iff cfg t ctx h ok now w =
    let (c, a) = feed-Agrees cfg t ctx h w in
    let (step, c') = record_probe-observe (feed cfg (new_entry t ctx) h) cfg ok now w c in
    flip_cases (success_count cfg) (failure_count cfg) h ok (feed cfg (new_entry t ctx) h) a
      (ap (λ x. x.1) step)
