-- ===== src/Prober/Threshold/Flaps.antt =====
-- How often the health of a pod can flip.
use hotswap_operator.Prelude.{
  ℕ, suc, ◌+◌, ◌*◌, ◌≤◌, Bool, true, false, not, ◌&&◌, ◌≡◌, sym, [], ◌∷◌, Option, if◌then◌else◌,
  arith,
}
use mathlib.Core.Path.{subst}
use hotswap_operator.Prober.Config.{ProbeConfig, PodTarget}
use hotswap_operator.Prober.Threshold.{PodEntry, new_entry, record_probe}
use hotswap_operator.Prober.Threshold.Automaton.{
  Health, up, down, observe, health, IsCounting, IsTyped, success_count, failure_count,
  record_probe-observe,
}
use hotswap_operator.Prober.Threshold.History.{History, feed, new_entry-IsCounting}

abbrev pub is_like : Bool → Bool → Bool
is_like true ok = ok
is_like false ok = not ok

-- The results of one kind in a history.
unfoldable pub results_like : Bool → History → ℕ
results_like b [] = 0
results_like b ((ok, now) ∷ earlier) =
    let n = results_like b earlier in if is_like b ok then suc n else n

-- The flips that such results bring about: to healthy by successes, to unhealthy by failures.
unfoldable pub flips_by : Bool → ProbeConfig → PodEntry → History → ℕ
flips_by b cfg pod [] = 0
flips_by b cfg pod ((ok, now) ∷ earlier) =
    let n = flips_by b cfg pod earlier in
    let flipped = (record_probe (feed cfg pod earlier) cfg ok now).1 in
    if is_like b ok && flipped then suc n else n

-- Each flip has used up a threshold of results, and the counter that runs has used up its own.
abbrev Tallies : (success failure passes fails rises falls : ℕ) → Health → Type 0
Tallies success failure passes fails rises falls (up n) =
    (success * rises ≤ passes) × (failure * falls + n ≤ fails) × (falls ≡ rises)
Tallies success failure passes fails rises falls (down n) =
    (success * rises + n ≤ passes) × (failure * falls ≤ fails) × (falls ≡ suc rises)

mul_next : (a b : ℕ) → a * suc b ≡ a * b + a
mul_next a b = omega arith

observe-passes :
    (success failure passes fails rises falls : ℕ) (s : Health)
    → Tallies success failure passes fails rises falls s
    → let (s', flipped) = observe success failure true s in
      Tallies success failure (suc passes) fails (if flipped then suc rises else rises) falls s'
unfolding observe
observe-passes success failure passes fails rises falls (up n) t = ground arith
observe-passes success failure passes fails rises falls (down n) t =
    ground (arith, mul_next success rises)

observe-fails :
    (success failure passes fails rises falls : ℕ) (s : Health)
    → Tallies success failure passes fails rises falls s
    → let (s', flipped) = observe success failure false s in
      Tallies success failure passes (suc fails) rises (if flipped then suc falls else falls) s'
unfolding observe
observe-fails success failure passes fails rises falls (up n) t =
    ground (arith, mul_next failure falls)
observe-fails success failure passes fails rises falls (down n) t = ground arith

passed :
    (success failure passes fails rises falls : ℕ) {s : Health} {flipped : Bool} {o : Health × Bool}
    → o ≡ (s, flipped)
    → Tallies success failure (suc passes) fails (if o.1 then suc rises else rises) falls o.0
    → Tallies success failure (suc passes) fails (if flipped then suc rises else rises) falls s
passed success failure passes fails rises falls e t =
    subst
      (λ x. Tallies success failure (suc passes) fails (if x.1 then suc rises else rises) falls x.0)
      e t

failed :
    (success failure passes fails rises falls : ℕ) {s : Health} {flipped : Bool} {o : Health × Bool}
    → o ≡ (s, flipped)
    → Tallies success failure passes (suc fails) rises (if o.1 then suc falls else falls) o.0
    → Tallies success failure passes (suc fails) rises (if flipped then suc falls else falls) s
failed success failure passes fails rises falls e t =
    subst
      (λ x. Tallies success failure passes (suc fails) rises (if x.1 then suc falls else falls) x.0)
      e t

bounds :
    (success failure passes fails rises falls : ℕ) (s : Health)
    → Tallies success failure passes fails rises falls s
    → (failure * falls ≤ fails) × (success * rises ≤ passes) × (rises ≤ falls) × (falls ≤ suc rises)
bounds success failure passes fails rises falls (up n) t = ground arith
bounds success failure passes fails rises falls (down n) t = ground arith

feed-Tallies :
    (cfg : ProbeConfig) (t : PodTarget) (ctx : Option ℕ) (h : History)
    → IsTyped cfg
    → let pod = new_entry t ctx in
      IsCounting (feed cfg pod h)
      × Tallies
          (success_count cfg)
          (failure_count cfg)
          (results_like true h)
          (results_like false h)
          (flips_by true cfg pod h)
          (flips_by false cfg pod h)
          (health (feed cfg pod h))
unfolding feed new_entry results_like flips_by
feed-Tallies cfg t ctx [] w = (new_entry-IsCounting t ctx, ground arith)
feed-Tallies cfg t ctx ((true, now) ∷ h) w =
    let (c, a) = feed-Tallies cfg t ctx h w in
    let pod = new_entry t ctx in
    let (step, c') = record_probe-observe (feed cfg pod h) cfg true now w c in
    (
      c',
      passed (success_count cfg) (failure_count cfg) (results_like true h) (results_like false h)
          (flips_by true cfg pod h) (flips_by false cfg pod h) (sym step)
          (observe-passes _ _ _ _ _ _ (health (feed cfg pod h)) a),
    )
feed-Tallies cfg t ctx ((false, now) ∷ h) w =
    let (c, a) = feed-Tallies cfg t ctx h w in
    let pod = new_entry t ctx in
    let (step, c') = record_probe-observe (feed cfg pod h) cfg false now w c in
    (
      c',
      failed (success_count cfg) (failure_count cfg) (results_like true h) (results_like false h)
          (flips_by true cfg pod h) (flips_by false cfg pod h) (sym step)
          (observe-fails _ _ _ _ _ _ (health (feed cfg pod h)) a),
    )

-- Under one configuration with int32 thresholds, in any history of a new pod each flip to unhealthy has cost as many
-- failures as the failure threshold, and each flip to healthy as many successes as the success threshold; no result is
-- counted for two flips, and the two kinds of flip take turns, the flip to unhealthy being the first.
pub flips_bound :
    (cfg : ProbeConfig) (t : PodTarget) (ctx : Option ℕ) (h : History)
    → IsTyped cfg
    → let pod = new_entry t ctx in
      (failure_count cfg * flips_by false cfg pod h ≤ results_like false h)
      × (success_count cfg * flips_by true cfg pod h ≤ results_like true h)
      × (flips_by true cfg pod h ≤ flips_by false cfg pod h)
      × (flips_by false cfg pod h ≤ suc (flips_by true cfg pod h))
flips_bound cfg t ctx h w =
    bounds _ _ _ _ _ _ (health (feed cfg (new_entry t ctx) h)) (feed-Tallies cfg t ctx h w).1
