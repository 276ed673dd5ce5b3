-- ===== src/Prober/Loop/Pace.antt =====
-- How often a goroutine of `run` turns, and the period it keeps.
use hotswap_operator.Prelude.{
  ℕ, ℤ, ◌+◌, ◌*◌, ◌≤◌, ◌==◌, true, ◌≡◌, sym, ap, ◌∙◌, ◌⊎◌, inl, inr, some, ==_iff, arith,
  Bool-cases,
}
use hotswap_operator.Prober.Manager.{Runtime}
use hotswap_operator.Prober.Loop.{Prober, Step, synced, seen, forgotten, received, stops, turns}
use hotswap_operator.Prober.Loop.Places.{is_ended, clash, Turn-others}
use hotswap_operator.Prober.Loop.Turns.{
  distance, period_of, Run, stays, goes_on, step_turns, step_ticks, turns_taken, ticks_seen,
  Turn-distance, Turn-period, Turn-returned,
}

module _ (rt : Runtime) where
  step-distance :
      (c : ℕ) {s s' : Prober} (step : Step rt s s')
      → step_turns rt c step + distance (s'.phase c)
        ≤ distance (s.phase c) + 4 * step_ticks rt c step
  step-distance c (synced nn cfg targets) = omega arith
  step-distance c (seen nn uid) = omega arith
  step-distance c (forgotten nn) = omega arith
  step-distance c (received nn rest e) = omega arith
  step-distance c stops = omega arith
  step-distance c {s} {s'} (turns d w running t) = elim (Bool-cases (c == d)) [
    | inl own ↦
        let lower = Turn-distance rt d w s s' t in
        let same = (==_iff c d).0 own in
        let was = ap (λ x. distance (s.phase x)) same in
        let now = ap (λ x. distance (s'.phase x)) same in rw own (omega arith)
    | inr other ↦ rw (other, (Turn-others rt d w s s' t).0 c other) (omega arith)
  ]

  step-ended :
      (c : ℕ) {s s' : Prober}
      → Step rt s s'
      → is_ended (s.phase c) ≡ true
      → is_ended (s'.phase c) ≡ true
  step-ended c (synced nn cfg targets) h = h
  step-ended c (seen nn uid) h = h
  step-ended c (forgotten nn) h = h
  step-ended c (received nn rest e) h = h
  step-ended c stops h = h
  step-ended c {s} {s'} (turns d w running t) h = elim (Bool-cases (c == d)) [
    | inl own ↦ absurd (
        clash (Turn-returned rt d w s s' t)
          (ap (λ x. is_ended (s.phase x)) (sym ((==_iff c d).0 own)) ∙ h))
    | inr other ↦ ap is_ended ((Turn-others rt d w s s' t).0 c other) ∙ h
  ]

  step-period :
      (c : ℕ) (p : ℤ) {s s' : Prober}
      → Step rt s s'
      → period_of (s.phase c) ≡ some p
      → (is_ended (s'.phase c) ≡ true) ⊎ (period_of (s'.phase c) ≡ some p)
  step-period c p (synced nn cfg targets) h = inr h
  step-period c p (seen nn uid) h = inr h
  step-period c p (forgotten nn) h = inr h
  step-period c p (received nn rest e) h = inr h
  step-period c p stops h = inr h
  step-period c p {s} {s'} (turns d w running t) h = elim (Bool-cases (c == d)) [
    | inl own ↦
        let same = (==_iff c d).0 own in
        elim (Turn-period rt d w s s' p t (ap (λ x. period_of (s.phase x)) (sym same) ∙ h)) [
          | inl e ↦ inl (ap (λ x. is_ended (s'.phase x)) same ∙ e)
          | inr e ↦ inr (ap (λ x. period_of (s'.phase x)) same ∙ e)
        ]
    | inr other ↦ inr (ap period_of ((Turn-others rt d w s s' t).0 c other) ∙ h)
  ]

  -- In any history of the prober, a goroutine takes at most four turns for each tick of its ticker, beside the six
  -- at most that lead it to the first wait: no goroutine probes without waiting in between.
  pub pace :
      (c : ℕ) {s s' : Prober} (run : Run rt s s')
      → turns_taken rt c run + distance (s'.phase c)
        ≤ distance (s.phase c) + 4 * ticks_seen rt c run
  unfolding turns_taken ticks_seen
  pace c stays = omega arith
  pace c (goes_on run step) =
      let before = pace c run in let now = step-distance c step in omega arith

  -- The period that a goroutine has read stays the same until it returns, whatever `Sync` stores meanwhile.
  pub period_kept :
      (c : ℕ) (p : ℤ) {s s' : Prober}
      → Run rt s s'
      → period_of (s.phase c) ≡ some p
      → (is_ended (s'.phase c) ≡ true) ⊎ (period_of (s'.phase c) ≡ some p)
  period_kept c p stays h = inr h
  period_kept c p (goes_on run step) h = elim (period_kept c p run h) [
    | inl e ↦ inl (step-ended c step e)
    | inr e ↦ step-period c p step e
  ]
