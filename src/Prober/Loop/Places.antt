-- ===== src/Prober/Loop/Places.antt =====
-- Where a turn or a step leaves the goroutines.
use hotswap_operator.Prelude.{
  ℕ, ℤ, ◌==◌, String, Bool, true, false, ◌||◌, ◌≡◌, refl, ap, ◌∙◌, inl, inr, Option, none, some,
  ==_iff, arith,
}
use hotswap_operator.Prober.Config.{ProbeConfig}
use hotswap_operator.Prober.Manager.{Worker, PolicyEntry, Runtime}
use hotswap_operator.Prober.Manager.Contexts.{Grows, call-Grows}
use hotswap_operator.Prober.Loop.{
  Phase, entering, delaying, beginning, checking, reporting, waiting, ended, enter, begin, conclude,
  Prober, is_done, at, answer, Turn, enters, delay_over, delay_cancelled, begins, answers, sends,
  gives_up, ticks, ends, Step, synced, seen, forgotten, received, stops, turns,
}
use hotswap_operator.Prober.Loop.Simulation.{step_simulated}

abbrev pub is_ended : Phase → Bool
is_ended ended = true
is_ended entering = false
is_ended (delaying p) = false
is_ended (beginning p) = false
is_ended (checking p cfg ip) = false
is_ended (reporting p) = false
is_ended (waiting p) = false

pub phase-at : (c : ℕ) (ph : Phase) (s : Prober) → (at c ph s).phase c ≡ ph
phase-at c ph s = ground (arith, ==_iff c c)

pub phase-at_other :
    (c d : ℕ) (ph : Phase) (s : Prober) → (d == c) ≡ false → (at c ph s).phase d ≡ s.phase d
phase-at_other c d ph s other = ground arith

pub enter-ended : (o : Option PolicyEntry) → is_ended (enter o) ≡ true → o ≡ none
unfolding enter
enter-ended none h = refl
enter-ended (some pe) h = absurd (ground arith)

pub begin-alive : (p : ℤ) (o : Option (ProbeConfig × String)) → is_ended (begin p o) ≡ false
unfolding begin
begin-alive p none = refl
begin-alive p (some (cfg, ip)) = refl

pub conclude-alive : (p : ℤ) (flipped : Bool) → is_ended (conclude p flipped) ≡ false
unfolding conclude
conclude-alive p true = refl
conclude-alive p false = refl

pub clash : {b : Bool} → b ≡ false → b ≡ true → ⊥
clash e h = cc

pub not_ended : (b : Bool) → (b ≡ true → ⊥) → b ≡ false
not_ended true f = absurd (f refl)
not_ended false f = refl

or_grows :
    (x x' b b' : Bool)
    → (x ≡ true → x' ≡ true)
    → (b ≡ true → b' ≡ true)
    → (x || b) ≡ true
    → (x' || b') ≡ true
or_grows true x' b b' f g h = ground (arith, f refl)
or_grows false true b b' f g h = refl
or_grows false false b b' f g h = g h

module _ (rt : Runtime) where
  -- A turn of `c` moves no other goroutine, and stops nothing.
  pub Turn-others :
      (c : ℕ) (w : Worker) (s s' : Prober)
      → Turn rt c w s s'
      → ((d : ℕ) → (d == c) ≡ false → s'.phase d ≡ s.phase d) × (s'.stopped ≡ s.stopped)
  unfolding answer
  Turn-others c w s _ (enters e) = (λ d other. phase-at_other c d _ s other, refl)
  Turn-others c w s _ (delay_over p e) = (λ d other. phase-at_other c d _ s other, refl)
  Turn-others c w s _ (delay_cancelled p e h) = (λ d other. phase-at_other c d _ s other, refl)
  Turn-others c w s _ (begins p e) = (λ d other. phase-at_other c d _ s other, refl)
  Turn-others c w s _ (answers p cfg ip ok now e) = (λ d other. phase-at_other c d _ s other, refl)
  Turn-others c w s _ (sends p m e h) = (λ d other. phase-at_other c d _ s other, refl)
  Turn-others c w s _ (gives_up p e h) = (λ d other. phase-at_other c d _ s other, refl)
  Turn-others c w s _ (ticks p e) = (λ d other. phase-at_other c d _ s other, refl)
  Turn-others c w s _ (ends p e h) = (λ d other. phase-at_other c d _ s other, refl)

  step-stopped : {s s' : Prober} → Step rt s s' → s.stopped ≡ true → s'.stopped ≡ true
  step-stopped (synced nn cfg targets) h = h
  step-stopped (seen nn uid) h = h
  step-stopped (forgotten nn) h = h
  step-stopped (received nn rest e) h = h
  step-stopped stops h = refl
  step-stopped (turns c w running turn) h = (Turn-others c w _ _ turn).1 ∙ h

  step-cancelled : {s s' : Prober} → Step rt s s' → Grows s.manager s'.manager
  step-cancelled step c h = elim (step_simulated rt step) [
    | inl same ↦ ap (λ m. m.cancelled c) same ∙ h
    | inr call ↦ call-Grows rt call c h
  ]

  -- A context that is done stays so.
  pub step-is_done :
      {s s' : Prober} (c : ℕ) → Step rt s s' → is_done s c ≡ true → is_done s' c ≡ true
  step-is_done {s} {s'} c step h =
      or_grows s.stopped s'.stopped (s.manager.cancelled c) (s'.manager.cancelled c)
        (step-stopped step) (step-cancelled step c) h
