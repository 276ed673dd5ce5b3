-- ===== src/Prober/Loop/Simulation.antt =====
-- The goroutines' steps, seen from the manager, are whole calls of it.
use hotswap_operator.Prelude.{ℕ, ◌≡◌, refl, ◌⊎◌, inl, inr}
use hotswap_operator.Prober.Manager.{Worker, Runtime}
use hotswap_operator.Prober.Manager.Interleavings
use hotswap_operator.Prober.Loop.{
  Prober, new_prober, Turn, enters, delay_over, delay_cancelled, begins, answers, sends, gives_up,
  ticks, ends, Step, synced, seen, forgotten, received, stops, turns, Reachable, initial, next,
  answer,
}

module _ (rt : Runtime) where
  Turn-simulated :
      (c : ℕ) (w : Worker) (s s' : Prober)
      → Turn rt c w s s'
      → (s'.manager ≡ s.manager) ⊎ Interleavings.Step rt s.manager s'.manager
  unfolding answer
  Turn-simulated c w s _ (enters e) = inl refl
  Turn-simulated c w s _ (delay_over p e) = inl refl
  Turn-simulated c w s _ (delay_cancelled p e d) = inl refl
  Turn-simulated c w s _ (begins p e) = inl refl
  Turn-simulated c w s _ (answers p cfg ip ok now e) =
      inr (Interleavings.probed w.policy w.uid cfg ok now)
  Turn-simulated c w s _ (sends p m e h) = inr (Interleavings.sent w.policy h)
  Turn-simulated c w s _ (gives_up p e d) = inl refl
  Turn-simulated c w s _ (ticks p e) = inl refl
  Turn-simulated c w s _ (ends p e d) = inl refl

  pub step_simulated :
      {s s' : Prober}
      → Step rt s s'
      → (s'.manager ≡ s.manager) ⊎ Interleavings.Step rt s.manager s'.manager
  step_simulated (synced nn cfg targets) = inr (Interleavings.synced nn cfg targets)
  step_simulated (seen nn uid) = inr (Interleavings.seen nn uid)
  step_simulated (forgotten nn) = inr (Interleavings.forgotten nn)
  step_simulated (received nn rest e) = inr (Interleavings.received nn rest e)
  step_simulated stops = inl refl
  step_simulated (turns c w running turn) = Turn-simulated c w _ _ turn

  -- In any history of the prober, whatever the goroutines wait for, the manager goes through a sequence of its
  -- calls.
  pub Reachable-simulated : {s : Prober} → Reachable rt s → Interleavings.Reachable rt s.manager
  unfolding new_prober
  Reachable-simulated initial = Interleavings.initial
  Reachable-simulated (next {s} {s'} before step) = elim (step_simulated step) [
    | inl same ↦ rw same (Reachable-simulated before)
    | inr call ↦ Interleavings.next (Reachable-simulated before) call
  ]
