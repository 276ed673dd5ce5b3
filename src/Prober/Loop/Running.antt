-- ===== src/Prober/Loop/Running.antt =====
-- How long the goroutines of `run` live.
use hotswap_operator.Prelude.{
  ℕ, ℤ, ◌≤◌, [], ◌∷◌, ◌++◌, ◌==◌, String, true, false, ltb, length, ◌≡◌, refl, sym, ap, ◌∙◌, ◌⊎◌,
  inl, inr, none, some, ==_iff, arith, Bool-cases,
}
use hotswap_operator.Prelude.Dict.{lookup}
use hotswap_operator.Api.Kube.{NamespacedName}
use hotswap_operator.Prober.Threshold.{PodEntry}
use hotswap_operator.Prober.Manager.{Worker, Manager, Runtime, key, slot, send_event, events_cap}
use hotswap_operator.Prober.Manager.Store.{Has-slot}
use hotswap_operator.Prober.Manager.Workers.{IsSound, Probes}
use hotswap_operator.Prober.Manager.Interleavings.{Reachable-IsSound, one_prober}
use hotswap_operator.Prober.Loop.{
  Phase, entering, delaying, beginning, checking, reporting, waiting, ended, Prober, new_prober,
  is_done, answer, Turn, enters, delay_over, delay_cancelled, begins, answers, sends, gives_up,
  ticks, ends, Step, synced, seen, forgotten, received, stops, turns, Reachable, initial, next,
}
use hotswap_operator.Prober.Loop.Places.{
  is_ended, clash, not_ended, phase-at, enter-ended, begin-alive, conclude-alive, Turn-others,
  step-is_done,
}
use hotswap_operator.Prober.Loop.Simulation.{Reachable-simulated}

-- A goroutine that has returned has no live context.
abbrev HasReturned : Prober → Type 0
HasReturned s = (c : ℕ) → is_ended (s.phase c) ≡ true → is_done s c ≡ true

module _ (rt : Runtime) where
  -- A goroutine returns only if it is to end, or finds no entry for its policy.
  Turn-ended :
      (c : ℕ) (w : Worker) (s s' : Prober)
      → Turn rt c w s s'
      → is_ended (s'.phase c) ≡ true
      → (is_done s c ≡ true) ⊎ (lookup (key rt w.policy) s.manager.policies ≡ none)
  unfolding answer
  Turn-ended c w s _ (enters e) h = inr (enter-ended _ (sym (ap is_ended (phase-at c _ s)) ∙ h))
  Turn-ended c w s _ (delay_over p e) h = absurd (clash (ap is_ended (phase-at c _ s)) h)
  Turn-ended c w s _ (delay_cancelled p e d) h = inl d
  Turn-ended c w s _ (begins p e) h =
      absurd (clash (ap is_ended (phase-at c _ s) ∙ begin-alive p _) h)
  Turn-ended c w s _ (answers p cfg ip ok now e) h =
      absurd (clash (ap is_ended (phase-at c _ s) ∙ conclude-alive p _) h)
  Turn-ended c w s _ (sends p m e q) h = absurd (clash (ap is_ended (phase-at c _ s)) h)
  Turn-ended c w s _ (gives_up p e d) h = absurd (clash (ap is_ended (phase-at c _ s)) h)
  Turn-ended c w s _ (ticks p e) h = absurd (clash (ap is_ended (phase-at c _ s)) h)
  Turn-ended c w s _ (ends p e d) h = inl d

  -- With a live context, the goroutine finds the entry.
  live-known :
      (c : ℕ) (w : Worker) (s : Prober)
      → IsSound rt s.manager
      → s.manager.workers c ≡ some w
      → lookup (key rt w.policy) s.manager.policies ≡ none
      → is_done s c ≡ true
  live-known c w s sound running absent = elim (Bool-cases (is_done s c)) [
    | inl done ↦ done
    | inr live ↦
        let (pod, found, _) = sound.owned c w running (ground (arith, live)) in
        let (pe, known) = Has-slot (key rt w.policy) w.uid s.manager found in absurd cc
  ]

  step-HasReturned :
      {s s' : Prober} → IsSound rt s.manager → HasReturned s → Step rt s s' → HasReturned s'
  step-HasReturned {s} {s'} sound before (synced nn cfg targets) c h =
      step-is_done rt {s = s} {s' = s'} c (synced nn cfg targets) (before c h)
  step-HasReturned {s} {s'} sound before (seen nn uid) c h =
      step-is_done rt {s = s} {s' = s'} c (seen nn uid) (before c h)
  step-HasReturned {s} {s'} sound before (forgotten nn) c h =
      step-is_done rt {s = s} {s' = s'} c (forgotten nn) (before c h)
  step-HasReturned {s} {s'} sound before (received nn rest e) c h = before c h
  step-HasReturned {s} {s'} sound before stops c h = refl
  step-HasReturned {s} {s'} sound before (turns d w running turn) c h =
      step-is_done rt {s = s} {s' = s'} c (turns d w running turn) (elim (Bool-cases (c == d)) [
        | inl own ↦
            let same : d ≡ c = sym ((==_iff c d).0 own) in
            elim (Turn-ended d w s s' turn (ap (λ x. is_ended (s'.phase x)) same ∙ h)) [
              | inl done ↦ sym (ap (is_done s) same) ∙ done
              | inr absent ↦ sym (ap (is_done s) same) ∙ live-known d w s sound running absent
            ]
        | inr other ↦ before c (sym (ap is_ended ((Turn-others rt d w s s' turn).0 c other)) ∙ h)
      ])

  pub Reachable-HasReturned : {s : Prober} → Reachable rt s → HasReturned s
  unfolding new_prober
  Reachable-HasReturned initial c h = absurd cc
  Reachable-HasReturned (next before step) c h =
      step-HasReturned (Reachable-IsSound rt (Reachable-simulated rt before))
        (Reachable-HasReturned before) step c h

  -- The goroutine can take a turn, unless it is to send an event, its context is live and the channel is full.
  abbrev pub Moves : ℕ → Worker → Prober → Type 0
  Moves c w s =
      ((s' : Prober) × Turn rt c w s s')
      ⊎ ((p : ℤ) × (s.phase c ≡ reporting p)
          × (is_done s c ≡ false)
          × (events_cap ≤ length s.manager.events))

  send_due :
      (nn : NamespacedName) (m : Manager)
      → ((m' : Manager) × (send_event nn m ≡ some m')) ⊎ (events_cap ≤ length m.events)
  unfolding send_event
  send_due nn m = elim (Bool-cases (ltb (length m.events) events_cap)) [
    | inl room ↦ inl (record m { events = m.events ++ nn ∷ [] }, rw room refl)
    | inr full ↦ inr (ground arith)
  ]

  report_due : (c : ℕ) (w : Worker) (s : Prober) (p : ℤ) → s.phase c ≡ reporting p → Moves c w s
  report_due c w s p e = elim (Bool-cases (is_done s c)) [
    | inl done ↦ inl (_, gives_up p e done)
    | inr live ↦ elim (send_due w.policy s.manager) [
      | inl (m, sent) ↦ inl (_, sends p m e sent)
      | inr full ↦ inr (p, e, live, full)
    ]
  ]

  pub turn_due :
      (c : ℕ) (w : Worker) (s : Prober) (ph : Phase)
      → s.phase c ≡ ph
      → is_ended ph ≡ false
      → Moves c w s
  turn_due c w s entering e h = inl (_, enters e)
  turn_due c w s (delaying p) e h = inl (_, delay_over p e)
  turn_due c w s (beginning p) e h = inl (_, begins p e)
  turn_due c w s (checking p cfg ip) e h = inl (_, answers p cfg ip true 0 e)
  turn_due c w s (reporting p) e h = report_due c w s p e
  turn_due c w s (waiting p) e h = inl (_, ticks p e)
  turn_due c w s ended e h = absurd cc

  -- In any history of the prober, until `Start` has cancelled the root context, each pod that the manager knows
  -- has a goroutine with a live context that has not returned, and that can take a turn unless it is to send an
  -- event and the channel is full.
  pub watched :
      (s : Prober) (k uid : String) (pod : PodEntry)
      → Reachable rt s
      → s.stopped ≡ false
      → slot k uid s.manager ≡ some pod
      → (c : ℕ) × (probes : Probes rt s.manager k uid c) × (is_ended (s.phase c) ≡ false)
        × Moves c (record { policy = probes.nn; uid = uid }) s
  watched s k uid pod reachable going found =
      let (c, probes, _) =
        (one_prober rt s.manager k uid (Reachable-simulated rt reachable)).0 pod found in
      let live : is_done s c ≡ false = ground (arith, going, probes.live) in
      let alive =
        not_ended (is_ended (s.phase c)) (λ h. clash live (Reachable-HasReturned reachable c h)) in
      (c, probes, alive, turn_due c _ s (s.phase c) refl alive)
