-- ===== src/Prober/Loop/Events.antt =====
-- What becomes of the event of a flip (the `select` at the end of `probeOnce`).
use hotswap_operator.Prelude.{
  ℕ, ℤ, ◌==◌, Bool, true, false, ltb, length, ◌≡◌, ◌⊎◌, sym, ap, ◌∙◌, inl, inr, Option, none, some,
  List, [], ◌∷◌, ◌++◌, ==_iff, if◌then◌else◌, Bool-cases,
}
use hotswap_operator.Api.Kube.{NamespacedName}
use hotswap_operator.Prober.Manager.{Worker, Manager, Runtime, events_cap, send_event}
use hotswap_operator.Prober.Manager.Workers.{same_worker}
use hotswap_operator.Prober.Loop.{
  Phase, reporting, Prober, is_done, Turn, enters, delay_over, delay_cancelled, begins, answers,
  sends, gives_up, ticks, ends, Step, synced, seen, forgotten, received, stops, turns,
}
use hotswap_operator.Prober.Loop.Places.{clash, Turn-others}

-- Whether the goroutine holds an event.
abbrev holds_event : Phase → Bool
holds_event (reporting p) = true
holds_event _ = false

-- The event is in the channel, behind those before it.
abbrev pub IsQueued : NamespacedName → Prober → Prober → Type 0
IsQueued nn s s' = s'.manager.events ≡ s.manager.events ++ nn ∷ []

abbrev events_in : Option Manager → List NamespacedName
events_in none = []
events_in (some m) = m.events

sent_queue :
    (b : Bool) (m m' : Manager) (queue : List NamespacedName)
    → (if b then some (record m { events = queue }) else none) ≡ some m'
    → m'.events ≡ queue
sent_queue true m m' queue e = ap events_in (sym e)
sent_queue false m m' queue e = absurd cc

send_event-events :
    (nn : NamespacedName) (m m' : Manager)
    → send_event nn m ≡ some m'
    → m'.events ≡ m.events ++ nn ∷ []
unfolding send_event
send_event-events nn m m' e = sent_queue (ltb (length m.events) events_cap) m m' _ e

module _ (rt : Runtime) where
  Turn-event :
      (c : ℕ) (w : Worker) (s s' : Prober) (p : ℤ)
      → Turn rt c w s s'
      → s.phase c ≡ reporting p
      → is_done s c ≡ false
      → IsQueued w.policy s s'
  Turn-event c w s _ p (enters e) h live = absurd cc
  Turn-event c w s _ p (delay_over q e) h live = absurd cc
  Turn-event c w s _ p (delay_cancelled q e d) h live = absurd cc
  Turn-event c w s _ p (begins q e) h live = absurd cc
  Turn-event c w s _ p (answers q cfg ip ok now e) h live = absurd cc
  Turn-event c w s _ p (sends q m e sent) h live = send_event-events w.policy s.manager m sent
  Turn-event c w s _ p (gives_up q e d) h live = absurd (clash live d)
  Turn-event c w s _ p (ticks q e) h live = absurd cc
  Turn-event c w s _ p (ends q e d) h live = absurd cc

  -- At each step of the prober, a goroutine with a live context that has an event to send still has it, or the event
  -- now stands in the channel behind those before it: no flip is lost to the reconciler while the probe lives.
  pub event_kept :
      (c : ℕ) (w : Worker) (p : ℤ) (s s' : Prober)
      → Step rt s s'
      → s.manager.workers c ≡ some w
      → s.phase c ≡ reporting p
      → is_done s c ≡ false
      → (s'.phase c ≡ reporting p) ⊎ IsQueued w.policy s s'
  event_kept c w p s _ (synced nn cfg targets) running h live = inl h
  event_kept c w p s _ (seen nn uid) running h live = inl h
  event_kept c w p s _ (forgotten nn) running h live = inl h
  event_kept c w p s _ (received nn rest e) running h live = inl h
  event_kept c w p s _ stops running h live = inl h
  event_kept c w p s s' (turns d v own t) running h live = elim (Bool-cases (c == d)) [
    | inl same ↦
        let cd : c ≡ d = (==_iff c d).0 same in
        let (policy, _) = same_worker (sym own ∙ ap s.manager.workers (sym cd) ∙ running) in
        let queued =
          Turn-event d v s s' p t (ap s.phase (sym cd) ∙ h) (ap (is_done s) (sym cd) ∙ live) in
        inr (queued ∙ ap (λ nn. s.manager.events ++ nn ∷ []) policy)
    | inr other ↦ inl ((Turn-others rt d v s s' t).0 c other ∙ h)
  ]
