-- ===== src/Prober/Manager/Interleavings.antt =====
-- The reconciler, the goroutines and the reader of the events call the manager in any order; each call
-- holds the lock, so a history of the manager is a sequence of whole calls.
use hotswap_operator.Prelude.{
  ℕ, String, Bool, true, false, ltb, length, ◌++◌, if◌then◌else◌, ◌≡◌, refl, sym, ap, ◌∙◌, none,
  some, List, [], ◌∷◌,
}
use hotswap_operator.Api.Kube.{NamespacedName, Time}
use hotswap_operator.Prober.Config.{ProbeConfig, PodTarget}
use hotswap_operator.Prober.Threshold.{PodEntry}
use hotswap_operator.Prober.Manager.{
  Manager, Runtime, slot, new_manager, events_cap, send_event, sync, set_seen_ready, forget,
  finish_probe,
}
use hotswap_operator.Prober.Manager.Store.{slot-of_policies, IsTidy-of_policies}
use hotswap_operator.Prober.Manager.Workers.{Probes, IsSound, moved, cancel_of, new_manager-IsSound}
use hotswap_operator.Prober.Manager.Lifecycle.{
  sync-IsSound, set_seen_ready-IsSound, finish_probe-IsSound,
}
use hotswap_operator.Prober.Manager.Removal.{forget-IsSound}

sent_events :
    (b : Bool) (m : Manager) (queue : List NamespacedName) {m' : Manager}
    → (if b then some (record m { events = queue }) else none) ≡ some m'
    → (es : List NamespacedName) × (m' ≡ record m { events = es })
sent_events true m queue h = (queue, cc)
sent_events false m queue h = absurd cc

some_same : {a b : ℕ} → some a ≡ some b → a ≡ b
some_same e = cc

module _ (rt : Runtime) where
  -- One call. A probe may be recorded at any time, also by a goroutine whose context has been cancelled
  -- meanwhile, and with a configuration that is out of date.
  pub data Step : Manager → Manager → Type 0 where
    synced :
        (nn : NamespacedName) (cfg : ProbeConfig) (targets : List PodTarget) {m : Manager}
        → Step m (sync rt nn cfg targets m)
    seen : (nn : NamespacedName) (uid : String) {m : Manager} → Step m (set_seen_ready rt nn uid m)
    forgotten : (nn : NamespacedName) {m : Manager} → Step m (forget rt nn m)
    probed :
        (nn : NamespacedName) (uid : String) (cfg : ProbeConfig) (ok : Bool) (now : Time)
        {m : Manager}
        → Step m (finish_probe rt nn uid cfg ok now m).0
    sent : (nn : NamespacedName) {m m' : Manager} → send_event nn m ≡ some m' → Step m m'
    received :
        (nn : NamespacedName) (rest : List NamespacedName) {m : Manager}
        → m.events ≡ nn ∷ rest
        → Step m (record m { events = rest })

  pub data Reachable : Manager → Type 0 where
    initial : Reachable new_manager
    next : {m m' : Manager} → Reachable m → Step m m' → Reachable m'

  events-IsSound :
      (es : List NamespacedName) (m : Manager)
      → IsSound rt m
      → IsSound rt (record m { events = es })
  events-IsSound es m sound =
      let m' = record m { events = es } in
      record {
        tidy = IsTidy-of_policies m m' refl sound.tidy;
        tracked = λ k uid pod h.
            let (c, cancel, lt, probes) =
              sound.tracked k uid pod (sym (slot-of_policies k uid m m' refl) ∙ h) in
            (c, cancel, lt, moved rt m m' k uid k uid c refl refl refl refl probes);
        owned = λ c w running live.
            let (pod, found, cancel) = sound.owned c w running live in
            (pod, slot-of_policies _ w.uid m m' refl ∙ found, cancel);
        fresh = sound.fresh;
      }

  pub send_event-policies :
      (nn : NamespacedName) (m m' : Manager) → send_event nn m ≡ some m' → m'.policies ≡ m.policies
  unfolding send_event
  send_event-policies nn m m' h =
      let (es, e) = sent_events (ltb (length m.events) events_cap) m (m.events ++ nn ∷ []) h in
      ap (λ x. x.policies) e

  send_event-IsSound :
      (nn : NamespacedName) (m m' : Manager)
      → send_event nn m ≡ some m'
      → IsSound rt m
      → IsSound rt m'
  unfolding send_event
  send_event-IsSound nn m m' h sound =
      let (es, e) = sent_events (ltb (length m.events) events_cap) m (m.events ++ nn ∷ []) h in
      rw e (events-IsSound es m sound)

  step-IsSound : {m m' : Manager} → Step m m' → IsSound rt m → IsSound rt m'
  step-IsSound (synced nn cfg targets {m}) sound = sync-IsSound rt nn cfg targets m sound
  step-IsSound (seen nn uid {m}) sound = set_seen_ready-IsSound rt nn uid m sound
  step-IsSound (forgotten nn {m}) sound = (forget-IsSound rt nn m sound).0
  step-IsSound (probed nn uid cfg ok now {m}) sound =
      finish_probe-IsSound rt nn uid cfg ok now m sound
  step-IsSound (sent nn {m} {m'} h) sound = send_event-IsSound nn m m' h sound
  step-IsSound (received nn rest {m} e) sound = events-IsSound rest m sound

  pub Reachable-IsSound : {m : Manager} → Reachable m → IsSound rt m
  Reachable-IsSound initial = new_manager-IsSound rt
  Reachable-IsSound (next before step) = step-IsSound step (Reachable-IsSound before)

  -- After any sequence of calls, each pod that the manager knows is probed by exactly one goroutine whose context
  -- is not cancelled, and the goroutines with such a context probe known pods alone.
  pub one_prober :
      (m : Manager) (k uid : String)
      → Reachable m
      → ((pod : PodEntry)
          → slot k uid m ≡ some pod
          → (c : ℕ) × Probes rt m k uid c × ((d : ℕ) → Probes rt m k uid d → d ≡ c))
        × ((c : ℕ) → Probes rt m k uid c → (pod : PodEntry) × (slot k uid m ≡ some pod))
  one_prober m k uid reachable =
      let sound = Reachable-IsSound reachable in
      (
        λ pod h.
            let (c, cancel, lt, probes) = sound.tracked k uid pod h in
            (
              c,
              probes,
              λ d other.
                  let (pod', found, cancel') = sound.owned d _ other.running other.live in
                  let here = ap (λ x. slot x uid m) (sym other.known) ∙ found in
                  some_same (sym cancel' ∙ ap cancel_of (sym here ∙ h) ∙ cancel),
            ),
        λ c probes.
            let (pod, found, cancel) = sound.owned c _ probes.running probes.live in
            (pod, ap (λ x. slot x uid m) (sym probes.known) ∙ found),
      )
