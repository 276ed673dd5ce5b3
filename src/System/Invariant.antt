-- ===== src/System/Invariant.antt =====
-- In any history of the system, what the prober holds is backed by its log.
use mathlib.Core.Path.{subst}
use hotswap_operator.Prelude.{
  str_eq, str_eq_iff, arith, Bool-cases, inl, inr, Option, none, ℕ, String, ◌≡◌, refl, sym, ◌∙◌,
  some, List, ◌∷◌,
}
use hotswap_operator.Prelude.Dict.{lookup}
use hotswap_operator.Api.Kube.{NamespacedName}
use hotswap_operator.Prober.Config.{ProbeConfig, PodTarget}
use hotswap_operator.Prober.Threshold.{PodEntry, new_entry}
use hotswap_operator.Prober.Manager.Sync.{last_target, synced, sync_slots}
use hotswap_operator.Prober.Manager.Store.{IsTidy}
use hotswap_operator.Prober.Manager.{
  Manager, Worker, Runtime, slot, key, sync, set_seen_ready, forget, new_manager, pods_of,
}
use hotswap_operator.Prober.Manager.Everywhere.{
  Holds, Everywhere, Holds-map, Everywhere-of_policies, sync-Everywhere, set_seen_ready-Everywhere,
  finish_probe-Everywhere, forget-Everywhere,
}
use hotswap_operator.Prober.Manager.Interleavings.{Reachable-IsSound, send_event-policies}
use hotswap_operator.Prober.Loop
use hotswap_operator.Prober.Loop.{
  Prober, new_prober, Turn, enters, delay_over, delay_cancelled, begins, answers, sends, gives_up,
  ticks, ends, answer,
}
use hotswap_operator.Prober.Loop.Simulation.{Reachable-simulated}
use hotswap_operator.System.{
  Evidence, made_by, probed, ready, System, new_system, on_manager, logged, Move, turns, received,
  stops, Reachable,
}
use hotswap_operator.System.Refinement.{Reachable_keeps}
use hotswap_operator.System.Results.{IsTypedLog}
use hotswap_operator.System.Backing.{
  Backed, Backed-same, new_entry-Backed, refresh-Backed, ready_same, probed_same, marked-Backed,
  record_probe-Backed,
}
use hotswap_operator.System.Taken.{made_by_same, made_by_new, IsTypedLog-of_made_by}

-- All that the prober holds is backed, as long as the thresholds of the probes are of type `int32`.
abbrev pub IsBacked : List Evidence → Manager → Type 0
IsBacked log m = IsTypedLog log → Everywhere (Backed log) m

known_twice : {pod : PodEntry} → some pod ≡ none → ⊥
known_twice e = cc

module _ (rt : Runtime) where
  answer-IsBacked :
      (c : ℕ) (w : Worker) (s s' : Prober) (turn : Turn rt c w s s') (log : List Evidence)
      → IsBacked log s.manager
      → IsBacked (logged rt c w s s' turn log) s'.manager
  unfolding logged answer
  answer-IsBacked c w s _ (enters e) log h = h
  answer-IsBacked c w s _ (delay_over p e) log h = h
  answer-IsBacked c w s _ (delay_cancelled p e d) log h = h
  answer-IsBacked c w s _ (begins p e) log h = h
  answer-IsBacked c w s _ (answers p cfg ip ok now e) log h = λ typed.
      let k = key rt w.policy in
      finish_probe-Everywhere (Backed log) (Backed (probed k w.uid cfg ok ∷ log)) k w.uid
        (λ j i pod apart. Backed-same log _ j i pod (probed_same log k w.uid j i cfg ok apart)) rt
        w.policy cfg ok now s.manager refl
        (λ pod. record_probe-Backed log k w.uid pod cfg ok now typed.0) (h typed.1)
  answer-IsBacked c w s _ (sends p m e h') log h = λ typed.
      Everywhere-of_policies (Backed log) s.manager m
        (send_event-policies rt w.policy s.manager m h') (h typed)
  answer-IsBacked c w s _ (gives_up p e d) log h = h
  answer-IsBacked c w s _ (ticks p e) log h = h
  answer-IsBacked c w s _ (ends p e d) log h = h

  -- What holds in any history: the prober's part is a history of its own, and what it holds is backed.
  abbrev pub Invariant : System → Type 0
  Invariant s = Loop.Reachable rt s.prober × IsBacked s.log s.prober.manager

  pub moved : (s s' : System) → Move rt s s' → Invariant s → Invariant s'
  moved s _ (turns c w p running turn) (reached, h) =
      (Loop.next reached (Loop.turns c w running turn), answer-IsBacked c w s.prober p turn s.log h)
  moved s _ (received nn rest e) (reached, h) = (
    Loop.next reached (Loop.received nn rest e),
    λ typed. Everywhere-of_policies (Backed s.log) s.prober.manager _ refl (h typed),
  )
  moved s _ stops (reached, h) = (Loop.next reached Loop.stops, h)

  synced_pod :
      (log : List Evidence) (k i : String) (ts : List PodTarget) (m : Manager) (c : ℕ)
      (target : Option PodTarget) (old : Option PodEntry)
      → last_target i ts ≡ target
      → slot k i m ≡ old
      → Holds (Backed log k i) old
      → Holds (Backed (made_by k ts m log) k i) (synced target old c)
  unfolding new_entry
  synced_pod log k i ts m c none old e f h = tt
  synced_pod log k i ts m c (some t) none e f h =
      new_entry-Backed (made_by k ts m log) k i t (some c) (made_by_new k ts m log i f e)
  synced_pod log k i ts m c (some t) (some pod) e f h =
      refresh-Backed (made_by k ts m log) k i t pod (
        Backed-same log _ k i pod
          (made_by_same k ts m log k i (λ same gone. absurd (known_twice (sym f ∙ gone)))) h)

  -- `Sync` on the pods of its policy, and on those of the others.
  sync-Backed :
      (nn : NamespacedName) (cfg : ProbeConfig) (ts : List PodTarget) (m : Manager)
      (log : List Evidence)
      → IsTidy m
      → Everywhere (Backed log) m
      → Everywhere (Backed (made_by (key rt nn) ts m log)) (sync rt nn cfg ts m)
  sync-Backed nn cfg ts m log tidy all j i =
      let k = key rt nn in
      elim (Bool-cases (str_eq k j)) [
        | inl own ↦
            let (c, now) = sync_slots rt nn cfg ts m tidy i in
            let here =
              subst (Holds (Backed (made_by k ts m log) k i)) (sym now)
                (synced_pod log k i ts m c (last_target i ts) (slot k i m) refl refl (all k i)) in
            subst (λ x. Holds (Backed (made_by k ts m log) x i) (slot x i (sync rt nn cfg ts m)))
              ((str_eq_iff k j).0 own) here
        | inr other ↦
            let apart : k ≡ j → ⊥ = λ e. ground (arith, str_eq_iff k j) in
            let kept =
              sync-Everywhere (λ x y pod. (k ≡ x → ⊥) → Backed log x y pod) rt nn
                (λ y t c differ. absurd (differ refl)) (λ y t pod b differ. absurd (differ refl))
                cfg ts m
                (λ x y.
                  Holds-map (Backed log x y) (λ pod. (k ≡ x → ⊥) → Backed log x y pod) (slot x y m)
                    (λ pod b differ. b) (all x y)) in
            Holds-map (λ pod. (k ≡ j → ⊥) → Backed log j i pod) (Backed (made_by k ts m log) j i)
              (slot j i (sync rt nn cfg ts m))
              (λ pod b.
                Backed-same log _ j i pod (made_by_same k ts m log j i (λ same gone. apart same))
                  (b apart))
              (kept j i)
      ]

  pub syncs :
      (nn : NamespacedName) (cfg : ProbeConfig) (ts : List PodTarget) (s : System)
      → Invariant s
      → Invariant (record (on_manager (sync rt nn cfg ts) s) {
        log = made_by (key rt nn) ts s.prober.manager s.log;
      })
  syncs nn cfg ts s (reached, h) = (
    Loop.next reached (Loop.synced nn cfg ts),
    λ typed.
        sync-Backed nn cfg ts s.prober.manager s.log
          (Reachable-IsSound rt (Reachable-simulated rt reached)).tidy
          (h (IsTypedLog-of_made_by (key rt nn) ts s.prober.manager s.log typed)),
  )

  pub marks :
      (nn : NamespacedName) (uid : String) (s : System)
      → Invariant s
      → Invariant
          (record (on_manager (set_seen_ready rt nn uid) s) { log = ready (key rt nn) uid ∷ s.log })
  marks nn uid s (reached, h) = (
    Loop.next reached (Loop.seen nn uid),
    λ typed.
        set_seen_ready-Everywhere (Backed s.log) (Backed (ready (key rt nn) uid ∷ s.log))
          (key rt nn) uid
          (λ j i pod apart.
            Backed-same s.log _ j i pod (ready_same s.log (key rt nn) uid j i apart))
          rt nn s.prober.manager refl (λ pod. marked-Backed s.log (key rt nn) uid pod) (h typed.1),
  )

  pub forgets :
      (nn : NamespacedName) (s : System) → Invariant s → Invariant (on_manager (forget rt nn) s)
  forgets nn s (reached, h) = (
    Loop.next reached (Loop.forgotten nn),
    λ typed.
        forget-Everywhere (Backed s.log) rt nn s.prober.manager
          (Reachable-IsSound rt (Reachable-simulated rt reached)).tidy (h typed),
  )

  start : Invariant new_system
  unfolding new_system new_prober new_manager slot pods_of lookup
  start = (Loop.initial, λ typed j i. tt)

  pub Reachable-Invariant : {s : System} → Reachable rt s → Invariant s
  Reachable-Invariant r = Reachable_keeps rt Invariant moved syncs marks forgets start r
