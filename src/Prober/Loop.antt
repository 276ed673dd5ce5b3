-- ===== src/Prober/Loop.antt =====
-- The goroutines (`run` and `probeOnce` of internal/prober/prober.go) and the end of the prober (`Start`). A
-- goroutine is at one of the places where it waits: for the lock, a timer, the checker or the channel.
pub mod Simulation
pub mod Places
pub mod Running
pub mod Turns
pub mod Pace
pub mod Return
pub mod Events
use hotswap_operator.Prelude.{
  ℕ, ◌*◌, ℤ, pos, leb_ℤ, ltb_ℤ, ◌==◌, String, Bool, true, false, ◌||◌, ◌≡◌, Option, none, some,
  List, [], ◌∷◌, if◌then◌else◌,
}
use hotswap_operator.Prelude.Dict.{lookup}
use hotswap_operator.Api.Kube.{Time, NamespacedName}
use hotswap_operator.Prober.Config.{ProbeConfig, PodTarget, second}
use hotswap_operator.Prober.Manager.{
  PolicyEntry, Worker, Manager, Runtime, new_manager, key, sync, set_seen_ready, forget,
  begin_probe, finish_probe, send_event,
}

-- Before the first lock; in the wait for the initial delay; at the head of the loop, before the lock of
-- `probeOnce`; at the checker; at the send of an event; in the wait for the ticker; after the return. Each
-- but the first and the last keeps the period that `run` has read.
pub data Phase : Type 0 where
  entering : Phase
  delaying : (period : ℤ) → Phase
  beginning : (period : ℤ) → Phase
  checking : (period : ℤ) → ProbeConfig → (ip : String) → Phase
  reporting : (period : ℤ) → Phase
  waiting : (period : ℤ) → Phase
  ended : Phase

-- `if period <= 0 { period = 10 * time.Second }`.
abbrev pub ticker_period : ℤ → ℤ
ticker_period p = if leb_ℤ p (pos 0) then pos (10 * second) else p

-- The beginning of `run`, under the lock, with the entry of the policy.
unfoldable pub enter : Option PolicyEntry → Phase
enter none = ended
enter (some pe) =
    let period = ticker_period pe.cfg.period in
    if ltb_ℤ (pos 0) pe.cfg.initial_delay then delaying period else beginning period

-- The first half of `probeOnce`: without the policy or the pod it returns, and `run` waits for the ticker.
unfoldable pub begin : ℤ → Option (ProbeConfig × String) → Phase
begin period none = waiting period
begin period (some (cfg, ip)) = checking period cfg ip

-- The end of `probeOnce`: an event is due if the health has flipped.
unfoldable pub conclude : ℤ → Bool → Phase
conclude period flipped = if flipped then reporting period else waiting period

-- The label of `metrics.ProbeTotal`.
abbrev pub result_label : Bool → String
result_label ok = if ok then "success" else "failure"

-- The manager, where each goroutine stands, whether the root context is cancelled, and the increments of
-- `metrics.ProbeTotal`, the newest first.
pub record Prober : Type 0 where
  pub manager : Manager
  pub phase : ℕ → Phase
  pub stopped : Bool
  pub counted : List (NamespacedName × String)

unfoldable pub new_prober : Prober
new_prober = record { manager = new_manager; phase = λ c. entering; stopped = false; counted = [] }

-- `ctx.Done()` of context `c`, a child of the root context.
abbrev pub is_done : Prober → ℕ → Bool
is_done s c = s.stopped || s.manager.cancelled c

-- Goroutine `c` goes on at another place.
abbrev pub at : ℕ → Phase → Prober → Prober
at c ph s = record s { phase = λ d. if d == c then ph else s.phase d }

module _ (rt : Runtime) where
  -- The second half of `probeOnce`, with the answer of the checker and the time of the clock.
  unfoldable pub answer : ℕ → Worker → ℤ → ProbeConfig → Bool → Time → Prober → Prober
  answer c w period cfg ok now s =
      let (m, flipped) = finish_probe rt w.policy w.uid cfg ok now s.manager in
      let counted = (w.policy, result_label ok) ∷ s.counted in
      at c (conclude period flipped) (record s { manager = m; counted = counted })

  -- One turn of goroutine `c`, of worker `w`. Where a `select` can take two cases, so can the turn.
  pub data Turn (c : ℕ) (w : Worker) (s : Prober) : Prober → Type 0 where
    enters :
        s.phase c ≡ entering
        → Turn c w s (at c (enter (lookup (key rt w.policy) s.manager.policies)) s)
    delay_over : (p : ℤ) → s.phase c ≡ delaying p → Turn c w s (at c (beginning p) s)
    delay_cancelled :
        (p : ℤ) → s.phase c ≡ delaying p → is_done s c ≡ true → Turn c w s (at c ended s)
    begins :
        (p : ℤ)
        → s.phase c ≡ beginning p
        → Turn c w s (at c (begin p (begin_probe rt w.policy w.uid s.manager)) s)
    answers :
        (p : ℤ) (cfg : ProbeConfig) (ip : String) (ok : Bool) (now : Time)
        → s.phase c ≡ checking p cfg ip
        → Turn c w s (answer c w p cfg ok now s)
    sends :
        (p : ℤ) (m : Manager)
        → s.phase c ≡ reporting p
        → send_event w.policy s.manager ≡ some m
        → Turn c w s (at c (waiting p) (record s { manager = m }))
    gives_up :
        (p : ℤ) → s.phase c ≡ reporting p → is_done s c ≡ true → Turn c w s (at c (waiting p) s)
    ticks : (p : ℤ) → s.phase c ≡ waiting p → Turn c w s (at c (beginning p) s)
    ends : (p : ℤ) → s.phase c ≡ waiting p → is_done s c ≡ true → Turn c w s (at c ended s)

  -- One step of the prober: a call of the reconciler, the reader of the events, the end by `Start`, or a
  -- goroutine's turn.
  pub data Step (s : Prober) : Prober → Type 0 where
    synced :
        (nn : NamespacedName) (cfg : ProbeConfig) (targets : List PodTarget)
        → Step s (record s { manager = sync rt nn cfg targets s.manager })
    seen :
        (nn : NamespacedName) (uid : String)
        → Step s (record s { manager = set_seen_ready rt nn uid s.manager })
    forgotten : (nn : NamespacedName) → Step s (record s { manager = forget rt nn s.manager })
    received :
        (nn : NamespacedName) (rest : List NamespacedName)
        → s.manager.events ≡ nn ∷ rest
        → Step s (record s { manager = record s.manager { events = rest } })
    stops : Step s (record s { stopped = true })
    turns :
        (c : ℕ) (w : Worker) {s' : Prober}
        → s.manager.workers c ≡ some w
        → Turn c w s s'
        → Step s s'

  pub data Reachable : Prober → Type 0 where
    initial : Reachable new_prober
    next : {s s' : Prober} → Reachable s → Step s s' → Reachable s'
