-- ===== src/Prober/Loop/Return.antt =====
-- How a goroutine of `run` returns.
use hotswap_operator.Prelude.{
  ℕ, zero, suc, ◌+◌, ◌≤◌, ◌==◌, String, Bool, true, false, ◌≡◌, refl, ap, ◌∙◌, inl, inr, Option,
  none, some, if◌then◌else◌, arith, Bool-cases,
}
use hotswap_operator.Api.Kube.{Time}
use hotswap_operator.Prober.Config.{ProbeConfig}
use hotswap_operator.Prober.Threshold.{PodEntry}
use hotswap_operator.Prober.Manager.{
  Worker, Manager, Runtime, key, slot, store_result, finish_probe,
}
use hotswap_operator.Prober.Manager.Store.{set_pods-rest}
use hotswap_operator.Prober.Loop.{
  Phase, entering, delaying, beginning, checking, reporting, waiting, ended, Prober, is_done,
  answer, Turn, enters, delay_cancelled, begins, answers, gives_up, ends, Step, turns,
}
use hotswap_operator.Prober.Loop.Places.{is_ended, step-is_done}
use hotswap_operator.Prober.Loop.Turns.{
  distance, distance_most, tick_of, Run, stays, goes_on, turns_taken, ticks_seen, Turn-distance,
}
use hotswap_operator.Prober.Loop.Pace.{pace}

store_result-workers :
    (k uid : String) (o : Option PodEntry) (cfg : ProbeConfig) (ok : Bool) (now : Time)
    (m : Manager)
    → (store_result k uid o cfg ok now m).0.workers ≡ m.workers
store_result-workers k uid none cfg ok now m = refl
store_result-workers k uid (some pod) cfg ok now m = (set_pods-rest k _ m).2

distance-returned : (ph : Phase) → distance ph ≤ 0 → is_ended ph ≡ true
distance-returned ph h = ground arith

no_more : (b : Bool) (n m : ℕ) → n ≡ 0 → m ≡ 0 → (if b then n else 0) + m ≡ 0
no_more b n m e f = ground arith

module _ (rt : Runtime) where
  run-is_done : (c : ℕ) {s s' : Prober} → Run rt s s' → is_done s c ≡ true → is_done s' c ≡ true
  run-is_done c stays h = h
  run-is_done c (goes_on {s'} {s''} run step) h =
      step-is_done rt {s = s'} {s' = s''} c step (run-is_done c run h)

  -- A turn that is no tick, and starts and ends no other goroutine.
  Proceeds : ℕ → Worker → Prober → Type 0
  Proceeds c w s =
      (s' : Prober) × (t : Turn rt c w s s') × (tick_of rt t ≡ 0)
      × (s'.manager.workers ≡ s.manager.workers)

  -- A goroutine whose context is done need not wait for anything but the answer of the checker.
  proceeds :
      (c : ℕ) (w : Worker) (s : Prober) (ph : Phase)
      → s.phase c ≡ ph
      → is_ended ph ≡ false
      → is_done s c ≡ true
      → Proceeds c w s
  unfolding Proceeds answer finish_probe
  proceeds c w s entering e h done = (_, enters e, refl, refl)
  proceeds c w s (delaying p) e h done = (_, delay_cancelled p e done, refl, refl)
  proceeds c w s (beginning p) e h done = (_, begins p e, refl, refl)
  proceeds c w s (checking p cfg ip) e h done = (
    _,
    answers p cfg ip false 0 e,
    refl,
    store_result-workers (key rt w.policy) w.uid (slot (key rt w.policy) w.uid s.manager) cfg false
        0 s.manager,
  )
  proceeds c w s (reporting p) e h done = (_, gives_up p e done, refl, refl)
  proceeds c w s (waiting p) e h done = (_, ends p e done, refl, refl)
  proceeds c w s ended e h done = absurd cc

  -- A history without ticks of `c` that leads to its return.
  abbrev pub Returns : ℕ → Prober → Type 0
  Returns c s =
      (s' : Prober) × (run : Run rt s s') × (ticks_seen rt c run ≡ 0)
      × (is_ended (s'.phase c) ≡ true)

  returns :
      (n c : ℕ) (w : Worker) {s s' : Prober} (run : Run rt s s')
      → distance (s'.phase c) ≤ n
      → s'.manager.workers c ≡ some w
      → is_done s' c ≡ true
      → ticks_seen rt c run ≡ 0
      → Returns c s
  unfolding Proceeds ticks_seen
  returns zero c w {s} {s'} run near running done quiet =
      (s', run, quiet, distance-returned (s'.phase c) near)
  returns (suc n) c w {s} {s'} run near running done quiet =
      elim (Bool-cases (is_ended (s'.phase c))) [
        | inl returned ↦ (s', run, quiet, returned)
        | inr going ↦
            let (s'', t, tickless, same) = proceeds c w s' (s'.phase c) refl going done in
            let step : Step rt s' s'' = turns c w running t in
            let lower = Turn-distance rt c w s' s'' t in
            returns n c w (goes_on run step) (omega (arith, lower, tickless))
              (ap (λ f. f c) same ∙ running) (step-is_done rt {s = s'} {s' = s''} c step done)
              (no_more (c == c) (tick_of rt t) (ticks_seen rt c run) tickless quiet)
      ]

  -- Once its context is done, in any history without a further tick of its ticker a goroutine takes at most six
  -- turns, and the history can be brought to its return, without a tick and also where the channel of
  -- the events is full.
  pub winds_down :
      (c : ℕ) (w : Worker) {s s' : Prober} (run : Run rt s s')
      → is_done s c ≡ true
      → ticks_seen rt c run ≡ 0
      → s'.manager.workers c ≡ some w
      → (turns_taken rt c run ≤ 6)
        × ((s'' : Prober) × (rest : Run rt s' s'') × (ticks_seen rt c rest ≡ 0)
            × (is_ended (s''.phase c) ≡ true)
            × (turns_taken rt c run + turns_taken rt c rest ≤ 6))
  unfolding ticks_seen
  winds_down c w {s} {s'} run done quiet running =
      let bound = pace rt c run in
      let start = distance_most (s.phase c) in
      let (s'', rest, tickless, returned) =
        returns 6 c w {s = s'} {s' = s'} stays (distance_most (s'.phase c)) running
          (run-is_done c run done) refl in
      let bound' = pace rt c rest in (omega arith, (s'', rest, tickless, returned, omega arith))
