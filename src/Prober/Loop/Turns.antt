-- ===== src/Prober/Loop/Turns.antt =====
-- What one turn of a goroutine does to its place, and the histories that are made of such turns.
use hotswap_operator.Prelude.{
  ℕ, ℤ, suc, ◌+◌, ◌*◌, ◌≤◌, ◌==◌, String, Bool, true, false, ◌≡◌, refl, sym, ap, ◌∙◌, ◌⊎◌, inl, inr,
  Option, none, some, if◌then◌else◌, arith,
}
use hotswap_operator.Prelude.Dict.{lookup}
use hotswap_operator.Prober.Config.{ProbeConfig}
use hotswap_operator.Prober.Manager.{Worker, PolicyEntry, Runtime, key, begin_probe, finish_probe}
use hotswap_operator.Prober.Loop.{
  Phase, entering, delaying, beginning, checking, reporting, waiting, ended, enter, begin, conclude,
  Prober, answer, Turn, enters, delay_over, delay_cancelled, begins, answers, sends, gives_up,
  ticks, ends, Step, synced, seen, forgotten, received, stops, turns,
}
use hotswap_operator.Prober.Loop.Places.{is_ended, phase-at}

-- How many turns are left until the wait for the ticker is over.
abbrev pub distance : Phase → ℕ
distance ended = 0
distance (waiting p) = 1
distance (reporting p) = 2
distance (checking p cfg ip) = 3
distance (beginning p) = 4
distance (delaying p) = 5
distance entering = 6

pub distance_most : (ph : Phase) → distance ph ≤ 6
distance_most ph = ground arith

-- The period that the goroutine has read.
abbrev pub period_of : Phase → Option ℤ
period_of ended = none
period_of (waiting p) = some p
period_of (reporting p) = some p
period_of (checking p cfg ip) = some p
period_of (beginning p) = some p
period_of (delaying p) = some p
period_of entering = none

enter-distance : (o : Option PolicyEntry) → distance (enter o) ≤ 5
unfolding enter
enter-distance o = ground arith

begin-distance : (p : ℤ) (o : Option (ProbeConfig × String)) → distance (begin p o) ≤ 3
unfolding begin
begin-distance p o = ground arith

conclude-distance : (p : ℤ) (b : Bool) → distance (conclude p b) ≤ 2
unfolding conclude
conclude-distance p b = ground arith

one_less : {a b : ℕ} → a ≤ b → suc a ≤ suc b + 4 * 0
one_less h = omega arith

begin-period : (p : ℤ) (o : Option (ProbeConfig × String)) → period_of (begin p o) ≡ some p
unfolding begin
begin-period p none = refl
begin-period p (some (cfg, ip)) = refl

conclude-period : (p : ℤ) (b : Bool) → period_of (conclude p b) ≡ some p
unfolding conclude
conclude-period p b = ground arith

lost : {p : ℤ} → none ≡ some p → ⊥
lost e = cc

module _ (rt : Runtime) where
  -- The turn is a tick of the ticker.
  abbrev pub tick_of : {c : ℕ} {w : Worker} {s s' : Prober} → Turn rt c w s s' → ℕ
  tick_of (enters e) = 0
  tick_of (delay_over p e) = 0
  tick_of (delay_cancelled p e d) = 0
  tick_of (begins p e) = 0
  tick_of (answers p cfg ip ok now e) = 0
  tick_of (sends p m e h) = 0
  tick_of (gives_up p e d) = 0
  tick_of (ticks p e) = 1
  tick_of (ends p e d) = 0

  -- A history of the prober from one state to another.
  pub data Run (s : Prober) : Prober → Type 0 where
    stays : Run s s
    goes_on : {s' s'' : Prober} → Run s s' → Step rt s' s'' → Run s s''

  -- How many turns goroutine `c` takes, and how many of them are ticks of its ticker.
  abbrev pub step_turns : (c : ℕ) {s s' : Prober} → Step rt s s' → ℕ
  step_turns c (synced nn cfg targets) = 0
  step_turns c (seen nn uid) = 0
  step_turns c (forgotten nn) = 0
  step_turns c (received nn rest e) = 0
  step_turns c stops = 0
  step_turns c (turns d w running t) = if c == d then 1 else 0

  abbrev pub step_ticks : (c : ℕ) {s s' : Prober} → Step rt s s' → ℕ
  step_ticks c (synced nn cfg targets) = 0
  step_ticks c (seen nn uid) = 0
  step_ticks c (forgotten nn) = 0
  step_ticks c (received nn rest e) = 0
  step_ticks c stops = 0
  step_ticks c (turns d w running t) = if c == d then tick_of t else 0

  unfoldable pub turns_taken : (c : ℕ) {s s' : Prober} → Run s s' → ℕ
  turns_taken c stays = 0
  turns_taken c (goes_on run step) = step_turns c step + turns_taken c run

  unfoldable pub ticks_seen : (c : ℕ) {s s' : Prober} → Run s s' → ℕ
  ticks_seen c stays = 0
  ticks_seen c (goes_on run step) = step_ticks c step + ticks_seen c run

  pub Turn-distance :
      (c : ℕ) (w : Worker) (s s' : Prober) (t : Turn rt c w s s')
      → suc (distance (s'.phase c)) ≤ distance (s.phase c) + 4 * tick_of t
  unfolding answer
  Turn-distance c w s _ (enters e) =
      rw (phase-at c _ s, e)
        (one_less (enter-distance (lookup (key rt w.policy) s.manager.policies)))
  Turn-distance c w s _ (delay_over p e) = rw (phase-at c _ s, e) (omega arith)
  Turn-distance c w s _ (delay_cancelled p e d) = rw (phase-at c _ s, e) (omega arith)
  Turn-distance c w s _ (begins p e) =
      rw (phase-at c _ s, e) (one_less (begin-distance p (begin_probe rt w.policy w.uid s.manager)))
  Turn-distance c w s _ (answers p cfg ip ok now e) =
      rw (phase-at c _ s, e)
        (one_less (conclude-distance p (finish_probe rt w.policy w.uid cfg ok now s.manager).1))
  Turn-distance c w s _ (sends p m e h) = rw (phase-at c _ s, e) (omega arith)
  Turn-distance c w s _ (gives_up p e d) = rw (phase-at c _ s, e) (omega arith)
  Turn-distance c w s _ (ticks p e) = rw (phase-at c _ s, e) (omega arith)
  Turn-distance c w s _ (ends p e d) = rw (phase-at c _ s, e) (omega arith)

  pub Turn-period :
      (c : ℕ) (w : Worker) (s s' : Prober) (p : ℤ)
      → Turn rt c w s s'
      → period_of (s.phase c) ≡ some p
      → (is_ended (s'.phase c) ≡ true) ⊎ (period_of (s'.phase c) ≡ some p)
  unfolding answer
  Turn-period c w s _ p (enters e) h = absurd (lost (sym (ap period_of e) ∙ h))
  Turn-period c w s _ p (delay_over q e) h =
      inr (ap period_of (phase-at c _ s) ∙ sym (ap period_of e) ∙ h)
  Turn-period c w s _ p (delay_cancelled q e d) h = inl (ap is_ended (phase-at c _ s))
  Turn-period c w s _ p (begins q e) h =
      inr (ap period_of (phase-at c _ s) ∙ begin-period q _ ∙ sym (ap period_of e) ∙ h)
  Turn-period c w s _ p (answers q cfg ip ok now e) h =
      inr (ap period_of (phase-at c _ s) ∙ conclude-period q _ ∙ sym (ap period_of e) ∙ h)
  Turn-period c w s _ p (sends q m e sent) h =
      inr (ap period_of (phase-at c _ s) ∙ sym (ap period_of e) ∙ h)
  Turn-period c w s _ p (gives_up q e d) h =
      inr (ap period_of (phase-at c _ s) ∙ sym (ap period_of e) ∙ h)
  Turn-period c w s _ p (ticks q e) h =
      inr (ap period_of (phase-at c _ s) ∙ sym (ap period_of e) ∙ h)
  Turn-period c w s _ p (ends q e d) h = inl (ap is_ended (phase-at c _ s))

  -- No turn is left to a goroutine that has returned.
  pub Turn-returned :
      (c : ℕ) (w : Worker) (s s' : Prober) → Turn rt c w s s' → is_ended (s.phase c) ≡ false
  Turn-returned c w s _ (enters e) = ap is_ended e
  Turn-returned c w s _ (delay_over q e) = ap is_ended e
  Turn-returned c w s _ (delay_cancelled q e d) = ap is_ended e
  Turn-returned c w s _ (begins q e) = ap is_ended e
  Turn-returned c w s _ (answers q cfg ip ok now e) = ap is_ended e
  Turn-returned c w s _ (sends q m e sent) = ap is_ended e
  Turn-returned c w s _ (gives_up q e d) = ap is_ended e
  Turn-returned c w s _ (ticks q e) = ap is_ended e
  Turn-returned c w s _ (ends q e d) = ap is_ended e
