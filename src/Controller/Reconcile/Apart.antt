-- ===== src/Controller/Reconcile/Apart.antt =====
-- Times that are a cooldown apart but for less than a second, and the remediation on record beside them.
use hotswap_operator.Prelude.{
  ◌<◌, ap, refl, ℕ, ℤ, ◌⊎◌, ◌+◌, ◌*◌, ◌≤◌, length, pos, ◌≤ℤ◌, false, ◌≡◌, inl, inr, Option, none,
  some, List, [], ◌∷◌, arith,
}
use hotswap_operator.Api.Kube.{Time}
use hotswap_operator.Api.{RemediationRecord}
use hotswap_operator.Prober.Config.{second}
use hotswap_operator.Controller.Logic.{cooldown_active}
use hotswap_operator.Controller.Logic.Gates.{cooldown_active_spacing}

-- The remediation on record is not in the future.
abbrev pub IsDated : Option RemediationRecord → Time → Type 0
IsDated none now = Unit
IsDated (some rec) now = rec.time ≤ now

-- How the API server keeps a `metav1.Time`: it is written as RFC 3339, without the fractions of a second, so that
-- what is read is the time or less than a second before it, and is kept as it is when it is written again.
pub record TimeStorage : Type 0 where
  pub keep : Time → Time
  pub keep_le : (t : Time) → keep t ≤ t
  pub keep_lt : (t : Time) → t < keep t + second
  pub keep-keep : (t : Time) → keep (keep t) ≡ keep t

-- The remediation as it comes back from the server.
abbrev pub stored : TimeStorage → Option RemediationRecord → Option RemediationRecord
stored store none = none
stored store (some rec) = some (record rec { time = store.keep rec.time })

pub stored-stored :
    (store : TimeStorage) (last : Option RemediationRecord)
    → stored store (stored store last) ≡ stored store last
stored-stored store none = refl
stored-stored store (some rec) = ap (λ t. some (record rec { time = t })) (store.keep-keep rec.time)

-- The newest of the times is not in the future.
abbrev pub IsPast : List Time → Time → Type 0
IsPast [] now = Unit
IsPast (t ∷ ts) now = t ≤ now

-- The newest of the times is less than a second after the remediation on record.
abbrev pub IsCovered : Option RemediationRecord → List Time → Type 0
IsCovered last [] = Unit
IsCovered none (t ∷ ts) = ⊥
IsCovered (some rec) (t ∷ ts) = t < rec.time + second

IsDated-later :
    (last : Option RemediationRecord) (now later : Time)
    → now ≤ later
    → IsDated last now
    → IsDated last later
IsDated-later none now later h k = tt
IsDated-later (some rec) now later h k = omega arith

IsPast-later :
    (times : List Time) (now later : Time) → now ≤ later → IsPast times now → IsPast times later
IsPast-later [] now later h k = tt
IsPast-later (t ∷ ts) now later h k = omega arith

stored-IsDated :
    (store : TimeStorage) (rec : RemediationRecord) (now : Time)
    → rec.time ≡ now
    → IsDated (stored store (some rec)) now
stored-IsDated store rec now t = let kept = store.keep_le rec.time in omega arith

stored-IsCovered :
    (store : TimeStorage) (rec : RemediationRecord) (now : Time) (times : List Time)
    → rec.time ≡ now
    → IsPast times now
    → IsCovered (stored store (some rec)) times
stored-IsCovered store rec now [] t past = tt
stored-IsCovered store rec now (u ∷ us) t past = let kept = store.keep_lt rec.time in omega arith

-- The last of the times, of which `t` is the first.
abbrev pub oldest : Time → List Time → Time
oldest t [] = t
oldest t (u ∷ us) = oldest u us

module _ (d : ℕ) where
  -- Neighbours are apart by more than `d` less a second.
  abbrev pub IsSpaced : List Time → Type 0
  IsSpaced [] = Unit
  IsSpaced (t ∷ []) = Unit
  IsSpaced (t ∷ u ∷ ts) = (u + d < t + second) × IsSpaced (u ∷ ts)

  pub oldest_apart :
      (t : Time) (ts : List Time)
      → IsSpaced (t ∷ ts)
      → oldest t ts + length ts * d ≤ t + length ts * second
  oldest_apart t [] h = omega arith
  oldest_apart t (u ∷ us) h = let later = oldest_apart u us h.1 in let near = h.0 in omega arith

module _ (store : TimeStorage) (d : ℕ) where
  -- What holds between the runs: the remediation on record has come back from the server and is not in the future,
  -- the runs are spaced, and the newest is less than a second after the remediation on record.
  pub record Holds (last : Option RemediationRecord) (now : Time) (times : List Time) : Type 0 where
    pub kept : stored store last ≡ last
    pub dated : IsDated last now
    pub past : IsPast times now
    pub spaced : IsSpaced d times
    pub covered : IsCovered last times

  -- A run that does not disturb the workload.
  pub quiet-Holds :
      (last last' : Option RemediationRecord) (now later : Time) (times : List Time)
      → now ≤ later
      → (last' ≡ last) ⊎ ((rec : RemediationRecord) × (last' ≡ some rec) × (rec.time ≡ later))
      → Holds last now times
      → Holds (stored store last') later times
  quiet-Holds last last' now later times order (inl same) holds = record {
    kept = stored-stored store last';
    dated = rw (same, holds.kept) (IsDated-later last now later order holds.dated);
    past = IsPast-later times now later order holds.past;
    spaced = holds.spaced;
    covered = rw (same, holds.kept) holds.covered;
  }
  quiet-Holds last last' now later times order (inr (rec, e, t)) holds =
      let past = IsPast-later times now later order holds.past in
      record {
        kept = stored-stored store last';
        dated = rw e (stored-IsDated store rec later t);
        past = past;
        spaced = holds.spaced;
        covered = rw e (stored-IsCovered store rec later times t past);
      }

  apart :
      (last : Option RemediationRecord) (now later : Time) (times : List Time) (cooldown : ℤ)
      → now ≤ later
      → pos d ≤ℤ cooldown
      → cooldown_active last cooldown later ≡ false
      → Holds last now times
      → IsSpaced d (later ∷ times)
  apart last now later [] cooldown order long cooled holds = tt
  apart none now later (u ∷ us) cooldown order long cooled holds = absurd holds.covered
  apart (some rec) now later (u ∷ us) cooldown order long cooled holds =
      let dated = holds.dated in
      let covered = holds.covered in
      let gap = cooldown_active_spacing rec cooldown later (omega arith) cooled in
      (omega arith, holds.spaced)

  -- A run that disturbs the workload, as the cooldown allows.
  pub loud-Holds :
      (last last' : Option RemediationRecord) (now later : Time) (times : List Time) (cooldown : ℤ)
      (rec : RemediationRecord)
      → now ≤ later
      → pos d ≤ℤ cooldown
      → cooldown_active last cooldown later ≡ false
      → last' ≡ some rec
      → rec.time ≡ later
      → Holds last now times
      → Holds (stored store last') later (later ∷ times)
  loud-Holds last last' now later times cooldown rec order long cooled e t holds = record {
    kept = stored-stored store last';
    dated = rw e (stored-IsDated store rec later t);
    past = omega arith;
    spaced = apart last now later times cooldown order long cooled holds;
    covered = rw e (stored-IsCovered store rec later (later ∷ times) t (omega arith));
  }
