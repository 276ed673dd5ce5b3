-- ===== src/Controller/Reconcile/Rate.antt =====
-- Runs of `Reconcile` for one policy, one after the other, and how far apart those stand that disturb the workload.
use hotswap_operator.Prelude.{
  ℕ, ℤ, ◌+◌, ◌*◌, ◌≤◌, ltb, length, pos, ◌≤ℤ◌, Bool, true, ◌≡◌, refl, sym, ap, ◌∙◌, inl, inr,
  Option, none, some, List, [], ◌∷◌, ok, arith, Bool-cases, if◌then◌else◌,
}
use hotswap_operator.Api.Kube.{Time, NamespacedName}
use hotswap_operator.Api.{HotSwapPolicy, RemediationRecord}
use hotswap_operator.Prober.Config.{second}
use hotswap_operator.Controller.Logic.{cooldown_active}
use hotswap_operator.Controller.Env.{Env, Run, Outcome}
use hotswap_operator.Controller.Effects.{disruptions}
use hotswap_operator.Controller.Reconcile.{cooldown_of, reconcile}
use hotswap_operator.Controller.Reconcile.Admission.{reconcile_gates}
use hotswap_operator.Controller.Reconcile.Spacing.{same_policy, Records, reconcile-Records}
use hotswap_operator.Controller.Reconcile.Memory.{last_written}
use hotswap_operator.Controller.Reconcile.Memory.Arrivals.{reconcile-Remembers}
use hotswap_operator.Controller.Reconcile.Apart.{
  TimeStorage, stored, stored-stored, IsDated, IsSpaced, oldest, oldest_apart, Holds, quiet-Holds,
  loud-Holds,
}

module _ (S : Type 0) (nn : NamespacedName) (store : TimeStorage) (d : ℕ) where
  abbrev pub outcome : Env S → S → Outcome S
  outcome env state = reconcile env nn (record { state = state; effects = [] })

  -- The run attempts a patch of the Deployment or the deletion of a pod.
  abbrev pub disturbs : Outcome S → Bool
  disturbs o = ltb 0 (disruptions o.2.effects)

  -- A run at a time not before `now`, which finds the policy with the remediation on record and a cooldown of `d`
  -- at least, and which ends without an error if it disturbs the workload.
  pub record Visit (last : Option RemediationRecord) (now : Time) : Type 0 where
    pub env : Env S
    pub state : S
    pub policy : HotSwapPolicy
    pub found : env.cluster.get_policy nn ≡ ok policy
    pub known : policy.status.last_remediation ≡ last
    pub cooldown : pos d ≤ℤ cooldown_of policy.spec.remediation
    pub order : now ≤ env.now
    pub sound : disturbs (outcome env state) ≡ true → (outcome env state).1 ≡ none

  -- The runs so far: what is on record, as the server gives it back, the time, and the times of the runs that disturbed the workload, the newest
  -- first.
  pub data Visits : Option RemediationRecord → Time → List Time → Type 0 where
    opens :
        (last : Option RemediationRecord) {now : Time}
        → IsDated (stored store last) now
        → Visits (stored store last) now []
    visits :
        {last : Option RemediationRecord} {now : Time} {times : List Time}
        → Visits last now times
        → (v : Visit last now)
        → Visits
            (stored store (last_written v.env.cluster last (outcome v.env v.state).2.effects))
            v.env.now
            (if disturbs (outcome v.env v.state) then v.env.now ∷ times else times)

  record_kept :
      (last : Option RemediationRecord) (env : Env S) (attempts : ℤ) (o : Outcome S)
      (records : Records env attempts o)
      → last_written env.cluster last o.2.effects ≡ some records.record_of
  unfolding last_written
  record_kept last env attempts o records = rw (records.last, records.taken) records.remembered

  loud_run : (o : Outcome S) → disturbs o ≡ true → disruptions o.2.effects ≡ 0 → ⊥
  loud_run o h e = ground arith

  visit-Holds :
      (last : Option RemediationRecord) (now : Time) (times : List Time) (v : Visit last now)
      → Holds store d last now times
      → Holds store d
          (stored store (last_written v.env.cluster last (outcome v.env v.state).2.effects))
          v.env.now
          (if disturbs (outcome v.env v.state) then v.env.now ∷ times else times)
  unfolding last_written
  visit-Holds last now times v holds =
      let o = outcome v.env v.state in
      let r : Run S = record { state = v.state; effects = [] } in
      elim (Bool-cases (disturbs o)) [
        | inr quiet ↦ rw quiet (
            quiet-Holds store d last (last_written v.env.cluster last o.2.effects) now v.env.now
              times v.order (reconcile-Remembers v.env last nn v.policy v.known r v.found refl)
              holds)
        | inl loud ↦ elim (reconcile_gates v.env nn r) [
          | inl quiet ↦ absurd (loud_run o loud quiet)
          | inr (policy, cfg, dep, pods, a) ↦
              let (_, _, records) = reconcile-Records v.env nn r (loud_run o loud) (v.sound loud) in
              let same = same_policy (sym a.found ∙ v.found) in
              let cooled =
                ap
                  (λ p.
                    cooldown_active p.status.last_remediation (cooldown_of p.spec.remediation)
                      v.env.now)
                  (sym same)
                ∙ a.due.ready.cooled in
              rw loud (
                loud-Holds store d last (last_written v.env.cluster last o.2.effects) now v.env.now
                  times (cooldown_of v.policy.spec.remediation) records.record_of v.order v.cooldown
                  (ap (λ l. cooldown_active l (cooldown_of v.policy.spec.remediation) v.env.now)
                      (sym v.known)
                    ∙ cooled)
                  (record_kept last v.env _ o records) records.dated holds)
        ]
      ]

  Visits-Holds :
      {last : Option RemediationRecord} {now : Time} {times : List Time}
      → Visits last now times
      → Holds store d last now times
  Visits-Holds (opens last dated) = record {
    kept = stored-stored store last;
    dated = dated;
    past = tt;
    spaced = tt;
    covered = tt;
  }
  Visits-Holds (visits {last} {now} {times} before v) =
      visit-Holds last now times v (Visits-Holds before)

  -- Where each run reads the last remediation that the runs before it have left on record (no one else writes the
  -- status, no read is stale, the server keeps its time as `TimeStorage` says), the one at the beginning is not in the
  -- future, the cooldown of the policy is `d` at least, the clock does not go back, and no run that disturbs the
  -- workload ends with an error, then however many runs there are and whatever each meets, those that attempt a patch
  -- or a deletion are apart by more than `d` less one second, so that `n` of them in a row take at least `n - 1` times
  -- `d` less one second.
  pub rate :
      {last : Option RemediationRecord} {now : Time} (t : Time) (ts : List Time)
      → Visits last now (t ∷ ts)
      → IsSpaced d (t ∷ ts) × (oldest t ts + length ts * d ≤ t + length ts * second)
  rate t ts v = let spaced = (Visits-Holds v).spaced in (spaced, oldest_apart d t ts spaced)
