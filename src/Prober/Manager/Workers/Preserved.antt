-- ===== src/Prober/Manager/Workers/Preserved.antt =====
-- What becomes of the goroutines where a pod is rewritten, started or stopped.
use hotswap_operator.Prelude.{
  ℕ, suc, ◌≤◌, ◌==◌, String, true, false, ◌≡◌, refl, sym, ap, ◌∙◌, inl, inr, none, some,
  str_eq_refl, ==_iff, if◌then◌else◌, arith, Bool-cases,
}
use hotswap_operator.Api.Kube.{NamespacedName}
use hotswap_operator.Prober.Config.{PodTarget}
use hotswap_operator.Prober.Threshold.{PodEntry, new_entry}
use hotswap_operator.Prober.Manager.{Manager, Runtime, slot, key}
use hotswap_operator.Prober.Manager.Store.{cancels, Stops, Keeps, Starts}
use hotswap_operator.Prober.Manager.Workers.{
  IsSound, moved, apart, pick, same_pod, same_slot, no_pod, same_worker, cancel_of,
}

module _ (rt : Runtime) where
  pub Keeps-IsSound :
      (k uid : String) (pod pod' : PodEntry) (m m' : Manager)
      → Keeps k uid pod' m m'
      → slot k uid m ≡ some pod
      → pod'.cancel ≡ pod.cancel
      → IsSound rt m
      → IsSound rt m'
  Keeps-IsSound k uid pod pod' m m' s h e sound = record {
    tidy = s.tidy sound.tidy;
    tracked = λ j i p found. elim (pick k uid j i (s.slots j i)) [
      | inl (kj, ui, now) ↦
          let (c, cancel, lt, probes) = sound.tracked k uid pod h in
          (
            c,
            ap cancel_of (sym found ∙ now) ∙ e ∙ cancel,
            rw s.next lt,
            moved rt m m' k uid j i c (ap (λ f. f c) s.workers) (ap (λ f. f c) s.cancelled) kj ui
                probes,
          )
      | inr (other, now) ↦
          let (c, cancel, lt, probes) = sound.tracked j i p (sym now ∙ found) in
          (
            c,
            cancel,
            rw s.next lt,
            moved rt m m' j i j i c (ap (λ f. f c) s.workers) (ap (λ f. f c) s.cancelled) refl refl
                probes,
          )
    ];
    owned = λ c w running live.
        let (p, found, cancel) =
          sound.owned c w (sym (ap (λ f. f c) s.workers) ∙ running)
            (sym (ap (λ f. f c) s.cancelled) ∙ live) in
        elim (pick k uid (key rt w.policy) w.uid (s.slots (key rt w.policy) w.uid)) [
          | inl (kj, ui, now) ↦
              (pod', now, e ∙ ap cancel_of (same_pod k uid _ w.uid m kj ui h found) ∙ cancel)
          | inr (other, now) ↦ (p, now ∙ found, cancel)
        ];
    fresh = λ c le.
        let (idle, live) = sound.fresh c (rw⁻¹ s.next le) in
        (ap (λ f. f c) s.workers ∙ idle, ap (λ f. f c) s.cancelled ∙ live);
  }

  pub Starts-IsSound :
      (nn : NamespacedName) (k uid : String) (t : PodTarget) (m m' : Manager)
      → Starts nn k uid t m m'
      → key rt nn ≡ k
      → slot k uid m ≡ none
      → IsSound rt m
      → IsSound rt m'
  unfolding new_entry
  Starts-IsSound nn k uid t m m' s e h sound = record {
    tidy = s.tidy sound.tidy;
    tracked = λ j i p found. elim (pick k uid j i (s.slots j i)) [
      | inl (kj, ui, now) ↦ (
        m.next_ctx,
        ap cancel_of (sym found ∙ now),
        rw s.next (omega arith),
        record {
          nn = nn;
          known = e ∙ kj;
          running =
              ground (arith, s.workers m.next_ctx)
              ∙ ap (λ x. some (record { policy = nn; uid = x })) ui;
          live = ap (λ f. f m.next_ctx) s.cancelled ∙ (sound.fresh m.next_ctx (omega arith)).1;
        },
      )
      | inr (other, now) ↦
          let (c, cancel, lt, probes) = sound.tracked j i p (sym now ∙ found) in
          (
            c,
            cancel,
            rw s.next (omega arith),
            moved rt m m' j i j i c (ground (arith, s.workers c)) (ap (λ f. f c) s.cancelled) refl
                refl probes,
          )
    ];
    owned = λ c w running live. elim (Bool-cases (c == m.next_ctx)) [
      | inl new ↦
          let own : m'.workers c ≡ some (record { policy = nn; uid = uid }) =
            ground (arith, s.workers c) in
          let (same_nn, same_uid) = same_worker (sym own ∙ running) in
          let stored : slot k uid m' ≡ some (new_entry t (some m.next_ctx)) =
            ground (arith, s.slots k uid, str_eq_refl k, str_eq_refl uid) in
          (
            new_entry t (some m.next_ctx),
            same_slot k uid (key rt w.policy) w.uid m' (sym e ∙ ap (key rt) same_nn) same_uid
                stored,
            ap some (sym ((==_iff c m.next_ctx).0 new)),
          )
      | inr old ↦
          let (p, found, cancel) =
            sound.owned c w (ground (arith, s.workers c))
              (sym (ap (λ f. f c) s.cancelled) ∙ live) in
          elim (pick k uid (key rt w.policy) w.uid (s.slots (key rt w.policy) w.uid)) [
            | inl (kj, ui, now) ↦ absurd (no_pod k uid _ w.uid m kj ui h found)
            | inr (other, now) ↦ (p, now ∙ found, cancel)
          ]
    ];
    fresh = λ c le.
        let le' : suc m.next_ctx ≤ c = rw⁻¹ s.next le in
        let (idle, live) = sound.fresh c (omega arith) in
        (ground (arith, s.workers c, idle), ap (λ f. f c) s.cancelled ∙ live);
  }

  pub Stops-IsSound :
      (k uid : String) (pod : PodEntry) (m m' : Manager)
      → Stops k uid pod m m'
      → slot k uid m ≡ some pod
      → IsSound rt m
      → IsSound rt m'
  Stops-IsSound k uid pod m m' s h sound =
      let (own, cancel_own, lt_own, probes_own) = sound.tracked k uid pod h in
      let ended : (c : ℕ) → m'.cancelled c ≡ (if c == own then true else m.cancelled c) =
        λ c. s.cancelled c ∙ ap (λ o. cancels o m.cancelled c) cancel_own in
      record {
        tidy = s.tidy sound.tidy;
        tracked = λ j i p found. elim (pick k uid j i (s.slots j i)) [
          | inl (kj, ui, now) ↦ absurd cc
          | inr (other, now) ↦
              let (c, cancel, lt, probes) = sound.tracked j i p (sym now ∙ found) in
              elim (Bool-cases (c == own)) [
                | inl same ↦
                    absurd
                      (apart rt m k uid j i own c ((==_iff c own).0 same) other probes_own probes)
                | inr differs ↦ (
                  c,
                  cancel,
                  rw s.next lt,
                  moved rt m m' j i j i c (ap (λ f. f c) s.workers) (ground (arith, ended c)) refl
                      refl probes,
                )
              ]
        ];
        owned = λ c w running live.
            let live_before : m.cancelled c ≡ false = ground (arith, ended c) in
            let (p, found, cancel) =
              sound.owned c w (sym (ap (λ f. f c) s.workers) ∙ running) live_before in
            elim (pick k uid (key rt w.policy) w.uid (s.slots (key rt w.policy) w.uid)) [
              | inl (kj, ui, now) ↦
                  let known : some own ≡ some c =
                    sym cancel_own
                    ∙ ap cancel_of (same_pod k uid _ w.uid m kj ui h found)
                    ∙ cancel in
                  absurd (ground (arith, ended c, known))
              | inr (other, now) ↦ (p, now ∙ found, cancel)
            ];
        fresh = λ c le.
            let (idle, live) = sound.fresh c (rw⁻¹ s.next le) in
            (ap (λ f. f c) s.workers ∙ idle, ground (arith, ended c, le, s.next, lt_own));
      }
