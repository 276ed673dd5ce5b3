-- ===== src/Prober/Checker/Verdict.antt =====
-- What `Probe` reports, and what becomes of it under a context that is cancelled.
use hotswap_operator.Prelude.{
  ℕ, ℤ, pos, inc32, ◌≤ℤ◌, ◌<ℤ◌, String, true, false, ◌≡◌, Option, some, str_eq_refl, arith,
}
use hotswap_operator.Api.Kube.{Time}
use hotswap_operator.Prober.Config.{ProbeConfig}
use hotswap_operator.Prober.Threshold.{PodEntry, record_probe, record_failure}
use hotswap_operator.Prober.Manager.{Worker, Runtime, key, slot, finish_probe}
use hotswap_operator.Prober.Manager.Store.{Has-slot, set_pods-Keeps}
use hotswap_operator.Prober.Loop.{Prober, is_done, answer}
use hotswap_operator.Prober.Checker.{
  HttpLibrary, new_http_checker, is_healthy_answer, probe_request, probe,
}

-- A response with a status from 200 to 399.
abbrev pub IsAnswered : Option ℤ → Type 0
IsAnswered o = (status : ℤ) × (o ≡ some status) × (pos 200 ≤ℤ status) × (status <ℤ pos 400)

failed_counts :
    (pod : PodEntry) (cfg : ProbeConfig) (now : Time)
    → let pod' = (record_probe pod cfg false now).0 in
      (pod'.state.consecutive_failures ≡ inc32 pod.state.consecutive_failures)
      × (pod'.state.consecutive_successes ≡ pos 0)
unfolding record_probe record_failure
failed_counts pod cfg now = (ground arith, ground arith)

module _ (http : HttpLibrary) where
  probe_cancelled : (ip : String) (cfg : ProbeConfig) → probe http true ip cfg ≡ false
  unfolding probe is_healthy_answer
  probe_cancelled ip cfg =
      ground (arith, http.do_get-cancelled new_http_checker (probe_request http ip cfg))

  -- A goroutine whose context is done still records its probe, where the pod is known (again): the probe fails for
  -- the cancelled context alone, and counts as a failure of the pod, whose successes in a row are forgotten.
  pub cancelled_probe_counts :
      (rt : Runtime) (c : ℕ) (w : Worker) (p : ℤ) (cfg : ProbeConfig) (ip : String) (now : Time)
      (s : Prober) (pod : PodEntry)
      → is_done s c ≡ true
      → slot (key rt w.policy) w.uid s.manager ≡ some pod
      → let s' = answer rt c w p cfg (probe http (is_done s c) ip cfg) now s in
        (pod' : PodEntry) × (slot (key rt w.policy) w.uid s'.manager ≡ some pod')
        × (pod'.state.consecutive_failures ≡ inc32 pod.state.consecutive_failures)
        × (pod'.state.consecutive_successes ≡ pos 0)
  unfolding answer finish_probe
  cancelled_probe_counts rt c w p cfg ip now s pod done known =
      let pod' = (record_probe pod cfg false now).0 in
      let kept =
        set_pods-Keeps (key rt w.policy) w.uid pod' s.manager
          (Has-slot (key rt w.policy) w.uid s.manager known) in
      let stored : slot (key rt w.policy) w.uid
            (finish_probe rt w.policy w.uid cfg (probe http (is_done s c) ip cfg) now s.manager).0
          ≡ some pod' =
        rw (done, probe_cancelled ip cfg, known)
          (ground (
            arith,
            kept.slots (key rt w.policy) w.uid,
            str_eq_refl (key rt w.policy),
            str_eq_refl w.uid,
          )) in
      let (failures, successes) = failed_counts pod cfg now in (pod', stored, failures, successes)
