-- ===== src/Prober/Manager/Contexts.antt =====
-- The contexts of the goroutines under each call of the manager.
use hotswap_operator.Prelude.{
  ℕ, String, Bool, true, ◌≡◌, ap, ◌∙◌, Option, none, some, List, [], ◌∷◌, arith,
}
use hotswap_operator.Prelude.Dict.{Dict, lookup}
use hotswap_operator.Api.Kube.{NamespacedName, Time}
use hotswap_operator.Prober.Config.{ProbeConfig, PodTarget}
use hotswap_operator.Prober.Threshold.{PodEntry}
use hotswap_operator.Prober.Manager.{
  PolicyEntry, Manager, Runtime, key, slot, set_pods, cancel_pod, stop_pod, stop_unwanted,
  stop_missing, start_pod, add_or_refresh, start_desired, open_entry, mark_ready, cancel_all,
  store_result, sync, set_seen_ready, forget, forget_entry, finish_probe, send_event, desired_from,
}
use hotswap_operator.Prober.Manager.Store.{set_pods-rest}
use hotswap_operator.Prober.Manager.Interleavings

-- No context comes back to life.
abbrev pub Grows : Manager → Manager → Type 0
Grows m m' = (c : ℕ) → m.cancelled c ≡ true → m'.cancelled c ≡ true

set_pods-Grows : (k : String) (pods : Dict PodEntry) (m : Manager) → Grows m (set_pods k pods m)
set_pods-Grows k pods m c h = ap (λ f. f c) (set_pods-rest k pods m).1 ∙ h

cancel_pod-Grows : (o : Option ℕ) (m : Manager) → Grows m (cancel_pod o m)
unfolding cancel_pod
cancel_pod-Grows none m c h = h
cancel_pod-Grows (some d) m c h = ground arith

stop_unwanted-Grows :
    (k uid : String) (pod : PodEntry) (o : Option PodTarget) (m : Manager)
    → Grows m (stop_unwanted k uid pod o m)
unfolding stop_unwanted stop_pod
stop_unwanted-Grows k uid pod none m c h =
    set_pods-Grows k _ _ c (cancel_pod-Grows pod.cancel m c h)
stop_unwanted-Grows k uid pod (some t) m c h = h

stop_missing-Grows :
    (k : String) (d : Dict PodTarget) (es : Dict PodEntry) (m : Manager)
    → Grows m (stop_missing k d es m)
unfolding stop_missing
stop_missing-Grows k d [] m c h = h
stop_missing-Grows k d ((uid, pod) ∷ es) m c h =
    stop_missing-Grows k d es _ c (stop_unwanted-Grows k uid pod (lookup uid d) m c h)

add_or_refresh-Grows :
    (nn : NamespacedName) (k uid : String) (t : PodTarget) (o : Option PodEntry) (m : Manager)
    → Grows m (add_or_refresh nn k uid t o m)
unfolding add_or_refresh start_pod
add_or_refresh-Grows nn k uid t (some pod) m c h = set_pods-Grows k _ m c h
add_or_refresh-Grows nn k uid t none m c h = set_pods-Grows k _ m c h

start_desired-Grows :
    (nn : NamespacedName) (k : String) (es : Dict PodTarget) (m : Manager)
    → Grows m (start_desired nn k es m)
unfolding start_desired
start_desired-Grows nn k [] m c h = h
start_desired-Grows nn k ((uid, t) ∷ es) m c h =
    start_desired-Grows nn k es _ c (add_or_refresh-Grows nn k uid t (slot k uid m) m c h)

cancel_all-Grows : (es : Dict PodEntry) (m : Manager) → Grows m (cancel_all es m)
unfolding cancel_all
cancel_all-Grows [] m c h = h
cancel_all-Grows ((uid, pod) ∷ es) m c h =
    cancel_all-Grows es _ c (cancel_pod-Grows pod.cancel m c h)

mark_ready-Grows :
    (k uid : String) (o : Option PodEntry) (m : Manager) → Grows m (mark_ready k uid o m)
mark_ready-Grows k uid none m c h = h
mark_ready-Grows k uid (some pod) m c h = set_pods-Grows k _ m c h

store_result-Grows :
    (k uid : String) (o : Option PodEntry) (cfg : ProbeConfig) (ok : Bool) (now : Time)
    (m : Manager)
    → Grows m (store_result k uid o cfg ok now m).0
store_result-Grows k uid none cfg ok now m c h = h
store_result-Grows k uid (some pod) cfg ok now m c h = set_pods-Grows k _ m c h

send_event-Grows : (nn : NamespacedName) (m m' : Manager) → send_event nn m ≡ some m' → Grows m m'
unfolding send_event
send_event-Grows nn m m' e c h = ground arith

module _ (rt : Runtime) where
  sync-Grows :
      (nn : NamespacedName) (cfg : ProbeConfig) (targets : List PodTarget) (m : Manager)
      → Grows m (sync rt nn cfg targets m)
  unfolding sync open_entry
  sync-Grows nn cfg targets m c h =
      start_desired-Grows nn (key rt nn) (rt.order_targets (desired_from [] targets)) _ c (
        stop_missing-Grows (key rt nn) (desired_from [] targets) _ (open_entry (key rt nn) cfg m) c
          h)

  forget_entry-Grows :
      (k : String) (o : Option PolicyEntry) (m : Manager) → Grows m (forget_entry rt k o m)
  unfolding forget_entry
  forget_entry-Grows k none m c h = h
  forget_entry-Grows k (some pe) m c h = cancel_all-Grows (rt.order_pods pe.pods) m c h

  pub call-Grows : {m m' : Manager} → Interleavings.Step rt m m' → Grows m m'
  unfolding set_seen_ready finish_probe forget
  call-Grows (Interleavings.synced nn cfg targets {m}) c h = sync-Grows nn cfg targets m c h
  call-Grows (Interleavings.seen nn uid {m}) c h =
      mark_ready-Grows (key rt nn) uid (slot (key rt nn) uid m) m c h
  call-Grows (Interleavings.forgotten nn {m}) c h =
      forget_entry-Grows (key rt nn) (lookup (key rt nn) m.policies) m c h
  call-Grows (Interleavings.probed nn uid cfg ok now {m}) c h =
      store_result-Grows (key rt nn) uid (slot (key rt nn) uid m) cfg ok now m c h
  call-Grows (Interleavings.sent nn {m} {m'} e) c h = send_event-Grows nn m m' e c h
  call-Grows (Interleavings.received nn rest {m} e) c h = h
