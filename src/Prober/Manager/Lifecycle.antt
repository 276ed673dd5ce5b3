-- ===== src/Prober/Manager/Lifecycle.antt =====
-- `Sync`, `SetSeenReady` and the end of `probeOnce`, with the goroutines and the map of pods side by side.
use hotswap_operator.Prelude.{
  String, Bool, true, ◌≡◌, refl, sym, ap, ◌∙◌, inl, inr, Option, none, some, List, [], ◌∷◌,
  str_eq_iff, str_eq_refl, arith, Option-cases,
}
use hotswap_operator.Prelude.Dict.{Dict, lookup, IsUnique, perm-lookup}
use hotswap_operator.Api.Kube.{NamespacedName, Time}
use hotswap_operator.Prober.Config.{ProbeConfig, PodTarget}
use hotswap_operator.Prober.Threshold.{PodEntry, record_success, record_failure, record_probe}
use hotswap_operator.Prober.Manager.{
  Manager, Runtime, pods_of, slot, stop_unwanted, stop_missing, refresh, add_or_refresh,
  start_desired, open_entry, desired_from, key, sync, set_seen_ready, finish_probe,
}
use hotswap_operator.Prober.Manager.Store.{
  Has, Has-slot, stop_pod-Stops, set_pods-Keeps, start_pod-Starts,
}
use hotswap_operator.Prober.Manager.Sync.{open_entry_pods, open_entry-Has}
use hotswap_operator.Prober.Manager.Workers.{IsSound, moved}
use hotswap_operator.Prober.Manager.Workers.Preserved.{Keeps-IsSound, Starts-IsSound, Stops-IsSound}

-- The entries of a list stand in the map of pods.
abbrev Agrees : String → Dict PodEntry → Manager → Type 0
Agrees k es m = (i : String) (pod : PodEntry) → lookup i es ≡ some pod → slot k i m ≡ some pod

pub fresh_key :
    (uid i : String) (es : Dict PodEntry) {pod : PodEntry}
    → lookup uid es ≡ none
    → lookup i es ≡ some pod
    → uid ≡ i
    → ⊥
fresh_key uid i es n s e = cc

module _ (rt : Runtime) where
  stop_unwanted-IsSound :
      (k uid : String) (pod : PodEntry) (o : Option PodTarget) (m : Manager)
      → Has k m
      → slot k uid m ≡ some pod
      → IsSound rt m
      → let m' = stop_unwanted k uid pod o m in
        Has k m' × IsSound rt m' × ((i : String) → (uid ≡ i → ⊥) → slot k i m' ≡ slot k i m)
  unfolding stop_unwanted
  stop_unwanted-IsSound k uid pod none m h e sound =
      let s = stop_pod-Stops k uid pod m h in
      (
        s.has,
        Stops-IsSound rt k uid pod m _ s e sound,
        λ i other. ground (arith, s.slots k i, str_eq_iff uid i),
      )
  stop_unwanted-IsSound k uid pod (some t) m h e sound = (h, sound, λ i other. refl)

  stop_missing-IsSound :
      (k : String) (d : Dict PodTarget) (es : Dict PodEntry) (m : Manager)
      → Has k m
      → IsUnique es
      → Agrees k es m
      → IsSound rt m
      → Has k (stop_missing k d es m) × IsSound rt (stop_missing k d es m)
  unfolding stop_missing lookup
  stop_missing-IsSound k d [] m h u agrees sound = (h, sound)
  stop_missing-IsSound k d ((uid, pod) ∷ es) m h u agrees sound =
      let m' = stop_unwanted k uid pod (lookup uid d) m in
      let (h', sound', same) =
        stop_unwanted-IsSound k uid pod (lookup uid d) m h
          (agrees uid pod (ground (arith, str_eq_refl uid))) sound in
      stop_missing-IsSound k d es m' h' u.1
        (λ i p found.
          let other : uid ≡ i → ⊥ = fresh_key uid i es u.0 found in
          same i other ∙ agrees i p (ground (arith, str_eq_iff uid i, other, found)))
        sound'

  add_or_refresh-IsSound :
      (nn : NamespacedName) (uid : String) (t : PodTarget) (o : Option PodEntry) (m : Manager)
      → Has (key rt nn) m
      → slot (key rt nn) uid m ≡ o
      → IsSound rt m
      → let m' = add_or_refresh nn (key rt nn) uid t o m in Has (key rt nn) m' × IsSound rt m'
  unfolding add_or_refresh
  add_or_refresh-IsSound nn uid t (some pod) m h e sound =
      let s = set_pods-Keeps (key rt nn) uid (refresh t pod) m h in
      (s.has, Keeps-IsSound rt (key rt nn) uid pod (refresh t pod) m _ s e refl sound)
  add_or_refresh-IsSound nn uid t none m h e sound =
      let s = start_pod-Starts nn (key rt nn) uid t m h in
      (s.has, Starts-IsSound rt nn (key rt nn) uid t m _ s refl e sound)

  start_desired-IsSound :
      (nn : NamespacedName) (es : Dict PodTarget) (m : Manager)
      → Has (key rt nn) m
      → IsSound rt m
      → IsSound rt (start_desired nn (key rt nn) es m)
  unfolding start_desired
  start_desired-IsSound nn [] m h sound = sound
  start_desired-IsSound nn ((uid, t) ∷ es) m h sound =
      let (h', sound') = add_or_refresh-IsSound nn uid t (slot (key rt nn) uid m) m h refl sound in
      start_desired-IsSound nn es _ h' sound'

  open_entry-IsSound :
      (k : String) (cfg : ProbeConfig) (m : Manager)
      → IsSound rt m
      → IsSound rt (open_entry k cfg m)
  unfolding open_entry slot
  open_entry-IsSound k cfg m sound = record {
    tidy = λ j. rw (open_entry_pods k j cfg m) (sound.tidy j);
    tracked = λ j i pod h.
        let (c, cancel, lt, probes) =
          sound.tracked j i pod (ap (lookup i) (sym (open_entry_pods k j cfg m)) ∙ h) in
        (c, cancel, lt, moved rt m _ j i j i c refl refl refl refl probes);
    owned = λ c w running live.
        let (pod, found, cancel) = sound.owned c w running live in
        (pod, ap (lookup w.uid) (open_entry_pods k _ cfg m) ∙ found, cancel);
    fresh = sound.fresh;
  }

  -- `Sync` keeps the goroutines in step with the pods.
  pub sync-IsSound :
      (nn : NamespacedName) (cfg : ProbeConfig) (targets : List PodTarget) (m : Manager)
      → IsSound rt m
      → IsSound rt (sync rt nn cfg targets m)
  unfolding sync
  sync-IsSound nn cfg targets m sound =
      let k = key rt nn in
      let kept_m = open_entry k cfg m in
      let sound' = open_entry-IsSound k cfg m sound in
      let (unique, found) = perm-lookup (rt.order_pods-perm (pods_of k kept_m)) (sound'.tidy k) in
      let (has, stopped) =
        stop_missing-IsSound k (desired_from [] targets) (rt.order_pods (pods_of k kept_m)) kept_m
          (open_entry-Has k cfg m) unique (λ i pod h. unfold slot in sym (found i) ∙ h) sound' in
      start_desired-IsSound nn (rt.order_targets (desired_from [] targets)) _ has stopped

  -- `SetSeenReady` and the second half of `probeOnce` write to one known pod and keep its context.
  pub set_seen_ready-IsSound :
      (nn : NamespacedName) (uid : String) (m : Manager)
      → IsSound rt m
      → IsSound rt (set_seen_ready rt nn uid m)
  unfolding set_seen_ready
  set_seen_ready-IsSound nn uid m sound =
      let k = key rt nn in
      elim (Option-cases (slot k uid m)) [
        | inl absent ↦ rw absent sound
        | inr (pod, e) ↦
            let pod' = record pod { state = record pod.state { seen_ready = true } } in
            rw e (
              Keeps-IsSound rt k uid pod pod' m _ (set_pods-Keeps k uid pod' m (Has-slot k uid m e))
                e refl sound)
      ]

  record_probe-cancel :
      (pod : PodEntry) (cfg : ProbeConfig) (ok : Bool) (now : Time)
      → (record_probe pod cfg ok now).0.cancel ≡ pod.cancel
  unfolding record_probe record_success record_failure
  record_probe-cancel pod cfg ok now = ground arith

  pub finish_probe-IsSound :
      (nn : NamespacedName) (uid : String) (cfg : ProbeConfig) (ok : Bool) (now : Time)
      (m : Manager)
      → IsSound rt m
      → IsSound rt (finish_probe rt nn uid cfg ok now m).0
  unfolding finish_probe
  finish_probe-IsSound nn uid cfg ok now m sound =
      let k = key rt nn in
      elim (Option-cases (slot k uid m)) [
        | inl absent ↦ rw absent sound
        | inr (pod, e) ↦
            let pod' = (record_probe pod cfg ok now).0 in
            rw e (
              Keeps-IsSound rt k uid pod pod' m _ (set_pods-Keeps k uid pod' m (Has-slot k uid m e))
                e (record_probe-cancel pod cfg ok now) sound)
      ]
