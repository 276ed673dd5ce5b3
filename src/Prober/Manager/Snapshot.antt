-- ===== src/Prober/Manager/Snapshot.antt =====
-- What `Snapshot` shows, and that it gives back what `Sync` was told.
use mathlib.Core.List.{Memᴰ}
use mathlib.Core.List.Memᴰ.{not-nil}
use hotswap_operator.Prelude.{
  pos, true, false, ℕ, ◌⊎◌, Bool-cases, String, ◌≡◌, ◌↔◌, refl, sym, ap, ◌∙◌, Option, none, some,
  List, [], ◌∷◌, map, str_eq, str_eq_iff, str_eq_refl, if◌then◌else◌, arith, inl, inr,
}
use hotswap_operator.Prelude.Dict.{Dict, lookup, IsUnique, perm-lookup}
use hotswap_operator.Api.Kube.{NamespacedName}
use hotswap_operator.Prober.Config.{ProbeConfig, PodTarget, PodState}
use hotswap_operator.Prober.Threshold.{PodEntry, new_entry}
use hotswap_operator.Prober.Manager.{Manager, Runtime, pods_of, slot, key, sync, snapshot}
use hotswap_operator.Prober.Manager.Store.{IsTidy}
use hotswap_operator.Prober.Manager.Sync.{last_target, synced, sync_slots}
use hotswap_operator.Prober.Manager.Lifecycle.{sync-IsSound, fresh_key}
use hotswap_operator.Prober.Manager.Interleavings.{Reachable, Reachable-IsSound}

-- The state of some pod of the list.
abbrev Shows : Dict PodEntry → PodState → Type 0
Shows es st = (uid : String) × (pod : PodEntry) × (lookup uid es ≡ some pod) × (st ≡ pod.state)

abbrev states : Dict PodEntry → List PodState
states es = map (λ e. e.1.state) es

mem-states : (es : Dict PodEntry) (st : PodState) → IsUnique es → Memᴰ st (states es) → Shows es st
unfolding lookup
mem-states [] st u m = absurd (not-nil m)
mem-states ((uid, pod) ∷ es) st u (Memᴰ.head e) = (uid, pod, ground (arith, str_eq_refl uid), e)
mem-states ((uid, pod) ∷ es) st u (Memᴰ.tail m) =
    let (i, p, found, e) = mem-states es st u.1 m in
    (i, p, ground (arith, str_eq_iff uid i, fresh_key uid i es u.0 found, found), e)

abbrev state_in : PodState → Option PodEntry → PodState
state_in st none = st
state_in st (some pod) = pod.state

head_pod :
    (i uid : String) (pod p : PodEntry) (rest : Option PodEntry)
    → (if str_eq uid i then some pod else rest) ≡ some p
    → (p.state ≡ pod.state) ⊎ (rest ≡ some p)
head_pod i uid pod p rest h = elim (Bool-cases (str_eq uid i)) [
  | inl same ↦
      inl (sym (ap (state_in pod.state) (sym (ap (λ b. if b then some pod else rest) same) ∙ h)))
  | inr other ↦ inr (ground arith)
]

states-mem : (es : Dict PodEntry) (st : PodState) → Shows es st → Memᴰ st (states es)
unfolding lookup
states-mem [] st (i, p, found, e) = absurd cc
states-mem ((uid, pod) ∷ es) st (i, p, found, e) = elim (head_pod i uid pod p (lookup i es) found) [
  | inl same ↦ Memᴰ.head (e ∙ same)
  | inr later ↦ Memᴰ.tail (states-mem es st (i, p, later, e))
]

-- What a `Snapshot` after `Sync` shows of a target that was known as `old` before.
abbrev pub shown : PodTarget → Option PodEntry → PodState
shown t none = record {
  pod_name = t.name;
  pod_uid = t.uid;
  pod_ip = t.ip;
  healthy = true;
  consecutive_failures = pos 0;
  consecutive_successes = pos 0;
  seen_ready = false;
  last_probe = 0;
  last_transition = 0;
}
shown t (some pod) = record {
  pod_name = t.name;
  pod_uid = pod.state.pod_uid;
  pod_ip = t.ip;
  healthy = pod.state.healthy;
  consecutive_failures = pod.state.consecutive_failures;
  consecutive_successes = pod.state.consecutive_successes;
  seen_ready = pod.state.seen_ready;
  last_probe = pod.state.last_probe;
  last_transition = pod.state.last_transition;
}

synced-shown :
    (t : Option PodTarget) (old : Option PodEntry) (c : ℕ) (pod : PodEntry)
    → synced t old c ≡ some pod
    → (t' : PodTarget) × (t ≡ some t') × (pod.state ≡ shown t' old)
unfolding new_entry
synced-shown none old c pod e = absurd cc
synced-shown (some t) none c pod e = (t, refl, sym (ap (state_in (shown t none)) e))
synced-shown (some t) (some p) c pod e = (t, refl, sym (ap (state_in (shown t (some p))) e))

shown-synced :
    (t : PodTarget) (old : Option PodEntry) (c : ℕ)
    → (pod : PodEntry) × (synced (some t) old c ≡ some pod) × (pod.state ≡ shown t old)
unfolding new_entry
shown-synced t none c = (_, refl, refl)
shown-synced t (some p) c = (_, refl, refl)

module _ (rt : Runtime) where
  -- A snapshot shows the states of the known pods.
  pub snapshot_slots :
      (nn : NamespacedName) (m : Manager) (st : PodState)
      → IsTidy m
      → (Memᴰ st (snapshot rt nn m) ↔ (
          (uid : String) × (pod : PodEntry) × (slot (key rt nn) uid m ≡ some pod)
          × (st ≡ pod.state)))
  unfolding snapshot slot
  snapshot_slots nn m st tidy =
      let pods = pods_of (key rt nn) m in
      let (unique, same) = perm-lookup (rt.order_pods-perm pods) (tidy (key rt nn)) in
      (
        λ mem.
            let (uid, pod, found, e) = mem-states (rt.order_pods pods) st unique mem in
            (uid, pod, sym (same uid) ∙ found, e),
        λ (uid, pod, found, e). states-mem (rt.order_pods pods) st (uid, pod, same uid ∙ found, e),
      )

  -- In any history of the manager, a snapshot of a policy right after a `Sync` shows exactly the targets, each as
  -- the last of its UID: with its name and address, and with the health, the counters, the readiness and the times
  -- that were kept for it, or, for a new pod, as healthy, never probed and never seen ready.
  pub sync_snapshot :
      (nn : NamespacedName) (cfg : ProbeConfig) (targets : List PodTarget) (m : Manager)
      (st : PodState)
      → Reachable rt m
      → (Memᴰ st (snapshot rt nn (sync rt nn cfg targets m)) ↔ (
          (uid : String) × (t : PodTarget) × (last_target uid targets ≡ some t)
          × (st ≡ shown t (slot (key rt nn) uid m))))
  sync_snapshot nn cfg targets m st reachable =
      let sound = Reachable-IsSound rt reachable in
      let slots = sync_slots rt nn cfg targets m sound.tidy in
      let (there, back) =
        snapshot_slots nn (sync rt nn cfg targets m) st
          (sync-IsSound rt nn cfg targets m sound).tidy in
      (
        λ mem.
            let (uid, pod, found, e) = there mem in
            let (c, now) = slots uid in
            let (t, last, same) =
              synced-shown (last_target uid targets) (slot (key rt nn) uid m) c pod
                (sym now ∙ found) in
            (uid, t, last, e ∙ same),
        λ (uid, t, last, e).
            let (c, now) = slots uid in
            let (pod, made, same) = shown-synced t (slot (key rt nn) uid m) c in
            back (
              uid,
              pod,
              now ∙ ap (λ o. synced o (slot (key rt nn) uid m) c) last ∙ made,
              e ∙ sym same,
            ),
      )
