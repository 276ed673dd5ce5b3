-- ===== src/Prober/Manager/Sync.antt =====
-- `Sync` as a function on the map of pods: what becomes of each UID, whatever the order of the loops.
use hotswap_operator.Prelude.{
  pos, true, false, ℕ, String, ◌≡◌, refl, sym, ap, ◌∙◌, Option, none, some, List, [], ◌∷◌, str_eq,
  str_eq_iff, str_eq_refl, if◌then◌else◌, arith, Bool-cases, inl, inr,
}
use hotswap_operator.Prelude.Dict.{
  Dict, lookup, insert, IsUnique, lookup-insert, insert-IsUnique, perm-lookup,
}
use hotswap_operator.Api.Kube.{NamespacedName}
use hotswap_operator.Prober.Config.{ProbeConfig, PodTarget}
use hotswap_operator.Prober.Threshold.{PodEntry, new_entry}
use hotswap_operator.Prober.Manager.{
  PolicyEntry, Manager, Runtime, open_entry, pods_of, slot, desired_from, stop_unwanted,
  stop_missing, refresh, add_or_refresh, start_desired, key, sync,
}
use hotswap_operator.Prober.Manager.Store.{Has, stop_pod-Stops, set_pods-Keeps, start_pod-Starts}

-- The last target of a UID.
unfoldable pub last_target : String → List PodTarget → Option PodTarget
last_target uid [] = none
last_target uid (t ∷ ts) = elim (last_target uid ts) [
  | some later ↦ some later
  | none ↦ if str_eq t.uid uid then some t else none
]

abbrev or_else : Option PodTarget → Option PodTarget → Option PodTarget
or_else (some t) o = some t
or_else none o = o

lookup-desired_from :
    (uid : String) (d : Dict PodTarget) (ts : List PodTarget)
    → lookup uid (desired_from d ts) ≡ or_else (last_target uid ts) (lookup uid d)
unfolding desired_from last_target
lookup-desired_from uid d [] = refl
lookup-desired_from uid d (t ∷ ts) =
    ground (arith, lookup-desired_from uid (insert t.uid t d) ts, lookup-insert t.uid uid t d)

desired_from-IsUnique :
    (d : Dict PodTarget) (ts : List PodTarget) → IsUnique d → IsUnique (desired_from d ts)
unfolding desired_from
desired_from-IsUnique d [] u = u
desired_from-IsUnique d (t ∷ ts) u =
    desired_from-IsUnique (insert t.uid t d) ts (insert-IsUnique t.uid t d u)

-- What the first loop leaves of a pod, if it visits the pod as `visited`.
abbrev kept : Option PodEntry → Option PodTarget → Option PodEntry → Option PodEntry
kept (some pod) none old = none
kept _ _ old = old

kept_twice :
    (uid i : String) (d : Dict PodTarget) (pod : PodEntry) (later old : Option PodEntry)
    {now : Option PodEntry}
    → now ≡ (if str_eq uid i then kept (some pod) (lookup uid d) old else old)
    → kept later (lookup i d) now ≡ kept (if str_eq uid i then some pod else later) (lookup i d) old
kept_twice uid i d pod later old e = ground (arith, str_eq_iff uid i)

stop_unwanted_slots :
    (k uid : String) (pod : PodEntry) (o : Option PodTarget) (m : Manager)
    → Has k m
    → Has k (stop_unwanted k uid pod o m)
      × ((i : String)
          → slot k i (stop_unwanted k uid pod o m)
            ≡ (if str_eq uid i then kept (some pod) o (slot k i m) else slot k i m))
unfolding stop_unwanted
stop_unwanted_slots k uid pod none m h =
    let s = stop_pod-Stops k uid pod m h in (s.has, λ i. ground (arith, s.slots k i, str_eq_refl k))
stop_unwanted_slots k uid pod (some t) m h = (h, λ i. ground arith)

stop_missing_slots :
    (k : String) (d : Dict PodTarget) (es : Dict PodEntry) (m : Manager)
    → Has k m
    → Has k (stop_missing k d es m)
      × ((i : String)
          → slot k i (stop_missing k d es m) ≡ kept (lookup i es) (lookup i d) (slot k i m))
unfolding stop_missing lookup
stop_missing_slots k d [] m h = (h, λ i. refl)
stop_missing_slots k d ((uid, pod) ∷ es) m h =
    let m' = stop_unwanted k uid pod (lookup uid d) m in
    let (has, step) = stop_unwanted_slots k uid pod (lookup uid d) m h in
    let (has', rest) = stop_missing_slots k d es m' has in
    (has', λ i. rest i ∙ kept_twice uid i d pod (lookup i es) (slot k i m) (step i))

-- What the second loop makes of a pod that it visits with target `t`; `c` is the context of a new entry.
abbrev pub visited : Option PodTarget → Option PodEntry → ℕ → Option PodEntry
visited none old c = old
visited (some t) (some pod) c = some (refresh t pod)
visited (some t) none c = some (new_entry t (some c))

add_or_refresh_slots :
    (nn : NamespacedName) (k uid : String) (t : PodTarget) (o : Option PodEntry) (m : Manager)
    → Has k m
    → slot k uid m ≡ o
    → Has k (add_or_refresh nn k uid t o m)
      × ((i : String)
          → slot k i (add_or_refresh nn k uid t o m)
            ≡ (if str_eq uid i then visited (some t) o m.next_ctx else slot k i m))
unfolding add_or_refresh
add_or_refresh_slots nn k uid t (some pod) m h e =
    let s = set_pods-Keeps k uid (refresh t pod) m h in
    (s.has, λ i. ground (arith, s.slots k i, str_eq_refl k))
add_or_refresh_slots nn k uid t none m h e =
    let s = start_pod-Starts nn k uid t m h in
    (s.has, λ i. ground (arith, s.slots k i, str_eq_refl k))

-- One round and the rounds after it make of a pod what one visit to it makes.
visited_once :
    (uid i : String) (t : PodTarget) (es : Dict PodTarget) (k : String) (m : Manager) (c : ℕ)
    {now final : Option PodEntry}
    → lookup uid es ≡ none
    → now ≡ (if str_eq uid i then visited (some t) (slot k uid m) m.next_ctx else slot k i m)
    → final ≡ visited (lookup i es) now c
    → (c' : ℕ) × (final ≡ visited (if str_eq uid i then some t else lookup i es) (slot k i m) c')
visited_once uid i t es k m c fresh e f = elim (Bool-cases (str_eq uid i)) [
  | inl same ↦
      let i_visited : lookup i es ≡ none =
        ap (λ j. lookup j es) (sym ((str_eq_iff uid i).0 same)) ∙ fresh in
      let one_slot : slot k uid m ≡ slot k i m = ap (λ j. slot k j m) ((str_eq_iff uid i).0 same) in
      (m.next_ctx, ground arith)
  | inr other ↦ (c, ground arith)
]

start_desired_slots :
    (nn : NamespacedName) (k : String) (es : Dict PodTarget) (m : Manager)
    → Has k m
    → IsUnique es
    → Has k (start_desired nn k es m)
      × ((i : String)
          → (c : ℕ) × (slot k i (start_desired nn k es m) ≡ visited (lookup i es) (slot k i m) c))
unfolding start_desired lookup
start_desired_slots nn k [] m h u = (h, λ i. (0, refl))
start_desired_slots nn k ((uid, t) ∷ es) m h u =
    let m' = add_or_refresh nn k uid t (slot k uid m) m in
    let (has, step) = add_or_refresh_slots nn k uid t (slot k uid m) m h refl in
    let (has', rest) = start_desired_slots nn k es m' has u.1 in
    (has', λ i. visited_once uid i t es k m (rest i).0 u.0 (step i) (rest i).1)

pub open_entry_pods :
    (k j : String) (cfg : ProbeConfig) (m : Manager) → pods_of j (open_entry k cfg m) ≡ pods_of j m
unfolding open_entry pods_of
open_entry_pods k j cfg m = ground (
  arith,
  lookup-insert k j (let pe : PolicyEntry = record { cfg = cfg; pods = pods_of k m } in pe)
      m.policies,
  str_eq_iff k j,
)

pub open_entry-Has : (k : String) (cfg : ProbeConfig) (m : Manager) → Has k (open_entry k cfg m)
unfolding open_entry
open_entry-Has k cfg m = (
  record { cfg = cfg; pods = pods_of k m },
  ground (
    arith,
    lookup-insert k k (let pe : PolicyEntry = record { cfg = cfg; pods = pods_of k m } in pe)
        m.policies,
    str_eq_refl k,
  ),
)

-- What `Sync` makes of a pod; `c` is the context of a new entry.
abbrev pub synced : Option PodTarget → Option PodEntry → ℕ → Option PodEntry
synced none old c = none
synced (some t) (some pod) c =
    some (record pod { state = record pod.state { pod_ip = t.ip; pod_name = t.name } })
synced (some t) none c = some (record {
  state = record {
    pod_name = t.name;
    pod_uid = t.uid;
    pod_ip = t.ip;
    healthy = true;
    consecutive_failures = pos 0;
    consecutive_successes = pos 0;
    seen_ready = false;
    last_probe = 0;
    last_transition = 0;
  };
  started = false;
  cancel = some c;
})

visited-kept :
    (t : Option PodTarget) (old : Option PodEntry) (c : ℕ)
    → visited t (kept old t old) c ≡ synced t old c
unfolding new_entry
visited-kept none none c = refl
visited-kept none (some pod) c = refl
visited-kept (some t) none c = refl
visited-kept (some t) (some pod) c = refl

lookup-desired_from_nil :
    (uid : String) (ts : List PodTarget) → lookup uid (desired_from [] ts) ≡ last_target uid ts
unfolding lookup
lookup-desired_from_nil uid ts = ground (arith, lookup-desired_from uid [] ts)

-- Where no map of pods holds a UID twice, `Sync` makes the map of a policy's pods follow the targets, whatever the
-- order of its loops: a pod that is no target is gone, a known target keeps its health and takes the name and the
-- address of the last target of its UID, and a new one starts healthy, with no probe counted and not seen ready.
pub sync_slots :
    (rt : Runtime) (nn : NamespacedName) (cfg : ProbeConfig) (targets : List PodTarget)
    (m : Manager)
    → ((k : String) → IsUnique (pods_of k m))
    → (uid : String)
    → (c : ℕ) × (slot (key rt nn) uid (sync rt nn cfg targets m)
        ≡ synced (last_target uid targets) (slot (key rt nn) uid m) c)
unfolding sync
sync_slots rt nn cfg targets m u uid =
    let k = key rt nn in
    let kept_m = open_entry k cfg m in
    let d = desired_from [] targets in
    let same : pods_of k kept_m ≡ pods_of k m = open_entry_pods k k cfg m in
    let (_, found) = perm-lookup (rt.order_pods-perm (pods_of k kept_m)) (rw same (u k)) in
    let (has, stopped) =
      stop_missing_slots k d (rt.order_pods (pods_of k kept_m)) kept_m (open_entry-Has k cfg m) in
    let (unique, wanted) =
      perm-lookup (rt.order_targets-perm d) (desired_from-IsUnique [] targets tt) in
    let (c, started) =
      (start_desired_slots nn k (rt.order_targets d)
          (stop_missing k d (rt.order_pods (pods_of k kept_m)) kept_m) has unique).1
        uid in
    let old : slot k uid kept_m ≡ slot k uid m = unfold slot in ap (lookup uid) same in
    let seen : lookup uid (rt.order_pods (pods_of k kept_m)) ≡ slot k uid m =
      unfold slot in found uid ∙ ap (lookup uid) same in
    let target : lookup uid d ≡ last_target uid targets = lookup-desired_from_nil uid targets in
    (
      c,
      started
          ∙ rw (wanted uid, stopped uid, old, seen, target)
              (visited-kept (last_target uid targets) (slot k uid m) c),
    )
