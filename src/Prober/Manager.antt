-- ===== src/Prober/Manager.antt =====
-- The manager of the probes (internal/prober/prober.go). One lock guards its state, so each method is a
-- function on that state; `probeOnce` takes the lock twice and is two functions.
pub mod Store
pub mod Sync
pub mod Workers
pub mod Lifecycle
pub mod Cancels
pub mod Removal
pub mod Everywhere
pub mod Interleavings
pub mod Contexts
pub mod Snapshot
use mathlib.Core.List.{Permᴰ}
use hotswap_operator.Prelude.{
  ℕ, suc, ◌+◌, ltb, length, ◌==◌, String, Bool, true, false, Option, none, some, List, [], ◌∷◌,
  ◌++◌, map, if◌then◌else◌,
}
use hotswap_operator.Prelude.Dict.{Dict, lookup, insert, delete}
use hotswap_operator.Api.Kube.{Time, NamespacedName}
use hotswap_operator.Prober.Config.{ProbeConfig, PodTarget, PodState}
use hotswap_operator.Prober.Threshold.{PodEntry, new_entry, record_probe}

pub record PolicyEntry : Type 0 where
  pub cfg : ProbeConfig
  pub pods : Dict PodEntry

-- A goroutine `m.run(ctx, nn, uid)`.
pub record Worker : Type 0 where
  pub policy : NamespacedName
  pub uid : String

-- Contexts are numbered in the order in which they are made; `cancelled` says whose cancel function
-- has been called, and `workers` which goroutine runs under a context. `events` is what stands in the
-- channel, the oldest first.
pub record Manager : Type 0 where
  pub policies : Dict PolicyEntry
  pub next_ctx : ℕ
  pub cancelled : ℕ → Bool
  pub workers : ℕ → Option Worker
  pub events : List NamespacedName

-- What the program takes from its libraries and from Go's runtime here: `nn.String()`, and the orders in
-- which `range` visits a map, each entry once.
pub record Runtime : Type 0 where
  pub nn_string : NamespacedName → String
  pub order_pods : Dict PodEntry → Dict PodEntry
  pub order_targets : Dict PodTarget → Dict PodTarget
  pub order_pods-perm : (m : Dict PodEntry) → Permᴰ (order_pods m) m
  pub order_targets-perm : (m : Dict PodTarget) → Permᴰ (order_targets m) m

-- `NewManager`.
unfoldable pub new_manager : Manager
new_manager = record {
  policies = [];
  next_ctx = 0;
  cancelled = λ c. false;
  workers = λ c. none;
  events = [];
}

-- The pods of `m.policies[k]`, which a nil entry has none of.
abbrev pub pods_in : Option PolicyEntry → Dict PodEntry
pods_in none = []
pods_in (some pe) = pe.pods

unfoldable pub pods_of : String → Manager → Dict PodEntry
pods_of k m = pods_in (lookup k m.policies)

-- `pe.pods[uid]`.
unfoldable pub slot : String → String → Manager → Option PodEntry
slot k uid m = lookup uid (pods_of k m)

-- A write to the pods of the entry under `k`, which is shared through its pointer.
abbrev with_pods : Option PolicyEntry → String → Dict PodEntry → Manager → Manager
with_pods none k pods m = m
with_pods (some pe) k pods m = record m {
  policies = insert k (record pe { pods = pods }) m.policies;
}

unfoldable pub set_pods : String → Dict PodEntry → Manager → Manager
set_pods k pods m = with_pods (lookup k m.policies) k pods m

-- `if pod.cancel != nil { pod.cancel() }`.
unfoldable pub cancel_pod : Option ℕ → Manager → Manager
cancel_pod none m = m
cancel_pod (some ctx) m = record m { cancelled = λ c. if c == ctx then true else m.cancelled c }

-- `desired` of `Sync`: a later target of a UID replaces an earlier one.
unfoldable pub desired_from : Dict PodTarget → List PodTarget → Dict PodTarget
desired_from d [] = d
desired_from d (t ∷ ts) = desired_from (insert t.uid t d) ts

-- The probe of a pod that is not desired is stopped.
unfoldable pub stop_pod : String → String → PodEntry → Manager → Manager
stop_pod k uid pod m =
    let stopped = cancel_pod pod.cancel m in set_pods k (delete uid (pods_of k stopped)) stopped

-- One round of the first loop of `Sync`.
unfoldable pub stop_unwanted : String → String → PodEntry → Option PodTarget → Manager → Manager
stop_unwanted k uid pod none m = stop_pod k uid pod m
stop_unwanted k uid pod (some t) m = m

-- The first loop of `Sync`, over the pods in some order.
unfoldable pub stop_missing : String → Dict PodTarget → Dict PodEntry → Manager → Manager
stop_missing k desired [] m = m
stop_missing k desired ((uid, pod) ∷ rest) m =
    stop_missing k desired rest (stop_unwanted k uid pod (lookup uid desired) m)

-- A known pod keeps its health; its name and address are brought up to date.
abbrev pub refresh : PodTarget → PodEntry → PodEntry
refresh t pod = record pod { state = record pod.state { pod_ip = t.ip; pod_name = t.name } }

-- A new pod gets an entry, a context under the root context, and a goroutine.
unfoldable pub start_pod : NamespacedName → String → String → PodTarget → Manager → Manager
start_pod nn k uid t m =
    let ctx = m.next_ctx in
    let stored = set_pods k (insert uid (new_entry t (some ctx)) (pods_of k m)) m in
    record stored {
      next_ctx = suc ctx;
      workers = λ c. if c == ctx then some (record { policy = nn; uid = uid }) else m.workers c;
    }

-- One round of the second loop of `Sync`.
unfoldable pub add_or_refresh :
    NamespacedName → String → String → PodTarget → Option PodEntry → Manager → Manager
add_or_refresh nn k uid t (some pod) m = set_pods k (insert uid (refresh t pod) (pods_of k m)) m
add_or_refresh nn k uid t none m = start_pod nn k uid t m

-- The second loop of `Sync`, over the desired pods in some order.
unfoldable pub start_desired : NamespacedName → String → Dict PodTarget → Manager → Manager
start_desired nn k [] m = m
start_desired nn k ((uid, t) ∷ rest) m =
    start_desired nn k rest (add_or_refresh nn k uid t (slot k uid m) m)

-- `Sync` finds or makes the entry of the policy, and stores the configuration in it.
unfoldable pub open_entry : String → ProbeConfig → Manager → Manager
open_entry k cfg m =
    let entry : PolicyEntry = record { cfg = cfg; pods = pods_of k m } in
    record m { policies = insert k entry m.policies }

-- `pod.SeenReady = true`, where there is such a pod.
abbrev pub mark_ready : String → String → Option PodEntry → Manager → Manager
mark_ready k uid none m = m
mark_ready k uid (some pod) m =
    set_pods k
      (insert uid (record pod { state = record pod.state { seen_ready = true } }) (pods_of k m)) m

-- The loop of `Forget` over the pods.
unfoldable pub cancel_all : Dict PodEntry → Manager → Manager
cancel_all [] m = m
cancel_all ((uid, pod) ∷ rest) m = cancel_all rest (cancel_pod pod.cancel m)

-- What `record` makes of a pod is written to its entry, where there is one.
abbrev pub store_result :
    String → String → Option PodEntry → ProbeConfig → Bool → Time → Manager → Manager × Bool
store_result k uid none cfg ok now m = (m, false)
store_result k uid (some pod) cfg ok now m =
    let (pod', flipped) = record_probe pod cfg ok now in
    (set_pods k (insert uid pod' (pods_of k m)) m, flipped)

abbrev pub config_and_ip : ProbeConfig → Option PodEntry → Option (ProbeConfig × String)
config_and_ip cfg none = none
config_and_ip cfg (some pod) = some (cfg, pod.state.pod_ip)

-- The buffer of the event channel.
abbrev pub events_cap : ℕ
events_cap = 1024

-- The send of an event; `none` while the channel is full, and the goroutine waits.
unfoldable pub send_event : NamespacedName → Manager → Option Manager
send_event nn m =
    if ltb (length m.events) events_cap
    then some (record m { events = m.events ++ nn ∷ [] })
    else none

module _ (rt : Runtime) where
  -- `key`.
  unfoldable pub key : NamespacedName → String
  key nn = rt.nn_string nn

  -- `Sync`.
  unfoldable pub sync : NamespacedName → ProbeConfig → List PodTarget → Manager → Manager
  sync nn cfg targets m =
      let k = key nn in
      let kept = open_entry k cfg m in
      let desired = desired_from [] targets in
      let stopped = stop_missing k desired (rt.order_pods (pods_of k kept)) kept in
      start_desired nn k (rt.order_targets desired) stopped

  -- `SetSeenReady`.
  unfoldable pub set_seen_ready : NamespacedName → String → Manager → Manager
  set_seen_ready nn uid m = mark_ready (key nn) uid (slot (key nn) uid m) m

  -- `Snapshot`.
  unfoldable pub snapshot : NamespacedName → Manager → List PodState
  snapshot nn m = map (λ e. e.1.state) (rt.order_pods (pods_of (key nn) m))

  -- The probes of a known policy are stopped, and its entry is dropped.
  unfoldable pub forget_entry : String → Option PolicyEntry → Manager → Manager
  forget_entry k none m = m
  forget_entry k (some pe) m =
      let stopped = cancel_all (rt.order_pods pe.pods) m in
      record stopped { policies = delete k stopped.policies }

  -- `Forget`.
  unfoldable pub forget : NamespacedName → Manager → Manager
  forget nn m = forget_entry (key nn) (lookup (key nn) m.policies) m

  -- The first half of `probeOnce`: what is to be probed, if the pod is still known.
  unfoldable pub begin_probe : NamespacedName → String → Manager → Option (ProbeConfig × String)
  begin_probe nn uid m = elim (lookup (key nn) m.policies) [
    | none ↦ none
    | some pe ↦ config_and_ip pe.cfg (lookup uid pe.pods)
  ]

  -- The second half of `probeOnce`, with the configuration that the first half read: the result is
  -- recorded if the pod is still known; whether an event is to be sent.
  unfoldable pub finish_probe :
      NamespacedName → String → ProbeConfig → Bool → Time → Manager → Manager × Bool
  finish_probe nn uid cfg ok now m = store_result (key nn) uid (slot (key nn) uid m) cfg ok now m
