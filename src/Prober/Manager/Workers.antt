-- ===== src/Prober/Manager/Workers.antt =====
-- The goroutines that `Sync` starts, and what it means that they are in step with the map of pods.
pub mod Preserved
use hotswap_operator.Prelude.{
  ℕ, suc, ◌≤◌, ◌<◌, ◌==◌, String, true, false, ◌&&◌, ◌≡◌, refl, sym, ap, ◌∙◌, ◌⊎◌, inl, inr, Option,
  none, some, str_eq, str_eq_iff, str_eq_refl, ==_iff, if◌then◌else◌, arith, Bool-cases,
}
use hotswap_operator.Prelude.Dict.{lookup}
use hotswap_operator.Api.Kube.{NamespacedName}
use hotswap_operator.Prober.Config.{PodTarget}
use hotswap_operator.Prober.Threshold.{PodEntry, new_entry}
use hotswap_operator.Prober.Manager.{Worker, Manager, Runtime, pods_of, slot, new_manager, key}
use hotswap_operator.Prober.Manager.Store.{cancels, Stops, Keeps, Starts, IsTidy}

-- The two cases of a slot after a write to one slot.
pub pick :
    (k uid j i : String) {now x old : Option PodEntry}
    → now ≡ (if str_eq k j && str_eq uid i then x else old)
    → ((k ≡ j) × (uid ≡ i) × (now ≡ x)) ⊎ ((k ≡ j → uid ≡ i → ⊥) × (now ≡ old))
pick k uid j i e = elim (Bool-cases (str_eq k j)) [
  | inl kj ↦ elim (Bool-cases (str_eq uid i)) [
    | inl ui ↦ inl ((str_eq_iff k j).0 kj, (str_eq_iff uid i).0 ui, ground arith)
    | inr ui ↦ inr (λ a b. ground (arith, str_eq_iff uid i), ground arith)
  ]
  | inr kj ↦ inr (λ a b. ground (arith, str_eq_iff k j), ground arith)
]

pub same_pod :
    (k uid j i : String) (m : Manager) {a b : PodEntry}
    → k ≡ j
    → uid ≡ i
    → slot k uid m ≡ some a
    → slot j i m ≡ some b
    → some a ≡ some b
same_pod k uid j i m kj ui a b = cc

pub same_slot :
    (k uid j i : String) (m : Manager) {o : Option PodEntry}
    → k ≡ j
    → uid ≡ i
    → slot k uid m ≡ o
    → slot j i m ≡ o
same_slot k uid j i m kj ui a = cc

pub no_pod :
    (k uid j i : String) (m : Manager) {b : PodEntry}
    → k ≡ j
    → uid ≡ i
    → slot k uid m ≡ none
    → slot j i m ≡ some b
    → ⊥
no_pod k uid j i m kj ui a b = cc

pub same_worker : {w w' : Worker} → some w ≡ some w' → (w.policy ≡ w'.policy) × (w.uid ≡ w'.uid)
same_worker e = (cc, cc)

abbrev pub cancel_of : Option PodEntry → Option ℕ
cancel_of none = none
cancel_of (some pod) = pod.cancel

module _ (rt : Runtime) where
  -- Goroutine `c` probes the pod under `k` and `uid`, and its context is not cancelled.
  pub record Probes (m : Manager) (k uid : String) (c : ℕ) : Type 0 where
    pub nn : NamespacedName
    pub known : key rt nn ≡ k
    pub running : m.workers c ≡ some (record { policy = nn; uid = uid })
    pub live : m.cancelled c ≡ false

  pub record IsSound (m : Manager) : Type 0 where
    pub tidy : IsTidy m
    pub tracked :
        (k uid : String) (pod : PodEntry)
        → slot k uid m ≡ some pod
        → (c : ℕ) × (pod.cancel ≡ some c) × (c < m.next_ctx) × Probes m k uid c
    pub owned :
        (c : ℕ) (w : Worker)
        → m.workers c ≡ some w
        → m.cancelled c ≡ false
        → (pod : PodEntry) × (slot (key rt w.policy) w.uid m ≡ some pod) × (pod.cancel ≡ some c)
    pub fresh : (c : ℕ) → m.next_ctx ≤ c → (m.workers c ≡ none) × (m.cancelled c ≡ false)

  pub moved :
      (m m' : Manager) (k uid j i : String) (c : ℕ)
      → m'.workers c ≡ m.workers c
      → m'.cancelled c ≡ m.cancelled c
      → k ≡ j
      → uid ≡ i
      → Probes m k uid c
      → Probes m' j i c
  moved m m' k uid j i c w l kj ui p = record {
    nn = p.nn;
    known = p.known ∙ kj;
    running = w ∙ p.running ∙ ap (λ x. some (record { policy = p.nn; uid = x })) ui;
    live = l ∙ p.live;
  }

  pub new_manager-IsSound : IsSound new_manager
  unfolding new_manager slot pods_of lookup
  new_manager-IsSound = record {
    tidy = λ k. tt;
    tracked = λ k uid pod h. absurd cc;
    owned = λ c w h l. absurd cc;
    fresh = λ c h. (refl, refl);
  }

  -- Two pods do not share a context.
  pub apart :
      (m : Manager) (k uid j i : String) (c d : ℕ)
      → d ≡ c
      → (k ≡ j → uid ≡ i → ⊥)
      → Probes m k uid c
      → Probes m j i d
      → ⊥
  apart m k uid j i c d same other p q =
      let (same_nn, same_uid) = same_worker (sym p.running ∙ sym (ap m.workers same) ∙ q.running) in
      other (sym p.known ∙ ap (key rt) same_nn ∙ q.known) same_uid
