-- ===== src/Prober/Manager/Everywhere.antt =====
-- What holds of every pod that the manager knows, call by call.
use mathlib.Core.Path.{subst}
use hotswap_operator.Prelude.{
  ℕ, String, Bool, true, false, ◌&&◌, ◌≡◌, sym, Option, none, some, [], ◌∷◌, str_eq, if◌then◌else◌,
  List, Option-cases, inl, inr, arith, str_eq_iff,
}
use hotswap_operator.Prelude.Dict.{Dict, lookup}
use hotswap_operator.Api.Kube.{NamespacedName, Time}
use hotswap_operator.Prober.Config.{ProbeConfig, PodTarget}
use hotswap_operator.Prober.Threshold.{PodEntry, new_entry, record_probe}
use hotswap_operator.Prober.Manager.{
  Manager, Runtime, slot, pods_of, open_entry, stop_unwanted, stop_missing, add_or_refresh,
  start_desired, desired_from, refresh, key, sync, set_seen_ready, forget, finish_probe,
}
use hotswap_operator.Prober.Manager.Store.{
  Has, Has-slot, stop_pod-Stops, set_pods-Keeps, start_pod-Starts, slot-of_policies,
}
use hotswap_operator.Prober.Manager.Sync.{open_entry_pods, open_entry-Has}
use hotswap_operator.Prober.Manager.Workers.{pick}
use hotswap_operator.Prober.Manager.Removal.{forgotten-Forgets, forget_unknown, forget_known}
use hotswap_operator.Prober.Manager.Store.{IsTidy}

-- What holds of a pod, if there is one.
abbrev pub Holds : (PodEntry → Type 0) → Option PodEntry → Type 0
Holds Q none = Unit
Holds Q (some pod) = Q pod

-- The pod that `SetSeenReady` writes.
abbrev pub marked : PodEntry → PodEntry
marked pod = record pod { state = record pod.state { seen_ready = true } }

Holds-removed :
    (Q : PodEntry → Type 0) (b : Bool) (old : Option PodEntry)
    → Holds Q old
    → Holds Q (if b then none else old)
Holds-removed Q true old h = tt
Holds-removed Q false old h = h

absent_slot :
    (k uid : String) (m : Manager)
    → slot k uid m ≡ none
    → (j i : String) → slot j i m ≡ (if str_eq k j && str_eq uid i then none else slot j i m)
absent_slot k uid m e j i = ground (arith, str_eq_iff k j, str_eq_iff uid i)

module _ (Q : String → String → PodEntry → Type 0) where
  -- `Q` holds of each known pod, with its key and its UID.
  abbrev pub Everywhere : Manager → Type 0
  Everywhere m = (j i : String) → Holds (Q j i) (slot j i m)

  pub Everywhere-written :
      (k uid : String) (pod : PodEntry) (m m' : Manager)
      → ((j i : String)
          → slot j i m' ≡ (if str_eq k j && str_eq uid i then some pod else slot j i m))
      → Q k uid pod
      → Everywhere m
      → Everywhere m'
  Everywhere-written k uid pod m m' slots q all j i = elim (pick k uid j i (slots j i)) [
    | inl (kj, ui, now) ↦
        subst (Holds (Q j i)) (sym now) (subst (λ x. Q j x pod) ui (subst (λ x. Q x uid pod) kj q))
    | inr (_, now) ↦ subst (Holds (Q j i)) (sym now) (all j i)
  ]

  Everywhere-removed :
      (b : String → String → Bool) (m m' : Manager)
      → ((j i : String) → slot j i m' ≡ (if b j i then none else slot j i m))
      → Everywhere m
      → Everywhere m'
  Everywhere-removed b m m' slots all j i =
      subst (Holds (Q j i)) (sym (slots j i)) (Holds-removed (Q j i) (b j i) (slot j i m) (all j i))

  pub Everywhere-of_policies :
      (m m' : Manager) → m'.policies ≡ m.policies → Everywhere m → Everywhere m'
  Everywhere-of_policies m m' e all j i =
      subst (Holds (Q j i)) (sym (slot-of_policies j i m m' e)) (all j i)

  at_slot :
      (j i : String) (m : Manager) (pod : PodEntry)
      → slot j i m ≡ some pod
      → Everywhere m
      → Q j i pod
  at_slot j i m pod e all = subst (Holds (Q j i)) e (all j i)

  stop_unwanted-Everywhere :
      (k uid : String) (pod : PodEntry) (o : Option PodTarget) (m : Manager)
      → Has k m
      → Everywhere m
      → Has k (stop_unwanted k uid pod o m) × Everywhere (stop_unwanted k uid pod o m)
  unfolding stop_unwanted
  stop_unwanted-Everywhere k uid pod none m h all =
      let s = stop_pod-Stops k uid pod m h in
      (s.has, Everywhere-removed (λ j i. str_eq k j && str_eq uid i) m _ s.slots all)
  stop_unwanted-Everywhere k uid pod (some t) m h all = (h, all)

  stop_missing-Everywhere :
      (k : String) (d : Dict PodTarget) (es : Dict PodEntry) (m : Manager)
      → Has k m
      → Everywhere m
      → Has k (stop_missing k d es m) × Everywhere (stop_missing k d es m)
  unfolding stop_missing
  stop_missing-Everywhere k d [] m h all = (h, all)
  stop_missing-Everywhere k d ((uid, pod) ∷ es) m h all =
      let (h', all') = stop_unwanted-Everywhere k uid pod (lookup uid d) m h all in
      stop_missing-Everywhere k d es _ h' all'

  module _ (rt : Runtime) where
    module _ (nn : NamespacedName)
        (fresh : (i : String) (t : PodTarget) (c : Option ℕ) → Q (key rt nn) i (new_entry t c))
        (fits : (i : String) (t : PodTarget) (pod : PodEntry)
          → Q (key rt nn) i pod
          → Q (key rt nn) i (refresh t pod)) where
      start_desired-Everywhere :
          (es : Dict PodTarget) (m : Manager)
          → Has (key rt nn) m
          → Everywhere m
          → Everywhere (start_desired nn (key rt nn) es m)
      unfolding start_desired add_or_refresh
      start_desired-Everywhere [] m h all = all
      start_desired-Everywhere ((uid, t) ∷ es) m h all =
          let k = key rt nn in
          elim (Option-cases (slot k uid m)) [
            | inl new ↦
                let s = start_pod-Starts nn k uid t m h in
                rw new (
                  start_desired-Everywhere es _ s.has
                    (Everywhere-written k uid _ m _ s.slots (fresh uid t (some m.next_ctx)) all))
            | inr (pod, known) ↦
                let s = set_pods-Keeps k uid (refresh t pod) m h in
                rw known (
                  start_desired-Everywhere es _ s.has (
                    Everywhere-written k uid _ m _ s.slots
                      (fits uid t pod (at_slot k uid m pod known all)) all))
          ]

      -- What holds of new pods, and stays true when a pod is brought up to date, `Sync` preserves.
      pub sync-Everywhere :
          (cfg : ProbeConfig) (targets : List PodTarget) (m : Manager)
          → Everywhere m
          → Everywhere (sync rt nn cfg targets m)
      unfolding sync
      sync-Everywhere cfg targets m all =
          let k = key rt nn in
          let opened = open_entry k cfg m in
          let all' : Everywhere opened = λ j i.
            unfold slot in
            subst (λ o. Holds (Q j i) (lookup i o)) (sym (open_entry_pods k j cfg m))
              (unfold slot in all j i) in
          let (has, stopped) =
            stop_missing-Everywhere k (desired_from [] targets) (rt.order_pods (pods_of k opened))
              opened (open_entry-Has k cfg m) all' in
          start_desired-Everywhere (rt.order_targets (desired_from [] targets)) _ has stopped

    pub forget-Everywhere :
        (nn : NamespacedName) (m : Manager) → IsTidy m → Everywhere m → Everywhere (forget rt nn m)
    forget-Everywhere nn m tidy all =
        let k = key rt nn in
        elim (Option-cases (lookup k m.policies)) [
          | inl absent ↦ rw (forget_unknown rt nn m absent) all
          | inr (pe, e) ↦
              let s = forgotten-Forgets rt k pe m e tidy in
              rw (forget_known rt nn m e) (Everywhere-removed (λ j i. str_eq k j) m _ s.slots all)
        ]

pub Holds-map :
    (P R : PodEntry → Type 0) (o : Option PodEntry)
    → ((pod : PodEntry) → P pod → R pod)
    → Holds P o
    → Holds R o
Holds-map P R none f h = tt
Holds-map P R (some pod) f h = f pod h

-- From one fact of all pods to another, where the pod under `k` and `uid` is treated apart.
module _ (Q R : String → String → PodEntry → Type 0) (k uid : String)
    (others : (j i : String) (pod : PodEntry) → (k ≡ j → uid ≡ i → ⊥) → Q j i pod → R j i pod) where
  -- A write to the pod, where there is one.
  written-Everywhere :
      (m m' : Manager) (f : PodEntry → PodEntry)
      → (slot k uid m ≡ none → m' ≡ m)
      → ((pod : PodEntry)
          → slot k uid m ≡ some pod
          → (j i : String)
          → slot j i m' ≡ (if str_eq k j && str_eq uid i then some (f pod) else slot j i m))
      → ((pod : PodEntry) → Q k uid pod → R k uid (f pod))
      → Everywhere Q m
      → Everywhere R m'
  written-Everywhere m m' f nothing slots q all j i = elim (Option-cases (slot k uid m)) [
    | inl absent ↦
        rw (nothing absent)
          (elim (pick k uid j i {now = slot j i m} {x = none} {old = slot j i m}
            (absent_slot k uid m absent j i)) [
              | inl (kj, ui, gone) ↦ subst (Holds (R j i)) (sym gone) tt
              | inr (apart, _) ↦
                  Holds-map (Q j i) (R j i) (slot j i m) (λ p. others j i p apart) (all j i)
            ])
    | inr (pod, e) ↦ elim (pick k uid j i (slots pod e j i)) [
      | inl (kj, ui, written) ↦ subst (Holds (R j i)) (sym written) (
          subst (λ x. R j x (f pod)) ui
            (subst (λ x. R x uid (f pod)) kj (q pod (at_slot Q k uid m pod e all))))
      | inr (apart, kept) ↦
          subst (Holds (R j i)) (sym kept)
            (Holds-map (Q j i) (R j i) (slot j i m) (λ p. others j i p apart) (all j i))
    ]
  ]

  pub set_seen_ready-Everywhere :
      (rt : Runtime) (nn : NamespacedName) (m : Manager)
      → key rt nn ≡ k
      → ((pod : PodEntry) → Q k uid pod → R k uid (marked pod))
      → Everywhere Q m
      → Everywhere R (set_seen_ready rt nn uid m)
  unfolding set_seen_ready
  set_seen_ready-Everywhere rt nn m same q all =
      written-Everywhere m _ marked (λ absent. rw (same, absent))
        (λ pod e. rw (same, e) ((set_pods-Keeps k uid (marked pod) m (Has-slot k uid m e)).slots)) q
        all

  -- What `finish_probe` makes of the pod.
  pub finish_probe-Everywhere :
      (rt : Runtime) (nn : NamespacedName) (cfg : ProbeConfig) (ok : Bool) (now : Time)
      (m : Manager)
      → key rt nn ≡ k
      → ((pod : PodEntry) → Q k uid pod → R k uid (record_probe pod cfg ok now).0)
      → Everywhere Q m
      → Everywhere R (finish_probe rt nn uid cfg ok now m).0
  unfolding finish_probe
  finish_probe-Everywhere rt nn cfg ok now m same q all =
      let f : PodEntry → PodEntry = λ pod. (record_probe pod cfg ok now).0 in
      written-Everywhere m _ f (λ absent. rw (same, absent))
        (λ pod e. rw (same, e) ((set_pods-Keeps k uid (f pod) m (Has-slot k uid m e)).slots)) q all
