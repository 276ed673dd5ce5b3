-- ===== src/Prober/Manager/Store.antt =====
-- Reading what has been written to the manager's two levels of maps.
use hotswap_operator.Prelude.{
  ℕ, suc, ◌==◌, String, Bool, true, ◌&&◌, ◌≡◌, refl, ap, ◌∙◌, Option, none, some, str_eq,
  str_eq_iff, str_eq_refl, if◌then◌else◌, arith, Option-cases, Bool-cases, inl, inr,
}
use hotswap_operator.Prelude.Dict.{
  Dict, lookup, insert, delete, IsUnique, lookup-insert, lookup-delete, insert-IsUnique,
  delete-IsUnique,
}
use hotswap_operator.Api.Kube.{NamespacedName}
use hotswap_operator.Prober.Config.{PodTarget}
use hotswap_operator.Prober.Threshold.{PodEntry, new_entry}
use hotswap_operator.Prober.Manager.{
  PolicyEntry, Manager, pods_of, slot, set_pods, cancel_pod, stop_pod, start_pod,
}

-- There is an entry under the key.
abbrev pub Has : String → Manager → Type 0
Has k m = (pe : PolicyEntry) × (lookup k m.policies ≡ some pe)

pub Has-slot : (k uid : String) (m : Manager) {pod : PodEntry} → slot k uid m ≡ some pod → Has k m
unfolding slot pods_of lookup
Has-slot k uid m h = elim (Option-cases (lookup k m.policies)) [
  | inl e ↦ absurd (ground arith)
  | inr (pe, e) ↦ (pe, e)
]

set_pods_lem :
    (k : String) (pods : Dict PodEntry) (m : Manager) {pe : PolicyEntry}
    → lookup k m.policies ≡ some pe
    → set_pods k pods m ≡ record m { policies = insert k (record pe { pods = pods }) m.policies }
unfolding set_pods
set_pods_lem k pods m h = rw h

-- A write to the pods of one key changes that policy's pods alone, and no configuration.
pub lookup-set_pods :
    (k j : String) (pods : Dict PodEntry) (m : Manager) {pe : PolicyEntry}
    → lookup k m.policies ≡ some pe
    → lookup j (set_pods k pods m).policies
      ≡ (if str_eq k j then some (record pe { pods = pods }) else lookup j m.policies)
lookup-set_pods k j pods m {pe} h =
    rw (set_pods_lem k pods m h) (lookup-insert k j (record pe { pods = pods }) m.policies)

pub set_pods-rest :
    (k : String) (pods : Dict PodEntry) (m : Manager)
    → ((set_pods k pods m).next_ctx ≡ m.next_ctx)
      × ((set_pods k pods m).cancelled ≡ m.cancelled)
      × ((set_pods k pods m).workers ≡ m.workers)
      × ((set_pods k pods m).events ≡ m.events)
unfolding set_pods
set_pods-rest k pods m = ground arith

pub Has-set_pods :
    (k : String) (pods : Dict PodEntry) (m : Manager) → Has k m → Has k (set_pods k pods m)
Has-set_pods k pods m (pe, h) =
    (record pe { pods = pods }, ground (arith, lookup-set_pods k k pods m h, str_eq_refl k))

pub pods_of-set_pods :
    (k j : String) (pods : Dict PodEntry) (m : Manager)
    → Has k m
    → pods_of j (set_pods k pods m) ≡ (if str_eq k j then pods else pods_of j m)
unfolding pods_of
pods_of-set_pods k j pods m (pe, h) = ground (arith, lookup-set_pods k j pods m h)

pub slot-insert :
    (k j uid i : String) (pod : PodEntry) (m : Manager)
    → Has k m
    → slot j i (set_pods k (insert uid pod (pods_of k m)) m)
      ≡ (if str_eq k j && str_eq uid i then some pod else slot j i m)
unfolding slot
slot-insert k j uid i pod m h = ground (
  arith,
  pods_of-set_pods k j (insert uid pod (pods_of k m)) m h,
  lookup-insert uid i pod (pods_of k m),
  str_eq_iff k j,
)

pub slot-delete :
    (k j uid i : String) (m : Manager)
    → Has k m
    → slot j i (set_pods k (delete uid (pods_of k m)) m)
      ≡ (if str_eq k j && str_eq uid i then none else slot j i m)
unfolding slot
slot-delete k j uid i m h = ground (
  arith,
  pods_of-set_pods k j (delete uid (pods_of k m)) m h,
  lookup-delete uid i (pods_of k m),
  str_eq_iff k j,
)

-- `pod.cancel()` marks its context and does nothing else.
abbrev pub cancels : Option ℕ → (ℕ → Bool) → ℕ → Bool
cancels none old c = old c
cancels (some ctx) old c = if c == ctx then true else old c

pub cancel_pod-effect :
    (o : Option ℕ) (m : Manager)
    → ((cancel_pod o m).policies ≡ m.policies)
      × ((cancel_pod o m).next_ctx ≡ m.next_ctx)
      × ((c : ℕ) → (cancel_pod o m).cancelled c ≡ cancels o m.cancelled c)
      × ((cancel_pod o m).workers ≡ m.workers)
unfolding cancel_pod
cancel_pod-effect none m = (refl, refl, λ c. refl, refl)
cancel_pod-effect (some ctx) m = (refl, refl, λ c. refl, refl)

slot-cancel_pod :
    (o : Option ℕ) (j i : String) (m : Manager) → slot j i (cancel_pod o m) ≡ slot j i m
unfolding cancel_pod slot pods_of
slot-cancel_pod none j i m = refl
slot-cancel_pod (some ctx) j i m = refl

-- Only the policies matter to a slot.
pub slot-of_policies :
    (j i : String) (m m' : Manager) → m'.policies ≡ m.policies → slot j i m' ≡ slot j i m
unfolding slot pods_of
slot-of_policies j i m m' e = rw e

-- No map of pods has a UID twice.
abbrev pub IsTidy : Manager → Type 0
IsTidy m = (k : String) → IsUnique (pods_of k m)

IsTidy-set_pods :
    (k : String) (pods : Dict PodEntry) (m : Manager)
    → Has k m
    → IsTidy m
    → IsUnique pods
    → IsTidy (set_pods k pods m)
IsTidy-set_pods k pods m h t u j =
    rw (pods_of-set_pods k j pods m h)
      (elim (Bool-cases (str_eq k j)) [ inl same ↦ rw same u | inr other ↦ rw other (t j) ])

pub IsTidy-of_policies : (m m' : Manager) → m'.policies ≡ m.policies → IsTidy m → IsTidy m'
unfolding pods_of
IsTidy-of_policies m m' e t k = rw e (t k)

-- What `Sync` does to the manager when it stops the probe of a pod.
pub record Stops (k uid : String) (pod : PodEntry) (m m' : Manager) : Type 0 where
  pub has : Has k m'
  pub tidy : IsTidy m → IsTidy m'
  pub slots :
      (j i : String) → slot j i m' ≡ (if str_eq k j && str_eq uid i then none else slot j i m)
  pub next : m'.next_ctx ≡ m.next_ctx
  pub cancelled : (c : ℕ) → m'.cancelled c ≡ cancels pod.cancel m.cancelled c
  pub workers : m'.workers ≡ m.workers

pub stop_pod-Stops :
    (k uid : String) (pod : PodEntry) (m : Manager)
    → Has k m
    → Stops k uid pod m (stop_pod k uid pod m)
unfolding stop_pod
stop_pod-Stops k uid pod m h =
    let c = cancel_pod pod.cancel m in
    let (policies, next, cancelled, workers) = cancel_pod-effect pod.cancel m in
    let rest = set_pods-rest k (delete uid (pods_of k c)) c in
    let h' : Has k c = rw policies h in
    record {
      has = Has-set_pods k (delete uid (pods_of k c)) c h';
      tidy = λ t.
          let t' = IsTidy-of_policies m c policies t in
          IsTidy-set_pods k (delete uid (pods_of k c)) c h' t'
            (delete-IsUnique uid (pods_of k c) (t' k));
      slots = λ j i.
          slot-delete k j uid i c h'
          ∙ ap (λ o. if str_eq k j && str_eq uid i then none else o)
              (slot-cancel_pod pod.cancel j i m);
      next = rest.0 ∙ next;
      cancelled = λ d. ap (λ f. f d) rest.1 ∙ cancelled d;
      workers = rest.2 ∙ workers;
    }

-- What `Sync` does when it brings a pod up to date, or starts the probe of a new one.
pub record Keeps (k uid : String) (pod : PodEntry) (m m' : Manager) : Type 0 where
  pub has : Has k m'
  pub tidy : IsTidy m → IsTidy m'
  pub slots :
      (j i : String) → slot j i m' ≡ (if str_eq k j && str_eq uid i then some pod else slot j i m)
  pub next : m'.next_ctx ≡ m.next_ctx
  pub cancelled : m'.cancelled ≡ m.cancelled
  pub workers : m'.workers ≡ m.workers

pub set_pods-Keeps :
    (k uid : String) (pod : PodEntry) (m : Manager)
    → Has k m
    → Keeps k uid pod m (set_pods k (insert uid pod (pods_of k m)) m)
set_pods-Keeps k uid pod m h =
    let rest = set_pods-rest k (insert uid pod (pods_of k m)) m in
    record {
      has = Has-set_pods k (insert uid pod (pods_of k m)) m h;
      tidy = λ t.
          IsTidy-set_pods k (insert uid pod (pods_of k m)) m h t
            (insert-IsUnique uid pod (pods_of k m) (t k));
      slots = λ j i. slot-insert k j uid i pod m h;
      next = rest.0;
      cancelled = rest.1;
      workers = rest.2;
    }

pub record Starts (nn : NamespacedName) (k uid : String) (t : PodTarget) (m m' : Manager)
    : Type 0 where
  pub has : Has k m'
  pub tidy : IsTidy m → IsTidy m'
  pub slots :
      (j i : String)
      → slot j i m'
        ≡ (if str_eq k j && str_eq uid i then some (new_entry t (some m.next_ctx)) else slot j i m)
  pub next : m'.next_ctx ≡ suc m.next_ctx
  pub cancelled : m'.cancelled ≡ m.cancelled
  pub workers :
      (c : ℕ)
      → m'.workers c
        ≡ (if c == m.next_ctx then some (record { policy = nn; uid = uid }) else m.workers c)

pub start_pod-Starts :
    (nn : NamespacedName) (k uid : String) (t : PodTarget) (m : Manager)
    → Has k m
    → Starts nn k uid t m (start_pod nn k uid t m)
unfolding start_pod
start_pod-Starts nn k uid t m h =
    let pod = new_entry t (some m.next_ctx) in
    let kept = set_pods-Keeps k uid pod m h in
    record {
      has = kept.has;
      tidy = λ t.
          IsTidy-of_policies (set_pods k (insert uid pod (pods_of k m)) m) _ refl (kept.tidy t);
      slots = λ j i.
          slot-of_policies j i (set_pods k (insert uid pod (pods_of k m)) m) _ refl
          ∙ kept.slots j i;
      next = refl;
      cancelled = kept.cancelled;
      workers = λ c. refl;
    }
