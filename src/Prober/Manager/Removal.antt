-- ===== src/Prober/Manager/Removal.antt =====
-- `Forget`, with the goroutines and the map of pods side by side.
use hotswap_operator.Prelude.{
  ℕ, ◌≤◌, ◌<◌, String, Bool, true, false, ◌≡◌, refl, sym, ap, ◌∙◌, inl, inr, Option, none, some,
  str_eq, str_eq_iff, str_eq_refl, if◌then◌else◌, arith, Option-cases, Bool-cases,
}
use hotswap_operator.Prelude.Dict.{Dict, lookup, delete, IsUnique, perm-lookup, lookup-delete}
use hotswap_operator.Api.Kube.{NamespacedName}
use hotswap_operator.Prober.Threshold.{PodEntry}
use hotswap_operator.Prober.Manager.{
  PolicyEntry, Manager, Runtime, pods_in, pods_of, slot, cancel_all, key, forget_entry, forget,
}
use hotswap_operator.Prober.Manager.Store.{IsTidy}
use hotswap_operator.Prober.Manager.Workers.{IsSound, Probes, moved, apart}
use hotswap_operator.Prober.Manager.Cancels.{holds, holds-lookup, holds-some, cancel_all-effect}

outside :
    (b : Bool) (old : Option PodEntry) {pod : PodEntry}
    → (if b then none else old) ≡ some pod
    → (b ≡ false) × (old ≡ some pod)
outside true old h = absurd cc
outside false old h = (refl, h)

-- What `Forget` does for the policy under `k`, whose pods are `es`.
pub record Forgets (k : String) (es : Dict PodEntry) (m m' : Manager) : Type 0 where
  pub slots : (j i : String) → slot j i m' ≡ (if str_eq k j then none else slot j i m)
  pub tidy : IsTidy m → IsTidy m'
  pub next : m'.next_ctx ≡ m.next_ctx
  pub cancelled : (c : ℕ) → m'.cancelled c ≡ (if holds c es then true else m.cancelled c)
  pub workers : m'.workers ≡ m.workers
  pub unique : IsUnique es
  pub agrees : (i : String) → lookup i es ≡ slot k i m

lookup-pods_where :
    (b : Bool) (i : String) (o : Option PolicyEntry)
    → lookup i (pods_in (if b then none else o)) ≡ (if b then none else lookup i (pods_in o))
unfolding lookup
lookup-pods_where true i o = refl
lookup-pods_where false i o = refl

IsUnique-pods_where :
    (b : Bool) (o : Option PolicyEntry)
    → IsUnique (pods_in o)
    → IsUnique (pods_in (if b then none else o))
IsUnique-pods_where true o u = tt
IsUnique-pods_where false o u = u

module _ (rt : Runtime) where
  -- A context of one of the pods belongs to a goroutine of the policy.
  own_ctx :
      (k : String) (es : Dict PodEntry) (m m' : Manager) (c : ℕ)
      → Forgets k es m m'
      → IsSound rt m
      → holds c es ≡ true
      → (i : String) × (c < m.next_ctx) × Probes rt m k i c
  own_ctx k es m m' c s sound h =
      let (i, pod, found, e) = holds-some c es s.unique h in
      let (d, cancel, lt, probes) = sound.tracked k i pod (sym (s.agrees i) ∙ found) in
      let same : some d ≡ some c = sym cancel ∙ e in
      let dc : d ≡ c = cc in (i, rw⁻¹ dc lt, rw⁻¹ dc probes)

  Forgets-IsSound :
      (k : String) (es : Dict PodEntry) (m m' : Manager)
      → Forgets k es m m'
      → IsSound rt m
      → IsSound rt m'
  Forgets-IsSound k es m m' s sound = record {
    tidy = s.tidy sound.tidy;
    tracked = λ j i pod h.
        let (other, before) = outside (str_eq k j) (slot j i m) (sym (s.slots j i) ∙ h) in
        let (c, cancel, lt, probes) = sound.tracked j i pod before in
        elim (Bool-cases (holds c es)) [
          | inl mine ↦
              let (i', _, probes') = own_ctx k es m m' c s sound mine in
              absurd (
                apart rt m k i' j i c c refl (λ kj _. ground (arith, str_eq_iff k j)) probes'
                  probes)
          | inr free ↦ (
            c,
            cancel,
            rw s.next lt,
            moved rt m m' j i j i c (ap (λ f. f c) s.workers) (ground (arith, s.cancelled c)) refl
                refl probes,
          )
        ];
    owned = λ c w running live.
        let (pod, found, cancel) =
          sound.owned c w (sym (ap (λ f. f c) s.workers) ∙ running)
            (ground (arith, s.cancelled c)) in
        elim (Bool-cases (str_eq k (key rt w.policy))) [
          | inl same ↦
              let kj = (str_eq_iff k (key rt w.policy)).0 same in
              let here = s.agrees w.uid ∙ ap (λ x. slot x w.uid m) kj ∙ found in
              absurd (ground (arith, s.cancelled c, holds-lookup c es w.uid pod here cancel))
          | inr other ↦ (pod, ground (arith, s.slots (key rt w.policy) w.uid, found), cancel)
        ];
    fresh = λ c le.
        let le' : m.next_ctx ≤ c = rw⁻¹ s.next le in
        let (idle, live) = sound.fresh c le' in
        (
          ap (λ f. f c) s.workers ∙ idle,
          elim (Bool-cases (holds c es)) [
            | inl mine ↦ absurd (let (i', lt, _) = own_ctx k es m m' c s sound mine in omega arith)
            | inr free ↦ ground (arith, s.cancelled c)
          ],
        );
  }

  pub forgotten-Forgets :
      (k : String) (pe : PolicyEntry) (m : Manager)
      → lookup k m.policies ≡ some pe
      → IsTidy m
      → let stopped = cancel_all (rt.order_pods pe.pods) m in
        Forgets k
          (rt.order_pods pe.pods)
          m
          (record stopped { policies = delete k stopped.policies })
  unfolding slot pods_of
  forgotten-Forgets k pe m e t =
      let es = rt.order_pods pe.pods in
      let (p, n, l, w) = cancel_all-effect es m in
      let same : pods_in (lookup k m.policies) ≡ pe.pods = rw e in
      let (unique, found) = perm-lookup (rt.order_pods-perm pe.pods) (rw⁻¹ same (t k)) in
      record {
        slots = λ j i.
            rw (p, lookup-delete k j m.policies)
              (lookup-pods_where (str_eq k j) i (lookup j m.policies));
        tidy = λ _ j.
            rw (p, lookup-delete k j m.policies)
              (IsUnique-pods_where (str_eq k j) (lookup j m.policies) (t j));
        next = n;
        cancelled = l;
        workers = w;
        unique = unique;
        agrees = λ i. found i ∙ ap (lookup i) (sym same);
      }

  pub forget_unknown :
      (nn : NamespacedName) (m : Manager)
      → lookup (key rt nn) m.policies ≡ none
      → forget rt nn m ≡ m
  unfolding forget forget_entry
  forget_unknown nn m e = rw e

  pub forget_known :
      (nn : NamespacedName) (m : Manager) {pe : PolicyEntry}
      → lookup (key rt nn) m.policies ≡ some pe
      → let stopped = cancel_all (rt.order_pods pe.pods) m in
        forget rt nn m ≡ record stopped { policies = delete (key rt nn) stopped.policies }
  unfolding forget forget_entry
  forget_known nn m e = rw e

  slot_unknown : (k uid : String) (m : Manager) → lookup k m.policies ≡ none → slot k uid m ≡ none
  unfolding slot pods_of lookup
  slot_unknown k uid m e = rw e

  -- Where the goroutines are in step with the pods, `Forget` keeps them so, and leaves the policy no pod.
  pub forget-IsSound :
      (nn : NamespacedName) (m : Manager)
      → IsSound rt m
      → IsSound rt (forget rt nn m)
        × ((uid : String) → slot (key rt nn) uid (forget rt nn m) ≡ none)
  forget-IsSound nn m sound =
      let k = key rt nn in
      elim (Option-cases (lookup k m.policies)) [
        | inl absent ↦ rw (forget_unknown nn m absent) (sound, λ uid. slot_unknown k uid m absent)
        | inr (pe, e) ↦
            let s = forgotten-Forgets k pe m e sound.tidy in
            rw (forget_known nn m e)
              (Forgets-IsSound k _ m _ s sound, λ uid. ground (arith, s.slots k uid, str_eq_refl k))
      ]
