-- ===== src/System/Taken.antt =====
-- What `Sync` adds to the log: the pods that it takes up.
use hotswap_operator.Prelude.{
  String, false, ◌≡◌, refl, sym, ap, ◌∙◌, Option, none, some, List, [], ◌∷◌, str_eq, str_eq_iff,
  arith, Bool-cases, Option-cases, inl, inr,
}
use hotswap_operator.Prober.Config.{PodTarget}
use hotswap_operator.Prober.Threshold.{PodEntry}
use hotswap_operator.Prober.Manager.{Manager, slot}
use hotswap_operator.Prober.Manager.Sync.{last_target}
use hotswap_operator.System.{Evidence, made, note_new, made_by}
use hotswap_operator.System.Results.{results_of, is_shown, IsTypedLog}

note_new_same :
    (o : Option PodEntry) (log : List Evidence) (k uid j i : String)
    → (k ≡ j → uid ≡ i → o ≡ none → ⊥)
    → (results_of j i (note_new o (made k uid) log) ≡ results_of j i log)
      × (is_shown j i (note_new o (made k uid) log) ≡ is_shown j i log)
unfolding results_of is_shown
note_new_same (some pod) log k uid j i apart = (refl, refl)
note_new_same none log k uid j i apart =
    let differ : k ≡ j → uid ≡ i → ⊥ = λ a b. apart a b refl in
    (
      ground (arith, str_eq_iff k j, str_eq_iff uid i, differ),
      ground (arith, str_eq_iff k j, str_eq_iff uid i, differ),
    )

-- Nothing new is said of a pod that was known, nor of other policies' pods.
pub made_by_same :
    (k : String) (ts : List PodTarget) (m : Manager) (log : List Evidence) (j i : String)
    → (k ≡ j → slot j i m ≡ none → ⊥)
    → (results_of j i (made_by k ts m log) ≡ results_of j i log)
      × (is_shown j i (made_by k ts m log) ≡ is_shown j i log)
unfolding made_by
made_by_same k [] m log j i known = (refl, refl)
made_by_same k (t ∷ ts) m log j i known =
    let (r, s) = made_by_same k ts m log j i known in
    let (r', s') = note_new_same (slot k t.uid m) (made_by k ts m log) k t.uid j i (λ kj ui gone.
      known kj (sym (ap (λ x. slot x i m) kj ∙ refl) ∙ sym (ap (λ x. slot k x m) ui) ∙ gone)) in
    (r' ∙ r, s' ∙ s)

own_new :
    (o : Option PodEntry) (log : List Evidence) (k uid : String)
    → o ≡ none
    → (results_of k uid (note_new o (made k uid) log) ≡ [])
      × (is_shown k uid (note_new o (made k uid) log) ≡ false)
unfolding results_of is_shown
own_new (some pod) log k uid e = absurd (cc)
own_new none log k uid e = (
  ground (arith, str_eq_iff k k, str_eq_iff uid uid),
  ground (arith, str_eq_iff k k, str_eq_iff uid uid),
)

-- A target that was not known begins afresh.
pub made_by_new :
    (k : String) (ts : List PodTarget) (m : Manager) (log : List Evidence) (i : String)
    {t : PodTarget}
    → slot k i m ≡ none
    → last_target i ts ≡ some t
    → (results_of k i (made_by k ts m log) ≡ []) × (is_shown k i (made_by k ts m log) ≡ false)
unfolding made_by last_target
made_by_new k [] m log i new last = absurd (cc)
made_by_new k (t ∷ ts) m log i new last = elim (Bool-cases (str_eq t.uid i)) [
  | inl own ↦
      let same = (str_eq_iff t.uid i).0 own in
      rw⁻¹ same
        (own_new (slot k t.uid m) (made_by k ts m log) k t.uid (ap (λ x. slot k x m) same ∙ new))
  | inr other ↦ elim (Option-cases (last_target i ts)) [
    | inl gone ↦ absurd (ground arith)
    | inr (u, later) ↦
        let (r, s) = made_by_new k ts m log i new later in
        let (r', s') =
          note_new_same (slot k t.uid m) (made_by k ts m log) k t.uid k i
            (λ kk ui gone. ground (arith, str_eq_iff t.uid i)) in
        (r' ∙ r, s' ∙ s)
  ]
]

pub IsTypedLog-of_made_by :
    (k : String) (ts : List PodTarget) (m : Manager) (log : List Evidence)
    → IsTypedLog (made_by k ts m log)
    → IsTypedLog log
unfolding made_by
IsTypedLog-of_made_by k [] m log typed = typed
IsTypedLog-of_made_by k (t ∷ ts) m log typed = elim (Option-cases (slot k t.uid m)) [
  | inl new ↦ IsTypedLog-of_made_by k ts m log ((rw new at typed).1)
  | inr (pod, known) ↦ IsTypedLog-of_made_by k ts m log (rw known at typed)
]
