-- ===== src/Controller/Overlap/Winner.antt =====
-- Which of the policies for one Deployment wins (`conflictingPolicy`).
use hotswap_operator.Prelude.{
  false, ◌≡◌, ◌≢◌, refl, sym, ap, ◌∙◌, ◌⊎◌, ◌↔◌, inl, inr, List, [], ◌∷◌, All, All-map, All-both,
  All-Memᴰ, str_eq, str_eq_iff, arith, Bool-cases,
}
use mathlib.Core.Path.{subst}
use mathlib.Core.List.{Memᴰ}
use hotswap_operator.Api.{HotSwapPolicy}
use hotswap_operator.Controller.Overlap.{less_policy, challenge, winner_of, winner_name}
use hotswap_operator.Controller.Overlap.Order.{
  less_policy_irrefl, less_policy_total, Le, Le_of_less, Le_trans,
}

-- Another policy for the same Deployment.
abbrev pub IsRival : HotSwapPolicy → HotSwapPolicy → Type 0
IsRival p o = (o.meta.name ≢ p.meta.name) × (o.spec.target_ref.name ≡ p.spec.target_ref.name)

challenge-Le :
    (p w o : HotSwapPolicy) → Le (challenge p w o) w × (IsRival p o → Le (challenge p w o) o)
unfolding challenge
challenge-Le p w o = ground (
  arith,
  str_eq_iff o.meta.name p.meta.name,
  str_eq_iff o.spec.target_ref.name p.spec.target_ref.name,
  less_policy_irrefl w,
  less_policy_irrefl o,
  Le_of_less o w,
)

challenge_cases :
    (p w o : HotSwapPolicy) → (challenge p w o ≡ w) ⊎ ((challenge p w o ≡ o) × IsRival p o)
unfolding challenge
challenge_cases p w o = ground (
  arith,
  str_eq_iff o.meta.name p.meta.name,
  str_eq_iff o.spec.target_ref.name p.spec.target_ref.name,
)

-- The winner goes before the first one and before each rival.
winner_of-Le :
    (p w : HotSwapPolicy) (items : List HotSwapPolicy)
    → Le (winner_of p w items) w × All (λ o. IsRival p o → Le (winner_of p w items) o) items
unfolding winner_of
winner_of-Le p w [] = (less_policy_irrefl w, tt)
winner_of-Le p w (o ∷ rest) =
    let (first, others) = winner_of-Le p (challenge p w o) rest in
    let r = winner_of p (challenge p w o) rest in
    let (up, down) = challenge-Le p w o in
    (
      Le_trans r (challenge p w o) w first up,
      (λ rival. Le_trans r (challenge p w o) o first (down rival), others),
    )

winner_of_cases :
    (p w : HotSwapPolicy) (items : List HotSwapPolicy)
    → (winner_of p w items ≡ w) ⊎ IsRival p (winner_of p w items)
unfolding winner_of
winner_of_cases p w [] = inl refl
winner_of_cases p w (o ∷ rest) = elim (winner_of_cases p (challenge p w o) rest) [
  | inl e ↦ elim (challenge_cases p w o) [
    | inl same ↦ inl (e ∙ same)
    | inr (now, rival) ↦ inr (rw (e ∙ now) rival)
  ]
  | inr rival ↦ inr rival
]

-- Every listed policy has a name.
abbrev pub AreNamed : List HotSwapPolicy → Type 0
AreNamed = All (λ o. o.meta.name ≢ "")

-- What holds of the first one and of all the listed holds of the winner.
winner_of-All :
    (P : HotSwapPolicy → Type 0) (p w : HotSwapPolicy) (items : List HotSwapPolicy)
    → P w
    → All P items
    → P (winner_of p w items)
unfolding winner_of
winner_of-All P p w [] h a = h
winner_of-All P p w (o ∷ rest) h a =
    winner_of-All P p (challenge p w o) rest
      (elim (challenge_cases p w o) [
        | inl e ↦ subst P (sym e) h
        | inr (e, _) ↦ subst P (sym e) a.0
      ])
      a.1

-- No name of a winner reads as "no winner".
named_winner :
    (p : HotSwapPolicy) (items : List HotSwapPolicy)
    → p.meta.name ≢ ""
    → AreNamed items
    → (winner_of p p items).meta.name ≢ ""
named_winner p items h a = winner_of-All (λ o. o.meta.name ≢ "") p p items h a

winner_name-nil :
    (p : HotSwapPolicy) (items : List HotSwapPolicy)
    → (winner_of p p items).meta.name ≢ ""
    → (winner_name p items ≡ "") ↔ ((winner_of p p items).meta.name ≡ p.meta.name)
unfolding winner_name
winner_name-nil p items h = ground (arith, str_eq_iff (winner_of p p items).meta.name p.meta.name)

-- A policy wins where its name is that of the winner.
wins :
    (p : HotSwapPolicy) (items : List HotSwapPolicy)
    → (winner_of p p items).meta.name ≡ p.meta.name
    → winner_of p p items ≡ p
wins p items e = elim (winner_of_cases p p items) [
  | inl same ↦ same
  | inr rival ↦ absurd (rival.0 e)
]

pub winner_name_iff :
    (p : HotSwapPolicy) (items : List HotSwapPolicy)
    → p.meta.name ≢ ""
    → AreNamed items
    → (winner_name p items ≡ "") ↔ All (λ o. IsRival p o → less_policy o p ≡ false) items
winner_name_iff p items h a =
    let named = named_winner p items h a in
    let (first, others) = winner_of-Le p p items in
    (
      λ none_.
          All-map (λ o. IsRival p o → Le (winner_of p p items) o) (λ o. IsRival p o → Le p o)
            (λ o le rival.
              ap (less_policy o) (sym (wins p items ((winner_name-nil p items named).0 none_)))
              ∙ le rival)
            items others,
      λ all. (winner_name-nil p items named).1 (elim (winner_of_cases p p items) [
        | inl same ↦ ap (λ o. o.meta.name) same
        | inr rival ↦
            (less_policy_total (winner_of p p items) p
              (winner_of-All (λ o. IsRival p o → Le p o) p p items (λ r. absurd (r.0 refl)) all
                rival)
              first).1
      ]),
    )

-- Of two policies for one Deployment in a list whose policies all have a name, both see no conflict only if they
-- have the same name: a Deployment never has two active guardians.
pub one_guardian :
    (p q : HotSwapPolicy) (items : List HotSwapPolicy)
    → AreNamed items
    → Memᴰ p items
    → Memᴰ q items
    → p.spec.target_ref.name ≡ q.spec.target_ref.name
    → winner_name p items ≡ ""
    → winner_name q items ≡ ""
    → p.meta.name ≡ q.meta.name
one_guardian p q items a mp mq target wp wq =
    let named : (o : HotSwapPolicy) → Memᴰ o items → o.meta.name ≢ "" =
      λ o m. All-Memᴰ (λ o. o.meta.name ≢ "") items a m in
    let pq = (winner_name_iff p items (named p mp) a).0 wp in
    let qp = (winner_name_iff q items (named q mq) a).0 wq in
    elim (Bool-cases (str_eq p.meta.name q.meta.name)) [
      | inl same ↦ (str_eq_iff p.meta.name q.meta.name).0 same
      | inr differ ↦
          let ne : p.meta.name ≢ q.meta.name = λ e. cc ((str_eq_iff p.meta.name q.meta.name).1 e) in
          (less_policy_total p q (All-Memᴰ (λ o. IsRival q o → Le q o) items qp mp (ne, target))
            (All-Memᴰ (λ o. IsRival p o → Le p o) items pq mq (λ e. ne (sym e), sym target))).1
    ]

-- Where all policies have a name and the list holds no other policy of this one's name, the winner over this
-- policy and the list is for the same Deployment and sees no conflict itself: the Deployment has a guardian.
pub some_guardian :
    (p : HotSwapPolicy) (items : List HotSwapPolicy)
    → AreNamed items
    → p.meta.name ≢ ""
    → All (λ o. o.meta.name ≡ p.meta.name → o ≡ p) items
    → let winner = winner_of p p items in
      (winner_name winner items ≡ "") × (winner.spec.target_ref.name ≡ p.spec.target_ref.name)
some_guardian p items a h own =
    let winner = winner_of p p items in
    let (first, others) = winner_of-Le p p items in
    let target : winner.spec.target_ref.name ≡ p.spec.target_ref.name =
      elim (winner_of_cases p p items) [
        | inl same ↦ ap (λ o. o.spec.target_ref.name) same
        | inr rival ↦ rival.1
      ] in
    (
      (winner_name_iff winner items (named_winner p items h a) a).1 (
          All-map (λ o. (IsRival p o → Le winner o) × (o.meta.name ≡ p.meta.name → o ≡ p))
            (λ o. IsRival winner o → Le winner o)
            (λ o both rival. elim (Bool-cases (str_eq o.meta.name p.meta.name)) [
              | inl same ↦
                  subst (λ x. Le winner x)
                    (sym (both.1 ((str_eq_iff o.meta.name p.meta.name).0 same))) first
              | inr differ ↦
                  both.0 (λ e. cc ((str_eq_iff o.meta.name p.meta.name).1 e), rival.1 ∙ target)
            ])
            items
            (All-both (λ o. IsRival p o → Le winner o) (λ o. o.meta.name ≡ p.meta.name → o ≡ p)
              items others own)),
      target,
    )
