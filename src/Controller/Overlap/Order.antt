-- ===== src/Controller/Overlap/Order.antt =====
-- The order of `lessPolicy`, in internal/controller/hotswappolicy_controller.go.
use hotswap_operator.Prelude.{
  true, false, ◌≡◌, ◌∙◌, inl, inr, str_lt_irrefl, str_lt_total, str_lt_trans, arith, Bool-cases,
}
use hotswap_operator.Api.{HotSwapPolicy}
use hotswap_operator.Controller.Overlap.{less_policy}

-- `lessPolicy` is a strict order, total on the pair of creation and name.
pub less_policy_irrefl : (a : HotSwapPolicy) → less_policy a a ≡ false
unfolding less_policy
less_policy_irrefl a = ground (arith, str_lt_irrefl a.meta.name)

pub less_policy_trans :
    (a b c : HotSwapPolicy)
    → less_policy a b ≡ true
    → less_policy b c ≡ true
    → less_policy a c ≡ true
unfolding less_policy
less_policy_trans a b c h k = ground (arith, str_lt_trans a.meta.name b.meta.name c.meta.name)

pub less_policy_total :
    (a b : HotSwapPolicy)
    → less_policy a b ≡ false
    → less_policy b a ≡ false
    → (a.meta.creation_timestamp ≡ b.meta.creation_timestamp) × (a.meta.name ≡ b.meta.name)
unfolding less_policy
less_policy_total a b h k = ground (arith, str_lt_total a.meta.name b.meta.name)

-- `a` goes before `b` or is level with it.
abbrev pub Le : HotSwapPolicy → HotSwapPolicy → Type 0
Le a b = less_policy b a ≡ false

pub Le_of_less : (a b : HotSwapPolicy) → less_policy a b ≡ true → Le a b
Le_of_less a b h = elim (Bool-cases (less_policy b a)) [
  | inl back ↦ cc (less_policy_trans a b a h back, less_policy_irrefl a)
  | inr e ↦ e
]

pub less_policy_level :
    (c a b : HotSwapPolicy)
    → (a.meta.creation_timestamp ≡ b.meta.creation_timestamp) × (a.meta.name ≡ b.meta.name)
    → less_policy c a ≡ less_policy c b
unfolding less_policy
less_policy_level c a b e = rw (e.0, e.1)

pub Le_trans : (a b c : HotSwapPolicy) → Le a b → Le b c → Le a c
Le_trans a b c h k = elim (Bool-cases (less_policy a b)) [
  | inl ab ↦ elim (Bool-cases (less_policy c a)) [
    | inl ca ↦ cc (less_policy_trans c a b ca ab)
    | inr e ↦ e
  ]
  | inr level ↦ less_policy_level c a b (less_policy_total a b level h) ∙ k
]
