-- ===== src/Prober/Manager/Cancels.antt =====
-- The contexts that the loop of `Forget` cancels.
use hotswap_operator.Prelude.{
  ℕ, ◌==◌, String, Bool, true, false, ◌||◌, ◌≡◌, refl, sym, ap, ◌∙◌, inl, inr, Option, none, some,
  [], ◌∷◌, str_eq, str_eq_iff, str_eq_refl, ==_iff, if◌then◌else◌, arith, Bool-cases,
}
use hotswap_operator.Prelude.Dict.{Dict, lookup, IsUnique}
use hotswap_operator.Prober.Threshold.{PodEntry}
use hotswap_operator.Prober.Manager.{Manager, cancel_pod, cancel_all}
use hotswap_operator.Prober.Manager.Store.{cancels, cancel_pod-effect}
use hotswap_operator.Prober.Manager.Lifecycle.{fresh_key}
use hotswap_operator.Prober.Manager.Workers.{cancel_of}

abbrev is_ctx : Option ℕ → ℕ → Bool
is_ctx none c = false
is_ctx (some d) c = c == d

is_ctx-true : (o : Option ℕ) (c : ℕ) → o ≡ some c → is_ctx o c ≡ true
is_ctx-true o c e = rw e (ground arith)

is_ctx-some : (o : Option ℕ) (c : ℕ) → is_ctx o c ≡ true → o ≡ some c
is_ctx-some none c h = absurd cc
is_ctx-some (some d) c h = ap some (sym ((==_iff c d).0 h))

or_true : (a b : Bool) → b ≡ true → (a || b) ≡ true
or_true a b h = ground arith

-- Some pod of the list has context `c`.
unfoldable pub holds : ℕ → Dict PodEntry → Bool
holds c [] = false
holds c ((uid, pod) ∷ es) = is_ctx pod.cancel c || holds c es

same_cancel :
    (b : Bool) (p : PodEntry) (rest : Option PodEntry) {pod : PodEntry}
    → b ≡ true
    → (if b then some p else rest) ≡ some pod
    → p.cancel ≡ pod.cancel
same_cancel b p rest e h = ap cancel_of (sym (ap (λ x. if x then some p else rest) e) ∙ h)

pub holds-lookup :
    (c : ℕ) (es : Dict PodEntry) (i : String) (pod : PodEntry)
    → lookup i es ≡ some pod
    → pod.cancel ≡ some c
    → holds c es ≡ true
unfolding holds lookup
holds-lookup c [] i pod h e = absurd cc
holds-lookup c ((uid, p) ∷ es) i pod h e = elim (Bool-cases (str_eq uid i)) [
  | inl same ↦ rw (is_ctx-true p.cancel c (same_cancel (str_eq uid i) p (lookup i es) same h ∙ e))
  | inr other ↦
      or_true (is_ctx p.cancel c) (holds c es)
        (holds-lookup c es i pod (ground (arith, h, other)) e)
]

pub holds-some :
    (c : ℕ) (es : Dict PodEntry)
    → IsUnique es
    → holds c es ≡ true
    → (i : String) × (pod : PodEntry) × (lookup i es ≡ some pod) × (pod.cancel ≡ some c)
unfolding holds lookup
holds-some c [] u h = absurd cc
holds-some c ((uid, p) ∷ es) u h = elim (Bool-cases (is_ctx p.cancel c)) [
  | inl own ↦ (uid, p, ground (arith, str_eq_refl uid), is_ctx-some p.cancel c own)
  | inr other ↦
      let (i, pod, found, e) = holds-some c es u.1 (ground (arith, h, other)) in
      (i, pod, ground (arith, found, u.0, str_eq_iff uid i, fresh_key uid i es u.0 found), e)
]

ended :
    (b : Bool) (o : Option ℕ) (old : ℕ → Bool) (c : ℕ) {now : Bool}
    → now ≡ cancels o old c
    → (if b then true else now) ≡ (if is_ctx o c || b then true else old c)
ended b none old c e = ground (arith, e)
ended b (some d) old c e = ground (arith, e)

pub cancel_all-effect :
    (es : Dict PodEntry) (m : Manager)
    → ((cancel_all es m).policies ≡ m.policies)
      × ((cancel_all es m).next_ctx ≡ m.next_ctx)
      × ((c : ℕ) → (cancel_all es m).cancelled c ≡ (if holds c es then true else m.cancelled c))
      × ((cancel_all es m).workers ≡ m.workers)
unfolding cancel_all holds
cancel_all-effect [] m = (refl, refl, λ c. refl, refl)
cancel_all-effect ((uid, pod) ∷ es) m =
    let (p, n, l, w) = cancel_pod-effect pod.cancel m in
    let (p', n', l', w') = cancel_all-effect es (cancel_pod pod.cancel m) in
    (p' ∙ p, n' ∙ n, λ c. l' c ∙ ended (holds c es) pod.cancel m.cancelled c (l c), w' ∙ w)
