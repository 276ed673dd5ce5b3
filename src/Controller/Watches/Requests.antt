-- ===== src/Controller/Watches/Requests.antt =====
-- Which policies a change of a pod or of a Deployment wakes.
use hotswap_operator.Prelude.{
  String, Bool, true, false, ◌⊎◌, if◌then◌else◌, ◌≡◌, refl, sym, ap, ◌∙◌, ◌↔◌, inl, inr, List, [],
  ◌∷◌, str_eq, str_eq_iff, ok,
}
use mathlib.Core.List.{Memᴰ}
use mathlib.Core.List.Memᴰ.{not-nil}
use hotswap_operator.Api.Kube.{NamespacedName, Deployment}
use hotswap_operator.Api.{HotSwapPolicy}
use hotswap_operator.Controller.Env.{Cluster}
use hotswap_operator.Controller.Watches.{
  requests_for, requests_in, policies_for_deployment_name, policies_for_deployment,
}

-- A listed policy of that name targets the Deployment.
abbrev pub IsTargeted : List HotSwapPolicy → String → String → Type 0
IsTargeted items target name =
    (p : HotSwapPolicy) × Memᴰ p items × (p.spec.target_ref.name ≡ target) × (p.meta.name ≡ name)

-- A member of a list with a guarded head is the head or stands in the rest.
guarded_cases :
    (b : Bool) (x r : NamespacedName) (l : List NamespacedName)
    → Memᴰ r (if b then x ∷ l else l)
    → ((b ≡ true) × (r ≡ x)) ⊎ Memᴰ r l
guarded_cases true x r l (Memᴰ.head e) = inl (refl, e)
guarded_cases true x r l (Memᴰ.tail m) = inr m
guarded_cases false x r l m = inr m

guarded_rest :
    (b : Bool) (x r : NamespacedName) (l : List NamespacedName)
    → Memᴰ r l
    → Memᴰ r (if b then x ∷ l else l)
guarded_rest true x r l m = Memᴰ.tail m
guarded_rest false x r l m = m

requests_for-IsTargeted :
    (ns target : String) (items : List HotSwapPolicy) (r : NamespacedName)
    → Memᴰ r (requests_for ns target items)
    → (r.namespace ≡ ns) × IsTargeted items target r.name
unfolding requests_for
requests_for-IsTargeted ns target [] r h = absurd (not-nil h)
requests_for-IsTargeted ns target (p ∷ items) r h =
    elim (guarded_cases (str_eq p.spec.target_ref.name target) _ r (requests_for ns target items)
      h) [
        | inl (same, e) ↦ (
          ap (λ x. x.namespace) e,
          (
            p,
            Memᴰ.head refl,
            (str_eq_iff p.spec.target_ref.name target).0 same,
            sym (ap (λ x. x.name) e),
          ),
        )
        | inr m ↦
            let (ns_eq, (q, mq, t, n)) = requests_for-IsTargeted ns target items r m in
            (ns_eq, (q, Memᴰ.tail mq, t, n))
      ]

IsTargeted-requests_for :
    (ns target name : String) (items : List HotSwapPolicy)
    → IsTargeted items target name
    → Memᴰ (record { namespace = ns; name = name }) (requests_for ns target items)
unfolding requests_for
IsTargeted-requests_for ns target name [] (p, m, t, n) = absurd (not-nil m)
IsTargeted-requests_for ns target name (p ∷ items) (q, Memᴰ.head e, t, n) =
    rw ((str_eq_iff p.spec.target_ref.name target).1 (ap (λ x. x.spec.target_ref.name) (sym e) ∙ t))
      (Memᴰ.head (ap (λ x. record { namespace = ns; name = x }) (sym n ∙ ap (λ x. x.meta.name) e)))
IsTargeted-requests_for ns target name (p ∷ items) (q, Memᴰ.tail m, t, n) =
    guarded_rest (str_eq p.spec.target_ref.name target) _ _ (requests_for ns target items)
      (IsTargeted-requests_for ns target name items (q, m, t, n))

-- A change of a Deployment whose namespace can be listed wakes exactly the policies listed there that target it.
pub policies_for_deployment_iff :
    (cluster : Cluster) (dep : Deployment) (items : List HotSwapPolicy) (name : String)
    → cluster.list_policies dep.meta.namespace ≡ ok items
    → Memᴰ
        (record { namespace = dep.meta.namespace; name = name })
        (policies_for_deployment cluster dep)
      ↔ IsTargeted items dep.meta.name name
unfolding policies_for_deployment policies_for_deployment_name requests_in
policies_for_deployment_iff cluster dep items name listed =
    rw (listed, requests_in)
      (
        λ m. (requests_for-IsTargeted dep.meta.namespace dep.meta.name items _ m).1,
        IsTargeted-requests_for dep.meta.namespace dep.meta.name name items,
      )
