-- ===== src/Controller/Reconcile/Report.antt =====
-- What a run of `Reconcile` leaves behind for a policy that is alive and has its finalizer: the status, and the
-- time for the next look.
use hotswap_operator.Prelude.{
  true, ◌≡◌, refl, ap, ◌⊎◌, inl, inr, Option, none, some, List, ◌∷◌, ok, arith,
}
use hotswap_operator.Api.Kube.{NamespacedName, is_zero}
use hotswap_operator.Api.{HotSwapPolicy}
use hotswap_operator.Controller.Logic.{normalize_probe}
use hotswap_operator.Controller.Logic.Probes.{IsTyped, normalize_probe-period}
use hotswap_operator.Controller.Logic.Gates.{IsPast}
use hotswap_operator.Controller.Env.{
  ApiError, Env, Run, CtrlResult, no_result, Outcome, Effect, update_status,
}
use hotswap_operator.Controller.Status.Conditions.{
  Phase, healthy, remediating, degraded, Shows, set_healthy-Shows, set_remediating-Shows,
  set_degraded-Shows,
}
use hotswap_operator.Controller.Status.{set_healthy, set_remediating, set_degraded}
use hotswap_operator.Controller.Reconcile.Gates.{answered_effects}
use hotswap_operator.Controller.Reconcile.{
  finalizer_name, answered, finish, with_probe, with_policy, reconcile,
}
use hotswap_operator.Controller.Reconcile.Leaves.{
  IsCopy, IsTimed, IsBlocked, Leaves, with_probe_end,
}

Shows-copy :
    (policy q p' : HotSwapPolicy) (phase : Phase)
    → IsCopy policy q
    → Shows q phase p'
    → Shows policy phase p'
Shows-copy policy q p' healthy c h t = ground (arith, h t)
Shows-copy policy q p' (remediating m) c h t = ground (arith, h t)
Shows-copy policy q p' (degraded r m) c h t = ground (arith, h t)

module _ {S : Type 0} (env : Env S) where
  open env use {lib, cluster}

  -- A policy that is to be looked after: found, not being deleted, with the finalizer and a typed probe, and
  -- with no remediation in the future.
  pub record IsKept (nn : NamespacedName) (policy : HotSwapPolicy) : Type 0 where
    pub found : cluster.get_policy nn ≡ ok policy
    pub alive : is_zero policy.meta.deletion_timestamp ≡ true
    pub owned : lib.contains_finalizer policy.meta.finalizers finalizer_name ≡ true
    pub typed : IsTyped policy.spec.hotswap_probe
    pub past : IsPast policy.status.last_remediation env.now

  reconcile_kept :
      (nn : NamespacedName) (policy : HotSwapPolicy) (r : Run S)
      → IsKept nn policy
      → reconcile env nn r ≡ with_probe env nn policy (normalize_probe policy.spec.hotswap_probe) r
  unfolding reconcile with_policy
  reconcile_kept nn policy r k = rw (k.found, with_policy, k.alive, k.owned)

  kept_end :
      (P : Outcome S → Type 0) (nn : NamespacedName) (policy : HotSwapPolicy) (r : Run S)
      → IsKept nn policy
      → Leaves env P nn policy
      → P (reconcile env nn r)
  kept_end P nn policy r k leaves = rw (reconcile_kept nn policy r k) (
      with_probe_end env P nn policy leaves k.past (normalize_probe policy.spec.hotswap_probe) r
        refl (λ cfg e. normalize_probe-period policy.spec.hotswap_probe k.typed e))

  -- The run has written the status last, the server has taken it, it is of the policy's generation, and its
  -- conditions show one phase.
  pub record Reports (policy : HotSwapPolicy) (o : Outcome S) : Type 0 where
    pub written : HotSwapPolicy
    pub phase : Phase
    pub before : List Effect
    pub last : o.2.effects ≡ update_status written ∷ before
    pub taken : cluster.answer before (update_status written) ≡ none
    pub current : written.status.observed_generation ≡ policy.meta.generation
    pub shows : Shows policy phase written

  pub answered-none :
      (e : Option ApiError) (res : CtrlResult) (r : Run S)
      → (answered env e res r).1 ≡ none
      → (e ≡ none) × ((answered env e res r).0 ≡ res)
  unfolding answered
  answered-none none res r h = (refl, refl)
  answered-none (some e) res r h = cc

  finish-Reports :
      (policy q : HotSwapPolicy) (phase : Phase) (res : CtrlResult) (r : Run S)
      → q.meta ≡ policy.meta
      → Shows policy phase q
      → (finish env q res r).1 ≡ none
      → Reports policy (finish env q res r)
  unfolding finish
  finish-Reports policy q phase res r m h e =
      let observed = record q {
        status = record q.status { observed_generation = q.meta.generation };
      } in
      let answer = cluster.answer r.effects (update_status observed) in
      record {
        written = observed;
        phase = phase;
        before = r.effects;
        last = ap (λ x. x.effects) (answered_effects env answer res _);
        taken = (answered-none answer res _ e).0;
        current = ap (λ x. x.generation) m;
        shows = h;
      }

  finish-IsTimed :
      (q : HotSwapPolicy) (res : CtrlResult) (r : Run S)
      → IsTimed res
      → (finish env q res r).1 ≡ none
      → IsTimed (finish env q res r).0
  unfolding finish
  finish-IsTimed q res r t e = rw (answered-none _ res _ e).1 t

  -- A run without an error for a policy to be looked after has written the policy's status, the server has
  -- taken it, and the conditions show one phase.
  pub reconcile-Reports :
      (nn : NamespacedName) (policy : HotSwapPolicy) (r : Run S)
      → IsKept nn policy
      → (reconcile env nn r).1 ≡ none
      → Reports policy (reconcile env nn r)
  unfolding set_healthy set_remediating set_degraded
  reconcile-Reports nn policy r k =
      kept_end (λ o. o.1 ≡ none → Reports policy o) nn policy r k
        (record {
          stop = λ e r' h. cc;
          park = λ reason msg r' b.
              finish-Reports policy (set_degraded lib policy reason msg) (degraded reason msg)
                no_result r' refl (set_degraded-Shows lib policy reason msg);
          degrade = λ q reason msg res r' c t.
              finish-Reports policy (set_degraded lib q reason msg) (degraded reason msg) res r' c.0
                (Shows-copy policy q (set_degraded lib q reason msg) (degraded reason msg) c
                  (set_degraded-Shows lib q reason msg));
          wait = λ q msg res r' c t.
              finish-Reports policy (set_remediating lib q msg) (remediating msg) res r' c.0 (
                Shows-copy policy q (set_remediating lib q msg) (remediating msg) c
                  (set_remediating-Shows lib q msg));
          heal = λ q res r' c t.
              finish-Reports policy (set_healthy lib q) healthy res r' c.0
                (Shows-copy policy q (set_healthy lib q) healthy c (set_healthy-Shows lib q));
        })

  -- A run without an error for a policy to be looked after ends with a time for the next look, unless the
  -- probe or the Deployment's selector is invalid.
  pub reconcile_requeues :
      (nn : NamespacedName) (policy : HotSwapPolicy) (r : Run S)
      → IsKept nn policy
      → (reconcile env nn r).1 ≡ none
      → IsTimed (reconcile env nn r).0 ⊎ IsBlocked env nn policy
  reconcile_requeues nn policy r k =
      kept_end (λ o. o.1 ≡ none → IsTimed o.0 ⊎ IsBlocked env nn policy) nn policy r k
        (record {
          stop = λ e r' h. cc;
          park = λ reason msg r' b h. inr b;
          degrade = λ q reason msg res r' c t h. inl (finish-IsTimed _ res r' t h);
          wait = λ q msg res r' c t h. inl (finish-IsTimed _ res r' t h);
          heal = λ q res r' c t h. inl (finish-IsTimed _ res r' t h);
        })
