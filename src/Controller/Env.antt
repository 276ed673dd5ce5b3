-- ===== src/Controller/Env.antt =====
-- What the controller takes from outside: library functions, the API server and the prober, and the
-- record of what one run of `Reconcile` does to them.
use hotswap_operator.Prelude.{
  ℕ, ℤ, pos, String, Bool, true, false, ◌≡◌, Option, none, some, List, [], ◌∷◌, str_eq, Result,
  if◌then◌else◌,
}
use hotswap_operator.Api.Kube.{Time, NamespacedName, OwnerReference, Condition, Deployment, Pod}
use hotswap_operator.Api.{HotSwapPolicy, RemediationStrategy}
use hotswap_operator.Prober.Config.{ProbeConfig, PodTarget, PodState}

-- An error of the API server, as `apierrors.IsNotFound` tells them apart.
pub data ApiError : Type 0 where
  not_found : ApiError
  failed : String → ApiError

-- The first condition of a type: how a reader finds a condition in the status.
unfoldable pub condition_of : String → List Condition → Option Condition
condition_of t [] = none
condition_of t (c ∷ cs) = if str_eq c.type t then some c else condition_of t cs

-- The library functions that the controller calls, with what their documentation promises:
-- controllerutil's finalizers, meta.SetStatusCondition and meta.RemoveStatusCondition,
-- metav1.LabelSelectorAsSelector (the error is its text), `%q` and `%d` of fmt, and RFC 3339.
pub record Library : Type 0 where
  pub contains_finalizer : List String → String → Bool
  pub add_finalizer : List String → String → List String
  pub remove_finalizer : List String → String → List String
  pub set_status_condition : List Condition → Condition → List Condition
  pub remove_status_condition : List Condition → String → List Condition
  pub label_selector_as_selector : String → Result String String
  pub quote : String → String
  pub decimal : ℤ → String
  pub rfc3339 : Time → String
  pub contains-add :
      (l : List String) (f : String) → contains_finalizer (add_finalizer l f) f ≡ true
  pub contains-remove :
      (l : List String) (f : String) → contains_finalizer (remove_finalizer l f) f ≡ false
  pub condition_of-set :
      (cs : List Condition) (c : Condition) (t : String)
      → condition_of t (set_status_condition cs c)
        ≡ (if str_eq c.type t then some c else condition_of t cs)
  pub condition_of-remove :
      (cs : List Condition) (s t : String)
      → condition_of t (remove_status_condition cs s)
        ≡ (if str_eq s t then none else condition_of t cs)

-- What a run does outside: writes to the API server, recorded events, metrics.
pub data Effect : Type 0 where
  update_policy : HotSwapPolicy → Effect
  update_status : HotSwapPolicy → Effect
  patch_deployment : (namespace name body : String) → Effect
  delete_pod : (namespace name : String) → Effect
  emit : (type reason message : String) → Effect
  set_targets_total : (namespace name : String) → ℕ → Effect
  set_targets_healthy : (namespace name : String) → ℕ → Effect
  set_circuit_open : (namespace name : String) → ℕ → Effect
  inc_remediations : (namespace name : String) → RemediationStrategy → Effect
  inc_dry_run : (namespace name : String) → RemediationStrategy → Effect

-- The API server as one run meets it: the answer to each read, and to each write after what the run
-- has done so far (`none` is success).
pub record Cluster : Type 0 where
  pub get_policy : NamespacedName → Result ApiError HotSwapPolicy
  pub get_deployment : NamespacedName → Result ApiError Deployment
  pub get_replica_set : NamespacedName → Result ApiError (List OwnerReference)
  pub list_policies : String → Result ApiError (List HotSwapPolicy)
  pub list_pods : (namespace selector : String) → Result ApiError (List Pod)
  pub answer : List Effect → Effect → Option ApiError

-- `ProbeSource`: what the reconciler needs of the prober, over the prober's state. Each call leads to a state, also
-- `Snapshot`, which changes nothing itself: the goroutines of the prober go on beside the reconciler.
pub record ProbeSource (S : Type 0) : Type 0 where
  pub sync : NamespacedName → ProbeConfig → List PodTarget → S → S
  pub set_seen_ready : NamespacedName → String → S → S
  pub snapshot : NamespacedName → S → List PodState × S
  pub forget : NamespacedName → S → S

-- The reconciler, with `now` for what its clock shows.
pub record Env (S : Type 0) : Type 0 where
  pub lib : Library
  pub cluster : Cluster
  pub prober : ProbeSource S
  pub now : Time

-- A run so far: the prober's state, and the effects, the newest first.
pub record Run (S : Type 0) : Type 0 where
  pub state : S
  pub effects : List Effect

module _ {S : Type 0} where
  abbrev pub note : Effect → Run S → Run S
  note e r = record r { effects = e ∷ r.effects }

  -- A write, and the error that answers it, if any.
  abbrev pub write : Env S → Effect → Run S → Option ApiError × Run S
  write env e r = (env.cluster.answer r.effects e, note e r)

-- ctrl.Result.
pub record CtrlResult : Type 0 where
  pub requeue : Bool
  pub requeue_after : ℤ

abbrev pub no_result : CtrlResult
no_result = record { requeue = false; requeue_after = pos 0 }

abbrev pub after : ℤ → CtrlResult
after d = record { requeue = false; requeue_after = d }

-- What `Reconcile` returns, and the run.
abbrev pub Outcome : Type 0 → Type 0
Outcome S = CtrlResult × Option ApiError × Run S
