-- ===== src/Examples/World.antt =====
-- A cluster with one policy, one Deployment of three replicas and its pods, and library functions that
-- keep their documented laws.
use hotswap_operator.Prelude.{
  ℕ, suc, ◌*◌, pos, String, Bool, true, false, ◌||◌, ◌≡◌, refl, Option, none, some, List, [], ◌∷◌,
  ok, err, str_eq, str_eq_iff, str_eq_refl, if◌then◌else◌, arith,
}
use mathlib.Core.List.Permᴰ
use hotswap_operator.Api.Kube.{
  NamespacedName, ObjectMeta, Condition, int, HttpGetAction, Probe, Deployment,
}
use hotswap_operator.Api.{HotSwapPolicy, RemediationSpec, auto}
use hotswap_operator.Prober.Config.{PodState, second}
use hotswap_operator.Prober.Manager.{Runtime}
use hotswap_operator.Controller.Env.{
  ApiError, not_found, Library, condition_of, Effect, Cluster, ProbeSource, Env, Run,
}
use hotswap_operator.Controller.Reconcile.{finalizer_name}

abbrev pub contains : List String → String → Bool
contains [] f = false
contains (g ∷ l) f = let rest = contains l f in str_eq g f || rest

abbrev pub remove : List String → String → List String
remove [] f = []
remove (g ∷ l) f = let rest = remove l f in if str_eq g f then rest else g ∷ rest

abbrev pub remove_type : List Condition → String → List Condition
remove_type [] t = []
remove_type (c ∷ cs) t = let rest = remove_type cs t in if str_eq c.type t then rest else c ∷ rest

pub contains-add : (l : List String) (f : String) → contains (f ∷ l) f ≡ true
contains-add l f = ground (arith, str_eq_refl f)

pub contains-remove : (l : List String) (f : String) → contains (remove l f) f ≡ false
contains-remove [] f = refl
contains-remove (g ∷ l) f = ground (arith, contains-remove l f)

pub condition_of-set :
    (cs : List Condition) (c : Condition) (t : String)
    → condition_of t (c ∷ cs) ≡ (if str_eq c.type t then some c else condition_of t cs)
unfolding condition_of
condition_of-set cs c t = refl

pub condition_of-remove :
    (cs : List Condition) (s t : String)
    → condition_of t (remove_type cs s) ≡ (if str_eq s t then none else condition_of t cs)
unfolding condition_of
condition_of-remove [] s t = ground arith
condition_of-remove (c ∷ cs) s t =
    ground
      (arith, condition_of-remove cs s t, str_eq_iff c.type s, str_eq_iff c.type t, str_eq_iff s t)

abbrev pub library : Library
library = record {
  contains_finalizer = contains;
  add_finalizer = λ l f. f ∷ l;
  remove_finalizer = remove;
  set_status_condition = λ cs c. c ∷ cs;
  remove_status_condition = remove_type;
  label_selector_as_selector = λ s. ok s;
  quote = λ s. s;
  decimal = λ n. "n";
  rfc3339 = λ t. "t";
  contains-add = contains-add;
  contains-remove = contains-remove;
  condition_of-set = condition_of-set;
  condition_of-remove = condition_of-remove;
}

abbrev pub meta_of : String → ObjectMeta
meta_of name = record {
  name = name;
  namespace = "shop";
  uid = name;
  generation = pos 2;
  creation_timestamp = 100;
  deletion_timestamp = none;
  finalizers = finalizer_name ∷ [];
  owner_references = [];
}

abbrev pub http_get : HttpGetAction
http_get = record { path = "/healthz"; port = int (pos 8080); scheme = "HTTP"; http_headers = [] }

abbrev pub probe : Probe
probe = record {
  http_get = some http_get;
  initial_delay_seconds = pos 0;
  timeout_seconds = pos 2;
  period_seconds = pos 0;
  success_threshold = pos 0;
  failure_threshold = pos 2;
}

abbrev pub remediation : RemediationSpec
remediation = record {
  strategy = auto;
  require_stable = none;
  max_consecutive_attempts = pos 3;
  cooldown_seconds = pos 60;
  max_concurrent = pos 1;
  systemic_failure_skip_percent = pos 50;
  dry_run = false;
}

abbrev pub policy : HotSwapPolicy
policy = record {
  meta = meta_of "guard";
  spec = record {
    target_ref = record { api_version = "apps/v1"; kind = "Deployment"; name = "web" };
    hotswap_probe = probe;
    remediation = remediation;
  };
  status = record {
    observed_generation = pos 1;
    targets = [];
    last_remediation = none;
    consecutive_attempts = pos 0;
    conditions = [];
  };
}

abbrev pub deployment : Deployment
deployment = record {
  meta = meta_of "web";
  replicas = some (pos 3);
  selector = "app=web";
  observed_generation = pos 2;
  status_replicas = pos 3;
  updated_replicas = pos 3;
  available_replicas = pos 3;
  unavailable_replicas = pos 0;
  conditions = [];
}

abbrev pub state_of : String → Bool → PodState
state_of name healthy = record {
  pod_name = name;
  pod_uid = name;
  pod_ip = "10.0.0.1";
  healthy = healthy;
  consecutive_failures = pos 0;
  consecutive_successes = pos 0;
  seen_ready = true;
  last_probe = 5;
  last_transition = 5;
}

abbrev pub states : List PodState
states = state_of "a" false ∷ state_of "b" true ∷ state_of "c" true ∷ []

-- The server, with an answer to each write; the policy is the one it holds.
abbrev pub cluster_with : HotSwapPolicy → (Effect → Option ApiError) → Cluster
cluster_with p answer = record {
  get_policy = λ nn. ok p;
  get_deployment = λ nn. ok deployment;
  get_replica_set = λ nn. err not_found;
  list_policies = λ ns. ok (p ∷ []);
  list_pods = λ ns selector. ok [];
  answer = λ before e. answer e;
}

-- A prober that reports the given pods and keeps count of `Forget`.
abbrev pub fixed : List PodState → ProbeSource ℕ
fixed pods = record {
  sync = λ nn cfg targets s. s;
  set_seen_ready = λ nn uid s. s;
  snapshot = λ nn s. (pods, s);
  forget = λ nn s. suc s;
}

abbrev pub env_with : HotSwapPolicy → (Effect → Option ApiError) → List PodState → Env ℕ
env_with p answer pods = record {
  lib = library;
  cluster = cluster_with p answer;
  prober = fixed pods;
  now = 1000 * second;
}

abbrev pub fine : Effect → Option ApiError
fine e = none

abbrev pub guard_key : NamespacedName
guard_key = record { namespace = "shop"; name = "guard" }

abbrev pub run : Run ℕ
run = record { state = 0; effects = [] }

abbrev pub runtime : Runtime
runtime = record {
  nn_string = λ nn. nn.name;
  order_pods = λ m. m;
  order_targets = λ m. m;
  order_pods-perm = λ m. Permᴰ.refl m;
  order_targets-perm = λ m. Permᴰ.refl m;
}
