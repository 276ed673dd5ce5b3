-- ===== src/Api/Kube.antt =====
-- The fields of Kubernetes objects that the program reads or writes: plain data, which the library
-- types k8s.io/api and k8s.io/apimachinery declare. What their functions do stands in Controller.Env
-- as parameters.
use hotswap_operator.Prelude.{ℕ, ℤ, String, Bool, true, Option, none, some, List, ◌==◌}

-- Nanoseconds since Go's zero time.
abbrev pub Time : Type 0
Time = ℕ

-- `t.IsZero()` of a `*metav1.Time`.
abbrev pub is_zero : Option Time → Bool
is_zero none = true
is_zero (some t) = t == 0

pub record NamespacedName : Type 0 where
  pub namespace : String
  pub name : String

pub record OwnerReference : Type 0 where
  pub kind : String
  pub name : String

pub record ObjectMeta : Type 0 where
  pub name : String
  pub namespace : String
  pub uid : String
  pub generation : ℤ  -- int64
  pub creation_timestamp : Time
  pub deletion_timestamp : Option Time
  pub finalizers : List String
  pub owner_references : List OwnerReference

-- metav1.Condition, without its LastTransitionTime, which the library sets.
pub record Condition : Type 0 where
  pub type : String
  pub status : String
  pub reason : String
  pub message : String
  pub observed_generation : ℤ  -- int64

-- intstr.IntOrString.
pub data IntOrString : Type 0 where
  int : ℤ → IntOrString
  str : String → IntOrString

pub record HttpHeader : Type 0 where
  pub name : String
  pub value : String

pub record HttpGetAction : Type 0 where
  pub path : String
  pub port : IntOrString
  pub scheme : String
  pub http_headers : List HttpHeader

-- corev1.Probe; the other handlers (exec, tcp, grpc) are not read.
pub record Probe : Type 0 where
  pub http_get : Option HttpGetAction
  pub initial_delay_seconds : ℤ  -- int32
  pub timeout_seconds : ℤ  -- int32
  pub period_seconds : ℤ  -- int32
  pub success_threshold : ℤ  -- int32
  pub failure_threshold : ℤ  -- int32

pub record DeploymentCondition : Type 0 where
  pub type : String
  pub status : String
  pub reason : String

-- appsv1.Deployment. The label selector is only handed on to library functions, as a text.
pub record Deployment : Type 0 where
  pub meta : ObjectMeta
  pub replicas : Option ℤ  -- *int32
  pub selector : String
  pub observed_generation : ℤ  -- int64
  pub status_replicas : ℤ  -- int32
  pub updated_replicas : ℤ  -- int32
  pub available_replicas : ℤ  -- int32
  pub unavailable_replicas : ℤ  -- int32
  pub conditions : List DeploymentCondition

pub record PodCondition : Type 0 where
  pub type : String
  pub status : String

pub record Pod : Type 0 where
  pub meta : ObjectMeta
  pub pod_ip : String
  pub conditions : List PodCondition
