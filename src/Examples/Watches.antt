-- ===== src/Examples/Watches.antt =====
-- The watches at concrete inputs: a pod of a ReplicaSet of the guarded Deployment.
use hotswap_operator.Prelude.{refl, ◌↔◌, List, [], ◌∷◌, ok}
use mathlib.Core.List.{Memᴰ}
use hotswap_operator.Api.Kube.{OwnerReference, Pod}
use hotswap_operator.Controller.Env.{Cluster}
use hotswap_operator.Controller.Watches.{policies_for_deployment}
use hotswap_operator.Controller.Watches.Requests.{IsTargeted, policies_for_deployment_iff}
use hotswap_operator.Examples.World.{meta_of, policy, deployment, cluster_with, fine, guard_key}

abbrev owned_by_web : List OwnerReference
owned_by_web = record { kind = "Deployment"; name = "web" } ∷ []

abbrev cluster : Cluster
cluster = record (cluster_with policy fine) { get_replica_set = λ nn. ok owned_by_web }

abbrev pod : Pod
pod = record {
  meta = record (meta_of "web-1") {
    owner_references = record { kind = "ReplicaSet"; name = "web-rs" } ∷ [];
  };
  pod_ip = "10.0.0.1";
  conditions = [];
}

policies_for_deployment_iff_example :
    Memᴰ guard_key (policies_for_deployment cluster deployment)
    ↔ IsTargeted (policy ∷ []) "web" "guard"
policies_for_deployment_iff_example =
    policies_for_deployment_iff cluster deployment (policy ∷ []) "guard" refl
