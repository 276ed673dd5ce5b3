-- ===== src/Controller/Watches.antt =====
-- From a changed Deployment or pod to the policies to be reconciled: `policiesForDeployment`,
-- `policiesForPod`, `policiesForDeploymentName` and `deploymentNameForPod` of
-- internal/controller/hotswappolicy_controller.go.
pub mod Requests
use hotswap_operator.Prelude.{
  String, Bool, true, false, List, [], ◌∷◌, str_eq, Result, ok, err, if◌then◌else◌,
}
use hotswap_operator.Api.Kube.{NamespacedName, OwnerReference, Deployment, Pod}
use hotswap_operator.Api.{HotSwapPolicy}
use hotswap_operator.Controller.Env.{ApiError, Cluster}

-- The name of the first owner of a kind, or "".
unfoldable pub owner_name : String → List OwnerReference → String
owner_name kind [] = ""
owner_name kind (o ∷ rest) =
    let later = owner_name kind rest in if str_eq o.kind kind then o.name else later

-- The Deployment of the ReplicaSet that was read.
unfoldable pub deployment_of : Result ApiError (List OwnerReference) → String
deployment_of (err e) = ""
deployment_of (ok owners) = owner_name "Deployment" owners

-- `deploymentNameForPod`.
unfoldable pub deployment_name_for_pod : Cluster → Pod → String
deployment_name_for_pod cluster pod =
    let rs_name = owner_name "ReplicaSet" pod.meta.owner_references in
    let rs : NamespacedName = record { namespace = pod.meta.namespace; name = rs_name } in
    if str_eq rs_name "" then "" else deployment_of (cluster.get_replica_set rs)

-- The loop of `policiesForDeploymentName`.
unfoldable pub requests_for : (ns name : String) → List HotSwapPolicy → List NamespacedName
requests_for ns name [] = []
requests_for ns name (p ∷ rest) =
    let reqs = requests_for ns name rest in
    if str_eq p.spec.target_ref.name name
    then record { namespace = ns; name = p.meta.name } ∷ reqs
    else reqs

unfoldable pub requests_in :
    (ns name : String) → Result ApiError (List HotSwapPolicy) → List NamespacedName
requests_in ns name (err e) = []
requests_in ns name (ok items) = requests_for ns name items

-- `policiesForDeploymentName`.
unfoldable pub policies_for_deployment_name : Cluster → (ns name : String) → List NamespacedName
policies_for_deployment_name cluster ns name = requests_in ns name (cluster.list_policies ns)

-- `policiesForDeployment`.
unfoldable pub policies_for_deployment : Cluster → Deployment → List NamespacedName
policies_for_deployment cluster dep =
    policies_for_deployment_name cluster dep.meta.namespace dep.meta.name

-- `policiesForPod`.
unfoldable pub policies_for_pod : Cluster → Pod → List NamespacedName
policies_for_pod cluster pod =
    let dep_name = deployment_name_for_pod cluster pod in
    if str_eq dep_name ""
    then []
    else policies_for_deployment_name cluster pod.meta.namespace dep_name
