-- ===== src/Controller/Effects.antt =====
-- Which effects of a run disturb the workload.
use hotswap_operator.Prelude.{
  ℕ, suc, Bool, true, false, Option, none, some, List, [], ◌∷◌, if◌then◌else◌,
}
use hotswap_operator.Controller.Env
use hotswap_operator.Controller.Env.{Effect, ApiError, patch_deployment, Cluster}

-- A patch of the Deployment or the deletion of a pod.
abbrev pub disruptive : Effect → Bool
disruptive (patch_deployment ns name body) = true
disruptive (Env.delete_pod ns name) = true
disruptive _ = false

-- The attempts at such effects.
abbrev pub disruptions : List Effect → ℕ
disruptions [] = 0
disruptions (e ∷ before) = let n = disruptions before in if disruptive e then suc n else n

abbrev succeeded : Option ApiError → ℕ → ℕ
succeeded none n = suc n
succeeded (some e) n = n

-- Those that the API server carried out.
abbrev pub carried_out : Cluster → List Effect → ℕ
carried_out cluster [] = 0
carried_out cluster (e ∷ before) =
    let n = carried_out cluster before in
    if disruptive e then succeeded (cluster.answer before e) n else n
