-- ===== src/Controller/Overlap.antt =====
-- Policies that target the same Deployment: one of them wins (`conflictingPolicy` and `lessPolicy` of
-- internal/controller/hotswappolicy_controller.go).
pub mod Order
pub mod Winner
use hotswap_operator.Prelude.{
  ℕ, ltb, ◌==◌, String, Bool, true, false, not, List, [], ◌∷◌, str_eq, str_lt, Result, ok, err,
  if◌then◌else◌,
}
use hotswap_operator.Api.{HotSwapPolicy}
use hotswap_operator.Controller.Env.{ApiError, Cluster}

-- `lessPolicy`: the earlier creation, then the smaller name.
unfoldable pub less_policy : HotSwapPolicy → HotSwapPolicy → Bool
less_policy a b =
    if not (a.meta.creation_timestamp == b.meta.creation_timestamp)
    then ltb a.meta.creation_timestamp b.meta.creation_timestamp
    else str_lt a.meta.name b.meta.name

-- One round of the loop: the winner so far and another policy.
unfoldable pub challenge : HotSwapPolicy → HotSwapPolicy → HotSwapPolicy → HotSwapPolicy
challenge policy winner other =
    if str_eq other.meta.name policy.meta.name
    then winner
    else (if not (str_eq other.spec.target_ref.name policy.spec.target_ref.name)
        then winner
        else (if less_policy other winner then other else winner))

-- The loop over the listed policies.
unfoldable pub winner_of : HotSwapPolicy → HotSwapPolicy → List HotSwapPolicy → HotSwapPolicy
winner_of policy winner [] = winner
winner_of policy winner (other ∷ rest) = winner_of policy (challenge policy winner other) rest

-- The name of the winner, or "" if the policy itself wins.
unfoldable pub winner_name : HotSwapPolicy → List HotSwapPolicy → String
winner_name policy items =
    let winner = winner_of policy policy items in
    if str_eq winner.meta.name policy.meta.name then "" else winner.meta.name

-- `conflictingPolicy`.
unfoldable pub conflicting_policy : Cluster → HotSwapPolicy → Result ApiError String
conflicting_policy cluster policy = elim (cluster.list_policies policy.meta.namespace) [
  | err e ↦ err e
  | ok items ↦ ok (winner_name policy items)
]
