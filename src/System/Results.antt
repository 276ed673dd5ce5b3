-- ===== src/System/Results.antt =====
-- What the log says of one pod, read on its own.
use hotswap_operator.Prelude.{
  suc, ◌≤◌, ◌<◌, ◌⊎◌, String, Bool, true, false, ◌&&◌, List, [], ◌∷◌, All, str_eq, if◌then◌else◌,
}
use hotswap_operator.Prober.Config.{ProbeConfig}
use hotswap_operator.Prober.Threshold.Automaton.{IsTyped, success_count, failure_count}
use hotswap_operator.Prober.Threshold.History.{successes_in_row, failures_in_row}
use hotswap_operator.System.{Evidence, made, probed, ready}

-- The results of the probes of a pod since it was taken up last, each with the configuration of the probe, the
-- newest first.
abbrev pub Results : Type 0
Results = List (Bool × ProbeConfig)

unfoldable pub results_of : (k uid : String) → List Evidence → Results
results_of k uid [] = []
results_of k uid (made j i ∷ log) =
    let rest = results_of k uid log in if str_eq j k && str_eq i uid then [] else rest
results_of k uid (probed j i cfg ok ∷ log) =
    let rest = results_of k uid log in if str_eq j k && str_eq i uid then (ok, cfg) ∷ rest else rest
results_of k uid (ready j i ∷ log) = results_of k uid log

-- The API server has shown the pod ready, since the pod was taken up last.
unfoldable pub is_shown : (k uid : String) → List Evidence → Bool
is_shown k uid [] = false
is_shown k uid (made j i ∷ log) =
    let rest = is_shown k uid log in if str_eq j k && str_eq i uid then false else rest
is_shown k uid (probed j i cfg ok ∷ log) = is_shown k uid log
is_shown k uid (ready j i ∷ log) =
    let rest = is_shown k uid log in if str_eq j k && str_eq i uid then true else rest

-- The results convict the pod: at some probe the failures in a row reached the failure threshold of that probe, and
-- since then the successes in a row have not reached the success threshold.
unfoldable pub Convicted : Results → Type 0
Convicted [] = ⊥
Convicted ((false, cfg) ∷ h) = (failure_count cfg ≤ suc (failures_in_row h)) ⊎ Convicted h
Convicted ((true, cfg) ∷ h) = Convicted h × (suc (successes_in_row h) < success_count cfg)

-- The thresholds of each probe are of type `int32`.
abbrev pub IsTypedEvidence : Evidence → Type 0
IsTypedEvidence (probed j i cfg ok) = IsTyped cfg
IsTypedEvidence (made j i) = Unit
IsTypedEvidence (ready j i) = Unit

abbrev pub IsTypedLog : List Evidence → Type 0
IsTypedLog = All IsTypedEvidence
