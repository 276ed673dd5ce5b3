-- ===== src/Metrics.antt =====
-- The Prometheus collectors and their registration (internal/metrics/metrics.go).
use hotswap_operator.Prelude.{String, Option, none, some, List, [], ◌∷◌}

pub data Family : Type 0 where
  counter : Family
  gauge : Family

pub record Collector : Type 0 where
  pub family : Family
  pub name : String
  pub help : String
  pub labels : List String

-- `ProbeTotal`.
abbrev pub probe_total : Collector
probe_total = record {
  family = counter;
  name = "hotswap_probe_total";
  help = "Total hotswap health probes performed, by policy and result.";
  labels = "namespace" ∷ "policy" ∷ "result" ∷ [];
}

-- `RemediationsTotal`.
abbrev pub remediations_total : Collector
remediations_total = record {
  family = counter;
  name = "hotswap_remediations_total";
  help = "Total hotswap remediations performed, by policy and strategy.";
  labels = "namespace" ∷ "policy" ∷ "strategy" ∷ [];
}

-- `DryRunTotal`.
abbrev pub dry_run_total : Collector
dry_run_total = record {
  family = counter;
  name = "hotswap_dryrun_total";
  help = "Total hotswap remediations simulated in dry-run mode, by policy and strategy.";
  labels = "namespace" ∷ "policy" ∷ "strategy" ∷ [];
}

-- `CircuitOpen`.
abbrev pub circuit_open : Collector
circuit_open = record {
  family = gauge;
  name = "hotswap_circuit_open";
  help = "1 when a hotswap policy's remediation circuit breaker is open.";
  labels = "namespace" ∷ "policy" ∷ [];
}

-- `TargetsHealthy`.
abbrev pub targets_healthy : Collector
targets_healthy = record {
  family = gauge;
  name = "hotswap_targets_healthy";
  help = "Number of healthy targets observed for a hotswap policy.";
  labels = "namespace" ∷ "policy" ∷ [];
}

-- `TargetsTotal`.
abbrev pub targets_total : Collector
targets_total = record {
  family = gauge;
  name = "hotswap_targets_total";
  help = "Number of targets observed for a hotswap policy.";
  labels = "namespace" ∷ "policy" ∷ [];
}

abbrev pub collectors : List Collector
collectors =
    probe_total ∷ remediations_total ∷ dry_run_total ∷ circuit_open ∷ targets_healthy
    ∷ targets_total ∷ []

-- The registry of controller-runtime: the collectors after one more, or none where it refuses it.
pub record Registry : Type 0 where
  pub register : List Collector → Collector → Option (List Collector)

-- `MustRegister`, which panics (`none`) where a collector is refused.
unfoldable pub must_register : Registry → List Collector → List Collector → Option (List Collector)
must_register reg held [] = some held
must_register reg held (c ∷ cs) = elim (reg.register held c) [
  | some held' ↦ must_register reg held' cs
  | none ↦ none
]

-- `init`, on the registry with what it held before.
unfoldable pub init : Registry → List Collector → Option (List Collector)
init reg held = must_register reg held collectors
