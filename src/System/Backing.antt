-- ===== src/System/Backing.antt =====
-- What the prober holds of a pod is what its log says.
use mathlib.Core.Path.{subst}
use hotswap_operator.Prelude.{
  ℕ, suc, leb, String, Bool, true, false, ◌≡◌, ◌↔◌, refl, sym, ap, ◌∙◌, Option, List, [], ◌∷◌,
  str_eq_iff, arith, Bool-cases, inl, inr,
}
use hotswap_operator.Api.Kube.{Time}
use hotswap_operator.Prober.Config.{ProbeConfig, PodTarget}
use hotswap_operator.Prober.Threshold.{
  PodEntry, new_entry, record_probe, record_success, record_failure,
}
use hotswap_operator.Prober.Threshold.Automaton.{
  Health, up, down, observe, health, IsCounting, IsTyped, success_count, failure_count,
  record_probe-observe,
}
use hotswap_operator.Prober.Threshold.History.{
  successes_in_row, failures_in_row, new_entry-IsCounting,
}
use hotswap_operator.Prober.Manager.{refresh}
use hotswap_operator.Prober.Manager.Everywhere.{marked}
use hotswap_operator.System.{Evidence, probed, ready}
use hotswap_operator.System.Results.{Results, results_of, is_shown, Convicted}

-- The health that the results stand for.
abbrev pub Supports : Results → Health → Type 0
Supports h (up n) = (n ≡ failures_in_row h) × (Convicted h → ⊥)
Supports h (down n) = (n ≡ successes_in_row h) × Convicted h

observe-Supports :
    (cfg : ProbeConfig) (ok : Bool) (h : Results) (s : Health)
    → Supports h s
    → Supports ((ok, cfg) ∷ h) (observe (success_count cfg) (failure_count cfg) ok s).0
unfolding observe successes_in_row failures_in_row Convicted
observe-Supports cfg true h (up n) (e, free) = (refl, λ c. free c.0)
observe-Supports cfg false h (up n) (e, free) =
    elim (Bool-cases (leb (failure_count cfg) (suc n))) [
      | inl reached ↦ rw reached (refl, inl (ground arith))
      | inr short ↦ rw short (
        ground arith,
        λ c. elim c [ inl enough ↦ absurd (ground arith) | inr before ↦ free before ],
      )
    ]
observe-Supports cfg true h (down n) (e, held) =
    elim (Bool-cases (leb (success_count cfg) (suc n))) [
      | inl reached ↦ rw reached (refl, λ c. let few = c.1 in ground arith)
      | inr short ↦ rw short (ground arith, (held, ground arith))
    ]
observe-Supports cfg false h (down n) (e, held) = (refl, inr held)

-- The health, the counters and the readiness of a pod are those of the log.
pub record Backed (log : List Evidence) (k uid : String) (pod : PodEntry) : Type 0 where
  pub counting : IsCounting pod
  pub supported : Supports (results_of k uid log) (health pod)
  pub shown : pod.state.seen_ready ≡ is_shown k uid log

-- Only what is said of the pod matters.
pub Backed-same :
    (log log' : List Evidence) (k uid : String) (pod : PodEntry)
    → (results_of k uid log' ≡ results_of k uid log) × (is_shown k uid log' ≡ is_shown k uid log)
    → Backed log k uid pod
    → Backed log' k uid pod
Backed-same log log' k uid pod (r, s) b = record {
  counting = b.counting;
  supported = rw r b.supported;
  shown = b.shown ∙ sym s;
}

pub new_entry-Backed :
    (log : List Evidence) (k uid : String) (t : PodTarget) (c : Option ℕ)
    → (results_of k uid log ≡ []) × (is_shown k uid log ≡ false)
    → Backed log k uid (new_entry t c)
unfolding new_entry Convicted failures_in_row
new_entry-Backed log k uid t c (r, s) = record {
  counting = new_entry-IsCounting t c;
  supported = rw r (refl, λ c. c);
  shown = sym s;
}

pub refresh-Backed :
    (log : List Evidence) (k uid : String) (t : PodTarget) (pod : PodEntry)
    → Backed log k uid pod
    → Backed log k uid (refresh t pod)
refresh-Backed log k uid t pod b = record {
  counting = record { failures = b.counting.failures; successes = b.counting.successes };
  supported = b.supported;
  shown = b.shown;
}

pub marked-Backed :
    (log : List Evidence) (k uid : String) (pod : PodEntry)
    → Backed log k uid pod
    → Backed (ready k uid ∷ log) k uid (marked pod)
unfolding results_of is_shown
marked-Backed log k uid pod b = record {
  counting = record { failures = b.counting.failures; successes = b.counting.successes };
  supported = b.supported;
  shown = ground (arith, str_eq_iff k k, str_eq_iff uid uid);
}

pub ready_same :
    (log : List Evidence) (k uid j i : String)
    → (k ≡ j → uid ≡ i → ⊥)
    → (results_of j i (ready k uid ∷ log) ≡ results_of j i log)
      × (is_shown j i (ready k uid ∷ log) ≡ is_shown j i log)
unfolding results_of is_shown
ready_same log k uid j i apart = (refl, ground (arith, str_eq_iff k j, str_eq_iff uid i, apart))

pub probed_same :
    (log : List Evidence) (k uid j i : String) (cfg : ProbeConfig) (ok : Bool)
    → (k ≡ j → uid ≡ i → ⊥)
    → (results_of j i (probed k uid cfg ok ∷ log) ≡ results_of j i log)
      × (is_shown j i (probed k uid cfg ok ∷ log) ≡ is_shown j i log)
unfolding results_of is_shown
probed_same log k uid j i cfg ok apart =
    (ground (arith, str_eq_iff k j, str_eq_iff uid i, apart), refl)

record_probe-ready :
    (pod : PodEntry) (cfg : ProbeConfig) (ok : Bool) (now : Time)
    → (record_probe pod cfg ok now).0.state.seen_ready ≡ pod.state.seen_ready
unfolding record_probe record_success record_failure
record_probe-ready pod cfg ok now = ground arith

results_of-own :
    (k uid : String) (cfg : ProbeConfig) (ok : Bool) (log : List Evidence)
    → results_of k uid (probed k uid cfg ok ∷ log) ≡ (ok, cfg) ∷ results_of k uid log
unfolding results_of
results_of-own k uid cfg ok log = ground (arith, str_eq_iff k k, str_eq_iff uid uid)

pub record_probe-Backed :
    (log : List Evidence) (k uid : String) (pod : PodEntry) (cfg : ProbeConfig) (ok : Bool)
    (now : Time)
    → IsTyped cfg
    → Backed log k uid pod
    → Backed (probed k uid cfg ok ∷ log) k uid (record_probe pod cfg ok now).0
unfolding is_shown
record_probe-Backed log k uid pod cfg ok now t b =
    let (step, counting) = record_probe-observe pod cfg ok now t b.counting in
    record {
      counting = counting;
      supported = rw (results_of-own k uid cfg ok log) (
          subst (Supports ((ok, cfg) ∷ results_of k uid log)) (sym (ap (λ x. x.0) step))
            (observe-Supports cfg ok (results_of k uid log) (health pod) b.supported));
      shown = record_probe-ready pod cfg ok now ∙ b.shown;
    }

pub health_verdict :
    (h : Results) (pod : PodEntry)
    → Supports h (health pod)
    → (pod.state.healthy ≡ false) ↔ Convicted h
health_verdict h pod s = elim (Bool-cases pod.state.healthy) [
  | inl well ↦ (λ ill. absurd (cc), λ c. absurd ((rw well at s).1 c))
  | inr ill ↦ (λ e. (rw ill at s).1, λ c. ill)
]
