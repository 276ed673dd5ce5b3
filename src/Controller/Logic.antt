-- ===== src/Controller/Logic.antt =====
-- The pure decisions of the controller (internal/controller/logic.go).
pub mod Probes
pub mod Requests
pub mod Gates
use hotswap_operator.Prelude.{
  ℤ, pos, negsuc, mul64, ltb_ℤ, leb_ℤ, ◌=ℤ◌, sub_ℕ, String, Bool, true, false, not, ◌&&◌, ◌||◌,
  Option, none, some, List, [], ◌∷◌, str_eq, Result, ok, err, if◌then◌else◌,
}
use hotswap_operator.Prelude.Dict.{Dict, insert}
use hotswap_operator.Api.Kube.{
  Time, Probe, HttpGetAction, HttpHeader, IntOrString, int, str, Deployment, DeploymentCondition,
}
use hotswap_operator.Api.{RemediationStrategy, rollout_restart, delete_pod, RemediationRecord}
use hotswap_operator.Prober.Config.{ProbeConfig, second}

-- `seconds`: an unset number of seconds is the default.
unfoldable pub seconds : ℤ → ℤ → ℤ
seconds v def = if leb_ℤ v (pos 0) then mul64 def (pos second) else mul64 v (pos second)

-- `threshold`: likewise for a count.
unfoldable pub threshold : ℤ → ℤ → ℤ
threshold v def = if leb_ℤ v (pos 0) then def else v

-- The loop over `h.HTTPHeaders`: a later header of a name replaces an earlier one.
unfoldable pub add_headers : Dict String → List HttpHeader → Dict String
add_headers m [] = m
add_headers m (hd ∷ rest) = add_headers (insert hd.name hd.value m) rest

abbrev pub http_get_required : String
http_get_required = "hotswapProbe.httpGet is required (exec/tcp/grpc probes are not supported)"

abbrev pub numeric_port_required : String
numeric_port_required = "hotswapProbe.httpGet.port must be a numeric container port"

unfoldable pub probe_config : Probe → HttpGetAction → ℤ → ProbeConfig
unfolding seconds threshold add_headers
probe_config p h port = record {
  path = h.path;
  scheme = h.scheme;
  port = port;
  timeout = seconds p.timeout_seconds (pos 1);
  period = seconds p.period_seconds (pos 10);
  initial_delay = seconds p.initial_delay_seconds (pos 0);
  success_threshold = threshold p.success_threshold (pos 1);
  failure_threshold = threshold p.failure_threshold (pos 3);
  headers = add_headers [] h.http_headers;
}

-- The check of the port.
unfoldable pub normalize_port : Probe → HttpGetAction → IntOrString → Result String ProbeConfig
unfolding probe_config
normalize_port p h (str s) = err numeric_port_required
normalize_port p h (int n) =
    if leb_ℤ n (pos 0) then err numeric_port_required else ok (probe_config p h n)

unfoldable pub normalize_http : Probe → Option HttpGetAction → Result String ProbeConfig
unfolding normalize_port
normalize_http p none = err http_get_required
normalize_http p (some h) = normalize_port p h h.port

-- `normalizeProbe`.
unfoldable pub normalize_probe : Probe → Result String ProbeConfig
unfolding normalize_http
normalize_probe p = normalize_http p p.http_get

-- The replica counts of a settled Deployment.
unfoldable pub settled_at : Deployment → Option ℤ → Bool
settled_at dep none = false
settled_at dep (some r) =
    dep.status_replicas =ℤ r
    && (dep.updated_replicas =ℤ r
        && (dep.available_replicas =ℤ r && dep.unavailable_replicas =ℤ pos 0))

-- `deploymentStable`.
unfoldable pub deployment_stable : Deployment → Bool
unfolding settled_at
deployment_stable dep =
    if not (dep.meta.generation =ℤ dep.observed_generation)
    then false
    else settled_at dep dep.replicas

abbrev pub is_stalled : DeploymentCondition → Bool
is_stalled c =
    str_eq c.type "Progressing"
    && (str_eq c.status "False" && str_eq c.reason "ProgressDeadlineExceeded")

-- The loop of `progressDeadlineExceeded` over the conditions.
unfoldable pub any_stalled : List DeploymentCondition → Bool
any_stalled [] = false
any_stalled (c ∷ cs) = let rest = any_stalled cs in if is_stalled c then true else rest

unfoldable pub progress_deadline_exceeded : Deployment → Bool
unfolding any_stalled
progress_deadline_exceeded dep = any_stalled dep.conditions

abbrev replicas_or_one : Option ℤ → ℤ
replicas_or_one none = pos 1
replicas_or_one (some r) = r

-- `effectiveReplicas`.
unfoldable pub effective_replicas : Deployment → ℤ
effective_replicas dep = replicas_or_one dep.replicas

-- `chooseStrategy`.
unfoldable pub choose_strategy : RemediationStrategy → ℤ → RemediationStrategy
choose_strategy rollout_restart replicas = rollout_restart
choose_strategy delete_pod replicas = delete_pod
choose_strategy _ replicas = if leb_ℤ replicas (pos 1) then rollout_restart else delete_pod

-- `isSystemic`: unhealthy/total ≥ skip_percent/100, in 64-bit integers.
unfoldable pub is_systemic : ℤ → ℤ → ℤ → Bool
is_systemic unhealthy total skip_percent =
    if ltb_ℤ total (pos 2) || (leb_ℤ unhealthy (pos 0) || leb_ℤ skip_percent (pos 0))
    then false
    else leb_ℤ (mul64 skip_percent total) (mul64 unhealthy (pos 100))

-- `now.Sub(t)`, which stays within an `int64`.
unfoldable pub time_sub : Time → Time → ℤ
time_sub now t =
    let d = sub_ℕ now t in
    if ltb_ℤ (pos 9223372036854775807) d
    then pos 9223372036854775807
    else (if ltb_ℤ d (negsuc 9223372036854775807) then negsuc 9223372036854775807 else d)

-- `now.Sub(last.Time.Time) < cooldown`.
abbrev pub recent : Option RemediationRecord → ℤ → Time → Bool
recent none cooldown now = false
recent (some last) cooldown now = ltb_ℤ (time_sub now last.time) cooldown

-- `breakerOpen`.
unfoldable pub breaker_open : ℤ → ℤ → Option RemediationRecord → ℤ → Time → Bool
breaker_open attempts max_attempts last cooldown now =
    if ltb_ℤ attempts max_attempts then false else recent last cooldown now

-- `cooldownActive`.
unfoldable pub cooldown_active : Option RemediationRecord → ℤ → Time → Bool
cooldown_active last cooldown now =
    if leb_ℤ cooldown (pos 0) then false else recent last cooldown now
