-- ===== src/Controller/Logic/Probes.antt =====
-- What `normalizeProbe` accepts, and the configuration that it makes.
use hotswap_operator.Prelude.{
  set_or, ℕ, zero, suc, ◌*◌, ◌<◌, ℤ, pos, negsuc, ◌<ℤ◌, mul64_pos, IsInt32, String, ◌≡◌, refl, sym,
  ◌∙◌, ◌↔◌, Option, none, some, List, [], ◌∷◌, str_eq, ok, if◌then◌else◌, arith,
}
use hotswap_operator.Prelude.Dict.{Dict, lookup, insert, lookup-insert}
use hotswap_operator.Api.Kube.{Probe, HttpGetAction, HttpHeader, IntOrString, int, str}
use hotswap_operator.Prober.Config.{ProbeConfig, second}
use hotswap_operator.Controller.Logic.{
  seconds, threshold, add_headers, probe_config, normalize_port, normalize_http, normalize_probe,
}

-- A probe over HTTP to a numeric port.
abbrev pub HasNumericPort : Probe → Type 0
HasNumericPort p =
    (h : HttpGetAction) × (n : ℤ) × (p.http_get ≡ some h) × (h.port ≡ int n) × (pos 0 <ℤ n)

normalize_port-ok :
    (p : Probe) (h : HttpGetAction) (q : IntOrString) {cfg : ProbeConfig}
    → normalize_port p h q ≡ ok cfg
    → (n : ℤ) × (q ≡ int n) × (pos 0 <ℤ n)
unfolding normalize_port
normalize_port-ok p h (str s) e = cc
normalize_port-ok p h (int n) e = (n, refl, ground arith)

normalize_http-ok :
    (p : Probe) (o : Option HttpGetAction) {cfg : ProbeConfig}
    → normalize_http p o ≡ ok cfg
    → (h : HttpGetAction) × (n : ℤ) × (o ≡ some h) × (h.port ≡ int n) × (pos 0 <ℤ n)
unfolding normalize_http
normalize_http-ok p none e = cc
normalize_http-ok p (some h) e =
    let (n, q, l) = normalize_port-ok p h h.port e in (h, n, refl, q, l)

pub normalize_numeric :
    (p : Probe) (h : HttpGetAction) (n : ℤ)
    → p.http_get ≡ some h
    → h.port ≡ int n
    → pos 0 <ℤ n
    → normalize_probe p ≡ ok (probe_config p h n)
unfolding normalize_probe
normalize_numeric p h n e q l = rw (e, normalize_http, q, normalize_port) (ground arith)

-- `normalizeProbe` succeeds exactly on the probes over HTTP to a numeric port above 0.
pub normalize_probe-ok_iff :
    (p : Probe) → ((cfg : ProbeConfig) × (normalize_probe p ≡ ok cfg)) ↔ HasNumericPort p
unfolding normalize_probe
normalize_probe-ok_iff p = (
  λ r. normalize_http-ok p p.http_get r.1,
  λ r. (probe_config p r.0 r.1, normalize_numeric p r.0 r.1 r.2 r.3 r.4),
)

-- The value of the last header of a name.
unfoldable pub last_value : String → List HttpHeader → Option String
last_value k [] = none
last_value k (hd ∷ rest) = elim (last_value k rest) [
  | some v ↦ some v
  | none ↦ if str_eq hd.name k then some hd.value else none
]

abbrev or_else : Option String → Option String → Option String
or_else (some v) o = some v
or_else none o = o

lookup-add_headers :
    (k : String) (m : Dict String) (hs : List HttpHeader)
    → lookup k (add_headers m hs) ≡ or_else (last_value k hs) (lookup k m)
unfolding add_headers last_value
lookup-add_headers k m [] = refl
lookup-add_headers k m (hd ∷ rest) = ground (
  arith,
  lookup-add_headers k (insert hd.name hd.value m) rest,
  lookup-insert hd.name k hd.value m,
)

seconds_lem :
    (v : ℤ) (def : ℕ)
    → IsInt32 v
    → def < 2147483648
    → seconds v (pos def) ≡ pos (set_or v def * second)
unfolding seconds
seconds_lem (pos zero) def r h = mul64_pos def second (omega arith)
seconds_lem (pos (suc n)) def r h = ground (arith, mul64_pos (suc n) second (omega arith))
seconds_lem (negsuc n) def r h = ground (arith, mul64_pos def second (omega arith))

threshold_lem : (v : ℤ) (def : ℕ) → threshold v (pos def) ≡ pos (set_or v def)
unfolding threshold
threshold_lem (pos zero) def = refl
threshold_lem (pos (suc n)) def = ground arith
threshold_lem (negsuc n) def = ground arith

lookup-add_headers_empty :
    (k : String) (hs : List HttpHeader) → lookup k (add_headers [] hs) ≡ last_value k hs
unfolding lookup
lookup-add_headers_empty k hs = ground (arith, lookup-add_headers k [] hs)

-- The timing fields of a probe are of type `int32`.
pub record IsTyped (p : Probe) : Type 0 where
  pub initial_delay : IsInt32 p.initial_delay_seconds
  pub timeout : IsInt32 p.timeout_seconds
  pub period : IsInt32 p.period_seconds

-- The configuration that `normalizeProbe` should make of a probe.
pub record Normalizes (p : Probe) (h : HttpGetAction) (cfg : ProbeConfig) : Type 0 where
  pub port : h.port ≡ int cfg.port
  pub path : cfg.path ≡ h.path
  pub scheme : cfg.scheme ≡ h.scheme
  pub initial_delay : cfg.initial_delay ≡ pos (set_or p.initial_delay_seconds 0 * second)
  pub timeout : cfg.timeout ≡ pos (set_or p.timeout_seconds 1 * second)
  pub period : cfg.period ≡ pos (set_or p.period_seconds 10 * second)
  pub success : cfg.success_threshold ≡ pos (set_or p.success_threshold 1)
  pub failure : cfg.failure_threshold ≡ pos (set_or p.failure_threshold 3)
  pub headers : (k : String) → lookup k cfg.headers ≡ last_value k h.http_headers

probe_config-Normalizes :
    (p : Probe) (h : HttpGetAction) (n : ℤ)
    → IsTyped p
    → h.port ≡ int n
    → Normalizes p h (probe_config p h n)
unfolding probe_config
probe_config-Normalizes p h n t q = record {
  port = q;
  path = refl;
  scheme = refl;
  initial_delay = seconds_lem p.initial_delay_seconds 0 t.initial_delay (omega arith);
  timeout = seconds_lem p.timeout_seconds 1 t.timeout (omega arith);
  period = seconds_lem p.period_seconds 10 t.period (omega arith);
  success = threshold_lem p.success_threshold 1;
  failure = threshold_lem p.failure_threshold 3;
  headers = λ k. lookup-add_headers_empty k h.http_headers;
}

normalize_probe_http :
    (p : Probe) (h : HttpGetAction)
    → p.http_get ≡ some h
    → normalize_probe p ≡ normalize_port p h h.port
unfolding normalize_probe
normalize_probe_http p h e = rw (e, normalize_http)

-- An accepted probe over HTTP, whose timing fields are of type `int32`, is normalised with the defaults of the
-- kubelet (period 10 s, timeout 1 s, success threshold 1, failure threshold 3, no delay) in place of what is
-- unset, without overflow; of several headers of one name the last is kept.
pub normalize_probe-Normalizes :
    (p : Probe) (h : HttpGetAction) {cfg : ProbeConfig}
    → IsTyped p
    → p.http_get ≡ some h
    → normalize_probe p ≡ ok cfg
    → Normalizes p h cfg
normalize_probe-Normalizes p h {cfg} t e r =
    let (n, q, l) = normalize_port-ok p h h.port (sym (normalize_probe_http p h e) ∙ r) in
    let same : cfg ≡ probe_config p h n = cc (normalize_numeric p h n e q l) in
    rw same (probe_config-Normalizes p h n t q)

period_pos : (v : ℤ) {d : ℤ} → d ≡ pos (set_or v 10 * second) → pos 0 <ℤ d
period_pos (pos zero) e = rw e (omega arith)
period_pos (pos (suc n)) e = rw e (omega arith)
period_pos (negsuc n) e = rw e (omega arith)

-- The period of an accepted probe is positive.
pub normalize_probe-period :
    (p : Probe) {cfg : ProbeConfig} → IsTyped p → normalize_probe p ≡ ok cfg → pos 0 <ℤ cfg.period
normalize_probe-period p {cfg} t r =
    let (h, n, e, q, l) = (normalize_probe-ok_iff p).0 (cfg, r) in
    let norm = normalize_probe-Normalizes p h t e r in period_pos p.period_seconds norm.period
