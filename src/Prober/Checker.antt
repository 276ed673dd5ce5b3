-- ===== src/Prober/Checker.antt =====
-- The HTTP checker (`HTTPChecker.Probe` of internal/prober/checker.go): one GET to a pod, and what counts as
-- healthy.
pub mod Headers
pub mod Verdict
use Prim.Native.String.{◌++◌, begins}
use mathlib.Core.List.{Permᴰ}
use hotswap_operator.Prelude.{
  ℕ, ℤ, pos, leb_ℤ, ltb_ℤ, ◌==◌, String, Bool, true, false, ◌&&◌, not, ◌≡◌, Option, none, some,
  List, [], ◌∷◌, str_eq, if◌then◌else◌,
}
use hotswap_operator.Prelude.Dict.{Dict, insert}
use hotswap_operator.Prober.Config.{ProbeConfig, second}

-- A GET without a body, under a deadline. The headers are under their canonical keys.
pub record GetRequest : Type 0 where
  pub url : String
  pub timeout : ℤ
  pub headers : Dict String

-- Of `http.Client`, what the checker sets: no check of the certificate, no connection kept, no redirect followed.
pub record HttpClient : Type 0 where
  pub insecure_skip_verify : Bool
  pub disable_keep_alives : Bool
  pub follows_redirects : Bool

-- `NewHTTPChecker`.
abbrev pub new_http_checker : HttpClient
new_http_checker = record {
  insecure_skip_verify = true;
  disable_keep_alives = true;
  follows_redirects = false;
}

-- What the checker calls: `strings.ToLower`, `%d`, `net.JoinHostPort`, the canonical key of a header, the order in
-- which `range` visits the headers, whether `NewRequestWithContext` accepts the URL, and the status of the answer
-- of `client.Do`, which is an error (`none`) where the context is cancelled already.
pub record HttpLibrary : Type 0 where
  pub to_lower : String → String
  pub decimal : ℤ → String
  pub join_host_port : String → String → String
  pub canonical_key : String → String
  pub order_headers : Dict String → Dict String
  pub accepts_url : String → Bool
  pub do_get : HttpClient → (cancelled : Bool) → GetRequest → Option ℤ
  pub order_headers-perm : (m : Dict String) → Permᴰ (order_headers m) m
  pub do_get-cancelled : (client : HttpClient) (r : GetRequest) → do_get client true r ≡ none

-- `strings.HasPrefix(path, "/")`.
abbrev pub has_slash : String → Bool
has_slash path = begins path "/" 1 0 == 1

-- The path of the URL, which an empty path is too.
unfoldable pub rooted : String → String
rooted path = if not (str_eq path "") && not (has_slash path) then "/" ++ path else path

-- `if timeout <= 0 { timeout = time.Second }`.
unfoldable pub request_timeout : ℤ → ℤ
request_timeout t = if leb_ℤ t (pos 0) then pos second else t

-- `resp.StatusCode >= 200 && resp.StatusCode < 400`, where there is a response.
unfoldable pub is_healthy_answer : Option ℤ → Bool
is_healthy_answer none = false
is_healthy_answer (some status) = leb_ℤ (pos 200) status && ltb_ℤ status (pos 400)

module _ (http : HttpLibrary) where
  unfoldable pub url_scheme : String → String
  url_scheme scheme = let lower = http.to_lower scheme in if str_eq lower "" then "http" else lower

  unfoldable pub probe_url : String → ProbeConfig → String
  probe_url ip cfg =
      url_scheme cfg.scheme
      ++ ("://" ++ (http.join_host_port ip (http.decimal cfg.port) ++ rooted cfg.path))

  -- The loop over the headers, with `req.Header.Set`.
  unfoldable pub set_headers : Dict String → Dict String → Dict String
  set_headers set [] = set
  set_headers set ((k, v) ∷ rest) = set_headers (insert (http.canonical_key k) v set) rest

  unfoldable pub probe_request : String → ProbeConfig → GetRequest
  probe_request ip cfg = record {
    url = probe_url ip cfg;
    timeout = request_timeout cfg.timeout;
    headers = set_headers [] (http.order_headers cfg.headers);
  }

  -- `Probe`, under a context that may be cancelled.
  unfoldable pub probe : (cancelled : Bool) → String → ProbeConfig → Bool
  probe cancelled ip cfg =
      if str_eq ip ""
      then false
      else if not (http.accepts_url (probe_url ip cfg))
      then false
      else is_healthy_answer (http.do_get new_http_checker cancelled (probe_request ip cfg))
