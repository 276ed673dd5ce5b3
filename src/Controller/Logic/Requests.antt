-- ===== src/Controller/Logic/Requests.antt =====
-- From the probe of a policy to the request of the checker: `normalizeProbe` and `HTTPChecker.Probe` together.
use hotswap_operator.Prelude.{List, ◌∷◌, String, ◌≡◌, sym, ◌∙◌, some, [], ok}
use hotswap_operator.Prelude.Dict.{Dict, lookup, insert, IsUnique, insert-IsUnique, perm-lookup}
use hotswap_operator.Api.Kube.{Probe, HttpGetAction, HttpHeader}
use hotswap_operator.Prober.Config.{ProbeConfig}
use hotswap_operator.Prober.Checker.{HttpLibrary, probe_request}
use hotswap_operator.Prober.Checker.Headers.{set_headers_found}
use hotswap_operator.Controller.Logic.{add_headers, probe_config, normalize_probe}
use hotswap_operator.Controller.Logic.Probes.{
  IsTyped, normalize_probe-ok_iff, normalize_numeric, normalize_probe-Normalizes, last_value,
}

add_headers-IsUnique :
    (m : Dict String) (hs : List HttpHeader) → IsUnique m → IsUnique (add_headers m hs)
unfolding add_headers
add_headers-IsUnique m [] u = u
add_headers-IsUnique m (hd ∷ rest) u =
    add_headers-IsUnique (insert hd.name hd.value m) rest (insert-IsUnique hd.name hd.value m u)

accepted_headers-IsUnique :
    (p : Probe) {cfg : ProbeConfig} → normalize_probe p ≡ ok cfg → IsUnique cfg.headers
unfolding probe_config
accepted_headers-IsUnique p {cfg} r =
    let (h, n, e, q, l) = (normalize_probe-ok_iff p).0 (cfg, r) in
    let same : cfg ≡ probe_config p h n = cc (normalize_numeric p h n e q l) in
    rw same (add_headers-IsUnique [] h.http_headers tt)

-- A header that the policy of an accepted HTTP probe with int32 timing fields sets stands in the request with the
-- last value that is given for it, where no other header of the policy has the same canonical key.
pub headers_of_policy :
    (http : HttpLibrary) (p : Probe) (h : HttpGetAction) {cfg : ProbeConfig} (ip k v : String)
    → IsTyped p
    → p.http_get ≡ some h
    → normalize_probe p ≡ ok cfg
    → last_value k h.http_headers ≡ some v
    → ((j w : String)
        → last_value j h.http_headers ≡ some w
        → http.canonical_key j ≡ http.canonical_key k
        → j ≡ k)
    → lookup (http.canonical_key k) (probe_request http ip cfg).headers ≡ some v
unfolding probe_request
headers_of_policy http p h {cfg} ip k v typed e r last apart =
    let norm = normalize_probe-Normalizes p h typed e r in
    let (unique, same) =
      perm-lookup (http.order_headers-perm cfg.headers) (accepted_headers-IsUnique p r) in
    set_headers_found http k v (http.order_headers cfg.headers) [] unique
      (same k ∙ norm.headers k ∙ last)
      (λ j w found. apart j w (sym (norm.headers j) ∙ sym (same j) ∙ found))
