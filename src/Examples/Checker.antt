-- ===== src/Examples/Checker.antt =====
-- The checker at concrete inputs: a server that answers every request with 204.
use Prim.Native.String.{◌++◌}
use mathlib.Core.List.Permᴰ
use hotswap_operator.Prelude.{
  ◌*◌, ◌==◌, str_eq_iff, arith, ℤ, pos, inc32, Bool, String, true, false, ◌≡◌, refl, Option, none,
  some, [], ◌∷◌, str_eq, if◌then◌else◌,
}
use hotswap_operator.Prelude.Dict.{lookup, insert, delete}
use hotswap_operator.Api.Kube.{Probe, HttpGetAction}
use hotswap_operator.Prober.Config.{second}
use hotswap_operator.Prober.Threshold.{PodEntry, new_entry}
use hotswap_operator.Prober.Manager.{
  Manager, key, slot, pods_of, set_pods, new_manager, sync, open_entry, desired_from, stop_missing,
  start_desired, add_or_refresh, start_pod, forget, forget_entry, cancel_all, cancel_pod,
}
use hotswap_operator.Prober.Loop.{checking, entering, Prober, is_done, answer}
use hotswap_operator.Prober.Checker.{HttpLibrary, GetRequest, probe_request, probe}
use hotswap_operator.Prober.Checker.Verdict.{cancelled_probe_counts}
use hotswap_operator.Controller.Logic.{
  normalize_probe, normalize_http, normalize_port, probe_config,
}
use hotswap_operator.Controller.Logic.Probes.{last_value}
use hotswap_operator.Controller.Logic.Requests.{headers_of_policy}
use hotswap_operator.Examples.World.{runtime, guard_key, probe as guard_probe, http_get}
use hotswap_operator.Examples.Gates.{probe-IsTyped}
use hotswap_operator.Examples.Prober.{cfg, target, targets, busy}
use hotswap_operator.Examples.Loop.{first_worker}

abbrev answer_of : Bool → GetRequest → Option ℤ
answer_of true r = none
answer_of false r = some (pos 204)

abbrev http : HttpLibrary
http = record {
  to_lower = λ s. if str_eq s "HTTP" then "http" else s;
  decimal = λ n. "8080";
  join_host_port = λ host port. host ++ (":" ++ port);
  canonical_key = λ k. if str_eq k "accept" then "Accept" else k;
  order_headers = λ m. m;
  accepts_url = λ url. true;
  do_get = λ client. answer_of;
  order_headers-perm = λ m. Permᴰ.refl m;
  do_get-cancelled = λ client r. refl;
}

abbrev get_with_header : HttpGetAction
get_with_header = record http_get {
  http_headers = record { name = "accept"; value = "text/plain" } ∷ [];
}

abbrev probe_with_header : Probe
probe_with_header = record guard_probe { http_get = some get_with_header }

last_accept : last_value "accept" get_with_header.http_headers ≡ some "text/plain"
unfolding last_value
last_accept = refl

only_accept :
    (j w : String)
    → last_value j get_with_header.http_headers ≡ some w
    → http.canonical_key j ≡ http.canonical_key "accept"
    → j ≡ "accept"
unfolding last_value
only_accept j w found same = ground (arith, str_eq_iff "accept" j)

headers_of_policy_example :
    lookup "Accept"
      (probe_request http "10.0.0.1"
        (probe_config probe_with_header get_with_header (pos 8080))).headers
    ≡ some "text/plain"
unfolding normalize_probe normalize_http normalize_port
headers_of_policy_example =
    headers_of_policy http probe_with_header get_with_header "10.0.0.1" "accept" "text/plain"
      (record {
        initial_delay = probe-IsTyped.initial_delay;
        timeout = probe-IsTyped.timeout;
        period = probe-IsTyped.period;
      })
      refl refl last_accept only_accept

-- The policy is forgotten and comes back, while a goroutine of before is at the checker.
abbrev again : Manager
again = sync runtime guard_key cfg targets (forget runtime guard_key busy)

abbrev stale : Prober
stale = record {
  manager = again;
  phase = λ c. if c == 0 then checking (pos (10 * second)) cfg "10.0.0.1" else entering;
  stopped = false;
  counted = [];
}

stale-is_done : is_done stale 0 ≡ true
unfolding sync key new_manager open_entry desired_from stop_missing start_desired add_or_refresh
    start_pod set_pods lookup insert delete pods_of slot forget forget_entry cancel_all cancel_pod
    new_entry
stale-is_done = refl

stale_known : slot "guard" "u1" again ≡ some (new_entry target (some 2))
unfolding sync key new_manager open_entry desired_from stop_missing start_desired add_or_refresh
    start_pod set_pods lookup insert delete pods_of slot forget forget_entry cancel_all cancel_pod
    new_entry
stale_known = refl

cancelled_probe_counts_example :
    let pod = new_entry target (some 2) in
    let s' =
      answer runtime 0 first_worker
        (pos (10 * second))
        cfg
        (probe http (is_done stale 0) "10.0.0.1" cfg)
        30
        stale in
    (pod' : PodEntry) × (slot "guard" "u1" s'.manager ≡ some pod')
    × (pod'.state.consecutive_failures ≡ inc32 pod.state.consecutive_failures)
    × (pod'.state.consecutive_successes ≡ pos 0)
unfolding key
cancelled_probe_counts_example =
    cancelled_probe_counts http runtime 0 first_worker (pos (10 * second)) cfg "10.0.0.1" 30 stale
      (new_entry target (some 2)) stale-is_done stale_known
