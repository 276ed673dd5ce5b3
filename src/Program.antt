-- ===== src/Program.antt =====
-- The program (`main` of cmd/main.go): its flags, the servers that it configures from them, and the order of its
-- start.
pub mod Tls
pub mod Start
use hotswap_operator.Prelude.{
  ℕ, String, Bool, true, false, not, Option, none, some, List, [], ◌∷◌, ◌++◌, str_eq, if◌then◌else◌,
}

-- The flags of the program, beside those of the logger.
pub record Flags : Type 0 where
  pub metrics_bind_address : String
  pub health_probe_bind_address : String
  pub leader_elect : Bool
  pub metrics_secure : Bool
  pub webhook_cert_path : String
  pub webhook_cert_name : String
  pub webhook_cert_key : String
  pub metrics_cert_path : String
  pub metrics_cert_name : String
  pub metrics_cert_key : String
  pub enable_http2 : Bool

-- The flags where the command line sets none.
abbrev pub default_flags : Flags
default_flags = record {
  metrics_bind_address = "0";
  health_probe_bind_address = ":8081";
  leader_elect = false;
  metrics_secure = true;
  webhook_cert_path = "";
  webhook_cert_name = "tls.crt";
  webhook_cert_key = "tls.key";
  metrics_cert_path = "";
  metrics_cert_name = "tls.crt";
  metrics_cert_key = "tls.key";
  enable_http2 = false;
}

-- Of `tls.Config`, the protocols that are offered.
pub record TlsConfig : Type 0 where
  pub next_protos : List String

abbrev pub TlsOption : Type 0
TlsOption = TlsConfig → TlsConfig

-- `disableHTTP2`.
unfoldable pub disable_http2 : TlsOption
disable_http2 c = record c { next_protos = "http/1.1" ∷ [] }

-- `tlsOpts`.
unfoldable pub tls_opts : Flags → List TlsOption
tls_opts flags = if not flags.enable_http2 then disable_http2 ∷ [] else []

-- The certificate of a server; empty strings leave it to controller-runtime.
pub record Certificate : Type 0 where
  pub cert_dir : String
  pub cert_name : String
  pub key_name : String

abbrev pub no_certificate : Certificate
no_certificate = record { cert_dir = ""; cert_name = ""; key_name = "" }

-- `if len(certPath) > 0 { ... }`.
unfoldable pub certificate : (path name key : String) → Certificate
certificate path name key =
    if not (str_eq path "")
    then record { cert_dir = path; cert_name = name; key_name = key }
    else no_certificate

-- `webhook.Options`.
pub record WebhookOptions : Type 0 where
  pub tls_opts : List TlsOption
  pub cert : Certificate

unfoldable pub webhook_options : Flags → WebhookOptions
webhook_options flags = record {
  tls_opts = tls_opts flags;
  cert = certificate flags.webhook_cert_path flags.webhook_cert_name flags.webhook_cert_key;
}

-- `metricsserver.Options`; `protected` says that the filter for authentication and authorization is set.
pub record MetricsOptions : Type 0 where
  pub bind_address : String
  pub secure_serving : Bool
  pub tls_opts : List TlsOption
  pub protected : Bool
  pub cert : Certificate

unfoldable pub metrics_options : Flags → MetricsOptions
metrics_options flags = record {
  bind_address = flags.metrics_bind_address;
  secure_serving = flags.metrics_secure;
  tls_opts = tls_opts flags;
  protected = if flags.metrics_secure then true else false;
  cert = certificate flags.metrics_cert_path flags.metrics_cert_name flags.metrics_cert_key;
}

-- `ctrl.Options`.
pub record ManagerOptions : Type 0 where
  pub metrics : MetricsOptions
  pub webhook : WebhookOptions
  pub health_probe_bind_address : String
  pub leader_election : Bool
  pub leader_election_id : String

unfoldable pub manager_options : Flags → ManagerOptions
manager_options flags = record {
  metrics = metrics_options flags;
  webhook = webhook_options flags;
  health_probe_bind_address = flags.health_probe_bind_address;
  leader_election = flags.leader_elect;
  leader_election_id = "hotswap-operator.hotswap.io";
}

-- The calls of `main` to controller-runtime that may fail; `ctrl.GetConfigOrDie` ends the program itself.
pub data Call : Type 0 where
  get_config : Call
  new_manager : ManagerOptions → Call
  add_prober : Call
  setup_reconciler : Call
  add_healthz_check : (name : String) → Call
  add_readyz_check : (name : String) → Call
  start : Call

-- The calls that have been made, the newest first, and the exit code.
pub record Exit : Type 0 where
  pub calls : List Call
  pub code : ℕ

-- The errors that answer the calls, each after the calls before it.
abbrev pub Answers : Type 0
Answers = List Call → Call → Option String

-- `os.Exit(1)`.
abbrev pub exit_1 : List Call → Exit
exit_1 made = record { calls = made; code = 1 }

-- The rest of `main` after each call, by what has answered it.
unfoldable pub after_start : List Call → Option String → Exit
after_start made (some e) = exit_1 made
after_start made none = record { calls = made; code = 0 }

unfoldable pub after_readyz : Answers → List Call → Option String → Exit
after_readyz answer made (some e) = exit_1 made
after_readyz answer made none = after_start (start ∷ made) (answer made start)

unfoldable pub after_healthz : Answers → List Call → Option String → Exit
after_healthz answer made (some e) = exit_1 made
after_healthz answer made none =
    let c = add_readyz_check "readyz" in after_readyz answer (c ∷ made) (answer made c)

unfoldable pub after_reconciler : Answers → List Call → Option String → Exit
after_reconciler answer made (some e) = exit_1 made
after_reconciler answer made none =
    let c = add_healthz_check "healthz" in after_healthz answer (c ∷ made) (answer made c)

unfoldable pub after_prober : Answers → List Call → Option String → Exit
after_prober answer made (some e) = exit_1 made
after_prober answer made none =
    after_reconciler answer (setup_reconciler ∷ made) (answer made setup_reconciler)

unfoldable pub after_manager : Answers → List Call → Option String → Exit
after_manager answer made (some e) = exit_1 made
after_manager answer made none = after_prober answer (add_prober ∷ made) (answer made add_prober)

unfoldable pub after_config : Flags → Answers → List Call → Option String → Exit
after_config flags answer made (some e) = exit_1 made
after_config flags answer made none =
    let c = new_manager (manager_options flags) in after_manager answer (c ∷ made) (answer made c)

-- `main`.
unfoldable pub main : Flags → Answers → Exit
main flags answer = after_config flags answer (get_config ∷ []) (answer [] get_config)
