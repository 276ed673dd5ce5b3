-- ===== src/Program/Tls.antt =====
-- What the flags make of the servers.
use hotswap_operator.Prelude.{
  String, Bool, true, false, ◌≡◌, refl, sym, List, [], ◌∷◌, str_eq, str_eq_iff, if◌then◌else◌,
  Bool-cases, inl, inr,
}
use hotswap_operator.Program.{
  Flags, TlsConfig, TlsOption, disable_http2, tls_opts, certificate, webhook_options,
  metrics_options,
}

-- The options, one after the other.
abbrev pub apply_all : List TlsOption → TlsConfig → TlsConfig
apply_all [] c = c
apply_all (o ∷ os) c = apply_all os (o c)

protos_of :
    (flags : Flags) (c : TlsConfig)
    → (apply_all (tls_opts flags) c).next_protos
      ≡ (if flags.enable_http2 then c.next_protos else "http/1.1" ∷ [])
unfolding tls_opts disable_http2
protos_of flags c = elim (Bool-cases flags.enable_http2) [
  | inl on ↦ rw on refl
  | inr off ↦ rw off refl
]

same_if : (b : Bool) → b ≡ (if b then true else false)
same_if true = refl
same_if false = refl

certificate-cert_dir : (path name key : String) → (certificate path name key).cert_dir ≡ path
unfolding certificate
certificate-cert_dir path name key = elim (Bool-cases (str_eq path "")) [
  | inl empty ↦ rw empty (sym ((str_eq_iff path "").0 empty))
  | inr given ↦ rw given refl
]

-- Both servers offer HTTP/1.1 alone unless HTTP/2 is enabled, and then what they offered before; the metrics are
-- served over HTTPS exactly where requests for them are authenticated; and the certificates are read from the
-- given paths.
pub servers_lem :
    (flags : Flags) (c : TlsConfig)
    → let protos = if flags.enable_http2 then c.next_protos else "http/1.1" ∷ [] in
      let m = metrics_options flags in
      let w = webhook_options flags in
      ((apply_all m.tls_opts c).next_protos ≡ protos)
      × ((apply_all w.tls_opts c).next_protos ≡ protos)
      × (m.secure_serving ≡ m.protected)
      × ((m.cert.cert_dir ≡ flags.metrics_cert_path) × (w.cert.cert_dir ≡ flags.webhook_cert_path))
unfolding metrics_options webhook_options
servers_lem flags c = (
  protos_of flags c,
  protos_of flags c,
  same_if flags.metrics_secure,
  (
    certificate-cert_dir flags.metrics_cert_path flags.metrics_cert_name flags.metrics_cert_key,
    certificate-cert_dir flags.webhook_cert_path flags.webhook_cert_name flags.webhook_cert_key,
  ),
)
