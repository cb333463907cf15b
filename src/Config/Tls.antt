-- ===== src/Config/Tls.antt =====
-- The TLS material of crates/console-server/src/config.rs: `resolve_console_tls`, `build_client_tls` and its
-- companions. What rustls makes of certificates is a parameter.
use muser_console.Base.{
  ℕ, Bool, true, false, not, ◌==◌, ltb, Text, text_eq, List, [], length, Option, none, some,
}
use muser_console.Config.Types.{SocketAddr, ConsoleTls}
use muser_console.Config.Files.{Disk, read_private_file, read_regular_file_bounded}
use muser_console.Config.Result.{
  tls_needed, half_tls, empty_certificate, empty_key, long_key, no_certificates, bad_certificates,
  no_roots, bad_protocols, Result, ok, err, ◌>>=◌, refuse_if, ok_or,
}

pub record Rustls : Type 0 where
  -- how many certificates the PEM text holds, if it can be read
  pub pem_certificates : List ℕ → Option ℕ
  -- whether the root store takes every one of them
  pub roots_accept : List ℕ → Bool
  -- how many certificates of the platform the root store takes
  pub native_roots : ℕ
  -- whether `with_safe_default_protocol_versions` succeeds
  pub protocols : Bool

unfoldable pub resolve_console_tls :
    Disk → Option Text → Option Text → SocketAddr → Result (Option ConsoleTls)
unfolding read_private_file read_regular_file_bounded
resolve_console_tls disk none none listen = elim listen.is_loopback [
  | true ↦ ok none
  | false ↦ err tls_needed
]
resolve_console_tls disk (some _) none listen = err half_tls
resolve_console_tls disk none (some _) listen = err half_tls
resolve_console_tls disk (some cert_path) (some key_path) listen = do
  cert_pem ← read_regular_file_bounded disk cert_path 1_048_576
  _ ← refuse_if (text_eq cert_pem []) empty_certificate
  key_pem ← read_private_file disk key_path 65_537 true
  _ ← refuse_if (text_eq key_pem []) empty_key
  _ ← refuse_if (ltb 65_536 (length key_pem)) long_key
  ok (some (record { cert_pem = cert_pem; key_pem = key_pem }))

abbrev pub finish_client_tls : Rustls → Result {0} Unit
finish_client_tls rustls = refuse_if (not rustls.protocols) bad_protocols

abbrev pub build_empty_client_tls : Rustls → Result {0} Unit
build_empty_client_tls rustls = finish_client_tls rustls

-- The configuration itself is the transport's; what is modelled is when there is one.
unfoldable pub build_client_tls : Rustls → Disk → Option Text → Result {0} Unit
unfolding read_regular_file_bounded
build_client_tls rustls disk (some path) = do
  pem ← read_regular_file_bounded disk path 1_048_576
  count ← ok_or (rustls.pem_certificates pem) bad_certificates
  _ ← refuse_if (count == 0) no_certificates
  _ ← refuse_if (not (rustls.roots_accept pem)) bad_certificates
  finish_client_tls rustls
build_client_tls rustls disk none = do
  _ ← refuse_if (rustls.native_roots == 0) no_roots
  finish_client_tls rustls
