-- ===== src/Tls/Certificates.antt =====
-- TLS/BG96TLSSocket.cpp: which failures of a certificate's transfer and configuration are reported.
use bg96_driver.Prelude.{ℤ, pos, negsuc, ◌≡◌, ◌≢◌, arith, Option, none, some, CStr, c_str, true}
use bg96_driver.At.{AtParser, Bg96, nsapi_error_ok}
use bg96_driver.Driver.Files.Upload.{send_file}
use bg96_driver.Driver.Tls.{configure_cacert_path}
use bg96_driver.Tls.{
  TlsSocket, set_pem, cacert_configured, set_root_ca_cert, set_cert_pem, set_key_after,
  set_client_cert_key,
}

module _ {D : Type 0} (io : AtParser D) where
  -- If the certificate is transferred and the modem refuses to configure its path without an error
  -- number, BG96TLSSocket::set_root_ca_cert reports success all the same.
  set_root_ca_cert-refused :
      (sock : TlsSocket) (cacert : CStr) (b b' : Bg96 D) {n : ℤ}
      → send_file io cacert (c_str "cacert.pem") true b ≡ some (n, b')
      → n ≢ pos 0
      → (configure_cacert_path io (c_str "cacert.pem") sock.sslctx_id b').0 ≡ negsuc 0
      → set_root_ca_cert io sock (some cacert) b
        ≡ some (nsapi_error_ok, (configure_cacert_path io (c_str "cacert.pem") sock.sslctx_id b').1)
  unfolding set_root_ca_cert set_pem cacert_configured
  set_root_ca_cert-refused sock cacert b b' e nz r = ground arith

  -- BG96TLSSocket::set_client_cert_key leaves the key alone if the certificate fails: the result and
  -- the modem are those of set_cert_pem.
  set_client_cert_key-failed :
      (sock : TlsSocket) (cert : CStr) (key : Option CStr) (b b' : Bg96 D) {rc : ℤ}
      → set_cert_pem io sock (some cert) b ≡ some (rc, b')
      → rc ≢ nsapi_error_ok
      → set_client_cert_key io sock (some cert) key b ≡ some (rc, b')
  unfolding set_client_cert_key set_key_after
  set_client_cert_key-failed sock cert none b b' e n = ground arith
  set_client_cert_key-failed sock cert (some key) b b' e n = ground arith
