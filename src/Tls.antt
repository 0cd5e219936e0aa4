-- ===== src/Tls.antt =====
-- TLS/BG96TLSSocket.cpp: the certificates and the connection of a TLS socket.
pub mod Certificates
pub mod Silence
pub mod Timer
use bg96_driver.Prelude.{
  ℤ, pos, negsuc, ◌==ℤ◌, ltb_ℤ, Bool, true, not, ◌&&◌, [], ◌∷◌, ◌++◌, drop, length, Option, none,
  some, List, ℕ, if◌then◌else◌, CStr, c_str,
}
use bg96_driver.Prelude.State.{St}
use bg96_driver.Prelude.Partial.{Partial}
use bg96_driver.At.{AtParser, Bg96, nsapi_error_ok, nsapi_error_device_error, nsapi_error_timeout}
use bg96_driver.Driver.Errors.{get_error}
use bg96_driver.Driver.Files.Upload.{send_file}
use bg96_driver.Driver.Tls

-- The members of BG96TLSSocket that the modelled methods read.
pub record TlsSocket : Type 0 where
  pub sslctx_id : ℤ
  pub client_id : ℤ
  pub pdp_ctx : ℤ
  pub timeout : ℕ

module _ {D : Type 0} (io : AtParser D) where
  -- What set_root_ca_cert, set_cert_pem and set_privkey_pem have in common: the transfer of a text
  -- to the file, and then the configuration of the file's path.
  unfoldable pub set_pem : CStr → St (Bg96 D) Bool → Option CStr → Partial (Bg96 D) ℤ
  set_pem filename configure none b = some (nsapi_error_device_error, b)
  set_pem filename configure (some pem) b = elim (send_file io pem filename true b) [
    | none ↦ none
    | some (sent, b') ↦
        if sent ==ℤ pos 0
        then some (nsapi_error_device_error, b')
        else (let (good, b'') = configure b' in
            some (if good then nsapi_error_ok else nsapi_error_device_error, b''))
  ]

  -- The method configure_cacert_path of the socket, as a test: an int of the driver that is not 0.
  unfoldable pub cacert_configured : TlsSocket → CStr → St (Bg96 D) Bool
  cacert_configured sock path b =
      let (good, b') = Tls.configure_cacert_path io path sock.sslctx_id b in
      (not (good ==ℤ pos 0), b')

  unfoldable pub set_root_ca_cert : TlsSocket → Option CStr → Partial (Bg96 D) ℤ
  set_root_ca_cert sock cacert =
      set_pem (c_str "cacert.pem") (cacert_configured sock (c_str "cacert.pem")) cacert

  unfoldable pub set_cert_pem : TlsSocket → Option CStr → Partial (Bg96 D) ℤ
  set_cert_pem sock pem =
      set_pem (c_str "clientcert.pem")
        (Tls.configure_client_cert_path io (c_str "clientcert.pem") sock.sslctx_id) pem

  -- It configures the path as the client certificate's.
  unfoldable pub set_privkey_pem : TlsSocket → Option CStr → Partial (Bg96 D) ℤ
  set_privkey_pem sock pem =
      set_pem (c_str "privkey.pem")
        (Tls.configure_client_cert_path io (c_str "privkey.pem") sock.sslctx_id) pem

  -- `if (rc == NSAPI_ERROR_OK && client_private_key_pem != NULL)` of set_client_cert_key.
  unfoldable pub set_key_after : TlsSocket → ℤ → Option CStr → Partial (Bg96 D) ℤ
  set_key_after sock rc none b = some (rc, b)
  set_key_after sock rc (some key) b =
      if rc ==ℤ nsapi_error_ok then set_privkey_pem sock (some key) b else some (rc, b)

  unfoldable pub set_client_cert_key : TlsSocket → Option CStr → Option CStr → Partial (Bg96 D) ℤ
  set_client_cert_key sock none key b = set_key_after sock nsapi_error_ok key b
  set_client_cert_key sock (some cert) key b = elim (set_cert_pem sock (some cert) b) [
    | none ↦ none
    | some (rc, b') ↦ set_key_after sock rc key b'
  ]

  unfoldable pub tls_connect : TlsSocket → CStr → ℤ → St (Bg96 D) ℤ
  tls_connect sock hostname port b =
      let (ok, b') = Tls.sslopen io hostname port sock.pdp_ctx sock.client_id sock.sslctx_id b in
      if ok then (nsapi_error_ok, b') else (nsapi_error_device_error, (get_error io b').1)

  unfoldable pub tls_send : TlsSocket → List ℕ → ℕ → St (Bg96 D) ℤ
  tls_send sock bytes size b =
      let (rc, b') = Tls.sslsend_within io sock.client_id bytes size sock.timeout b in
      (if ltb_ℤ (pos 0) rc then rc else nsapi_error_timeout, b')

  unfoldable pub tls_is_connected : TlsSocket → St (Bg96 D) Bool
  tls_is_connected sock b = Tls.ssl_client_status io sock.client_id b

  -- The `while` of recv over what the reads of `timeout_ovf` give, one after the other; the thread
  -- timeout_task writes it. With the count and the stored bytes stand the reads that are left.
  unfoldable pub recv_loop :
      TlsSocket → ℕ → List Bool → ℤ → List ℕ → Partial (Bg96 D) (ℤ × List ℕ × List Bool)
  recv_loop sock size [] cnt stored b = none
  recv_loop sock size (ovf ∷ reads) cnt stored b =
      let ((cnt', bytes), b') = Tls.sslrecv io sock.client_id size b in
      let rest = recv_loop sock size reads cnt' (bytes ++ drop (length bytes) stored) b' in
      if not ovf && ltb_ℤ cnt (pos 0) then rest else some ((cnt, stored, reads), b)

  -- BG96TLSSocket::recv: the result and the bytes that were stored at `buffer`.
  unfoldable pub tls_recv : TlsSocket → ℕ → List Bool → Partial (Bg96 D) (ℤ × List ℕ)
  tls_recv sock size reads b = elim (recv_loop sock size reads (negsuc 0) [] b) [
    | none ↦ none
    | some ((cnt, stored, left), b') ↦
        if cnt ==ℤ negsuc 0 then timed_out stored left b' else some ((cnt, stored), b')
  ]
    where
      timed_out : List ℕ → List Bool → Partial (Bg96 D) (ℤ × List ℕ)
      timed_out stored [] b = none
      timed_out stored (ovf ∷ reads) b =
          some ((if ovf then nsapi_error_timeout else negsuc 0, stored), b)

  -- BG96TLSSocket::close gives the bool of sslclose as an nsapi_error_t.
  unfoldable pub tls_close : TlsSocket → St (Bg96 D) ℤ
  tls_close sock b =
      let (done, b') = Tls.sslclose io sock.client_id b in (if done then pos 1 else pos 0, b')

-- The constructor.
abbrev pub new_tls_socket : TlsSocket
new_tls_socket = record { sslctx_id = pos 0; client_id = pos 0; pdp_ctx = pos 1; timeout = 3000 }
