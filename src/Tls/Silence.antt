-- ===== src/Tls/Silence.antt =====
-- TLS/BG96TLSSocket.cpp: a socket over a modem that does not answer.
use bg96_driver.Prelude.{ℕ, ◌≡◌, arith, pos, Bool, true, false, Option, none, some, List, [], ◌∷◌}
use bg96_driver.At.{AtParser, Command, Bg96, nsapi_error_ok, nsapi_error_timeout}
use bg96_driver.Driver.Tls.{sslrecv, sslclose}
use bg96_driver.Tls.{TlsSocket, recv_loop, tls_recv, tls_close}

-- The result of a call that returns, without the state of the modem.
abbrev pub result_of : {A B : Type 0} → Option (A × B) → Option A
result_of none = none
result_of (some (a, b)) = some a

module _ {D : Type 0} (io : AtParser D) where
  open io use {recv}

  -- On a modem that never answers, recv does not wait for the timeout but reports 0 bytes after one
  -- attempt, unless timeout_ovf still stands from before: then it reports the timeout at once and
  -- does not turn to the modem. And close reports NSAPI_ERROR_OK.
  silent_socket :
      ((t : ℕ) (c : Command) (d : D) → (recv t c d).0 ≡ none)
      → (sock : TlsSocket) (size : ℕ) (ovf : Bool) (reads : List Bool) (b : Bg96 D)
      → (result_of (tls_recv io sock size (false ∷ ovf ∷ reads) b) ≡ some (pos 0, []))
        × (tls_recv io sock size (true ∷ true ∷ reads) b ≡ some ((nsapi_error_timeout, []), b))
        × ((tls_close io sock b).0 ≡ nsapi_error_ok)
  unfolding tls_recv recv_loop tls_close sslrecv sslclose
  silent_socket silent sock size ovf reads b = (grind arith, grind arith, grind arith)
