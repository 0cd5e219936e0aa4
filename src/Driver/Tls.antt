-- ===== src/Driver/Tls.antt =====
-- BG96/BG96.cpp: certificates and TLS sockets.
pub mod Guards
use bg96_driver.Prelude.{
  ℕ, ℤ, pos, negsuc, ltb_ℤ, ◌==ℤ◌, pos_part, Bool, false, ◌&&◌, ◌||◌, none, some, List, [], ◌∷◌,
  take, if◌then◌else◌, as_int, CStr,
}
use bg96_driver.Prelude.State.{St, pure, ◌>>=◌, ◌>>◌}
use bg96_driver.At.{
  AtParser, Bg96, parser_values, send_ok, int, lock, unlock, set_timeout, plain, int_at,
  parser_send, parser_recv, parser_write, parser_read,
}
use bg96_driver.Driver.Errors.{get_error}
use bg96_driver.Driver.Commands.{
  cacert_command, client_cert_command, client_key_command, sslopen_command, ssl_recv_pattern,
}

module _ {D : Type 0} (io : AtParser D) where
  -- `getError(errstring)` and the scan of its text into `good`.
  scan_error : ℤ → St (Bg96 D) ℤ
  scan_error good s = let (e, s') = get_error io s in (elim e [ none ↦ good | some n ↦ n ], s')

  unfoldable pub configure_cacert_path : CStr → ℤ → St (Bg96 D) ℤ
  unfolding scan_error get_error
  configure_cacert_path path sslctx_id = do
    lock
    set_timeout 3000
    done ← send_ok io (cacert_command sslctx_id path)
    good ←
        if done
        then pure (pos 1)
        else (do good ← scan_error (negsuc 0); send_ok io (plain "AT+QSSLCFG=?"); pure good)
    set_timeout 1000
    unlock
    pure good

  unfoldable pub configure_client_cert_path : CStr → ℤ → St (Bg96 D) Bool
  configure_client_cert_path path sslctx_id = do
    lock
    done ← send_ok io (client_cert_command sslctx_id path)
    unlock
    pure done

  unfoldable pub configure_privkey_path : CStr → ℤ → St (Bg96 D) Bool
  configure_privkey_path path sslctx_id = do
    lock
    done ← send_ok io (client_key_command sslctx_id path)
    unlock
    pure done

  -- The command of BG96::sslopen, once the ids are checked.
  open_tls : CStr → ℤ → ℤ → ℤ → ℤ → St (Bg96 D) Bool
  open_tls hostname port pdp_ctx client_id sslctx_id = do
    lock
    set_timeout 150000
    done ← send_ok io (sslopen_command pdp_ctx client_id sslctx_id hostname port)
    reply ← if done then parser_values io (plain "+QSSLOPEN: %d,%d") else pure (false, [])
    set_timeout 1000
    unlock
    pure (done && int_at 1 (negsuc 0) reply.1 ==ℤ pos 0)

  unfoldable pub sslopen : CStr → ℤ → ℤ → ℤ → ℤ → St (Bg96 D) Bool
  unfolding open_tls
  sslopen hostname port pdp_ctx client_id sslctx_id =
      if ltb_ℤ client_id (pos 0) || ltb_ℤ (pos 11) client_id
      then pure false
      else if ltb_ℤ pdp_ctx (pos 1) || ltb_ℤ (pos 11) pdp_ctx
      then pure false
      else open_tls hostname port pdp_ctx client_id sslctx_id

  -- `done` is false from its declaration to the test at the end.
  unfoldable pub ssl_client_status : ℤ → St (Bg96 D) Bool
  ssl_client_status client_id = do
    lock
    set_timeout 60000
    sent ← parser_send io (record { format = "AT+QSSLSTATE=%d"; args = int client_id ∷ [] })
    reply ←
        if sent
        then parser_values io
            (plain "+QSSLSTATE:%d,\"%[^\"]\",\"%[^\"]\",%d,%d,%d,%d,%d,%d,\"%[^\"]\",%d")
        else pure (false, [])
    set_timeout 1000
    unlock
    let done = false
    pure (done && int_at 0 (negsuc 0) reply.1 ==ℤ client_id && int_at 5 (pos 0) reply.1 ==ℤ pos 2)

  -- BG96::sslsend without a timeout.
  unfoldable pub sslsend : ℤ → List ℕ → ℕ → St (Bg96 D) ℤ
  sslsend client_id bytes amount = do
    lock
    set_timeout 2000
    sent ←
        parser_send io
          (record { format = "AT+QSSLSEND=%d,%ld"; args = int client_id ∷ int (pos amount) ∷ [] })
    prompt ← if sent then parser_recv io (plain ">") else pure false
    size ← if prompt then parser_write io (take amount bytes) else pure (negsuc 0)
    parser_recv io (plain "SEND OK")
    set_timeout 1000
    unlock
    pure size

  -- BG96::sslsend with a timeout.
  unfoldable pub sslsend_within : ℤ → List ℕ → ℕ → ℕ → St (Bg96 D) ℤ
  sslsend_within client_id bytes amount timeout = do
    lock
    set_timeout timeout
    parser_send io
        (record { format = "AT+QSSLSEND=%d,%ld"; args = int client_id ∷ int (pos amount) ∷ [] })
    prompt ← parser_recv io (plain ">")
    size ←
        if prompt
        then (do
          size ← parser_write io (take amount bytes)
          parser_recv io (plain "SEND OK")
          pure size)
        else pure (negsuc 0)
    set_timeout 1000
    unlock
    pure size

  unfoldable pub ssl_chk_rx_avail : ℤ → St (Bg96 D) Bool
  ssl_chk_rx_avail client_id = do
    lock
    set_timeout 1
    i ← parser_recv io (ssl_recv_pattern client_id)
    set_timeout 1000
    unlock
    pure i

  -- The modem has announced `rx_count` bytes; the device error of line 1185 reaches no caller.
  fetch_tls : ℤ → St (Bg96 D) (ℤ × List ℕ)
  fetch_tls rx_count =
      if ltb_ℤ (pos 0) rx_count
      then (do
        stored ← parser_read io (pos_part rx_count)
        parser_recv io (plain "OK")
        pure stored)
      else pure (rx_count, [])

  -- With the result stand the bytes that were stored at `data`.
  unfoldable pub sslrecv : ℤ → ℕ → St (Bg96 D) (ℤ × List ℕ)
  unfolding ssl_chk_rx_avail fetch_tls
  sslrecv client_id cnt = do
    ssl_chk_rx_avail client_id
    lock
    set_timeout 1000
    sent ←
        parser_send io
          (record { format = "AT+QSSLRECV=%d,%d"; args = int client_id ∷ int (as_int cnt) ∷ [] })
    reply ← if sent then parser_values io (plain "+QSSLRECV:%d\r\n") else pure (false, [])
    ret_cnt ← if reply.0 then fetch_tls (int_at 0 (pos 0) reply.1) else pure (pos 0, [])
    set_timeout 1000
    unlock
    pure ret_cnt

  unfoldable pub sslclose : ℤ → St (Bg96 D) Bool
  sslclose client_id = do
    lock
    set_timeout 60000
    done ←
        send_ok io
          (record { format = "AT+QSSLCLOSE=%d,%d"; args = int client_id ∷ int (pos 1) ∷ [] })
    set_timeout 1000
    unlock
    pure done
