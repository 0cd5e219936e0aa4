-- ===== src/Driver/Sockets.antt =====
-- BG96/BG96.cpp: the modem's TCP and UDP sockets.
pub mod Outcome
pub mod Channel
pub mod Source
use bg96_driver.Prelude.{
  ℕ, zero, suc, ℤ, pos, ltb_ℤ, ◌==ℤ◌, ◌-ℤ◌, pos_part, Bool, true, false, not, Option, none, some,
  List, [], ◌∷◌, take, if◌then◌else◌, as_int, ◌==◌, CStr, c_str,
}
use bg96_driver.Prelude.State.{St, pure, ◌>>=◌, ◌>>◌}
use bg96_driver.Prelude.Partial.{Partial}
use bg96_driver.At.{
  AtParser, Bg96, send_ok, context, Arg, int, text, lock, unlock, set_timeout, plain, int_at,
  parser_send, parser_recv, parser_scan, parser_write, parser_read, parser_getc,
  nsapi_error_device_error,
}
use bg96_driver.Driver.Commands.{recv_pattern, open_pattern}

module _ {D : Type 0} (io : AtParser D) where
  write_after_prompt : List ℕ → Bool → St (Bg96 D) Bool
  write_after_prompt bytes true = pure true
  write_after_prompt bytes false = do
    prompt ← parser_recv io (plain ">")
    if prompt then (do n ← parser_write io bytes; pure (not (ltb_ℤ (pos 0) n))) else pure false

  confirm : Bool → St (Bg96 D) Bool
  confirm true = pure true
  confirm false = parser_recv io (plain "SEND OK")

  -- BG96::send; `bytes` is what stands at `data`.
  unfoldable pub bg96_send : ℤ → List ℕ → ℕ → St (Bg96 D) Bool
  unfolding write_after_prompt confirm
  bg96_send id bytes amount = do
    lock
    set_timeout 2000
    sent ←
        parser_send io
          (record { format = "AT+QISEND=%d,%ld"; args = int id ∷ int (pos amount) ∷ [] })
    failed ← write_after_prompt (take amount bytes) (not sent)
    done ← confirm failed
    set_timeout 1000
    unlock
    pure done

  unfoldable pub chk_rx_avail : ℤ → St (Bg96 D) Bool
  chk_rx_avail id = do
    lock
    set_timeout 1000
    i ← parser_recv io (recv_pattern id)
    set_timeout 1000
    unlock
    pure i

  unfoldable pub rx_avail : ℤ → St (Bg96 D) ℤ
  rx_avail id = do
    lock
    sent ← parser_send io (record { format = "AT+QIRD=%d,0"; args = int id ∷ [] })
    reply ← if sent then parser_scan io (plain "+QIRD:%d,%d,%d") else pure none
    unlock
    pure (elim reply [ none ↦ pos 0 | some vs ↦ int_at 0 (pos 0) vs -ℤ int_at 1 (pos 0) vs ])

  -- The modem has announced `rx_count` bytes.
  fetch : ℤ → St (Bg96 D) (ℤ × List ℕ)
  fetch rx_count =
      if ltb_ℤ (pos 0) rx_count
      then (do
        parser_getc io
        stored ← parser_read io (pos_part rx_count)
        ok ← parser_recv io (plain "OK")
        pure (if ok then rx_count else nsapi_error_device_error, stored.1))
      else pure (rx_count, [])

  fetch_reply : Option (List Arg) → St (Bg96 D) (ℤ × List ℕ)
  unfolding fetch
  fetch_reply none = pure (nsapi_error_device_error, [])
  fetch_reply (some vs) = fetch (int_at 0 (pos 0) vs)

  -- BG96::recv; with the result stand the bytes that were stored at `data`.
  unfoldable pub bg96_recv : ℤ → ℕ → St (Bg96 D) (ℤ × List ℕ)
  unfolding chk_rx_avail fetch_reply
  bg96_recv id cnt = do
    chk_rx_avail id
    lock
    sent ←
        parser_send io (record { format = "AT+QIRD=%d,%d"; args = int id ∷ int (as_int cnt) ∷ [] })
    reply ← if sent then parser_scan io (plain "+QIRD:%d\r\n") else pure none
    ret_cnt ← fetch_reply reply
    unlock
    pure ret_cnt

  -- `while( recv(id, cmd, sizeof(cmd)) )` of BG96::open, over the number of rounds.
  unfoldable pub clear_residual : ℕ → ℤ → Partial (Bg96 D) (Unit {0})
  clear_residual zero id s = none
  clear_residual (suc rounds) id s =
      let (got, s') = bg96_recv id 20 s in
      let rest = clear_residual rounds id s' in if got.0 ==ℤ pos 0 then some (tt, s') else rest

  -- BG96::open up to the loop.
  unfoldable pub open_socket : ℕ → ℤ → CStr → ℤ → St (Bg96 D) Bool
  open_socket type id addr port = do
    lock
    set_timeout 150000
    ctx ← context
    ok ← send_ok io (record {
      format = "AT+QIOPEN=%d,%d,\"%s\",\"%s\",%d,0,0\r";
      args =
          int ctx
          ∷ int id
          ∷ text (c_str (if type == b'u' then "UDP" else "TCP"))
          ∷ text addr
          ∷ int port
          ∷ [];
    })
    err ← if ok then parser_scan io (open_pattern id) else pure none
    set_timeout 1000
    unlock
    pure (elim err [ none ↦ false | some vs ↦ int_at 0 (pos 1) vs ==ℤ pos 0 ])

  -- BG96::open.
  unfoldable pub bg96_open : ℕ → ℕ → ℤ → CStr → ℤ → Partial (Bg96 D) Bool
  bg96_open rounds type id addr port s =
      let (ok, s') = open_socket type id addr port s in
      if ok
      then elim (clear_residual rounds id s') [ none ↦ none | some (_, t) ↦ some (true, t) ]
      else some (false, s')

  unfoldable pub bg96_close : ℤ → St (Bg96 D) Bool
  bg96_close id = do
    lock
    set_timeout 150000
    done ← send_ok io (record { format = "AT+QICLOSE=%d,%d"; args = int id ∷ int (pos 1) ∷ [] })
    set_timeout 1000
    unlock
    pure done
