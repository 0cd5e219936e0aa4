-- ===== src/Driver/Mqtt.antt =====
-- BG96/BG96.cpp: the MQTT commands of the modem.
pub mod Receive
pub mod Publish
use bg96_driver.Prelude.{
  ℕ, ℤ, pos, negsuc, ltb_ℤ, ◌==ℤ◌, pos_part, Bool, true, false, not, ◌&&◌, none, some, List, [],
  ◌∷◌, take, if◌then◌else◌, CStr,
}
use bg96_driver.Prelude.State.{St, pure, ◌>>=◌, ◌>>◌}
use bg96_driver.At.{
  AtParser, Bg96, parser_values, send_ok, int, text, lock, unlock, set_timeout, plain, int_at,
  parser_send, parser_recv, parser_write, nsapi_error_ok, nsapi_error_timeout,
}
use bg96_driver.Driver.Errors.{get_error}
use bg96_driver.Driver.Commands.{mqtt_open_command, mqtt_connect_command}

-- BG96/BG96.h
pub record ConnectResult : Type 0 where
  pub result : ℤ
  pub rc : ℤ

module _ {D : Type 0} (io : AtParser D) where
  -- `if(getError(errstring)) sscanf(errstring, "Error:%d", &rc)`
  scan_error : ℤ → St (Bg96 D) ℤ
  scan_error rc s = let (e, s') = get_error io s in (elim e [ none ↦ rc | some n ↦ n ], s')

  unfoldable pub mqtt_open : CStr → ℤ → St (Bg96 D) ℤ
  unfolding scan_error get_error
  mqtt_open hostname port = do
    lock
    set_timeout 10000
    ok ← send_ok io (mqtt_open_command hostname port)
    if ok
        then (do
          reply ← parser_values io (plain "+QMTOPEN: %d,%d\r\n")
          set_timeout 1000
          unlock
          pure (int_at 1 (negsuc 0) reply.1))
        else (do set_timeout 1000; unlock; scan_error (negsuc 0))

  unfoldable pub mqtt_close : St (Bg96 D) ℤ
  mqtt_close = do
    lock
    ok ← send_ok io (plain "AT+QMTCLOSE=0")
    reply ← if ok then parser_values io (plain "+QMTCLOSE: %d,%d\r\n") else pure (false, [])
    unlock
    pure (if ok then int_at 1 (negsuc 0) reply.1 else nsapi_error_timeout)

  -- The result and the structure `result` as it is left.
  unfoldable pub mqtt_connect :
      ℤ → CStr → CStr → CStr → ConnectResult → St (Bg96 D) (Bool × ConnectResult)
  unfolding scan_error get_error
  mqtt_connect sslctx_id clientid username password result = do
    lock
    set_timeout 45000
    rc ← send_ok io (mqtt_connect_command sslctx_id clientid username password)
    if rc
        then (do
          reply ← parser_values io (plain "+QMTCONN:%d,%d,%d")
          set_timeout 1000
          unlock
          pure (
            true,
            record { result = int_at 1 result.result reply.1; rc = int_at 2 result.rc reply.1 },
          ))
        else (do
          set_timeout 1000
          unlock
          e ← scan_error result.rc
          pure (false, record { result = negsuc 0; rc = e }))

  unfoldable pub mqtt_disconnect : ℤ → St (Bg96 D) ℤ
  mqtt_disconnect mqtt_id = do
    lock
    ok ← send_ok io (record { format = "AT+QMTDISC=%d"; args = int mqtt_id ∷ [] })
    unlock
    pure (if ok then nsapi_error_ok else negsuc 0)

  unfoldable pub mqtt_subscribe : ℤ → CStr → ℤ → ℤ → St (Bg96 D) ℤ
  mqtt_subscribe mqtt_id topic qos msg_id = do
    lock
    set_timeout 15000
    ok ← send_ok io (record {
      format = "AT+QMTSUB=%d,%d,\"%s\",%d";
      args = int mqtt_id ∷ int msg_id ∷ text topic ∷ int qos ∷ [];
    })
    set_timeout 1000
    unlock
    pure (if ok then nsapi_error_ok else negsuc 0)

  unfoldable pub mqtt_unsubscribe : ℤ → CStr → ℤ → St (Bg96 D) ℤ
  mqtt_unsubscribe mqtt_id topic msg_id = do
    lock
    set_timeout 15000
    ok ← send_ok io (record {
      format = "AT+QMTUNS=%d,%d,\"%s\"";
      args = int mqtt_id ∷ int msg_id ∷ text topic ∷ [];
    })
    set_timeout 1000
    unlock
    pure (if ok then nsapi_error_ok else negsuc 0)

  -- The payload and the closing Ctrl+Z; the second result replaces the first.
  write_payload : List ℕ → St (Bg96 D) Bool
  write_payload bytes = do
    parser_write io bytes
    n ← parser_write io (0x1a ∷ [])
    pure (not (n ==ℤ pos 0))

  -- BG96::mqtt_publish below the check of the size. Without a prompt it returns at once.
  publish_payload : ℤ → ℤ → ℤ → ℤ → CStr → List ℕ → St (Bg96 D) ℤ
  unfolding write_payload
  publish_payload mqtt_id msg_id qos retain topic bytes = do
    lock
    set_timeout 60000
    sent ← parser_send io (record {
      format = "AT+QMTPUB=%d,%d,%d,%d,\"%s\"";
      args = int mqtt_id ∷ int msg_id ∷ int qos ∷ int retain ∷ text topic ∷ [];
    })
    prompt ← if sent then parser_recv io (plain ">") else pure false
    if prompt
        then (do
          done ← write_payload bytes
          reply ← if done then parser_values io (plain "+QMTPUB: %d,%d,%d") else pure (false, [])
          set_timeout 1000
          unlock
          pure (if reply.0 && int_at 2 (pos 0) reply.1 ==ℤ pos 0 then pos 1 else negsuc 0))
        else pure (negsuc 0)

  -- `amount` is an int; a negative one is not turned away here.
  unfoldable pub mqtt_publish : ℤ → ℤ → ℤ → ℤ → CStr → List ℕ → ℤ → St (Bg96 D) ℤ
  unfolding publish_payload
  mqtt_publish mqtt_id msg_id qos retain topic bytes amount =
      if ltb_ℤ amount (pos 1548)
      then publish_payload mqtt_id msg_id qos retain topic (take (pos_part amount) bytes)
      else pure (negsuc 0)
