-- ===== src/Driver/Connect.antt =====
-- BG96/BG96.cpp: registration with the network and activation of a context.
pub mod Activation
use bg96_driver.Prelude.{
  ℕ, zero, suc, ℤ, pos, ◌==ℤ◌, Bool, true, false, ◌&&◌, ◌||◌, none, some, [], ◌∷◌, if◌then◌else◌,
  ltb, CStr,
}
use bg96_driver.Prelude.State.{St, pure, ◌>>=◌, ◌>>◌}
use bg96_driver.At.{
  AtParser, Bg96, context, parser_values, send_ok, Command, int, text, lock, unlock, set_timeout,
  plain, int_at, parser_send, parser_recv, wait_ms, nsapi_error_ok, nsapi_error_device_error,
}
use bg96_driver.Prelude.Partial.{Partial}
use bg96_driver.Driver.Network.{tx2bg96}
use bg96_driver.Driver.Commands.{activate_command}

module _ {D : Type 0} (io : AtParser D) where
  -- One round of the registration loop: whether the modem reports 1 (home) or 5 (roaming).
  unfoldable pub ask_registration : St (Bg96 D) Bool
  ask_registration = do
    sent ← parser_send io (plain "AT+CGREG?")
    reply ← if sent then parser_values io (plain "+CGREG: %d, %d") else pure (false, [])
    wait_ms io 500
    let stat = int_at 1 (pos 0) reply.1
    pure (reply.0 && (stat ==ℤ pos 1 || stat ==ℤ pos 5))

  -- The registration loop, with `i` rounds to go.
  unfoldable pub await_registration : ℕ → St (Bg96 D) Bool
  await_registration zero s = (false, s)
  await_registration (suc i) s =
      let (registration, s') = ask_registration s in
      let rest = await_registration i s' in if registration then (true, s') else rest

  -- One round of the outer loop, which is the only one: `techno` starts at 2. The result is `done`,
  -- which keeps its first value -1 if the echo command fails.
  unfoldable pub attempt_registration : St (Bg96 D) Bool
  attempt_registration = do
    echo ← tx2bg96 io (plain "ATE0")
    if echo
        then (do
          tx2bg96 io (plain "AT+CGREG=0")
          registration ← await_registration 255
          if registration
              then (do
                sent ← parser_send io (plain "AT+COPS?")
                if sent then parser_recv io (plain "+COPS: %d, %d, \"%[^\"]\", %d") else pure false
                tx2bg96 io (plain "AT+CTZU=1")
                pure true)
              else pure false)
        else pure true

  -- The check of the stored APN. The result is whether to go on.
  unfoldable pub check_apn : CStr → CStr → CStr → St (Bg96 D) Bool
  check_apn apn username password = do
    set_timeout 5000
    ctx ← context
    sent ← parser_send io (record { format = "AT+QICSGP=%d"; args = int ctx ∷ [] })
    done ←
        if sent
        then parser_recv io (plain "+QICSGP: %d,\"%[^\"]\",\"%[^\"]\",\"%[^\"]\",%d\r\n")
        else pure true
    if done then parser_recv io (plain "OK") else pure false
    set_timeout 1000
    if done then pure true else (do
      wait_ms io 1000
      send_ok io (record {
        format = "AT+QICSGP=%d,1,\"%s\",\"%s\",\"%s\",0";
        args = int ctx ∷ text apn ∷ text username ∷ text password ∷ [];
      }))

  -- BG96::connect(apn, username, password) up to the activation; false is the early return.
  unfoldable pub prepare_connect : CStr → CStr → CStr → St (Bg96 D) Bool
  prepare_connect apn username password = do
    lock
    set_timeout 2000
    done ← attempt_registration
    stored ← if done then check_apn apn username password else pure true
    if stored then (do wait_ms io 1000; unlock; pure true) else pure false

  -- `while( !done && timer_s.read_ms() < BG96_150s_TO )` over the number of rounds. The timer is
  -- reset and not started, so it reads 0.
  unfoldable pub activate : ℕ → Command → Partial (Bg96 D) Bool
  activate zero cmd s = none
  activate (suc rounds) cmd s =
      let (done, s') = tx2bg96 io cmd s in
      let rest = activate rounds cmd s' in
      if ltb 0 150000 then (if done then some (true, s') else rest) else some (false, s)

  -- BG96::connect(pdp_id)
  unfoldable pub connect_pdp : ℕ → ℤ → Partial (Bg96 D) ℤ
  connect_pdp rounds pdp_id s =
      let (_, s₁) = lock s in
      elim (activate rounds (activate_command s.context_id) s₁) [
        | none ↦ none
        | some (done, s₂) ↦ some (
          if done then nsapi_error_ok else nsapi_error_device_error,
          (unlock (set_timeout 1000 s₂).1).1,
        )
      ]

  -- BG96::connect(apn, username, password)
  unfoldable pub connect_apn : ℕ → CStr → CStr → CStr → Partial (Bg96 D) ℤ
  connect_apn rounds apn username password s =
      let (stored, s') = prepare_connect apn username password s in
      if stored then connect_pdp rounds s'.context_id s' else some (nsapi_error_device_error, s')
