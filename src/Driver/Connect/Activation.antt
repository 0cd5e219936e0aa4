-- ===== src/Driver/Connect/Activation.antt =====
-- BG96/BG96.cpp: the activation of a context, and the early return of BG96::connect.
use bg96_driver.Prelude.{ℕ, zero, suc, ◌+◌, ◌≡◌, refl, arith, ℤ, some, CStr, if◌then◌else◌, ◌⊎◌}
use bg96_driver.At.{AtParser, Bg96, Command, nsapi_error_ok, nsapi_error_device_error}
use bg96_driver.Driver.Network.{tx2bg96}
use bg96_driver.Driver.Connect.{
  ask_registration, connect_pdp, connect_apn, prepare_connect, await_registration,
  attempt_registration, check_apn,
}

module _ {D : Type 0} (io : AtParser D) where
  -- BG96::connect returns NSAPI_ERROR_OK or NSAPI_ERROR_DEVICE_ERROR.
  pub connect_apn_result :
      (rounds : ℕ) (apn username password : CStr) (s : Bg96 D) {r : ℤ} {t : Bg96 D}
      → connect_apn io rounds apn username password s ≡ some (r, t)
      → (r ≡ nsapi_error_ok) ⊎ (r ≡ nsapi_error_device_error)
  unfolding connect_apn connect_pdp
  connect_apn_result rounds apn username password s e = ground arith

  ask_registration-locks : (s : Bg96 D) → (ask_registration io s).1.locks ≡ s.locks
  unfolding ask_registration
  ask_registration-locks s = ground arith

  await_registration-locks : (i : ℕ) (s : Bg96 D) → (await_registration io i s).1.locks ≡ s.locks
  unfolding await_registration
  await_registration-locks zero s = refl
  await_registration-locks (suc i) s =
      ground (arith, ask_registration-locks s, await_registration-locks i (ask_registration io s).1)

  tx2bg96-locks : (c : Command) (s : Bg96 D) → (tx2bg96 io c s).1.locks ≡ s.locks
  unfolding tx2bg96
  tx2bg96-locks c s = ground arith

  attempt_registration-locks : (s : Bg96 D) → (attempt_registration io s).1.locks ≡ s.locks
  unfolding attempt_registration
  attempt_registration-locks s = grind (arith, tx2bg96-locks, await_registration-locks)

  check_apn-locks :
      (apn username password : CStr) (s : Bg96 D)
      → (check_apn io apn username password s).1.locks ≡ s.locks
  unfolding check_apn
  check_apn-locks apn username password s = ground arith

  -- BG96::connect keeps the mutex when it returns because the APN could not be stored, and gives it
  -- back before the activation otherwise.
  prepare_connect-locks :
      (apn username password : CStr) (s : Bg96 D)
      → let (stored, t) = prepare_connect io apn username password s in
        t.locks ≡ (if stored then s.locks else s.locks + 1)
  unfolding prepare_connect
  prepare_connect-locks apn username password s =
      let b : Bg96 D = record s { locks = s.locks + 1; timeout = 2000 } in
      ground (
        arith,
        attempt_registration-locks b,
        check_apn-locks apn username password (attempt_registration io b).1,
      )
