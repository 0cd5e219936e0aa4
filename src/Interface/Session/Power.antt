-- ===== src/Interface/Session/Power.antt =====
-- BG96Interface.cpp: the count of power-off permissions, and the result of set_credentials.
use bg96_driver.Prelude.{
  ℕ, ◌≡◌, ◌≢◌, arith, ℤ, pos, true, false, some, CStr, Option-cases, inl, inr, ◌⊎◌,
}
use bg96_driver.At.{AtParser, nsapi_error_is_connected}
use bg96_driver.Driver.Connect.{connect_apn}
use bg96_driver.Driver.Connect.Activation.{connect_apn_result}
use bg96_driver.Interface.{Iface}
use bg96_driver.Interface.Session.{
  set_credentials, power_down_modem, allow_power_off, disallow_power_off,
}

-- allowPowerOff after disallowPowerOff gives the count back and allows powerDown.
disallow_then_allow :
    {D : Type 0} (s : Iface D)
    → let t = allow_power_off (disallow_power_off s) in
      (t.power_off ≡ s.power_off) × (t.power_off_allowed ≡ true)
unfolding allow_power_off disallow_power_off
disallow_then_allow s = ground arith

module _ {D : Type 0} (io : AtParser D) where
  -- After disallowPowerOff, where powerDown was allowed before, powerDown is refused and leaves the
  -- driver alone exactly if the count was 1; otherwise the modem is powered down all the same.
  disallow_power_off_once :
      (s : Iface D)
      → s.power_off_allowed ≡ true
      → ((s.power_off ≡ pos 1)
          × (power_down_modem io (disallow_power_off s) ≡ (false, disallow_power_off s)))
        ⊎ ((s.power_off ≢ pos 1) × ((power_down_modem io (disallow_power_off s)).0 ≡ true))
  unfolding power_down_modem disallow_power_off
  disallow_power_off_once s a = ground arith

  -- set_credentials reports NSAPI_ERROR_IS_CONNECTED whenever it returns, also where the connection
  -- has failed.
  pub set_credentials_result :
      (rounds : ℕ) (apn username password : CStr) (s : Iface D) {r : ℤ} {t : Iface D}
      → set_credentials io rounds apn username password s ≡ some (r, t)
      → (r ≡ nsapi_error_is_connected) × (t.is_initialized ≡ nsapi_error_is_connected)
  unfolding set_credentials
  set_credentials_result rounds apn username password s e =
      elim (Option-cases (connect_apn io rounds apn username password s.bg96)) [
        | inl f ↦ absurd (ground arith)
        | inr ((v, b), f) ↦
            ground (arith, connect_apn_result io rounds apn username password s.bg96 f)
      ]
