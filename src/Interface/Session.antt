-- ===== src/Interface/Session.antt =====
-- BG96Interface.cpp: the connection to the network, and the power.
pub mod Power
use bg96_driver.Prelude.{
  ℕ, ℤ, pos, negsuc, ◌==ℤ◌, ◌-ℤ◌, ◌+ℤ◌, Bool, true, false, none, some, [], if◌then◌else◌, CStr,
}
use bg96_driver.At.{
  AtParser, nsapi_error_ok, nsapi_error_no_connection, nsapi_error_device_error,
  nsapi_error_is_connected,
}
use bg96_driver.Prelude.Partial.{Partial}
use bg96_driver.Driver.Network
use bg96_driver.Driver.Connect.{connect_apn}
use bg96_driver.Driver.Power.{power_down}
use bg96_driver.Interface.{Iface}

module _ {D : Type 0} (io : AtParser D) where
  -- BG96Interface::disconnect. What it cancels is the result of Thread::start, which is no event of
  -- the queue.
  unfoldable pub disconnect : Iface D → ℤ × Iface D
  disconnect s =
      let (ret, b) = Network.disconnect io s.bg96 in
      (
        if ret then nsapi_error_ok else nsapi_error_device_error,
        record s { queue_id = negsuc 0; is_initialized = nsapi_error_no_connection; bg96 = b },
      )

  -- The result of BG96::connect is compared with `true`, which is the number 1.
  unfoldable pub set_credentials : ℕ → CStr → CStr → CStr → Partial (Iface D) ℤ
  set_credentials rounds apn username password s =
      elim (connect_apn io rounds apn username password s.bg96) [
        | none ↦ none
        | some (ret, b) ↦
            let v =
              (if ret ==ℤ pos 1 then nsapi_error_no_connection else nsapi_error_is_connected) in
            some (v, record s { is_initialized = v; bg96 = b })
      ]

  unfoldable pub power_down_modem : Iface D → Bool × Iface D
  power_down_modem s =
      if s.power_off_allowed
      then (let (_, s') = disconnect s in (true, record s' { bg96 = (power_down io s'.bg96).1 }))
      else (false, s)

-- allowPowerOff and disallowPowerOff.
unfoldable pub allow_power_off : {D : Type 0} → Iface D → Iface D
allow_power_off s = record s { power_off_allowed = true; power_off = s.power_off +ℤ pos 1 }

unfoldable pub disallow_power_off : {D : Type 0} → Iface D → Iface D
disallow_power_off s =
    let n = s.power_off -ℤ pos 1 in
    record s {
      power_off = n;
      power_off_allowed = if n ==ℤ pos 0 then false else s.power_off_allowed;
    }
