-- ===== src/Driver/Power.antt =====
-- BG96/BG96.cpp: the pins of the modem, its reset and the wait for it.
pub mod Ready
use bg96_driver.Prelude.{
  ℕ, zero, suc, ◌-◌, Bool, true, false, ◌&&◌, none, some, [], if◌then◌else◌, ltb,
}
use bg96_driver.Prelude.State.{St, pure}
use bg96_driver.Prelude.Partial.{Partial, return, call, ◌>>=◌, ◌>>◌}
use bg96_driver.At.{AtParser, Bg96, send_ok, lock, unlock, plain, parser_recv, wait_ms, now_ms}

module _ {D : Type 0} (io : AtParser D) where
  open io use {read_ms}

  unfoldable pub power_down : St (Bg96 D) (Unit {0})
  power_down s = (tt, record s { bg96_pwrkey = false; vbat_3v8_en = false })

  unfoldable pub reset : St (Bg96 D) (Unit {0})
  reset s =
      let (_, s₁) =
        wait_ms io 300
          (record s { bg96_reset = false; bg96_pwrkey = false; vbat_3v8_en = false }) in
      let (_, s₂) =
        wait_ms io 400 (record s₁ { bg96_reset = true; vbat_3v8_en = true; bg96_pwrkey = true }) in
      wait_ms io 10 (record s₂ { bg96_reset = false })

  -- The loop of BG96::BG96Ready over the number of rounds; the timer was started at `start`.
  unfoldable pub await_ready : ℕ → ℕ → Partial (Bg96 D) Bool
  await_ready zero start s = none
  await_ready (suc rounds) start s =
      let (done, s') = parser_recv io (plain "RDY") s in
      let rest = await_ready rounds start s' in
      if ltb (read_ms s.dev - start) 15000
      then (if done then some (true, s') else rest)
      else some (false, s)

  unfoldable pub bg96_ready : ℕ → Partial (Bg96 D) Bool
  bg96_ready rounds = do
    call lock
    call reset
    start ← call (now_ms io)
    done ← await_ready rounds start
    call unlock
    return done

  -- The body of BG96::configureGNSS is commented out.
  abbrev configure_gnss : St (Bg96 D) Bool
  configure_gnss = pure true

  unfoldable pub startup : ℕ → Partial (Bg96 D) Bool
  startup rounds = do ready ← bg96_ready rounds; if ready then call configure_gnss else return false

  unfoldable pub is_power_on : St (Bg96 D) Bool
  is_power_on s = (s.vbat_3v8_en && s.bg96_pwrkey, s)

  unfoldable pub power_on_gnss : ℕ → Partial (Bg96 D) Bool
  power_on_gnss rounds = do
    on ← call is_power_on
    if on
        then return true
        else (do ready ← bg96_ready rounds; if ready then call configure_gnss else return false)

  unfoldable pub start_gnss : St (Bg96 D) Bool
  start_gnss s =
      let (_, s₁) = lock s in
      let (done, s₂) = send_ok io (plain "AT+QGPS=1") s₁ in (done, (unlock s₂).1)

  unfoldable pub stop_gnss : St (Bg96 D) Bool
  stop_gnss s =
      let (_, s₁) = lock s in
      let (done, s₂) = send_ok io (plain "AT+QGPSEND") s₁ in (done, (unlock s₂).1)
