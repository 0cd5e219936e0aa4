-- ===== src/Interface/Connect.antt =====
-- BG96Interface.cpp: the start of a connection, and the resolution of names.
pub mod Outcome
use bg96_driver.Prelude.{
  ℕ, zero, suc, ◌-◌, ℤ, pos, negsuc, ◌==ℤ◌, Bool, true, false, not, ◌&&◌, Option, none, some, List,
  if◌then◌else◌, ltb, CStr,
}
use bg96_driver.Prelude.Partial.{Partial}
use bg96_driver.At.{
  AtParser, Bg96, nsapi_error_ok, nsapi_error_device_error, nsapi_error_is_connected,
}
use bg96_driver.Driver.Network.{resolve_url}
use bg96_driver.Driver.Power.{startup}
use bg96_driver.Interface.{Iface}
use bg96_driver.Interface.Session.{disconnect, set_credentials}

module _ {D : Type 0} (io : AtParser D) where
  open io use {read_ms}

  -- `while(t.read_ms() < BG96_LIBRARY_READ_TIMEOUTMS && !ok) ok = _BG96.startup()` over the number of
  -- rounds; the timer was started at `start`.
  unfoldable pub start_modem : ℕ → ℕ → ℕ → Bool → Partial (Bg96 D) Bool
  start_modem zero ready_rounds start ok b = none
  start_modem (suc rounds) ready_rounds start ok b =
      if ltb (read_ms b.dev - start) 30000 && not ok
      then elim (startup io ready_rounds b) [
        | none ↦ none
        | some (ok', b') ↦ start_modem rounds ready_rounds start ok' b'
      ]
      else some (ok, b)

  -- The test at the beginning of BG96Interface::connect: the value that `ok` has after it, which is
  -- the result of disconnect, an nsapi_error_t, as a bool.
  unfoldable pub leave : Iface D → Bool × Iface D
  leave s =
      if s.is_initialized ==ℤ nsapi_error_is_connected
      then (let (ret, s') = disconnect io s in (not (ret ==ℤ pos 0), s'))
      else (false, s)

  -- BG96Interface::connect(apn, username, password); `monitor` is what Thread::start gives, and
  -- `rounds` bounds each loop on the way.
  unfoldable pub connect : ℕ → ℤ → CStr → CStr → CStr → Partial (Iface D) ℤ
  connect rounds monitor apn username password s =
      let (left, s₁) = leave s in
      elim (start_modem rounds rounds (read_ms s₁.bg96.dev) left s₁.bg96) [
        | none ↦ none
        | some (ok, b) ↦
            let s₂ = record s₁ {
              bg96 = b;
              queue_id = if ok && s₁.queue_id ==ℤ negsuc 0 then monitor else s₁.queue_id;
            } in
            if ok
            then set_credentials io rounds apn username password s₂
            else some (nsapi_error_device_error, s₂)
      ]

  -- `while (!ok && iter < 3)` of gethostbyname over the number of rounds; `iter` stays 0. The
  -- results are `ok` and what stands at `ipstr`.
  unfoldable pub try_resolve : ℕ → ℕ → (CStr → List ℤ) → CStr → Partial (Bg96 D) (Bool × CStr)
  try_resolve zero iter numbers name b = none
  try_resolve (suc rounds) iter numbers name b =
      let ((ok, ipstr), b') = resolve_url io numbers name b in
      let rest = try_resolve rounds iter numbers name b' in
      if not (ltb iter 3)
      then some ((false, ipstr), b)
      else if ok
      then some ((true, ipstr), b')
      else rest

  -- gethostbyname; with the result stands the text that the address is set to.
  unfoldable pub gethostbyname : ℕ → (CStr → List ℤ) → CStr → Partial (Iface D) (ℤ × Option CStr)
  gethostbyname rounds numbers name s = elim (try_resolve rounds 0 numbers name s.bg96) [
    | none ↦ none
    | some ((ok, ipstr), b) ↦
        let s' = record s { bg96 = b } in
        if ok
        then some ((nsapi_error_ok, some ipstr), s')
        else some ((nsapi_error_device_error, none), s')
  ]
