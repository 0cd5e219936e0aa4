-- ===== src/Interface/Setup/Start.antt =====
-- BG96Interface.cpp: a new interface, and connect on a modem that does not answer.
use bg96_driver.Prelude.{ℕ, zero, suc, ◌<◌, ◌≤◌, ◌≡◌, refl, arith, ℤ, true, false, none, CStr}
use bg96_driver.At.{AtParser, Command}
use bg96_driver.Driver.Network.{is_connected, get_ip_address}
use bg96_driver.Interface.{Iface, Application}
use bg96_driver.Interface.Poll.Awake.{IsAwake, Keeps}
use bg96_driver.Interface.Poll.Steps.{busy}
use bg96_driver.Interface.Reach.{Reach, Reach-pending}
use bg96_driver.Interface.Setup.{new_interface, await_connected, connect_default}

pub new_interface-IsAwake : {D : Type 0} (m : Iface D) → IsAwake false (new_interface m)
unfolding new_interface
new_interface-IsAwake m = record {
  bound = ground arith;
  counted = ground arith;
  covered = λ j lt b. ground (arith, b);
  owned = λ j lt act. ground (arith, act);
  heard = λ j lt act. ground (arith, act);
}

-- No wake-up is lost in a driver that starts as its constructor leaves it, whatever its memory held:
-- with callbacks that keep the queue and the transfers in step, and in whatever order the
-- application and the event queue call the driver, as long as a read or a send of some socket is
-- under way a call of g_eq_event waits in the queue, and never more than BG96_SOCKET_COUNT of them.
pub Reach-new_interface :
    {D : Type 0} (io : AtParser D) (app : Application D) (keeps : Keeps app) (m t : Iface D) (j : ℕ)
    → Reach io app (new_interface m) t
    → j < 5
    → busy j t ≡ true
    → (0 < t.pending) × (t.pending ≤ 5)
Reach-new_interface io app keeps m t j r lt b =
    Reach-pending io app keeps j (new_interface-IsAwake m) r lt b

module _ {D : Type 0} (io : AtParser D) where
  open io use {recv}

  await_connected-silent :
      ((t : ℕ) (c : Command) (d : D) → (recv t c d).0 ≡ none)
      → (rounds : ℕ) (s : Iface D) → await_connected io rounds s ≡ none
  unfolding await_connected is_connected get_ip_address
  await_connected-silent silent zero s = refl
  await_connected-silent silent (suc rounds) s = grind (arith, await_connected-silent silent rounds)

  -- On a modem that never answers, connect without arguments does not return, not even with an
  -- error: no number of rounds is enough.
  pub connect_default-silent :
      ((t : ℕ) (c : Command) (d : D) → (recv t c d).0 ≡ none)
      → (rounds : ℕ) (monitor : ℤ) (default_apn null_text : CStr) (s : Iface D)
      → connect_default io rounds monitor default_apn null_text s ≡ none
  unfolding connect_default
  connect_default-silent silent rounds monitor default_apn null_text s =
      grind (arith, await_connected-silent silent rounds)
