-- ===== src/Interface/Poll/Listening.antt =====
-- BG96Interface.cpp: the listening flag of a socket that is closed, in the rounds of g_eq_event.
use bg96_driver.Prelude.{ℕ, ◌≡◌, arith, pos, Bool, true, none, some}
use bg96_driver.At.{AtParser}
use bg96_driver.Driver.Sockets.{bg96_recv}
use bg96_driver.Interface.{Iface}
use bg96_driver.Interface.Events.{rx_event}
use bg96_driver.Interface.Poll.{poll_rx}
use bg96_driver.Interface.Sockets.{socket_close}

module _ {D : Type 0} (io : AtParser D) where
  -- socket_close leaves the listening flag of the read: g_eq_event goes on asking the modem for
  -- data of a listening socket after it is closed.
  closed_still_polled :
      (h i : ℕ) (slow : Bool) (s : Iface D)
      → (s.sock h).id ≡ some i
      → (s.soc_rx i).dis_to ≡ true
      → let t = (socket_close io h s).1 in
        ((t.sock h).id ≡ none)
        × ((poll_rx io i slow t).1.bg96
            ≡ (bg96_recv io (pos (s.soc_rx i).socket_id) (s.soc_rx i).req_size t.bg96).1)
  unfolding socket_close poll_rx rx_event
  closed_still_polled h i slow s e d = ground arith
