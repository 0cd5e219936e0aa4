-- ===== src/Tests/Sockets.antt =====
-- Sockets on concrete modems.
use bg96_driver.Prelude.{ℕ, ◌<◌, ◌≤◌, ◌≡◌, ◌≢◌, refl, arith, ℤ, true, false, none, some, [], ◌∷◌}
use bg96_driver.At.{Bg96}
use bg96_driver.Interface.{Iface, tcp, tx_idle, read_start}
use bg96_driver.Driver.Sockets.{bg96_send}
use bg96_driver.Interface.Events.{tx_event, tx_sent, eq_schedule}
use bg96_driver.Interface.Sockets.{socket_open, open_slot}
use bg96_driver.Interface.Sockets.Table.{socket_open_lowest}
use bg96_driver.Interface.Transfer.{socket_send, send_in, start_tx, after_tx}
use bg96_driver.Interface.Transfer.Attempt.{Attempted, takes, socket_send_first}
use bg96_driver.Interface.Poll.Awake.{Keeps}
use bg96_driver.Interface.Poll.Steps.{busy}
use bg96_driver.Interface.Reach.{Reach, here, next, opens, sends}
use bg96_driver.Interface.Setup.{new_interface}
use bg96_driver.Interface.Setup.Start.{Reach-new_interface}
use bg96_driver.Tests.Fixtures.{silent, at_rest, obliging, none_open, all_open, passive, socket}

socket_open_lowest_example :
    (0 < 5)
    × ((socket none).id ≡ none)
    × ((j : ℕ) → j < 0 → (none_open.sock j).id ≢ none)
    × (((open_slot 0 tcp none_open).sock 0).id ≡ some 0)
    × (((open_slot 0 tcp none_open).sock 0).connected ≡ false)
    × (((open_slot 0 tcp none_open).sock 0).callback ≡ none)
    × (((open_slot 0 tcp none_open).soc_tx 0).state ≡ tx_idle)
    × (((open_slot 0 tcp none_open).soc_rx 0).state ≡ read_start)
    × ((j : ℕ) → j ≢ 0 → (open_slot 0 tcp none_open).sock j ≡ none_open.sock j)
unfolding socket_open
socket_open_lowest_example = socket_open_lowest tcp none_open refl

passive-Keeps : Keeps passive
passive-Keeps done f d s a = a

-- A new interface with a socket, and a send that the modem does not take.
abbrev opened : Iface ℕ
opened = (socket_open tcp (new_interface none_open)).1

abbrev sending : Iface ℕ
sending = (send_in silent passive tx_idle 0 0 (b'h' ∷ b'i' ∷ []) 2 opened).1

sending-Reach : Reach silent passive (new_interface none_open) sending
unfolding socket_send socket_open open_slot new_interface
sending-Reach = next (next here (opens tcp _)) (sends 0 (some (b'h' ∷ b'i' ∷ [])) 2 refl)

sending-busy : busy 0 sending ≡ true
unfolding send_in tx_event after_tx bg96_send tx_sent eq_schedule start_tx socket_open open_slot
    new_interface
sending-busy = refl

Reach-new_interface_example : (0 < sending.pending) × (sending.pending ≤ 5)
Reach-new_interface_example =
    Reach-new_interface silent passive passive-Keeps none_open sending 0 sending-Reach (omega arith)
      sending-busy

socket_send_first_example :
    (r : ℤ × Iface ℕ) × (socket_send obliging passive 3 (some (b'h' ∷ b'i' ∷ [])) 2 all_open
      ≡ some r)
    × Attempted obliging passive
        (takes obliging passive 3 (b'h' ∷ b'i' ∷ []) 2 all_open)
        3
        (start_tx (all_open.soc_tx 3) (all_open.sock 3) 3 (b'h' ∷ b'i' ∷ []) 2)
        r
socket_send_first_example =
    socket_send_first obliging passive 3 3 (b'h' ∷ b'i' ∷ []) 2 all_open refl refl refl
      (omega arith) (omega arith) refl

-- The modem after that many milliseconds.
abbrev after : ℕ → Bg96 ℕ
after n = record at_rest { dev = n }
