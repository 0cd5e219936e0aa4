-- ===== src/Tests/Events.antt =====
-- Attempts to receive on a concrete modem.
use bg96_driver.Prelude.{ℕ, ◌≡◌, refl, arith, true, false, ◌==◌, if◌then◌else◌}
use bg96_driver.Driver.Sockets.{bg96_recv}
use bg96_driver.Interface.{Iface, RxEvent, read_active, slots}
use bg96_driver.Interface.Events.{rx_event}
use bg96_driver.Interface.Events.Reading.{attempt_rx, next_state, silence_times_out}
use bg96_driver.Interface.Poll.{poll_all}
use bg96_driver.Interface.Poll.Slow.{slow_cuts_short}
use bg96_driver.Tests.Fixtures.{answering, all_open, idle_rx, at_rest}

-- A read that has waited for 598 ticks.
abbrev waiting : RxEvent
waiting = record idle_rx { state = read_active; timer = 598 }

-- On a modem that never has anything for a socket.
silence_times_out_example :
    ((attempt_rx answering 2 waiting at_rest).0 ≡ (true, record waiting { timer = 600 }))
    × ((attempt_rx answering 3 waiting at_rest).0
        ≡ (false, record waiting { timer = 601; return_cnt = 0; state = next_state waiting }))
unfolding bg96_recv
silence_times_out_example =
    silence_times_out answering 2 waiting at_rest (λ size c. ground arith) refl refl

-- Socket 1 listens and has waited long, and socket 3 has just begun to read.
abbrev mixed : Iface ℕ
mixed = record all_open {
  soc_rx = λ i.
      if i == 1
      then record idle_rx { state = read_active; timer = 24000; dis_to = true }
      else record idle_rx { state = read_active };
}

slow_cuts_short_example :
    let r = (poll_all answering slots false false mixed).1.soc_rx 3 in
    (r.timer ≡ 24000)
    × ((rx_event answering r at_rest).0
        ≡ (false, record r { timer = 24001; return_cnt = 0; state = next_state r }))
unfolding bg96_recv
slow_cuts_short_example =
    slow_cuts_short answering (λ id size c. ground arith) 1 3 mixed at_rest (λ k. refl)
      (omega arith) (omega arith) refl (omega arith)
      (record { active = refl; hears_not = refl; recent = omega arith })
