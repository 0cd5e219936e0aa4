-- ===== src/Interface/Events.antt =====
-- BG96Interface.cpp: one attempt to receive or to send, and the queue of attempts.
pub mod Transmit
pub mod Reading
use bg96_driver.Prelude.{
  ℕ, ◌+◌, ◌-◌, ℤ, pos, ltb_ℤ, ◌==ℤ◌, pos_part, Bool, true, false, not, ◌&&◌, none, some, List, [],
  ◌++◌, drop, length, if◌then◌else◌, u32, ltb,
}
use bg96_driver.At.{AtParser, Bg96, nsapi_error_device_error}
use bg96_driver.Driver.Sockets.{bg96_send, bg96_recv}
use bg96_driver.Interface.{
  RxEvent, TxEvent, Iface, Callback, read_docb, data_available, tx_complete, tx_docb, buff_size,
  socket_count,
}

-- `if( size > BG96::BG96_BUFF_SIZE ) size = BG96::BG96_BUFF_SIZE`
abbrev pub clamp : ℕ → ℕ
clamp n = if ltb buff_size n then buff_size else n

abbrev pub is_null : Callback → Bool
is_null none = true
is_null (some _) = false

-- BG96_LIBRARY_READ_TIMEOUTMS/EQ_FREQ, and the same in slow rounds.
abbrev pub timeout_ticks : ℕ
timeout_ticks = 600

abbrev pub slow_ticks : ℕ
slow_ticks = 24000

-- rx_event below the call of BG96::recv. The first result is whether to schedule another attempt
-- (EVENT_GETMORE).
unfoldable pub rx_received : RxEvent → ℤ → List ℕ → Bool × RxEvent
rx_received p cnt bytes =
    let q = record p { dptr = bytes ++ drop (length bytes) p.dptr } in
    let next = if is_null p.callback then data_available else read_docb in
    if cnt ==ℤ nsapi_error_device_error
    then (true, record q { timer = 0 })
    else if ltb_ℤ (pos 0) cnt
    then (false, record q { return_cnt = u32 (p.return_cnt + pos_part cnt); state = next })
    else if ltb timeout_ticks (p.timer + 1) && not p.dis_to
    then (false, record q { timer = p.timer + 1; return_cnt = 0; state = next })
    else (true, record q { timer = p.timer + 1 })

-- tx_event once BG96::send has given true.
unfoldable pub tx_sent : TxEvent → Bool × TxEvent
tx_sent p =
    let total = u32 (p.total_sent + p.req_size) in
    if ltb total p.orig_size
    then (
      true,
      record p {
        total_sent = total;
        dptr = drop p.req_size p.dptr;
        req_size = clamp (p.orig_size - total);
      },
    )
    else (
      false,
      record p { total_sent = total; state = if is_null p.callback then tx_complete else tx_docb },
    )

module _ {D : Type 0} (io : AtParser D) where
  unfoldable pub rx_event : RxEvent → Bg96 D → (Bool × RxEvent) × Bg96 D
  rx_event p b =
      let ((cnt, bytes), b') = bg96_recv io (pos p.socket_id) p.req_size b in
      (rx_received p cnt bytes, b')

  unfoldable pub tx_event : TxEvent → Bg96 D → (Bool × TxEvent) × Bg96 D
  tx_event p b =
      let (done, b') = bg96_send io (pos p.socket_id) p.dptr p.req_size b in
      (if done then tx_sent p else (true, p), b')

-- _eq_schedule
unfoldable pub eq_schedule : {D : Type 0} → Iface D → Iface D
eq_schedule s =
    if ltb s.scheduled_events socket_count
    then record s { scheduled_events = s.scheduled_events + 1; pending = s.pending + 1 }
    else s
