-- ===== src/Interface/Transfer.antt =====
-- BG96Interface.cpp: sending and receiving on a socket.
pub mod Awake
pub mod Attempt
pub mod Datagrams
use bg96_driver.Prelude.{
  ℕ, ℤ, pos, ◌==ℤ◌, Bool, true, false, Option, none, some, List, [], if◌then◌else◌, as_int, ltb,
}
use bg96_driver.At.{
  AtParser, nsapi_error_ok, nsapi_error_would_block, nsapi_error_no_connection,
  nsapi_error_device_error,
}
use bg96_driver.Prelude.Partial.{Partial}
use bg96_driver.Interface.{
  RxEvent, TxEvent, RxState, TxState, Socket, Address, Iface, Application, read_init, read_start,
  read_active, read_docb, data_available, tx_idle, tx_starting, tx_active, tx_complete, tx_docb,
  set_rx, set_tx, call_back,
}
use bg96_driver.Interface.Events.{rx_event, tx_event, eq_schedule, clamp}
use bg96_driver.Interface.Sockets.{socket_connect}

abbrev pub is_tx_docb : TxState → Bool
is_tx_docb tx_docb = true
is_tx_docb _ = false

abbrev pub is_read_docb : RxState → Bool
is_read_docb read_docb = true
is_read_docb _ = false

-- The event that socket_send prepares.
unfoldable pub start_tx : TxEvent → Socket → ℕ → List ℕ → ℕ → TxEvent
start_tx p sock i bytes size = record p {
  socket_id = i;
  state = tx_starting;
  dptr = bytes;
  orig_size = size;
  req_size = clamp size;
  total_sent = 0;
  callback = sock.callback;
  cb_data = sock.cb_data;
}

-- The event that socket_recv prepares.
unfoldable pub start_rx : RxEvent → Socket → ℕ → List ℕ → ℕ → RxEvent
start_rx p sock i buffer size = record p {
  dis_to = sock.dis_to;
  socket_id = i;
  state = read_init;
  dptr = buffer;
  req_size = clamp size;
  total_cnt = 0;
  timer = 0;
  return_cnt = 0;
  callback = sock.callback;
  cb_data = sock.cb_data;
}

module _ {D : Type 0} where
  -- `case TX_COMPLETE`
  unfoldable pub finish_tx : ℕ → Iface D → ℤ × Iface D
  finish_tx i s =
      (as_int (s.soc_tx i).total_sent, set_tx i (record (s.soc_tx i) { state = tx_idle }) s)

  -- `case DATA_AVAILABLE`
  unfoldable pub finish_rx : ℕ → Iface D → ℤ × Iface D
  finish_rx i s =
      (as_int (s.soc_rx i).return_cnt, set_rx i (record (s.soc_rx i) { state = read_start }) s)

  -- The call-back of an event that is complete.
  unfoldable pub notify_tx : Application D → ℕ → Iface D → Iface D
  notify_tx app i s =
      let p = s.soc_tx i in
      if is_tx_docb p.state
      then call_back app p.callback p.cb_data (set_tx i (record p { state = tx_complete }) s)
      else s

  unfoldable pub notify_rx : Application D → ℕ → Iface D → Iface D
  notify_rx app i s =
      let p = s.soc_rx i in
      if is_read_docb p.state
      then call_back app p.callback p.cb_data (set_rx i (record p { state = data_available }) s)
      else s

module _ {D : Type 0} (io : AtParser D) (app : Application D) where
  -- socket_send and socket_recv after the first attempt.
  unfoldable pub after_tx : ℕ → Bool → Iface D → ℤ × Iface D
  unfolding notify_tx finish_tx
  after_tx i true s = (
    nsapi_error_would_block,
    eq_schedule (set_tx i (record (s.soc_tx i) { state = tx_active }) s),
  )
  after_tx i false s = finish_tx i (notify_tx app i s)

  unfoldable pub after_rx : ℕ → Bool → Iface D → ℤ × Iface D
  unfolding notify_rx finish_rx
  after_rx i true s = (
    nsapi_error_would_block,
    eq_schedule (set_rx i (record (s.soc_rx i) { state = read_active }) s),
  )
  after_rx i false s = finish_rx i (notify_rx app i s)

  -- The `switch` of socket_send, on the state of the event.
  unfoldable pub send_in : TxState → ℕ → ℕ → List ℕ → ℕ → Iface D → ℤ × Iface D
  unfolding start_tx after_tx finish_tx
  send_in tx_idle h i bytes size s =
      let ((more, p), b) = tx_event io (start_tx (s.soc_tx i) (s.sock h) i bytes size) s.bg96 in
      after_tx i more (set_tx i p (record s { bg96 = b }))
  send_in tx_complete h i bytes size s = finish_tx i s
  send_in tx_active h i bytes size s = (nsapi_error_would_block, s)
  send_in tx_starting h i bytes size s = (nsapi_error_would_block, s)
  send_in tx_docb h i bytes size s = (nsapi_error_device_error, s)

  -- `bytes` is what the buffer holds, or `none` for the null pointer. On a socket that is closed
  -- the array is read at -1.
  unfoldable pub socket_send : ℕ → Option (List ℕ) → ℕ → Partial (Iface D) ℤ
  unfolding send_in
  socket_send h none size s = some (pos 0, s)
  socket_send h (some bytes) size s = if ltb size 1 then some (pos 0, s) else elim (s.sock h).id [
    | none ↦ none
    | some i ↦ some (send_in (s.soc_tx i).state h i bytes size s)
  ]

  -- The `switch` of socket_recv.
  unfoldable pub recv_in : RxState → ℕ → ℕ → List ℕ → ℕ → Iface D → ℤ × Iface D
  unfolding start_rx after_rx finish_rx
  recv_in read_start h i buffer size s =
      let ((more, p), b) = rx_event io (start_rx (s.soc_rx i) (s.sock h) i buffer size) s.bg96 in
      after_rx i more (set_rx i p (record s { bg96 = b }))
  recv_in data_available h i buffer size s = finish_rx i s
  recv_in read_active h i buffer size s = (nsapi_error_would_block, s)
  recv_in read_init h i buffer size s = (nsapi_error_would_block, s)
  recv_in read_docb h i buffer size s = (nsapi_error_device_error, s)

  unfoldable pub socket_recv : ℕ → Option (List ℕ) → ℕ → Partial (Iface D) ℤ
  unfolding recv_in
  socket_recv h none size s = some (pos 0, s)
  socket_recv h (some buffer) size s = if ltb size 1 then some (pos 0, s) else elim (s.sock h).id [
    | none ↦ none
    | some i ↦ some (recv_in (s.soc_rx i).state h i buffer size s)
  ]

  unfoldable pub socket_sendto : ℕ → ℕ → Address → Option (List ℕ) → ℕ → Partial (Iface D) ℤ
  socket_sendto rounds h addr bytes size s =
      if (s.sock h).connected
      then socket_send h bytes size s
      else elim (socket_connect io app rounds h addr s) [
        | none ↦ none
        | some (err, s') ↦
            if err ==ℤ nsapi_error_ok then socket_send h bytes size s' else some (err, s')
      ]

  -- The result and, if the socket is connected, its address.
  unfoldable pub socket_recvfrom : ℕ → Option (List ℕ) → ℕ → Partial (Iface D) (ℤ × Option Address)
  socket_recvfrom h buffer size s =
      if (s.sock h).connected
      then elim (socket_recv h buffer size s) [
        | none ↦ none
        | some (n, s') ↦ some ((n, some (s.sock h).addr), s')
      ]
      else some ((nsapi_error_no_connection, none), s)
