-- ===== src/Interface/Sockets.antt =====
-- BG96Interface.cpp: the table of sockets and the connection of a socket.
pub mod Awake
pub mod Table
pub mod Retry
use bg96_driver.Prelude.{
  ℕ, zero, suc, ◌+◌, ℤ, pos, negsuc, Bool, true, false, Option, none, some, List, [], ◌∷◌,
  if◌then◌else◌, ltb,
}
use bg96_driver.At.{
  AtParser, Bg96, nsapi_error_ok, nsapi_error_unsupported, nsapi_error_no_connection,
  nsapi_error_no_socket, nsapi_error_device_error,
}
use bg96_driver.Prelude.Partial.{Partial}
use bg96_driver.Driver.Sockets.{bg96_open, bg96_close}
use bg96_driver.Interface.{
  Socket, Address, Iface, Application, Callback, Protocol, tcp, udp, read_start, tx_idle, slots,
  set_rx, set_tx, set_sock, call_back,
}
use bg96_driver.Interface.Events.{eq_schedule}

-- The first index, if any, whose socket is not in use.
unfoldable pub find_free : List ℕ → (ℕ → Socket) → Option ℕ
find_free [] sock = none
find_free (i ∷ is) sock = elim (sock i).id [ none ↦ some i | some _ ↦ find_free is sock ]

-- The id as it is handed to the modem.
abbrev pub id_int : Option ℕ → ℤ
id_int none = negsuc 0
id_int (some i) = pos i

abbrev pub is_udp : Protocol → Bool
is_udp tcp = false
is_udp udp = true

module _ {D : Type 0} where
  -- socket_open once the index is found.
  unfoldable pub open_slot : ℕ → Protocol → Iface D → Iface D
  open_slot i proto s =
      set_sock i
        (record (s.sock i) {
          id = some i;
          dis_to = false;
          proto = proto;
          connected = false;
          callback = none;
          cb_data = 0;
        })
        (set_rx i (record (s.soc_rx i) { state = read_start })
          (set_tx i (record (s.soc_tx i) { state = tx_idle }) s))

  -- The result and the handle.
  unfoldable pub socket_open : Protocol → Iface D → (ℤ × Option ℕ) × Iface D
  unfolding find_free open_slot
  socket_open proto s = elim (find_free slots s.sock) [
    | none ↦ ((nsapi_error_no_socket, none), s)
    | some i ↦ ((nsapi_error_ok, some i), open_slot i proto s)
  ]

  unfoldable pub socket_attach : ℕ → Callback → ℕ → Iface D → Iface D
  socket_attach h callback cb_data s =
      set_sock h (record (s.sock h) { callback = callback; cb_data = cb_data }) s

  unfoldable pub socket_listen : ℕ → Iface D → ℤ × Iface D
  socket_listen h s =
      if (s.sock h).connected
      then (nsapi_error_no_connection, s)
      else (nsapi_error_ok, eq_schedule (set_sock h (record (s.sock h) { dis_to = true }) s))

  unfoldable pub socket_bind : ℕ → Iface D → ℤ × Iface D
  unfolding socket_listen
  socket_bind h s = socket_listen h s

  unfoldable pub socket_accept : Iface D → ℤ × Iface D
  socket_accept s = (nsapi_error_unsupported, s)

module _ {D : Type 0} (io : AtParser D) where
  -- socket_close of a socket that is in use, under the index `i`.
  close_slot : ℕ → ℕ → Iface D → Iface D
  close_slot h i s =
      let b = (if (s.sock h).connected then (bg96_close io (pos i) s.bg96).1 else s.bg96) in
      set_sock h
        (record (s.sock h) {
          id = none;
          dis_to = false;
          proto = tcp;
          connected = false;
          callback = none;
          cb_data = 0;
        })
        (set_rx i (record (s.soc_rx i) { state = read_start })
          (set_tx i (record (s.soc_tx i) { state = tx_idle }) (record s { bg96 = b })))

  unfoldable pub socket_close : ℕ → Iface D → ℤ × Iface D
  unfolding close_slot
  socket_close h s = elim (s.sock h).id [
    | none ↦ (nsapi_error_device_error, s)
    | some i ↦ (nsapi_error_ok, close_slot h i s)
  ]

  -- `for( k=true, cnt=0; cnt<3 && k; cnt++ )` of socket_connect, from `cnt` on with `left` rounds to
  -- go; the result is the final `cnt`.
  unfoldable pub try_open : ℕ → ℕ → Socket → Address → ℕ → ℕ → Partial (Bg96 D) ℕ
  try_open rounds type sock addr cnt zero b = some (cnt, b)
  try_open rounds type sock addr cnt (suc left) b =
      elim (bg96_open io rounds type (id_int sock.id) addr.ip_address addr.port b) [
        | none ↦ none
        | some (true, b') ↦ some (cnt + 1, b')
        | some (false, b') ↦
            try_open rounds type sock addr (cnt + 1) left (bg96_close io (id_int sock.id) b').1
      ]

  -- socket_connect below the loop.
  unfoldable pub connected_after : Application D → ℕ → Address → ℕ → Iface D → ℤ × Iface D
  connected_after app h addr cnt s =
      if ltb cnt 3
      then (
        nsapi_error_ok,
        call_back app (s.sock h).callback (s.sock h).cb_data
            (set_sock h (record (s.sock h) { addr = addr; connected = true }) s),
      )
      else (nsapi_error_device_error, s)

  unfoldable pub socket_connect : Application D → ℕ → ℕ → Address → Partial (Iface D) ℤ
  socket_connect app rounds h addr s =
      elim (try_open rounds (if is_udp (s.sock h).proto then b'u' else b't') (s.sock h) addr 0 3
        s.bg96) [
          | none ↦ none
          | some (cnt, b) ↦ some (connected_after app h addr cnt (record s { bg96 = b }))
        ]
