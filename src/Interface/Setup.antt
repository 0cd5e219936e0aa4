-- ===== src/Interface/Setup.antt =====
-- BG96Interface.cpp: the constructor, the socket options, the queries that are passed on to the
-- modem, and connect without arguments.
pub mod Options
pub mod Start
use bg96_driver.Prelude.{
  ℕ, zero, suc, ℤ, pos, negsuc, ◌==ℤ◌, ◌-ℤ◌, Bool, true, false, ◌&&◌, Option, none, some, List, [],
  if◌then◌else◌, ltb, ◌==◌, CStr,
}
use bg96_driver.Prelude.State.{St}
use bg96_driver.Prelude.Partial
use bg96_driver.Prelude.Partial.{Partial}
use bg96_driver.At.{
  AtParser, Arg, Bg96, int_at, nsapi_error_ok, nsapi_error_no_connection, nsapi_error_parameter,
  nsapi_error_unsupported,
}
use bg96_driver.Driver.Network
use bg96_driver.Driver.Info
use bg96_driver.Driver.Info.{get_rev, get_lates_sync_time}
use bg96_driver.Driver.Power.{startup, power_on_gnss}
use bg96_driver.Gnss.{Tm}
use bg96_driver.Interface.{Iface, Protocol, tcp, udp, read_start, tx_idle, set_sock, socket_count}
use bg96_driver.Interface.Connect.{connect}

-- The constructor, over what the memory of the object and of its BG96 holds.
unfoldable pub new_interface : {D : Type 0} → Iface D → Iface D
new_interface m = record m {
  is_initialized = nsapi_error_no_connection;
  queue_id = negsuc 0;
  scheduled_events = 0;
  pending = 0;
  sock = λ i.
      if ltb i socket_count
      then record (m.sock i) { id = none; dis_to = false; connected = false }
      else m.sock i;
  soc_rx = λ i.
      if ltb i socket_count
      then record (m.soc_rx i) { state = read_start; dis_to = false }
      else m.soc_rx i;
  soc_tx = λ i. if ltb i socket_count then record (m.soc_tx i) { state = tx_idle } else m.soc_tx i;
  power_off = pos 0;
}

-- The option names of mbed OS that the driver knows, and the others.
pub data OptName : Type 0 where
  reuseaddr keepalive keepidle keepintvl linger sndbuf rcvbuf add_membership drop_membership other :
      OptName

abbrev is_rcvbuf : OptName → Bool
is_rcvbuf rcvbuf = true
is_rcvbuf _ = false

abbrev is_tcp : Protocol → Bool
is_tcp tcp = true
is_tcp udp = false

module _ {D : Type 0} where
  -- `socket_level` is whether the level is NSAPI_SOCKET, and `pointer_size` is `sizeof(void *)`.
  unfoldable pub setsockopt : ℕ → Option ℕ → Bool → OptName → Option ℕ → ℕ → St (Iface D) ℤ
  setsockopt pointer_size none socket_level optname optval optlen s = (nsapi_error_parameter, s)
  setsockopt pointer_size (some h) socket_level optname optval optlen s =
      if optlen == 0
      then (nsapi_error_parameter, s)
      else if socket_level && is_tcp (s.sock h).proto && is_rcvbuf optname
      then (if optlen == pointer_size
          then (
            nsapi_error_ok,
            set_sock h (record (s.sock h) { dptr_last = optval; dptr_size = optlen }) s,
          )
          else (nsapi_error_parameter, s))
      else (nsapi_error_unsupported, s)

  -- `optval` is null or what the memory there holds, and `optlen` likewise. With the result stands
  -- what they hold then: the assignment to the parameter `optval` does not reach the caller.
  unfoldable pub getsockopt :
      Option ℕ
      → Bool
      → OptName
      → Option (Option ℕ)
      → Option ℕ
      → Iface D
      → ℤ × Option (Option ℕ) × Option ℕ
  getsockopt (some h) socket_level optname (some value) (some len) s =
      if socket_level && is_tcp (s.sock h).proto && is_rcvbuf optname
      then (nsapi_error_ok, some value, some (s.sock h).dptr_size)
      else (nsapi_error_unsupported, some value, some len)
  getsockopt _ socket_level optname optval optlen s = (nsapi_error_parameter, optval, optlen)

module _ {D : Type 0} (io : AtParser D) where
  abbrev on_modem : {A : Type 0} → St (Bg96 D) A → St (Iface D) A
  on_modem f s = let (a, b) = f s.bg96 in (a, record s { bg96 = b })

  abbrev on_modem_partial : {A : Type 0} → Partial (Bg96 D) A → Partial (Iface D) A
  on_modem_partial f s = elim (f s.bg96) [
    | none ↦ none
    | some (a, b) ↦ some (a, record s { bg96 = b })
  ]

  unfoldable pub get_rssi : St (Iface D) ℤ
  get_rssi s = on_modem (Network.get_rssi io) s

  unfoldable pub get_ip_address : CStr → St (Iface D) (Bool × CStr)
  get_ip_address ip s = on_modem (Network.get_ip_address io ip) s

  -- `mac` is what the static array of 25 characters holds.
  unfoldable pub get_mac_address : List ℕ → Partial (Iface D) (List ℕ)
  get_mac_address mac s = on_modem_partial (Info.get_mac_address io mac) s

  unfoldable pub get_revision : St (Iface D) (Option CStr)
  get_revision s = on_modem (get_rev io) s

  unfoldable pub initialize_bg96 : ℕ → Partial (Iface D) Bool
  initialize_bg96 rounds s = on_modem_partial (startup io rounds) s

  unfoldable pub initialize_gnss : ℕ → Partial (Iface D) Bool
  initialize_gnss rounds s = on_modem_partial (power_on_gnss io rounds) s

  -- `while(!_BG96.isConnected()) {}`
  unfoldable pub await_connected : ℕ → Iface D → Option (Iface D)
  await_connected zero s = none
  await_connected (suc rounds) s =
      let (up, s') = on_modem (Network.is_connected io) s in
      let rest = await_connected rounds s' in if up then some s' else rest

  -- BG96Interface::connect(void), without the macros for a user and a password; `null_text` is what
  -- the C library prints for a null pointer.
  unfoldable pub connect_default : ℕ → ℤ → CStr → CStr → Partial (Iface D) ℤ
  connect_default rounds monitor default_apn null_text s =
      if s.is_initialized ==ℤ nsapi_error_no_connection
      then (let (_, s₁) = get_revision s in
          elim (connect io rounds monitor default_apn null_text null_text s₁) [
            | none ↦ none
            | some (ret, s₂) ↦ elim (await_connected rounds s₂) [
              | none ↦ none
              | some s₃ ↦ some (ret, s₃)
            ]
          ])
      else elim (await_connected rounds s) [ none ↦ none | some s₁ ↦ some (nsapi_error_ok, s₁) ]

  -- BG96Interface::getNetworkGMTTime: the result and `*gmttime`. `t` and `dst` are what the local
  -- variables hold, `scan` and `scan_date` give what the conversions of the two calls of sscanf
  -- read, and `mktime` is the C library's.
  unfoldable pub get_network_gmt_time :
      (CStr → List Arg) → (CStr → List Arg) → (Tm → ℤ) → Tm → ℤ → ℤ → St (Iface D) (ℤ × ℤ)
  get_network_gmt_time scan scan_date mktime t dst gmttime s =
      let ((error, timestr, _), s') = on_modem (get_lates_sync_time io scan [] dst) s in
      let read = scan_date timestr in
      if error ==ℤ nsapi_error_ok
      then (
        (
          nsapi_error_ok,
          mktime (record {
            year = int_at 0 t.year read -ℤ pos 1900;
            mon = int_at 1 t.mon read;
            mday = int_at 2 t.mday read;
            hour = int_at 3 t.hour read;
            min = int_at 4 t.min read;
            sec = int_at 5 t.sec read;
          }),
        ),
        s',
      )
      else ((error, gmttime), s')
