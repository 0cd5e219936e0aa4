-- ===== src/Interface.antt =====
-- class BG96Interface (BG96Interface.h, BG96Interface.cpp): its state. The members of the arrays
-- g_sock, g_socTx and g_socRx stand under their index, and a handle is the index of a socket.
pub mod Events
pub mod Sockets
pub mod Transfer
pub mod Poll
pub mod Session
pub mod Files
pub mod Connect
pub mod Setup
pub mod Reach
pub mod Delivery
pub mod Reception
pub mod Clients
use bg96_driver.Prelude.{ℕ, ℤ, Bool, Option, none, some, List, [], ◌∷◌, if◌then◌else◌, ◌==◌, CStr}
use bg96_driver.At.{Bg96}

pub data RxState : Type 0 where
  read_init read_start read_active read_docb data_available : RxState

pub data TxState : Type 0 where
  tx_idle tx_starting tx_active tx_complete tx_docb : TxState

pub data Protocol : Type 0 where
  tcp udp : Protocol

-- What the driver reads of an mbed SocketAddress.
pub record Address : Type 0 where
  pub ip_address : CStr
  pub port : ℤ

-- A `void (*)(void *)` that may be null, as the number of the function.
abbrev pub Callback : Type 0
Callback = Option ℕ

-- RXEVENT; `dptr` is what the buffer at m_rx_dptr holds.
pub record RxEvent : Type 0 where
  pub state : RxState
  pub socket_id : ℕ
  pub dptr : List ℕ
  pub req_size : ℕ
  pub total_cnt : ℕ
  pub timer : ℕ
  pub dis_to : Bool
  pub callback : Callback
  pub cb_data : ℕ
  pub return_cnt : ℕ

-- TXEVENT; `dptr` is what the user's buffer holds from m_tx_dptr on.
pub record TxEvent : Type 0 where
  pub state : TxState
  pub socket_id : ℕ
  pub dptr : List ℕ
  pub orig_size : ℕ
  pub req_size : ℕ
  pub total_sent : ℕ
  pub callback : Callback
  pub cb_data : ℕ

-- BG96SOCKET; `none` is the id -1, and the null pointer.
pub record Socket : Type 0 where
  pub id : Option ℕ
  pub addr : Address
  pub dis_to : Bool
  pub proto : Protocol
  pub connected : Bool
  pub callback : Callback
  pub cb_data : ℕ
  pub dptr_last : Option ℕ
  pub dptr_size : ℕ

-- `pending` is the number of calls of g_eq_event that wait in `_bg96_queue`.
pub record Iface (D : Type 0) : Type 0 where
  pub is_initialized : ℤ
  pub queue_id : ℤ
  pub scheduled_events : ℕ
  pub pending : ℕ
  pub sock : ℕ → Socket
  pub soc_tx : ℕ → TxEvent
  pub soc_rx : ℕ → RxEvent
  pub bg96 : Bg96 D
  pub power_off_allowed : Bool
  pub power_off : ℤ

-- What a callback of the application does when it is called: it may call the driver again.
abbrev pub Application : Type 0 → Type 0
Application D = ℕ → ℕ → Iface D → Iface D

-- BG96_SOCKET_COUNT, and the indices of the arrays.
abbrev pub socket_count : ℕ
socket_count = 5

abbrev pub slots : List ℕ
slots = 0 ∷ 1 ∷ 2 ∷ 3 ∷ 4 ∷ []

-- BG96::BG96_BUFF_SIZE
abbrev pub buff_size : ℕ
buff_size = 1500

-- A write to a member of an array.
abbrev pub update {ℓ} : {A : Type ℓ} → (ℕ → A) → ℕ → A → ℕ → A
update f i v j = if j == i then v else f j

module _ {D : Type 0} where
  abbrev pub set_rx : ℕ → RxEvent → Iface D → Iface D
  set_rx i p s = record s { soc_rx = update s.soc_rx i p }

  abbrev pub set_tx : ℕ → TxEvent → Iface D → Iface D
  set_tx i p s = record s { soc_tx = update s.soc_tx i p }

  abbrev pub set_sock : ℕ → Socket → Iface D → Iface D
  set_sock i p s = record s { sock = update s.sock i p }

-- A call through a function pointer; the driver calls it only where it has found it not null.
abbrev pub call_back : {D : Type 0} → Application D → Callback → ℕ → Iface D → Iface D
call_back app none d s = s
call_back app (some f) d s = app f d s
