-- ===== src/Interface/Reception.antt =====
-- BG96Interface.cpp: a read from socket_recv through the rounds of the event queue to its end, over a
-- modem to which data come for its sockets at any time.
pub mod Attempt
pub mod Rounds
pub mod Queue
pub mod Serve
pub mod Told
pub mod First
pub mod Receive
pub mod Listening
use bg96_driver.Prelude.{
  ℕ, ◌≤◌, ◌≡◌, ◌⊎◌, ℤ, pos, Bool, true, false, ◌&&◌, ◌||◌, List, [], ◌∷◌, ◌++◌, drop, length, ltb,
}
use bg96_driver.At.{AtParser}
use bg96_driver.Interface.{
  Iface, Application, RxEvent, RxState, read_start, read_active, read_docb, data_available,
}
use bg96_driver.Interface.Poll.Steps.{Heard}
use bg96_driver.Interface.Delivery.{serve}

-- The read is complete, and its callback is called or yet to be called.
abbrev pub is_complete : RxState → Bool
is_complete data_available = true
is_complete read_docb = true
is_complete _ = false

-- The read is complete, and socket_recv has not yet been told: what was got stands at the start of the
-- buffer, and with what the modem still has it makes the stream.
pub record IsFetched (buffer stream : List ℕ) (room : ℕ) (p : RxEvent) (left : List ℕ)
    : Type 0 where
  pub complete : is_complete p.state ≡ true
  pub deaf : p.dis_to ≡ false
  pub got : List ℕ
  pub counted : p.return_cnt ≡ length got
  pub stored : p.dptr ≡ got ++ drop (length got) buffer
  pub split : got ++ left ≡ stream
  pub fits : length got ≤ room

-- It has begun, and nothing has been taken from the stream.
pub record IsBegun (i : ℕ) (buffer stream : List ℕ) (room : ℕ) (p : RxEvent) (left : List ℕ)
    : Type 0 where
  pub deaf : p.dis_to ≡ false
  pub of_socket : p.socket_id ≡ i
  pub uncounted : p.return_cnt ≡ 0
  pub stored : p.dptr ≡ buffer
  pub asked : p.req_size ≡ room
  pub whole : left ≡ stream

-- Besides, it is under way.
abbrev pub IsWaiting : ℕ → List ℕ → List ℕ → ℕ → RxEvent → List ℕ → Type 0
IsWaiting i buffer stream room p left =
    (p.state ≡ read_active) × IsBegun i buffer stream room p left

-- `may_wait` is whether it may still be under way.
abbrev pub Reads : ℕ → List ℕ → List ℕ → ℕ → Bool → RxEvent → List ℕ → Type 0
Reads i buffer stream room may_wait p left =
    IsFetched buffer stream room p left
    ⊎ ((may_wait ≡ true) × IsWaiting i buffer stream room p left)

-- The reads that the rounds attempt are on their own sockets, and that of socket `i` is under way or
-- complete; `inbox` is what the modem has for each socket.
pub record IsReading {D : Type 0} (inbox : ℕ → D → List ℕ) (i : ℕ) (buffer stream : List ℕ)
    (room : ℕ) (may_wait : Bool) (s : Iface D) : Type 0 where
  pub heard : Heard s
  pub status : Reads i buffer stream room may_wait (s.soc_rx i) (inbox i s.bg96.dev)

-- What socket_recv reports as `n`: it stands at the start of the buffer, and with what the modem still
-- has it makes the stream. The socket is idle.
abbrev pub Received :
    {D : Type 0} → (ℕ → D → List ℕ) → ℕ → List ℕ → List ℕ → ℕ → ℤ → Iface D → Type 0
Received inbox i buffer stream size n v =
    (got : List ℕ) × (n ≡ pos (length got))
    × ((v.soc_rx i).dptr ≡ got ++ drop (length got) buffer)
    × (got ++ inbox i v.bg96.dev ≡ stream)
    × (length got ≤ size)
    × ((v.soc_rx i).state ≡ read_start)

-- The application's callbacks read nothing, and leave the table of sockets alone.
pub record Leaves {D : Type 0} (inbox : ℕ → D → List ℕ) (app : Application D) : Type 0 where
  pub keeps_events : (f d : ℕ) (s : Iface D) → (app f d s).soc_rx ≡ s.soc_rx
  pub keeps_sockets : (f d : ℕ) (s : Iface D) → (app f d s).sock ≡ s.sock
  pub takes_none : (f d j : ℕ) (s : Iface D) → inbox j (app f d s).bg96.dev ≡ inbox j s.bg96.dev

-- Data come to the modem; they add to what it has, and leave it otherwise as it is to the driver.
pub record Brings {D : Type 0} (inbox : ℕ → D → List ℕ) (arrive : (ℕ → List ℕ) → D → D)
    : Type 0 where
  pub adds : (f : ℕ → List ℕ) (d : D) (j : ℕ) → inbox j (arrive f d) ≡ inbox j d ++ f j

-- Data come, and then the queue may make a call that finds the mutex free or not.
pub record Chance : Type 0 where
  pub arrives : ℕ → List ℕ
  pub locked : Bool

module _ {D : Type 0} (io : AtParser D) (app : Application D) (arrive : (ℕ → List ℕ) → D → D) where
  abbrev pub bring : Chance → Iface D → Iface D
  bring c s = record s { bg96 = record s.bg96 { dev = arrive c.arrives s.bg96.dev } }

  unfoldable pub receive_all : List Chance → Iface D → Iface D
  receive_all [] s = s
  receive_all (c ∷ cs) s = receive_all cs (serve io app c.locked (bring c s))

-- What comes for a socket in all.
unfoldable pub arrived : ℕ → List Chance → List ℕ
arrived i [] = []
arrived i (c ∷ cs) = c.arrives i ++ arrived i cs

-- A call finds the mutex free when something has come for the socket; `some_left` is whether
-- something had come before.
unfoldable pub is_served : ℕ → Bool → List Chance → Bool
is_served i some_left [] = false
is_served i some_left (c ∷ cs) =
    let now = some_left || ltb 0 (length (c.arrives i)) in
    let rest = is_served i now cs in (now && c.locked) || rest
