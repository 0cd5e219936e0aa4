-- ===== src/Tests/Delivery.antt =====
-- A transfer from end to end on a modem that keeps what it is given for each socket.
use bg96_driver.Prelude.{
  ℕ, ◌≡◌, ◌⊎◌, refl, arith, ℤ, pos, negsuc, Bool, true, false, some, List, [], ◌∷◌, ◌++◌, length,
  ◌==ℤ◌, if◌then◌else◌, lt→ltb,
}
use bg96_driver.At.{AtParser, int_at, nsapi_error_would_block}
use bg96_driver.Driver.Sockets.Channel.{IsChannel}
use bg96_driver.Interface.{Iface, Application, tx_idle, tcp, udp}
use bg96_driver.Interface.Transfer.{socket_send}
use bg96_driver.Interface.Sockets.{socket_open, find_free, open_slot}
use bg96_driver.Interface.Reach.{Reach, here, next, opens}
use bg96_driver.Interface.Setup.{new_interface}
use bg96_driver.Interface.Delivery.{Spares, serve_all, free_rounds}
use bg96_driver.Interface.Delivery.Send.{socket_send_delivers}
use bg96_driver.Tests.Fixtures.{zeros, length-zeros, socket, idle_rx, idle_tx}

record Wire : Type 0 where
  target : ℤ
  taken : ℕ → List ℕ

-- Every command is taken and answered, and names the socket of the data to come.
abbrev wire : AtParser Wire
wire = record {
  send = λ t c d. (true, record d { target = int_at 0 (pos 0) c.args });
  recv = λ t c d. (some [], d);
  write = λ t b d. (
    pos (length b),
    record d { taken = λ j. if pos j ==ℤ d.target then d.taken j ++ b else d.taken j },
  );
  read = λ t n d. ((pos 0, []), d);
  putc = λ t b d. d;
  getc = λ t d. (negsuc 0, d);
  flush = λ d. d;
  read_ms = λ d. 0;
  wait = λ n d. d;
}

wire-IsChannel : IsChannel wire (λ d. d.target) (λ j d. d.taken j)
wire-IsChannel = record {
  sends = λ t c d. refl;
  aims = λ t id n d. refl;
  aim_kept = λ t c d. refl;
  prompts = λ t d. refl;
  confirms = λ t d. refl;
  takes = λ t b d lt. lt→ltb _ _ lt;
  stores = λ t b d j. refl;
  send_adds_none = λ t c d j. refl;
  recv_adds_none = λ t c d j. refl;
  read_adds_none = λ t n d j. refl;
  getc_adds_none = λ t d j. refl;
}

abbrev idle_app : Application Wire
idle_app f d s = s

idle_app-Spares : Spares (λ j (d : Wire). d.taken j) idle_app
idle_app-Spares = record {
  keeps_events = λ f d s. refl;
  keeps_sockets = λ f d s. refl;
  adds_none = λ f d j s. refl;
}

-- The memory that the constructor finds: the modem has taken nothing.
abbrev memory : Iface Wire
memory = record {
  is_initialized = pos 0;
  queue_id = pos 1;
  scheduled_events = 3;
  pending = 0;
  sock = λ i. socket (some i);
  soc_tx = λ i. idle_tx;
  soc_rx = λ i. idle_rx;
  bg96 = record {
    context_id = pos 1;
    timeout = 1000;
    locks = 0;
    bg96_reset = false;
    vbat_3v8_en = true;
    bg96_pwrkey = true;
    dev = record { target = pos 0; taken = λ j. [] };
  };
  power_off_allowed = true;
  power_off = pos 1;
}

-- Two sockets are opened.
abbrev opened : Iface Wire
opened = (socket_open udp (socket_open tcp (new_interface memory)).1).1

opened-Reach : Reach wire idle_app (new_interface memory) opened
opened-Reach = next (next here (opens tcp _)) (opens udp _)

-- Two pieces: the queue finds the mutex taken once, and then free.
abbrev two_calls : List Bool
two_calls = false ∷ true ∷ []

socket_send_delivers_example :
    let s = opened in
    (v : Iface Wire) × ((socket_send wire idle_app 1 (some (zeros 1502)) 1502 s
        ≡ some (pos 1502, v))
      ⊎ ((t : Iface Wire) × (socket_send wire idle_app 1 (some (zeros 1502)) 1502 s
            ≡ some (nsapi_error_would_block, t))
          × (socket_send wire idle_app 1
                (some (zeros 1502))
                1502
                (serve_all wire idle_app two_calls t)
              ≡ some (pos 1502, v))))
    × (v.bg96.dev.taken 1 ≡ [] ++ zeros 1502)
    × ((v.soc_tx 1).state ≡ tx_idle)
unfolding free_rounds socket_open new_interface find_free open_slot
socket_send_delivers_example =
    socket_send_delivers wire-IsChannel idle_app-Spares (λ done f d s a. a) memory 1 1 (zeros 1502)
      1502 two_calls opened opened-Reach refl refl refl (omega arith) (omega arith) (omega arith)
      (length-zeros 1502) (omega arith)
