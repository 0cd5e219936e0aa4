-- ===== src/Tests/Reception.antt =====
-- A read from end to end on a modem that keeps what has come for each socket.
use bg96_driver.Prelude.{
  ℕ, ◌+◌, ◌<◌, ◌≡◌, ◌⊎◌, refl, arith, ℤ, pos, Bool, true, false, none, some, List, [], ◌∷◌, ◌++◌,
  take, drop, length, ◌==◌, if◌then◌else◌, pos_part, as_int, u32,
}
use bg96_driver.At.{AtParser, int, int_at, nsapi_error_would_block}
use bg96_driver.Driver.Sockets.Source.{IsSource}
use bg96_driver.Interface.{Iface, Application, tcp, udp, data_available}
use bg96_driver.Interface.Events.{clamp}
use bg96_driver.Interface.Sockets.{socket_open, socket_attach, find_free, open_slot}
use bg96_driver.Interface.Transfer.{socket_recv}
use bg96_driver.Interface.Poll.{poll_rx}
use bg96_driver.Interface.Reach.{Reach, here, next, opens, attaches}
use bg96_driver.Interface.Setup.{new_interface}
use bg96_driver.Interface.Reception.{
  Chance, Leaves, Brings, Received, receive_all, arrived, is_served,
}
use bg96_driver.Interface.Reception.Listening.{listening_overwrites}
use bg96_driver.Interface.Reception.Receive.{socket_recv_receives}
use bg96_driver.Tests.Fixtures.{zeros, socket, idle_rx, idle_tx}

record Post : Type 0 where
  target : ℕ
  room : ℕ
  ready : Bool
  boxes : ℕ → List ℕ

abbrev post : AtParser Post
post = record {
  send = λ t c d. (
    true,
    record d {
      target = pos_part (int_at 0 (pos 0) c.args);
      room = pos_part (int_at 1 (pos 0) c.args);
    },
  );
  recv = λ t c d. (some (int (pos (length (take d.room (d.boxes d.target)))) ∷ []), d);
  write = λ t b d. (pos (length b), d);
  read = λ t n d. (
    (pos n, take n (d.boxes d.target)),
    record d { boxes = λ j. if j == d.target then drop n (d.boxes j) else d.boxes j },
  );
  putc = λ t b d. d;
  getc = λ t d. (pos 10, record d { ready = true });
  flush = λ d. d;
  read_ms = λ d. 0;
  wait = λ n d. d;
}

post-IsSource :
    IsSource post (λ d. d.target) (λ d. d.room) (λ d. d.ready) (λ j (d : Post). d.boxes j)
post-IsSource = record {
  asks = λ t i n d. refl;
  aims = λ t i n d. refl;
  limits = λ t i n d. refl;
  announces = λ t d. refl;
  aim_kept = λ t c d. refl;
  readies = λ t d. refl;
  aim_kept_getc = λ t d. refl;
  hands_over = λ t n d r. refl;
  forgets = λ t n d j r. refl;
  closes = λ t d. refl;
  send_keeps = λ t c d j. refl;
  recv_keeps = λ t c d j. refl;
  write_keeps = λ t b d j. refl;
  getc_keeps = λ t d j. refl;
}

abbrev quiet_app : Application Post
quiet_app f d s = s

quiet_app-Leaves : Leaves (λ j (d : Post). d.boxes j) quiet_app
quiet_app-Leaves = record {
  keeps_events = λ f d s. refl;
  keeps_sockets = λ f d s. refl;
  takes_none = λ f d j s. refl;
}

abbrev deliver : (ℕ → List ℕ) → Post → Post
deliver f d = record d { boxes = λ j. d.boxes j ++ f j }

deliver-Brings : Brings (λ j (d : Post). d.boxes j) deliver
deliver-Brings = record { adds = λ f d j. refl }

-- The memory that the constructor finds: nothing has come.
abbrev memory : Iface Post
memory = record {
  is_initialized = pos 0;
  queue_id = pos 1;
  scheduled_events = 3;
  pending = 0;
  sock = λ i. socket (some i);
  soc_tx = λ i. idle_tx;
  soc_rx = λ i. idle_rx;
  bg96 = record {
    context_id = pos 1;
    timeout = 1000;
    locks = 0;
    bg96_reset = false;
    vbat_3v8_en = true;
    bg96_pwrkey = true;
    dev = record { target = 0; room = 0; ready = false; boxes = λ j. [] };
  };
  power_off_allowed = true;
  power_off = pos 1;
}

-- Two sockets are opened, and the second has a callback.
abbrev opened : Iface Post
opened = socket_attach 1 (some 3) 30 (socket_open udp (socket_open tcp (new_interface memory)).1).1

opened-Reach : Reach post quiet_app (new_interface memory) opened
opened-Reach = next (next (next here (opens tcp _)) (opens udp _)) (attaches 1 (some 3) 30 _)

-- Data come for both while the mutex is taken, and then it is free.
abbrev two_chances : List Chance
two_chances =
    record { arrives = λ j. zeros (2 + j); locked = false }
    ∷ record { arrives = λ j. []; locked = true }
    ∷ []

socket_recv_receives_example :
    let s = opened in
    let inbox : ℕ → Post → List ℕ = λ j d. d.boxes j in
    let stream = inbox 1 s.bg96.dev in
    let buffer = zeros 100 in
    ((0 < length stream)
      × (v : Iface Post) × (socket_recv post quiet_app 1 (some buffer) 100 s
          ≡ some (pos (length (take (clamp 100) stream)), v))
      × Received inbox 1 buffer stream (clamp 100) (pos (length (take (clamp 100) stream))) v)
    ⊎ ((stream ≡ [])
        × (t : Iface Post) × (socket_recv post quiet_app 1 (some buffer) 100 s
            ≡ some (nsapi_error_would_block, t))
        × (n : ℤ) × (v : Iface Post) × (socket_recv post quiet_app 1
              (some buffer)
              100
              (receive_all post quiet_app deliver two_chances t)
            ≡ some (n, v))
        × (Received inbox 1 buffer (arrived 1 two_chances) (clamp 100) n v
            ⊎ ((is_served 1 false two_chances ≡ false)
                × (n ≡ nsapi_error_would_block)
                × (inbox 1 v.bg96.dev ≡ arrived 1 two_chances))))
unfolding socket_attach socket_open new_interface find_free open_slot
socket_recv_receives_example =
    socket_recv_receives post-IsSource quiet_app-Leaves (λ done f d s a. a) deliver-Brings memory 1
      1 (zeros 100) 100 two_chances opened opened-Reach refl refl refl (omega arith) (omega arith)

-- Socket 1 listens, three bytes are received, and two more have come.
abbrev listening : Iface Post
listening = record opened {
  soc_rx = λ i. record idle_rx {
    socket_id = i;
    state = data_available;
    dis_to = true;
    req_size = 100;
    dptr = zeros 100;
    callback = none;
    return_cnt = 3;
  };
  bg96 = record memory.bg96 {
    dev = record { target = 0; room = 0; ready = false; boxes = λ j. zeros 2 };
  };
}

listening_overwrites_example :
    let t = (poll_rx post 1 false listening).1 in
    (v : Iface Post) × (socket_recv post quiet_app 1 (some (zeros 50)) 50 t
      ≡ some (as_int (u32 (3 + 2)), v))
    × ((v.soc_rx 1).dptr ≡ zeros 2 ++ drop 2 (zeros 100))
unfolding socket_attach socket_open new_interface find_free open_slot
listening_overwrites_example =
    listening_overwrites post-IsSource quiet_app 1 1 (zeros 50) 50 false listening refl refl refl
      refl (omega arith) (omega arith) (omega arith)
