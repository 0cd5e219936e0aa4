-- ===== src/Tests/Fixtures.antt =====
-- Modems, an application and interfaces to run the model on. The state of a modem is its clock.
use bg96_driver.Prelude.{
  ℕ, zero, suc, ◌+◌, ◌≡◌, refl, arith, pos, negsuc, true, false, Option, none, some, List, [], ◌∷◌,
  length, ltb, if◌then◌else◌,
}
use bg96_driver.At.{AtParser, Bg96, Arg, int}
use bg96_driver.Mqtt.{Client}
use bg96_driver.Tls.{new_tls_socket}
use bg96_driver.Interface.{RxEvent, TxEvent, Socket, Iface, Application, tcp, read_start, tx_idle}

-- A modem that takes every command and byte, and answers each wait with the values of `vs`, or,
-- where these are missing, lets it time out.
abbrev pub modem : Option (List Arg) → AtParser ℕ
modem vs = record {
  send = λ t c d. (true, d);
  recv = λ t c d. (vs, elim vs [ none ↦ d + t | some _ ↦ d ]);
  write = λ t b d. (pos (length b), d);
  read = λ t n d. ((pos 0, []), d);
  putc = λ t b d. d + 1;
  getc = λ t d. (negsuc 0, d);
  flush = λ d. d;
  read_ms = λ d. d;
  wait = λ n d. d + n;
}

abbrev pub silent : AtParser ℕ
silent = modem none

abbrev pub obliging : AtParser ℕ
obliging = modem (some [])

-- A modem that answers every wait with the number 0.
abbrev pub answering : AtParser ℕ
answering = modem (some (int (pos 0) ∷ []))

-- One that answers with the number 0 from the time `k` on, and is silent before.
abbrev pub late : ℕ → AtParser ℕ
late k = record answering {
  recv = λ t c d. if ltb d k then (none, d + t) else (some (int (pos 0) ∷ []), d);
}

abbrev pub at_rest : Bg96 ℕ
at_rest = record {
  context_id = pos 1;
  timeout = 1000;
  locks = 0;
  bg96_reset = false;
  vbat_3v8_en = true;
  bg96_pwrkey = true;
  dev = 0;
}

abbrev pub zeros : ℕ → List ℕ
zeros zero = []
zeros (suc n) = 0 ∷ zeros n

pub length-zeros : (n : ℕ) → length (zeros n) ≡ n
length-zeros zero = refl
length-zeros (suc n) = omega (arith, length-zeros n)

abbrev pub idle_rx : RxEvent
idle_rx = record {
  state = read_start;
  socket_id = 0;
  dptr = [];
  req_size = 0;
  total_cnt = 0;
  timer = 0;
  dis_to = false;
  callback = none;
  cb_data = 0;
  return_cnt = 0;
}

abbrev pub idle_tx : TxEvent
idle_tx = record {
  state = tx_idle;
  socket_id = 0;
  dptr = [];
  orig_size = 0;
  req_size = 0;
  total_sent = 0;
  callback = none;
  cb_data = 0;
}

abbrev pub socket : Option ℕ → Socket
socket id = record {
  id = id;
  addr = record { ip_address = []; port = pos 80 };
  dis_to = false;
  proto = tcp;
  connected = false;
  callback = none;
  cb_data = 0;
  dptr_last = none;
  dptr_size = 0;
}

-- An interface with the given table of sockets.
abbrev pub interface : (ℕ → Socket) → Iface ℕ
interface sock = record {
  is_initialized = pos 0;
  queue_id = pos 1;
  scheduled_events = 0;
  pending = 0;
  sock = sock;
  soc_tx = λ i. idle_tx;
  soc_rx = λ i. idle_rx;
  bg96 = at_rest;
  power_off_allowed = true;
  power_off = pos 1;
}

abbrev pub none_open : Iface ℕ
none_open = interface (λ i. socket none)

abbrev pub all_open : Iface ℕ
all_open = interface (λ i. socket (some i))

-- An application whose callbacks do nothing.
abbrev pub passive : Application ℕ
passive f d s = s

-- An MQTT client as its constructor leaves it, but for the message identifier.
abbrev pub fresh : Client ℕ
fresh = record {
  bg96 = at_rest;
  tls = new_tls_socket;
  pdp_ctx_id = pos 1;
  ssl_ctx_id = pos 2;
  mqtt_ctx_id = pos 0;
  options = none;
  sublist = record { first = none; node = λ q. none };
  nmid = pos 3;
  running = false;
  has_thread = false;
}
