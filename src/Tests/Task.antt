-- ===== src/Tests/Task.antt =====
-- The MQTT task over a modem that announces what is published.
use bg96_driver.Prelude.{pos, negsuc, true, false, none, some, List, [], ◌∷◌, ◌++◌, c_str, length}
use bg96_driver.At.{AtParser, int, text}
use bg96_driver.Mqtt.{Client, Handlers}
use bg96_driver.Mqtt.Task.{Publication, Call}
use bg96_driver.Mqtt.Subscriptions.Chain.{Item, linked}
use bg96_driver.Tests.Fixtures.{fresh}

record Hub : Type 0 where
  queue : List Publication
  log : List Call

abbrev hub : AtParser Hub
hub = record {
  send = λ t c d. (true, d);
  recv = λ t c d. elim d.queue [
    | [] ↦ (none, d)
    | p ∷ ps ↦ (
      some (
          int (pos 0)
          ∷ int (pos 1)
          ∷ text (p.path ++ b'/' ∷ p.name)
          ∷ text (b'"' ∷ p.content ++ b'"' ∷ [])
          ∷ []),
      record d { queue = ps },
    )
  ];
  write = λ t b d. (pos (length b), d);
  read = λ t n d. ((pos 0, []), d);
  putc = λ t b d. d;
  getc = λ t d. (negsuc 0, d);
  flush = λ d. d;
  read_ms = λ d. 0;
  wait = λ n d. d;
}

abbrev recording : Handlers Hub
recording f param m c = record c {
  bg96 = record c.bg96 { dev = record c.bg96.dev { log = c.bg96.dev.log ++ (f, param, m) ∷ [] } };
}

abbrev lamp : Item
lamp = record { msg_id = pos 1; qos = pos 0; topic = c_str "lamp/#"; handler = some 7; param = 70 }

abbrev published : List Publication
published =
    record { path = c_str "lamp"; name = c_str "state"; content = c_str "on" }
    ∷ record { path = c_str "door"; name = c_str "state"; content = c_str "open" }
    ∷ []

abbrev serving : Client Hub
serving = record {
  bg96 = record {
    context_id = pos 1;
    timeout = 1000;
    locks = 0;
    bg96_reset = false;
    vbat_3v8_en = true;
    bg96_pwrkey = true;
    dev = record { queue = published; log = [] };
  };
  tls = fresh.tls;
  pdp_ctx_id = pos 1;
  ssl_ctx_id = pos 1;
  mqtt_ctx_id = pos 0;
  options = none;
  sublist = record { first = some 10; node = λ q. some (linked lamp none) };
  nmid = pos 2;
  running = true;
  has_thread = true;
}
