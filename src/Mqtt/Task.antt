-- ===== src/Mqtt/Task.antt =====
-- MQTT/BG96MQTTClient.cpp: the loop of mqtt_task over a modem that hands on what is published.
use bg96_driver.Prelude.{
  ℕ, ◌+◌, ◌≤◌, ◌≡◌, ℤ, Bool, true, false, not, ◌&&◌, ◌||◌, ltb, ◌<◌, Option, none, some, List, [],
  ◌∷◌, ◌++◌, length, elem, CStr,
}
use bg96_driver.At.{AtParser, Command, int, text, plain}
use bg96_driver.Driver.Mqtt.Receive.{Received}
use bg96_driver.Mqtt.{Client, Handlers}
use bg96_driver.Mqtt.Subscriptions.Chain.{Item, Items, Chain}
use bg96_driver.Mqtt.Subscribe.{handler_for}

-- A text that is published under `path`/`name`.
pub record Publication : Type 0 where
  pub path : CStr
  pub name : CStr
  pub content : CStr

-- What the driver makes of it.
abbrev pub as_received : Publication → Received
as_received p = record {
  topic = (p.path ++ b'/' ∷ []) ++ b'#' ∷ [];
  topic_len = length p.path + 2;
  payload = p.content;
  payload_len = length p.content + 1;
}

-- White space of scanf.
abbrev is_space : ℕ → Bool
is_space c = (ltb 8 c && ltb c 14) || (ltb 31 c && ltb c 33)

abbrev is_word : CStr → Bool
is_word [] = true
is_word (c ∷ cs) = not (is_space c) && is_word cs

-- What the format of the announcement can read: a topic without a quote that fits into its buffer,
-- and a text without white space, which with its quotes fits into the buffer of the payload.
pub record IsReadable (p : Publication) : Type 0 where
  pub unquoted : elem b'"' (p.path ++ b'/' ∷ p.name) ≡ false
  pub short : length (p.path ++ b'/' ∷ p.name) ≤ 255
  pub one_word : is_word p.content ≡ true
  pub fits : length p.content + 3 ≤ 1548

-- The names are not empty and have no '/', and all can be read.
abbrev pub AreNames : List Publication → Type 0
AreNames [] = Unit {0}
AreNames (p ∷ ps) = ((elem b'/' p.name ≡ false) × (0 < length p.name) × IsReadable p) × AreNames ps

-- A call of a handler: its number, its parameter and the message.
abbrev pub Call : Type 0
Call = ℕ × ℕ × Received

abbrev pub call_for : Item → Items → Publication → Option Call
call_for i r p = elim (handler_for (as_received p).topic i r) [
  | none ↦ none
  | some (f, param) ↦ some (f, param, as_received p)
]

abbrev pub as_list : Option Call → List Call
as_list none = []
as_list (some x) = x ∷ []

-- The calls that are due for what is published.
abbrev pub calls : Item → Items → List Publication → List Call
calls i r [] = []
calls i r (p ∷ ps) = as_list (call_for i r p) ++ calls i r ps

abbrev pub announcement : Command
announcement = plain "+QMTRECV: %d,%d,\"%256[^\"]\",%s\n"

-- The modem announces what is published for the client `id`, the topic and the quoted text, each once
-- and in order, and the parser reads what its format can read; `queue` is what it has not yet announced, and `log` the calls of handlers so far.
pub record IsBroker {D : Type 0} (io : AtParser D) (id : ℤ) (queue : D → List Publication)
    (log : D → List Call) : Type 0 where
  pub silent :
      (t : ℕ) (d : D)
      → queue d ≡ []
      → ((io.recv t announcement d).0 ≡ none) × (queue (io.recv t announcement d).1 ≡ [])
  pub announces :
      (t : ℕ) (d : D) (p : Publication) (ps : List Publication)
      → IsReadable p
      → queue d ≡ p ∷ ps
      → ((n : ℤ) × ((io.recv t announcement d).0
            ≡ some (
                int id
                ∷ int n
                ∷ text (p.path ++ b'/' ∷ p.name)
                ∷ text (b'"' ∷ p.content ++ b'"' ∷ [])
                ∷ [])))
        × (queue (io.recv t announcement d).1 ≡ ps)
  pub calls_none : (t : ℕ) (d : D) → log (io.recv t announcement d).1 ≡ log d
  pub wait_keeps : (n : ℕ) (d : D) → (queue (io.wait n d) ≡ queue d) × (log (io.wait n d) ≡ log d)

-- The handlers are recorded, and leave the client's subscriptions, its state and the queue alone.
pub record AreRecorded {D : Type 0} (handlers : Handlers D) (queue : D → List Publication)
    (log : D → List Call) : Type 0 where
  pub keeps_list :
      (f param : ℕ) (m : Received) (c : Client D) → (handlers f param m c).sublist ≡ c.sublist
  pub keeps_running :
      (f param : ℕ) (m : Received) (c : Client D) → (handlers f param m c).running ≡ c.running
  pub keeps_id :
      (f param : ℕ) (m : Received) (c : Client D)
      → (handlers f param m c).mqtt_ctx_id ≡ c.mqtt_ctx_id
  pub keeps_queue :
      (f param : ℕ) (m : Received) (c : Client D)
      → queue (handlers f param m c).bg96.dev ≡ queue c.bg96.dev
  pub records :
      (f param : ℕ) (m : Received) (c : Client D)
      → log (handlers f param m c).bg96.dev ≡ log c.bg96.dev ++ (f, param, m) ∷ []

-- The task runs on the subscriptions; `ps` is still to come.
pub record IsServing {D : Type 0} (id : ℤ) (queue : D → List Publication) (items : Items)
    (ps : List Publication) (c : Client D) : Type 0 where
  pub running : c.running ≡ true
  pub own : c.mqtt_ctx_id ≡ id
  pub subscribed : Chain c.sublist.node c.sublist.first items
  pub to_come : queue c.bg96.dev ≡ ps
