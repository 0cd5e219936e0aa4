-- ===== src/Interface/Clients.antt =====
-- BG96Interface.cpp: the TLS socket and the MQTT client that the interface makes once and owns, with
-- the destructor.
use bg96_driver.Prelude.{
  ℕ, ◌+◌, ◌≤◌, ◌≡◌, arith, pos, ◌&&◌, Option, none, some, List, [], ◌∷◌, ◌++◌, if◌then◌else◌, ◌==◌,
  ltb, leb,
}
use bg96_driver.Prelude.State.{St}
use bg96_driver.Tls.{TlsSocket, new_tls_socket}
use bg96_driver.Interface.{update}

-- `_tls`, `_mqtt` and `_fs_imp`, with the memory that `new` takes them from: the next address, the
-- TLS socket at an address, and the TLS socket that the MQTT client at an address points to.
pub record Owned : Type 0 where
  pub tls : Option ℕ
  pub mqtt : Option ℕ
  pub fs_imp : Option ℕ
  pub next : ℕ
  pub sockets : ℕ → TlsSocket
  pub tls_of : ℕ → ℕ

-- What the constructor does of it.
unfoldable pub new_owned : Owned → Owned
new_owned m = record m { tls = none; mqtt = none; fs_imp = some m.next; next = m.next + 1 }

unfoldable pub get_bg96_tls_socket : St Owned ℕ
get_bg96_tls_socket o = elim o.tls [
  | some p ↦ (p, o)
  | none ↦ (
    o.next,
    record o {
      tls = some o.next;
      next = o.next + 1;
      sockets = update o.sockets o.next new_tls_socket;
    },
  )
]

-- `if (tls == NULL) tls = getBG96TLSSocket()`
unfoldable pub given_or_own : Option ℕ → St Owned ℕ
unfolding get_bg96_tls_socket
given_or_own none o = get_bg96_tls_socket o
given_or_own (some p) o = (p, o)

-- `new BG96MQTTClient(bg96, tls)`, whose constructor sets the TLS context of the socket.
unfoldable pub make_mqtt_client : ℕ → St Owned ℕ
make_mqtt_client p o = (
  o.next,
  record o {
    mqtt = some o.next;
    next = o.next + 1;
    tls_of = update o.tls_of o.next p;
    sockets = λ q. if q == p then record (o.sockets q) { sslctx_id = pos 2 } else o.sockets q;
  },
)

unfoldable pub get_bg96_mqtt_client : Option ℕ → St Owned ℕ
unfolding given_or_own make_mqtt_client
get_bg96_mqtt_client tls o = elim o.mqtt [
  | some q ↦ (q, o)
  | none ↦ let (p, o') = given_or_own tls o in make_mqtt_client p o'
]

abbrev pub unless_null : Option ℕ → List ℕ
unless_null none = []
unless_null (some p) = p ∷ []

-- The addresses that the destructor deletes, in order.
unfoldable pub destroy : Owned → List ℕ
destroy o = unless_null o.fs_imp ++ unless_null o.mqtt ++ unless_null o.tls

pub data Call : Type 0 where
  wants_tls : Call
  wants_mqtt : Option ℕ → Call

unfoldable pub answer : Call → St Owned ℕ
answer wants_tls o = get_bg96_tls_socket o
answer (wants_mqtt tls) o = get_bg96_mqtt_client tls o

unfoldable pub answer_all : List Call → Owned → Owned
answer_all [] o = o
answer_all (c ∷ r) o = answer_all r (answer c o).1

-- How often the address is deleted.
unfoldable pub count : ℕ → List ℕ → ℕ
count p [] = 0
count p (q ∷ r) = (if p == q then 1 else 0) + count p r

-- What the interface owns since it was made with the memory from `start` on free.
record IsOwner (start : ℕ) (o : Owned) : Type 0 where
  begun : start ≤ o.next
  once : (p : ℕ) → count p (destroy o) ≡ (if leb start p && ltb p o.next then 1 else 0)

answer-IsOwner : {start : ℕ} (c : Call) (o : Owned) → IsOwner start o → IsOwner start (answer c o).1
unfolding answer get_bg96_tls_socket get_bg96_mqtt_client destroy count
answer-IsOwner wants_tls o v = record {
  begun = ground (arith, v.begun);
  once = λ p. ground (arith, v.once p, v.begun);
}
answer-IsOwner (wants_mqtt none) o v = record {
  begun = ground (arith, v.begun);
  once = λ p. ground (arith, v.once p, v.begun);
}
answer-IsOwner (wants_mqtt (some t)) o v = record {
  begun = ground (arith, v.begun);
  once = λ p. ground (arith, v.once p, v.begun);
}

answer_all-IsOwner :
    {start : ℕ} (calls : List Call) (o : Owned)
    → IsOwner start o
    → IsOwner start (answer_all calls o)
unfolding answer_all
answer_all-IsOwner [] o v = v
answer_all-IsOwner (c ∷ r) o v = answer_all-IsOwner r (answer c o).1 (answer-IsOwner c o v)

new_owned-IsOwner : (m : Owned) → IsOwner m.next (new_owned m)
unfolding new_owned destroy count
new_owned-IsOwner m = record { begun = ground arith; once = λ p. ground arith }

-- Whatever TLS sockets and MQTT clients are asked for, and however often, each object that the
-- interface has made is deleted exactly once by the destructor, and no other address is.
pub destroy-once :
    (calls : List Call) (m : Owned) (p : ℕ)
    → let o = answer_all calls (new_owned m) in
      count p (destroy o) ≡ (if leb m.next p && ltb p o.next then 1 else 0)
destroy-once calls m p = (answer_all-IsOwner calls (new_owned m) (new_owned-IsOwner m)).once p
