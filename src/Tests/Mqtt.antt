-- ===== src/Tests/Mqtt.antt =====
-- Subscriptions and connections of an MQTT client on concrete modems.
use bg96_driver.Prelude.{
  CStr, ℕ, ◌≡◌, ◌⊎◌, refl, arith, ℤ, pos, true, Option, none, some, [], ◌∷◌, if◌then◌else◌, ◌==◌,
  c_str,
}
use bg96_driver.At.{nsapi_error_ok}
use bg96_driver.Driver.Mqtt.{mqtt_subscribe, mqtt_unsubscribe}
use bg96_driver.Driver.Mqtt.Receive.{Received}
use bg96_driver.Mqtt.{
  Client, Options, subscribe, subscribe_node, get_next_message_id, unsubscribe, handler_of,
}
use bg96_driver.Mqtt.Reach.{
  AtMostOne, Reach, here, next, subscribes, Reach-AtMostOne, Reach-returns,
}
use bg96_driver.Mqtt.Session.{configure_mqtt}
use bg96_driver.Mqtt.Configure.{configure_mqtt_blind}
use bg96_driver.Mqtt.Subscriptions.{
  Subscription, Sublist, set_node, find_from, append_subscription, append_after,
  find_subscription_by_topic, remove_subscription,
}
use bg96_driver.Mqtt.Subscriptions.Chain.{Item, Items, linked, Chain}
use bg96_driver.Mqtt.Subscriptions.Find.{first_or_last, find_subscription_by_topic-Chain}
use bg96_driver.Mqtt.Subscriptions.Picked.{picked, others}
use bg96_driver.Mqtt.Subscriptions.Update.{remove_subscription-Chain}
use bg96_driver.Mqtt.Subscribe.{handler_for, subscribe-another, handler_of-Chain}
use bg96_driver.Mqtt.Unsubscribe.{unsubscribe-Chain, unsubscribe-subscribe}
use bg96_driver.Tests.Fixtures.{fresh, silent, obliging, at_rest}

-- Two subscriptions, at the addresses 10 and 20.
abbrev door : Item
door = record {
  msg_id = pos 1;
  qos = pos 0;
  topic = c_str "door/state";
  handler = some 7;
  param = 70;
}

abbrev lamp : Item
lamp = record door { msg_id = pos 2; topic = c_str "lamp/state"; handler = some 8 }

abbrev both : Items
both = (10, door) ∷ (20, lamp) ∷ []

abbrev memory : ℕ → Option Subscription
memory q =
    if q == 10
    then some (linked door (some 20))
    else if q == 20
    then some (linked lamp none)
    else none

abbrev subscribed : Sublist
subscribed = record { first = some 10; node = memory }

both-Chain : Chain memory (some 10) both
both-Chain = (some 20, refl, refl, (none, refl, refl, refl))

-- A client without subscriptions, and one with the two.
abbrev client : Client ℕ
client = record fresh { sublist = subscribed }

abbrev message : Received
message = record {
  topic = c_str "lamp/level";
  topic_len = 10;
  payload = b'1' ∷ [];
  payload_len = 1;
}

find_subscription_by_topic-Chain_example :
    find_subscription_by_topic 2 (c_str "lamp/x") subscribed
    ≡ some (first_or_last (c_str "lamp/x") both, subscribed)
find_subscription_by_topic-Chain_example =
    find_subscription_by_topic-Chain 2 (c_str "lamp/x") both subscribed refl (refl, (refl, tt))
      (omega arith) both-Chain

remove_subscription-Chain_example :
    (l' : Sublist) × (remove_subscription 1 (some 20) subscribed ≡ some (true, l'))
    × Chain l'.node l'.first ((10, door) ∷ [])
remove_subscription-Chain_example =
    remove_subscription-Chain 1 20 lamp ((10, door) ∷ []) [] subscribed (omega arith)
      (refl, (refl, tt)) both-Chain

subscribe-another_example :
    (t : Client ℕ) × (subscribe silent 2 (some (30, none)) (c_str "gate/x") (pos 0) none 0 client
      ≡ some (nsapi_error_ok, t))
    × (t.bg96 ≡ client.bg96)
    × Chain t.sublist.node t.sublist.first both
subscribe-another_example =
    subscribe-another silent 2 30 none (c_str "gate/x") (pos 0) none 0 10 door ((20, lamp) ∷ [])
      client refl (refl, (refl, tt)) (omega arith) refl both-Chain

handler_of-Chain_example :
    handler_of silent 2 message client
    ≡ some (handler_for message.topic door ((20, lamp) ∷ []), client)
handler_of-Chain_example =
    handler_of-Chain silent 2 message 10 door ((20, lamp) ∷ []) client refl (refl, (refl, tt))
      (omega arith) both-Chain

unsubscribe-Chain_example :
    let j = picked (c_str "lamp/x") door ((20, lamp) ∷ []) in
    let (rc, b) = mqtt_unsubscribe obliging client.mqtt_ctx_id j.topic j.msg_id client.bg96 in
    (t : Client ℕ) × (unsubscribe obliging 2 (c_str "lamp/x") client ≡ some (rc, t))
    × (t.bg96 ≡ b)
    × Chain t.sublist.node t.sublist.first (others (c_str "lamp/x") 10 door ((20, lamp) ∷ []))
unsubscribe-Chain_example =
    unsubscribe-Chain obliging 2 (c_str "lamp/x") 10 door ((20, lamp) ∷ []) client refl
      (refl, (refl, tt)) (omega arith) (refl, (refl, tt)) both-Chain

unsubscribe-subscribe_example :
    (t u : Client ℕ) × (subscribe obliging 1
        (some (10, none))
        (c_str "door/x")
        (pos 0)
        (some 7)
        70
        fresh
      ≡ some ((mqtt_subscribe obliging (pos 0) (c_str "door/x") (pos 0) (pos 3) at_rest).0, t))
    × (unsubscribe obliging 1 (c_str "lamp/x") t
        ≡ some ((mqtt_unsubscribe obliging t.mqtt_ctx_id (c_str "door/x") (pos 3) t.bg96).0, u))
    × (u.sublist.first ≡ none)
unsubscribe-subscribe_example =
    unsubscribe-subscribe obliging 1 10 (c_str "door/x") (c_str "lamp/x") (pos 0) (some 7) 70 fresh
      refl refl refl (omega arith)

-- The options of BG96MQTTClientOptions_Initializer, with a will.
abbrev options : Options
options = record {
  version = pos 4;
  keepalive = pos 120;
  timeout = pos 45;
  timeout_notice = pos 0;
  retries = pos 3;
  will_fg = pos 0;
  will_qos = pos 0;
  will_retain = pos 0;
  will_topic = some (b'w' ∷ []);
  will_msg = some [];
  cleansession = pos 1;
  sslenable = pos 1;
}

configure_mqtt_blind_example :
    ((topic : CStr) × (msg : CStr) × (t : Client ℕ) × (options.will_topic ≡ some topic)
      × (options.will_msg ≡ some msg)
      × (configure_mqtt silent (some options) fresh ≡ some (nsapi_error_ok, t))
      × (t.options ≡ some options))
    ⊎ (((options.will_topic ≡ none) ⊎ (options.will_msg ≡ none))
        × (configure_mqtt silent (some options) fresh ≡ none))
configure_mqtt_blind_example = configure_mqtt_blind silent options fresh

-- The client after its first subscription, at the address 10.
abbrev item : Item
item = record { msg_id = pos 3; qos = pos 0; topic = c_str "door/x"; handler = some 7; param = 70 }

abbrev once : Client ℕ
once = record fresh {
  nmid = pos 4;
  sublist = record (set_node 10 (some (linked item none)) fresh.sublist) { first = some 10 };
}

once-Reach : Reach obliging fresh once
unfolding subscribe subscribe_node get_next_message_id find_subscription_by_topic find_from
    append_subscription append_after mqtt_subscribe
once-Reach =
    next here (
      subscribes 1 10 (c_str "door/x") (pos 0) (some 7) 70 {v = pos 0} (omega arith) refl refl refl)

Reach-AtMostOne_example : AtMostOne once.sublist
Reach-AtMostOne_example = Reach-AtMostOne obliging refl once-Reach

Reach-returns_example :
    ((r : ℤ × Client ℕ) × (subscribe obliging 1
          (some (20, none))
          (c_str "lamp/x")
          (pos 0)
          none
          0
          once
        ≡ some r))
    × ((r : ℤ × Client ℕ) × (unsubscribe obliging 1 (c_str "lamp/x") once ≡ some r))
Reach-returns_example =
    Reach-returns obliging 1 20 (c_str "lamp/x") (pos 0) none 0 refl once-Reach (omega arith) refl
      refl
