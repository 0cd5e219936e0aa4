-- ===== src/Mqtt.antt =====
-- MQTT/BG96MQTTClient.h, MQTT/BG96MQTTClient.cpp: class BG96MQTTClient, its state, and the
-- methods that subscribe, publish and receive.
pub mod Subscriptions
pub mod Session
pub mod Subscribe
pub mod Configure
pub mod Buffers
pub mod Unsubscribe
pub mod Reach
pub mod Task
use bg96_driver.Prelude.{
  ℕ, zero, suc, ℤ, pos, negsuc, ◌+ℤ◌, Bool, true, false, not, Option, none, some, List,
  if◌then◌else◌, CStr,
}
use bg96_driver.Prelude.State.{St}
use bg96_driver.Prelude.Partial.{Partial, return, call, ◌>>=◌, ◌>>◌}
use bg96_driver.At.{AtParser, Bg96, wait_ms, nsapi_error_ok, nsapi_error_device_error}
use bg96_driver.Driver.Mqtt.{mqtt_subscribe, mqtt_unsubscribe, mqtt_publish}
use bg96_driver.Driver.Mqtt.Receive.{Received, mqtt_check_avail}
use bg96_driver.Tls.{TlsSocket}
use bg96_driver.Mqtt.Subscriptions.{
  Subscription, Sublist, store, load, find_subscription_by_topic, append_subscription,
  remove_subscription,
}

-- MQTTClientOptions; a text that is null is `none`.
pub record Options : Type 0 where
  pub version : ℤ
  pub keepalive : ℤ
  pub timeout : ℤ
  pub timeout_notice : ℤ
  pub retries : ℤ
  pub will_fg : ℤ
  pub will_qos : ℤ
  pub will_retain : ℤ
  pub will_topic : Option CStr
  pub will_msg : Option CStr
  pub cleansession : ℤ
  pub sslenable : ℤ

-- BG96MQTTClient with the BG96 and the BG96TLSSocket that it points to. `options` is `_ctx.options`,
-- which is null or points to what configure_mqtt was given, and `has_thread` is whether
-- `_mqtt_thread` is not null.
pub record Client (D : Type 0) : Type 0 where
  pub bg96 : Bg96 D
  pub tls : TlsSocket
  pub pdp_ctx_id : ℤ
  pub ssl_ctx_id : ℤ
  pub mqtt_ctx_id : ℤ
  pub options : Option Options
  pub sublist : Sublist
  pub nmid : ℤ
  pub running : Bool
  pub has_thread : Bool

-- What `malloc` gives for a subscription: null, or an address and what stands in the memory there
-- at the place of the member `next`.
abbrev pub Allocation : Type 0
Allocation = Option (ℕ × Option ℕ)

-- MQTTMessage as publish reads it.
pub record Message : Type 0 where
  pub qos : ℤ
  pub retain : ℤ
  pub topic : CStr
  pub payload : List ℕ
  pub len : ℤ

abbrev pub nsapi_error_no_memory : ℤ
nsapi_error_no_memory = negsuc 3006

module _ {D : Type 0} where
  -- A method of BG96, and a method of the list, in the client's state.
  abbrev pub on_bg96 : {A : Type 0} → St (Bg96 D) A → Partial (Client D) A
  on_bg96 m c = let (a, b) = m c.bg96 in some (a, record c { bg96 = b })

  abbrev pub on_sublist : {A : Type 0} → Partial Sublist A → Partial (Client D) A
  on_sublist m c = elim (m c.sublist) [
    | none ↦ none
    | some (a, l) ↦ some (a, record c { sublist = l })
  ]

  -- `_nmid++`
  unfoldable pub get_next_message_id : St (Client D) ℤ
  get_next_message_id c = (c.nmid, record c { nmid = c.nmid +ℤ pos 1 })

module _ {D : Type 0} (io : AtParser D) where
  -- subscribe, once `sub` points to the new node.
  unfoldable pub subscribe_node : ℕ → ℕ → Subscription → Partial (Client D) ℤ
  subscribe_node rounds a sub = do
    found ← on_sublist (find_subscription_by_topic rounds sub.topic)
    elim found [
      | some _ ↦ return nsapi_error_ok
      | none ↦ do
        appended ← on_sublist (append_subscription rounds (some a))
        if appended
            then (λ c. on_bg96 (mqtt_subscribe io c.mqtt_ctx_id sub.topic sub.qos sub.msg_id) c)
            else return nsapi_error_device_error
    ]

  -- BG96MQTTClient::subscribe
  unfoldable pub subscribe : ℕ → Allocation → CStr → ℤ → Option ℕ → ℕ → Partial (Client D) ℤ
  unfolding get_next_message_id
  subscribe rounds none topic qos handler param = return nsapi_error_no_memory
  subscribe rounds (some (a, garbage)) topic qos handler param = do
    id ← call get_next_message_id
    let sub : Subscription = record {
      msg_id = id;
      qos = qos;
      topic = topic;
      handler = handler;
      param = param;
      next = garbage;
    }
    on_sublist (store a (some sub))
    subscribe_node rounds a sub

  -- unsubscribe, once findSubscriptionByTopic has given its result.
  unfoldable pub unsubscribe_found : ℕ → Option ℕ → Partial (Client D) ℤ
  unsubscribe_found rounds none = return (negsuc 999)
  unsubscribe_found rounds (some a) = do
    removed ← on_sublist (remove_subscription rounds (some a))
    if removed
        then (do
          sub ← on_sublist (load a)
          rc ← λ c. on_bg96 (mqtt_unsubscribe io c.mqtt_ctx_id sub.topic sub.msg_id) c
          on_sublist (store a none)
          return rc)
        else return nsapi_error_device_error

  -- BG96MQTTClient::unsubscribe
  unfoldable pub unsubscribe : ℕ → CStr → Partial (Client D) ℤ
  unfolding unsubscribe_found
  unsubscribe rounds topic = do
    found ← on_sublist (find_subscription_by_topic rounds topic)
    unsubscribe_found rounds found

  -- BG96MQTTClient::publish
  unfoldable pub publish : Option Message → Partial (Client D) ℤ
  unfolding get_next_message_id
  publish none = return nsapi_error_device_error
  publish (some m) = do
    id ← call get_next_message_id
    λ c. on_bg96 (mqtt_publish io c.mqtt_ctx_id id m.qos m.retain m.topic m.payload m.len) c

  -- BG96MQTTClient::recv
  unfoldable pub client_recv : Partial (Client D) (Option Received)
  client_recv c = elim (mqtt_check_avail io c.mqtt_ctx_id c.bg96) [
    | none ↦ none
    | some (msg, b) ↦ some (msg, record c { bg96 = b })
  ]

  -- The handler that mqtt_task calls for a message, with its parameter.
  unfoldable pub handler_of : ℕ → Received → Partial (Client D) (Option (ℕ × ℕ))
  handler_of rounds msg = do
    found ← on_sublist (find_subscription_by_topic rounds msg.topic)
    elim found [
      | none ↦ return none
      | some a ↦ do
        sub ← on_sublist (load a)
        elim sub.handler [ none ↦ return none | some f ↦ return (some (f, sub.param)) ]
    ]

  -- One round of mqtt_task, but for the wait at its end: the call of a handler that it makes.
  unfoldable pub mqtt_round : ℕ → Partial (Client D) (Option (ℕ × ℕ × Received))
  unfolding handler_of
  mqtt_round rounds = do
    msg ← client_recv
    elim msg [
      | none ↦ return none
      | some m ↦ do
        h ← handler_of rounds m
        elim h [ none ↦ return none | some (f, param) ↦ return (some (f, param, m)) ]
    ]

-- The code of the handlers, which the application gives: it is called with the number of the handler,
-- its parameter and the message.
abbrev pub Handlers : Type 0 → Type 0
Handlers D = ℕ → ℕ → Received → Client D → Client D

-- BG96MQTTClient::isRunning
abbrev pub is_running : {D : Type 0} → Client D → Bool
is_running c = c.running

-- `subp->handler(msg, subp->param)`, if there is a handler.
abbrev pub handle : {D : Type 0} → Handlers D → Option (ℕ × ℕ × Received) → Client D → Client D
handle handlers none c = c
handle handlers (some (f, param, msg)) c = handlers f param msg c

-- `wait(2)`
abbrev pub pause : {D : Type 0} → AtParser D → Client D → Client D
pause io c = record c { bg96 = (wait_ms io 2000 c.bg96).1 }

module _ {D : Type 0} (io : AtParser D) (handlers : Handlers D) where
  -- `n` rounds of the loop of mqtt_task; the result is whether it has come to its end.
  unfoldable pub mqtt_task : ℕ → ℕ → Partial (Client D) Bool
  mqtt_task rounds zero c = return (not (is_running c)) c
  mqtt_task rounds (suc n) c = elim (is_running c) [
    | false ↦ return true c
    | true ↦ elim (mqtt_round io rounds c) [
      | none ↦ none
      | some (h, c') ↦ mqtt_task rounds n (pause io (handle handlers h c'))
    ]
  ]
