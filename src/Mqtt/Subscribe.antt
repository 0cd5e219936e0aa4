-- ===== src/Mqtt/Subscribe.antt =====
-- MQTT/BG96MQTTClient.cpp: subscribe, unsubscribe and the choice of a handler on a list of
-- subscriptions.
use mathlib.Core.Path.{subst}
use bg96_driver.Prelude.{
  ℕ, ◌≤◌, ◌≡◌, refl, sym, arith, ℤ, pos, ◌+ℤ◌, true, false, Option, none, some, [], ◌∷◌, length,
  ◌==◌, elem, CStr,
}
use bg96_driver.At.{AtParser, nsapi_error_ok}
use bg96_driver.Driver.Mqtt.{mqtt_subscribe}
use bg96_driver.Driver.Mqtt.Receive.{Received}
use bg96_driver.Mqtt.Subscriptions.{
  Subscription, Sublist, set_node, find_from, find_subscription_by_topic, append_after,
  append_subscription,
}
use bg96_driver.Mqtt.Subscriptions.Chain.{
  Item, Items, linked, addresses, Chain, HaveSlash, Chain-set_node,
}
use bg96_driver.Mqtt.Subscriptions.Find.{find_subscription_by_topic-Chain}
use bg96_driver.Mqtt.Subscriptions.Picked.{picked, pick-node}
use bg96_driver.Mqtt.{Client, get_next_message_id, subscribe_node, subscribe, handler_of}

-- The handler of an item, with its parameter.
abbrev pub handler_with : Item → Option (ℕ × ℕ)
handler_with i = elim i.handler [ none ↦ none | some f ↦ some (f, i.param) ]

-- What the items give for a topic.
abbrev pub handler_for : CStr → Item → Items → Option (ℕ × ℕ)
handler_for topic i r = handler_with (picked topic i r)

abbrev pub new_item : {D : Type 0} → CStr → ℤ → Option ℕ → ℕ → Client D → Item
new_item topic qos handler param c = record {
  msg_id = c.nmid;
  qos = qos;
  topic = topic;
  handler = handler;
  param = param;
}

-- A list of one node.
pub singleton-Chain :
    (a : ℕ) (i : Item) (l l' : Sublist)
    → l' ≡ record (set_node a (some (linked i none)) l) { first = some a }
    → Chain l'.node l'.first ((a, i) ∷ [])
singleton-Chain a i l l' e =
    subst (λ m. Chain m.node m.first ((a, i) ∷ [])) (sym e) (none, refl, ground arith, refl)

module _ {D : Type 0} (io : AtParser D) where
  -- While there is a subscription, subscribe sends nothing to the modem and adds nothing to the
  -- list, and yet reports NSAPI_ERROR_OK: whatever the topics are, as long as each has a '/'.
  pub subscribe-another :
      (rounds : ℕ) (b : ℕ) (garbage : Option ℕ) (topic : CStr) (qos : ℤ) (handler : Option ℕ)
      (param : ℕ) (a : ℕ) (i : Item) (r : Items) (c : Client D)
      → elem b'/' topic ≡ true
      → HaveSlash ((a, i) ∷ r)
      → length ((a, i) ∷ r) ≤ rounds
      → elem b (addresses ((a, i) ∷ r)) ≡ false
      → Chain c.sublist.node c.sublist.first ((a, i) ∷ r)
      → (t : Client D) × (subscribe io rounds (some (b, garbage)) topic qos handler param c
          ≡ some (nsapi_error_ok, t))
        × (t.bg96 ≡ c.bg96)
        × Chain t.sublist.node t.sublist.first ((a, i) ∷ r)
  unfolding subscribe subscribe_node get_next_message_id
  subscribe-another rounds b garbage topic qos handler param a i r c t s le f ch =
      let sub : Subscription = record {
        msg_id = c.nmid;
        qos = qos;
        topic = topic;
        handler = handler;
        param = param;
        next = garbage;
      } in
      let l = set_node b (some sub) c.sublist in
      let ch' = Chain-set_node ((a, i) ∷ r) c.sublist b (some sub) c.sublist.first f ch in
      (
        record c { nmid = c.nmid +ℤ pos 1; sublist = l },
        ground (arith, find_subscription_by_topic-Chain rounds topic ((a, i) ∷ r) l t s le ch'),
        refl,
        ch',
      )

  -- The first subscription: the modem is asked, and the list is the new node, with the link that its
  -- memory held.
  pub subscribe-first :
      (rounds : ℕ) (b : ℕ) (garbage : Option ℕ) (topic : CStr) (qos : ℤ) (handler : Option ℕ)
      (param : ℕ) (c : Client D)
      → c.sublist.first ≡ none
      → (t : Client D) × (subscribe io rounds (some (b, garbage)) topic qos handler param c
          ≡ some ((mqtt_subscribe io c.mqtt_ctx_id topic qos c.nmid c.bg96).0, t))
        × (t.sublist
            ≡ record (set_node b
                (some (linked (new_item topic qos handler param c) garbage))
                c.sublist) { first = some b })
  unfolding subscribe subscribe_node get_next_message_id find_subscription_by_topic find_from
      append_subscription append_after
  subscribe-first rounds b garbage topic qos handler param c e =
      let (rc, b') = mqtt_subscribe io c.mqtt_ctx_id topic qos c.nmid c.bg96 in
      let i = new_item topic qos handler param c in
      let l = record (set_node b (some (linked i garbage)) c.sublist) { first = some b } in
      (record c { bg96 = b'; nmid = c.nmid +ℤ pos 1; sublist = l }, ground (arith, e), refl)

  -- Whether the modem takes the first subscription or refuses it, a later subscribe sends it nothing
  -- and reports NSAPI_ERROR_OK.
  subscribe-refused :
      (rounds : ℕ) (a b : ℕ) (garbage : Option ℕ) (topic topic' : CStr) (qos qos' : ℤ)
      (handler handler' : Option ℕ) (param param' : ℕ) (c : Client D)
      → c.sublist.first ≡ none
      → elem b'/' topic ≡ true
      → elem b'/' topic' ≡ true
      → 1 ≤ rounds
      → (b == a) ≡ false
      → (t u : Client D) × (subscribe io rounds (some (a, none)) topic qos handler param c
          ≡ some ((mqtt_subscribe io c.mqtt_ctx_id topic qos c.nmid c.bg96).0, t))
        × (subscribe io rounds (some (b, garbage)) topic' qos' handler' param' t
            ≡ some (nsapi_error_ok, u))
        × (u.bg96 ≡ t.bg96)
  subscribe-refused rounds a b garbage topic topic' qos qos' handler handler' param param' c e s s'
        le ne =
      let (t, r, l) = subscribe-first rounds a none topic qos handler param c e in
      let i = new_item topic qos handler param c in
      let ch = singleton-Chain a i c.sublist t.sublist l in
      let (u, r', b', ch') =
        subscribe-another rounds b garbage topic' qos' handler' param' a i [] t s' (s, tt)
          (omega arith) (ground (arith, ne)) ch in
      (t, u, r, r', b')

  -- The handler that mqtt_task calls for a message on a topic with a '/', where a round is given for
  -- each subscription and their topics have a '/' too: that of the first subscription with the same
  -- path, or of the last one if there is none. Nothing changes.
  pub handler_of-Chain :
      (rounds : ℕ) (msg : Received) (a : ℕ) (i : Item) (r : Items) (c : Client D)
      → elem b'/' msg.topic ≡ true
      → HaveSlash ((a, i) ∷ r)
      → length ((a, i) ∷ r) ≤ rounds
      → Chain c.sublist.node c.sublist.first ((a, i) ∷ r)
      → handler_of io rounds msg c ≡ some (handler_for msg.topic i r, c)
  unfolding handler_of
  handler_of-Chain rounds msg a i r c t s le (q, e, n, ch) =
      let f =
        find_subscription_by_topic-Chain rounds msg.topic ((a, i) ∷ r) c.sublist t s le
          (q, e, n, ch) in
      let (q', m) = pick-node msg.topic a i r c.sublist.node q n ch in ground (arith, f, m)
