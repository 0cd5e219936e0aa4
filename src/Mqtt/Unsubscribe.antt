-- ===== src/Mqtt/Unsubscribe.antt =====
-- MQTT/BG96MQTTClient.cpp: unsubscribe on a list of subscriptions, and after subscribe.
use mathlib.Core.Path.{subst}
use bg96_driver.Prelude.{
  ℕ, zero, suc, ◌≤◌, ◌≡◌, refl, sym, arith, ℤ, true, false, Option, none, some, [], ◌∷◌, length,
  ◌==◌, elem, CStr,
}
use bg96_driver.At.{AtParser}
use bg96_driver.Driver.Mqtt.{mqtt_subscribe, mqtt_unsubscribe}
use bg96_driver.Mqtt.Subscriptions.{
  Sublist, set_node, match_topic, find_loop, find_from, find_subscription_by_topic,
  remove_subscription,
}
use bg96_driver.Mqtt.Subscriptions.Chain.{
  Item, Items, linked, addresses, Chain, Distinct, HaveSlash, Chain-set_node,
}
use bg96_driver.Mqtt.Subscriptions.Find.{pick, find_subscription_by_topic-Chain}
use bg96_driver.Mqtt.Subscriptions.Picked.{picked, others, pick-node, pick-split, Distinct-middle}
use bg96_driver.Mqtt.Subscriptions.Update.{remove_subscription-Chain}
use bg96_driver.Mqtt.Subscriptions.Removed.{remove_subscription-Holds}
use bg96_driver.Driver.Mqtt.Receive.{Received}
use bg96_driver.Mqtt.Subscribe.{new_item, subscribe-first, singleton-Chain}
use bg96_driver.Mqtt.{Client, subscribe, unsubscribe_found, unsubscribe, handler_of}

-- What remove_subscription makes of the list when it is given the item that was picked.
remove-picked :
    (rounds : ℕ) (topic : CStr) (a : ℕ) (i : Item) (r : Items) (l : Sublist)
    → length ((a, i) ∷ r) ≤ rounds
    → Distinct ((a, i) ∷ r)
    → Chain l.node l.first ((a, i) ∷ r)
    → (l' : Sublist) × (q : Option ℕ) × (remove_subscription rounds (some (pick topic a i r)) l
        ≡ some (true, l'))
      × (l'.node (pick topic a i r) ≡ some (linked (picked topic i r) q))
      × Chain l'.node l'.first (others topic a i r)
      × (elem (pick topic a i r) (addresses (others topic a i r)) ≡ false)
remove-picked rounds topic a i r l le d (q, e, n, c) =
    let (xs, ys, s, o, lx) = pick-split topic a i r in
    let p = pick topic a i r in
    let j = picked topic i r in
    let d' = subst Distinct s d in
    let (l', f, c') =
      remove_subscription-Chain rounds p j xs ys l (omega arith) d'
        (subst (Chain l.node l.first) s (q, e, n, c)) in
    let (q', m) =
      remove_subscription-Holds rounds p j l l' (pick-node topic a i r l.node q n c) f in
    (
      l',
      q',
      f,
      m,
      subst (Chain l'.node l'.first) (sym o) c',
      subst (λ x. elem p (addresses x) ≡ false) (sym o) (Distinct-middle xs ys p j d'),
    )

-- The only node's link leads to no node.
find-dangling :
    (rounds : ℕ) (topic : CStr) (a p : ℕ) (i : Item) (l : Sublist)
    → l.first ≡ some a
    → l.node a ≡ some (linked i (some p))
    → l.node p ≡ none
    → match_topic i.topic topic ≡ some false
    → find_subscription_by_topic rounds topic l ≡ none
unfolding find_subscription_by_topic find_from find_loop
find-dangling zero topic a p i l f n e m = ground arith
find-dangling (suc zero) topic a p i l f n e m = ground arith
find-dangling (suc (suc rounds)) topic a p i l f n e m = ground arith

module _ {D : Type 0} (io : AtParser D) where
  -- On a list of subscriptions with different addresses and a '/' in each topic, with a round for
  -- each, unsubscribe of a topic with a '/' ends the first subscription with the same path, or the
  -- last one if there is none: it gives the modem that one's topic and message id, returns what the
  -- modem says, and whatever that is the list has lost exactly this one.
  pub unsubscribe-Chain :
      (rounds : ℕ) (topic : CStr) (a : ℕ) (i : Item) (r : Items) (c : Client D)
      → elem b'/' topic ≡ true
      → HaveSlash ((a, i) ∷ r)
      → length ((a, i) ∷ r) ≤ rounds
      → Distinct ((a, i) ∷ r)
      → Chain c.sublist.node c.sublist.first ((a, i) ∷ r)
      → let j = picked topic i r in
        let (rc, b) = mqtt_unsubscribe io c.mqtt_ctx_id j.topic j.msg_id c.bg96 in
        (t : Client D) × (unsubscribe io rounds topic c ≡ some (rc, t))
        × (t.bg96 ≡ b)
        × Chain t.sublist.node t.sublist.first (others topic a i r)
  unfolding unsubscribe unsubscribe_found
  unsubscribe-Chain rounds topic a i r c t s le d ch =
      let f = find_subscription_by_topic-Chain rounds topic ((a, i) ∷ r) c.sublist t s le ch in
      let (l', q, rm, m, ch', out) = remove-picked rounds topic a i r c.sublist le d ch in
      let p = pick topic a i r in
      let j = picked topic i r in
      let (rc, b) = mqtt_unsubscribe io c.mqtt_ctx_id j.topic j.msg_id c.bg96 in
      (
        record c { bg96 = b; sublist = set_node p none l' },
        ground (arith, f, rm, m),
        refl,
        Chain-set_node (others topic a i r) l' p none l'.first out ch',
      )

  -- On a client without subscriptions, if the memory of the new node is zeroed, subscribe and then
  -- unsubscribe of any topic, both with a '/', give the modem the first topic and its message id
  -- again and leave no subscription, whatever the modem says.
  pub unsubscribe-subscribe :
      (rounds : ℕ) (a : ℕ) (topic topic' : CStr) (qos : ℤ) (handler : Option ℕ) (param : ℕ)
      (c : Client D)
      → c.sublist.first ≡ none
      → elem b'/' topic ≡ true
      → elem b'/' topic' ≡ true
      → 1 ≤ rounds
      → (t u : Client D) × (subscribe io rounds (some (a, none)) topic qos handler param c
          ≡ some ((mqtt_subscribe io c.mqtt_ctx_id topic qos c.nmid c.bg96).0, t))
        × (unsubscribe io rounds topic' t
            ≡ some ((mqtt_unsubscribe io t.mqtt_ctx_id topic c.nmid t.bg96).0, u))
        × (u.sublist.first ≡ none)
  unfolding picked others
  unsubscribe-subscribe rounds a topic topic' qos handler param c e s s' le =
      let (t, r, l) = subscribe-first io rounds a none topic qos handler param c e in
      let i = new_item topic qos handler param c in
      let ch = singleton-Chain a i c.sublist t.sublist l in
      let (u, r', b, ch') =
        unsubscribe-Chain rounds topic' a i [] t s' (s, tt) (omega arith) (refl, tt) ch in
      (t, u, r, r', ch')

  -- If the memory of the first node holds a link to where no node is, a message on a topic with
  -- another path makes mqtt_task read there: no number of rounds gives a result.
  handler_of-subscribe :
      (rounds rounds' : ℕ) (a p : ℕ) (topic : CStr) (qos : ℤ) (handler : Option ℕ) (param : ℕ)
      (msg : Received) (c : Client D)
      → c.sublist.first ≡ none
      → c.sublist.node p ≡ none
      → (p == a) ≡ false
      → match_topic topic msg.topic ≡ some false
      → (t : Client D) × (subscribe io rounds (some (a, some p)) topic qos handler param c
          ≡ some ((mqtt_subscribe io c.mqtt_ctx_id topic qos c.nmid c.bg96).0, t))
        × (handler_of io rounds' msg t ≡ none)
  unfolding handler_of
  handler_of-subscribe rounds rounds' a p topic qos handler param msg c e n ne m =
      let (t, r, l) = subscribe-first io rounds a (some p) topic qos handler param c e in
      let i = new_item topic qos handler param c in
      let dangling =
        find-dangling rounds' msg.topic a p i t.sublist (ground (arith, l)) (ground (arith, l))
          (ground (arith, l)) m in
      (t, r, ground (arith, dangling))
