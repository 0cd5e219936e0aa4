-- ===== src/Mqtt/Reach.antt =====
-- MQTT/BG96MQTTClient.cpp: the states that a client reaches by its methods, in any order.
use mathlib.Core.Path.{subst}
use bg96_driver.Prelude.{
  negsuc, ℕ, ◌≤◌, ◌≡◌, refl, arith, ℤ, true, Option, none, some, [], ◌∷◌, elem, CStr, Option-cases,
  inl, inr,
}
use bg96_driver.At.{AtParser}
use bg96_driver.Driver.Mqtt.Receive.{Received, mqtt_check_avail}
use bg96_driver.Mqtt.Subscriptions.{Sublist, find_subscription_by_topic, find_from}
use bg96_driver.Mqtt.Subscriptions.Chain.{Item, Chain}
use bg96_driver.Mqtt.Subscriptions.Picked.{others}
use bg96_driver.Mqtt.{
  Client, Message, get_next_message_id, subscribe, unsubscribe, unsubscribe_found, publish,
  client_recv,
}
use bg96_driver.Mqtt.Subscribe.{new_item, singleton-Chain, subscribe-first, subscribe-another}
use bg96_driver.Mqtt.Unsubscribe.{unsubscribe-Chain}

-- At most one subscription, with a '/' in its topic.
pub data AtMostOne (l : Sublist) : Type 0 where
  no_item : l.first ≡ none → AtMostOne l
  one_item :
      (a : ℕ) (i : Item)
      → elem b'/' i.topic ≡ true
      → Chain l.node l.first ((a, i) ∷ [])
      → AtMostOne l

-- A call gives one state.
same_state :
    {D : Type 0} {m : Option (ℤ × Client D)} {v w : ℤ} {t u : Client D}
    → m ≡ some (v, t)
    → m ≡ some (w, u)
    → AtMostOne u.sublist
    → AtMostOne t.sublist
same_state {t} {u} e f a =
    let same : u ≡ t = ground (arith, e, f) in subst (λ x. AtMostOne x.sublist) same a

module _ {D : Type 0} (io : AtParser D) where
  -- The memory that malloc gives is not in use, and zeroed; topics have a '/'.
  pub data Step : Client D → Client D → Type 0 where
    subscribes :
        (rounds a : ℕ) (topic : CStr) (qos : ℤ) (handler : Option ℕ) (param : ℕ) {v : ℤ}
        {c t : Client D}
        → 1 ≤ rounds
        → c.sublist.node a ≡ none
        → elem b'/' topic ≡ true
        → subscribe io rounds (some (a, none)) topic qos handler param c ≡ some (v, t)
        → Step c t
    unsubscribes :
        (rounds : ℕ) (topic : CStr) {v : ℤ} {c t : Client D}
        → 1 ≤ rounds
        → elem b'/' topic ≡ true
        → unsubscribe io rounds topic c ≡ some (v, t)
        → Step c t
    publishes :
        (m : Option Message) {v : ℤ} {c t : Client D} → publish io m c ≡ some (v, t) → Step c t
    receives : {m : Option Received} {c t : Client D} → client_recv io c ≡ some (m, t) → Step c t

  pub data Reach (c : Client D) : Client D → Type 0 where
    here : Reach c c
    next : {t u : Client D} → Reach c t → Step t u → Reach c u

  subscribe-AtMostOne :
      (rounds a : ℕ) (topic : CStr) (qos : ℤ) (handler : Option ℕ) (param : ℕ) (v : ℤ)
      (c t : Client D)
      → 1 ≤ rounds
      → c.sublist.node a ≡ none
      → elem b'/' topic ≡ true
      → subscribe io rounds (some (a, none)) topic qos handler param c ≡ some (v, t)
      → AtMostOne c.sublist
      → AtMostOne t.sublist
  subscribe-AtMostOne rounds a topic qos handler param v c t le f s e (no_item n) =
      let (u, r, l) = subscribe-first io rounds a none topic qos handler param c n in
      let i = new_item topic qos handler param c in
      same_state e r (one_item a i s (singleton-Chain a i c.sublist u.sublist l))
  subscribe-AtMostOne rounds a topic qos handler param v c t le f s e
        (one_item b i s' (q, h, n, ch)) =
      let (u, r, _, ch') =
        subscribe-another io rounds a none topic qos handler param b i [] c s (s', tt) (omega arith)
          (ground (arith, f, n)) (q, h, n, ch) in
      same_state e r (one_item b i s' ch')

  unsubscribe-AtMostOne :
      (rounds : ℕ) (topic : CStr) (v : ℤ) (c t : Client D)
      → 1 ≤ rounds
      → elem b'/' topic ≡ true
      → unsubscribe io rounds topic c ≡ some (v, t)
      → AtMostOne c.sublist
      → AtMostOne t.sublist
  unfolding unsubscribe unsubscribe_found find_subscription_by_topic find_from others
  unsubscribe-AtMostOne rounds topic v c t le s e (no_item n) = no_item (ground arith)
  unsubscribe-AtMostOne rounds topic v c t le s e (one_item b i s' ch) =
      let (u, r, _, ch') =
        unsubscribe-Chain io rounds topic b i [] c s (s', tt) (omega arith) (refl, tt) ch in
      same_state e r (no_item ch')

  Step-AtMostOne : {c t : Client D} → Step c t → AtMostOne c.sublist → AtMostOne t.sublist
  unfolding publish client_recv get_next_message_id
  Step-AtMostOne (subscribes rounds a topic qos handler param le f s e) m =
      subscribe-AtMostOne rounds a topic qos handler param _ _ _ le f s e m
  Step-AtMostOne (unsubscribes rounds topic le s e) m =
      unsubscribe-AtMostOne rounds topic _ _ _ le s e m
  Step-AtMostOne {c} {t} (publishes none e) m = subst AtMostOne (ground (arith, e)) m
  Step-AtMostOne {c} {t} (publishes (some x) e) m = subst AtMostOne (ground (arith, e)) m
  Step-AtMostOne {c} {t} (receives e) m =
      let same : c.sublist ≡ t.sublist =
        elim (Option-cases (mqtt_check_avail io c.mqtt_ctx_id c.bg96)) [
          | inl h ↦ absurd (ground (arith, e))
          | inr ((x, b), h) ↦ ground (arith, e)
        ] in
      subst AtMostOne same m

  -- Whatever a client without subscriptions subscribes to, ends, sends and receives, in any order, it
  -- never has more than one subscription: with zeroed memory that is not in use, with a '/' in each
  -- topic, and with a round for the walk over the list.
  pub Reach-AtMostOne : {c t : Client D} → c.sublist.first ≡ none → Reach c t → AtMostOne t.sublist
  Reach-AtMostOne n here = no_item n
  Reach-AtMostOne n (next r st) = Step-AtMostOne st (Reach-AtMostOne n r)

  returns :
      (t : Client D) (rounds a : ℕ) (topic : CStr) (qos : ℤ) (handler : Option ℕ) (param : ℕ)
      → 1 ≤ rounds
      → t.sublist.node a ≡ none
      → elem b'/' topic ≡ true
      → AtMostOne t.sublist
      → ((r : ℤ × Client D) × (subscribe io rounds (some (a, none)) topic qos handler param t
            ≡ some r))
        × ((r : ℤ × Client D) × (unsubscribe io rounds topic t ≡ some r))
  unfolding unsubscribe unsubscribe_found find_subscription_by_topic find_from
  returns t rounds a topic qos handler param le f s (no_item n) =
      let (u, r, l) = subscribe-first io rounds a none topic qos handler param t n in
      ((_, r), ((negsuc 999, t), ground (arith, n)))
  returns t rounds a topic qos handler param le f s (one_item b i s' (q, h, n, ch)) =
      let (u, r, _, ch') =
        subscribe-another io rounds a none topic qos handler param b i [] t s (s', tt) (omega arith)
          (ground (arith, f, n)) (q, h, n, ch) in
      let (u', r', _, ch'') =
        unsubscribe-Chain io rounds topic b i [] t s (s', tt) (omega arith) (refl, tt)
          (q, h, n, ch) in
      ((_, r), (_, r'))

  -- In every state that a client reaches from one without subscriptions, under the same conditions,
  -- subscribe and unsubscribe return: they reach no node that is not there.
  pub Reach-returns :
      {c t : Client D} (rounds a : ℕ) (topic : CStr) (qos : ℤ) (handler : Option ℕ) (param : ℕ)
      → c.sublist.first ≡ none
      → Reach c t
      → 1 ≤ rounds
      → t.sublist.node a ≡ none
      → elem b'/' topic ≡ true
      → ((r : ℤ × Client D) × (subscribe io rounds (some (a, none)) topic qos handler param t
            ≡ some r))
        × ((r : ℤ × Client D) × (unsubscribe io rounds topic t ≡ some r))
  Reach-returns {c} {t} rounds a topic qos handler param n reach le f s =
      returns t rounds a topic qos handler param le f s (Reach-AtMostOne n reach)
