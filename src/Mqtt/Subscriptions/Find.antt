-- ===== src/Mqtt/Subscriptions/Find.antt =====
-- MQTT/BG96MQTTClient.cpp, findSubscriptionByTopic: what it finds in a list of subscriptions.
use bg96_driver.Prelude.{
  ℕ, zero, suc, ◌<◌, ◌≤◌, ◌≡◌, refl, arith, Bool, true, Option, none, some, [], ◌∷◌, length,
  if◌then◌else◌, elem, CStr, strcmp_eq,
}
use bg96_driver.Driver.Mqtt.Receive.{upto_last_slash}
use bg96_driver.Mqtt.Subscriptions.{Sublist, match_topic, find_loop, find_subscription_by_topic}
use bg96_driver.Mqtt.Subscriptions.Chain.{Item, Items, linked, Chain, HaveSlash}

-- The topic up to its last '/', or nothing.
path_of : CStr → CStr
path_of topic = elim (upto_last_slash topic) [ none ↦ [] | some path ↦ path ]

pub agree : CStr → CStr → Bool
agree topic1 topic2 = strcmp_eq (path_of topic1) (path_of topic2)

upto_last_slash-elem : (t : CStr) → elem b'/' t ≡ true → upto_last_slash t ≡ some (path_of t)
unfolding path_of upto_last_slash
upto_last_slash-elem [] h = cc
upto_last_slash-elem (c ∷ t) h = ground (arith, upto_last_slash-elem t)

match_topic-agree :
    (topic1 topic2 : CStr)
    → elem b'/' topic1 ≡ true
    → elem b'/' topic2 ≡ true
    → match_topic topic1 topic2 ≡ some (agree topic1 topic2)
unfolding match_topic agree
match_topic-agree topic1 topic2 h k =
    rw (upto_last_slash-elem topic1 h, upto_last_slash-elem topic2 k, match_topic) refl

-- The first item whose topic has the path of `topic`, or the last item.
unfoldable pub pick : CStr → ℕ → Item → Items → ℕ
pick topic a i [] = a
pick topic a i ((b, j) ∷ r) = if agree i.topic topic then a else pick topic b j r

pick-agree :
    (topic : CStr) (a : ℕ) (i : Item) (r : Items)
    → agree i.topic topic ≡ true
    → pick topic a i r ≡ a
unfolding pick
pick-agree topic a i [] h = refl
pick-agree topic a i ((b, j) ∷ r) h = rw h

abbrev pub first_or_last : CStr → Items → Option ℕ
first_or_last topic [] = none
first_or_last topic ((a, i) ∷ r) = some (pick topic a i r)

find_loop-Chain :
    (rounds : ℕ) (topic : CStr) (a : ℕ) (i : Item) (r : Items) (l : Sublist) (q : Option ℕ)
    → elem b'/' topic ≡ true
    → HaveSlash ((a, i) ∷ r)
    → length r < rounds
    → l.node a ≡ some (linked i q)
    → Chain l.node q r
    → find_loop rounds topic a l ≡ some (pick topic a i r, l)
unfolding find_loop pick
find_loop-Chain zero topic a i r l q t s lt n c = absurd (omega arith)
find_loop-Chain (suc rounds) topic a i [] l q t s lt n c = ground arith
find_loop-Chain (suc rounds) topic a i ((b, j) ∷ r) l q t s lt n (q', e, n', c) = ground (
  arith,
  match_topic-agree i.topic topic s.0 t,
  find_loop-Chain rounds topic b j r l q' t s.1 (omega arith) n' c,
)

-- On a list whose topics have a '/', with a round for each node, findSubscriptionByTopic finds the
-- first subscription whose topic has the same path, and the last subscription if there is none: it
-- gives null only on the empty list. The list is left as it is.
pub find_subscription_by_topic-Chain :
    (rounds : ℕ) (topic : CStr) (xs : Items) (l : Sublist)
    → elem b'/' topic ≡ true
    → HaveSlash xs
    → length xs ≤ rounds
    → Chain l.node l.first xs
    → find_subscription_by_topic rounds topic l ≡ some (first_or_last topic xs, l)
unfolding find_subscription_by_topic
find_subscription_by_topic-Chain rounds topic [] l t s le c = ground arith
find_subscription_by_topic-Chain rounds topic ((a, i) ∷ r) l t s le (q, e, n, c) =
    let m = match_topic-agree i.topic topic s.0 t in
    let f = find_loop-Chain rounds topic a i r l q t s (omega arith) n c in
    ground (arith, m, f, pick-agree topic a i r)
