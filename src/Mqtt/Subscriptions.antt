-- ===== src/Mqtt/Subscriptions.antt =====
-- MQTT/BG96MQTTClient.cpp: the linked list of subscriptions, over the memory that holds its nodes.
pub mod Chain
pub mod Find
pub mod Update
pub mod Removed
pub mod Picked
use bg96_driver.Prelude.{
  ℕ, zero, suc, ℤ, Bool, true, false, Option, none, some, if◌then◌else◌, ◌==◌, CStr, strcmp_eq,
}
use bg96_driver.Prelude.Partial.{Partial, return, ◌>>=◌, ◌>>◌}
use bg96_driver.Driver.Mqtt.Receive.{upto_last_slash}

-- MQTTSubscription; a pointer is the address of a node, or `none` if it is null.
pub record Subscription : Type 0 where
  pub msg_id : ℤ
  pub qos : ℤ
  pub topic : CStr
  pub handler : Option ℕ
  pub param : ℕ
  pub next : Option ℕ

-- `_sublist`, and the nodes that the memory holds.
pub record Sublist : Type 0 where
  pub first : Option ℕ
  pub node : ℕ → Option Subscription

-- `*p`: at an address without a node it is undefined.
abbrev pub load : ℕ → Partial Sublist Subscription
load p l = elim (l.node p) [ none ↦ none | some sub ↦ some (sub, l) ]

-- A write to the node at `p`, or to all of its memory.
abbrev pub set_node : ℕ → Option Subscription → Sublist → Sublist
set_node p sub l = record l { node = λ q. if q == p then sub else l.node q }

abbrev pub store : ℕ → Option Subscription → Partial Sublist (Unit {0})
store p sub l = some (tt, set_node p sub l)

-- BG96MQTTClient::matchTopic. The walk to the last '/' leaves the text if there is none.
unfoldable pub match_topic : CStr → CStr → Option Bool
match_topic topic1 topic2 = elim (upto_last_slash topic1) [
  | none ↦ none
  | some path1 ↦ elim (upto_last_slash topic2) [
    | none ↦ none
    | some path2 ↦ some (strcmp_eq path1 path2)
  ]
]

abbrev pub matches : CStr → CStr → Partial Sublist Bool
matches topic1 topic2 l = elim (match_topic topic1 topic2) [
  | none ↦ none
  | some found ↦ some (found, l)
]

-- The `while` of findSubscriptionByTopic over the number of rounds.
unfoldable pub find_loop : ℕ → CStr → ℕ → Partial Sublist ℕ
find_loop zero topic p = λ l. none
find_loop (suc rounds) topic p = do
  sub ← load p
  elim sub.next [
    | none ↦ return p
    | some q ↦ do
      found ← matches sub.topic topic
      elim found [ true ↦ return p | false ↦ find_loop rounds topic q ]
  ]

unfoldable pub find_from : ℕ → CStr → Option ℕ → Partial Sublist (Option ℕ)
find_from rounds topic none = return none
find_from rounds topic (some p) = do
  sub ← load p
  found ← matches sub.topic topic
  if found then return (some p) else (do q ← find_loop rounds topic p; return (some q))

-- BG96MQTTClient::findSubscriptionByTopic
unfoldable pub find_subscription_by_topic : ℕ → CStr → Partial Sublist (Option ℕ)
unfolding find_from
find_subscription_by_topic rounds topic l = find_from rounds topic l.first l

-- The `while` of append_subscription, and the write after it.
unfoldable pub append_loop : ℕ → ℕ → ℕ → Partial Sublist (Unit {0})
append_loop zero sub p = λ l. none
append_loop (suc rounds) sub p = do
  s ← load p
  elim s.next [
    | none ↦ store p (some (record s { next = some sub }))
    | some q ↦ append_loop rounds sub q
  ]

unfoldable pub append_after : ℕ → ℕ → Option ℕ → Partial Sublist Bool
append_after rounds sub none = λ l. some (true, record l { first = some sub })
append_after rounds sub (some p) = do append_loop rounds sub p; return true

-- BG96MQTTClient::append_subscription
unfoldable pub append_subscription : ℕ → Option ℕ → Partial Sublist Bool
unfolding append_after
append_subscription rounds none = return false
append_subscription rounds (some sub) = λ l. append_after rounds sub l.first l

-- `sub` is taken out behind `p`.
unfoldable pub unlink : ℕ → ℕ → Partial Sublist (Unit {0})
unlink p sub = do
  before ← load p
  s ← load sub
  store p (some (record before { next = s.next }))
  elim s.next [ none ↦ return tt | some q ↦ store sub (some (record s { next = none })) ]

-- `p == q` of a pointer and an address.
abbrev pub points_to : Option ℕ → ℕ → Bool
points_to none q = false
points_to (some p) q = p == q

-- The `while` of remove_subscription, which reads through a null pointer if `sub` is not in the list.
unfoldable pub remove_loop : ℕ → ℕ → ℕ → Partial Sublist (Unit {0})
unfolding unlink
remove_loop zero sub p = λ l. none
remove_loop (suc rounds) sub p = do
  s ← load p
  elim (points_to s.next sub) [
    | true ↦ unlink p sub
    | false ↦ elim s.next [ none ↦ λ l. none | some q ↦ remove_loop rounds sub q ]
  ]

unfoldable pub remove_from : ℕ → ℕ → Option ℕ → Partial Sublist Bool
remove_from rounds sub none = return true
remove_from rounds sub (some p) =
    if p == sub
    then (do s ← load p; λ l. some (true, record l { first = s.next }))
    else (do remove_loop rounds sub p; return true)

-- BG96MQTTClient::remove_subscription
unfoldable pub remove_subscription : ℕ → Option ℕ → Partial Sublist Bool
unfolding remove_from
remove_subscription rounds none = return true
remove_subscription rounds (some sub) = λ l. remove_from rounds sub l.first l
