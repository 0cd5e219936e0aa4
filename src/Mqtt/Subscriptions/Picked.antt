-- ===== src/Mqtt/Subscriptions/Picked.antt =====
-- MQTT/BG96MQTTClient.cpp, findSubscriptionByTopic: the subscription that it picks, and the others.
use bg96_driver.Prelude.{
  ℕ, ◌≤◌, ◌≡◌, refl, arith, false, Option, some, [], ◌∷◌, ◌++◌, length, if◌then◌else◌, elem, CStr,
  Bool-cases, inl, inr,
}
use bg96_driver.Mqtt.Subscriptions.{Subscription}
use bg96_driver.Mqtt.Subscriptions.Chain.{Item, Items, linked, addresses, Chain, Distinct}
use bg96_driver.Mqtt.Subscriptions.Find.{agree, pick}
use bg96_driver.Mqtt.Subscriptions.Update.{apart}

unfoldable pub picked : CStr → Item → Items → Item
picked topic i [] = i
picked topic i ((b, j) ∷ r) = if agree i.topic topic then i else picked topic j r

-- The items but for the one that is picked.
unfoldable pub others : CStr → ℕ → Item → Items → Items
others topic a i [] = []
others topic a i ((b, j) ∷ r) =
    if agree i.topic topic then (b, j) ∷ r else (a, i) ∷ others topic b j r

pub pick-node :
    (topic : CStr) (a : ℕ) (i : Item) (r : Items) (node : ℕ → Option Subscription) (q : Option ℕ)
    → node a ≡ some (linked i q)
    → Chain node q r
    → (q' : Option ℕ) × (node (pick topic a i r) ≡ some (linked (picked topic i r) q'))
unfolding pick picked
pick-node topic a i [] node q n ch = (q, n)
pick-node topic a i ((b, j) ∷ r) node q n (q', e, n', ch) =
    elim (Bool-cases (agree i.topic topic)) [
      | inl h ↦ (q, ground arith)
      | inr h ↦ let (q'', m) = pick-node topic b j r node q' n' ch in (q'', ground arith)
    ]

-- The list around the item that is picked.
pub pick-split :
    (topic : CStr) (a : ℕ) (i : Item) (r : Items)
    → (xs ys : Items) × ((a, i) ∷ r ≡ xs ++ (pick topic a i r, picked topic i r) ∷ ys)
      × (others topic a i r ≡ xs ++ ys)
      × (length xs ≤ length r)
unfolding pick picked others
pick-split topic a i [] = ([], [], refl, refl, omega arith)
pick-split topic a i ((b, j) ∷ r) = elim (Bool-cases (agree i.topic topic)) [
  | inl h ↦ ([], (b, j) ∷ r, ground arith, ground arith, omega arith)
  | inr h ↦
      let (xs, ys, e, o, le) = pick-split topic b j r in
      ((a, i) ∷ xs, ys, ground arith, ground arith, omega arith)
]

-- Of different addresses, the one in the middle is not among the others.
pub Distinct-middle :
    (xs ys : Items) (b : ℕ) (j : Item)
    → Distinct (xs ++ (b, j) ∷ ys)
    → elem b (addresses (xs ++ ys)) ≡ false
Distinct-middle [] ys b j d = d.0
Distinct-middle ((a, i) ∷ xs) ys b j d =
    ground (arith, apart xs ys a b j d.0, Distinct-middle xs ys b j d.1)
