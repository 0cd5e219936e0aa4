-- ===== src/Mqtt/Subscriptions/Removed.antt =====
-- MQTT/BG96MQTTClient.cpp, remove_subscription: the node that it takes out, which unsubscribe still
-- reads.
use bg96_driver.Prelude.{
  ℕ, zero, suc, ◌≡◌, arith, Bool, Option, none, some, ◌==◌, Bool-cases, Option-cases, inl, inr,
}
use bg96_driver.Mqtt.Subscriptions.{
  Sublist, unlink, points_to, remove_loop, remove_from, remove_subscription,
}
use bg96_driver.Mqtt.Subscriptions.Chain.{Item, linked}

-- The node at `b` holds `j`, with some link.
abbrev pub Holds : Sublist → ℕ → Item → Type 0
Holds l b j = (q : Option ℕ) × (l.node b ≡ some (linked j q))

unlink-Holds :
    (p b : ℕ) (j : Item) (l l' : Sublist) {u : Unit {0}}
    → Holds l b j
    → unlink p b l ≡ some (u, l')
    → Holds l' b j
unfolding unlink
unlink-Holds p b j l l' (none, n) e = elim (Option-cases (l.node p)) [
  | inl h ↦ absurd (ground arith)
  | inr (before, h) ↦ (none, ground arith)
]
unlink-Holds p b j l l' (some q, n) e = elim (Option-cases (l.node p)) [
  | inl h ↦ absurd (ground arith)
  | inr (before, h) ↦ (none, ground arith)
]

remove_loop-Holds :
    (rounds : ℕ) (b p : ℕ) (j : Item) (l l' : Sublist) {u : Unit {0}}
    → Holds l b j
    → remove_loop rounds b p l ≡ some (u, l')
    → Holds l' b j
unfolding remove_loop
remove_loop-Holds zero b p j l l' h e = absurd (ground arith)
remove_loop-Holds (suc rounds) b p j l l' h e = elim (Option-cases (l.node p)) [
  | inl m ↦ absurd (ground arith)
  | inr (s, m) ↦ elim (Bool-cases (points_to s.next b)) [
    | inl t ↦ unlink-Holds p b j l l' h (ground arith)
    | inr f ↦ elim (Option-cases s.next) [
      | inl g ↦ absurd (ground arith)
      | inr (q, g) ↦ remove_loop-Holds rounds b q j l l' h (ground arith)
    ]
  ]
]

pub remove_subscription-Holds :
    (rounds : ℕ) (b : ℕ) (j : Item) (l l' : Sublist) {v : Bool}
    → Holds l b j
    → remove_subscription rounds (some b) l ≡ some (v, l')
    → Holds l' b j
unfolding remove_subscription remove_from
remove_subscription-Holds rounds b j l l' h e = elim (Option-cases l.first) [
  | inl m ↦ (h.0, ground (arith, h.1))
  | inr (p, m) ↦ elim (Bool-cases (p == b)) [
    | inl t ↦ (h.0, ground (arith, h.1))
    | inr f ↦ elim (Option-cases (remove_loop rounds b p l)) [
      | inl g ↦ absurd (ground arith)
      | inr ((u, l₁), g) ↦ remove_loop-Holds rounds b p j l l' h (ground arith)
    ]
  ]
]
