-- ===== src/Mqtt/Subscriptions/Chain.antt =====
-- The list of subscriptions as its users see it: items in order, without the pointers.
use bg96_driver.Prelude.{
  ℕ, ◌≡◌, arith, ℤ, true, false, Option, none, some, List, [], ◌∷◌, elem, CStr,
}
use bg96_driver.Mqtt.Subscriptions.{Subscription, Sublist, set_node}

-- A subscription without its link.
pub record Item : Type 0 where
  pub msg_id : ℤ
  pub qos : ℤ
  pub topic : CStr
  pub handler : Option ℕ
  pub param : ℕ

abbrev pub linked : Item → Option ℕ → Subscription
linked i q = record {
  msg_id = i.msg_id;
  qos = i.qos;
  topic = i.topic;
  handler = i.handler;
  param = i.param;
  next = q;
}

-- Items with the addresses of their nodes.
abbrev pub Items : Type 0
Items = List (ℕ × Item)

abbrev pub addresses : Items → List ℕ
addresses [] = []
addresses ((a, i) ∷ r) = a ∷ addresses r

-- From `p` on the nodes hold the items, and the last link is null.
abbrev pub Chain : (ℕ → Option Subscription) → Option ℕ → Items → Type 0
Chain node p [] = p ≡ none
Chain node p ((a, i) ∷ r) =
    (q : Option ℕ) × (p ≡ some a) × (node a ≡ some (linked i q)) × Chain node q r

abbrev pub Distinct : Items → Type 0
Distinct [] = Unit {0}
Distinct ((a, i) ∷ r) = (elem a (addresses r) ≡ false) × Distinct r

-- Every topic has a '/'.
abbrev pub HaveSlash : Items → Type 0
HaveSlash [] = Unit {0}
HaveSlash ((a, i) ∷ r) = (elem b'/' i.topic ≡ true) × HaveSlash r

-- Two memories that agree on the nodes of the chain.
Chain-frame :
    (xs : Items) (node node' : ℕ → Option Subscription) (p : Option ℕ)
    → ((a : ℕ) → elem a (addresses xs) ≡ true → node' a ≡ node a)
    → Chain node p xs
    → Chain node' p xs
Chain-frame [] node node' p same c = c
Chain-frame ((a, i) ∷ r) node node' p same (q, e, n, c) = (
  q,
  e,
  ground (arith, same a, n),
  Chain-frame r node node' q (λ b h. same b (ground (arith, h))) c,
)

-- A write elsewhere.
pub Chain-set_node :
    (xs : Items) (l : Sublist) (a : ℕ) (sub : Option Subscription) (p : Option ℕ)
    → elem a (addresses xs) ≡ false
    → Chain l.node p xs
    → Chain (set_node a sub l).node p xs
Chain-set_node xs l a sub p h c =
    Chain-frame xs l.node (set_node a sub l).node p (λ b m. other xs b m h) c
  where
    other :
        (xs : Items) (b : ℕ)
        → elem b (addresses xs) ≡ true
        → elem a (addresses xs) ≡ false
        → (set_node a sub l).node b ≡ l.node b
    other [] b m h = cc
    other ((c, i) ∷ r) b m h = ground (arith, other r b)
