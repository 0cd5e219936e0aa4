-- ===== src/Mqtt/Subscriptions/Update.antt =====
-- MQTT/BG96MQTTClient.cpp, append_subscription and remove_subscription: what they make of the list.
use mathlib.Core.Path.{subst}
use bg96_driver.Prelude.{
  ℕ, sym, ◌∙◌, zero, suc, ◌<◌, ◌≤◌, ◌≡◌, refl, arith, true, false, Option, none, some, [], ◌∷◌,
  ◌++◌, length, ◌==◌, elem,
}
use bg96_driver.Mqtt.Subscriptions.{
  Sublist, set_node, append_loop, append_after, append_subscription, unlink, remove_loop,
  remove_from, remove_subscription,
}
use bg96_driver.Mqtt.Subscriptions.Chain.{
  Item, Items, linked, addresses, Chain, Distinct, Chain-set_node,
}

-- An address that is not in the list differs from each of the list's.
pub apart :
    (xs ys : Items) (a b : ℕ) (j : Item)
    → elem a (addresses (xs ++ (b, j) ∷ ys)) ≡ false
    → (a == b) ≡ false
apart [] ys a b j h = ground arith
apart ((c, k) ∷ r) ys a b j h = ground (arith, apart r ys a b j)

-- A list that holds the items `ys` from `p` on, and is `l` at all addresses but those of `xs`.
abbrev Becomes : Sublist → Sublist → Option ℕ → Items → Items → Type 0
Becomes l l' p xs ys =
    Chain l'.node p ys
    × (l'.first ≡ l.first)
    × ((b : ℕ) → elem b (addresses xs) ≡ false → l'.node b ≡ l.node b)

append_loop-Chain :
    (rounds : ℕ) (b : ℕ) (j : Item) (xs : Items) (a : ℕ) (i : Item) (q : Option ℕ) (l : Sublist)
    → length xs < rounds
    → Distinct ((a, i) ∷ xs)
    → elem b (addresses ((a, i) ∷ xs)) ≡ false
    → l.node b ≡ some (linked j none)
    → l.node a ≡ some (linked i q)
    → Chain l.node q xs
    → (l' : Sublist) × (append_loop rounds b a l ≡ some (tt, l'))
      × Becomes l l' (some a) ((a, i) ∷ xs) ((a, i) ∷ xs ++ (b, j) ∷ [])
unfolding append_loop
append_loop-Chain zero b j xs a i q l lt d f nb na c = absurd (omega arith)
append_loop-Chain (suc rounds) b j [] a i q l lt d f nb na c = (
  set_node a (some (linked i (some b))) l,
  ground arith,
  ((some b, refl, ground arith, (none, refl, ground arith, refl)), refl, λ e h. ground arith),
)
append_loop-Chain (suc rounds) b j ((a', i') ∷ xs) a i q l lt d f nb na (q', e, na', c) =
    let (l', r, (c', p, same)) =
      append_loop-Chain rounds b j xs a' i' q' l (omega arith) d.1 (ground arith) nb na' c in
    (
      l',
      ground arith,
      ((some a', refl, ground (arith, same a), c'), p, λ x h. ground (arith, same x)),
    )

-- append_subscription puts a node whose link is null at the end of the list, where a round is given
-- for each node.
append_subscription-Chain :
    (rounds : ℕ) (b : ℕ) (j : Item) (xs : Items) (l : Sublist)
    → length xs ≤ rounds
    → Distinct xs
    → elem b (addresses xs) ≡ false
    → l.node b ≡ some (linked j none)
    → Chain l.node l.first xs
    → (l' : Sublist) × (append_subscription rounds (some b) l ≡ some (true, l'))
      × Chain l'.node l'.first (xs ++ (b, j) ∷ [])
unfolding append_subscription append_after
append_subscription-Chain rounds b j [] l le d f nb c =
    (record l { first = some b }, ground arith, (none, refl, nb, refl))
append_subscription-Chain rounds b j ((a, i) ∷ xs) l le d f nb (q, e, na, c) =
    let (l', r, (c', p, same)) =
      append_loop-Chain rounds b j xs a i q l (omega arith) d f nb na c in
    (l', ground arith, subst (λ x. Chain l'.node x ((a, i) ∷ xs ++ (b, j) ∷ [])) (sym (p ∙ e)) c')

-- The node behind `a` is taken out.
unlink-Chain :
    (a b : ℕ) (i j : Item) (ys : Items) (q : Option ℕ) (l : Sublist)
    → Distinct ((a, i) ∷ (b, j) ∷ ys)
    → l.node a ≡ some (linked i (some b))
    → l.node b ≡ some (linked j q)
    → Chain l.node q ys
    → (l' : Sublist) × (unlink a b l ≡ some (tt, l'))
      × Becomes l l' (some a) ((a, i) ∷ (b, j) ∷ ys) ((a, i) ∷ ys)
unfolding unlink
unlink-Chain a b i j ys none l d na nb c =
    let l₁ = set_node a (some (linked i none)) l in
    (
      l₁,
      ground arith,
      (
        (none, refl, ground arith, Chain-set_node ys l a _ none (ground arith) c),
        refl,
        λ e h. ground arith,
      ),
    )
unlink-Chain a b i j ys (some q) l d na nb c =
    let l₁ = set_node a (some (linked i (some q))) l in
    let l₂ = set_node b (some (linked j none)) l₁ in
    (
      l₂,
      ground arith,
      (
        (
          some q,
          refl,
          ground arith,
          Chain-set_node ys l₁ b _ (some q) (ground arith)
              (Chain-set_node ys l a _ (some q) (ground arith) c),
        ),
        refl,
        λ e h. ground arith,
      ),
    )

remove_loop-Chain :
    (rounds : ℕ) (b : ℕ) (j : Item) (xs ys : Items) (a : ℕ) (i : Item) (q : Option ℕ) (l : Sublist)
    → length xs < rounds
    → Distinct ((a, i) ∷ xs ++ (b, j) ∷ ys)
    → l.node a ≡ some (linked i q)
    → Chain l.node q (xs ++ (b, j) ∷ ys)
    → (l' : Sublist) × (remove_loop rounds b a l ≡ some (tt, l'))
      × Becomes l l' (some a) ((a, i) ∷ xs ++ (b, j) ∷ ys) ((a, i) ∷ xs ++ ys)
unfolding remove_loop
remove_loop-Chain zero b j xs ys a i q l lt d na c = absurd (omega arith)
remove_loop-Chain (suc rounds) b j [] ys a i q l lt d na (q', e, nb, c) =
    let (l', r, k) = unlink-Chain a b i j ys q' l d (ground arith) nb c in (l', ground arith, k)
remove_loop-Chain (suc rounds) b j ((a', i') ∷ xs) ys a i q l lt d na (q', e, na', c) =
    let (l', r, (c', p, same)) =
      remove_loop-Chain rounds b j xs ys a' i' q' l (omega arith) d.1 na' c in
    (
      l',
      ground (arith, apart xs ys a' b j d.1.0),
      ((some a', refl, ground (arith, same a), c'), p, λ x h. ground (arith, same x)),
    )

-- remove_subscription takes the given node out of the list and leaves the others in order, where
-- the addresses differ and a round is given for each node before it.
pub remove_subscription-Chain :
    (rounds : ℕ) (b : ℕ) (j : Item) (xs ys : Items) (l : Sublist)
    → length xs ≤ rounds
    → Distinct (xs ++ (b, j) ∷ ys)
    → Chain l.node l.first (xs ++ (b, j) ∷ ys)
    → (l' : Sublist) × (remove_subscription rounds (some b) l ≡ some (true, l'))
      × Chain l'.node l'.first (xs ++ ys)
unfolding remove_subscription remove_from
remove_subscription-Chain rounds b j [] ys l le d (q, e, nb, c) =
    (record l { first = q }, ground arith, c)
remove_subscription-Chain rounds b j ((a, i) ∷ xs) ys l le d (q, e, na, c) =
    let (l', r, (c', p, same)) = remove_loop-Chain rounds b j xs ys a i q l (omega arith) d na c in
    (
      l',
      ground (arith, apart xs ys a b j d.0),
      subst (λ x. Chain l'.node x ((a, i) ∷ xs ++ ys)) (sym (p ∙ e)) c',
    )
