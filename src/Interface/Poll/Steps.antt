-- ===== src/Interface/Poll/Steps.antt =====
-- BG96Interface.cpp: what the rounds of g_eq_event leave of the transfers and of the queue.
use bg96_driver.Prelude.{
  ℕ, ◌<◌, ◌≡◌, refl, ◌∙◌, arith, ℤ, Bool, true, false, ◌||◌, List, [], ◌∷◌, ltb, ◌==◌, elem,
}
use bg96_driver.At.{AtParser, Bg96}
use bg96_driver.Interface.{Iface, RxEvent, TxEvent}
use bg96_driver.Interface.Events.{rx_event, tx_event, rx_received, tx_sent}
use bg96_driver.Interface.Poll.{poll_rx, poll_tx, poll_all, is_read_active, is_tx_active}

-- The rounds attempt the read: it is under way, or its socket listens.
abbrev pub is_polled : RxEvent → Bool
is_polled p = is_read_active p.state || p.dis_to

module _ {D : Type 0} where
  -- A read or a send of socket `j` is under way.
  abbrev pub busy : ℕ → Iface D → Bool
  busy j s = is_read_active (s.soc_rx j).state || is_tx_active (s.soc_tx j).state

  -- Each busy socket will be looked at: another round is due (`done`), a call of g_eq_event waits
  -- in the queue, or its index is still in the list of the round.
  abbrev pub Covered : Bool → List ℕ → Iface D → Type 0
  Covered done is s =
      (j : ℕ) → j < 5 → busy j s ≡ true → (done || ltb 0 s.pending || elem j is) ≡ true

  -- A send that is under way is on the socket of its own index.
  abbrev pub Owned : Iface D → Type 0
  Owned s = (j : ℕ) → j < 5 → is_tx_active (s.soc_tx j).state ≡ true → (s.soc_tx j).socket_id ≡ j

  -- So is a read that the rounds attempt, under way or not.
  abbrev pub Heard : Iface D → Type 0
  Heard s = (j : ℕ) → j < 5 → is_polled (s.soc_rx j) ≡ true → (s.soc_rx j).socket_id ≡ j

-- An attempt that asks for more leaves the state, and one that does not ends the activity.
rx_received-state :
    (p : RxEvent) (cnt : ℤ) (bytes : List ℕ)
    → let (more, q) = rx_received p cnt bytes in
      (more ≡ true → q.state ≡ p.state) × (more ≡ false → is_read_active q.state ≡ false)
unfolding rx_received
rx_received-state p cnt bytes = ground arith

tx_sent-state :
    (p : TxEvent)
    → let (more, q) = tx_sent p in
      (more ≡ true → q.state ≡ p.state) × (more ≡ false → is_tx_active q.state ≡ false)
unfolding tx_sent
tx_sent-state p = ground arith

rx_received-kept :
    (p : RxEvent) (cnt : ℤ) (bytes : List ℕ)
    → let q = (rx_received p cnt bytes).1 in (q.socket_id ≡ p.socket_id) × (q.dis_to ≡ p.dis_to)
unfolding rx_received
rx_received-kept p cnt bytes = ground arith

tx_sent-socket_id : (p : TxEvent) → (tx_sent p).1.socket_id ≡ p.socket_id
unfolding tx_sent
tx_sent-socket_id p = ground arith

module _ {D : Type 0} (io : AtParser D) where
  pub rx_event-state :
      (p : RxEvent) (b : Bg96 D)
      → let (more, q) = (rx_event io p b).0 in
        (more ≡ true → q.state ≡ p.state) × (more ≡ false → is_read_active q.state ≡ false)
  unfolding rx_event
  rx_event-state p b = rx_received-state p _ _

  pub tx_event-state :
      (p : TxEvent) (b : Bg96 D)
      → let (more, q) = (tx_event io p b).0 in
        (more ≡ true → q.state ≡ p.state) × (more ≡ false → is_tx_active q.state ≡ false)
  unfolding tx_event
  tx_event-state p b = ground (arith, tx_sent-state p)

  pub rx_event-kept :
      (p : RxEvent) (b : Bg96 D)
      → let q = (rx_event io p b).0.1 in (q.socket_id ≡ p.socket_id) × (q.dis_to ≡ p.dis_to)
  unfolding rx_event
  rx_event-kept p b = rx_received-kept p _ _

  pub tx_event-socket_id :
      (p : TxEvent) (b : Bg96 D) → (tx_event io p b).0.1.socket_id ≡ p.socket_id
  unfolding tx_event
  tx_event-socket_id p b = ground (arith, tx_sent-socket_id p)

  poll_rx-busy :
      (i : ℕ) (slow : Bool) (s : Iface D) (j : ℕ)
      → let ((more, _), t) = poll_rx io i slow s in
        busy j t ≡ true
        → (busy j s ≡ true)
          × ((j == i) ≡ true → is_read_active (t.soc_rx j).state ≡ true → more ≡ true)
  unfolding poll_rx
  poll_rx-busy i slow s j = ground (arith, rx_event-state (s.soc_rx i) s.bg96)

  poll_rx-queue :
      (i : ℕ) (slow : Bool) (s : Iface D)
      → let t = (poll_rx io i slow s).1 in
        (t.pending ≡ s.pending) × (t.scheduled_events ≡ s.scheduled_events)
  unfolding poll_rx
  poll_rx-queue i slow s = ground arith

  poll_tx-busy :
      (i : ℕ) (slow : Bool) (s : Iface D) (j : ℕ)
      → let ((more, _), t) = poll_tx io i slow s in
        busy j t ≡ true
        → (busy j s ≡ true)
          × ((j == i) ≡ true → is_tx_active (t.soc_tx j).state ≡ true → more ≡ true)
          × ((t.soc_rx j).state ≡ (s.soc_rx j).state)
  unfolding poll_tx
  poll_tx-busy i slow s j = ground (arith, tx_event-state (s.soc_tx i) s.bg96)

  poll_tx-queue :
      (i : ℕ) (slow : Bool) (s : Iface D)
      → let t = (poll_tx io i slow s).1 in
        (t.pending ≡ s.pending) × (t.scheduled_events ≡ s.scheduled_events)
  unfolding poll_tx
  poll_tx-queue i slow s = ground arith

  pub poll_rx-soc_tx :
      (i : ℕ) (slow : Bool) (s : Iface D) → (poll_rx io i slow s).1.soc_tx ≡ s.soc_tx
  unfolding poll_rx
  poll_rx-soc_tx i slow s = ground arith

  pub poll_rx-Heard : (i : ℕ) (slow : Bool) (s : Iface D) → Heard s → Heard (poll_rx io i slow s).1
  unfolding poll_rx
  poll_rx-Heard i slow s h j lt act =
      ground (arith, rx_event-kept (s.soc_rx i) s.bg96, h j lt, rx_event-state (s.soc_rx i) s.bg96)

  pub poll_tx-soc_rx :
      (i : ℕ) (slow : Bool) (s : Iface D) → (poll_tx io i slow s).1.soc_rx ≡ s.soc_rx
  unfolding poll_tx
  poll_tx-soc_rx i slow s = ground arith

  pub poll_all-Heard :
      (is : List ℕ) (done slow : Bool) (s : Iface D)
      → Heard s
      → Heard (poll_all io is done slow s).1
  unfolding poll_all
  poll_all-Heard [] done slow s h = h
  poll_all-Heard (i ∷ is) done slow s h =
      let ((rx_more, slow'), s₁) = poll_rx io i slow s in
      poll_all-Heard is _ _ _
        (λ j lt. rw (poll_tx-soc_rx i slow' s₁) (poll_rx-Heard i slow s h j lt))

  pub poll_tx-socket_id :
      (i : ℕ) (slow : Bool) (s : Iface D) (j : ℕ)
      → ((poll_tx io i slow s).1.soc_tx j).socket_id ≡ (s.soc_tx j).socket_id
  unfolding poll_tx
  poll_tx-socket_id i slow s j = ground (arith, tx_event-socket_id (s.soc_tx i) s.bg96)

  -- An event that is under way after a round was so before.
  pub poll_tx-active :
      (i : ℕ) (slow : Bool) (s : Iface D) (j : ℕ)
      → is_tx_active ((poll_tx io i slow s).1.soc_tx j).state ≡ true
      → is_tx_active (s.soc_tx j).state ≡ true
  unfolding poll_tx
  poll_tx-active i slow s j h = ground (arith, tx_event-state (s.soc_tx i) s.bg96)

  poll_tx-Owned : (i : ℕ) (slow : Bool) (s : Iface D) → Owned s → Owned (poll_tx io i slow s).1
  poll_tx-Owned i slow s o j lt act =
      poll_tx-socket_id i slow s j ∙ o j lt (poll_tx-active i slow s j act)

  pub poll_all-Owned :
      (is : List ℕ) (done slow : Bool) (s : Iface D)
      → Owned s
      → Owned (poll_all io is done slow s).1
  unfolding poll_all
  poll_all-Owned [] done slow s o = o
  poll_all-Owned (i ∷ is) done slow s o =
      let ((rx_more, slow'), s₁) = poll_rx io i slow s in
      let o₁ : Owned s₁ = λ j lt. rw (poll_rx-soc_tx i slow s) (o j lt) in
      poll_all-Owned is _ _ _ (poll_tx-Owned i slow' s₁ o₁)

  -- One round of the loop takes its index off the list of those that are still covered by it.
  poll_one-Covered :
      (i : ℕ) (is : List ℕ) (done slow : Bool) (s : Iface D)
      → Covered done (i ∷ is) s
      → let ((rx_more, slow'), s₁) = poll_rx io i slow s in
        let ((tx_more, _), s₂) = poll_tx io i slow' s₁ in Covered (done || rx_more || tx_more) is s₂
  poll_one-Covered i is done slow s c j lt b =
      let ((rx_more, slow'), s₁) = poll_rx io i slow s in
      let t = poll_tx-busy i slow' s₁ j b in
      let r = poll_rx-busy i slow s j t.0 in
      ground (arith, t, r, c j lt r.0, poll_rx-queue i slow s, poll_tx-queue i slow' s₁)

  pub poll_all-Covered :
      (is : List ℕ) (done slow : Bool) (s : Iface D)
      → Covered done is s
      → Covered (poll_all io is done slow s).0 [] (poll_all io is done slow s).1
  unfolding poll_all
  poll_all-Covered [] done slow s c = c
  poll_all-Covered (i ∷ is) done slow s c =
      poll_all-Covered is _ _ _ (poll_one-Covered i is done slow s c)

  pub poll_all-queue :
      (is : List ℕ) (done slow : Bool) (s : Iface D)
      → let t = (poll_all io is done slow s).1 in
        (t.pending ≡ s.pending) × (t.scheduled_events ≡ s.scheduled_events)
  unfolding poll_all
  poll_all-queue [] done slow s = (refl, refl)
  poll_all-queue (i ∷ is) done slow s =
      let ((rx_more, slow'), s₁) = poll_rx io i slow s in
      let ((tx_more, slow''), s₂) = poll_tx io i slow' s₁ in
      let r = poll_all-queue is (done || rx_more || tx_more) slow'' s₂ in
      let q = poll_rx-queue i slow s in
      let t = poll_tx-queue i slow' s₁ in (r.0 ∙ t.0 ∙ q.0, r.1 ∙ t.1 ∙ q.1)
