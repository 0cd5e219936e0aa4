-- ===== src/Interface/Delivery/Rounds.antt =====
-- BG96Interface.cpp: the rounds of g_eq_event over a modem that takes every piece.
use bg96_driver.Prelude.{
  ℕ, zero, suc, ◌<◌, ◌≡◌, ◌≢◌, refl, ap, arith, inl, inr, ℤ, pos, Bool, true, ◌||◌, List, [], ◌∷◌,
  ◌++◌, take, elem, ◌==◌, Bool-cases,
}
use bg96_driver.At.{AtParser}
use bg96_driver.Driver.Sockets.Channel.{
  IsChannel, bg96_send-sent, bg96_send-sent_other, bg96_recv-sent,
}
use bg96_driver.Interface.{Iface, tx_complete, slots}
use bg96_driver.Interface.Events.{rx_event, tx_event, tx_sent}
use bg96_driver.Interface.Poll.{poll_rx, poll_tx, poll_all, is_tx_active}
use bg96_driver.Interface.Poll.Steps.{poll_rx-soc_tx, poll_tx-socket_id, poll_tx-active}
use bg96_driver.Interface.Delivery.{IsPending, IsFlying, Delivers}
use bg96_driver.Interface.Delivery.Pieces.{weaken, moved, piece_pos, tx_sent-Delivers}

-- The indices of a list are those of sockets.
abbrev pub InTable : List ℕ → Type 0
InTable is = (m : ℕ) → elem m is ≡ true → m < 5

pub InTable-head : (j : ℕ) (is : List ℕ) → InTable (j ∷ is) → j < 5
InTable-head j is below = below j (ground arith)

pub InTable-tail : (j : ℕ) (is : List ℕ) → InTable (j ∷ is) → InTable is
InTable-tail j is below m h = below m (ground arith)

pub slots-InTable : InTable slots
slots-InTable m h = ground arith

module _ {D : Type 0} {io : AtParser D} {target : D → ℤ} {sent : ℕ → D → List ℕ}
    (ch : IsChannel io target sent) where
  poll_rx-sent :
      (j : ℕ) (slow : Bool) (s : Iface D) (i : ℕ)
      → sent i (poll_rx io j slow s).1.bg96.dev ≡ sent i s.bg96.dev
  unfolding poll_rx rx_event
  poll_rx-sent j slow s i =
      ground (arith, bg96_recv-sent ch (pos (s.soc_rx j).socket_id) (s.soc_rx j).req_size s.bg96 i)

  poll_tx-other :
      (j : ℕ) (slow : Bool) (s : Iface D) (i : ℕ)
      → j ≢ i
      → (is_tx_active (s.soc_tx j).state ≡ true → (s.soc_tx j).socket_id ≢ i)
      → let t = (poll_tx io j slow s).1 in
        (t.soc_tx i ≡ s.soc_tx i) × (sent i t.bg96.dev ≡ sent i s.bg96.dev)
  unfolding poll_tx tx_event
  poll_tx-other j slow s i ne other = elim (Bool-cases (is_tx_active (s.soc_tx j).state)) [
    | inr done ↦ rw done (refl, refl)
    | inl active ↦
        let p = s.soc_tx j in
        let o = other active in
        ground (arith, bg96_send-sent_other ch p.socket_id p.dptr p.req_size s.bg96 i)
  ]

  complete_idle :
      (i : ℕ) (slow : Bool) (s : Iface D)
      → (s.soc_tx i).state ≡ tx_complete
      → (poll_tx io i slow s).1 ≡ s
  unfolding poll_tx
  complete_idle i slow s e = ground arith

  module _ {i : ℕ} {goal : List ℕ} {size : ℕ} where
    own_piece :
        {k : ℕ} (slow : Bool) (s : Iface D)
        → IsPending i goal size (suc k) (s.soc_tx i) (sent i s.bg96.dev)
        → let t = (poll_tx io i slow s).1 in
          (t.soc_tx i ≡ (tx_sent (s.soc_tx i)).1)
          × (sent i t.bg96.dev ≡ sent i s.bg96.dev ++ take (s.soc_tx i).req_size (s.soc_tx i).dptr)
    unfolding poll_tx tx_event
    own_piece slow s v =
        let p = s.soc_tx i in
        ground (arith, bg96_send-sent ch p.socket_id p.dptr p.req_size s.bg96 (piece_pos v))

    -- Its own turn brings the transfer a piece nearer to its end.
    own_turn :
        {k : ℕ} (slow : Bool) (s : Iface D)
        → Delivers i goal size (suc k) (s.soc_tx i) (sent i s.bg96.dev)
        → let t = (poll_tx io i slow s).1 in Delivers i goal size k (t.soc_tx i) (sent i t.bg96.dev)
    own_turn slow s (inl d) = rw (complete_idle i slow s d.0) (inl d)
    own_turn slow s (inr v) = let e = own_piece slow s v in moved e.0 e.1 (tx_sent-Delivers v)

    -- A turn more than needed does no harm.
    own_turn_kept :
        (k : ℕ) (slow : Bool) (s : Iface D)
        → Delivers i goal size k (s.soc_tx i) (sent i s.bg96.dev)
        → let t = (poll_tx io i slow s).1 in Delivers i goal size k (t.soc_tx i) (sent i t.bg96.dev)
    own_turn_kept zero slow s (inl d) = rw (complete_idle i slow s d.0) (inl d)
    own_turn_kept zero slow s (inr v) = absurd (omega (arith, v.enough, v.sending.unsent))
    own_turn_kept (suc k) slow s d = weaken (omega arith) (own_turn slow s d)

    any_turn :
        (k j : ℕ) (slow : Bool) (s : Iface D)
        → j < 5
        → IsFlying sent i goal size k s
        → let t = (poll_tx io j slow s).1 in Delivers i goal size k (t.soc_tx i) (sent i t.bg96.dev)
    any_turn k j slow s lt v = elim (Bool-cases (j == i)) [
      | inl own ↦ let e : j ≡ i = ground arith in rw e (own_turn_kept k slow s v.status)
      | inr other ↦
          let ne : j ≢ i = λ e. ground arith in
          let e = poll_tx-other j slow s i ne (v.alone j lt ne) in moved e.0 e.1 v.status
    ]

    poll_tx-IsFlying :
        {k : ℕ} (j : ℕ) (slow : Bool) (s : Iface D)
        → j < 5
        → IsFlying sent i goal size k s
        → IsFlying sent i goal size k (poll_tx io j slow s).1
    poll_tx-IsFlying {k} j slow s lt v = record {
      alone = λ m lt' ne act.
          rw (poll_tx-socket_id io j slow s m)
            (v.alone m lt' ne (poll_tx-active io j slow s m act));
      status = any_turn k j slow s lt v;
    }

    -- What leaves the sending events and what the modem has taken as they are.
    pub frame-IsFlying :
        {k : ℕ} {s t : Iface D}
        → t.soc_tx ≡ s.soc_tx
        → sent i t.bg96.dev ≡ sent i s.bg96.dev
        → IsFlying sent i goal size k s
        → IsFlying sent i goal size k t
    frame-IsFlying {k} {s} {t} e f v = record {
      alone = λ j lt ne act. rw e (v.alone j lt ne (rw e at act));
      status = moved (ap (λ g. g i) e) f v.status;
    }

    poll_rx-IsFlying :
        {k : ℕ} (j : ℕ) (slow : Bool) (s : Iface D)
        → IsFlying sent i goal size k s
        → IsFlying sent i goal size k (poll_rx io j slow s).1
    poll_rx-IsFlying j slow s v =
        frame-IsFlying (poll_rx-soc_tx io j slow s) (poll_rx-sent j slow s i) v

    pub poll_all-IsFlying :
        {k : ℕ} (is : List ℕ) (done slow : Bool) (s : Iface D)
        → InTable is
        → IsFlying sent i goal size k s
        → IsFlying sent i goal size k (poll_all io is done slow s).1
    unfolding poll_all
    poll_all-IsFlying [] done slow s below v = v
    poll_all-IsFlying (j ∷ is) done slow s below v =
        poll_all-IsFlying is _ _ _ (InTable-tail j is below)
          (poll_tx-IsFlying j _ _ (InTable-head j is below) (poll_rx-IsFlying j slow s v))

    turn_of :
        {k : ℕ} (j : ℕ) (slow : Bool) (s : Iface D)
        → j ≡ i
        → Delivers i goal size (suc k) (s.soc_tx i) (sent i s.bg96.dev)
        → let t = (poll_tx io j slow s).1 in Delivers i goal size k (t.soc_tx i) (sent i t.bg96.dev)
    turn_of j slow s e d = rw e (own_turn slow s d)

    -- A round that looks at the socket takes a piece off what is needed.
    pub poll_all-lands :
        {k : ℕ} (is : List ℕ) (done slow : Bool) (s : Iface D)
        → InTable is
        → elem i is ≡ true
        → IsFlying sent i goal size (suc k) s
        → IsFlying sent i goal size k (poll_all io is done slow s).1
    unfolding poll_all
    poll_all-lands [] done slow s below m v = absurd (cc)
    poll_all-lands {k} (j ∷ is) done slow s below m v =
        let ((rx_more, slow'), s₁) = poll_rx io j slow s in
        let ((tx_more, slow''), s₂) = poll_tx io j slow' s₁ in
        let v₁ : IsFlying sent i goal size (suc k) s₁ = poll_rx-IsFlying j slow s v in
        let v₂ : IsFlying sent i goal size (suc k) s₂ =
          poll_tx-IsFlying j slow' s₁ (InTable-head j is below) v₁ in
        let below' : InTable is = InTable-tail j is below in
        elim (Bool-cases (i == j)) [
          | inl own ↦
              let e : j ≡ i = ground arith in
              poll_all-IsFlying is (done || rx_more || tx_more) slow'' s₂ below'
                (record { alone = v₂.alone; status = turn_of j slow' s₁ e v₁.status })
          | inr other ↦
              poll_all-lands is (done || rx_more || tx_more) slow'' s₂ below' (ground arith) v₂
        ]
