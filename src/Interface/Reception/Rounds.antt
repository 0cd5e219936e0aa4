-- ===== src/Interface/Reception/Rounds.antt =====
-- BG96Interface.cpp: the rounds of g_eq_event over a modem that keeps what has come for each socket.
use bg96_driver.Prelude.{
  ℕ, ◌<◌, ◌≡◌, ◌≢◌, ◌⊎◌, refl, sym, ap, ◌∙◌, arith, inl, inr, pos, Bool, true, false, List, [], ◌∷◌,
  take, elem, ◌==◌, Bool-cases,
}
use bg96_driver.At.{AtParser}
use bg96_driver.Driver.Sockets.Source.{IsSource, bg96_recv-inbox_other, bg96_send-inbox}
use bg96_driver.Interface.{Iface, RxEvent, read_active}
use bg96_driver.Interface.Events.{rx_event, tx_event}
use bg96_driver.Interface.Poll.{poll_rx, poll_tx, poll_all}
use bg96_driver.Interface.Poll.Steps.{is_polled, poll_rx-Heard, poll_tx-soc_rx}
use bg96_driver.Interface.Delivery.Rounds.{InTable, InTable-head, InTable-tail}
use bg96_driver.Interface.Reception.{IsFetched, IsWaiting, IsBegun, IsReading, Reads, is_complete}
use bg96_driver.Interface.Reception.Attempt.{rx_event-Attempted}

-- The timer plays no part.
retime :
    {buffer stream left : List ℕ} {size : ℕ} {p : RxEvent} (k : ℕ)
    → IsFetched buffer stream size p left
    → IsFetched buffer stream size (record p { timer = k }) left
retime k v = record {
  complete = v.complete;
  deaf = v.deaf;
  got = v.got;
  counted = v.counted;
  stored = v.stored;
  split = v.split;
  fits = v.fits;
}

-- Nor does it for one that has begun; the stream is left whole.
IsBegun-left :
    {i : ℕ} {buffer stream more : List ℕ} {size : ℕ} {p : RxEvent} (k : ℕ)
    → IsBegun i buffer stream size p more
    → IsBegun i buffer stream size (record p { timer = k }) stream
IsBegun-left k v = record {
  deaf = v.deaf;
  of_socket = v.of_socket;
  uncounted = v.uncounted;
  stored = v.stored;
  asked = v.asked;
  whole = refl;
}

module _ {D : Type 0} {io : AtParser D} {target room : D → ℕ} {ready : D → Bool}
    {inbox : ℕ → D → List ℕ} (src : IsSource io target room ready inbox) where
  poll_rx-own :
      (i : ℕ) (slow : Bool) (s : Iface D)
      → (s.soc_rx i).state ≡ read_active
      → let ((_, q), b) = rx_event io (s.soc_rx i) s.bg96 in
        let t = (poll_rx io i slow s).1 in
        (t.soc_rx i ≡ record q { timer = (t.soc_rx i).timer }) × (t.bg96 ≡ b)
  unfolding poll_rx
  poll_rx-own i slow s e = ground arith

  poll_rx-idle :
      (i : ℕ) (slow : Bool) (s : Iface D)
      → is_complete (s.soc_rx i).state ≡ true
      → (s.soc_rx i).dis_to ≡ false
      → (poll_rx io i slow s).1 ≡ s
  unfolding poll_rx
  poll_rx-idle i slow s e d = ground arith

  poll_rx-other :
      (j : ℕ) (slow : Bool) (s : Iface D) (i : ℕ)
      → j ≢ i
      → (is_polled (s.soc_rx j) ≡ true → (s.soc_rx j).socket_id ≡ j)
      → let t = (poll_rx io j slow s).1 in
        (t.soc_rx i ≡ s.soc_rx i) × (inbox i t.bg96.dev ≡ inbox i s.bg96.dev)
  unfolding poll_rx rx_event
  poll_rx-other j slow s i ne own = elim (Bool-cases (is_polled (s.soc_rx j))) [
    | inr done ↦ rw done (refl, refl)
    | inl active ↦
        let p = s.soc_rx j in
        let other : i ≢ p.socket_id = λ e. ne (sym (e ∙ own active)) in
        ground (arith, bg96_recv-inbox_other src p.socket_id p.req_size s.bg96 i other)
  ]

  poll_tx-inbox :
      (j : ℕ) (slow : Bool) (s : Iface D) (i : ℕ)
      → inbox i (poll_tx io j slow s).1.bg96.dev ≡ inbox i s.bg96.dev
  unfolding poll_tx tx_event
  poll_tx-inbox j slow s i =
      let p = s.soc_tx j in
      ground (arith, bg96_send-inbox src (pos p.socket_id) p.dptr p.req_size s.bg96 i)

  module _ {i : ℕ} {buffer stream : List ℕ} {size : ℕ} (lt : size < 2147483648) where
    -- Its own turn completes the read if something has come.
    own_turn :
        {may_wait : Bool} (slow : Bool) (s : Iface D)
        → Reads i buffer stream size may_wait (s.soc_rx i) (inbox i s.bg96.dev)
        → let t = (poll_rx io i slow s).1 in
          IsFetched buffer stream size (t.soc_rx i) (inbox i t.bg96.dev)
          ⊎ ((take size stream ≡ [])
              × (may_wait ≡ true)
              × IsWaiting i buffer stream size (t.soc_rx i) (inbox i t.bg96.dev))
    own_turn slow s (inl v) = rw (poll_rx-idle i slow s v.complete v.deaf) (inl v)
    own_turn slow s (inr (w, v)) =
        let e = poll_rx-own i slow s v.0 in
        rw (e.0, e.1)
          (elim (rx_event-Attempted src s.bg96 lt v.1) [
            | inl (m, d, n) ↦ inl (retime _ d)
            | inr (m, z, q, l) ↦ inr (z, w, rw q (v.0, rw l (IsBegun-left _ v.1)))
          ])

    -- Something is to be had from the stream.
    lands :
        {may_wait : Bool} {p : RxEvent} {left : List ℕ}
        → take size stream ≢ []
        → IsFetched buffer stream size p left
          ⊎ ((take size stream ≡ []) × (may_wait ≡ true) × IsWaiting i buffer stream size p left)
        → Reads i buffer stream size false p left
    lands some_left (inl v) = inl v
    lands some_left (inr (z, w, v)) = absurd (some_left z)

    keeps_on :
        {may_wait : Bool} {p : RxEvent} {left : List ℕ}
        → IsFetched buffer stream size p left
          ⊎ ((take size stream ≡ []) × (may_wait ≡ true) × IsWaiting i buffer stream size p left)
        → Reads i buffer stream size may_wait p left
    keeps_on (inl v) = inl v
    keeps_on (inr (z, w, v)) = inr (w, v)

    pub moved :
        {may_wait : Bool} {p q : RxEvent} {left more : List ℕ}
        → p ≡ q
        → left ≡ more
        → Reads i buffer stream size may_wait q more
        → Reads i buffer stream size may_wait p left
    moved e f d = rw (e, f) d

    any_turn :
        {may_wait : Bool} (j : ℕ) (slow : Bool) (s : Iface D)
        → j < 5
        → IsReading inbox i buffer stream size may_wait s
        → let t = (poll_rx io j slow s).1 in
          Reads i buffer stream size may_wait (t.soc_rx i) (inbox i t.bg96.dev)
    any_turn j slow s in_table v = elim (Bool-cases (j == i)) [
      | inl own ↦ let e : j ≡ i = ground arith in rw e (keeps_on (own_turn slow s v.status))
      | inr other ↦
          let ne : j ≢ i = λ e. ground arith in
          let e = poll_rx-other j slow s i ne (v.heard j in_table) in moved e.0 e.1 v.status
    ]

    poll_rx-IsReading :
        {may_wait : Bool} (j : ℕ) (slow : Bool) (s : Iface D)
        → j < 5
        → IsReading inbox i buffer stream size may_wait s
        → IsReading inbox i buffer stream size may_wait (poll_rx io j slow s).1
    poll_rx-IsReading j slow s in_table v = record {
      heard = poll_rx-Heard io j slow s v.heard;
      status = any_turn j slow s in_table v;
    }

    -- What leaves the receiving events and what the modem has for the socket as they are.
    pub frame-IsReading :
        {may_wait : Bool} {s t : Iface D}
        → t.soc_rx ≡ s.soc_rx
        → inbox i t.bg96.dev ≡ inbox i s.bg96.dev
        → IsReading inbox i buffer stream size may_wait s
        → IsReading inbox i buffer stream size may_wait t
    frame-IsReading {s} {t} e f v = record {
      heard = λ j in_table. rw e (v.heard j in_table);
      status = moved (ap (λ g. g i) e) f v.status;
    }

    poll_tx-IsReading :
        {may_wait : Bool} (j : ℕ) (slow : Bool) (s : Iface D)
        → IsReading inbox i buffer stream size may_wait s
        → IsReading inbox i buffer stream size may_wait (poll_tx io j slow s).1
    poll_tx-IsReading j slow s v =
        frame-IsReading (poll_tx-soc_rx io j slow s) (poll_tx-inbox j slow s i) v

    pub poll_all-IsReading :
        {may_wait : Bool} (is : List ℕ) (done slow : Bool) (s : Iface D)
        → InTable is
        → IsReading inbox i buffer stream size may_wait s
        → IsReading inbox i buffer stream size may_wait (poll_all io is done slow s).1
    unfolding poll_all
    poll_all-IsReading [] done slow s below v = v
    poll_all-IsReading (j ∷ is) done slow s below v =
        poll_all-IsReading is _ _ _ (InTable-tail j is below)
          (poll_tx-IsReading j _ _ (poll_rx-IsReading j slow s (InTable-head j is below) v))

    own_lands :
        {may_wait : Bool} (j : ℕ) (slow : Bool) (s : Iface D)
        → j ≡ i
        → take size stream ≢ []
        → IsReading inbox i buffer stream size may_wait s
        → IsReading inbox i buffer stream size false (poll_rx io j slow s).1
    own_lands j slow s e some_left v = record {
      heard = poll_rx-Heard io j slow s v.heard;
      status = rw e (lands some_left (own_turn slow s v.status));
    }

    -- A round that looks at the socket completes the read if something has come.
    pub poll_all-fetches :
        {may_wait : Bool} (is : List ℕ) (done slow : Bool) (s : Iface D)
        → InTable is
        → elem i is ≡ true
        → take size stream ≢ []
        → IsReading inbox i buffer stream size may_wait s
        → IsReading inbox i buffer stream size false (poll_all io is done slow s).1
    unfolding poll_all
    poll_all-fetches [] done slow s below m some_left v = absurd (cc)
    poll_all-fetches (j ∷ is) done slow s below m some_left v =
        let ((rx_more, slow'), s₁) = poll_rx io j slow s in
        let below' : InTable is = InTable-tail j is below in
        elim (Bool-cases (i == j)) [
          | inl own ↦
              poll_all-IsReading is _ _ _ below'
                (poll_tx-IsReading j slow' s₁ (own_lands j slow s (ground arith) some_left v))
          | inr other ↦ poll_all-fetches is _ _ _ below' (ground arith) some_left (
              poll_tx-IsReading j slow' s₁ (poll_rx-IsReading j slow s (InTable-head j is below) v))
        ]
