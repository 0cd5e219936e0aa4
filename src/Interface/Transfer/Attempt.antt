-- ===== src/Interface/Transfer/Attempt.antt =====
-- BG96Interface.cpp: the first call of socket_send for a buffer, and the call after its completion.
use bg96_driver.Prelude.{
  ℕ, ◌+◌, ◌≤◌, ◌<◌, ◌≡◌, refl, arith, ◌∙◌, ℤ, pos, Bool, true, false, ◌&&◌, none, some, List, drop,
  length, if◌then◌else◌, ltb, leb, u32, as_int, Bool-cases, inl, inr, ◌⊎◌,
}
use bg96_driver.At.{AtParser, nsapi_error_would_block}
use bg96_driver.Driver.Sockets.{bg96_send}
use bg96_driver.Interface.{
  Iface, Application, TxEvent, Socket, tx_idle, tx_active, tx_complete, set_tx,
}
use bg96_driver.Interface.Events.{tx_event, tx_sent, eq_schedule, clamp}
use bg96_driver.Interface.Events.Transmit.{IsSending, tx_sent-IsSending}
use bg96_driver.Interface.Transfer.{socket_send, send_in, start_tx, after_tx, finish_tx, notify_tx}

-- The event that socket_send starts with is well-formed.
pub start_tx-IsSending :
    (p : TxEvent) (sock : Socket) (i : ℕ) (bytes : List ℕ) (size : ℕ)
    → 0 < size
    → size < 4294967296
    → length bytes ≡ size
    → IsSending (start_tx p sock i bytes size)
unfolding start_tx
start_tx-IsSending p sock i bytes size h w l = ground arith

-- Scheduling leaves the events alone.
pub eq_schedule-soc_tx : {D : Type 0} (s : Iface D) → (eq_schedule s).soc_tx ≡ s.soc_tx
unfolding eq_schedule
eq_schedule-soc_tx s = ground arith

-- A buffer of one piece, and one of several, once the first piece is sent.
pub one_piece :
    (p : TxEvent)
    → IsSending p
    → p.callback ≡ none
    → p.total_sent ≡ 0
    → p.orig_size ≤ 1500
    → let (more, q) = tx_sent p in
      (more ≡ false) × (q.state ≡ tx_complete) × (q.total_sent ≡ p.orig_size)
unfolding tx_sent
one_piece p v cb z le = (ground arith, ground arith, ground arith)

pub several_pieces :
    (p : TxEvent)
    → IsSending p
    → p.total_sent ≡ 0
    → 1500 < p.orig_size
    → let (more, q) = tx_sent p in (more ≡ true) × (q.dptr ≡ drop 1500 p.dptr)
unfolding tx_sent
several_pieces p v z lt =
    let e : p.req_size ≡ 1500 = ground (arith, v.requested) in
    let m : ltb (u32 (p.total_sent + p.req_size)) p.orig_size ≡ true = ground (arith, v.in_word) in
    rw (m, e) (refl, refl)

module _ {D : Type 0} (io : AtParser D) (app : Application D) where
  -- Whether the modem takes the first piece.
  abbrev pub takes : ℕ → List ℕ → ℕ → Iface D → Bool
  takes i bytes size s = (bg96_send io (pos i) bytes (clamp size) s.bg96).0

  pub after_tx_more :
      (i : ℕ) (p : TxEvent) (s : Iface D)
      → let (r, t) = after_tx io app i true (set_tx i p s) in
        (r ≡ nsapi_error_would_block) × (t.soc_tx i ≡ record p { state = tx_active })
  unfolding after_tx
  after_tx_more i p s = (refl, rw eq_schedule-soc_tx (ground arith))

  pub after_tx_done :
      (i : ℕ) (p : TxEvent) (s : Iface D)
      → p.state ≡ tx_complete
      → let (r, t) = after_tx io app i false (set_tx i p s) in
        (r ≡ as_int p.total_sent) × ((t.soc_tx i).state ≡ tx_idle)
  unfolding after_tx notify_tx finish_tx
  after_tx_done i p s e = ground arith

  -- What is to hold after the first attempt at `p`, which the modem has taken or not.
  abbrev pub Attempted : Bool → ℕ → TxEvent → ℤ × Iface D → Type 0
  Attempted a i p (r, t) =
      (((a && leb p.orig_size 1500) ≡ true)
        × (r ≡ pos p.orig_size)
        × ((t.soc_tx i).state ≡ tx_idle))
      ⊎ (((a && leb p.orig_size 1500) ≡ false)
          × (r ≡ nsapi_error_would_block)
          × ((t.soc_tx i).state ≡ tx_active)
          × IsSending (t.soc_tx i)
          × ((t.soc_tx i).dptr ≡ (if a then drop 1500 p.dptr else p.dptr)))

  pending :
      (i : ℕ) (p : TxEvent) (s : Iface D)
      → IsSending p
      → let (r, t) = after_tx io app i true (set_tx i p s) in
        (r ≡ nsapi_error_would_block)
        × ((t.soc_tx i).state ≡ tx_active)
        × IsSending (t.soc_tx i)
        × ((t.soc_tx i).dptr ≡ p.dptr)
  pending i p s v =
      let m = after_tx_more i p s in
      (
        m.0,
        rw m.1 refl,
        rw m.1 (record {
          in_word = v.in_word;
          unsent = v.unsent;
          rest = v.rest;
          requested = v.requested;
        }),
        rw m.1 refl,
      )

  attempted :
      (a : Bool) (i : ℕ) (p : TxEvent) (s : Iface D)
      → IsSending p
      → p.callback ≡ none
      → p.total_sent ≡ 0
      → p.orig_size < 2147483648
      → let (more, q) = if a then tx_sent p else (true, p) in
        Attempted a i p (after_tx io app i more (set_tx i q s))
  attempted false i p s v cb z w = let d = pending i p s v in inr (refl, d.0, d.1, d.2, d.3)
  attempted true i p s v cb z w = elim (Bool-cases (leb p.orig_size 1500)) [
    | inl le ↦
        let o = one_piece p v cb z (ground arith) in
        let d = after_tx_done i (tx_sent p).1 s o.1 in
        inl (le, rw o.0 (d.0 ∙ ground (arith, o.2)), rw o.0 d.1)
    | inr lt ↦
        let o = several_pieces p v z (ground arith) in
        let d = pending i (tx_sent p).1 s (tx_sent-IsSending p v o.0) in
        inr (lt, rw o.0 d.0, rw o.0 d.1, rw o.0 d.2, rw o.0 (d.3 ∙ o.1))
  ]

  -- socket_send of a whole buffer on an idle socket without a callback: if BG96::send returns true
  -- for the first piece and there is no other, the result is the size of the buffer and the socket is
  -- idle again. Otherwise the result is NSAPI_ERROR_WOULD_BLOCK, and a well-formed transfer of what
  -- is left of the buffer is under way. (BG96::send also returns true if its command or its write
  -- fails.)
  pub socket_send_first :
      (h i : ℕ) (bytes : List ℕ) (size : ℕ) (s : Iface D)
      → (s.sock h).id ≡ some i
      → (s.sock h).callback ≡ none
      → (s.soc_tx i).state ≡ tx_idle
      → 0 < size
      → size < 2147483648
      → length bytes ≡ size
      → (r : ℤ × Iface D) × (socket_send io app h (some bytes) size s ≡ some r)
        × Attempted (takes i bytes size s) i (start_tx (s.soc_tx i) (s.sock h) i bytes size) r
  unfolding socket_send send_in tx_event start_tx
  socket_send_first h i bytes size s id cb idle pos_size w l = (
    send_in io app tx_idle h i bytes size s,
    ground arith,
    attempted (takes i bytes size s) i (start_tx (s.soc_tx i) (s.sock h) i bytes size)
        (record s { bg96 = (tx_event io (start_tx (s.soc_tx i) (s.sock h) i bytes size) s.bg96).1 })
        (start_tx-IsSending (s.soc_tx i) (s.sock h) i bytes size pos_size (omega arith) l) cb refl
        w,
  )
