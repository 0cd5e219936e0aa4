-- ===== src/Interface/Delivery/First.antt =====
-- BG96Interface.cpp: the first call of socket_send, with what the modem takes of the buffer.
use bg96_driver.Prelude.{
  ℕ, suc, ◌*◌, ◌≤◌, ◌<◌, ◌≡◌, ◌≢◌, refl, sym, ap, ◌∙◌, arith, ℤ, true, false, none, some, List,
  ◌++◌, take, length, length-take, as_int,
}
use bg96_driver.At.{AtParser, Bg96, nsapi_error_would_block}
use bg96_driver.Driver.Sockets.Channel.{IsChannel, bg96_send-sent}
use bg96_driver.Interface.{Iface, Application, TxEvent, tx_idle, tx_active, tx_complete, set_tx}
use bg96_driver.Interface.Events.{tx_event, tx_sent, eq_schedule}
use bg96_driver.Interface.Events.Transmit.{IsSending, last_piece}
use bg96_driver.Interface.Transfer.{socket_send, send_in, start_tx, after_tx, finish_tx, notify_tx}
use bg96_driver.Interface.Transfer.Attempt.{one_piece, several_pieces, after_tx_more, after_tx_done}
use bg96_driver.Interface.Delivery.{IsPending, IsFlying, Alone}
use bg96_driver.Interface.Delivery.Pieces.{tx_sent-Delivers, moved, away}

-- The event that is left active by the first call.
active_piece :
    (p : TxEvent)
    → (tx_sent p).0 ≡ true
    → record (tx_sent p).1 { state = tx_active } ≡ (tx_sent (record p { state = tx_active })).1
unfolding tx_sent
active_piece p h = ground arith

-- socket_send on an event that is complete tells how much was sent, whatever buffer it is given.
pub socket_send_complete :
    {D : Type 0} (io : AtParser D) (app : Application D) (h i : ℕ) (bytes : List ℕ) (size : ℕ)
    (s : Iface D)
    → 0 < size
    → (s.sock h).id ≡ some i
    → (s.soc_tx i).state ≡ tx_complete
    → socket_send io app h (some bytes) size s ≡ some (finish_tx i s)
unfolding socket_send send_in
socket_send_complete io app h i bytes size s lt e c = ground arith

-- The first call on an idle event.
pub socket_send_idle :
    {D : Type 0} (io : AtParser D) (app : Application D) (h i : ℕ) (bytes : List ℕ) (size : ℕ)
    (s : Iface D)
    → 0 < size
    → (s.sock h).id ≡ some i
    → (s.soc_tx i).state ≡ tx_idle
    → let ((more, q), b) = tx_event io (start_tx (s.soc_tx i) (s.sock h) i bytes size) s.bg96 in
      socket_send io app h (some bytes) size s
      ≡ some (after_tx io app i more (set_tx i q (record s { bg96 = b })))
unfolding socket_send send_in
socket_send_idle io app h i bytes size s lt e c = ground arith

after_tx-bg96 :
    {D : Type 0} (io : AtParser D) (app : Application D) (i : ℕ) (s : Iface D)
    → (s.soc_tx i).state ≡ tx_complete
    → (after_tx io app i false s).1.bg96 ≡ s.bg96
unfolding after_tx notify_tx finish_tx
after_tx-bg96 io app i s e = ground arith

after_tx_more_rest :
    {D : Type 0} (io : AtParser D) (app : Application D) (i : ℕ) (s : Iface D)
    → let t = (after_tx io app i true s).1 in
      (t.bg96 ≡ s.bg96) × (t.sock ≡ s.sock) × ((j : ℕ) → j ≢ i → t.soc_tx j ≡ s.soc_tx j)
unfolding after_tx eq_schedule
after_tx_more_rest io app i s = (ground arith, ground arith, λ j ne. ground arith)

module _ {D : Type 0} {io : AtParser D} {target : D → ℤ} {sent : ℕ → D → List ℕ}
    (ch : IsChannel io target sent) (app : Application D) (i : ℕ) (p : TxEvent) (s : Iface D)
    (sending : IsSending p) (no_callback : p.callback ≡ none) (unsent : p.total_sent ≡ 0)
    (own : p.socket_id ≡ i) where
  some_byte : 0 < length (take p.req_size p.dptr)
  some_byte =
      ground (arith, length-take p.req_size p.dptr, sending.requested, sending.rest, sending.unsent)

  -- What the first call leaves.
  abbrev pub outcome : ℤ × Iface D
  outcome =
      let ((more, q), b) = tx_event io p s.bg96 in
      after_tx io app i more (set_tx i q (record s { bg96 = b }))

  first_piece :
      let ((more, q), b) = tx_event io p s.bg96 in
      (more ≡ (tx_sent p).0)
      × (q ≡ (tx_sent p).1)
      × (sent i b.dev ≡ sent i s.bg96.dev ++ take p.req_size p.dptr)
  unfolding tx_event
  first_piece = ground (arith, bg96_send-sent ch p.socket_id p.dptr p.req_size s.bg96 some_byte)

  -- A buffer of one piece.
  pub at_once :
      p.orig_size ≤ 1500
      → (outcome.0 ≡ as_int p.orig_size)
        × (sent i outcome.1.bg96.dev ≡ sent i s.bg96.dev ++ p.dptr)
        × ((outcome.1.soc_tx i).state ≡ tx_idle)
  at_once le =
      let e = first_piece in
      let o = one_piece p sending no_callback unsent le in
      let d =
        after_tx_done io app i (tx_sent p).1 (record s { bg96 = (tx_event io p s.bg96).1 }) o.1 in
      let b =
        after_tx-bg96 io app i
          (set_tx i (tx_sent p).1 (record s { bg96 = (tx_event io p s.bg96).1 }))
          (ground (arith, o)) in
      let l = last_piece p sending o.0 in
      rw (e.0 ∙ o.0, e.1)
        (
          d.0 ∙ ap as_int o.2,
          ap (λ (x : Bg96 D). sent i x.dev) b ∙ e.2 ∙ ap (λ x. sent i s.bg96.dev ++ x) l.0,
          d.1,
        )

  started :
      (k : ℕ)
      → p.orig_size ≤ 1500 * suc k
      → IsPending i
          (sent i s.bg96.dev ++ p.dptr)
          p.orig_size
          (suc k)
          (record p { state = tx_active })
          (sent i s.bg96.dev)
  started k le = record {
    sending = record {
      in_word = sending.in_word;
      unsent = sending.unsent;
      rest = sending.rest;
      requested = sending.requested;
    };
    active = refl;
    no_callback = no_callback;
    of_socket = own;
    of_size = refl;
    split = refl;
    enough = omega (arith, le);
  }

  -- A buffer of several pieces.
  pub in_pieces :
      (k : ℕ)
      → p.orig_size ≤ 1500 * suc k
      → 1500 < p.orig_size
      → Alone i s
      → (outcome.0 ≡ nsapi_error_would_block)
        × IsFlying sent i (sent i s.bg96.dev ++ p.dptr) p.orig_size k outcome.1
        × (outcome.1.sock ≡ s.sock)
  in_pieces k le lt alone =
      let e = first_piece in
      let o = several_pieces p sending unsent lt in
      let t = record s { bg96 = (tx_event io p s.bg96).1 } in
      let m = after_tx_more io app i (tx_sent p).1 t in
      let r = after_tx_more_rest io app i (set_tx i (tx_sent p).1 t) in
      let d =
        moved (m.1 ∙ active_piece p o.0) (ap (λ (x : Bg96 D). sent i x.dev) r.0 ∙ e.2)
          (tx_sent-Delivers (started k le)) in
      rw (e.0 ∙ o.0, e.1)
        (
          m.0,
          record {
            alone = λ j lt' ne act.
                let f = r.2 j ne ∙ away j i (tx_sent p).1 s.soc_tx (λ e. ne (sym e)) in
                rw f (alone j lt' ne (rw f at act));
            status = d;
          },
          r.1,
        )
