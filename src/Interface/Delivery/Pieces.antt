-- ===== src/Interface/Delivery/Pieces.antt =====
-- BG96Interface.cpp, tx_event: a piece brings a transfer nearer to its end.
use mathlib.Core.List.{append_assoc}
use bg96_driver.Prelude.{
  ℕ, suc, ◌≤◌, ◌<◌, ◌≡◌, ◌≢◌, ap, arith, ◌∙◌, inl, inr, List, ◌++◌, take, length, length-take,
  Bool-cases,
}
use bg96_driver.Interface.{TxEvent, update}
use bg96_driver.Interface.Events.{tx_sent}
use bg96_driver.Interface.Events.Transmit.{tx_sent-IsSending, last_piece, more_pieces}
use bg96_driver.Interface.Delivery.{IsPending, Delivers}

-- A write to an event leaves the others.
pub away : (i j : ℕ) (p : TxEvent) (f : ℕ → TxEvent) → j ≢ i → update f j p i ≡ f i
away i j p f ne = ground arith

module _ {i : ℕ} {goal : List ℕ} {size : ℕ} where
  -- More pieces than needed do no harm.
  pub weaken :
      {k m : ℕ} {p : TxEvent} {taken : List ℕ}
      → k ≤ m
      → Delivers i goal size k p taken
      → Delivers i goal size m p taken
  weaken le (inl d) = inl d
  weaken le (inr v) = inr (record {
    sending = v.sending;
    active = v.active;
    no_callback = v.no_callback;
    of_socket = v.of_socket;
    of_size = v.of_size;
    split = v.split;
    enough = omega (arith, v.enough, le);
  })

  pub moved :
      {k : ℕ} {p q : TxEvent} {taken more : List ℕ}
      → p ≡ q
      → taken ≡ more
      → Delivers i goal size k q more
      → Delivers i goal size k p taken
  moved e f d = rw (e, f) d

  -- Something is left to be sent.
  pub piece_pos :
      {k : ℕ} {p : TxEvent} {taken : List ℕ}
      → IsPending i goal size k p taken
      → 0 < length (take p.req_size p.dptr)
  piece_pos {p} v = ground (arith, length-take p.req_size p.dptr)

  pub tx_sent-Delivers :
      {k : ℕ} {p : TxEvent} {taken : List ℕ}
      → IsPending i goal size (suc k) p taken
      → Delivers i goal size k (tx_sent p).1 (taken ++ take p.req_size p.dptr)
  unfolding tx_sent
  tx_sent-Delivers {k} {p} {taken} v = elim (Bool-cases (tx_sent p).0) [
    | inr last ↦ inl (
      ground arith,
      (last_piece p v.sending last).1.0 ∙ v.of_size,
      ap (λ x. taken ++ x) (last_piece p v.sending last).0 ∙ v.split,
    )
    | inl more ↦ inr (record {
      sending = tx_sent-IsSending p v.sending more;
      active = ground arith;
      no_callback = (more_pieces p v.sending more).2 ∙ v.no_callback;
      of_socket = ground arith;
      of_size = (more_pieces p v.sending more).1 ∙ v.of_size;
      split =
          append_assoc taken (take p.req_size p.dptr) (tx_sent p).1.dptr
          ∙ ap (λ x. taken ++ x) (more_pieces p v.sending more).0
          ∙ v.split;
      enough = ground (arith, more_pieces p v.sending more);
    })
  ]
