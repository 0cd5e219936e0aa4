-- ===== src/Interface/Events/Transmit.antt =====
-- BG96Interface.cpp, tx_event: a transfer in pieces of at most BG96_BUFF_SIZE bytes.
use bg96_driver.Prelude.{
  ℕ, zero, suc, ◌+◌, ◌-◌, ◌≤◌, ◌<◌, ◌≡◌, refl, ap, arith, true, false, List, [], ◌∷◌, ◌++◌, take,
  length, if◌then◌else◌, length-drop, take-append-drop,
}
use bg96_driver.Interface.{TxEvent, tx_complete, tx_docb}
use bg96_driver.Interface.Events.{tx_sent, clamp, is_null}

-- What holds of an event between two attempts.
pub record IsSending (p : TxEvent) : Type 0 where
  pub in_word : p.orig_size < 4294967296
  pub unsent : p.total_sent < p.orig_size
  pub rest : p.total_sent + length p.dptr ≡ p.orig_size
  pub requested : p.req_size ≡ clamp (p.orig_size - p.total_sent)

-- A piece that is sent and is not the last leaves the rest of the transfer well-formed: the counts
-- add up to the size of the buffer, and the next piece is at most BG96_BUFF_SIZE bytes.
pub tx_sent-IsSending : (p : TxEvent) → IsSending p → (tx_sent p).0 ≡ true → IsSending (tx_sent p).1
unfolding tx_sent
tx_sent-IsSending p v h = ground (arith, length-drop p.req_size p.dptr)

-- The event once all is sent.
abbrev pub Completed : TxEvent → TxEvent → Type 0
Completed p q =
    (q.total_sent ≡ p.orig_size) × (q.state ≡ (if is_null p.callback then tx_complete else tx_docb))

take_all {ℓ} : {A : Type ℓ} (n : ℕ) (xs : List A) → length xs ≤ n → take n xs ≡ xs
take_all zero [] h = refl
take_all zero (x ∷ xs) h = absurd (omega arith)
take_all (suc n) [] h = refl
take_all (suc n) (x ∷ xs) h = ap (λ r. x ∷ r) (take_all n xs (omega arith))

-- The last piece is what is left, and any other is followed by the rest.
pub last_piece :
    (p : TxEvent)
    → IsSending p
    → (tx_sent p).0 ≡ false
    → (take p.req_size p.dptr ≡ p.dptr) × Completed p (tx_sent p).1
unfolding tx_sent
last_piece p v h = (take_all p.req_size p.dptr (ground arith), ground arith)

pub more_pieces :
    (p : TxEvent)
    → IsSending p
    → (tx_sent p).0 ≡ true
    → (take p.req_size p.dptr ++ (tx_sent p).1.dptr ≡ p.dptr)
      × ((tx_sent p).1.orig_size ≡ p.orig_size)
      × ((tx_sent p).1.callback ≡ p.callback)
      × ((tx_sent p).1.total_sent ≡ p.total_sent + 1500)
unfolding tx_sent
more_pieces p v h = ground (arith, take-append-drop p.req_size p.dptr)
