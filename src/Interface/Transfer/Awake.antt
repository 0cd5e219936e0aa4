-- ===== src/Interface/Transfer/Awake.antt =====
-- BG96Interface.cpp: socket_send and socket_recv leave no transfer to be forgotten.
use bg96_driver.Prelude.{
  ℕ, ◌≡◌, refl, arith, ℤ, Bool, true, false, Option, none, some, List, ltb, Bool-cases, inl, inr,
}
use mathlib.Core.Path.{subst}
use mathlib.Core.Option.{some-injective}
use bg96_driver.At.{AtParser, Bg96}
use bg96_driver.Interface.{
  Iface, Application, RxEvent, TxEvent, RxState, TxState, read_init, read_start, read_active,
  read_docb, data_available, tx_idle, tx_starting, tx_active, tx_complete, tx_docb, set_rx, set_tx,
}
use bg96_driver.Interface.Transfer.{
  start_tx, start_rx, after_tx, after_rx, finish_tx, finish_rx, send_in, recv_in, socket_send,
  socket_recv,
}
use bg96_driver.Interface.Poll.{is_read_active, is_tx_active}
use bg96_driver.Interface.Poll.Awake.{
  IsAwake, Keeps, set_rx-IsAwake, set_tx-IsAwake, eq_schedule-IsAwake, notify_rx-IsAwake,
  notify_tx-IsAwake, weaken-IsAwake, same_rx,
}
use bg96_driver.Interface.Poll.Steps.{
  rx_event-state, tx_event-state, tx_event-socket_id, rx_event-kept,
}

-- The modem's state plays no part.
pub modem-IsAwake :
    {D : Type 0} {done : Bool} {s : Iface D} (b : Bg96 D)
    → IsAwake done s
    → IsAwake done (record s { bg96 = b })
modem-IsAwake b a = record {
  bound = a.bound;
  counted = a.counted;
  covered = a.covered;
  owned = a.owned;
  heard = a.heard;
}

pub subst_result : {A S : Type 0} (P : S → Type 0) {x y : A × S} → some x ≡ some y → P x.1 → P y.1
subst_result P e p = subst (λ z. P z.1) (some-injective _ _ e) p

module _ {D : Type 0} where
  finish_tx-IsAwake :
      {done : Bool} (i : ℕ) (s : Iface D) → IsAwake done s → IsAwake done (finish_tx i s).1
  unfolding finish_tx
  finish_tx-IsAwake i s a = set_tx-IsAwake i _ refl a

  finish_rx-IsAwake :
      {done : Bool} (i : ℕ) (s : Iface D) → IsAwake done s → IsAwake done (finish_rx i s).1
  unfolding finish_rx
  finish_rx-IsAwake i s a = set_rx-IsAwake i _ refl (same_rx i a) a

module _ {D : Type 0} (io : AtParser D) {app : Application D} (keeps : Keeps app) where
  after_tx-IsAwake :
      {done : Bool} (i : ℕ) (more : Bool) (p : TxEvent) (s : Iface D)
      → p.socket_id ≡ i
      → (more ≡ false → is_tx_active p.state ≡ false)
      → IsAwake done s
      → IsAwake done (after_tx io app i more (set_tx i p s)).1
  unfolding after_tx
  after_tx-IsAwake {done} i true p s own q a = weaken-IsAwake done (
      eq_schedule-IsAwake {done = true} (record {
        bound = a.bound;
        counted = a.counted;
        covered = λ j lt b. refl;
        owned = λ j lt act. ground (arith, a.owned j lt);
        heard = a.heard;
      }))
  after_tx-IsAwake i false p s own q a =
      finish_tx-IsAwake i _ (notify_tx-IsAwake keeps i (set_tx-IsAwake i p (q refl) a))

  after_rx-IsAwake :
      {done : Bool} (i : ℕ) (more : Bool) (p : RxEvent) (s : Iface D)
      → p.socket_id ≡ i
      → (more ≡ false → is_read_active p.state ≡ false)
      → IsAwake done s
      → IsAwake done (after_rx io app i more (set_rx i p s)).1
  unfolding after_rx
  after_rx-IsAwake {done} i true p s own q a = weaken-IsAwake done (
      eq_schedule-IsAwake {done = true} (record {
        bound = a.bound;
        counted = a.counted;
        covered = λ j lt b. refl;
        owned = a.owned;
        heard = λ j lt act. ground (arith, a.heard j lt);
      }))
  after_rx-IsAwake i false p s own q a =
      finish_rx-IsAwake i _
        (notify_rx-IsAwake keeps i (set_rx-IsAwake i p (q refl) (λ lt d. own) a))

  send_in-IsAwake :
      {done : Bool} (t : TxState) (h i : ℕ) (bytes : List ℕ) (size : ℕ) (s : Iface D)
      → IsAwake done s
      → IsAwake done (send_in io app t h i bytes size s).1
  unfolding send_in start_tx
  send_in-IsAwake tx_idle h i bytes size s a =
      after_tx-IsAwake i _ _ _
        (tx_event-socket_id io (start_tx (s.soc_tx i) (s.sock h) i bytes size) s.bg96)
        (tx_event-state io (start_tx (s.soc_tx i) (s.sock h) i bytes size) s.bg96).1
        (modem-IsAwake _ a)
  send_in-IsAwake tx_complete h i bytes size s a = finish_tx-IsAwake i s a
  send_in-IsAwake tx_active h i bytes size s a = a
  send_in-IsAwake tx_starting h i bytes size s a = a
  send_in-IsAwake tx_docb h i bytes size s a = a

  recv_in-IsAwake :
      {done : Bool} (t : RxState) (h i : ℕ) (buffer : List ℕ) (size : ℕ) (s : Iface D)
      → IsAwake done s
      → IsAwake done (recv_in io app t h i buffer size s).1
  unfolding recv_in start_rx
  recv_in-IsAwake read_start h i buffer size s a =
      after_rx-IsAwake i _ _ _
        (rx_event-kept io (start_rx (s.soc_rx i) (s.sock h) i buffer size) s.bg96).0
        (rx_event-state io (start_rx (s.soc_rx i) (s.sock h) i buffer size) s.bg96).1
        (modem-IsAwake _ a)
  recv_in-IsAwake data_available h i buffer size s a = finish_rx-IsAwake i s a
  recv_in-IsAwake read_active h i buffer size s a = a
  recv_in-IsAwake read_init h i buffer size s a = a
  recv_in-IsAwake read_docb h i buffer size s a = a

  send_slot-IsAwake :
      {done : Bool} (o : Option ℕ) (h : ℕ) (bytes : List ℕ) (size : ℕ) (s : Iface D) {n : ℤ}
      {t : Iface D}
      → IsAwake done s
      → elim o [ none ↦ none | some i ↦ some (send_in io app (s.soc_tx i).state h i bytes size s) ]
        ≡ some (n, t)
      → IsAwake done t
  send_slot-IsAwake none h bytes size s a e = absurd (cc)
  send_slot-IsAwake (some i) h bytes size s a e =
      subst_result (IsAwake _) e (send_in-IsAwake (s.soc_tx i).state h i bytes size s a)

  -- socket_send keeps the queue in step with `scheduled_events`, and every transfer that is under way
  -- covered, on every branch.
  pub socket_send-IsAwake :
      {done : Bool} (h : ℕ) (bytes : Option (List ℕ)) (size : ℕ) (s : Iface D) {n : ℤ} {t : Iface D}
      → IsAwake done s
      → socket_send io app h bytes size s ≡ some (n, t)
      → IsAwake done t
  unfolding socket_send
  socket_send-IsAwake h none size s a e = subst_result (IsAwake _) e a
  socket_send-IsAwake h (some bytes) size s a e = elim (Bool-cases (ltb size 1)) [
    | inl small ↦ subst_result (IsAwake _) (rw small at e) a
    | inr large ↦ send_slot-IsAwake (s.sock h).id h bytes size s a (rw large at e)
  ]

  recv_slot-IsAwake :
      {done : Bool} (o : Option ℕ) (h : ℕ) (bytes : List ℕ) (size : ℕ) (s : Iface D) {n : ℤ}
      {t : Iface D}
      → IsAwake done s
      → elim o [ none ↦ none | some i ↦ some (recv_in io app (s.soc_rx i).state h i bytes size s) ]
        ≡ some (n, t)
      → IsAwake done t
  recv_slot-IsAwake none h bytes size s a e = absurd (cc)
  recv_slot-IsAwake (some i) h bytes size s a e =
      subst_result (IsAwake _) e (recv_in-IsAwake (s.soc_rx i).state h i bytes size s a)

  -- socket_recv keeps the queue in step with `scheduled_events`, and every transfer that is under way
  -- covered, on every branch.
  pub socket_recv-IsAwake :
      {done : Bool} (h : ℕ) (bytes : Option (List ℕ)) (size : ℕ) (s : Iface D) {n : ℤ} {t : Iface D}
      → IsAwake done s
      → socket_recv io app h bytes size s ≡ some (n, t)
      → IsAwake done t
  unfolding socket_recv
  socket_recv-IsAwake h none size s a e = subst_result (IsAwake _) e a
  socket_recv-IsAwake h (some bytes) size s a e = elim (Bool-cases (ltb size 1)) [
    | inl small ↦ subst_result (IsAwake _) (rw small at e) a
    | inr large ↦ recv_slot-IsAwake (s.sock h).id h bytes size s a (rw large at e)
  ]
