-- ===== src/Interface/Delivery/Queue.antt =====
-- BG96Interface.cpp: the calls of g_eq_event that the queue makes while a transfer is under way.
use bg96_driver.Prelude.{
  ℕ, suc, ◌-◌, ◌≡◌, ◌≢◌, refl, arith, inl, inr, ℤ, Bool, true, false, List, [], ◌∷◌, if◌then◌else◌,
  none, some, elem, Bool-cases,
}
use bg96_driver.At.{AtParser}
use bg96_driver.Driver.Sockets.Channel.{IsChannel}
use bg96_driver.Interface.{
  Iface, Application, Callback, RxEvent, TxEvent, tx_complete, slots, call_back, set_tx, set_rx,
}
use bg96_driver.Interface.Events.{eq_schedule}
use bg96_driver.Interface.Transfer.{notify_rx, notify_tx, is_tx_docb, is_read_docb}
use bg96_driver.Interface.Poll.{notify_all, g_eq_event, dispatch}
use bg96_driver.Interface.Delivery.{IsFlying, Delivers, Spares}
use bg96_driver.Interface.Delivery.Pieces.{away}
use bg96_driver.Interface.Delivery.Rounds.{
  frame-IsFlying, poll_all-IsFlying, poll_all-lands, slots-InTable,
}

Delivers-state :
    {i : ℕ} {goal : List ℕ} {size k : ℕ} {p : TxEvent} {taken : List ℕ}
    → Delivers i goal size k p taken
    → is_tx_docb p.state ≡ false
Delivers-state (inl d) = rw d.0 refl
Delivers-state (inr v) = rw v.active refl

module _ {D : Type 0} {io : AtParser D} {target : D → ℤ} {sent : ℕ → D → List ℕ}
    (ch : IsChannel io target sent) {app : Application D} (spares : Spares sent app) {i : ℕ}
    {goal : List ℕ} {size : ℕ} where
  open spares use {keeps_events, adds_none}

  call_back-IsFlying :
      {k : ℕ} {s : Iface D} (f : Callback) (d : ℕ)
      → IsFlying sent i goal size k s
      → IsFlying sent i goal size k (call_back app f d s)
  call_back-IsFlying none d v = v
  call_back-IsFlying {k} {s} (some f) d v =
      frame-IsFlying ch (keeps_events f d s) (adds_none f d i s) v

  set_rx-IsFlying :
      {k : ℕ} {s : Iface D} (j : ℕ) (p : RxEvent)
      → IsFlying sent i goal size k s
      → IsFlying sent i goal size k (set_rx j p s)
  set_rx-IsFlying {k} {s} j p v = frame-IsFlying ch {s = s} refl refl v

  notify_rx-IsFlying :
      {k : ℕ} (j : ℕ) {s : Iface D}
      → IsFlying sent i goal size k s
      → IsFlying sent i goal size k (notify_rx app j s)
  unfolding notify_rx
  notify_rx-IsFlying j {s} v = elim (Bool-cases (is_read_docb (s.soc_rx j).state)) [
    | inr e ↦ rw e v
    | inl e ↦ rw e (call_back-IsFlying _ _ (set_rx-IsFlying j _ v))
  ]

  not_own :
      {k : ℕ} (j : ℕ) (s : Iface D)
      → is_tx_docb (s.soc_tx j).state ≡ true
      → IsFlying sent i goal size k s
      → j ≢ i
  not_own j s docb v e = absurd (cc (rw e at docb, Delivers-state v.status))

  -- The call-back of another event.
  told_other :
      {k : ℕ} (j : ℕ) (s : Iface D)
      → j ≢ i
      → IsFlying sent i goal size k s
      → IsFlying sent i goal size k (set_tx j (record (s.soc_tx j) { state = tx_complete }) s)
  told_other {k} j s ne v = record {
    alone = λ m lt other act. ground (arith, v.alone m lt other);
    status = rw (away i j _ s.soc_tx ne) v.status;
  }

  notify_tx-IsFlying :
      {k : ℕ} (j : ℕ) {s : Iface D}
      → IsFlying sent i goal size k s
      → IsFlying sent i goal size k (notify_tx app j s)
  unfolding notify_tx
  notify_tx-IsFlying j {s} v = elim (Bool-cases (is_tx_docb (s.soc_tx j).state)) [
    | inr e ↦ rw e v
    | inl e ↦ rw e (call_back-IsFlying _ _ (told_other j s (not_own j s e v) v))
  ]

  notify_all-IsFlying :
      {k : ℕ} (is : List ℕ) {s : Iface D}
      → IsFlying sent i goal size k s
      → IsFlying sent i goal size k (notify_all app is s)
  unfolding notify_all
  notify_all-IsFlying [] v = v
  notify_all-IsFlying (j ∷ is) v =
      notify_all-IsFlying is (notify_tx-IsFlying j (notify_rx-IsFlying j v))

  eq_schedule-IsFlying :
      {k : ℕ} (s : Iface D)
      → IsFlying sent i goal size k s
      → IsFlying sent i goal size k (eq_schedule s)
  unfolding eq_schedule
  eq_schedule-IsFlying s v = frame-IsFlying ch {s = s} (ground arith) (ground arith) v

  reschedule :
      {k : ℕ} (more : Bool) {s : Iface D}
      → IsFlying sent i goal size k s
      → IsFlying sent i goal size k (if more then eq_schedule s else s)
  reschedule true {s} v = eq_schedule-IsFlying s v
  reschedule false v = v

  taken_off :
      {k : ℕ} {s : Iface D}
      → IsFlying sent i goal size k s
      → IsFlying sent i goal size k
          (record s { pending = s.pending - 1; scheduled_events = s.scheduled_events - 1 })
  taken_off {k} {s} v = frame-IsFlying ch {s = s} refl refl v

  -- A call of g_eq_event keeps what it is about, and with a free mutex it sends a piece.
  pub dispatch-IsFlying :
      {k : ℕ} (locked : Bool) {s : Iface D}
      → IsFlying sent i goal size k s
      → IsFlying sent i goal size k (dispatch io app locked s)
  unfolding dispatch g_eq_event
  dispatch-IsFlying false v = eq_schedule-IsFlying _ (taken_off v)
  dispatch-IsFlying true v = reschedule _ (
      notify_all-IsFlying slots
        (poll_all-IsFlying ch slots false false _ slots-InTable (taken_off v)))

  pub dispatch-lands :
      {k : ℕ} {s : Iface D}
      → elem i slots ≡ true
      → IsFlying sent i goal size (suc k) s
      → IsFlying sent i goal size k (dispatch io app true s)
  unfolding dispatch g_eq_event
  dispatch-lands m v = reschedule _ (
      notify_all-IsFlying slots
        (poll_all-lands ch slots false false _ slots-InTable m (taken_off v)))
