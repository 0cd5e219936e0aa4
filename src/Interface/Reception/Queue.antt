-- ===== src/Interface/Reception/Queue.antt =====
-- BG96Interface.cpp: the calls of g_eq_event that the queue makes while a read is under way.
use bg96_driver.Prelude.{
  ℕ, ◌-◌, ◌<◌, ◌≡◌, ◌≢◌, refl, arith, inl, inr, Bool, true, false, List, [], ◌∷◌, if◌then◌else◌,
  none, some, take, elem, ◌==◌, Bool-cases,
}
use bg96_driver.At.{AtParser}
use bg96_driver.Driver.Sockets.Source.{IsSource}
use bg96_driver.Interface.{
  Iface, Application, Callback, RxEvent, TxEvent, data_available, slots, call_back, set_tx, set_rx,
  update,
}
use bg96_driver.Interface.Events.{eq_schedule}
use bg96_driver.Interface.Transfer.{notify_rx, notify_tx, is_tx_docb, is_read_docb}
use bg96_driver.Interface.Poll.{notify_all, g_eq_event, dispatch}
use bg96_driver.Interface.Poll.Steps.{Heard}
use bg96_driver.Interface.Delivery.Rounds.{slots-InTable}
use bg96_driver.Interface.Reception.{IsReading, Reads, Leaves}
use bg96_driver.Interface.Reception.Rounds.{frame-IsReading, poll_all-IsReading, poll_all-fetches}

away_rx : (i j : ℕ) (p : RxEvent) (f : ℕ → RxEvent) → j ≢ i → update f j p i ≡ f i
away_rx i j p f ne = ground arith

pub set_same : (i : ℕ) (q : RxEvent) (f : ℕ → RxEvent) → update f i q i ≡ q
set_same i q f = ground arith

told_Heard :
    {D : Type 0} (j : ℕ) (s : Iface D)
    → Heard s
    → Heard (set_rx j (record (s.soc_rx j) { state = data_available }) s)
told_Heard j s h m lt = ground (arith, h m lt)

module _ {D : Type 0} {io : AtParser D} {target room : D → ℕ} {ready : D → Bool}
    {inbox : ℕ → D → List ℕ} (src : IsSource io target room ready inbox) {app : Application D}
    (leaves : Leaves inbox app) {i : ℕ} {buffer stream : List ℕ} {size : ℕ}
    (lt : size < 2147483648) where
  open leaves use {keeps_events, takes_none}

  call_back-IsReading :
      {may_wait : Bool} {s : Iface D} (f : Callback) (d : ℕ)
      → IsReading inbox i buffer stream size may_wait s
      → IsReading inbox i buffer stream size may_wait (call_back app f d s)
  call_back-IsReading none d v = v
  call_back-IsReading {s} (some f) d v =
      frame-IsReading src lt (keeps_events f d s) (takes_none f d i s) v

  set_tx-IsReading :
      {may_wait : Bool} {s : Iface D} (j : ℕ) (p : TxEvent)
      → IsReading inbox i buffer stream size may_wait s
      → IsReading inbox i buffer stream size may_wait (set_tx j p s)
  set_tx-IsReading {s} j p v = frame-IsReading src lt {s = s} refl refl v

  notify_tx-IsReading :
      {may_wait : Bool} (j : ℕ) {s : Iface D}
      → IsReading inbox i buffer stream size may_wait s
      → IsReading inbox i buffer stream size may_wait (notify_tx app j s)
  unfolding notify_tx
  notify_tx-IsReading j {s} v = elim (Bool-cases (is_tx_docb (s.soc_tx j).state)) [
    | inr e ↦ rw e v
    | inl e ↦ rw e (call_back-IsReading _ _ (set_tx-IsReading j _ v))
  ]

  -- The call-back of its own event.
  told_own :
      {may_wait : Bool} (s : Iface D)
      → is_read_docb (s.soc_rx i).state ≡ true
      → IsReading inbox i buffer stream size may_wait s
      → IsReading inbox i buffer stream size may_wait
          (set_rx i (record (s.soc_rx i) { state = data_available }) s)
  told_own {may_wait} s docb v = record {
    heard = told_Heard i s v.heard;
    status =
        rw (set_same i (record (s.soc_rx i) { state = data_available }) s.soc_rx) (told v.status);
  }
    where
      told :
          Reads i buffer stream size may_wait (s.soc_rx i) (inbox i s.bg96.dev)
          → Reads i buffer stream size may_wait
              (record (s.soc_rx i) { state = data_available })
              (inbox i s.bg96.dev)
      told (inl d) = inl (record {
        complete = refl;
        deaf = d.deaf;
        got = d.got;
        counted = d.counted;
        stored = d.stored;
        split = d.split;
        fits = d.fits;
      })
      told (inr (w, d)) = absurd (cc (rw d.0 at docb))

  -- The call-back of another event.
  told_other :
      {may_wait : Bool} (j : ℕ) (s : Iface D)
      → j ≢ i
      → IsReading inbox i buffer stream size may_wait s
      → IsReading inbox i buffer stream size may_wait
          (set_rx j (record (s.soc_rx j) { state = data_available }) s)
  told_other j s ne v = record {
    heard = told_Heard j s v.heard;
    status = rw (away_rx i j _ s.soc_rx ne) v.status;
  }

  told_event :
      {may_wait : Bool} (j : ℕ) (s : Iface D)
      → is_read_docb (s.soc_rx j).state ≡ true
      → IsReading inbox i buffer stream size may_wait s
      → IsReading inbox i buffer stream size may_wait
          (set_rx j (record (s.soc_rx j) { state = data_available }) s)
  told_event j s docb v = elim (Bool-cases (j == i)) [
    | inl own ↦ let e : j ≡ i = ground arith in rw e (told_own s (rw e at docb) v)
    | inr other ↦ told_other j s (λ e. ground arith) v
  ]

  pub notify_rx-IsReading :
      {may_wait : Bool} (j : ℕ) {s : Iface D}
      → IsReading inbox i buffer stream size may_wait s
      → IsReading inbox i buffer stream size may_wait (notify_rx app j s)
  unfolding notify_rx
  notify_rx-IsReading j {s} v = elim (Bool-cases (is_read_docb (s.soc_rx j).state)) [
    | inr e ↦ rw e v
    | inl e ↦ rw e (call_back-IsReading _ _ (told_event j s e v))
  ]

  notify_all-IsReading :
      {may_wait : Bool} (is : List ℕ) {s : Iface D}
      → IsReading inbox i buffer stream size may_wait s
      → IsReading inbox i buffer stream size may_wait (notify_all app is s)
  unfolding notify_all
  notify_all-IsReading [] v = v
  notify_all-IsReading (j ∷ is) v =
      notify_all-IsReading is (notify_tx-IsReading j (notify_rx-IsReading j v))

  eq_schedule-IsReading :
      {may_wait : Bool} (s : Iface D)
      → IsReading inbox i buffer stream size may_wait s
      → IsReading inbox i buffer stream size may_wait (eq_schedule s)
  unfolding eq_schedule
  eq_schedule-IsReading s v = frame-IsReading src lt {s = s} (ground arith) (ground arith) v

  reschedule :
      {may_wait : Bool} (more : Bool) {s : Iface D}
      → IsReading inbox i buffer stream size may_wait s
      → IsReading inbox i buffer stream size may_wait (if more then eq_schedule s else s)
  reschedule true {s} v = eq_schedule-IsReading s v
  reschedule false v = v

  taken_off :
      {may_wait : Bool} {s : Iface D}
      → IsReading inbox i buffer stream size may_wait s
      → IsReading inbox i buffer stream size may_wait
          (record s { pending = s.pending - 1; scheduled_events = s.scheduled_events - 1 })
  taken_off {s} v = frame-IsReading src lt {s = s} refl refl v

  -- A call of g_eq_event keeps what it is about, and with a free mutex it completes the read if
  -- something has come.
  pub dispatch-IsReading :
      {may_wait : Bool} (locked : Bool) {s : Iface D}
      → IsReading inbox i buffer stream size may_wait s
      → IsReading inbox i buffer stream size may_wait (dispatch io app locked s)
  unfolding dispatch g_eq_event
  dispatch-IsReading false v = eq_schedule-IsReading _ (taken_off v)
  dispatch-IsReading true v = reschedule _ (
      notify_all-IsReading slots
        (poll_all-IsReading src lt slots false false _ slots-InTable (taken_off v)))

  pub dispatch-fetches :
      {may_wait : Bool} {s : Iface D}
      → elem i slots ≡ true
      → take size stream ≢ []
      → IsReading inbox i buffer stream size may_wait s
      → IsReading inbox i buffer stream size false (dispatch io app true s)
  unfolding dispatch g_eq_event
  dispatch-fetches m some_left v = reschedule _ (
      notify_all-IsReading slots
        (poll_all-fetches src lt slots false false _ slots-InTable m some_left (taken_off v)))
