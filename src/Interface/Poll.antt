-- ===== src/Interface/Poll.antt =====
-- BG96Interface.cpp: g_eq_event, the periodic attempt for every socket.
pub mod Steps
pub mod Awake
pub mod Dispatch
pub mod Listening
pub mod Slow
use bg96_driver.Prelude.{ℕ, ◌-◌, Bool, true, false, ◌||◌, List, [], ◌∷◌, if◌then◌else◌, ltb}
use bg96_driver.At.{AtParser}
use bg96_driver.Interface.{
  RxState, TxState, Iface, Application, read_active, tx_active, slots, set_rx, set_tx,
}
use bg96_driver.Interface.Events.{rx_event, tx_event, eq_schedule, slow_ticks}
use bg96_driver.Interface.Transfer.{notify_rx, notify_tx}

abbrev pub is_read_active : RxState → Bool
is_read_active read_active = true
is_read_active _ = false

abbrev pub is_tx_active : TxState → Bool
is_tx_active tx_active = true
is_tx_active _ = false

module _ {D : Type 0} where
  -- The second loop.
  unfoldable pub notify_all : Application D → List ℕ → Iface D → Iface D
  notify_all app [] s = s
  notify_all app (i ∷ is) s = notify_all app is (notify_tx app i (notify_rx app i s))

module _ {D : Type 0} (io : AtParser D) where
  -- The receiving half of a round of the first loop. The results are whether more is to come and
  -- the new goSlow.
  unfoldable pub poll_rx : ℕ → Bool → Iface D → (Bool × Bool) × Iface D
  poll_rx i go_slow s =
      let p = s.soc_rx i in
      let ((more, q), b) = rx_event io p s.bg96 in
      let slow = go_slow || ltb slow_ticks q.timer in
      if is_read_active p.state || p.dis_to
      then (
        (more, slow),
        set_rx i (if slow then record q { timer = slow_ticks } else q) (record s { bg96 = b }),
      )
      else ((false, go_slow), s)

  -- The sending half.
  unfoldable pub poll_tx : ℕ → Bool → Iface D → (Bool × Bool) × Iface D
  poll_tx i go_slow s =
      let p = s.soc_tx i in
      let ((more, q), b) = tx_event io p s.bg96 in
      if is_tx_active p.state
      then ((more, false), set_tx i q (record s { bg96 = b }))
      else ((false, go_slow), s)

  -- The first loop, over the indices that are left. The result is `done != EVENT_COMPLETE`.
  unfoldable pub poll_all : List ℕ → Bool → Bool → Iface D → Bool × Iface D
  poll_all [] done go_slow s = (done, s)
  poll_all (i ∷ is) done go_slow s =
      let ((rx_more, slow), s₁) = poll_rx i go_slow s in
      let ((tx_more, slow'), s₂) = poll_tx i slow s₁ in
      poll_all is (done || rx_more || tx_more) slow' s₂

  -- g_eq_event; `locked` is what `txrx_mutex.trylock` gives.
  unfoldable pub g_eq_event : Application D → Bool → Iface D → Iface D
  g_eq_event app locked s =
      let s₁ = record s { scheduled_events = s.scheduled_events - 1 } in
      let (more, s₂) = poll_all slots false false s₁ in
      let s₃ = notify_all app slots s₂ in
      if locked then (if more then eq_schedule s₃ else s₃) else eq_schedule s₁

  -- The queue hands one of its calls over to g_eq_event.
  unfoldable pub dispatch : Application D → Bool → Iface D → Iface D
  dispatch app locked s = g_eq_event app locked (record s { pending = s.pending - 1 })
