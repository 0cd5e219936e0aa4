-- ===== src/Interface/Delivery/Table.antt =====
-- BG96Interface.cpp: the rounds of g_eq_event leave the table of sockets alone.
use bg96_driver.Prelude.{
  ℕ, ◌≡◌, refl, ◌∙◌, arith, inl, inr, Bool, true, false, ◌||◌, none, some, List, [], ◌∷◌,
  Bool-cases, if◌then◌else◌,
}
use bg96_driver.At.{AtParser}
use bg96_driver.Interface.{Iface, Application, Callback, slots, call_back}
use bg96_driver.Interface.Events.{eq_schedule}
use bg96_driver.Interface.Transfer.{notify_rx, notify_tx, is_tx_docb, is_read_docb}
use bg96_driver.Interface.Poll.{poll_rx, poll_tx, poll_all, notify_all, g_eq_event, dispatch}
use bg96_driver.Interface.Delivery.{serve, serve_all}

pub eq_schedule-sock : {D : Type 0} (s : Iface D) → (eq_schedule s).sock ≡ s.sock
unfolding eq_schedule
eq_schedule-sock s = ground arith

reschedule-sock :
    {D : Type 0} (more : Bool) (s : Iface D) → (if more then eq_schedule s else s).sock ≡ s.sock
reschedule-sock true s = eq_schedule-sock s
reschedule-sock false s = refl

module _ {D : Type 0} (io : AtParser D) where
  poll_all-sock :
      (is : List ℕ) (done slow : Bool) (s : Iface D) → (poll_all io is done slow s).1.sock ≡ s.sock
  unfolding poll_all poll_rx poll_tx
  poll_all-sock [] done slow s = refl
  poll_all-sock (i ∷ is) done slow s =
      let ((rx_more, slow'), s₁) = poll_rx io i slow s in
      let ((tx_more, slow''), s₂) = poll_tx io i slow' s₁ in
      poll_all-sock is (done || rx_more || tx_more) slow'' s₂ ∙ (ground arith)

module _ {D : Type 0} (app : Application D)
    (keeps_sockets : (f d : ℕ) (s : Iface D) → (app f d s).sock ≡ s.sock) where
  call_back-sock : (f : Callback) (d : ℕ) (s : Iface D) → (call_back app f d s).sock ≡ s.sock
  call_back-sock none d s = refl
  call_back-sock (some f) d s = keeps_sockets f d s

  notify_rx-sock : (i : ℕ) (s : Iface D) → (notify_rx app i s).sock ≡ s.sock
  unfolding notify_rx
  notify_rx-sock i s = elim (Bool-cases (is_read_docb (s.soc_rx i).state)) [
    | inr e ↦ rw e refl
    | inl e ↦ rw e (call_back-sock (s.soc_rx i).callback (s.soc_rx i).cb_data _)
  ]

  notify_tx-sock : (i : ℕ) (s : Iface D) → (notify_tx app i s).sock ≡ s.sock
  unfolding notify_tx
  notify_tx-sock i s = elim (Bool-cases (is_tx_docb (s.soc_tx i).state)) [
    | inr e ↦ rw e refl
    | inl e ↦ rw e (call_back-sock (s.soc_tx i).callback (s.soc_tx i).cb_data _)
  ]

  notify_all-sock : (is : List ℕ) (s : Iface D) → (notify_all app is s).sock ≡ s.sock
  unfolding notify_all
  notify_all-sock [] s = refl
  notify_all-sock (i ∷ is) s =
      notify_all-sock is _ ∙ notify_tx-sock i (notify_rx app i s) ∙ notify_rx-sock i s

  dispatch-sock :
      (io : AtParser D) (locked : Bool) (s : Iface D) → (dispatch io app locked s).sock ≡ s.sock
  unfolding dispatch g_eq_event
  dispatch-sock io false s = eq_schedule-sock _
  dispatch-sock io true s =
      reschedule-sock _ _ ∙ notify_all-sock slots _ ∙ poll_all-sock io slots false false _

  pub serve-sock :
      (io : AtParser D) (locked : Bool) (s : Iface D) → (serve io app locked s).sock ≡ s.sock
  serve-sock io locked s = ground (arith, dispatch-sock io locked s)

  pub serve_all-sock :
      (io : AtParser D) (rounds : List Bool) (s : Iface D)
      → (serve_all io app rounds s).sock ≡ s.sock
  unfolding serve_all
  serve_all-sock io [] s = refl
  serve_all-sock io (locked ∷ r) s =
      serve_all-sock io r (serve io app locked s) ∙ serve-sock io locked s
