-- ===== src/Interface/Reception/Told.antt =====
-- BG96Interface.cpp: the second loop of g_eq_event calls the callback of every read that is complete.
use bg96_driver.Prelude.{
  ℕ, ◌-◌, ◌<◌, ◌≡◌, refl, arith, inl, inr, Bool, true, false, none, some, List, [], ◌∷◌, elem, ◌==◌,
  Bool-cases, if◌then◌else◌, ltb,
}
use bg96_driver.At.{AtParser}
use bg96_driver.Interface.{Iface, Application, Callback, call_back, slots}
use bg96_driver.Interface.Events.{eq_schedule}
use bg96_driver.Interface.Transfer.{notify_rx, notify_tx, is_read_docb, is_tx_docb}
use bg96_driver.Interface.Poll.{poll_all, notify_all, g_eq_event, dispatch}
use bg96_driver.Interface.Poll.Dispatch.{elem-slots}
use bg96_driver.Interface.Delivery.{serve}
use bg96_driver.Interface.Reception.{Chance, bring, receive_all}

-- No callback of the read is due.
abbrev pub IsTold : {D : Type 0} → ℕ → Iface D → Type 0
IsTold i s = is_read_docb (s.soc_rx i).state ≡ false

module _ {D : Type 0} (app : Application D)
    (keeps_events : (f d : ℕ) (s : Iface D) → (app f d s).soc_rx ≡ s.soc_rx) where
  call_back-soc_rx : (f : Callback) (d : ℕ) (s : Iface D) → (call_back app f d s).soc_rx ≡ s.soc_rx
  call_back-soc_rx none d s = refl
  call_back-soc_rx (some f) d s = keeps_events f d s

  notify_tx-soc_rx : (i : ℕ) (s : Iface D) → (notify_tx app i s).soc_rx ≡ s.soc_rx
  unfolding notify_tx
  notify_tx-soc_rx i s = elim (Bool-cases (is_tx_docb (s.soc_tx i).state)) [
    | inr e ↦ rw e refl
    | inl e ↦ rw e (call_back-soc_rx (s.soc_tx i).callback (s.soc_tx i).cb_data _)
  ]

  pub notify_rx-return_cnt :
      (i : ℕ) (s : Iface D) → ((notify_rx app i s).soc_rx i).return_cnt ≡ (s.soc_rx i).return_cnt
  unfolding notify_rx
  notify_rx-return_cnt i s = elim (Bool-cases (is_read_docb (s.soc_rx i).state)) [
    | inr e ↦ rw e refl
    | inl e ↦ rw (e, call_back-soc_rx (s.soc_rx i).callback (s.soc_rx i).cb_data _) (ground arith)
  ]

  pub notify_rx-IsTold : (i : ℕ) (s : Iface D) → IsTold i (notify_rx app i s)
  unfolding notify_rx
  notify_rx-IsTold i s = elim (Bool-cases (is_read_docb (s.soc_rx i).state)) [
    | inr e ↦ rw e e
    | inl e ↦ rw (e, call_back-soc_rx (s.soc_rx i).callback (s.soc_rx i).cb_data _) (ground arith)
  ]

  notify_rx-IsTold_still : (i j : ℕ) (s : Iface D) → IsTold i s → IsTold i (notify_rx app j s)
  unfolding notify_rx
  notify_rx-IsTold_still i j s v = elim (Bool-cases (is_read_docb (s.soc_rx j).state)) [
    | inr e ↦ rw e v
    | inl e ↦
        rw (e, call_back-soc_rx (s.soc_rx j).callback (s.soc_rx j).cb_data _) (ground (arith, v))
  ]

  notify_all-IsTold_still :
      (i : ℕ) (is : List ℕ) (s : Iface D) → IsTold i s → IsTold i (notify_all app is s)
  unfolding notify_all
  notify_all-IsTold_still i [] s v = v
  notify_all-IsTold_still i (j ∷ is) s v =
      notify_all-IsTold_still i is _
        (rw (notify_tx-soc_rx j (notify_rx app j s)) (notify_rx-IsTold_still i j s v))

  notify_all-IsTold :
      (i : ℕ) (is : List ℕ) (s : Iface D) → elem i is ≡ true → IsTold i (notify_all app is s)
  unfolding notify_all
  notify_all-IsTold i [] s m = absurd (cc)
  notify_all-IsTold i (j ∷ is) s m = elim (Bool-cases (i == j)) [
    | inl own ↦
        let e : j ≡ i = ground arith in
        notify_all-IsTold_still i is _
          (rw (notify_tx-soc_rx j (notify_rx app j s)) (rw e (notify_rx-IsTold i s)))
    | inr other ↦ notify_all-IsTold i is _ (ground arith)
  ]

  eq_schedule-soc_rx : (s : Iface D) → (eq_schedule s).soc_rx ≡ s.soc_rx
  unfolding eq_schedule
  eq_schedule-soc_rx s = ground arith

  reschedule-IsTold :
      (i : ℕ) (more : Bool) (s : Iface D)
      → IsTold i s
      → IsTold i (if more then eq_schedule s else s)
  reschedule-IsTold i true s v = rw (eq_schedule-soc_rx s) v
  reschedule-IsTold i false s v = v

  dispatch-IsTold :
      (io : AtParser D) (i : ℕ) (locked : Bool) (s : Iface D)
      → i < 5
      → IsTold i s
      → IsTold i (dispatch io app locked s)
  unfolding dispatch g_eq_event
  dispatch-IsTold io i false s lt v =
      rw
        (eq_schedule-soc_rx
          (record s { pending = s.pending - 1; scheduled_events = s.scheduled_events - 1 }))
        v
  dispatch-IsTold io i true s lt v =
      let taken = record s { pending = s.pending - 1; scheduled_events = s.scheduled_events - 1 } in
      let (more, polled) = poll_all io slots false false taken in
      reschedule-IsTold i more (notify_all app slots polled)
        (notify_all-IsTold i slots polled (elem-slots i lt))

  serve-IsTold :
      (io : AtParser D) (i : ℕ) (locked : Bool) (s : Iface D)
      → i < 5
      → IsTold i s
      → IsTold i (serve io app locked s)
  serve-IsTold io i locked s lt v = elim (Bool-cases (ltb 0 s.pending)) [
    | inl call ↦ rw call (dispatch-IsTold io i locked s lt v)
    | inr none_due ↦ rw none_due v
  ]

  pub receive_all-IsTold :
      (io : AtParser D) (arrive : (ℕ → List ℕ) → D → D) (i : ℕ) (cs : List Chance) (s : Iface D)
      → i < 5
      → IsTold i s
      → IsTold i (receive_all io app arrive cs s)
  unfolding receive_all
  receive_all-IsTold io arrive i [] s lt v = v
  receive_all-IsTold io arrive i (c ∷ cs) s lt v =
      let t = bring io app arrive c s in
      receive_all-IsTold io arrive i cs (serve io app c.locked t) lt
        (serve-IsTold io i c.locked t lt v)
