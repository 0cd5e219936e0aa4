-- ===== src/Interface/Poll/Awake.antt =====
-- BG96Interface.cpp: no transfer that is under way is forgotten by the event queue.
use bg96_driver.Prelude.{
  ℕ, ◌≤◌, ◌<◌, ◌≡◌, refl, arith, Bool, true, false, none, some, List, [], ◌∷◌, Bool-cases, inl, inr,
}
use bg96_driver.Interface.{
  Iface, Application, Callback, RxEvent, TxEvent, set_rx, set_tx, call_back,
}
use bg96_driver.Interface.Events.{eq_schedule}
use bg96_driver.Interface.Transfer.{notify_rx, notify_tx, is_read_docb, is_tx_docb}
use bg96_driver.Interface.Poll.{notify_all, is_read_active, is_tx_active}
use bg96_driver.Interface.Poll.Steps.{busy, Covered, Owned, Heard}

module _ {D : Type 0} where
  -- The queue holds as many calls as `scheduled_events` says, at most BG96_SOCKET_COUNT.
  pub record IsAwake (done : Bool) (s : Iface D) : Type 0 where
    pub bound : s.scheduled_events ≤ 5
    pub counted : s.pending ≡ s.scheduled_events
    pub covered : Covered done [] s
    pub owned : Owned s
    pub heard : Heard s

-- An application whose callbacks keep that.
abbrev pub Keeps : {D : Type 0} → Application D → Type 0
Keeps {D} app = (done : Bool) (f d : ℕ) (s : Iface D) → IsAwake done s → IsAwake done (app f d s)

pub eq_schedule-IsAwake :
    {D : Type 0} {done : Bool} {s : Iface D} → IsAwake done s → IsAwake false (eq_schedule s)
unfolding eq_schedule
eq_schedule-IsAwake {done} {s} a = record {
  bound = ground (arith, a.bound);
  counted = ground (arith, a.counted);
  covered = λ j lt b. ground (arith, a.counted);
  owned = λ j lt act. ground (arith, a.owned j lt);
  heard = λ j lt act. ground (arith, a.heard j lt);
}

-- A write to an event that leaves it as it is but for its state.
pub same_rx :
    {D : Type 0} {done : Bool} {s : Iface D} (i : ℕ)
    → IsAwake done s
    → i < 5
    → (s.soc_rx i).dis_to ≡ true
    → (s.soc_rx i).socket_id ≡ i
same_rx {s} i a lt d = a.heard i lt (ground arith)

-- A write to an event that leaves it inactive.
pub set_rx-IsAwake :
    {D : Type 0} {done : Bool} {s : Iface D} (i : ℕ) (p : RxEvent)
    → is_read_active p.state ≡ false
    → (i < 5 → p.dis_to ≡ true → p.socket_id ≡ i)
    → IsAwake done s
    → IsAwake done (set_rx i p s)
set_rx-IsAwake {done} {s} i p q own a = record {
  bound = a.bound;
  counted = a.counted;
  covered = λ j lt (b : busy j (set_rx i p s) ≡ true). a.covered j lt (ground (arith, b));
  owned = a.owned;
  heard = λ j lt act. ground (arith, a.heard j lt, own);
}

pub set_tx-IsAwake :
    {D : Type 0} {done : Bool} {s : Iface D} (i : ℕ) (p : TxEvent)
    → is_tx_active p.state ≡ false
    → IsAwake done s
    → IsAwake done (set_tx i p s)
set_tx-IsAwake {done} {s} i p q a = record {
  bound = a.bound;
  counted = a.counted;
  covered = λ j lt (b : busy j (set_tx i p s) ≡ true). a.covered j lt (ground (arith, b));
  owned = λ j lt act. ground (arith, a.owned j lt);
  heard = a.heard;
}

module _ {D : Type 0} {app : Application D} (keeps : Keeps app) where
  pub call_back-IsAwake :
      {done : Bool} {s : Iface D} (f : Callback) (d : ℕ)
      → IsAwake done s
      → IsAwake done (call_back app f d s)
  call_back-IsAwake none d a = a
  call_back-IsAwake (some f) d a = keeps _ f d _ a

  pub notify_rx-IsAwake :
      {done : Bool} {s : Iface D} (i : ℕ) → IsAwake done s → IsAwake done (notify_rx app i s)
  unfolding notify_rx
  notify_rx-IsAwake {done} {s} i a = elim (Bool-cases (is_read_docb (s.soc_rx i).state)) [
    | inr e ↦ rw e a
    | inl e ↦ rw e (call_back-IsAwake _ _ (set_rx-IsAwake i _ refl (same_rx i a) a))
  ]

  pub notify_tx-IsAwake :
      {done : Bool} {s : Iface D} (i : ℕ) → IsAwake done s → IsAwake done (notify_tx app i s)
  unfolding notify_tx
  notify_tx-IsAwake {done} {s} i a = elim (Bool-cases (is_tx_docb (s.soc_tx i).state)) [
    | inr e ↦ rw e a
    | inl e ↦ rw e (call_back-IsAwake _ _ (set_tx-IsAwake i _ refl a))
  ]

  pub notify_all-IsAwake :
      {done : Bool} (is : List ℕ) {s : Iface D}
      → IsAwake done s
      → IsAwake done (notify_all app is s)
  unfolding notify_all
  notify_all-IsAwake [] a = a
  notify_all-IsAwake (i ∷ is) a =
      notify_all-IsAwake is (notify_tx-IsAwake i (notify_rx-IsAwake i a))

-- What is covered stays so when another round is due.
pub weaken-IsAwake : {D : Type 0} {s : Iface D} (done : Bool) → IsAwake false s → IsAwake done s
weaken-IsAwake {s} done a = record {
  bound = a.bound;
  counted = a.counted;
  covered = λ j lt b. ground (arith, a.covered j lt b);
  owned = a.owned;
  heard = a.heard;
}

-- With another round due, only the count matters.
pub due-IsAwake : {D : Type 0} {done : Bool} {s : Iface D} → IsAwake done s → IsAwake true s
due-IsAwake a = record {
  bound = a.bound;
  counted = a.counted;
  covered = λ j lt b. refl;
  owned = a.owned;
  heard = a.heard;
}
