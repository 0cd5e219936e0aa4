-- ===== src/Interface/Poll/Dispatch.antt =====
-- BG96Interface.cpp: g_eq_event as the queue calls it.
use bg96_driver.Prelude.{
  ℕ, ◌-◌, ◌<◌, ◌≡◌, refl, arith, Bool, true, false, elem, Bool-cases, inl, inr,
}
use bg96_driver.At.{AtParser}
use bg96_driver.Interface.{Iface, Application, slots}
use bg96_driver.Interface.Poll.{poll_all, notify_all, g_eq_event, dispatch}
use bg96_driver.Interface.Poll.Awake.{IsAwake, Keeps, eq_schedule-IsAwake, notify_all-IsAwake}
use bg96_driver.Interface.Poll.Steps.{
  poll_all-Covered, poll_all-queue, poll_all-Owned, poll_all-Heard,
}

pub elem-slots : (j : ℕ) → j < 5 → elem j slots ≡ true
elem-slots j h = ground arith

module _ {D : Type 0} (io : AtParser D) {app : Application D} (keeps : Keeps app) where
  -- A call that the queue hands over keeps the queue and `scheduled_events` in step, and leaves
  -- every transfer that is still under way with a call that waits for it, whether or not the mutex
  -- is free.
  pub dispatch-IsAwake :
      (locked : Bool) (s : Iface D)
      → IsAwake false s
      → 0 < s.pending
      → IsAwake false (dispatch io app locked s)
  unfolding dispatch g_eq_event
  dispatch-IsAwake false s a h = eq_schedule-IsAwake {done = true} (record {
    bound = ground (arith, a.bound);
    counted = ground (arith, a.counted);
    covered = λ j lt b. refl;
    owned = a.owned;
    heard = a.heard;
  })
  dispatch-IsAwake true s a h = elim (Bool-cases (poll_all io slots false false taken).0) [
    | inl more ↦ rw more (eq_schedule-IsAwake rounds)
    | inr none ↦ rw none (rw none at rounds)
  ]
    where
      taken : Iface D
      taken = record s { pending = s.pending - 1; scheduled_events = s.scheduled_events - 1 }

      polled :
          IsAwake (poll_all io slots false false taken).0 (poll_all io slots false false taken).1
      polled = record {
        bound = ground (arith, a.bound, poll_all-queue io slots false false taken);
        counted = ground (arith, a.counted, poll_all-queue io slots false false taken);
        covered =
            poll_all-Covered io slots false false taken (λ j lt b. ground (arith, elem-slots j lt));
        owned = poll_all-Owned io slots false false taken a.owned;
        heard = poll_all-Heard io slots false false taken a.heard;
      }

      rounds :
          IsAwake
            (poll_all io slots false false taken).0
            (notify_all app slots (poll_all io slots false false taken).1)
      rounds = notify_all-IsAwake keeps slots polled
