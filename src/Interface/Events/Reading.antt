-- ===== src/Interface/Events/Reading.antt =====
-- BG96Interface.cpp, rx_event: how a read that is under way comes to an end.
use bg96_driver.Prelude.{
  ℕ, zero, suc, ◌+◌, ◌≤◌, ◌<◌, ◌≡◌, refl, ap, ◌∙◌, arith, ℤ, pos, Bool, true, false, Option, none,
  some, List, [], ◌∷◌, ◌++◌, drop, length, if◌then◌else◌,
}
use bg96_driver.At.{AtParser, Bg96, nsapi_error_device_error}
use bg96_driver.Driver.Sockets.{bg96_recv}
use bg96_driver.Interface.{RxEvent, RxState, data_available, read_docb}
use bg96_driver.Interface.Events.{rx_event, rx_received, is_null}

-- The attempts of a read, over the results and bytes that BG96::recv gives: `none` while the read
-- is pending, and then the event that is complete.
pub attempts : RxEvent → List (ℤ × List ℕ) → Option RxEvent
attempts p [] = none
attempts p ((cnt, bytes) ∷ rs) =
    let (more, q) = rx_received p cnt bytes in
    let rest = attempts q rs in if more then rest else some q

-- `n` attempts that find nothing.
abbrev pub silence : ℕ → List (ℤ × List ℕ)
silence zero = []
silence (suc n) = (pos 0, []) ∷ silence n

abbrev pub errors : ℕ → List (ℤ × List ℕ)
errors zero = []
errors (suc n) = (nsapi_error_device_error, []) ∷ errors n

-- The state that a completed read is left in.
abbrev pub next_state : RxEvent → RxState
next_state p = if is_null p.callback then data_available else read_docb

silent_step :
    (p : RxEvent)
    → p.timer < 600
    → rx_received p (pos 0) [] ≡ (true, record p { timer = p.timer + 1 })
unfolding rx_received
silent_step p h = ground arith

silence_pends :
    (n : ℕ) (p : RxEvent) (rs : List (ℤ × List ℕ))
    → p.timer + n ≤ 600
    → attempts p (silence n ++ rs) ≡ attempts (record p { timer = p.timer + n }) rs
unfolding attempts
silence_pends zero p rs h = ap (λ t. attempts (record p { timer = t }) rs) (omega arith)
silence_pends (suc n) p rs h = rw (silent_step p (omega arith)) (
    silence_pends n (record p { timer = p.timer + 1 }) rs (omega arith)
    ∙ ap (λ t. attempts (record p { timer = t }) rs) (omega arith))

-- A read that does not listen and finds nothing at any attempt.
silent_end :
    (p : RxEvent)
    → p.dis_to ≡ false
    → p.timer ≡ 600
    → rx_received p (pos 0) []
      ≡ (false, record p { timer = 601; return_cnt = 0; state = next_state p })
unfolding rx_received
silent_end p d h = ground arith

module _ {D : Type 0} (io : AtParser D) where
  -- `n` calls of rx_event for the read, or as many as there are before one does not ask for another.
  abbrev pub attempt_rx : ℕ → RxEvent → Bg96 D → (Bool × RxEvent) × Bg96 D
  attempt_rx zero p b = ((true, p), b)
  attempt_rx (suc n) p b =
      let ((more, q), b') = rx_event io p b in
      let rest = attempt_rx n q b' in if more then rest else ((false, q), b')

  -- If BG96::recv finds nothing on the modem for the socket and meets no error, at any call, a read
  -- without the listening flag asks for another attempt of rx_event until its timer stands at 600
  -- ticks, and the attempt after that completes it with 0 bytes.
  pub silence_times_out :
      (n : ℕ) (p : RxEvent) (b : Bg96 D)
      → ((size : ℕ) (c : Bg96 D) → (bg96_recv io (pos p.socket_id) size c).0 ≡ (pos 0, []))
      → p.dis_to ≡ false
      → p.timer + n ≡ 600
      → ((attempt_rx n p b).0 ≡ (true, record p { timer = 600 }))
        × ((attempt_rx (suc n) p b).0
            ≡ (false, record p { timer = 601; return_cnt = 0; state = next_state p }))
  unfolding rx_event
  silence_times_out zero p b quiet d h =
      let e = quiet p.req_size b in
      let last = silent_end p d (omega (arith, h)) in (ground (arith, h), ground (arith, e, last))
  silence_times_out (suc n) p b quiet d h =
      let e = quiet p.req_size b in
      let first = silent_step p (omega (arith, h)) in
      let rest =
        silence_times_out n (record p { timer = p.timer + 1 })
          (bg96_recv io (pos p.socket_id) p.req_size b).1 quiet d (omega (arith, h)) in
      (ground (arith, e, first, rest.0), ground (arith, e, first, rest.1))

-- Data that comes before the timer has passed 600 ticks, fewer than 2^32 bytes, completes a read that
-- has not counted any yet: it is counted, and stands at the start of the buffer.
data_completes :
    (n m : ℕ) (p : RxEvent) (bytes : List ℕ)
    → p.timer + n ≤ 600
    → p.return_cnt ≡ 0
    → 0 < m
    → m < 4294967296
    → attempts p (silence n ++ (pos m, bytes) ∷ [])
      ≡ some (record p {
        timer = p.timer + n;
        return_cnt = m;
        state = next_state p;
        dptr = bytes ++ drop (length bytes) p.dptr;
      })
unfolding attempts rx_received
data_completes n m p bytes h z l w = silence_pends n p _ h ∙ ground arith

-- A modem that answers every attempt with an error keeps the read pending for ever: each error sets
-- the timer back to 0.
errors_never_time_out : (n : ℕ) (p : RxEvent) → attempts p (errors n) ≡ none
unfolding attempts rx_received
errors_never_time_out zero p = refl
errors_never_time_out (suc n) p = errors_never_time_out n _

-- A read on a listening socket never times out, however long the modem has nothing for it.
listening_never_times_out : (n : ℕ) (p : RxEvent) → p.dis_to ≡ true → attempts p (silence n) ≡ none
unfolding attempts rx_received
listening_never_times_out zero p d = refl
listening_never_times_out (suc n) p d =
    ground (arith, listening_never_times_out n (record p { timer = p.timer + 1 }) d)
