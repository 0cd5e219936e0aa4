-- ===== src/Tls/Timer/Ends.antt =====
-- TLS/BG96TLSSocket.cpp: recv ends once timeout_task has waited.
use bg96_driver.Prelude.{ℕ, ◌+◌, ◌≤◌, ◌≡◌, ◌⊎◌, inl, inr, refl, arith, ℤ, Bool, true, List}
use bg96_driver.At.{AtParser, Bg96}
use bg96_driver.Tls.{TlsSocket}
use bg96_driver.Tls.Timer.{
  System, Receiver, looping, asking, judging, returned, Step, resets, sleeps, ends, rings, asks,
  receives, leaves, returns, Reach, here, next, begin,
}
use bg96_driver.Tls.Timer.Patience.{IsRung, Reach-IsRung, begin-IsRung, rung_kept}

-- The steps that recv has left once the flag stands.
abbrev pub steps_left : Receiver → ℕ
steps_left (asking cnt stored) = 3
steps_left (looping cnt stored) = 2
steps_left (judging cnt stored) = 1
steps_left (returned n stored) = 0

few_left : (r : Receiver) → steps_left r ≤ 3
few_left (asking cnt stored) = omega arith
few_left (looping cnt stored) = omega arith
few_left (judging cnt stored) = omega arith
few_left (returned n stored) = omega arith

module _ {D : Type 0} (io : AtParser D) (sock : TlsSocket) (size : ℕ) where
  -- 1 for a step of the thread that calls recv, and 0 for one of timeout_task.
  abbrev pub own : {s t : System D} → Step io sock size s t → ℕ
  own (resets e) = 0
  own (sleeps e f) = 0
  own (ends e f) = 0
  own (rings e) = 0
  own (asks cnt stored e h) = 1
  own (receives cnt stored e) = 1
  own (leaves cnt stored e h) = 1
  own (returns cnt stored e) = 1

  abbrev pub own_steps : {s t : System D} → Reach io sock size s t → ℕ
  own_steps here = 0
  own_steps (next r st) = own_steps r + own st

  own-left :
      {s t : System D} (st : Step io sock size s t)
      → s.ovf ≡ true
      → own st + steps_left t.receiver ≡ steps_left s.receiver
  own-left (resets e) o = omega arith
  own-left (sleeps e f) o = omega arith
  own-left (ends e f) o = omega arith
  own-left (rings e) o = omega arith
  own-left (asks cnt stored e h) o = absurd (cc (rw o at h))
  own-left (receives cnt stored e) o = rw e refl
  own-left (leaves cnt stored e h) o = rw e refl
  own-left (returns cnt stored e) o = rw e refl

  own_steps-left :
      {s t : System D} (w : Reach io sock size s t)
      → IsRung s
      → s.rung ≡ true
      → own_steps w + steps_left t.receiver ≡ steps_left s.receiver
  own_steps-left here v q = omega arith
  own_steps-left (next r st) v q =
      let flag = (Reach-IsRung io sock size r v).over (rung_kept io sock size r v q).1 in
      omega (arith, own-left st flag, own_steps-left r v q)

  -- recv has returned, or its thread has a step to make.
  abbrev pub Goes : System D → Type 0
  Goes u =
      ((n : ℤ) × (stored : List ℕ) × (u.receiver ≡ returned n stored))
      ⊎ ((v : System D) × (st : Step io sock size u v) × (own st ≡ 1))

  goes : (u : System D) (r : Receiver) → u.receiver ≡ r → u.ovf ≡ true → Goes u
  goes u (looping cnt stored) e o = inr (_, leaves cnt stored e (rw o refl), refl)
  goes u (asking cnt stored) e o = inr (_, receives cnt stored e, refl)
  goes u (judging cnt stored) e o = inr (_, returns cnt stored e, refl)
  goes u (returned n stored) e o = inl (n, stored, e)

  -- Once a wait of timeout_task has come to its end, recv is over after at most three more steps of
  -- its thread, the call of sslrecv being one, whatever timeout_ovf held at first and in whatever
  -- order the two go on; and until it has returned, its thread can make a step.
  pub Reach-ends :
      (started ovf : Bool) (b : Bg96 D) {t u : System D}
      → Reach io sock size (begin started ovf b) t
      → t.rung ≡ true
      → (w : Reach io sock size t u) → (own_steps w + steps_left u.receiver ≤ 3) × Goes u
  Reach-ends started ovf b {t} {u} r q w =
      let v = Reach-IsRung io sock size r (begin-IsRung io sock size started ovf b) in
      let flag = (Reach-IsRung io sock size w v).over (rung_kept io sock size w v q).1 in
      (omega (arith, own_steps-left w v q, few_left t.receiver), goes u u.receiver refl flag)
