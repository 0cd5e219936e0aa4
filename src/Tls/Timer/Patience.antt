-- ===== src/Tls/Timer/Patience.antt =====
-- TLS/BG96TLSSocket.cpp: what timeout_ovf tells recv.
use bg96_driver.Prelude.{
  ℕ, ◌≡◌, refl, ap, ◌⊎◌, inl, inr, arith, ℤ, pos, negsuc, ltb_ℤ, Bool, true, false, List, [],
}
use bg96_driver.At.{AtParser, Bg96, nsapi_error_timeout}
use bg96_driver.Driver.Tls
use bg96_driver.Tls.{TlsSocket}
use bg96_driver.Tls.Timer.{
  System, Task, Receiver, looping, asking, judging, returned, starting, Step, resets, sleeps, ends,
  rings, asks, receives, leaves, returns, Reach, here, next, begin,
}

-- A count that recv may have at this point as long as no wait has ended.
abbrev IsCount : Receiver → Type 0
IsCount (looping cnt stored) = Unit {0}
IsCount (asking cnt stored) = Unit {0}
IsCount (judging cnt stored) = ltb_ℤ cnt (pos 0) ≡ false
IsCount (returned n stored) = ltb_ℤ n (pos 0) ≡ false

record IsPatient {D : Type 0} (s : System D) : Type 0 where
  quiet : s.rung ≡ false → s.ovf ≡ false
  counted : s.rung ≡ false → IsCount s.receiver

abbrev is_starting : Task → Bool
is_starting starting = true
is_starting _ = false

-- A wait that has come to its end has left timeout_ovf set, for good.
pub record IsRung {D : Type 0} (s : System D) : Type 0 where
  pub over : s.rung ≡ true → s.ovf ≡ true
  pub begun : s.rung ≡ true → is_starting s.task ≡ false

module _ {D : Type 0} (io : AtParser D) (sock : TlsSocket) (size : ℕ) where
  Step-IsPatient : {s t : System D} → Step io sock size s t → IsPatient s → IsPatient t
  Step-IsPatient (resets e) v = record { quiet = λ q. refl; counted = v.counted }
  Step-IsPatient (sleeps e f) v = record { quiet = v.quiet; counted = v.counted }
  Step-IsPatient (ends e f) v = record { quiet = v.quiet; counted = v.counted }
  Step-IsPatient (rings e) v = record {
    quiet = λ (q : true ≡ false). cc;
    counted = λ (q : true ≡ false). absurd (cc);
  }
  Step-IsPatient (asks cnt stored e h) v = record { quiet = v.quiet; counted = λ q. tt }
  Step-IsPatient (receives cnt stored e) v = record { quiet = v.quiet; counted = λ q. tt }
  Step-IsPatient (leaves cnt stored e h) v = record {
    quiet = v.quiet;
    counted = λ q. ground (arith, v.quiet q);
  }
  Step-IsPatient (returns cnt stored e) v = record {
    quiet = v.quiet;
    counted = λ q. ground (arith, v.quiet q, rw e at (v.counted q));
  }

  Reach-IsPatient : {s t : System D} → Reach io sock size s t → IsPatient s → IsPatient t
  Reach-IsPatient here v = v
  Reach-IsPatient (next r st) v = Step-IsPatient st (Reach-IsPatient r v)

  -- If timeout_ovf does not stand from before, recv reports an error, the timeout included, only
  -- after a wait of timeout_task has come to its end: until then what it returns is not negative.
  pub Reach-patient :
      (started : Bool) (b : Bg96 D) {t : System D} (n : ℤ) (stored : List ℕ)
      → Reach io sock size (begin started false b) t
      → t.receiver ≡ returned n stored
      → t.rung ≡ false
      → ltb_ℤ n (pos 0) ≡ false
  Reach-patient started b {t} n stored r e q =
      let v = Reach-IsPatient r (record { quiet = λ q. refl; counted = λ q. tt }) in
      rw e at (v.counted q)

  Step-IsRung : {s t : System D} → Step io sock size s t → IsRung s → IsRung t
  Step-IsRung (resets e) v = record { over = λ q. ground (arith, v.begun q); begun = λ q. refl }
  Step-IsRung (sleeps e f) v = record { over = v.over; begun = λ q. refl }
  Step-IsRung (ends e f) v = record { over = v.over; begun = λ q. refl }
  Step-IsRung (rings e) v = record { over = λ q. refl; begun = λ q. refl }
  Step-IsRung (asks cnt stored e h) v = record { over = v.over; begun = v.begun }
  Step-IsRung (receives cnt stored e) v = record { over = v.over; begun = v.begun }
  Step-IsRung (leaves cnt stored e h) v = record { over = v.over; begun = λ q. refl }
  Step-IsRung (returns cnt stored e) v = record { over = v.over; begun = v.begun }

  pub Reach-IsRung : {s t : System D} → Reach io sock size s t → IsRung s → IsRung t
  Reach-IsRung here v = v
  Reach-IsRung (next r st) v = Step-IsRung st (Reach-IsRung r v)

  -- recv is past the test of the `while` and has not yet turned to the modem.
  abbrev is_asking : Receiver → Bool
  is_asking (asking cnt stored) = true
  is_asking _ = false

  -- What recv leaves of the modem `b` from now on: it has turned to it once more, or not; the latter
  -- if it still may.
  abbrev AtMostOnce : Bg96 D → System D → Type 0
  AtMostOnce b s =
      (s.bg96 ≡ b)
      ⊎ ((is_asking s.receiver ≡ false) × (s.bg96 ≡ (Tls.sslrecv io sock.client_id size b).1))

  -- A step that follows the end of a wait.
  after_ring :
      (b : Bg96 D) {s t : System D}
      → Step io sock size s t
      → IsRung s
      → s.rung ≡ true
      → AtMostOnce b s
      → AtMostOnce b t × (t.rung ≡ true)
  after_ring b (resets e) v q m = (m, q)
  after_ring b (sleeps e f) v q m = (m, q)
  after_ring b (ends e f) v q m = (m, q)
  after_ring b (rings e) v q m = (m, refl)
  after_ring b (asks cnt stored e h) v q m = absurd (cc (rw (v.over q) at h))
  after_ring b (receives cnt stored e) v q (inl m) =
      (inr (refl, ap (λ x. (Tls.sslrecv io sock.client_id size x).1) m), q)
  after_ring b (receives cnt stored e) v q (inr (none_due, m)) = absurd (cc (rw e at none_due))
  after_ring b (leaves cnt stored e h) v q (inl m) = (inl m, q)
  after_ring b (leaves cnt stored e h) v q (inr m) = (inr (refl, m.1), q)
  after_ring b (returns cnt stored e) v q (inl m) = (inl m, q)
  after_ring b (returns cnt stored e) v q (inr m) = (inr (refl, m.1), q)

  pub rung_kept :
      {s t : System D}
      → Reach io sock size s t
      → IsRung s
      → s.rung ≡ true
      → AtMostOnce s.bg96 t × (t.rung ≡ true)
  rung_kept here v q = (inl refl, q)
  rung_kept {s} (next r st) v q =
      let k = rung_kept r v q in after_ring s.bg96 st (Reach-IsRung r v) k.1 k.0

  pub begin-IsRung : (started ovf : Bool) (b : Bg96 D) → IsRung (begin started ovf b)
  begin-IsRung started ovf b = record {
    over = λ (q : false ≡ true). absurd (cc);
    begun = λ (q : false ≡ true). absurd (cc);
  }

  -- Once a wait of timeout_task has come to its end, recv turns to the modem at most once more,
  -- whatever timeout_ovf held at first and in whatever order the two go on: the modem is left as it
  -- was, or as one sslrecv leaves it.
  pub Reach-rung :
      (started ovf : Bool) (b : Bg96 D) {t u : System D}
      → Reach io sock size (begin started ovf b) t
      → t.rung ≡ true
      → Reach io sock size t u
      → (u.bg96 ≡ t.bg96) ⊎ (u.bg96 ≡ (Tls.sslrecv io sock.client_id size t.bg96).1)
  Reach-rung started ovf b r q w =
      elim (rung_kept w (Reach-IsRung r (begin-IsRung started ovf b)) q).0 [
        | inl m ↦ inl m
        | inr m ↦ inr m.1
      ]

  -- A recv that finds timeout_ovf left over from the last one may report the timeout though no wait
  -- of timeout_task has ended, and without having turned to the modem.
  pub Reach-stale :
      (started : Bool) (b : Bg96 D)
      → (t : System D) × Reach io sock size (begin started true b) t
        × (t.receiver ≡ returned nsapi_error_timeout [])
        × (t.rung ≡ false)
        × (t.bg96 ≡ b)
  Reach-stale started b = (
    _,
    next (next here (leaves (negsuc 0) [] refl refl)) (returns (negsuc 0) [] refl),
    refl,
    refl,
    refl,
  )
