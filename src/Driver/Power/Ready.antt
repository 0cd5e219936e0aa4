-- ===== src/Driver/Power/Ready.antt =====
-- BG96/BG96.cpp: the wait for the modem after a reset.
use bg96_driver.Prelude.{
  ℕ, zero, suc, ◌+◌, ◌-◌, ◌≤◌, ◌<◌, ◌≡◌, arith, Bool, true, false, none, some, ltb, Bool-cases, inl,
  inr,
}
use bg96_driver.At.{AtParser, Bg96, plain, Command, parser_recv}
use bg96_driver.Driver.Power.{await_ready}

module _ {D : Type 0} (io : AtParser D) where
  open io use {recv, read_ms}

  -- A `recv` that finds no reply has waited for its timeout.
  abbrev pub Waits : Type 0
  Waits =
      (t : ℕ) (c : Command) (d : D) → (recv t c d).0 ≡ none → read_ms d + t ≤ read_ms (recv t c d).1

  -- With a timeout of at least a millisecond the wait for RDY ends within as many rounds as its
  -- 15 seconds have milliseconds, and one more.
  pub await_ready_total :
      (waits : Waits) (rounds start : ℕ) (s : Bg96 D)
      → 0 < s.timeout
      → start ≤ read_ms s.dev
      → start + 15000 ≤ read_ms s.dev + rounds
      → (r : Bool × Bg96 D) × (await_ready io (suc rounds) start s ≡ some r)
  unfolding await_ready
  await_ready_total waits zero start s t l h = ((false, s), ground arith)
  await_ready_total waits (suc rounds) start s t l h =
      elim (Bool-cases (ltb (read_ms s.dev - start) 15000)) [
        | inr over ↦ ((false, s), ground arith)
        | inl early ↦ elim (Bool-cases (parser_recv io (plain "RDY") s).0) [
          | inl ready ↦ ((true, (parser_recv io (plain "RDY") s).1), ground arith)
          | inr silent ↦
              let w : read_ms s.dev + s.timeout ≤ read_ms (recv s.timeout (plain "RDY") s.dev).1 =
                ground (arith, waits s.timeout (plain "RDY") s.dev) in
              let (r, e) =
                await_ready_total waits rounds start (parser_recv io (plain "RDY") s).1 t
                  (omega arith) (omega arith) in
              (r, ground arith)
        ]
      ]
