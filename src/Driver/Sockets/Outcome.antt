-- ===== src/Driver/Sockets/Outcome.antt =====
-- BG96/BG96.cpp: what the results of BG96::send and BG96::recv tell, and the loop of BG96::open.
use bg96_driver.Prelude.{
  ℕ, zero, suc, ◌+◌, ◌≡◌, ◌≢◌, refl, arith, ℤ, pos, ltb_ℤ, Bool, true, not, Option, none, some,
  List, [], ◌∷◌, take, if◌then◌else◌, as_int, Option-cases, inl, inr, ◌⊎◌,
}
use bg96_driver.At.{
  AtParser, Bg96, Command, Arg, int, plain, int_at, parser_send, parser_recv, parser_write,
  parser_scan, lock, nsapi_error_device_error,
}
use bg96_driver.Driver.Sockets.{bg96_send, bg96_recv, clear_residual, chk_rx_avail}

abbrev pub send_command : ℤ → ℕ → Command
send_command id amount = record {
  format = "AT+QISEND=%d,%ld";
  args = int id ∷ int (pos amount) ∷ [];
}

module _ {D : Type 0} (io : AtParser D) where
  -- The modem after the command of BG96::send, after the wait for the prompt, and after the data.
  abbrev pub begun : ℤ → ℕ → Bg96 D → Bool × Bg96 D
  begun id amount s =
      parser_send io (send_command id amount) (record s { locks = s.locks + 1; timeout = 2000 })

  abbrev pub prompted : ℤ → ℕ → Bg96 D → Bool × Bg96 D
  prompted id amount s = parser_recv io (plain ">") (begun id amount s).1

  abbrev pub written : ℤ → List ℕ → ℕ → Bg96 D → ℤ × Bg96 D
  written id bytes amount s = parser_write io (take amount bytes) (prompted id amount s).1

  -- BG96::send gives true exactly when the command could not be sent, or the prompt came and the
  -- write of the first `amount` bytes failed, or after prompt and write, or without a prompt, the
  -- modem confirms: a failed command or write is reported as success.
  bg96_send_result :
      (id : ℤ) (bytes : List ℕ) (amount : ℕ) (s : Bg96 D)
      → (bg96_send io id bytes amount s).0 ≡ (
          if not (begun id amount s).0
          then true
          else if (prompted id amount s).0
          then (if not (ltb_ℤ (pos 0) (written id bytes amount s).0)
              then true
              else (parser_recv io (plain "SEND OK") (written id bytes amount s).1).0)
          else (parser_recv io (plain "SEND OK") (prompted id amount s).1).0)
  unfolding bg96_send
  bg96_send_result id bytes amount s = ground arith

  -- The count that the modem announces to BG96::recv, if it answers.
  abbrev pub announced : ℤ → ℕ → Bg96 D → Option (List Arg)
  announced id cnt s =
      let (sent, s₁) =
        parser_send io (record { format = "AT+QIRD=%d,%d"; args = int id ∷ int (as_int cnt) ∷ [] })
          (lock (chk_rx_avail io id s).1).1 in
      if sent then (parser_scan io (plain "+QIRD:%d\r\n") s₁).0 else none

  -- BG96::recv gives the device error if the modem does not answer; otherwise the count that the
  -- modem announces, or the device error in its place if data came and was not closed by OK.
  bg96_recv_result :
      (id : ℤ) (cnt : ℕ) (s : Bg96 D)
      → let r = (bg96_recv io id cnt s).0.0 in
        ((announced id cnt s ≡ none) × (r ≡ nsapi_error_device_error))
        ⊎ ((vs : List Arg) × (announced id cnt s ≡ some vs)
            × ((r ≡ int_at 0 (pos 0) vs)
                ⊎ ((r ≡ nsapi_error_device_error) × (ltb_ℤ (pos 0) (int_at 0 (pos 0) vs) ≡ true))))
  unfolding bg96_recv
  bg96_recv_result id cnt s = elim (Option-cases (announced id cnt s)) [
    | inl e ↦ inl (e, ground arith)
    | inr (vs, e) ↦ inr (vs, e, ground arith)
  ]

  -- While BG96::recv gives anything but 0, an error included, the loop that clears residual data
  -- goes on: with a modem that always does, it never ends, whatever the number of rounds.
  clear_residual_stuck :
      (busy : (id : ℤ) (b : Bg96 D) → (bg96_recv io id 20 b).0.0 ≢ pos 0) (rounds : ℕ) (id : ℤ)
      (s : Bg96 D)
      → clear_residual io rounds id s ≡ none
  unfolding clear_residual
  clear_residual_stuck busy zero id s = refl
  clear_residual_stuck busy (suc rounds) id s =
      ground (arith, busy id s, clear_residual_stuck busy rounds id (bg96_recv io id 20 s).1)
