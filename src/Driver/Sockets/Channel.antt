-- ===== src/Driver/Sockets/Channel.antt =====
-- BG96/BG96.cpp: BG96::send and BG96::recv over a modem that takes what it is given, and keeps what
-- is written for each of its sockets.
use bg96_driver.Prelude.{
  ℕ, ◌<◌, ◌≡◌, ◌≢◌, arith, ℤ, pos, ltb_ℤ, ◌==ℤ◌, true, List, ◌++◌, take, length, if◌then◌else◌,
}
use bg96_driver.At.{AtParser, Bg96, Command, plain, matched}
use bg96_driver.Driver.Sockets.{bg96_send, bg96_recv}
use bg96_driver.Driver.Sockets.Outcome.{send_command}

-- AT+QISEND names the socket that the data after the prompt are for (`target`), and the modem
-- answers it by the prompt, takes the data and confirms them; `sent` is what it has taken for each
-- socket. Nothing else adds to that.
pub record IsChannel {D : Type 0} (io : AtParser D) (target : D → ℤ) (sent : ℕ → D → List ℕ)
    : Type 0 where
  pub sends : (t : ℕ) (c : Command) (d : D) → (io.send t c d).0 ≡ true
  pub aims : (t : ℕ) (id : ℤ) (n : ℕ) (d : D) → target (io.send t (send_command id n) d).1 ≡ id
  pub aim_kept : (t : ℕ) (c : Command) (d : D) → target (io.recv t c d).1 ≡ target d
  pub prompts : (t : ℕ) (d : D) → matched (io.recv t (plain ">") d).0 ≡ true
  pub confirms : (t : ℕ) (d : D) → matched (io.recv t (plain "SEND OK") d).0 ≡ true
  pub takes : (t : ℕ) (b : List ℕ) (d : D) → 0 < length b → ltb_ℤ (pos 0) (io.write t b d).0 ≡ true
  pub stores :
      (t : ℕ) (b : List ℕ) (d : D) (j : ℕ)
      → sent j (io.write t b d).1 ≡ (if pos j ==ℤ target d then sent j d ++ b else sent j d)
  pub send_adds_none : (t : ℕ) (c : Command) (d : D) (j : ℕ) → sent j (io.send t c d).1 ≡ sent j d
  pub recv_adds_none : (t : ℕ) (c : Command) (d : D) (j : ℕ) → sent j (io.recv t c d).1 ≡ sent j d
  pub read_adds_none : (t n : ℕ) (d : D) (j : ℕ) → sent j (io.read t n d).1 ≡ sent j d
  pub getc_adds_none : (t : ℕ) (d : D) (j : ℕ) → sent j (io.getc t d).1 ≡ sent j d

module _ {D : Type 0} {io : AtParser D} {target : D → ℤ} {sent : ℕ → D → List ℕ}
    (ch : IsChannel io target sent) where
  open ch use {
    sends, aims, aim_kept, prompts, confirms, takes, stores, send_adds_none, recv_adds_none,
    read_adds_none, getc_adds_none,
  }

  -- BG96::send hands over the first `amount` bytes for its own socket.
  pub bg96_send-sent :
      (i : ℕ) (bytes : List ℕ) (amount : ℕ) (b : Bg96 D)
      → 0 < length (take amount bytes)
      → let (done, b') = bg96_send io (pos i) bytes amount b in
        (done ≡ true) × (sent i b'.dev ≡ sent i b.dev ++ take amount bytes)
  unfolding bg96_send
  bg96_send-sent i bytes amount b lt =
      let d₁ = (io.send 2000 (send_command (pos i) amount) b.dev).1 in
      let d₂ = (io.recv 2000 (plain ">") d₁).1 in
      let d₃ = (io.write 2000 (take amount bytes) d₂).1 in
      ground (
        arith,
        sends 2000 (send_command (pos i) amount) b.dev,
        prompts 2000 d₁,
        takes 2000 (take amount bytes) d₂ lt,
        confirms 2000 d₃,
        recv_adds_none 2000 (plain "SEND OK") d₃ i,
        stores 2000 (take amount bytes) d₂ i,
        aim_kept 2000 (plain ">") d₁,
        aims 2000 (pos i) amount b.dev,
        recv_adds_none 2000 (plain ">") d₁ i,
        send_adds_none 2000 (send_command (pos i) amount) b.dev i,
      )

  -- For whatever bytes, it adds to no other.
  pub bg96_send-sent_other :
      (i : ℕ) (bytes : List ℕ) (amount : ℕ) (b : Bg96 D) (j : ℕ)
      → i ≢ j
      → sent j (bg96_send io (pos i) bytes amount b).1.dev ≡ sent j b.dev
  unfolding bg96_send
  bg96_send-sent_other i bytes amount b j ne =
      let d₁ = (io.send 2000 (send_command (pos i) amount) b.dev).1 in
      let d₂ = (io.recv 2000 (plain ">") d₁).1 in
      let d₃ = (io.write 2000 (take amount bytes) d₂).1 in
      ground (
        arith,
        sends 2000 (send_command (pos i) amount) b.dev,
        prompts 2000 d₁,
        recv_adds_none 2000 (plain "SEND OK") d₃ j,
        stores 2000 (take amount bytes) d₂ j,
        aim_kept 2000 (plain ">") d₁,
        aims 2000 (pos i) amount b.dev,
        recv_adds_none 2000 (plain ">") d₁ j,
        send_adds_none 2000 (send_command (pos i) amount) b.dev j,
      )

  -- BG96::recv adds to none.
  pub bg96_recv-sent :
      (id : ℤ) (n : ℕ) (b : Bg96 D) (j : ℕ) → sent j (bg96_recv io id n b).1.dev ≡ sent j b.dev
  unfolding bg96_recv
  bg96_recv-sent id n b j =
      grind (arith, send_adds_none, recv_adds_none, read_adds_none, getc_adds_none)
