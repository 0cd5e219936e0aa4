-- ===== src/Driver/Sockets/Source.antt =====
-- BG96/BG96.cpp: BG96::recv over a modem that keeps what has come for each of its sockets until it
-- is asked for it.
use bg96_driver.Prelude.{
  ℕ, zero, suc, ◌<◌, ◌≡◌, ◌≢◌, refl, ap, ◌∙◌, arith, ℤ, pos, Bool, true, List, [], ◌∷◌, take, drop,
  length, if◌then◌else◌, ◌==◌, ltb, as_int, pos_part, none, some, Bool-cases, inl, inr,
}
use bg96_driver.At.{AtParser, Bg96, Command, int, plain, matched, int_at}
use bg96_driver.Driver.Commands.{recv_pattern}
use bg96_driver.Driver.Sockets.{bg96_send, bg96_recv}

abbrev pub recv_command : ℤ → ℤ → Command
recv_command id n = record { format = "AT+QIRD=%d,%d"; args = int id ∷ int n ∷ [] }

-- AT+QIRD names a socket (`target`) and a number of bytes (`room`). The modem answers with the
-- number of bytes that it hands over: as many as it has and as there is room for. After one more byte
-- (`ready`) these are read, and the modem forgets them. `inbox` is what it has for each socket;
-- nothing else takes from that or adds to it.
pub record IsSource {D : Type 0} (io : AtParser D) (target room : D → ℕ) (ready : D → Bool)
    (inbox : ℕ → D → List ℕ) : Type 0 where
  pub asks : (t i n : ℕ) (d : D) → (io.send t (recv_command (pos i) (pos n)) d).0 ≡ true
  pub aims : (t i : ℕ) (n : ℤ) (d : D) → target (io.send t (recv_command (pos i) n) d).1 ≡ i
  pub limits : (t i n : ℕ) (d : D) → room (io.send t (recv_command (pos i) (pos n)) d).1 ≡ n
  pub announces :
      (t : ℕ) (d : D)
      → (io.recv t (plain "+QIRD:%d\r\n") d).0
        ≡ some (int (pos (length (take (room d) (inbox (target d) d)))) ∷ [])
  pub aim_kept : (t : ℕ) (c : Command) (d : D) → target (io.recv t c d).1 ≡ target d
  pub readies : (t : ℕ) (d : D) → ready (io.getc t d).1 ≡ true
  pub aim_kept_getc : (t : ℕ) (d : D) → target (io.getc t d).1 ≡ target d
  pub hands_over :
      (t n : ℕ) (d : D) → ready d ≡ true → (io.read t n d).0.1 ≡ take n (inbox (target d) d)
  pub forgets :
      (t n : ℕ) (d : D) (j : ℕ)
      → ready d ≡ true
      → inbox j (io.read t n d).1 ≡ (if j == target d then drop n (inbox j d) else inbox j d)
  pub closes : (t : ℕ) (d : D) → matched (io.recv t (plain "OK") d).0 ≡ true
  pub send_keeps : (t : ℕ) (c : Command) (d : D) (j : ℕ) → inbox j (io.send t c d).1 ≡ inbox j d
  pub recv_keeps : (t : ℕ) (c : Command) (d : D) (j : ℕ) → inbox j (io.recv t c d).1 ≡ inbox j d
  pub write_keeps : (t : ℕ) (b : List ℕ) (d : D) (j : ℕ) → inbox j (io.write t b d).1 ≡ inbox j d
  pub getc_keeps : (t : ℕ) (d : D) (j : ℕ) → inbox j (io.getc t d).1 ≡ inbox j d

pub length-zero : (xs : List ℕ) → length xs ≡ 0 → xs ≡ []
length-zero [] e = refl
length-zero (x ∷ xs) e = absurd (omega (arith, e))

if_same : {A : Type 0} (i : ℕ) (x y : A) → (if i == i then x else y) ≡ x
if_same i x y = ground arith

pub take-length-take : (n : ℕ) (xs : List ℕ) → take (length (take n xs)) xs ≡ take n xs
take-length-take zero xs = refl
take-length-take (suc n) [] = refl
take-length-take (suc n) (x ∷ xs) = ap (λ ys. x ∷ ys) (take-length-take n xs)

module _ {D : Type 0} {io : AtParser D} {target room : D → ℕ} {ready : D → Bool}
    {inbox : ℕ → D → List ℕ} (src : IsSource io target room ready inbox) where
  open src use {
    asks, aims, limits, announces, aim_kept, readies, aim_kept_getc, hands_over, forgets, closes,
    send_keeps, recv_keeps, write_keeps, getc_keeps,
  }

  -- BG96::send takes nothing from any socket.
  pub bg96_send-inbox :
      (id : ℤ) (bytes : List ℕ) (amount : ℕ) (b : Bg96 D) (j : ℕ)
      → inbox j (bg96_send io id bytes amount b).1.dev ≡ inbox j b.dev
  unfolding bg96_send
  bg96_send-inbox id bytes amount b j = grind (arith, send_keeps, recv_keeps, write_keeps)

  -- BG96::recv takes nothing from another socket than its own.
  pub bg96_recv-inbox_other :
      (i n : ℕ) (b : Bg96 D) (j : ℕ)
      → j ≢ i
      → inbox j (bg96_recv io (pos i) n b).1.dev ≡ inbox j b.dev
  unfolding bg96_recv
  bg96_recv-inbox_other i n b j ne =
      let q = (io.recv 1000 (recv_pattern (pos i)) b.dev).1 in
      let d₁ = (io.send 1000 (recv_command (pos i) (as_int n)) q).1 in
      let (reply, d₂) = io.recv 1000 (plain "+QIRD:%d\r\n") d₁ in
      let d₃ = (io.getc 1000 d₂).1 in
      let k = pos_part (elim reply [ none ↦ pos 0 | some vs ↦ int_at 0 (pos 0) vs ]) in
      let d₄ = (io.read 1000 k d₃).1 in
      ground (
        arith,
        recv_keeps 1000 (recv_pattern (pos i)) b.dev j,
        send_keeps 1000 (recv_command (pos i) (as_int n)) q j,
        recv_keeps 1000 (plain "+QIRD:%d\r\n") d₁ j,
        getc_keeps 1000 d₂ j,
        aims 1000 i (as_int n) q,
        aim_kept 1000 (plain "+QIRD:%d\r\n") d₁,
        aim_kept_getc 1000 d₂,
        forgets 1000 k d₃ j (readies 1000 d₂),
        recv_keeps 1000 (plain "OK") d₄ j,
      )

  -- BG96::recv gives the bytes that its socket has and that there is room for, in order, and their
  -- number, and leaves the modem the rest.
  pub bg96_recv-inbox :
      (i n : ℕ) (b : Bg96 D)
      → n < 2147483648
      → let got = take n (inbox i b.dev) in
        let ((cnt, bytes), b') = bg96_recv io (pos i) n b in
        (cnt ≡ pos (length got))
        × (bytes ≡ got)
        × (inbox i b'.dev ≡ drop (length got) (inbox i b.dev))
  unfolding bg96_recv
  bg96_recv-inbox i n b lt =
      let q = (io.recv 1000 (recv_pattern (pos i)) b.dev).1 in
      let d₁ = (io.send 1000 (recv_command (pos i) (pos n)) q).1 in
      let d₂ = (io.recv 1000 (plain "+QIRD:%d\r\n") d₁).1 in
      let d₃ = (io.getc 1000 d₂).1 in
      let got = take n (inbox i b.dev) in
      let d₄ = (io.read 1000 (length got) d₃).1 in
      let target₁ : target d₁ ≡ i = aims 1000 i (pos n) q in
      let in₁ : inbox i d₁ ≡ inbox i b.dev =
        send_keeps 1000 (recv_command (pos i) (pos n)) q i
        ∙ recv_keeps 1000 (recv_pattern (pos i)) b.dev i in
      let announced : (io.recv 1000 (plain "+QIRD:%d\r\n") d₁).0
          ≡ some (int (pos (length got)) ∷ []) =
        rw (target₁, in₁, limits 1000 i n q) at (announces 1000 d₁) in
      let target₃ : target d₃ ≡ i =
        aim_kept_getc 1000 d₂ ∙ aim_kept 1000 (plain "+QIRD:%d\r\n") d₁ ∙ target₁ in
      let in₃ : inbox i d₃ ≡ inbox i b.dev =
        getc_keeps 1000 d₂ i ∙ recv_keeps 1000 (plain "+QIRD:%d\r\n") d₁ i ∙ in₁ in
      let small : as_int n ≡ pos n = ground arith in
      let asked : (io.send 1000 (recv_command (pos i) (pos n)) q).0 ≡ true = asks 1000 i n q in
      let r = readies 1000 d₂ in
      let read : (io.read 1000 (length got) d₃).0.1 ≡ got =
        rw (target₃, in₃, take-length-take n (inbox i b.dev)) at
          (hands_over 1000 (length got) d₃ r) in
      let left : inbox i d₄ ≡ drop (length got) (inbox i b.dev) =
        forgets 1000 (length got) d₃ i r
        ∙ rw (target₃, in₃) (if_same i (drop (length got) (inbox i b.dev)) (inbox i b.dev)) in
      let closed : matched (io.recv 1000 (plain "OK") d₄).0 ≡ true = closes 1000 d₄ in
      let kept : inbox i (io.recv 1000 (plain "OK") d₄).1 ≡ inbox i d₄ =
        recv_keeps 1000 (plain "OK") d₄ i in
      let in₂ : inbox i d₂ ≡ inbox i d₁ = recv_keeps 1000 (plain "+QIRD:%d\r\n") d₁ i in
      elim (Bool-cases (ltb 0 (length got))) [
        | inl some_bytes ↦ ground (arith)
        | inr no_bytes ↦ let e = length-zero got (ground arith) in ground (arith)
      ]
