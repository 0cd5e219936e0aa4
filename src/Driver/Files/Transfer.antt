-- ===== src/Driver/Files/Transfer.antt =====
-- BG96/BG96.cpp: the loops that send the bytes of a buffer, and the width of their counters.
use native.Mathlib.Nat.{mod-lt, mod-eq_of_lt}
use bg96_driver.Prelude.{
  ℕ, suc, ◌+◌, ◌-◌, ◌%◌, ◌≤◌, ◌<◌, ◌≡◌, ◌∙◌, ap, arith, ℤ, pos, Bool, true, false, none, some, List,
  [], ◌∷◌, ◌++◌, take, length, length-append, CStr, ltb, Bool-cases, Option-cases, inl, inr,
}
use bg96_driver.At.{AtParser, Bg96, Command, int, text, plain, matched, parser_putc}
use bg96_driver.Driver.Files.{file_exists}
use bg96_driver.Driver.Files.Upload.{
  put_all, connect_upload, upload_content, send_file, fs_upload_file,
}

module _ {D : Type 0} (io : AtParser D) where
  -- The reference: each byte is sent once, in order.
  unfoldable pub put_bytes : List ℕ → Bg96 D → Bg96 D
  put_bytes [] s = s
  put_bytes (b ∷ c) s = put_bytes c (parser_putc io b s).1

  put_rest :
      (limit i size : ℕ) (c : List ℕ) (s : Bg96 D)
      → i ≤ size
      → size < limit
      → size - i ≤ length c
      → put_all io limit i size c s ≡ some (tt, put_bytes (take (size - i) c) s)
  unfolding put_all put_bytes
  put_rest limit i size [] s le lt h = let e : size - i ≡ 0 = omega arith in rw e (ground arith)
  put_rest limit i size (b ∷ c) s le lt h = elim (Bool-cases (ltb i size)) [
    | inr end ↦ let e : size - i ≡ 0 = ground arith in rw e (ground arith)
    | inl more ↦
        let next : (i + 1) % limit ≡ i + 1 = mod-eq_of_lt (ground arith) in
        let e : size - i ≡ suc (size - (i + 1)) = ground arith in
        rw (e, next)
          (ground (
            arith,
            put_rest limit (i + 1) size c (parser_putc io b s).1 (ground arith) lt (ground arith),
          ))
  ]

  -- A loop whose counter can hold the size sends the first `size` bytes of the buffer, each once and
  -- in order, and ends.
  pub put_all_total :
      (limit size : ℕ) (c : List ℕ) (s : Bg96 D)
      → size < limit
      → size ≤ length c
      → put_all io limit 0 size c s ≡ some (tt, put_bytes (take size c) s)
  put_all_total limit size c s lt h =
      put_rest limit 0 size c s (omega arith) lt (omega arith)
      ∙ ap (λ n. some (tt, put_bytes (take n c) s)) (omega arith)

  put_on :
      (limit i size : ℕ) (c : List ℕ) (s : Bg96 D)
      → i < limit
      → limit ≤ size
      → put_all io limit i size c s ≡ none
  unfolding put_all
  put_on limit i size [] s lt le = ground arith
  put_on limit i size (b ∷ c) s lt le =
      let next : (i + 1) % limit < limit = mod-lt (i + 1) (omega arith) in
      ground (arith, put_on limit ((i + 1) % limit) size c (parser_putc io b s).1 next le)

  -- fs_upload_file ends for the sizes that its counter can hold.
  pub driver_upload_total :
      (filename : CStr) (bytes : List ℕ) (size : ℕ) (s : Bg96 D)
      → size < 65536
      → size ≤ length bytes
      → (r : (ℤ × ℕ) × Bg96 D) × (fs_upload_file io filename bytes size s ≡ some r)
  unfolding fs_upload_file
  driver_upload_total filename bytes size s lt le =
      let cmd : Command = record {
        format = "AT+QFUPL=\"%s\",%u";
        args = text filename ∷ int (pos size) ∷ [];
      } in
      let c = connect_upload io cmd (record s { locks = s.locks + 1; timeout = 1000 }) in
      let e = put_all_total 65536 size bytes c.1 lt le in
      elim (Option-cases (fs_upload_file io filename bytes size s)) [
        | inl none_given ↦ absurd (ground (arith, none_given, e))
        | inr r ↦ r
      ]

  put_all_runs_away :
      (size : ℕ) (c : List ℕ) (s : Bg96 D) → 65536 ≤ size → put_all io 65536 0 size c s ≡ none
  put_all_runs_away size c s le = put_on 65536 0 size c s (omega arith) le

  upload_content_runs_away :
      ((t : ℕ) (c : Command) (d : D) → (io.send t c d).0 ≡ true)
      → ((t : ℕ) (d : D) → matched (io.recv t (plain "CONNECT") d).0 ≡ true)
      → (content filename : CStr) (s : Bg96 D) → 65536 ≤ length content
      → upload_content io content filename s ≡ none
  unfolding upload_content connect_upload
  upload_content_runs_away sends connects content filename s le = grind (arith, put_all_runs_away)

  -- On a modem that accepts the command and answers CONNECT, the 16-bit counter of fs_upload_file
  -- and send_file never reaches a size of 65536 or more: fs_upload_file reads past the end of any
  -- buffer, and send_file, of a file that is not there yet, past a text of 65535 characters or more.
  pub uploads_run_away :
      ((t : ℕ) (c : Command) (d : D) → (io.send t c d).0 ≡ true)
      → ((t : ℕ) (d : D) → matched (io.recv t (plain "CONNECT") d).0 ≡ true)
      → (filename content : CStr) (bytes : List ℕ) (size : ℕ) (overrideok : Bool) (s : Bg96 D)
      → 65536 ≤ size
      → 65535 ≤ length content
      → (file_exists io filename s).0 ≡ false
      → (fs_upload_file io filename bytes size s ≡ none)
        × (send_file io content filename overrideok s ≡ none)
  unfolding fs_upload_file connect_upload send_file
  uploads_run_away sends connects filename content bytes size overrideok s le long absent = (
    grind (arith, put_all_runs_away),
    rw absent (
        upload_content_runs_away sends connects (content ++ 0 ∷ []) filename _
          (omega (arith, length-append content (0 ∷ [])))),
  )
