-- ===== src/FileSystem/Store.antt =====
-- File/FSImplementation.cpp: a file that is uploaded to a modem which keeps it is downloaded again,
-- with the end of the line of CONNECT, which the driver does not read, in front of it.
use bg96_driver.Prelude.{
  ℕ, zero, suc, ◌+◌, ◌-◌, ◌<◌, ◌≡◌, refl, ap, ◌∙◌, arith, ℤ, pos, true, some, List, [], ◌∷◌, ◌++◌,
  length, take, CStr,
}
use bg96_driver.At.{AtParser, Bg96, Command, int, text, plain, matched, nsapi_error_ok}
use bg96_driver.Driver.Files
use bg96_driver.Driver.Files.{get_all}
use bg96_driver.Driver.Files.Upload
use bg96_driver.Driver.Files.Upload.{put_all}
use bg96_driver.Driver.Files.Transfer.{put_bytes, put_all_total}
use bg96_driver.Driver.Files.Pipe.{AreBytes, take-all, put_bytes-queue, get_all-take}
use bg96_driver.Driver.Errors.{no_error}
use bg96_driver.FileSystem.{Fs, settle, fs_file_size, fs_upload_file, fs_download_file}

abbrev upload_command : CStr → ℕ → Command
upload_command name size = record {
  format = "AT+QFUPL=\"%s\",%u";
  args = text name ∷ int (pos size) ∷ [];
}

abbrev list_command : CStr → Command
list_command name = record { format = "AT+QFLST=\"%s\""; args = text name ∷ [] }

abbrev download_command : CStr → Command
download_command name = record { format = "AT+QFDWL=\"%s\""; args = text name ∷ [] }

-- The modem of the command manual, as far as it is about the file `name`: `file` is what it keeps
-- under that name, `incoming` what it has received of an upload, `outgoing` what is left of a
-- download behind the word CONNECT, and `sum` its checksum. The line of CONNECT ends with CR LF, and
-- the parser gives the match of "CONNECT" as soon as it has the T. What is left of a download is
-- skipped by the wait for the line +QFDWL.
pub record IsStore {D : Type 0} (io : AtParser D) (name : CStr)
    (incoming file outgoing : D → List ℕ) (sum : D → ℤ) : Type 0 where
  pub uploads :
      (t n : ℕ) (d : D)
      → let (sent, e) = io.send t (upload_command name n) d in (sent ≡ true) × (incoming e ≡ [])
  pub connects :
      (t : ℕ) (d : D)
      → let (r, e) = io.recv t (plain "CONNECT") d in
        (matched r ≡ true)
        × (incoming e ≡ incoming d)
        × (file e ≡ file d)
        × (outgoing e ≡ outgoing d)
  pub puts : (t b : ℕ) (d : D) → incoming (io.putc t b d) ≡ incoming d ++ b ∷ []
  pub stores :
      (t : ℕ) (d : D)
      → let (r, e) = io.recv t (plain "+QFUPL: %u, %X\r\n") d in
        (r ≡ some (int (pos (length (incoming d))) ∷ int (sum d) ∷ [])) × (file e ≡ incoming d)
  pub confirms :
      (t : ℕ) (d : D)
      → let (r, e) = io.recv t (plain "OK") d in (matched r ≡ true) × (file e ≡ file d)
  pub lists :
      (t : ℕ) (d : D)
      → let (sent, e) = io.send t (list_command name) d in (sent ≡ true) × (file e ≡ file d)
  pub tells_size :
      (t : ℕ) (d : D)
      → let (r, e) = io.recv t (plain "+QFLST: \"%80[^\"]\",%u") d in
        (r ≡ some (text name ∷ int (pos (length (file d))) ∷ [])) × (file e ≡ file d)
  pub downloads :
      (t : ℕ) (d : D)
      → let (sent, e) = io.send t (download_command name) d in
        (sent ≡ true) × (file e ≡ file d) × (outgoing e ≡ 13 ∷ 10 ∷ file d)
  pub gets :
      (t : ℕ) (d : D) (b : ℕ) (r : List ℕ)
      → outgoing d ≡ b ∷ r
      → ((io.getc t d).0 ≡ pos b) × (outgoing (io.getc t d).1 ≡ r)
  pub gets_keep : (t : ℕ) (d : D) → file (io.getc t d).1 ≡ file d
  pub reports :
      (t : ℕ) (d : D)
      → (io.recv t (plain "+QFDWL: %u,%hX\r\n") d).0
        ≡ some (int (pos (length (file d))) ∷ int (sum d) ∷ [])

module _ {D : Type 0} {io : AtParser D} {name : CStr} {incoming file outgoing : D → List ℕ}
    {sum : D → ℤ} (st : IsStore io name incoming file outgoing sum) where
  open st use {
    uploads, connects, puts, stores, confirms, lists, tells_size, downloads, gets, gets_keep,
    reports,
  }

  -- BG96::fs_upload_file.
  uploaded :
      (bytes : List ℕ) (b : Bg96 D)
      → length bytes < 65536
      → (b' : Bg96 D) × (Upload.fs_upload_file io name bytes (length bytes) b
          ≡ some ((nsapi_error_ok, length bytes), b'))
        × (file b'.dev ≡ bytes)
  unfolding Upload.fs_upload_file
  uploaded bytes b lt =
      let d₁ = (io.send 1000 (upload_command name (length bytes)) b.dev).1 in
      let d₂ = (io.recv 1000 (plain "CONNECT") d₁).1 in
      let b₂ : Bg96 D = record b { locks = b.locks + 1; timeout = 1000; dev = d₂ } in
      let b₃ = put_bytes io bytes b₂ in
      let d₄ = (io.recv 1000 (plain "+QFUPL: %u, %X\r\n") b₃.dev).1 in
      let d₅ = (io.recv 1000 (plain "OK") d₄).1 in
      let p : put_all io 65536 0 (length bytes) bytes b₂ ≡ some (tt, b₃) =
        put_all_total io 65536 (length bytes) bytes b₂ lt (omega arith)
        ∙ ap (λ x. some (tt, put_bytes io x b₂)) (take-all bytes) in
      let q : incoming b₃.dev ≡ bytes =
        put_bytes-queue io incoming puts bytes b₂
        ∙ ap (λ x. x ++ bytes) ((connects 1000 d₁).1 ∙ (uploads 1000 (length bytes) b.dev).1) in
      (
        record b₃ { timeout = 1000; locks = b₃.locks - 1; dev = d₅ },
        ground (
          arith,
          uploads 1000 (length bytes) b.dev,
          connects 1000 d₁,
          p,
          stores 1000 b₃.dev,
          ap length q,
          confirms 1000 d₄,
        ),
        (confirms 1000 d₄).1 ∙ (stores 1000 b₃.dev).1 ∙ q,
      )

  sized :
      (junk : ℕ) (s : Fs D)
      → length (file s.bg96.dev) < 65536
      → let (n, t) = fs_file_size io junk name s in
        (n ≡ length (file s.bg96.dev)) × (file t.bg96.dev ≡ file s.bg96.dev)
  unfolding fs_file_size settle Files.fs_file_size
  sized junk s lt =
      let d₁ = (io.send 2000 (list_command name) s.bg96.dev).1 in
      let d₂ = (io.recv 2000 (plain "+QFLST: \"%80[^\"]\",%u") d₁).1 in
      ground (
        arith,
        lists 2000 s.bg96.dev,
        tells_size 2000 d₁,
        ap length (lists 2000 s.bg96.dev).1,
        confirms 2000 d₂,
      )

  get_all-file : (n : ℕ) (b : Bg96 D) → file (get_all io n b).1.dev ≡ file b.dev
  unfolding get_all
  get_all-file zero b = refl
  get_all-file (suc n) b = get_all-file n _ ∙ gets_keep b.timeout b.dev

  -- BG96::fs_download_file.
  downloaded :
      (bytes : List ℕ) (checksum : ℕ) (b : Bg96 D)
      → length bytes < 65536
      → AreBytes bytes
      → file b.dev ≡ bytes
      → let (rc, stored, size, sum) =
          (Files.fs_download_file io name (length bytes) checksum b).0 in
        (rc ≡ nsapi_error_ok)
        × (stored ≡ take (length bytes) (13 ∷ 10 ∷ bytes))
        × (size ≡ length bytes)
  unfolding Files.fs_download_file
  downloaded bytes checksum b lt a e =
      let d₁ = (io.send 2000 (download_command name) b.dev).1 in
      let d₂ = (io.recv 2000 (plain "CONNECT") d₁).1 in
      let b₂ : Bg96 D = record b { locks = b.locks + 1; timeout = 2000; dev = d₂ } in
      let b₃ = (get_all io (length bytes) b₂).1 in
      let c = connects 2000 d₁ in
      let l = downloads 2000 b.dev in
      let got : (get_all io (length bytes) b₂).0 ≡ take (length bytes) (13 ∷ 10 ∷ bytes) =
        get_all-take io outgoing gets (length bytes) (13 ∷ 10 ∷ bytes) b₂
          (omega arith, (omega arith, a)) (omega arith) (c.3 ∙ l.2 ∙ ap (λ x. 13 ∷ 10 ∷ x) e) in
      let f : file b₃.dev ≡ bytes = get_all-file (length bytes) b₂ ∙ c.2 ∙ l.1 ∙ e in
      ground (arith, l, c, got, reports 1000 b₃.dev, ap length f)

  -- The modem keeps what it receives of an upload, tells its size, and gives it back byte by byte
  -- behind the line of CONNECT. Then fs_upload_file of at most 65535 bytes ends with the result 0, and
  -- fs_download_file of the same name gives their number, but stores the CR LF of that line and then
  -- the bytes that were sent without the last two.
  pub fs_download_file_shifted :
      (bytes : List ℕ) (junk checksum : ℕ) (s : Fs D)
      → AreBytes bytes
      → length bytes < 65536
      → (s' : Fs D) × (fs_upload_file io name bytes (length bytes) s ≡ some (pos 0, s'))
        × let (n, (stored, sum)) = (fs_download_file io junk name checksum s').0 in
          (n ≡ length bytes) × (stored ≡ take (length bytes) (13 ∷ 10 ∷ bytes))
  unfolding fs_upload_file fs_download_file settle
  fs_download_file_shifted bytes junk checksum s a lt =
      let (b, e, f) = uploaded bytes s.bg96 lt in
      let s' : Fs D = record { bg96 = b; fs_error = no_error } in
      let z = sized junk s' (omega (arith, ap length f)) in
      let n : (fs_file_size io junk name s').0 ≡ length bytes = z.0 ∙ ap length f in
      let d = downloaded bytes checksum (fs_file_size io junk name s').1.bg96 lt a (z.1 ∙ f) in
      (s', ground (arith, e), rw n (ground (arith, d)))
