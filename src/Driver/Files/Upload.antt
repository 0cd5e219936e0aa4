-- ===== src/Driver/Files/Upload.antt =====
-- BG96/BG96.cpp: the methods that send the bytes of a buffer, with the counter of the loop.
use bg96_driver.Prelude.{
  ℕ, ◌+◌, ◌%◌, ℤ, pos, negsuc, Bool, false, none, some, List, [], ◌∷◌, ◌++◌, length, if◌then◌else◌,
  ltb, CStr,
}
use bg96_driver.Prelude.State.{St, pure}
use bg96_driver.Prelude.Partial.{Partial, return, call, ◌>>=◌, ◌>>◌}
use bg96_driver.At.{
  AtParser, Bg96, parser_values, size_at, Command, int, text, lock, unlock, set_timeout, plain,
  parser_send, parser_recv, parser_putc, nsapi_error_ok, nsapi_error_device_error,
}
use bg96_driver.Driver.Files.{file_exists, delete_file}
use bg96_driver.Driver.Commands.{upload_file_command}

module _ {D : Type 0} (io : AtParser D) where
  -- `for (i = 0; i < size; i++) _parser.putc(*c++)` where `i` wraps at `limit`; `c` is what the
  -- buffer holds from the pointer on, and a read past its end is outside of the object.
  unfoldable pub put_all : ℕ → ℕ → ℕ → List ℕ → Partial (Bg96 D) (Unit {0})
  put_all limit i size [] s = if ltb i size then none else some (tt, s)
  put_all limit i size (b ∷ c) s =
      let rest = put_all limit ((i + 1) % limit) size c (parser_putc io b s).1 in
      if ltb i size then rest else some (tt, s)

  unfoldable pub connect_upload : Command → St (Bg96 D) Bool
  connect_upload cmd s =
      let (sent, s') = parser_send io cmd s in
      if sent then parser_recv io (plain "CONNECT") s' else (false, s')

  -- BG96::send_file from `if (upload)` on; `content` is the text with its terminator.
  unfoldable pub upload_content : List ℕ → CStr → Partial (Bg96 D) ℤ
  unfolding connect_upload
  upload_content content filename = do
    call lock
    call (set_timeout 1000)
    connected ← call (connect_upload (upload_file_command filename (length content)))
    if connected
        then (do
          put_all 65536 0 (length content) content
          call (set_timeout 1000)
          reply ← call (parser_values io (plain "+QFUPL: %u, %X\r\n"))
          if reply.0 then (do call (parser_recv io (plain "OK")); return tt) else return tt
          call (set_timeout 1000)
          call unlock
          return (if reply.0 then pos 1 else pos 0))
        else (do call (set_timeout 1000); call unlock; return (pos 0))

  unfoldable pub send_file : CStr → CStr → Bool → Partial (Bg96 D) ℤ
  send_file content filename overrideok = do
    exists ← call (file_exists io filename)
    if exists
        then (if overrideok
            then (do
              deleted ← call (delete_file io filename)
              if deleted then upload_content (content ++ 0 ∷ []) filename else return (pos 0))
            else return (pos 1))
        else upload_content (content ++ 0 ∷ []) filename

  -- The result and `lsize`.
  unfoldable pub fs_upload_file : CStr → List ℕ → ℕ → Partial (Bg96 D) (ℤ × ℕ)
  unfolding connect_upload
  fs_upload_file filename bytes lsize = do
    call lock
    call (set_timeout 1000)
    connected ← call (
        connect_upload
          (record { format = "AT+QFUPL=\"%s\",%u"; args = text filename ∷ int (pos lsize) ∷ [] }))
    if connected
        then (do
          put_all 65536 0 lsize bytes
          call (set_timeout 1000)
          reply ← call (parser_values io (plain "+QFUPL: %u, %X\r\n"))
          if reply.0 then (do call (parser_recv io (plain "OK")); return tt) else return tt
          call (set_timeout 1000)
          call unlock
          return (
              if reply.0
              then (nsapi_error_ok, size_at 0 0 reply.1)
              else (nsapi_error_device_error, lsize)))
        else (do call (set_timeout 1000); call unlock; return (negsuc 0, 0))

  unfoldable pub fs_write : ℤ → ℕ → List ℕ → Partial (Bg96 D) ℤ
  fs_write fh length bytes = do
    call lock
    call (set_timeout 5000)
    sent ← call (
        parser_send io
          (record { format = "AT+QFWRITE=%ld, %u"; args = int fh ∷ int (pos length) ∷ [] }))
    connected ← call (if sent then parser_recv io (plain "CONNECT") else pure false)
    if connected
        then (do
          put_all 4294967296 0 length bytes
          done ← call (parser_recv io (plain "OK"))
          call (set_timeout 1000)
          call unlock
          return (if done then nsapi_error_ok else nsapi_error_device_error))
        else (do call (set_timeout 1000); call unlock; return nsapi_error_device_error)
