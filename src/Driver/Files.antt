-- ===== src/Driver/Files.antt =====
-- BG96/BG96.cpp: the modem's file system (UFS).
pub mod Upload
pub mod Transfer
pub mod Pipe
use bg96_driver.Prelude.{
  ℕ, zero, suc, ◌%◌, ℤ, pos, negsuc, Bool, false, ◌&&◌, List, [], ◌∷◌, length, if◌then◌else◌,
  as_u32, ◌==◌, CStr, strcmp_eq,
}
use bg96_driver.Prelude.State.{St, pure, ◌>>=◌, ◌>>◌}
use bg96_driver.At.{
  AtParser, Bg96, parser_values, send_ok, values_ok, size_at, int, text, lock, unlock, set_timeout,
  plain, int_at, text_at, parser_send, parser_recv, parser_getc, nsapi_error_ok,
  nsapi_error_device_error,
}
use bg96_driver.Driver.Commands.{list_file_command, delete_file_command}

module _ {D : Type 0} (io : AtParser D) where
  unfoldable pub file_exists : CStr → St (Bg96 D) Bool
  file_exists filename = do
    lock
    set_timeout 2000
    sent ← parser_send io (list_file_command filename)
    reply ← if sent then values_ok io (plain "+QFLST: \"%[^\"]\",%d") else pure (false, [])
    set_timeout 1000
    unlock
    pure (reply.0 && strcmp_eq (text_at 0 [] reply.1) filename)

  unfoldable pub delete_file : CStr → St (Bg96 D) Bool
  delete_file filename = do
    lock
    done ← send_ok io (delete_file_command filename)
    unlock
    pure done

  -- The result, and `free_size` and `total_size` as they are left.
  unfoldable pub fs_size : ℕ → ℕ → St (Bg96 D) (ℤ × ℕ × ℕ)
  fs_size free_size total_size = do
    lock
    set_timeout 2000
    sent ← parser_send io (plain "AT+QFLDS=\"UFS\"")
    reply ← if sent then values_ok io (plain "+QFLDS: %u,%u") else pure (false, [])
    set_timeout 1000
    unlock
    pure (
      if reply.0 then nsapi_error_ok else nsapi_error_device_error,
      size_at 0 free_size reply.1,
      size_at 1 total_size reply.1,
    )

  -- The result, `nfiles` and `sfiles`.
  unfoldable pub fs_nfiles : ℤ → ℕ → St (Bg96 D) (ℤ × ℤ × ℕ)
  fs_nfiles nfiles sfiles = do
    lock
    set_timeout 2000
    sent ← parser_send io (plain "AT+QFLDS")
    reply ← if sent then values_ok io (plain "+QFLDS: %u,%d") else pure (false, [])
    set_timeout 1000
    unlock
    pure (
      if reply.0 then nsapi_error_ok else nsapi_error_device_error,
      int_at 1 nfiles reply.1,
      size_at 0 sfiles reply.1,
    )

  -- The result and `filesize`.
  unfoldable pub fs_file_size : CStr → ℕ → St (Bg96 D) (ℤ × ℕ)
  fs_file_size filename filesize = do
    lock
    set_timeout 2000
    sent ← parser_send io (record { format = "AT+QFLST=\"%s\""; args = text filename ∷ [] })
    reply ← if sent then values_ok io (plain "+QFLST: \"%80[^\"]\",%u") else pure (false, [])
    set_timeout 1000
    unlock
    pure (if reply.0 then nsapi_error_ok else nsapi_error_device_error, size_at 1 filesize reply.1)

  unfoldable pub fs_delete_file : CStr → St (Bg96 D) ℤ
  fs_delete_file filename = do
    lock
    set_timeout 2000
    done ← send_ok io (record { format = "AT+QFDEL=\"%s\""; args = text filename ∷ [] })
    set_timeout 1000
    unlock
    pure (if done then pos 0 else negsuc 0)

  -- The result and `fh`.
  unfoldable pub fs_open : CStr → ℤ → ℤ → St (Bg96 D) (ℤ × ℤ)
  fs_open filename mode fh = do
    lock
    sent ←
        parser_send io
          (record { format = "AT+QFOPEN=\"%s\",%d"; args = text filename ∷ int mode ∷ [] })
    reply ← if sent then values_ok io (plain "+QFOPEN: %ld\r\n") else pure (false, [])
    unlock
    pure (
      if reply.0 then nsapi_error_ok else nsapi_error_device_error,
      if sent then (if reply.0 then int_at 0 (pos 0) reply.1 else pos 0) else fh,
    )

  -- `*c++ = _parser.getc()`, `length` times.
  unfoldable pub get_all : ℕ → St (Bg96 D) (List ℕ)
  get_all zero = pure []
  get_all (suc length) = do c ← parser_getc io; rest ← get_all length; pure (as_u32 c % 256 ∷ rest)

  -- The result, and the bytes that were stored at `data`.
  unfoldable pub fs_read : ℤ → ℕ → St (Bg96 D) (ℤ × List ℕ)
  unfolding get_all
  fs_read fh length = do
    lock
    set_timeout 2000
    sent ←
        parser_send io
          (record { format = "AT+QFREAD=%ld, %u"; args = int fh ∷ int (pos length) ∷ [] })
    connected ← if sent then parser_recv io (plain "CONNECT") else pure false
    stored ← if connected then get_all length else pure []
    done ← if connected then parser_recv io (plain "OK") else pure false
    set_timeout 1000
    unlock
    pure (if done then nsapi_error_ok else nsapi_error_device_error, stored)

  -- The result, the bytes stored at `data`, `filesize` and `checksum`.
  unfoldable pub fs_download_file : CStr → ℕ → ℕ → St (Bg96 D) (ℤ × List ℕ × ℕ × ℕ)
  unfolding get_all
  fs_download_file filename filesize checksum = do
    lock
    set_timeout 2000
    sent ← parser_send io (record { format = "AT+QFDWL=\"%s\""; args = text filename ∷ [] })
    connected ← if sent then parser_recv io (plain "CONNECT") else pure false
    stored ← if connected then get_all filesize else pure []
    set_timeout 1000
    reply ← if connected then parser_values io (plain "+QFDWL: %u,%hX\r\n") else pure (false, [])
    set_timeout 1000
    unlock
    let good = reply.0 && filesize == size_at 0 0 reply.1
    pure (
      if good then nsapi_error_ok else nsapi_error_device_error,
      stored,
      if good then size_at 0 0 reply.1 else 0,
      if good then size_at 1 0 reply.1 % 65536 else if connected then 0 else checksum,
    )

  unfoldable pub fs_seek : ℤ → ℕ → ℤ → St (Bg96 D) ℤ
  fs_seek fh offset position = do
    lock
    done ← send_ok io (record {
      format = "AT+QFSEEK=%ld,%u,%d";
      args = int fh ∷ int (pos offset) ∷ int position ∷ [];
    })
    unlock
    pure (if done then nsapi_error_ok else nsapi_error_device_error)

  -- The result and `offset`.
  unfoldable pub fs_get_offset : ℤ → ℕ → St (Bg96 D) (ℤ × ℕ)
  fs_get_offset fh offset = do
    lock
    sent ← parser_send io (record { format = "AT+QFPOSITION=%ld"; args = int fh ∷ [] })
    reply ← if sent then parser_values io (plain "+QFPOSITION: %u\r\n") else pure (false, [])
    unlock
    pure (
      if reply.0 then nsapi_error_ok else nsapi_error_device_error,
      if reply.0 then size_at 0 0 reply.1 else offset,
    )

  unfoldable pub fs_truncate : ℤ → ℕ → St (Bg96 D) ℤ
  fs_truncate fh offset = do
    lock
    set_timeout 2000
    done ← send_ok io (record { format = "AT+QFTUCAT=%ld"; args = int fh ∷ [] })
    set_timeout 1000
    unlock
    pure (if done then nsapi_error_ok else nsapi_error_device_error)

  unfoldable pub fs_close : ℤ → St (Bg96 D) ℤ
  fs_close fh = do
    lock
    set_timeout 2000
    done ← send_ok io (record { format = "AT+QFCLOSE=%ld"; args = int fh ∷ [] })
    set_timeout 1000
    unlock
    pure (if done then nsapi_error_ok else nsapi_error_device_error)
