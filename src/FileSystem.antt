-- ===== src/FileSystem.antt =====
-- File/FSImplementation.cpp, File/FSImplementation.h: class FSImplementation, the file system of
-- the modem with the error of the last operation.
pub mod Failures
pub mod Results
pub mod Store
pub mod Uploads
use bg96_driver.Prelude.{
  ℕ, ℤ, pos, negsuc, ◌==ℤ◌, Bool, true, false, ◌&&◌, none, some, List, [], ◌==◌, CStr,
}
use bg96_driver.Prelude.State.{St, ◌>>=◌, ◌>>◌}
use bg96_driver.Prelude.Partial
use bg96_driver.Prelude.Partial.{Partial}
use bg96_driver.At.{AtParser, Bg96, nsapi_error_ok}
use bg96_driver.Driver.Errors.{Bg96Error, no_error, get_error_into}
use bg96_driver.Driver.Files
use bg96_driver.Driver.Files.Upload

-- FSImplementation with the BG96 that it points to; `fs_error` is `_fs_error`.
pub record Fs (D : Type 0) : Type 0 where
  pub bg96 : Bg96 D
  pub fs_error : Bg96Error

-- FILE_POS
abbrev pub start_of_file : ℤ
start_of_file = pos 0

abbrev pub end_of_file : ℤ
end_of_file = pos 2

abbrev pub is_ok : ℤ → Bool
is_ok rc = rc ==ℤ nsapi_error_ok

module _ {D : Type 0} where
  -- A method of BG96 in the state of the file system.
  abbrev pub on_modem : {A : Type 0} → St (Bg96 D) A → St (Fs D) A
  on_modem m s = let (a, b) = m s.bg96 in (a, record s { bg96 = b })

module _ {D : Type 0} (io : AtParser D) where
  -- What each operation ends with: a fresh error if it was done, and else the modem's.
  unfoldable pub settle : {A : Type 0} → Bool → A → A → St (Fs D) A
  settle true good bad s = (good, record s { fs_error = no_error })
  settle false good bad s =
      let ((found, error), b) = get_error_into io s.fs_error s.bg96 in
      (bad, record s { bg96 = b; fs_error = error })

  -- `freesize` and `totalsize` are what the local variables hold at first, as are `nfiles`, `sfiles`
  -- and `filesize` below.
  unfoldable pub fs_free_size : ℕ → ℕ → St (Fs D) ℕ
  fs_free_size freesize totalsize = do
    (rc, free, total) ← on_modem (Files.fs_size io freesize totalsize)
    settle (is_ok rc) free 0

  unfoldable pub fs_total_size : ℕ → ℕ → St (Fs D) ℕ
  fs_total_size freesize totalsize = do
    (rc, free, total) ← on_modem (Files.fs_size io freesize totalsize)
    settle (is_ok rc) total 0

  unfoldable pub fs_total_number_of_files : ℤ → ℕ → St (Fs D) ℤ
  fs_total_number_of_files nfiles sfiles = do
    (rc, n, size) ← on_modem (Files.fs_nfiles io nfiles sfiles)
    settle (is_ok rc) n (pos 0)

  unfoldable pub fs_total_size_of_files : ℤ → ℕ → St (Fs D) ℕ
  fs_total_size_of_files nfiles sfiles = do
    (rc, n, size) ← on_modem (Files.fs_nfiles io nfiles sfiles)
    settle (is_ok rc) size 0

  unfoldable pub fs_file_size : ℕ → CStr → St (Fs D) ℕ
  fs_file_size filesize filename = do
    (rc, size) ← on_modem (Files.fs_file_size io filename filesize)
    settle (is_ok rc) size 0

  unfoldable pub fs_file_exists : ℕ → CStr → St (Fs D) Bool
  fs_file_exists filesize filename = do
    (rc, size) ← on_modem (Files.fs_file_size io filename filesize)
    settle (is_ok rc) true false

  unfoldable pub fs_delete_file : CStr → St (Fs D) ℤ
  fs_delete_file filename = do
    rc ← on_modem (Files.fs_delete_file io filename)
    settle (rc ==ℤ pos 0) (pos 0) (negsuc 0)

  -- `bytes` is the object at `data`.
  unfoldable pub fs_upload_file : CStr → List ℕ → ℕ → Partial (Fs D) ℤ
  fs_upload_file filename bytes size s =
      elim (Upload.fs_upload_file io filename bytes size s.bg96) [
        | none ↦ none
        | some ((rc, lsize), b) ↦
            some (settle (is_ok rc && lsize == size) (pos 0) (negsuc 0) (record s { bg96 = b }))
      ]

  -- The result, the bytes that were stored at `data`, and `checksum`.
  unfoldable pub fs_download_file : ℕ → CStr → ℕ → St (Fs D) (ℕ × (List ℕ × ℕ))
  fs_download_file filesize filename checksum = do
    fsize ← fs_file_size filesize filename
    (rc, stored, size, sum) ← on_modem (Files.fs_download_file io filename fsize checksum)
    settle (is_ok rc) (size, (stored, sum)) (0, (stored, sum))

  -- The result and `fh`.
  unfoldable pub fs_open : CStr → ℤ → ℤ → St (Fs D) (Bool × ℤ)
  fs_open filename mode fh = do
    (rc, handle) ← on_modem (Files.fs_open io filename mode fh)
    settle (is_ok rc) (true, handle) (false, handle)

  -- The result, and the bytes that were stored at `data`.
  unfoldable pub fs_read : ℤ → ℕ → St (Fs D) (Bool × List ℕ)
  fs_read fh length = do
    (rc, stored) ← on_modem (Files.fs_read io fh length)
    settle (is_ok rc) (true, stored) (false, stored)

  unfoldable pub fs_write : ℤ → ℕ → List ℕ → Partial (Fs D) Bool
  fs_write fh length bytes s = elim (Upload.fs_write io fh length bytes s.bg96) [
    | none ↦ none
    | some (rc, b) ↦ some (settle (is_ok rc) true false (record s { bg96 = b }))
  ]

  unfoldable pub fs_seek : ℤ → ℕ → St (Fs D) Bool
  fs_seek fh offset = do
    rc ← on_modem (Files.fs_seek io fh offset start_of_file)
    settle (is_ok rc) true false

  unfoldable pub fs_rewind : ℤ → St (Fs D) Bool
  fs_rewind fh = do
    rc ← on_modem (Files.fs_seek io fh 0 start_of_file)
    settle (is_ok rc) true false

  unfoldable pub fs_eof : ℤ → St (Fs D) Bool
  fs_eof fh = do rc ← on_modem (Files.fs_seek io fh 0 end_of_file); settle (is_ok rc) true false

  -- The result and `offset`.
  unfoldable pub fs_get_offset : ℤ → ℕ → St (Fs D) (Bool × ℕ)
  fs_get_offset fh offset = do
    (rc, position) ← on_modem (Files.fs_get_offset io fh offset)
    settle (is_ok rc) (true, position) (false, position)

  unfoldable pub fs_truncate : ℤ → ℕ → St (Fs D) Bool
  fs_truncate fh offset = do
    rc ← on_modem (Files.fs_truncate io fh offset)
    settle (is_ok rc) true false

  unfoldable pub fs_close : ℤ → St (Fs D) Bool
  fs_close fh = do rc ← on_modem (Files.fs_close io fh); settle (is_ok rc) true false

abbrev pub fs_get_error : {D : Type 0} → Fs D → Bg96Error
fs_get_error s = s.fs_error
