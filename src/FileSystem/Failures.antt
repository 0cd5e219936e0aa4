-- ===== src/FileSystem/Failures.antt =====
-- File/FSImplementation.cpp: the operations on a modem that never answers.
use bg96_driver.Prelude.{ℕ, ◌≡◌, arith, ℤ, pos, negsuc, false, Option, none, some, List, CStr}
use bg96_driver.At.{AtParser, Command}
use bg96_driver.Driver.Errors.{Bg96Error, get_error_into}
use bg96_driver.Driver.Files
use bg96_driver.Driver.Files.Upload
use bg96_driver.FileSystem.{
  Fs, settle, fs_free_size, fs_total_size, fs_total_number_of_files, fs_total_size_of_files,
  fs_file_size, fs_file_exists, fs_delete_file, fs_download_file, fs_open, fs_read, fs_seek,
  fs_rewind, fs_eof, fs_get_offset, fs_truncate, fs_close, fs_upload_file, fs_write,
}

module _ {D : Type 0} where
  -- The reply `m` is `v` and leaves the error as it was.
  abbrev pub Fails : {A : Type 0} → Fs D → A × Fs D → A → Type 0
  Fails s m v = (m.0 ≡ v) × (m.1.fs_error ≡ s.fs_error)

  -- A result that comes with other values, alone.
  abbrev pub first : {A B : Type 0} → (A × B) × Fs D → A × Fs D
  first ((a, b), t) = (a, t)

  -- A call that returns, with its result and the error that it leaves.
  abbrev pub outcome : {A : Type 0} → Option (A × Fs D) → Option (A × Bg96Error)
  outcome none = none
  outcome (some (a, t)) = some (a, t.fs_error)

module _ {D : Type 0} (io : AtParser D) where
  open io use {recv}

  settle-silent :
      {A : Type 0} (good bad : A) (s : Fs D)
      → ((t : ℕ) (c : Command) (d : D) → (recv t c d).0 ≡ none)
      → Fails s (settle io false good bad s) bad
  unfolding settle get_error_into
  settle-silent good bad s silent = grind arith

  sizes-silent :
      ((t : ℕ) (c : Command) (d : D) → (recv t c d).0 ≡ none)
      → (free total : ℕ) (nfiles : ℤ) (s : Fs D)
      → Fails s (fs_free_size io free total s) 0
        × Fails s (fs_total_size io free total s) 0
        × Fails s (fs_total_number_of_files io nfiles total s) (pos 0)
        × Fails s (fs_total_size_of_files io nfiles total s) 0
  unfolding fs_free_size fs_total_size fs_total_number_of_files fs_total_size_of_files Files.fs_size
      Files.fs_nfiles
  sizes-silent silent free total nfiles s = (
    grind (arith, settle-silent),
    grind (arith, settle-silent),
    grind (arith, settle-silent),
    grind (arith, settle-silent),
  )

  named-silent :
      ((t : ℕ) (c : Command) (d : D) → (recv t c d).0 ≡ none)
      → (size checksum : ℕ) (mode fh : ℤ) (filename : CStr) (s : Fs D)
      → Fails s (fs_file_size io size filename s) 0
        × Fails s (fs_file_exists io size filename s) false
        × Fails s (fs_delete_file io filename s) (negsuc 0)
        × Fails s (first (fs_download_file io size filename checksum s)) 0
        × Fails s (first (fs_open io filename mode fh s)) false
  unfolding fs_file_size fs_file_exists fs_delete_file fs_download_file fs_open Files.fs_file_size
      Files.fs_delete_file Files.fs_download_file Files.fs_open
  named-silent silent size checksum mode fh filename s = (
    grind (arith, settle-silent),
    grind (arith, settle-silent),
    grind (arith, settle-silent),
    grind (arith, settle-silent),
    grind (arith, settle-silent),
  )

  opened-silent :
      ((t : ℕ) (c : Command) (d : D) → (recv t c d).0 ≡ none)
      → (fh : ℤ) (n : ℕ) (s : Fs D)
      → Fails s (fs_seek io fh n s) false
        × Fails s (fs_rewind io fh s) false
        × Fails s (fs_eof io fh s) false
        × Fails s (fs_truncate io fh n s) false
        × Fails s (fs_close io fh s) false
        × Fails s (first (fs_read io fh n s)) false
        × Fails s (first (fs_get_offset io fh n s)) false
  unfolding fs_seek fs_rewind fs_eof fs_truncate fs_close fs_read fs_get_offset Files.fs_seek
      Files.fs_truncate Files.fs_close Files.fs_read Files.fs_get_offset
  opened-silent silent fh n s = (
    grind (arith, settle-silent),
    grind (arith, settle-silent),
    grind (arith, settle-silent),
    grind (arith, settle-silent),
    grind (arith, settle-silent),
    grind (arith, settle-silent),
    grind (arith, settle-silent),
  )

  writes-silent :
      ((t : ℕ) (c : Command) (d : D) → (recv t c d).0 ≡ none)
      → (fh : ℤ) (n : ℕ) (filename : CStr) (bytes : List ℕ) (s : Fs D)
      → (outcome (fs_upload_file io filename bytes n s) ≡ some (negsuc 0, s.fs_error))
        × (outcome (fs_write io fh n bytes s) ≡ some (false, s.fs_error))
  unfolding fs_upload_file fs_write Upload.fs_upload_file Upload.fs_write Upload.connect_upload
  writes-silent silent fh n filename bytes s =
      (grind (arith, settle-silent), grind (arith, settle-silent))

  -- Every operation of the file system fails on a modem that never answers, with the value that it
  -- has for a failure, and none leaves a trace in the error that fs_get_error gives.
  pub operations-silent :
      ((t : ℕ) (c : Command) (d : D) → (recv t c d).0 ≡ none)
      → (size total checksum n : ℕ) (nfiles mode fh : ℤ) (filename : CStr) (bytes : List ℕ)
        (s : Fs D)
      → ((outcome (fs_upload_file io filename bytes n s) ≡ some (negsuc 0, s.fs_error))
          × (outcome (fs_write io fh n bytes s) ≡ some (false, s.fs_error)))
        × (Fails s (fs_free_size io size total s) 0
            × Fails s (fs_total_size io size total s) 0
            × Fails s (fs_total_number_of_files io nfiles total s) (pos 0)
            × Fails s (fs_total_size_of_files io nfiles total s) 0)
        × (Fails s (fs_file_size io size filename s) 0
            × Fails s (fs_file_exists io size filename s) false
            × Fails s (fs_delete_file io filename s) (negsuc 0)
            × Fails s (first (fs_download_file io size filename checksum s)) 0
            × Fails s (first (fs_open io filename mode fh s)) false)
        × (Fails s (fs_seek io fh n s) false
            × Fails s (fs_rewind io fh s) false
            × Fails s (fs_eof io fh s) false
            × Fails s (fs_truncate io fh n s) false
            × Fails s (fs_close io fh s) false
            × Fails s (first (fs_read io fh n s)) false
            × Fails s (first (fs_get_offset io fh n s)) false)
  operations-silent silent size total checksum n nfiles mode fh filename bytes s = (
    writes-silent silent fh n filename bytes s,
    sizes-silent silent size total nfiles s,
    named-silent silent size checksum mode fh filename s,
    opened-silent silent fh n s,
  )
