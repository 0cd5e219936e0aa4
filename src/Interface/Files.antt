-- ===== src/Interface/Files.antt =====
-- BG96Interface.cpp: the methods of FSInterface, which keep the modem on while they run.
pub mod Power
use bg96_driver.Prelude.{ℕ, ℤ, Bool, none, some, List, CStr}
use bg96_driver.Prelude.State.{St, pure, ◌>>=◌, ◌>>◌}
use bg96_driver.Prelude.Partial.{Partial}
use bg96_driver.At.{AtParser}
use bg96_driver.Driver.Errors.{Bg96Error}
use bg96_driver.FileSystem
use bg96_driver.FileSystem.{Fs}
use bg96_driver.Interface.{Iface}
use bg96_driver.Interface.Session.{allow_power_off, disallow_power_off}

-- BG96Interface with the FSImplementation that `_fs_imp` points to; they share the BG96.
pub record Device (D : Type 0) : Type 0 where
  pub face : Iface D
  pub fs_error : Bg96Error

module _ {D : Type 0} where
  abbrev pub disk : Device D → Fs D
  disk s = record { bg96 = s.face.bg96; fs_error = s.fs_error }

  abbrev pub with_disk : Device D → Fs D → Device D
  with_disk s t = record { face = record (s.face) { bg96 = t.bg96 }; fs_error = t.fs_error }

  -- A call through `_fs_imp`.
  abbrev pub on_fs : {A : Type 0} → St (Fs D) A → St (Device D) A
  on_fs m s = let (a, t) = m (disk s) in (a, with_disk s t)

  abbrev pub allow : St (Device D) (Unit {0})
  allow s = (tt, record s { face = allow_power_off s.face })

  abbrev pub disallow : St (Device D) (Unit {0})
  disallow s = (tt, record s { face = disallow_power_off s.face })

  -- A call through `_fs_imp` between disallowPowerOff and allowPowerOff.
  unfoldable pub powered : {A : Type 0} → St (Fs D) A → St (Device D) A
  powered m = do disallow; result ← on_fs m; allow; pure result

module _ {D : Type 0} (io : AtParser D) where
  unfoldable pub fs_free_size : ℕ → ℕ → St (Device D) ℕ
  fs_free_size freesize totalsize = powered (FileSystem.fs_free_size io freesize totalsize)

  unfoldable pub fs_total_size : ℕ → ℕ → St (Device D) ℕ
  fs_total_size freesize totalsize = powered (FileSystem.fs_total_size io freesize totalsize)

  unfoldable pub fs_total_number_of_files : ℤ → ℕ → St (Device D) ℤ
  fs_total_number_of_files nfiles sfiles =
      powered (FileSystem.fs_total_number_of_files io nfiles sfiles)

  unfoldable pub fs_total_size_of_files : ℤ → ℕ → St (Device D) ℕ
  fs_total_size_of_files nfiles sfiles =
      powered (FileSystem.fs_total_size_of_files io nfiles sfiles)

  unfoldable pub fs_file_size : ℕ → CStr → St (Device D) ℕ
  fs_file_size filesize filename = powered (FileSystem.fs_file_size io filesize filename)

  unfoldable pub fs_file_exists : ℕ → CStr → St (Device D) Bool
  fs_file_exists filesize filename = powered (FileSystem.fs_file_exists io filesize filename)

  unfoldable pub fs_delete_file : CStr → St (Device D) ℤ
  fs_delete_file filename = powered (FileSystem.fs_delete_file io filename)

  unfoldable pub fs_upload_file : CStr → List ℕ → ℕ → Partial (Device D) ℤ
  fs_upload_file filename bytes size s =
      let (_, s') = disallow s in
      elim (FileSystem.fs_upload_file io filename bytes size (disk s')) [
        | none ↦ none
        | some (result, t) ↦ some (result, (allow (with_disk s' t)).1)
      ]

  unfoldable pub fs_download_file : ℕ → CStr → ℕ → St (Device D) (ℕ × (List ℕ × ℕ))
  fs_download_file filesize filename checksum =
      powered (FileSystem.fs_download_file io filesize filename checksum)

  -- The modem is kept on until fs_close.
  unfoldable pub fs_open : CStr → ℤ → ℤ → St (Device D) (Bool × ℤ)
  fs_open filename mode fh = do disallow; on_fs (FileSystem.fs_open io filename mode fh)

  unfoldable pub fs_close : ℤ → St (Device D) Bool
  fs_close fh = do rstatus ← on_fs (FileSystem.fs_close io fh); allow; pure rstatus

  unfoldable pub fs_read : ℤ → ℕ → St (Device D) (Bool × List ℕ)
  fs_read fh length = on_fs (FileSystem.fs_read io fh length)

  unfoldable pub fs_write : ℤ → ℕ → List ℕ → Partial (Device D) Bool
  fs_write fh length bytes s = elim (FileSystem.fs_write io fh length bytes (disk s)) [
    | none ↦ none
    | some (result, t) ↦ some (result, with_disk s t)
  ]

  unfoldable pub fs_seek : ℤ → ℕ → St (Device D) Bool
  fs_seek fh offset = on_fs (FileSystem.fs_seek io fh offset)

  unfoldable pub fs_rewind : ℤ → St (Device D) Bool
  fs_rewind fh = on_fs (FileSystem.fs_rewind io fh)

  unfoldable pub fs_eof : ℤ → St (Device D) Bool
  fs_eof fh = on_fs (FileSystem.fs_eof io fh)

  unfoldable pub fs_get_offset : ℤ → ℕ → St (Device D) (Bool × ℕ)
  fs_get_offset fh offset = on_fs (FileSystem.fs_get_offset io fh offset)

  unfoldable pub fs_truncate : ℤ → ℕ → St (Device D) Bool
  fs_truncate fh offset = on_fs (FileSystem.fs_truncate io fh offset)

-- fs_get_error
abbrev pub device_error : {D : Type 0} → Device D → Bg96Error
device_error s = s.fs_error
