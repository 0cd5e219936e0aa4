-- ===== src/Interface/Files/Power.antt =====
-- BG96Interface.cpp: the count of power-off permissions over the methods of FSInterface.
use bg96_driver.Prelude.{ℕ, ◌≡◌, ◌<◌, ◌≤◌, arith, ℤ, pos, true, false, some, List, length, CStr}
use bg96_driver.Prelude.State.{St}
use bg96_driver.At.{AtParser}
use bg96_driver.Driver.Errors.{Bg96Error}
use bg96_driver.Interface.Setup.{new_interface}
use bg96_driver.FileSystem
use bg96_driver.FileSystem.{Fs}
use bg96_driver.FileSystem.Uploads.{fs_upload_file_total}
use bg96_driver.Interface.{Iface}
use bg96_driver.Interface.Session.{allow_power_off, disallow_power_off, power_down_modem}
use bg96_driver.Interface.Files.{
  Device, disk, with_disk, allow, disallow, powered, fs_free_size, fs_total_size,
  fs_total_number_of_files, fs_total_size_of_files, fs_file_size, fs_file_exists, fs_delete_file,
  fs_download_file, fs_upload_file, fs_open, fs_close,
}

module _ {D : Type 0} (io : AtParser D) where
  -- The count of permissions is that of `s`, and powerDown is not refused.
  abbrev pub PowersDown : {A : Type 0} → Device D → A × Device D → Type 0
  PowersDown s m =
      (m.1.face.power_off ≡ s.face.power_off) × ((power_down_modem io m.1.face).0 ≡ true)

  powered-PowersDown : {A : Type 0} (m : St (Fs D) A) (s : Device D) → PowersDown s (powered m s)
  unfolding powered power_down_modem allow_power_off disallow_power_off
  powered-PowersDown m s = ground arith

  uploaded-PowersDown :
      (filename : CStr) (bytes : List ℕ) (size : ℕ) (s : Device D) (r : ℤ × Fs D)
      → FileSystem.fs_upload_file io filename bytes size (disk (disallow s).1) ≡ some r
      → (m : ℤ × Device D) × (fs_upload_file io filename bytes size s ≡ some m) × PowersDown s m
  unfolding fs_upload_file power_down_modem allow_power_off disallow_power_off
  uploaded-PowersDown filename bytes size s r e = (
    (r.0, (allow (with_disk (disallow s).1 r.1)).1),
    ground (arith, e),
    (ground arith, ground arith),
  )

  -- Each method that is complete in itself leaves the count of permissions as it was and powerDown
  -- allowed, whether it was before or not; fs_upload_file ends and does so for a size of at most
  -- 65535 that is not more than the buffer.
  pub methods-PowersDown :
      (junk size checksum : ℕ) (nfiles : ℤ) (filename : CStr) (bytes : List ℕ) (amount : ℕ)
      (s : Device D)
      → amount < 65536
      → amount ≤ length bytes
      → PowersDown s (fs_free_size io junk size s)
        × PowersDown s (fs_total_size io junk size s)
        × PowersDown s (fs_total_number_of_files io nfiles size s)
        × PowersDown s (fs_total_size_of_files io nfiles size s)
        × PowersDown s (fs_file_size io junk filename s)
        × PowersDown s (fs_file_exists io junk filename s)
        × PowersDown s (fs_delete_file io filename s)
        × PowersDown s (fs_download_file io junk filename checksum s)
        × ((m : ℤ × Device D) × (fs_upload_file io filename bytes amount s ≡ some m)
            × PowersDown s m)
  unfolding fs_free_size fs_total_size fs_total_number_of_files fs_total_size_of_files fs_file_size
      fs_file_exists fs_delete_file fs_download_file
  methods-PowersDown junk size checksum nfiles filename bytes amount s lt le = (
    powered-PowersDown _ s,
    powered-PowersDown _ s,
    powered-PowersDown _ s,
    powered-PowersDown _ s,
    powered-PowersDown _ s,
    powered-PowersDown _ s,
    powered-PowersDown _ s,
    powered-PowersDown _ s,
    (let (r, e) = fs_upload_file_total io filename bytes amount (disk (disallow s).1) lt le in
        uploaded-PowersDown filename bytes amount s r e),
  )

  -- With a count of 1, fs_open makes powerDown refuse, also if it fails; a later fs_file_exists
  -- allows powerDown again while the file is open; and fs_close gives the count of before.
  fs_open_then_exists :
      (filename other : CStr) (mode fh handle : ℤ) (junk : ℕ) (s : Device D)
      → s.face.power_off ≡ pos 1
      → let (_, opened) = fs_open io filename mode fh s in
        let (_, asked) = fs_file_exists io junk other opened in
        let (_, closed) = fs_close io handle asked in
        (power_down_modem io opened.face ≡ (false, opened.face))
        × ((power_down_modem io asked.face).0 ≡ true)
        × (asked.face.power_off ≡ pos 0)
        × (closed.face.power_off ≡ pos 1)
  unfolding fs_open fs_close fs_file_exists powered power_down_modem allow_power_off
      disallow_power_off
  fs_open_then_exists filename other mode fh handle junk s one = ground arith

  -- The constructor sets the count to 0 and not the permission. So fs_open leaves powerDown to what
  -- the memory held, and after one other operation powerDown goes ahead while a file is open.
  fs_open-new_interface :
      (filename other : CStr) (mode fh : ℤ) (junk : ℕ) (m : Iface D) (error : Bg96Error)
      → let s : Device D = record { face = new_interface m; fs_error = error } in
        let (_, asked) = fs_file_exists io junk other s in
        ((power_down_modem io (fs_open io filename mode fh s).1.face).0 ≡ m.power_off_allowed)
        × ((power_down_modem io (fs_open io filename mode fh asked).1.face).0 ≡ true)
  unfolding new_interface fs_open fs_file_exists powered power_down_modem allow_power_off
      disallow_power_off
  fs_open-new_interface filename other mode fh junk m error = ground arith
