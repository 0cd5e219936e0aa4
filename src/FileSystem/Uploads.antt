-- ===== src/FileSystem/Uploads.antt =====
-- File/FSImplementation.cpp, fs_upload_file: it ends for the sizes that its counter can hold.
use bg96_driver.Prelude.{
  ℕ, ◌≡◌, ◌<◌, ◌≤◌, arith, ℤ, some, List, length, CStr, Option-cases, inl, inr,
}
use bg96_driver.At.{AtParser}
use bg96_driver.Driver.Files.Transfer.{driver_upload_total}
use bg96_driver.FileSystem.{Fs, fs_upload_file}

module _ {D : Type 0} (io : AtParser D) where
  pub fs_upload_file_total :
      (filename : CStr) (bytes : List ℕ) (size : ℕ) (s : Fs D)
      → size < 65536
      → size ≤ length bytes
      → (r : ℤ × Fs D) × (fs_upload_file io filename bytes size s ≡ some r)
  unfolding fs_upload_file
  fs_upload_file_total filename bytes size s lt le =
      let (r, e) = driver_upload_total io filename bytes size s.bg96 lt le in
      elim (Option-cases (fs_upload_file io filename bytes size s)) [
        | inl none_given ↦ absurd (ground (arith, none_given, e))
        | inr given ↦ given
      ]
