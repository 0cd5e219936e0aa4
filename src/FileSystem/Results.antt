-- ===== src/FileSystem/Results.antt =====
-- File/FSImplementation.cpp: what the results of the operations say about each other.
use bg96_driver.Prelude.{ℕ, zero, suc, ◌≤◌, ◌≡◌, ◌⊎◌, refl, arith, true, length, CStr}
use bg96_driver.At.{AtParser, Bg96}
use bg96_driver.Driver.Files
use bg96_driver.Driver.Files.{get_all}
use bg96_driver.FileSystem.{Fs, settle, fs_file_size, fs_file_exists, fs_download_file}

module _ {D : Type 0} (io : AtParser D) where
  length-get_all : (n : ℕ) (b : Bg96 D) → length (get_all io n b).0 ≡ n
  unfolding get_all
  length-get_all zero b = refl
  length-get_all (suc n) b = grind (arith, length-get_all n)

  -- fs_file_exists and fs_file_size leave the same state behind, and a file that does not exist has
  -- the size 0.
  fs_file_exists-fs_file_size :
      (junk : ℕ) (filename : CStr) (s : Fs D)
      → let exists = fs_file_exists io junk filename s in
        let size = fs_file_size io junk filename s in
        (exists.1 ≡ size.1) × ((exists.0 ≡ true) ⊎ (size.0 ≡ 0))
  unfolding fs_file_exists fs_file_size settle
  fs_file_exists-fs_file_size junk filename s = ground arith

  -- fs_download_file stores no more bytes than fs_file_size gives, and its result is 0 or the number
  -- of bytes that it has stored.
  fs_download_file-length :
      (junk : ℕ) (filename : CStr) (checksum : ℕ) (s : Fs D)
      → let ((n, (stored, sum)), t) = fs_download_file io junk filename checksum s in
        (length stored ≤ (fs_file_size io junk filename s).0) × ((n ≡ 0) ⊎ (n ≡ length stored))
  unfolding fs_download_file settle Files.fs_download_file
  fs_download_file-length junk filename checksum s = grind (arith, length-get_all)
