-- ===== src/Tests/Files.antt =====
-- The file system and the power on concrete modems.
use bg96_driver.Prelude.{
  List, ℤ, ℕ, ◌≡◌, refl, arith, pos, negsuc, false, some, [], ◌∷◌, CStr, c_str,
}
use bg96_driver.Driver.Errors.{no_error}
use bg96_driver.FileSystem
use bg96_driver.FileSystem.{Fs}
use bg96_driver.FileSystem.Failures.{Fails, first, outcome, operations-silent}
use bg96_driver.Interface.Files
use bg96_driver.Interface.Files.{Device, disk}
use bg96_driver.Interface.Files.Power.{PowersDown, methods-PowersDown}
use bg96_driver.Tests.Fixtures.{silent, answering, at_rest, none_open}

abbrev empty : Fs ℕ
empty = record { bg96 = at_rest; fs_error = record { errornum = pos 5; description = [] } }

abbrev name : CStr
name = c_str "a.txt"

operations-silent_example :
    ((outcome (FileSystem.fs_upload_file silent name (1 ∷ []) 1 empty)
        ≡ some (negsuc 0, empty.fs_error))
      × (outcome (FileSystem.fs_write silent (pos 0) 1 (1 ∷ []) empty)
          ≡ some (false, empty.fs_error)))
    × (Fails empty (FileSystem.fs_free_size silent 8 9 empty) 0
        × Fails empty (FileSystem.fs_total_size silent 8 9 empty) 0
        × Fails empty (FileSystem.fs_total_number_of_files silent (pos 3) 9 empty) (pos 0)
        × Fails empty (FileSystem.fs_total_size_of_files silent (pos 3) 9 empty) 0)
    × (Fails empty (FileSystem.fs_file_size silent 8 name empty) 0
        × Fails empty (FileSystem.fs_file_exists silent 8 name empty) false
        × Fails empty (FileSystem.fs_delete_file silent name empty) (negsuc 0)
        × Fails empty (first (FileSystem.fs_download_file silent 8 name 6 empty)) 0
        × Fails empty (first (FileSystem.fs_open silent name (pos 0) (pos 0) empty)) false)
    × (Fails empty (FileSystem.fs_seek silent (pos 0) 1 empty) false
        × Fails empty (FileSystem.fs_rewind silent (pos 0) empty) false
        × Fails empty (FileSystem.fs_eof silent (pos 0) empty) false
        × Fails empty (FileSystem.fs_truncate silent (pos 0) 1 empty) false
        × Fails empty (FileSystem.fs_close silent (pos 0) empty) false
        × Fails empty (first (FileSystem.fs_read silent (pos 0) 1 empty)) false
        × Fails empty (first (FileSystem.fs_get_offset silent (pos 0) 1 empty)) false)
operations-silent_example =
    operations-silent silent (λ t c d. refl) 8 9 6 1 (pos 3) (pos 0) (pos 0) name (1 ∷ []) empty

abbrev device : Device ℕ
device = record { face = none_open; fs_error = no_error }

methods-PowersDown_example :
    PowersDown answering device (Files.fs_free_size answering 8 9 device)
    × PowersDown answering device (Files.fs_total_size answering 8 9 device)
    × PowersDown answering device (Files.fs_total_number_of_files answering (pos 3) 9 device)
    × PowersDown answering device (Files.fs_total_size_of_files answering (pos 3) 9 device)
    × PowersDown answering device (Files.fs_file_size answering 8 name device)
    × PowersDown answering device (Files.fs_file_exists answering 8 name device)
    × PowersDown answering device (Files.fs_delete_file answering name device)
    × PowersDown answering device (Files.fs_download_file answering 8 name 6 device)
    × ((m : ℤ × Device ℕ) × (Files.fs_upload_file answering name (1 ∷ 2 ∷ []) 2 device ≡ some m)
        × PowersDown answering device m)
methods-PowersDown_example =
    methods-PowersDown answering 8 9 6 (pos 3) name (1 ∷ 2 ∷ []) 2 device (omega arith)
      (omega arith)

-- A device that is a queue of bytes: what is written can be read.
abbrev front : List ℕ → ℤ
front [] = negsuc 0
front (b ∷ r) = pos b

abbrev behind : List ℕ → List ℕ
behind [] = []
behind (b ∷ r) = r
