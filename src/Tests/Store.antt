-- ===== src/Tests/Store.antt =====
-- A file system on a modem that keeps one file.
use bg96_driver.Prelude.{
  ℕ, ◌≡◌, refl, arith, pos, negsuc, true, false, Option, some, List, [], ◌∷◌, ◌++◌, length, CStr,
  c_str, strcmp_eq,
}
use bg96_driver.At.{AtParser, Arg, int, text}
use bg96_driver.Driver.Errors.{no_error}
use bg96_driver.FileSystem.{Fs, fs_upload_file, fs_download_file}
use bg96_driver.FileSystem.Store.{IsStore, fs_download_file_shifted}

record Disk : Type 0 where
  incoming : List ℕ
  kept : List ℕ
  outgoing : List ℕ

abbrev name : CStr
name = c_str "a.txt"

-- The two commands that start a transfer need not be told apart.
abbrev reply : CStr → Disk → Option (List Arg) × Disk
reply format d = elim (strcmp_eq format (c_str "+QFUPL: %u, %X\r\n")) [
  | true ↦ (some (int (pos (length d.incoming)) ∷ int (pos 7) ∷ []), record d { kept = d.incoming })
  | false ↦ elim (strcmp_eq format (c_str "+QFLST: \"%80[^\"]\",%u")) [
    | true ↦ (some (text name ∷ int (pos (length d.kept)) ∷ []), d)
    | false ↦ (some (int (pos (length d.kept)) ∷ int (pos 7) ∷ []), d)
  ]
]

abbrev keeper : AtParser Disk
keeper = record {
  send = λ t c d. (true, record d { incoming = []; outgoing = 13 ∷ 10 ∷ d.kept });
  recv = λ t c d. reply (c_str c.format) d;
  write = λ t b d. (pos (length b), d);
  read = λ t n d. ((pos 0, []), d);
  putc = λ t b d. record d { incoming = d.incoming ++ b ∷ [] };
  getc = λ t d. elim d.outgoing [ [] ↦ (negsuc 0, d) | b ∷ r ↦ (pos b, record d { outgoing = r }) ];
  flush = λ d. d;
  read_ms = λ d. 0;
  wait = λ n d. d;
}

keeper-IsStore : IsStore keeper name (λ d. d.incoming) (λ d. d.kept) (λ d. d.outgoing) (λ d. pos 7)
unfolding strcmp_eq
keeper-IsStore = record {
  uploads = λ t n d. (refl, refl);
  connects = λ t d. (refl, refl, refl, refl);
  puts = λ t b d. refl;
  stores = λ t d. (refl, refl);
  confirms = λ t d. (refl, refl);
  lists = λ t d. (refl, refl);
  tells_size = λ t d. (refl, refl);
  downloads = λ t d. (refl, refl, refl);
  gets = λ t d b r e. (ground arith, ground arith);
  gets_keep = λ t d. ground arith;
  reports = λ t d. refl;
}

abbrev blank : Fs Disk
blank = record {
  bg96 = record {
    context_id = pos 1;
    timeout = 1000;
    locks = 0;
    bg96_reset = false;
    vbat_3v8_en = true;
    bg96_pwrkey = true;
    dev = record { incoming = 1 ∷ []; kept = 2 ∷ 3 ∷ []; outgoing = [] };
  };
  fs_error = no_error;
}

abbrev content : List ℕ
content = b'h' ∷ b'i' ∷ 255 ∷ []

fs_download_file_shifted_example :
    (s : Fs Disk) × (fs_upload_file keeper name content 3 blank ≡ some (pos 0, s))
    × let (n, (stored, sum)) = (fs_download_file keeper 9 name 8 s).0 in
      (n ≡ 3) × (stored ≡ 13 ∷ 10 ∷ b'h' ∷ [])
fs_download_file_shifted_example =
    fs_download_file_shifted keeper-IsStore content 9 8 blank (omega arith) (omega arith)
