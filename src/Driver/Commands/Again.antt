-- ===== src/Driver/Commands/Again.antt =====
-- BG96/BG96.cpp: the commands that are printed into a buffer, and then sent as a format.
use bg96_driver.Prelude.{ℕ, ℤ, pos, [], ◌∷◌, ◌++◌, as_int, CStr, refl}
use bg96_driver.Printf.{print, decimal}
use bg96_driver.Printf.Again.{IsPlain, IsStable, print-IsPlain, IsPlain-append, decimal-IsPlain}
use bg96_driver.Driver.Commands.{
  list_file_command, delete_file_command, upload_file_command, cacert_command, client_cert_command,
  client_key_command, sslopen_command, mqtt_open_command, mqtt_connect_command,
}

num_end : (n : ℤ) → IsPlain (decimal n ++ [])
num_end n = IsPlain-append (decimal n) [] (decimal-IsPlain n) refl

-- The parser reads the commands that are printed into a buffer as formats of its own. If the texts in
-- them, the name of a file or of a host, a path, a client id, a user name and a password, have no `%`,
-- it sends them as they were printed, whatever the numbers in them are.
pub commands-IsStable :
    (filename path hostname clientid username password : CStr) (size : ℕ) (ctx id pdp port : ℤ)
    → IsPlain filename
    → IsPlain path
    → IsPlain hostname
    → IsPlain clientid
    → IsPlain username
    → IsPlain password
    → IsStable (list_file_command filename)
      × IsStable (delete_file_command filename)
      × IsStable (upload_file_command filename size)
      × IsStable (cacert_command ctx path)
      × IsStable (client_cert_command ctx path)
      × IsStable (client_key_command ctx path)
      × IsStable (sslopen_command pdp id ctx hostname port)
      × IsStable (mqtt_open_command hostname port)
      × IsStable (mqtt_connect_command ctx clientid username password)
unfolding print
commands-IsStable filename path hostname clientid username password size ctx id pdp port f p h c u
      w =
    let num = decimal-IsPlain in
    let named = λ (s : CStr) (v : IsPlain s). IsPlain-append s (b'"' ∷ []) v refl in
    (
      print-IsPlain _ (named filename f),
      print-IsPlain _ (named filename f),
      print-IsPlain _ (IsPlain-append filename _ f (num_end (as_int size))),
      print-IsPlain _ (IsPlain-append (decimal ctx) _ (num ctx) (named path p)),
      print-IsPlain _ (IsPlain-append (decimal ctx) _ (num ctx) (named path p)),
      print-IsPlain _ (IsPlain-append (decimal ctx) _ (num ctx) (named path p)),
      print-IsPlain _ (
          IsPlain-append (decimal pdp) _ (num pdp) (
            IsPlain-append (decimal id) _ (num id) (
              IsPlain-append (decimal ctx) _ (num ctx)
                (IsPlain-append hostname _ h (num_end port))))),
      print-IsPlain _ (
          IsPlain-append (decimal (pos 0)) _ (num (pos 0))
            (IsPlain-append hostname _ h (num_end port))),
      print-IsPlain _ (
          IsPlain-append (decimal ctx) _ (num ctx)
            (IsPlain-append clientid _ c (IsPlain-append username _ u (named password w)))),
    )
