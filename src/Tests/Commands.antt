-- ===== src/Tests/Commands.antt =====
-- The commands for short texts.
use bg96_driver.Prelude.{◌+◌, refl, arith, pos, length, c_str, CStr}
use bg96_driver.Printf.Again.{IsStable}
use bg96_driver.Driver.Commands.{
  list_file_command, delete_file_command, upload_file_command, cacert_command, client_cert_command,
  client_key_command, sslopen_command, mqtt_open_command, mqtt_connect_command,
}
use bg96_driver.Driver.Commands.Fit.{Fits, commands_fit}
use bg96_driver.Driver.Commands.Again.{commands-IsStable}

abbrev filename : CStr
filename = c_str "log.txt"

abbrev path : CStr
path = c_str "cacert.pem"

abbrev hostname : CStr
hostname = c_str "broker.example.org"

abbrev clientid : CStr
clientid = c_str "lamp"

abbrev username : CStr
username = c_str "user"

abbrev password : CStr
password = c_str "secret"

commands_fit_example :
    Fits 128 116 117 (length filename) (list_file_command filename)
    × Fits 128 116 117 (length filename) (delete_file_command filename)
    × Fits 128 104 115 (length filename) (upload_file_command filename 12)
    × Fits 128 93 104 (length path) (cacert_command (pos 1) path)
    × Fits 128 89 100 (length path) (client_cert_command (pos 1) path)
    × Fits 128 90 101 (length path) (client_key_command (pos 1) path)
    × Fits 128 65 106 (length hostname) (sslopen_command (pos 1) (pos 0) (pos 1) hostname (pos 443))
    × Fits 80 52 63 (length hostname) (mqtt_open_command hostname (pos 443))
    × Fits 256 224 235
        (length clientid + length username + length password)
        (mqtt_connect_command (pos 1) clientid username password)
commands_fit_example =
    commands_fit filename path hostname clientid username password 12 (pos 1) (pos 0) (pos 1)
      (pos 443) (omega arith) (omega arith) (omega arith) (omega arith)

commands-IsStable_example :
    IsStable (list_file_command filename)
    × IsStable (delete_file_command filename)
    × IsStable (upload_file_command filename 12)
    × IsStable (cacert_command (pos 1) path)
    × IsStable (client_cert_command (pos 1) path)
    × IsStable (client_key_command (pos 1) path)
    × IsStable (sslopen_command (pos 1) (pos 0) (pos 1) hostname (pos 443))
    × IsStable (mqtt_open_command hostname (pos 443))
    × IsStable (mqtt_connect_command (pos 1) clientid username password)
commands-IsStable_example =
    commands-IsStable filename path hostname clientid username password 12 (pos 1) (pos 0) (pos 1)
      (pos 443) refl refl refl refl refl refl
