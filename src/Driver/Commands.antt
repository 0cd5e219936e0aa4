-- ===== src/Driver/Commands.antt =====
-- BG96/BG96.cpp: the commands and patterns that its methods print into a buffer of their own, and hand
-- to the parser as a format.
pub mod Fit
pub mod Again
use bg96_driver.Prelude.{ℕ, ℤ, pos, as_int, [], ◌∷◌, CStr}
use bg96_driver.At.{Command, int, text}

-- Into 100 bytes, and 15.
abbrev pub activate_command : ℤ → Command
activate_command ctx = record { format = "AT+QIACT=%d"; args = int ctx ∷ [] }

abbrev pub deactivate_command : ℤ → Command
deactivate_command ctx = record { format = "AT+QIDEACT=%d\r"; args = int ctx ∷ [] }

-- Into 20 bytes.
abbrev pub open_pattern : ℤ → Command
open_pattern id = record { format = "+QIOPEN: %d,%%d"; args = int id ∷ [] }

abbrev pub recv_pattern : ℤ → Command
recv_pattern id = record { format = "+QIURC: \"recv\",%d"; args = int id ∷ [] }

abbrev pub ssl_recv_pattern : ℤ → Command
ssl_recv_pattern client_id = record { format = "+QSSLURC: \"recv\",%d"; args = int client_id ∷ [] }

-- Into 128 bytes.
abbrev pub list_file_command : CStr → Command
list_file_command filename = record { format = "AT+QFLST=\"%s\""; args = text filename ∷ [] }

abbrev pub delete_file_command : CStr → Command
delete_file_command filename = record { format = "AT+QFDEL=\"%s\""; args = text filename ∷ [] }

abbrev pub upload_file_command : CStr → ℕ → Command
upload_file_command filename filesize = record {
  format = "AT+QFUPL=\"%s\",%d";
  args = text filename ∷ int (as_int filesize) ∷ [];
}

abbrev pub cacert_command : ℤ → CStr → Command
cacert_command sslctx_id path = record {
  format = "AT+QSSLCFG=\"cacert\",%d,\"%s\"";
  args = int sslctx_id ∷ text path ∷ [];
}

abbrev pub client_cert_command : ℤ → CStr → Command
client_cert_command sslctx_id path = record {
  format = "AT+QSSLCFG=\"clientcert\",%d,\"%s\"";
  args = int sslctx_id ∷ text path ∷ [];
}

abbrev pub client_key_command : ℤ → CStr → Command
client_key_command sslctx_id path = record {
  format = "AT+QSSLCFG=\"clientkey\",%d,\"%s\"";
  args = int sslctx_id ∷ text path ∷ [];
}

abbrev pub sslopen_command : ℤ → ℤ → ℤ → CStr → ℤ → Command
sslopen_command pdp_ctx client_id sslctx_id hostname port = record {
  format = "AT+QSSLOPEN=%d,%d,%d,\"%s\",%d";
  args = int pdp_ctx ∷ int client_id ∷ int sslctx_id ∷ text hostname ∷ int port ∷ [];
}

-- Into 80 bytes, and 256.
abbrev pub mqtt_open_command : CStr → ℤ → Command
mqtt_open_command hostname port = record {
  format = "AT+QMTOPEN=%d,\"%s\",%d";
  args = int (pos 0) ∷ text hostname ∷ int port ∷ [];
}

abbrev pub mqtt_connect_command : ℤ → CStr → CStr → CStr → Command
mqtt_connect_command sslctx_id clientid username password = record {
  format = "AT+QMTCONN=%d,\"%s\",\"%s\",\"%s\"";
  args = int sslctx_id ∷ text clientid ∷ text username ∷ text password ∷ [];
}
