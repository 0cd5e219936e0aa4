-- ===== src/Driver/Commands/Fit.antt =====
-- BG96/BG96.cpp: the buffers that its methods print commands and patterns into.
use bg96_driver.Prelude.{ℕ, ◌+◌, ◌≤◌, ◌<◌, arith, ℤ, pos, length, length-append, as_int, CStr}
use bg96_driver.At.{Command}
use bg96_driver.Printf.{print, sprintf, put_digits}
use bg96_driver.Printf.Digits.{IsInt, length-decimal, decimal-pos, length-two_digits}
use bg96_driver.Driver.Commands.{
  activate_command, deactivate_command, open_pattern, recv_pattern, ssl_recv_pattern,
  list_file_command, delete_file_command, upload_file_command, cacert_command, client_cert_command,
  client_key_command, sslopen_command, mqtt_open_command, mqtt_connect_command,
}

-- The command is printed with its terminator into `limit` bytes if its texts have at most `most`
-- characters, and runs over them if they have at least `least`.
abbrev pub Fits : ℕ → ℕ → ℕ → ℕ → Command → Type 0
Fits limit most least texts cmd =
    (texts ≤ most → length (sprintf cmd) < limit) × (least ≤ texts → limit ≤ length (sprintf cmd))

-- Identifiers of at most two digits fit into the patterns of 20 bytes that BG96 waits for and into the
-- 15 bytes of the deactivation, terminator included.
pub patterns_fit :
    (id ctx : ℕ)
    → id < 100
    → ctx < 100
    → (length (sprintf (open_pattern (pos id))) < 20)
      × (length (sprintf (recv_pattern (pos id))) < 20)
      × (length (sprintf (ssl_recv_pattern (pos id))) < 20)
      × (length (sprintf (activate_command (pos ctx))) < 100)
      × (length (sprintf (deactivate_command (pos ctx))) < 15)
unfolding print
patterns_fit id ctx lt lt' =
    let i = length-two_digits id lt in
    let c = length-two_digits ctx lt' in
    (
      simp (length-append) (omega (arith, i)),
      simp (length-append) (omega (arith, i)),
      simp (length-append) (omega (arith, i)),
      simp (length-append) (omega (arith, c)),
      simp (length-append) (omega (arith, c)),
    )

as_int-IsInt : (n : ℕ) → IsInt (as_int n)
as_int-IsInt n = ground arith

-- The commands with texts are printed into 128, 80 and 256 bytes, and the source gives the texts no
-- bound. With any ints in it, a command with its terminator fits if its texts have at most the first
-- number of characters, and runs over its buffer if they have at least the second: 116 and 117 for the
-- name of a file, but 104 and 115 for an upload; 93 and 104, 89 and 100, 90 and 101 for the paths of the
-- certificates and the key; 65 and 106 for a TLS host, 52 and 63 for an MQTT host; 224 and 235 for client
-- id, user name and password together.
pub commands_fit :
    (filename path hostname clientid username password : CStr) (size : ℕ) (ctx id pdp port : ℤ)
    → IsInt ctx
    → IsInt id
    → IsInt pdp
    → IsInt port
    → Fits 128 116 117 (length filename) (list_file_command filename)
      × Fits 128 116 117 (length filename) (delete_file_command filename)
      × Fits 128 104 115 (length filename) (upload_file_command filename size)
      × Fits 128 93 104 (length path) (cacert_command ctx path)
      × Fits 128 89 100 (length path) (client_cert_command ctx path)
      × Fits 128 90 101 (length path) (client_key_command ctx path)
      × Fits 128 65 106 (length hostname) (sslopen_command pdp id ctx hostname port)
      × Fits 80 52 63 (length hostname) (mqtt_open_command hostname port)
      × Fits 256 224 235
          (length clientid + length username + length password)
          (mqtt_connect_command ctx clientid username password)
unfolding print put_digits
commands_fit filename path hostname clientid username password size ctx id pdp port c i p t =
    let uz = length-decimal (as_int size) (as_int-IsInt size) in
    let uc = length-decimal ctx c in
    let ui = length-decimal id i in
    let up = length-decimal pdp p in
    let ut = length-decimal port t in
    let lz = decimal-pos (as_int size) in
    let lc = decimal-pos ctx in
    let li = decimal-pos id in
    let lp = decimal-pos pdp in
    let lt = decimal-pos port in
    (
      (λ h. simp (length-append) (omega (arith, h)), λ h. simp (length-append) (omega (arith, h))),
      (λ h. simp (length-append) (omega (arith, h)), λ h. simp (length-append) (omega (arith, h))),
      (
        λ h. simp (length-append) (omega (arith, h, uz)),
        λ h. simp (length-append) (omega (arith, h, lz)),
      ),
      (
        λ h. simp (length-append) (omega (arith, h, uc)),
        λ h. simp (length-append) (omega (arith, h, lc)),
      ),
      (
        λ h. simp (length-append) (omega (arith, h, uc)),
        λ h. simp (length-append) (omega (arith, h, lc)),
      ),
      (
        λ h. simp (length-append) (omega (arith, h, uc)),
        λ h. simp (length-append) (omega (arith, h, lc)),
      ),
      (
        λ h. simp (length-append) (omega (arith, h, up, ui, uc, ut)),
        λ h. simp (length-append) (omega (arith, h, lp, li, lc, lt)),
      ),
      (
        λ h. simp (length-append) (omega (arith, h, ut)),
        λ h. simp (length-append) (omega (arith, h, lt)),
      ),
      (
        λ h. simp (length-append) (omega (arith, h, uc)),
        λ h. simp (length-append) (omega (arith, h, lc)),
      ),
    )
