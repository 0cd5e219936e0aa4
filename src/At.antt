-- ===== src/At.antt =====
-- What the driver takes from mbed OS, as parameters, and the state of a BG96 object that the
-- methods of BG96/BG96.cpp share: the AT command parser, the mutex, the pins.
use bg96_driver.Prelude.{
  ℕ, ◌+◌, ◌-◌, ℤ, pos, negsuc, Bool, true, false, String, CStr, as_u32, Option, none, some,
  if◌then◌else◌, List, [], get_elem?,
}
use bg96_driver.Prelude.State.{St, ◌and_then◌}

-- A printf or scanf argument.
pub data Arg : Type 0 where
  int : ℤ → Arg
  text : CStr → Arg

-- A format with the arguments that are printed into it.
pub record Command : Type 0 where
  pub format : String
  pub args : List Arg

-- `ATCmdParser` over `UARTSerial` and the modem behind it, with the clock; `D` is the state of all
-- that. A call that may wait takes the parser's timeout first.
pub record AtParser (D : Type 0) : Type 0 where
  pub send : ℕ → Command → D → Bool × D
  -- The values that the conversions of the format read, or `none` if no reply matched in time.
  pub recv : ℕ → Command → D → Option (List Arg) × D
  pub write : ℕ → List ℕ → D → ℤ × D
  -- The result and the bytes that were stored.
  pub read : ℕ → ℕ → D → (ℤ × List ℕ) × D
  pub putc : ℕ → ℕ → D → D
  pub getc : ℕ → D → ℤ × D
  pub flush : D → D
  -- `Timer` and `wait`, in milliseconds.
  pub read_ms : D → ℕ
  pub wait : ℕ → D → D

-- class BG96: `timeout` is the argument of the last `_parser.set_timeout`, and `locks` the number
-- of calls of `_bg96_mutex.lock` that no `unlock` has answered yet (the mutex is recursive).
pub record Bg96 (D : Type 0) : Type 0 where
  pub context_id : ℤ
  pub timeout : ℕ
  pub locks : ℕ
  pub bg96_reset : Bool
  pub vbat_3v8_en : Bool
  pub bg96_pwrkey : Bool
  pub dev : D

module _ {D : Type 0} where
  abbrev pub context : St (Bg96 D) ℤ
  context s = (s.context_id, s)

  abbrev pub lock : St (Bg96 D) (Unit {0})
  lock s = (tt, record s { locks = s.locks + 1 })

  abbrev pub unlock : St (Bg96 D) (Unit {0})
  unlock s = (tt, record s { locks = s.locks - 1 })

  abbrev pub set_timeout : ℕ → St (Bg96 D) (Unit {0})
  set_timeout t s = (tt, record s { timeout = t })

  -- A parser call in the driver's state.
  abbrev pub with_dev : {A : Type 0} → (ℕ → D → A × D) → St (Bg96 D) A
  with_dev f s = let (a, d) = f s.timeout s.dev in (a, record s { dev = d })

-- The value of a variable after a scan: a conversion that the reply does not fill leaves it.
abbrev pub as_int_or : ℤ → Option Arg → ℤ
as_int_or v (some (int n)) = n
as_int_or v _ = v

abbrev pub as_text_or : CStr → Option Arg → CStr
as_text_or v (some (text t)) = t
as_text_or v _ = v

abbrev pub int_at : ℕ → ℤ → List Arg → ℤ
int_at i v vs = as_int_or v (get_elem? vs i)

abbrev pub text_at : ℕ → CStr → List Arg → CStr
text_at i v vs = as_text_or v (get_elem? vs i)

-- A size_t that `%u` reads.
abbrev pub size_at : ℕ → ℕ → List Arg → ℕ
size_at i v vs = as_u32 (int_at i (pos v) vs)

abbrev pub matched : {A : Type 0} → Option A → Bool
matched none = false
matched (some _) = true

module _ {D : Type 0} (io : AtParser D) where
  open io use {send, recv, write, read, putc, getc, flush, read_ms, wait}

  abbrev pub parser_send : Command → St (Bg96 D) Bool
  parser_send c = with_dev (λ t d. send t c d)

  abbrev pub parser_scan : Command → St (Bg96 D) (Option (List Arg))
  parser_scan c = with_dev (λ t d. recv t c d)

  -- A `recv` whose values the caller does not read.
  abbrev pub parser_recv : Command → St (Bg96 D) Bool
  parser_recv c s = let (r, s') = parser_scan c s in (matched r, s')

  -- The same, with the values: none are read if no reply matches.
  abbrev pub parser_values : Command → St (Bg96 D) (Bool × List Arg)
  parser_values c s =
      let (r, s') = parser_scan c s in (elim r [ none ↦ (false, []) | some vs ↦ (true, vs) ], s')

  -- `_parser.send(c) && _parser.recv("OK")`
  abbrev pub send_ok : Command → St (Bg96 D) Bool
  send_ok c = parser_send c and_then parser_recv (record { format = "OK"; args = [] })

  -- `_parser.recv(c, ...) && _parser.recv("OK")`, with the values.
  abbrev pub values_ok : Command → St (Bg96 D) (Bool × List Arg)
  values_ok c s =
      let ((found, vs), s') = parser_values c s in
      if found
      then (let (done, s'') = parser_recv (record { format = "OK"; args = [] }) s' in
          ((done, vs), s''))
      else ((false, []), s')

  abbrev pub parser_write : List ℕ → St (Bg96 D) ℤ
  parser_write b = with_dev (λ t d. write t b d)

  abbrev pub parser_read : ℕ → St (Bg96 D) (ℤ × List ℕ)
  parser_read n = with_dev (λ t d. read t n d)

  abbrev pub parser_putc : ℕ → St (Bg96 D) (Unit {0})
  parser_putc b s = (tt, record s { dev = putc s.timeout b s.dev })

  abbrev pub parser_getc : St (Bg96 D) ℤ
  parser_getc = with_dev (λ t d. getc t d)

  abbrev pub parser_flush : St (Bg96 D) (Unit {0})
  parser_flush s = (tt, record s { dev = flush s.dev })

  abbrev pub wait_ms : ℕ → St (Bg96 D) (Unit {0})
  wait_ms n s = (tt, record s { dev = wait n s.dev })

  abbrev pub now_ms : St (Bg96 D) ℕ
  now_ms s = (read_ms s.dev, s)

-- A format without arguments.
abbrev pub plain : String → Command
plain f = record { format = f; args = [] }

-- The error codes of mbed OS that the driver uses (nsapi_types.h).
abbrev pub nsapi_error_ok : ℤ
nsapi_error_ok = pos 0

abbrev pub nsapi_error_would_block : ℤ
nsapi_error_would_block = negsuc 3000

abbrev pub nsapi_error_unsupported : ℤ
nsapi_error_unsupported = negsuc 3001

abbrev pub nsapi_error_parameter : ℤ
nsapi_error_parameter = negsuc 3002

abbrev pub nsapi_error_no_connection : ℤ
nsapi_error_no_connection = negsuc 3003

abbrev pub nsapi_error_no_socket : ℤ
nsapi_error_no_socket = negsuc 3004

abbrev pub nsapi_error_auth_failure : ℤ
nsapi_error_auth_failure = negsuc 3010

abbrev pub nsapi_error_device_error : ℤ
nsapi_error_device_error = negsuc 3011

abbrev pub nsapi_error_is_connected : ℤ
nsapi_error_is_connected = negsuc 3014

abbrev pub nsapi_error_connection_timeout : ℤ
nsapi_error_connection_timeout = negsuc 3016

abbrev pub nsapi_error_timeout : ℤ
nsapi_error_timeout = negsuc 3018
