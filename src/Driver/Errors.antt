-- ===== src/Driver/Errors.antt =====
-- BG96/BG96.cpp: the last error, and commands without a method of their own.
use bg96_driver.Prelude.{ℕ, ℤ, pos, Bool, false, Option, none, some, [], if◌then◌else◌, CStr}
use bg96_driver.Prelude.State.{St, pure, ◌>>=◌, ◌>>◌}
use bg96_driver.At.{
  AtParser, Bg96, send_ok, values_ok, Command, lock, unlock, set_timeout, plain, int_at, text_at,
  parser_send, nsapi_error_parameter,
}

-- File/FSInterface.h: BG96_ERROR, also named FS_ERROR.
pub record Bg96Error : Type 0 where
  pub errornum : ℤ
  pub description : CStr

-- The default initialisers of the fields.
abbrev pub no_error : Bg96Error
no_error = record { errornum = pos 0; description = [] }

module _ {D : Type 0} (io : AtParser D) where
  -- BG96::getError(char *): the text "Error:<n>" that it prints, as the number n.
  unfoldable pub get_error : St (Bg96 D) (Option ℤ)
  get_error = do
    lock
    sent ← parser_send io (plain "AT+QIGETERROR")
    reply ← if sent then values_ok io (plain "+QIGETERROR: %d,%[^\\n]") else pure (false, [])
    unlock
    pure (if reply.0 then some (int_at 0 (pos 0) reply.1) else none)

  -- BG96::getError(BG96_ERROR &): the fields are written as soon as the first reply matches.
  unfoldable pub get_error_into : Bg96Error → St (Bg96 D) (Bool × Bg96Error)
  get_error_into error = do
    lock
    sent ← parser_send io (plain "AT+QIGETERROR")
    reply ← if sent then values_ok io (plain "+QIGETERROR: %d,%[^\\n]") else pure (false, [])
    unlock
    pure (
      reply.0,
      record {
        errornum = int_at 0 error.errornum reply.1;
        description = text_at 1 error.description reply.1;
      },
    )

  unfoldable pub send_generic_cmd : Option Command → ℕ → St (Bg96 D) ℤ
  send_generic_cmd none timeout = pure nsapi_error_parameter
  send_generic_cmd (some cmd) timeout = do
    lock
    set_timeout timeout
    ok ← send_ok io cmd
    set_timeout 1000
    unlock
    pure (if ok then pos 1 else pos 0)
