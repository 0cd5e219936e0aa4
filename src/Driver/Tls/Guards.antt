-- ===== src/Driver/Tls/Guards.antt =====
-- BG96/BG96.cpp: the guards of BG96::sslopen, and the result of BG96::ssl_client_status.
use bg96_driver.Prelude.{◌≡◌, arith, ℤ, pos, ltb_ℤ, ◌||◌, Bool, true, false, CStr}
use bg96_driver.At.{AtParser, Bg96}
use bg96_driver.Driver.Tls.{sslopen, ssl_client_status}

-- Not a client from 0 to 11 and a context from 1 to 11.
abbrev pub out_of_range : ℤ → ℤ → Bool
out_of_range pdp_ctx client_id =
    ltb_ℤ client_id (pos 0)
    || ltb_ℤ (pos 11) client_id
    || ltb_ℤ pdp_ctx (pos 1)
    || ltb_ℤ (pos 11) pdp_ctx

module _ {D : Type 0} (io : AtParser D) where
  -- BG96::sslopen succeeds only with a client from 0 to 11 and a context from 1 to 11.
  sslopen_ids :
      (hostname : CStr) (port pdp_ctx client_id sslctx_id : ℤ) (s : Bg96 D)
      → (sslopen io hostname port pdp_ctx client_id sslctx_id s).0 ≡ true
      → out_of_range pdp_ctx client_id ≡ false
  unfolding sslopen
  sslopen_ids hostname port pdp_ctx client_id sslctx_id s h = ground arith

  -- BG96::ssl_client_status never reports a connected client, whatever the modem answers.
  ssl_client_status-false :
      (client_id : ℤ) (s : Bg96 D) → (ssl_client_status io client_id s).0 ≡ false
  unfolding ssl_client_status
  ssl_client_status-false client_id s = ground arith
