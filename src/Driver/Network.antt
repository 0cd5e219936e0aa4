-- ===== src/Driver/Network.antt =====
-- BG96/BG96.cpp: contexts, status queries and name resolution.
use bg96_driver.Prelude.{
  ℕ, zero, suc, ℤ, pos, negsuc, ltb_ℤ, ◌==ℤ◌, ◌-ℤ◌, pos_part, Bool, true, false, not, ◌&&◌, Option,
  none, some, List, [], ◌∷◌, if◌then◌else◌, CStr,
}
use bg96_driver.Prelude.State.{St, pure, ◌>>=◌, ◌>>◌}
use bg96_driver.At.{
  AtParser, Bg96, context, parser_values, send_ok, values_ok, Command, int, text, lock, unlock,
  set_timeout, plain, int_at, text_at, parser_send, parser_recv, parser_flush,
}
use bg96_driver.Driver.Commands.{deactivate_command}

-- BG96/BG96.h: BG96_PDP_Ctx.
pub record PdpCtx : Type 0 where
  pub pdp_id : ℤ
  pub apn : CStr
  pub username : CStr
  pub password : CStr

module _ {D : Type 0} (io : AtParser D) where
  -- BG96::tx2bg96
  unfoldable pub tx2bg96 : Command → St (Bg96 D) Bool
  tx2bg96 cmd = do lock; ok ← send_ok io cmd; unlock; pure ok

  unfoldable pub set_context : ℤ → St (Bg96 D) ℤ
  set_context i s =
      if ltb_ℤ (pos 16) i
      then (negsuc 0, s)
      else if ltb_ℤ i (pos 1)
      then (s.context_id, s)
      else (i, record s { context_id = i })

  -- BG96::configure_pdp_context; `none` is the null pointer.
  unfoldable pub configure_pdp_context : Option PdpCtx → St (Bg96 D) ℤ
  unfolding set_context
  configure_pdp_context none = pure (negsuc 0)
  configure_pdp_context (some ctx) = do
    set_context ctx.pdp_id
    lock
    ok ← send_ok io (record {
      format = "AT+QICSGP=%d,1,\"%s\",\"%s\",\"%s\"";
      args = int ctx.pdp_id ∷ text ctx.apn ∷ text ctx.username ∷ text ctx.password ∷ [];
    })
    unlock
    pure (if ok then ctx.pdp_id else negsuc 0)

  unfoldable pub get_sim_status : St (Bg96 D) Bool
  get_sim_status = do
    lock
    set_timeout 20000
    done ← send_ok io (plain "AT+CPIN?")
    set_timeout 1000
    unlock
    pure done

  unfoldable pub get_cs_service_status : St (Bg96 D) Bool
  get_cs_service_status = do
    lock
    set_timeout 90000
    parser_send io (plain "AT+CREG?")
    reply ← values_ok io (plain "+CREG: %d,%d")
    set_timeout 1000
    unlock
    pure (reply.0 && ltb_ℤ (pos 0) (int_at 1 (pos 0) reply.1))

  unfoldable pub disconnect : St (Bg96 D) Bool
  unfolding tx2bg96
  disconnect = do
    lock
    set_timeout 60000
    ctx ← context
    ok ← tx2bg96 (deactivate_command ctx)
    set_timeout 1000
    unlock
    pure ok

  unfoldable pub get_rssi : St (Bg96 D) ℤ
  get_rssi = do
    lock
    sent ← parser_send io (plain "AT+CSQ")
    reply ← if sent then parser_values io (plain "+CSQ: %d,%d\n") else pure (false, [])
    unlock
    pure (if reply.0 then int_at 0 (pos 0) reply.1 else pos 0)

  -- BG96::getIPAddress: whether it succeeds, and what stands at `ipstr`.
  unfoldable pub get_ip_address : CStr → St (Bg96 D) (Bool × CStr)
  get_ip_address ipstr = do
    lock
    sent ← parser_send io (plain "AT+QIACT?")
    reply ←
        if sent
        then (do set_timeout 15000; values_ok io (plain "+QIACT:%d,%d,%d,\"%16[^\"]\""))
        else pure (false, [])
    parser_flush io
    set_timeout 1000
    unlock
    pure (reply.0, text_at 3 ipstr reply.1)

  unfoldable pub is_connected : St (Bg96 D) Bool
  unfolding get_ip_address
  is_connected s = let (r, s') = get_ip_address [] s in (r.0, s')

  -- The replies after the first are read and dropped.
  unfoldable pub discard_addresses : ℕ → St (Bg96 D) (Unit {0})
  discard_addresses zero s = (tt, s)
  discard_addresses (suc n) s =
      discard_addresses n (parser_recv io (plain "+QIURC: \"dnsgip\",\"%[^\"]\"") s).1

  unfoldable pub first_address : ℤ → St (Bg96 D) (Bool × CStr)
  unfolding discard_addresses
  first_address ipcount = do
    reply ← parser_values io (plain "+QIURC: \"dnsgip\",\"%[^\"]\"")
    if reply.0
        then (do
          set_timeout 1000
          discard_addresses (pos_part (ipcount -ℤ pos 1))
          pure (true, text_at 0 [] reply.1))
        else pure (false, [])

  -- The numbers that `sscanf` finds in the first line of the answer.
  unfoldable pub read_answer : List ℤ → St (Bg96 D) (Bool × CStr)
  unfolding first_address
  read_answer [] = pure (true, [])
  read_answer (err ∷ []) = pure (not (ltb_ℤ (pos 0) err), [])
  read_answer (err ∷ ipcount ∷ []) = pure (not (ltb_ℤ (pos 0) err), [])
  read_answer (err ∷ ipcount ∷ _ ∷ _) =
      if ltb_ℤ (pos 0) err
      then pure (false, [])
      else if err ==ℤ pos 0 && ltb_ℤ (pos 0) ipcount
      then first_address ipcount
      else pure (true, [])

  -- What follows once the request is accepted, or is not.
  unfoldable pub await_answer : (CStr → List ℤ) → Bool → St (Bg96 D) (Bool × CStr)
  await_answer numbers false s = ((false, []), s)
  await_answer numbers true s =
      let (_, s₁) = set_timeout 60000 s in
      let ((found, vs), s₂) = parser_values io (plain "+QIURC: \"dnsgip\",%s\r\n") s₁ in
      if found then read_answer (numbers (text_at 0 [] vs)) s₂ else ((true, []), s₂)

  -- BG96::resolveUrl: the result and what stands at `ipstr`. `numbers` is libc's `sscanf` for the
  -- format "%d,%d,%d".
  unfoldable pub resolve_url : (CStr → List ℤ) → CStr → St (Bg96 D) (Bool × CStr)
  resolve_url numbers name = do
    lock
    set_timeout 1000
    ctx ← context
    parser_send io (record { format = "AT+QIDNSGIP=%d,\"%s\""; args = int ctx ∷ text name ∷ [] })
    ok ← parser_recv io (plain "OK")
    answer ← await_answer numbers ok
    set_timeout 1000
    unlock
    pure answer
