-- ===== src/Driver/Mqtt/Publish.antt =====
-- BG96/BG96.cpp: the early return of BG96::mqtt_publish.
use bg96_driver.Prelude.{
  ℕ, ◌+◌, ◌≡◌, arith, ℤ, pos, negsuc, ltb_ℤ, Bool, true, false, List, [], ◌∷◌, CStr, if◌then◌else◌,
  ◌⊎◌,
}
use bg96_driver.At.{AtParser, Bg96, Command, int, text, plain, parser_send, parser_recv}
use bg96_driver.Driver.Mqtt.{mqtt_publish}

abbrev pub publish_command : ℤ → ℤ → ℤ → ℤ → CStr → Command
publish_command mqtt_id msg_id qos retain topic = record {
  format = "AT+QMTPUB=%d,%d,%d,%d,\"%s\"";
  args = int mqtt_id ∷ int msg_id ∷ int qos ∷ int retain ∷ text topic ∷ [];
}

module _ {D : Type 0} (io : AtParser D) where
  -- Whether the modem asks for the payload.
  abbrev pub prompts : Command → Bg96 D → Bool
  prompts c s =
      let (sent, s') = parser_send io c (record s { locks = s.locks + 1; timeout = 60000 }) in
      if sent then (parser_recv io (plain ">") s').0 else false

  -- BG96::mqtt_publish of fewer than 1548 bytes gives the mutex back and resets the timeout if the
  -- modem asks for the payload. If it does not, the result is -1, the mutex stays locked and the
  -- timeout stays at 60 seconds.
  mqtt_publish-locks :
      (mqtt_id msg_id qos retain : ℤ) (topic : CStr) (bytes : List ℕ) (amount : ℤ) (s : Bg96 D)
      → ltb_ℤ amount (pos 1548) ≡ true
      → let (r, t) = mqtt_publish io mqtt_id msg_id qos retain topic bytes amount s in
        let prompt = prompts (publish_command mqtt_id msg_id qos retain topic) s in
        ((prompt ≡ true) × (t.locks ≡ s.locks) × (t.timeout ≡ 1000))
        ⊎ ((prompt ≡ false) × (r ≡ negsuc 0) × (t.locks ≡ s.locks + 1) × (t.timeout ≡ 60000))
  unfolding mqtt_publish
  mqtt_publish-locks mqtt_id msg_id qos retain topic bytes amount s h = ground arith
