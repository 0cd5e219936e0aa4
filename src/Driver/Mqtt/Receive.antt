-- ===== src/Driver/Mqtt/Receive.antt =====
-- BG96/BG96.cpp: an incoming MQTT message.
pub mod Message
use bg96_driver.Prelude.{
  ℕ, ℤ, pos, ◌==ℤ◌, ◌&&◌, Option, none, some, [], ◌∷◌, ◌++◌, drop, length, if◌then◌else◌, ◌==◌,
  CStr,
}
use mathlib.Core.Option
use bg96_driver.Prelude.Partial.{Partial, return, call, ◌>>=◌, ◌>>◌}
use bg96_driver.At.{
  AtParser, Bg96, parser_values, lock, unlock, set_timeout, plain, int_at, text_at,
}

-- What mqtt_checkAvail fills of an MQTTMessage.
pub record Received : Type 0 where
  pub topic : CStr
  pub topic_len : ℕ
  pub payload : CStr
  pub payload_len : ℕ

-- The text up to its last '/', that included; `none` if it has no '/'.
unfoldable pub upto_last_slash : CStr → Option CStr
upto_last_slash [] = none
upto_last_slash (c ∷ cs) = elim (upto_last_slash cs) [
  | some path ↦ some (c ∷ path)
  | none ↦ if c == b'/' then some (c ∷ []) else none
]

-- `mqtt_payload[strlen(mqtt_payload)-1] = 0`; of an empty text it writes outside of the array.
unfoldable pub drop_last : CStr → Option CStr
drop_last [] = none
drop_last (c ∷ []) = some []
drop_last (c ∷ d ∷ cs) = Option.map (λ r. c ∷ r) (drop_last (d ∷ cs))

-- The message; a topic without '/' is written through a null pointer.
unfoldable pub receive : CStr → CStr → Option Received
receive topic payload = elim (drop_last payload) [
  | none ↦ none
  | some kept ↦ elim (upto_last_slash topic) [
    | none ↦ none
    | some path ↦ some (record {
      topic = path ++ b'#' ∷ [];
      topic_len = length (path ++ b'#' ∷ []);
      payload = drop 1 kept;
      payload_len = length kept;
    })
  ]
]

of_option : {S A : Type 0} → Option A → Partial S (Option A)
of_option none s = none
of_option (some a) s = some (some a, s)

module _ {D : Type 0} (io : AtParser D) where
  -- BG96::mqtt_checkAvail, and mqtt_recv, which only calls it.
  unfoldable pub mqtt_check_avail : ℤ → Partial (Bg96 D) (Option Received)
  unfolding of_option
  mqtt_check_avail mqtt_id = do
    call lock
    call (set_timeout 1000)
    reply ← call (parser_values io (plain "+QMTRECV: %d,%d,\"%256[^\"]\",%s\n"))
    msg ←
        if reply.0 && int_at 0 (pos 0) reply.1 ==ℤ mqtt_id
        then of_option (receive (text_at 2 [] reply.1) (text_at 3 [] reply.1))
        else return none
    call (set_timeout 1000)
    call unlock
    return msg
