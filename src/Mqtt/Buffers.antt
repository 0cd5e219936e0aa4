-- ===== src/Mqtt/Buffers.antt =====
-- MQTT/BG96MQTTClient.cpp: the buffers that the commands of the configuration are printed into.
use bg96_driver.Prelude.{ℕ, ◌+◌, ◌≤◌, ◌<◌, ◌≡◌, refl, arith, ℤ, some, length, length-append, CStr}
use bg96_driver.Prelude.Partial.{Partial}
use bg96_driver.At.{AtParser, Command}
use bg96_driver.Printf.{print, sprintf}
use bg96_driver.Printf.Digits.{IsInt, length-decimal, decimal-pos}
use bg96_driver.Mqtt.{Client, Options}
use bg96_driver.Mqtt.Session.{
  generic, configure_mqtt_version, configure_mqtt_pdpcid, configure_mqtt_will,
  configure_mqtt_timeout, configure_mqtt_session, configure_mqtt_keepalive,
  configure_mqtt_sslenable,
}

-- The numbers of the options are ints, as their C type has it.
pub record AreInts (o : Options) : Type 0 where
  pub version : IsInt o.version
  pub timeout : IsInt o.timeout
  pub retries : IsInt o.retries
  pub timeout_notice : IsInt o.timeout_notice
  pub cleansession : IsInt o.cleansession
  pub keepalive : IsInt o.keepalive
  pub sslenable : IsInt o.sslenable

module _ {D : Type 0} (io : AtParser D) where
  -- The method sends one command, which is printed with its terminator into `limit` bytes.
  abbrev pub SendsWithin : ℕ → Partial (Client D) ℤ → Client D → Type 0
  SendsWithin limit m c =
      (cmd : Command) × (m c ≡ generic io cmd c) × (length (sprintf cmd) < limit)

  -- Whatever ints the options and the identifiers of the client are, each command of the
  -- configuration but the will's is printed into the 80 bytes of its buffer, terminator included.
  pub configure_commands_fit :
      (c : Client D) (o : Options)
      → IsInt c.mqtt_ctx_id
      → IsInt c.pdp_ctx_id
      → IsInt c.ssl_ctx_id
      → AreInts o
      → SendsWithin 80 (configure_mqtt_version io o.version) c
        × SendsWithin 80 (configure_mqtt_pdpcid io c.pdp_ctx_id) c
        × SendsWithin 80 (configure_mqtt_timeout io o.timeout o.retries o.timeout_notice) c
        × SendsWithin 80 (configure_mqtt_session io o.cleansession) c
        × SendsWithin 80 (configure_mqtt_keepalive io o.keepalive) c
        × SendsWithin 80 (configure_mqtt_sslenable io o.sslenable) c
  unfolding print configure_mqtt_version configure_mqtt_pdpcid configure_mqtt_timeout
      configure_mqtt_session configure_mqtt_keepalive configure_mqtt_sslenable
  configure_commands_fit c o id pdp ssl v =
      let a = length-decimal c.mqtt_ctx_id id in
      (
        (_, refl, omega (arith, length-append {0}, a, length-decimal o.version v.version)),
        (_, refl, omega (arith, length-append {0}, a, length-decimal c.pdp_ctx_id pdp)),
        (
          _,
          refl,
          omega (
            arith,
            length-append {0},
            a,
            length-decimal o.timeout v.timeout,
            length-decimal o.retries v.retries,
            length-decimal o.timeout_notice v.timeout_notice,
          ),
        ),
        (
          _,
          refl,
          omega (arith, length-append {0}, a, length-decimal o.cleansession v.cleansession),
        ),
        (_, refl, omega (arith, length-append {0}, a, length-decimal o.keepalive v.keepalive)),
        (
          _,
          refl,
          omega (
            arith,
            length-append {0},
            a,
            length-decimal o.sslenable v.sslenable,
            length-decimal c.ssl_ctx_id ssl,
          ),
        ),
      )

  -- The command of the will, whose texts have no bound, is printed into 256 bytes: it takes between
  -- 30 and 70 characters more than the two texts. So with its terminator it fits if these have 185
  -- characters at most, and runs over the buffer if they have 226 or more.
  pub configure_mqtt_will-length :
      (fg qos retain : ℤ) (topic msg : CStr) (c : Client D)
      → IsInt c.mqtt_ctx_id
      → IsInt fg
      → IsInt qos
      → IsInt retain
      → (cmd : Command) × (configure_mqtt_will io fg qos retain (some topic) (some msg) c
          ≡ generic io cmd c)
        × (length topic + length msg + 30 ≤ length (sprintf cmd))
        × (length (sprintf cmd) ≤ length topic + length msg + 70)
  unfolding print configure_mqtt_will
  configure_mqtt_will-length fg qos retain topic msg c id f q r = (
    _,
    refl,
    simp (length-append) (
        omega
          (arith, decimal-pos c.mqtt_ctx_id, decimal-pos fg, decimal-pos qos, decimal-pos retain)),
    simp (length-append) (
        omega (
          arith,
          length-decimal c.mqtt_ctx_id id,
          length-decimal fg f,
          length-decimal qos q,
          length-decimal retain r,
        )),
  )
