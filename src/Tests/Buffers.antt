-- ===== src/Tests/Buffers.antt =====
-- The commands of the configuration with the largest and the smallest numbers.
use bg96_driver.Prelude.{◌+◌, ◌≤◌, ◌≡◌, arith, pos, negsuc, none, some, length, c_str}
use bg96_driver.At.{Command}
use bg96_driver.Printf.{sprintf}
use bg96_driver.Mqtt.{Options}
use bg96_driver.Mqtt.Session.{
  generic, configure_mqtt_version, configure_mqtt_pdpcid, configure_mqtt_will,
  configure_mqtt_timeout, configure_mqtt_session, configure_mqtt_keepalive,
  configure_mqtt_sslenable,
}
use bg96_driver.Mqtt.Buffers.{
  AreInts, SendsWithin, configure_commands_fit, configure_mqtt_will-length,
}
use bg96_driver.Tests.Fixtures.{silent, fresh}

-- The longest numbers that an int can be.
abbrev lowest_options : Options
lowest_options = record {
  version = negsuc 2147483647;
  keepalive = negsuc 2147483647;
  timeout = negsuc 2147483647;
  timeout_notice = negsuc 2147483647;
  retries = negsuc 2147483647;
  will_fg = pos 0;
  will_qos = pos 0;
  will_retain = pos 0;
  will_topic = none;
  will_msg = none;
  cleansession = negsuc 2147483647;
  sslenable = negsuc 2147483647;
}

lowest_options-AreInts : AreInts lowest_options
lowest_options-AreInts = record {
  version = omega arith;
  timeout = omega arith;
  retries = omega arith;
  timeout_notice = omega arith;
  cleansession = omega arith;
  keepalive = omega arith;
  sslenable = omega arith;
}

configure_commands_fit_example :
    let o = lowest_options in
    SendsWithin silent 80 (configure_mqtt_version silent o.version) fresh
    × SendsWithin silent 80 (configure_mqtt_pdpcid silent (pos 1)) fresh
    × SendsWithin silent 80
        (configure_mqtt_timeout silent o.timeout o.retries o.timeout_notice)
        fresh
    × SendsWithin silent 80 (configure_mqtt_session silent o.cleansession) fresh
    × SendsWithin silent 80 (configure_mqtt_keepalive silent o.keepalive) fresh
    × SendsWithin silent 80 (configure_mqtt_sslenable silent o.sslenable) fresh
configure_commands_fit_example =
    configure_commands_fit silent fresh lowest_options (omega arith) (omega arith) (omega arith)
      lowest_options-AreInts

configure_mqtt_will-length_example :
    let topic = c_str "lamp/state" in
    let msg = c_str "off" in
    (cmd : Command) × (configure_mqtt_will silent
        (pos 1)
        (pos 0)
        (pos 0)
        (some topic)
        (some msg)
        fresh
      ≡ generic silent cmd fresh)
    × (length topic + length msg + 30 ≤ length (sprintf cmd))
    × (length (sprintf cmd) ≤ length topic + length msg + 70)
configure_mqtt_will-length_example =
    configure_mqtt_will-length silent (pos 1) (pos 0) (pos 0) (c_str "lamp/state") (c_str "off")
      fresh (omega arith) (omega arith) (omega arith) (omega arith)
