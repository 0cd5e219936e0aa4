-- ===== src/Mqtt/Session.antt =====
-- MQTT/BG96MQTTClient.cpp: the configuration of the client, its connection and its thread.
use bg96_driver.Prelude.{
  ℕ, ℤ, pos, negsuc, ◌==ℤ◌, ltb_ℤ, ◌&&◌, ◌||◌, Bool, true, false, Option, none, some, [], ◌∷◌,
  if◌then◌else◌, CStr,
}
use bg96_driver.Prelude.State.{St}
use bg96_driver.Prelude.Partial.{Partial, return, call, ◌>>=◌, ◌>>◌}
use bg96_driver.At.{
  AtParser, Bg96, Command, int, text, nsapi_error_ok, nsapi_error_device_error,
  nsapi_error_auth_failure, nsapi_error_connection_timeout, nsapi_error_unsupported,
}
use bg96_driver.Driver.Errors.{send_generic_cmd}
use bg96_driver.Driver.Network
use bg96_driver.Driver.Network.{PdpCtx, configure_pdp_context}
use bg96_driver.Driver.Power.{startup, power_down}
use bg96_driver.Driver.Mqtt.{ConnectResult, mqtt_open, mqtt_close, mqtt_connect, mqtt_disconnect}
use bg96_driver.Tls.{TlsSocket, set_root_ca_cert, set_client_cert_key}
use bg96_driver.Mqtt.Subscriptions.{Sublist}
use bg96_driver.Mqtt.{Options, Client, on_bg96}

-- MQTTNetwork_Ctx and MQTTConnect_Ctx.
pub record NetworkCtx : Type 0 where
  pub hostname : CStr
  pub port : ℤ
  pub ca_cert : Option CStr
  pub client_cert : Option CStr
  pub client_key : Option CStr

pub record ConnectCtx : Type 0 where
  pub client_id : CStr
  pub username : CStr
  pub password : CStr

-- The constructor; the members that it does not set keep what the memory held, `options` among them.
unfoldable pub new_client : {D : Type 0} → Bg96 D → TlsSocket → Option Options → Sublist → Client D
new_client b tls options memory = record {
  bg96 = b;
  tls = record tls { sslctx_id = pos 2 };
  pdp_ctx_id = pos 1;
  ssl_ctx_id = pos 2;
  mqtt_ctx_id = pos 0;
  options = options;
  sublist = record memory { first = none };
  nmid = pos 1;
  running = false;
  has_thread = false;
}

-- The `switch` of connect.
unfoldable pub connect_error : ℤ → ℤ
connect_error rc =
    if rc ==ℤ pos 4 || rc ==ℤ pos 2
    then nsapi_error_auth_failure
    else if rc ==ℤ pos 3
    then nsapi_error_connection_timeout
    else if rc ==ℤ pos 1
    then nsapi_error_unsupported
    else if rc ==ℤ pos 6
    then nsapi_error_device_error
    else negsuc 0

module _ {D : Type 0} (io : AtParser D) where
  -- `_bg96->send_generic_cmd(cmd, BG96_AT_TIMEOUT)` of a command that was printed.
  abbrev pub generic : Command → Partial (Client D) ℤ
  generic cmd = on_bg96 (send_generic_cmd io (some cmd) 1000)

  -- RETURN_RC_IF_NEG
  abbrev pub or_return : Partial (Client D) ℤ → Partial (Client D) ℤ → Partial (Client D) ℤ
  or_return m k = do rc ← m; if ltb_ℤ rc (pos 0) then return rc else k

  unfoldable pub configure_mqtt_version : ℤ → Partial (Client D) ℤ
  configure_mqtt_version version c =
      generic
        (record {
          format = "AT+QMTCFG=\"version\",%d,%d";
          args = int c.mqtt_ctx_id ∷ int version ∷ [];
        })
        c

  unfoldable pub configure_mqtt_pdpcid : ℤ → Partial (Client D) ℤ
  configure_mqtt_pdpcid pdp_id c =
      generic
        (record {
          format = "AT+QMTCFG=\"pdpcid\",%d,%d";
          args = int c.mqtt_ctx_id ∷ int pdp_id ∷ [];
        })
        c

  -- To print a null pointer as a text is undefined.
  unfoldable pub configure_mqtt_will : ℤ → ℤ → ℤ → Option CStr → Option CStr → Partial (Client D) ℤ
  configure_mqtt_will will_fg will_qos will_retain none msg c = none
  configure_mqtt_will will_fg will_qos will_retain (some topic) none c = none
  configure_mqtt_will will_fg will_qos will_retain (some topic) (some msg) c =
      generic
        (record {
          format = "AT+QMTCFG=\"will\",%d,%d,%d,%d,\"%s\",\"%s\"";
          args =
              int c.mqtt_ctx_id
              ∷ int will_fg
              ∷ int will_qos
              ∷ int will_retain
              ∷ text topic
              ∷ text msg
              ∷ [];
        })
        c

  unfoldable pub configure_mqtt_timeout : ℤ → ℤ → ℤ → Partial (Client D) ℤ
  configure_mqtt_timeout timeout retries timeout_notice c =
      generic
        (record {
          format = "AT+QMTCFG=\"timeout\",%d,%d,%d,%d";
          args = int c.mqtt_ctx_id ∷ int timeout ∷ int retries ∷ int timeout_notice ∷ [];
        })
        c

  unfoldable pub configure_mqtt_session : ℤ → Partial (Client D) ℤ
  configure_mqtt_session cleansession c =
      generic
        (record {
          format = "AT+QMTCFG=\"session\",%d,%d";
          args = int c.mqtt_ctx_id ∷ int cleansession ∷ [];
        })
        c

  unfoldable pub configure_mqtt_keepalive : ℤ → Partial (Client D) ℤ
  configure_mqtt_keepalive keepalive c =
      generic
        (record {
          format = "AT+QMTCFG=\"keepalive\",%d,%d";
          args = int c.mqtt_ctx_id ∷ int keepalive ∷ [];
        })
        c

  unfoldable pub configure_mqtt_sslenable : ℤ → Partial (Client D) ℤ
  configure_mqtt_sslenable sslenable c =
      generic
        (record {
          format = "AT+QMTCFG=\"ssl\",%d,%d,%d";
          args = int c.mqtt_ctx_id ∷ int sslenable ∷ int c.ssl_ctx_id ∷ [];
        })
        c

  unfoldable pub configure_mqtt : Option Options → Partial (Client D) ℤ
  configure_mqtt none = return nsapi_error_device_error
  configure_mqtt (some o) = or_return (configure_mqtt_version o.version) (
      or_return (λ c. configure_mqtt_pdpcid c.pdp_ctx_id c)
        (or_return (configure_mqtt_will o.will_fg o.will_qos o.will_retain o.will_topic o.will_msg)
          (or_return (configure_mqtt_timeout o.timeout o.retries o.timeout_notice) (
            or_return (configure_mqtt_session o.cleansession) (
              or_return (configure_mqtt_keepalive o.keepalive) (
                or_return (configure_mqtt_sslenable o.sslenable)
                  (λ c. some (nsapi_error_ok, record c { options = some o }))))))))

  -- The part of open under `sslenable > 0`; the results of the two transfers are not read.
  unfoldable pub open_ssl : NetworkCtx → Partial (Client D) (Unit {0})
  open_ssl ctx = do
    λ c.
        generic (record { format = "AT+QSSLCFG=\"sslversion\",%d,4"; args = int c.ssl_ctx_id ∷ [] })
          c
    λ c.
        generic (record { format = "AT+QSSLCFG=\"seclevel\",%d,1"; args = int c.ssl_ctx_id ∷ [] }) c
    λ c. elim (set_root_ca_cert io c.tls ctx.ca_cert c.bg96) [
      | none ↦ none
      | some (rc, b) ↦ elim (set_client_cert_key io c.tls ctx.client_cert ctx.client_key b) [
        | none ↦ none
        | some (rc', b') ↦ some (tt, record c { bg96 = b' })
      ]
    ]

  -- BG96MQTTClient::open, once its pointers are found not null.
  unfoldable pub open_network : NetworkCtx → Options → Partial (Client D) ℤ
  open_network ctx o = do
    if ltb_ℤ (pos 0) o.sslenable then open_ssl ctx else return tt
    rc ← on_bg96 (mqtt_open io ctx.hostname ctx.port)
    return (if rc ==ℤ pos 0 then nsapi_error_ok else nsapi_error_device_error)

  unfoldable pub client_open : Option NetworkCtx → Partial (Client D) ℤ
  client_open none c = some (nsapi_error_device_error, c)
  client_open (some ctx) c = elim c.options [
    | none ↦ some (nsapi_error_device_error, c)
    | some o ↦ open_network ctx o c
  ]

  unfoldable pub client_close : Partial (Client D) ℤ
  client_close = on_bg96 (mqtt_close io)

  -- BG96MQTTClient::connect; `result` is what the local variable of that name holds at first.
  unfoldable pub client_connect : ConnectResult → ConnectCtx → St (Client D) ℤ
  unfolding connect_error
  client_connect result ctx c =
      let ((_, r), b) =
        mqtt_connect io c.mqtt_ctx_id ctx.client_id ctx.username ctx.password result c.bg96 in
      if r.result ==ℤ pos 0 && r.rc ==ℤ pos 0
      then (nsapi_error_ok, record c { bg96 = b; running = true })
      else (connect_error r.rc, record c { bg96 = b })

  unfoldable pub stop_running : St (Client D) (Unit {0})
  stop_running c = (tt, record c { running = false; has_thread = false })

  unfoldable pub client_disconnect : Partial (Client D) ℤ
  unfolding stop_running
  client_disconnect = do call stop_running; λ c. on_bg96 (mqtt_disconnect io c.mqtt_ctx_id) c

  unfoldable pub start_client : ℕ → Partial (Client D) Bool
  start_client rounds c = elim (startup io rounds c.bg96) [
    | none ↦ none
    | some (ready, b) ↦ some (ready, record c { bg96 = b })
  ]

  unfoldable pub stop_client : Partial (Client D) (Unit {0})
  unfolding client_disconnect
  stop_client = do client_disconnect; on_bg96 (Network.disconnect io); on_bg96 (power_down io)

  -- BG96MQTTClient::configure_pdp_context
  unfoldable pub client_pdp_context : Option PdpCtx → Partial (Client D) ℤ
  client_pdp_context ctx = on_bg96 (configure_pdp_context io ctx)

-- dowork; `new` gives a thread.
unfoldable pub dowork : {D : Type 0} → St (Client D) ℤ
dowork c = (pos 0, record c { running = true; has_thread = true })
