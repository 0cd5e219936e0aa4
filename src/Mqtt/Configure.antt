-- ===== src/Mqtt/Configure.antt =====
-- MQTT/BG96MQTTClient.cpp: the results of configure_mqtt and connect.
use bg96_driver.Prelude.{
  ℕ, ◌≡◌, ◌≢◌, ◌⊎◌, inl, inr, refl, ◌∙◌, arith, ℤ, pos, ◌==ℤ◌, true, ◌&&◌, none, some,
  if◌then◌else◌, CStr, Option-cases,
}
use bg96_driver.Prelude.Partial.{Partial}
use bg96_driver.At.{AtParser, Command, matched, plain, nsapi_error_ok}
use bg96_driver.Driver.Errors.{send_generic_cmd}
use bg96_driver.Driver.Mqtt.{ConnectResult, mqtt_connect}
use bg96_driver.Mqtt.{Options, Client}
use bg96_driver.Mqtt.Session.{
  ConnectCtx, generic, or_return, configure_mqtt, configure_mqtt_version, configure_mqtt_pdpcid,
  configure_mqtt_will, configure_mqtt_timeout, configure_mqtt_session, configure_mqtt_keepalive,
  configure_mqtt_sslenable, connect_error, client_connect,
}

module _ {D : Type 0} (io : AtParser D) where
  open io use {send, recv}

  -- configure_mqtt after the will.
  abbrev after_will : Options → Partial (Client D) ℤ
  after_will o = or_return io (configure_mqtt_timeout io o.timeout o.retries o.timeout_notice) (
      or_return io (configure_mqtt_session io o.cleansession) (
        or_return io (configure_mqtt_keepalive io o.keepalive) (
          or_return io (configure_mqtt_sslenable io o.sslenable)
            (λ c. some (nsapi_error_ok, record c { options = some o })))))

  -- RETURN_RC_IF_NEG goes on after `m`, whatever follows.
  abbrev pub GoesOn : Partial (Client D) ℤ → Client D → Type 0
  GoesOn m c = (t : Client D) × ((k : Partial (Client D) ℤ) → or_return io m k c ≡ k t)

  generic-GoesOn : (cmd : Command) (c : Client D) → GoesOn (generic io cmd) c
  unfolding send_generic_cmd
  generic-GoesOn cmd c =
      (record c { bg96 = (send_generic_cmd io (some cmd) 1000 c.bg96).1 }, λ k. ground arith)

  -- configure_mqtt up to the will.
  before_will :
      (o : Options) (c : Client D)
      → (t : Client D) × (configure_mqtt io (some o) c
          ≡ or_return io
              (configure_mqtt_will io o.will_fg o.will_qos o.will_retain o.will_topic o.will_msg)
              (after_will o)
              t)
  unfolding configure_mqtt configure_mqtt_version configure_mqtt_pdpcid
  before_will o c =
      let (t, e) = generic-GoesOn _ c in let (u, f) = generic-GoesOn _ t in (u, e _ ∙ f _)

  after_will-ok :
      (o : Options) (c : Client D)
      → (t : Client D) × (after_will o c ≡ some (nsapi_error_ok, t)) × (t.options ≡ some o)
  unfolding configure_mqtt_timeout configure_mqtt_session configure_mqtt_keepalive
      configure_mqtt_sslenable
  after_will-ok o c =
      let (t, e) = generic-GoesOn _ c in
      let (u, f) = generic-GoesOn _ t in
      let (v, g) = generic-GoesOn _ u in
      let (w, h) = generic-GoesOn _ v in
      (record w { options = some o }, e _ ∙ f _ ∙ g _ ∙ h _, refl)

  will_null :
      (o : Options) (c : Client D)
      → (o.will_topic ≡ none) ⊎ (o.will_msg ≡ none)
      → configure_mqtt_will io o.will_fg o.will_qos o.will_retain o.will_topic o.will_msg c ≡ none
  unfolding configure_mqtt_will
  will_null o c (inl h) = rw h refl
  will_null o c (inr h) = elim (Option-cases o.will_topic) [
    | inl g ↦ rw g refl
    | inr (topic, g) ↦ rw (g, h) refl
  ]

  will_given :
      (o : Options) (topic msg : CStr) (c : Client D)
      → o.will_topic ≡ some topic
      → o.will_msg ≡ some msg
      → GoesOn (configure_mqtt_will io o.will_fg o.will_qos o.will_retain o.will_topic o.will_msg) c
  unfolding configure_mqtt_will
  will_given o topic msg c h g = rw (h, g) (generic-GoesOn _ c)

  -- Either the two texts of the will are there, and configure_mqtt reports NSAPI_ERROR_OK and keeps
  -- the options whatever the modem answers to the commands; or one is not, as in the options by
  -- default, and it goes no further than the command of the will, where it prints a null pointer.
  pub configure_mqtt_blind :
      (o : Options) (c : Client D)
      → ((topic : CStr) × (msg : CStr) × (t : Client D) × (o.will_topic ≡ some topic)
          × (o.will_msg ≡ some msg)
          × (configure_mqtt io (some o) c ≡ some (nsapi_error_ok, t))
          × (t.options ≡ some o))
        ⊎ (((o.will_topic ≡ none) ⊎ (o.will_msg ≡ none)) × (configure_mqtt io (some o) c ≡ none))
  unfolding configure_mqtt_will
  configure_mqtt_blind o c =
      let (u, e) = before_will o c in
      elim (Option-cases o.will_topic) [
        | inl h ↦ inr (inl h, e ∙ ground (arith, will_null o u (inl h)))
        | inr (topic, h) ↦ elim (Option-cases o.will_msg) [
          | inl g ↦ inr (inr g, e ∙ ground (arith, will_null o u (inr g)))
          | inr (msg, g) ↦
              let (v, f) = will_given o topic msg u h g in
              let (t, a, b) = after_will-ok o v in
              inl (topic, msg, t, h, g, e ∙ f (after_will o) ∙ a, b)
        ]
      ]

  -- connect reports NSAPI_ERROR_OK exactly if it lets the client run, and leaves that flag alone
  -- otherwise.
  client_connect_running :
      (result : ConnectResult) (ctx : ConnectCtx) (c : Client D)
      → let (v, t) = client_connect io result ctx c in
        ((v ≡ nsapi_error_ok) × (t.running ≡ true))
        ⊎ ((v ≢ nsapi_error_ok) × (t.running ≡ c.running))
  unfolding client_connect connect_error
  client_connect_running result ctx c = ground arith

  -- If the modem acknowledges the connect command and its result does not come in time, connect
  -- reports success or the error by what its local variable happened to hold.
  client_connect_unanswered :
      ((t : ℕ) (cmd : Command) (d : D) → (send t cmd d).0 ≡ true)
      → ((t : ℕ) (d : D) → matched (recv t (plain "OK") d).0 ≡ true)
      → ((t : ℕ) (d : D) → (recv t (plain "+QMTCONN:%d,%d,%d") d).0 ≡ none)
      → (result : ConnectResult) (ctx : ConnectCtx) (c : Client D)
      → (client_connect io result ctx c).0 ≡ (
          if result.result ==ℤ pos 0 && result.rc ==ℤ pos 0
          then nsapi_error_ok
          else connect_error result.rc)
  unfolding client_connect mqtt_connect
  client_connect_unanswered sends acks waits result ctx c = grind arith
