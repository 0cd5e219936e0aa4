-- ===== src/Tests/Clients.antt =====
-- The objects of an interface on concrete calls.
use bg96_driver.Prelude.{◌≡◌, none, some, [], ◌∷◌}
use bg96_driver.Tls.{new_tls_socket}
use bg96_driver.Interface.Clients.{
  Owned, wants_tls, wants_mqtt, new_owned, answer, answer_all, get_bg96_mqtt_client, destroy, count,
  destroy-once,
}

abbrev memory : Owned
memory = record {
  tls = none;
  mqtt = some 3;
  fs_imp = none;
  next = 10;
  sockets = λ p. new_tls_socket;
  tls_of = λ p. 0;
}

destroy-once_example :
    count 11 (
      destroy
        (answer_all (wants_mqtt none ∷ wants_tls ∷ wants_mqtt (some 4) ∷ []) (new_owned memory)))
    ≡ 1
unfolding answer_all answer get_bg96_mqtt_client new_owned
destroy-once_example =
    destroy-once (wants_mqtt none ∷ wants_tls ∷ wants_mqtt (some 4) ∷ []) memory 11
