-- ===== src/Driver/Methods.antt =====
-- The methods of class BG96 (BG96/BG96.cpp) that lock the mutex and the parser's timeout for the
-- time of one exchange with the modem, as data.
pub mod Restores
use bg96_driver.Prelude.{ℕ, ℤ, CStr, Option, List}
use bg96_driver.At.{AtParser, Bg96, Command}
use bg96_driver.Driver.Sockets
use bg96_driver.Driver.Errors
use bg96_driver.Driver.Errors.{Bg96Error}
use bg96_driver.Driver.Files
use bg96_driver.Driver.Tls
use bg96_driver.Driver.Mqtt
use bg96_driver.Driver.Mqtt.{ConnectResult}
use bg96_driver.Driver.Network
use bg96_driver.Driver.Power

pub data Method : Type 0 where
  bg96_send : ℤ → List ℕ → ℕ → Method
  chk_rx_avail : ℤ → Method
  rx_avail : ℤ → Method
  bg96_recv : ℤ → ℕ → Method
  open_socket : ℕ → ℤ → CStr → ℤ → Method
  bg96_close : ℤ → Method
  get_error : Method
  get_error_into : Bg96Error → Method
  send_generic_cmd : Option Command → ℕ → Method
  file_exists : CStr → Method
  delete_file : CStr → Method
  fs_size : ℕ → ℕ → Method
  fs_nfiles : ℤ → ℕ → Method
  fs_file_size : CStr → ℕ → Method
  fs_delete_file : CStr → Method
  fs_open : CStr → ℤ → ℤ → Method
  fs_read : ℤ → ℕ → Method
  fs_download_file : CStr → ℕ → ℕ → Method
  fs_seek : ℤ → ℕ → ℤ → Method
  fs_get_offset : ℤ → ℕ → Method
  fs_truncate : ℤ → ℕ → Method
  fs_close : ℤ → Method
  configure_cacert_path : CStr → ℤ → Method
  configure_client_cert_path : CStr → ℤ → Method
  configure_privkey_path : CStr → ℤ → Method
  sslopen : CStr → ℤ → ℤ → ℤ → ℤ → Method
  ssl_client_status : ℤ → Method
  sslsend : ℤ → List ℕ → ℕ → Method
  sslsend_within : ℤ → List ℕ → ℕ → ℕ → Method
  ssl_chk_rx_avail : ℤ → Method
  sslrecv : ℤ → ℕ → Method
  sslclose : ℤ → Method
  mqtt_open : CStr → ℤ → Method
  mqtt_close : Method
  mqtt_connect : ℤ → CStr → CStr → CStr → ConnectResult → Method
  mqtt_disconnect : ℤ → Method
  mqtt_subscribe : ℤ → CStr → ℤ → ℤ → Method
  mqtt_unsubscribe : ℤ → CStr → ℤ → Method
  tx2bg96 : Command → Method
  get_sim_status : Method
  get_cs_service_status : Method
  disconnect : Method
  get_rssi : Method
  get_ip_address : CStr → Method
  is_connected : Method
  resolve_url : (CStr → List ℤ) → CStr → Method
  start_gnss : Method
  stop_gnss : Method

module _ {D : Type 0} (io : AtParser D) where
  -- The state that a call leaves.
  pub invoke : Method → Bg96 D → Bg96 D
  unfolding Sockets.bg96_send Sockets.chk_rx_avail Sockets.rx_avail Sockets.bg96_recv
      Sockets.open_socket Sockets.bg96_close Errors.get_error Errors.get_error_into
      Errors.send_generic_cmd Files.file_exists Files.delete_file Files.fs_size Files.fs_nfiles
      Files.fs_file_size Files.fs_delete_file Files.fs_open Files.fs_read Files.fs_download_file
      Files.fs_seek Files.fs_get_offset Files.fs_truncate Files.fs_close Tls.configure_cacert_path
      Tls.configure_client_cert_path Tls.configure_privkey_path Tls.sslopen Tls.ssl_client_status
      Tls.sslsend Tls.sslsend_within Tls.ssl_chk_rx_avail Tls.sslrecv Tls.sslclose Mqtt.mqtt_open
      Mqtt.mqtt_close Mqtt.mqtt_connect Mqtt.mqtt_disconnect Mqtt.mqtt_subscribe
      Mqtt.mqtt_unsubscribe Network.tx2bg96 Network.get_sim_status Network.get_cs_service_status
      Network.disconnect Network.get_rssi Network.get_ip_address Network.is_connected
      Network.resolve_url Power.start_gnss Power.stop_gnss
  invoke (bg96_send a b c) s = (Sockets.bg96_send io a b c s).1
  invoke (chk_rx_avail a) s = (Sockets.chk_rx_avail io a s).1
  invoke (rx_avail a) s = (Sockets.rx_avail io a s).1
  invoke (bg96_recv a b) s = (Sockets.bg96_recv io a b s).1
  invoke (open_socket a b c d) s = (Sockets.open_socket io a b c d s).1
  invoke (bg96_close a) s = (Sockets.bg96_close io a s).1
  invoke get_error s = (Errors.get_error io s).1
  invoke (get_error_into a) s = (Errors.get_error_into io a s).1
  invoke (send_generic_cmd a b) s = (Errors.send_generic_cmd io a b s).1
  invoke (file_exists a) s = (Files.file_exists io a s).1
  invoke (delete_file a) s = (Files.delete_file io a s).1
  invoke (fs_size a b) s = (Files.fs_size io a b s).1
  invoke (fs_nfiles a b) s = (Files.fs_nfiles io a b s).1
  invoke (fs_file_size a b) s = (Files.fs_file_size io a b s).1
  invoke (fs_delete_file a) s = (Files.fs_delete_file io a s).1
  invoke (fs_open a b c) s = (Files.fs_open io a b c s).1
  invoke (fs_read a b) s = (Files.fs_read io a b s).1
  invoke (fs_download_file a b c) s = (Files.fs_download_file io a b c s).1
  invoke (fs_seek a b c) s = (Files.fs_seek io a b c s).1
  invoke (fs_get_offset a b) s = (Files.fs_get_offset io a b s).1
  invoke (fs_truncate a b) s = (Files.fs_truncate io a b s).1
  invoke (fs_close a) s = (Files.fs_close io a s).1
  invoke (configure_cacert_path a b) s = (Tls.configure_cacert_path io a b s).1
  invoke (configure_client_cert_path a b) s = (Tls.configure_client_cert_path io a b s).1
  invoke (configure_privkey_path a b) s = (Tls.configure_privkey_path io a b s).1
  invoke (sslopen a b c d e) s = (Tls.sslopen io a b c d e s).1
  invoke (ssl_client_status a) s = (Tls.ssl_client_status io a s).1
  invoke (sslsend a b c) s = (Tls.sslsend io a b c s).1
  invoke (sslsend_within a b c d) s = (Tls.sslsend_within io a b c d s).1
  invoke (ssl_chk_rx_avail a) s = (Tls.ssl_chk_rx_avail io a s).1
  invoke (sslrecv a b) s = (Tls.sslrecv io a b s).1
  invoke (sslclose a) s = (Tls.sslclose io a s).1
  invoke (mqtt_open a b) s = (Mqtt.mqtt_open io a b s).1
  invoke mqtt_close s = (Mqtt.mqtt_close io s).1
  invoke (mqtt_connect a b c d e) s = (Mqtt.mqtt_connect io a b c d e s).1
  invoke (mqtt_disconnect a) s = (Mqtt.mqtt_disconnect io a s).1
  invoke (mqtt_subscribe a b c d) s = (Mqtt.mqtt_subscribe io a b c d s).1
  invoke (mqtt_unsubscribe a b c) s = (Mqtt.mqtt_unsubscribe io a b c s).1
  invoke (tx2bg96 a) s = (Network.tx2bg96 io a s).1
  invoke get_sim_status s = (Network.get_sim_status io s).1
  invoke get_cs_service_status s = (Network.get_cs_service_status io s).1
  invoke disconnect s = (Network.disconnect io s).1
  invoke get_rssi s = (Network.get_rssi io s).1
  invoke (get_ip_address a) s = (Network.get_ip_address io a s).1
  invoke is_connected s = (Network.is_connected io s).1
  invoke (resolve_url a b) s = (Network.resolve_url io a b s).1
  invoke start_gnss s = (Power.start_gnss io s).1
  invoke stop_gnss s = (Power.stop_gnss io s).1
