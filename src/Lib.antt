-- ===== src/Lib.antt =====
-- A model of the driver for the Quectel BG96 modem (an mbed OS network interface over AT commands),
-- with the theorems that make it correct, or that say where it is not.
--
-- The parts of the program and the files that model them:
-- * BG96/BG96.cpp, class BG96: one method for each exchange of AT commands with the modem. A method
--   is a function from the state of the object (`Bg96` of At.antt: context id, the parser's timeout,
--   the count of the recursive mutex, the pins, the device) to its result and the new state. The
--   methods stand in Driver/: Sockets (open, close, send, recv), Power (startup, reset, BG96Ready,
--   GNSS), Network (registration status, PDP context, DNS), Connect (both connect methods), Files
--   and Files/Upload (the file system of the modem), Tls, Mqtt and Mqtt/Receive, Errors (getError,
--   send_generic_cmd). Names are the source's, in snake case; an out parameter is a further result.
-- * BG96Interface.cpp, class BG96Interface: the network stack over a BG96. Its state is `Iface` of
--   Interface.antt; the arrays g_sock, g_socTx and g_socRx are functions of the index. Interface/Events
--   has rx_event, tx_event and _eq_schedule, Interface/Sockets the table of sockets and
--   socket_connect, Interface/Transfer socket_send, socket_recv and their variants, Interface/Poll
--   g_eq_event, Interface/Session set_credentials, disconnect and the power-off
--   permissions, Interface/Connect connect(apn, username, password) and gethostbyname.
--   Interface/Setup has the constructor, connect without arguments, the socket options and the
--   queries, and Interface/Files the methods of FSInterface, with the power-off permission around
--   them; its state is an `Iface` with the error of the file system.
-- * Interface/Clients has the TLS socket and the MQTT client that the interface makes once, at
--   addresses that `new` gives, and the destructor.
-- * Interface/Delivery puts the parts together: socket_send, the calls that the queue makes and
--   BG96::send, over a modem that keeps what it takes for each socket (Driver/Sockets/Channel). The
--   chances of the queue are a list that says where the mutex is free. Interface/Reception does so for
--   socket_recv and BG96::recv, over a modem that keeps what has come for each socket
--   (Driver/Sockets/Source) and to which more comes between the calls. FileSystem/Store does so for a
--   file, over a modem that keeps it.
-- * Interface/Reach is the program as a step relation: calls of the application and calls that the
--   event queue makes, in any order. Two steps do not overlap: the source holds txrx_mutex over a
--   transfer and a round of the queue. The state counts the calls that wait in the queue.
-- * File/FSImplementation.cpp, class FSImplementation: FileSystem.antt, the operations of
--   Driver/Files with the error that fs_get_error gives. Interface/Files calls it.
-- * TLS/BG96TLSSocket.cpp, class BG96TLSSocket: Tls.antt. recv runs over a list of the values that
--   its reads of timeout_ovf give; Tls/Timer has it as one of two threads, with timeout_task, which
--   writes them, as a step relation with a step for each access to the flag and one for the call of sslrecv.
-- * MQTT/BG96MQTTClient.cpp, class BG96MQTTClient: its state is `Client` of Mqtt.antt, with the BG96
--   and the TLS socket that it points to. Mqtt.antt has subscribe, unsubscribe, publish, recv and
--   mqtt_task, whose handlers are a parameter and which Mqtt/Task puts over a modem that announces
--   what is published, Mqtt/Session the configuration, open, connect and the thread, and
--   Mqtt/Subscriptions the linked list: nodes at addresses, with a link that may be null. Chain
--   relates it to a list of items, which Find, Update and Picked work on. Mqtt/Reach is a step
--   relation: the calls of subscribe, unsubscribe, publish and recv, in any order.
-- * GNSS/GNSSLoc.cpp, class GNSSLoc, with updateGNSSLoc of BG96 and getGNSSLocation of BG96Interface:
--   Gnss.antt. The other queries of BG96 (revision, MAC address, time) stand in Driver/Info.
--
-- What the source takes from mbed OS is a parameter: `AtParser` of At.antt stands for ATCmdParser on
-- UARTSerial with the modem behind it, and for Timer and wait; a scan gives the values that its
-- conversions read. Callbacks of the application are a parameter of the functions that call them.
--
-- A command is its format with the arguments; Printf.antt prints it, as sprintf does. Driver/Commands
-- has the commands that BG96 prints into a buffer of its own and then hands to the parser as a
-- format: the model hands the command itself over, which is the same if its texts have no `%`. Its
-- modules Fit and Mqtt/Buffers, for the MQTT configuration, are about the lengths of the buffers.
--
-- What a method stores at a buffer is a list, which is longer than the buffer if the modem makes the
-- source write past its end: BG96::recv reads as many bytes as the modem announces. g_eq_event is one
-- step, also where it finds the mutex taken and changes scheduled_events without it.
--
-- Integers: ℤ of Prelude/Int is a C int, uint32_t and uint16_t are native numbers with their
-- wrap-around written out. A text is the list of its bytes.
--
-- Loops without a bound in the source run on a number of rounds, and `none` means that the rounds are
-- used up, or that an object is accessed out of its bounds: the wait for RDY, the clearing of
-- residual data in BG96::open, the activation in BG96::connect, and the loops of
-- BG96Interface::connect and gethostbyname. 15001 rounds are enough for the wait; the source gives the
-- others no bound, but for the 30 seconds of BG96Interface::connect. The
-- loops over bytes are recursion on the buffer, so that a counter that wraps reads past its end.
--
-- A walk over the subscriptions needs a round for each node; the loop of connect without arguments
-- has no bound in the source. The search for a position counts its 30 tries down.
--
-- What a local variable or new memory holds before it is written is an argument of the functions
-- that may read it. So is what the C library gives: sscanf, mktime and _rtc_maketime, and the text
-- that is printed for a null pointer where the source prints one on the way to the modem. `malloc`
-- gives a subscription or null, and the copies of topics are taken to succeed.
--
-- Not modelled: debug output and the tests of the serial line (readable, writeable); the memory that
-- handlers of MQTT messages are to free; the length of the buffers that texts are scanned into, but
-- for the MAC address; the destructors of BG96, GNSSLoc and BG96MQTTClient, and get_stack.
pub mod Prelude
pub mod At
pub mod Printf
pub mod Driver
pub mod Interface
pub mod Tls
pub mod Mqtt
pub mod FileSystem
pub mod Gnss
pub mod Tests
