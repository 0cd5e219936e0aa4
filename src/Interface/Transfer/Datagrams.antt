-- ===== src/Interface/Transfer/Datagrams.antt =====
-- BG96Interface.cpp: socket_sendto and socket_recvfrom leave no transfer to be forgotten.
use bg96_driver.Prelude.{
  ℕ, ◌≡◌, arith, ℤ, ◌==ℤ◌, false, Option, none, some, List, Bool-cases, Option-cases, inl, inr,
}
use bg96_driver.At.{AtParser, nsapi_error_ok, nsapi_error_no_connection}
use bg96_driver.Interface.{Iface, Application, Address}
use bg96_driver.Interface.Sockets.{socket_connect}
use bg96_driver.Interface.Sockets.Awake.{socket_connect-IsAwake}
use bg96_driver.Interface.Transfer.{socket_recv, socket_sendto, socket_recvfrom}
use bg96_driver.Interface.Transfer.Awake.{socket_send-IsAwake, socket_recv-IsAwake, subst_result}
use bg96_driver.Interface.Poll.Awake.{IsAwake, Keeps}

module _ {D : Type 0} (io : AtParser D) {app : Application D} (keeps : Keeps app) where
  pub socket_sendto-IsAwake :
      (rounds h : ℕ) (addr : Address) (bytes : Option (List ℕ)) (size : ℕ) (s : Iface D) {n : ℤ}
      {t : Iface D}
      → IsAwake false s
      → socket_sendto io app rounds h addr bytes size s ≡ some (n, t)
      → IsAwake false t
  unfolding socket_sendto
  socket_sendto-IsAwake rounds h addr bytes size s {n} {t} a e =
      elim (Bool-cases (s.sock h).connected) [
        | inl on ↦ socket_send-IsAwake io keeps h bytes size s a (rw on at e)
        | inr off ↦ elim (Option-cases (socket_connect io app rounds h addr s)) [
          | inl f ↦ absurd (ground arith)
          | inr ((err, s'), f) ↦
              let a' = socket_connect-IsAwake io keeps rounds h addr s a f in
              elim (Bool-cases (err ==ℤ nsapi_error_ok)) [
                | inl ok ↦
                    socket_send-IsAwake io keeps h bytes size s' {n = n} {t = t} a' (ground arith)
                | inr bad ↦
                    subst_result (IsAwake false) {x = (err, s')} {y = (n, t)} (ground arith) a'
              ]
        ]
      ]

  pub socket_recvfrom-IsAwake :
      (h : ℕ) (buffer : Option (List ℕ)) (size : ℕ) (s : Iface D) {n : ℤ × Option Address}
      {t : Iface D}
      → IsAwake false s
      → socket_recvfrom io app h buffer size s ≡ some (n, t)
      → IsAwake false t
  unfolding socket_recvfrom
  socket_recvfrom-IsAwake h buffer size s {n} {t} a e = elim (Bool-cases (s.sock h).connected) [
    | inr off ↦
        subst_result (IsAwake false) {x = ((nsapi_error_no_connection, none), s)} {y = (n, t)}
          (rw off at e) a
    | inl on ↦ elim (Option-cases (socket_recv io app h buffer size s)) [
      | inl f ↦ absurd (ground arith)
      | inr ((m, s'), f) ↦
          let a' = socket_recv-IsAwake io keeps h buffer size s a f in
          subst_result (IsAwake false) {x = ((m, some (s.sock h).addr), s')} {y = (n, t)}
            (ground arith) a'
    ]
  ]
