-- ===== src/Interface/Sockets/Awake.antt =====
-- BG96Interface.cpp: the calls on the table of sockets leave no transfer to be forgotten.
use bg96_driver.Prelude.{
  ℕ, ◌≡◌, refl, ℤ, Bool, Option, none, some, ltb, Bool-cases, inl, inr, Option-cases, if◌then◌else◌,
}
use bg96_driver.At.{AtParser, Bg96}
use bg96_driver.Interface.{Iface, Application, Callback, Address, Protocol, Socket, set_sock}
use bg96_driver.Interface.Sockets.{
  find_free, socket_open, socket_attach, socket_listen, socket_close, try_open, connected_after,
  socket_connect, is_udp,
}
use bg96_driver.Interface.{slots}
use bg96_driver.Interface.Poll.Awake.{
  IsAwake, Keeps, set_rx-IsAwake, same_rx, set_tx-IsAwake, eq_schedule-IsAwake, call_back-IsAwake,
  weaken-IsAwake,
}
use bg96_driver.Interface.Transfer.Awake.{modem-IsAwake, subst_result}

module _ {D : Type 0} {done : Bool} where
  set_sock-IsAwake :
      {s : Iface D} (h : ℕ) (p : Socket) → IsAwake done s → IsAwake done (set_sock h p s)
  set_sock-IsAwake h p a = record {
    bound = a.bound;
    counted = a.counted;
    covered = a.covered;
    owned = a.owned;
    heard = a.heard;
  }

  pub socket_open-IsAwake :
      (proto : Protocol) (s : Iface D) → IsAwake done s → IsAwake done (socket_open proto s).1
  unfolding socket_open
  socket_open-IsAwake proto s a = elim (Option-cases (find_free slots s.sock)) [
    | inl e ↦ rw (e, socket_open) a
    | inr (i, e) ↦
        rw (e, socket_open)
          (set_sock-IsAwake i _ (set_rx-IsAwake i _ refl (same_rx i a) (set_tx-IsAwake i _ refl a)))
  ]

  pub socket_attach-IsAwake :
      (h : ℕ) (f : Callback) (d : ℕ) (s : Iface D)
      → IsAwake done s
      → IsAwake done (socket_attach h f d s)
  unfolding socket_attach
  socket_attach-IsAwake h f d s a = set_sock-IsAwake h _ a

  pub socket_listen-IsAwake :
      (h : ℕ) (s : Iface D) → IsAwake done s → IsAwake done (socket_listen h s).1
  unfolding socket_listen
  socket_listen-IsAwake h s a = elim (Bool-cases (s.sock h).connected) [
    | inl e ↦ rw e a
    | inr e ↦ rw e (weaken-IsAwake done (eq_schedule-IsAwake (set_sock-IsAwake h _ a)))
  ]

module _ {D : Type 0} (io : AtParser D) {done : Bool} where
  pub socket_close-IsAwake :
      (h : ℕ) (s : Iface D) → IsAwake done s → IsAwake done (socket_close io h s).1
  unfolding socket_close
  socket_close-IsAwake h s a = elim (Option-cases (s.sock h).id) [
    | inl e ↦ rw (e, socket_close) a
    | inr (i, e) ↦
        rw (e, socket_close)
          (set_sock-IsAwake h _
            (set_rx-IsAwake i _ refl (same_rx i a) (set_tx-IsAwake i _ refl (modem-IsAwake _ a))))
  ]

module _ {D : Type 0} (io : AtParser D) {app : Application D} (keeps : Keeps app)
    {done : Bool} where
  connected_after-IsAwake :
      (h : ℕ) (addr : Address) (cnt : ℕ) (s : Iface D)
      → IsAwake done s
      → IsAwake done (connected_after io app h addr cnt s).1
  unfolding connected_after
  connected_after-IsAwake h addr cnt s a = elim (Bool-cases (ltb cnt 3)) [
    | inl e ↦ rw e (call_back-IsAwake keeps _ _ (set_sock-IsAwake h _ a))
    | inr e ↦ rw e a
  ]

  pub socket_connect-IsAwake :
      (rounds h : ℕ) (addr : Address) (s : Iface D) {n : ℤ} {t : Iface D}
      → IsAwake done s
      → socket_connect io app rounds h addr s ≡ some (n, t)
      → IsAwake done t
  unfolding socket_connect
  socket_connect-IsAwake rounds h addr s {n} {t} a e =
      go
        (try_open io rounds (if is_udp (s.sock h).proto then b'u' else b't') (s.sock h) addr 0 3
          s.bg96)
        e
    where
      go :
          (o : Option (ℕ × Bg96 D))
          → elim o [
            | none ↦ none
            | some (cnt, b) ↦ some (connected_after io app h addr cnt (record s { bg96 = b }))
          ]
            ≡ some (n, t)
          → IsAwake done t
      go none e = absurd (cc)
      go (some (cnt, b)) e =
          subst_result (IsAwake done) e (connected_after-IsAwake h addr cnt _ (modem-IsAwake b a))
