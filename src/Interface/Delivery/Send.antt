-- ===== src/Interface/Delivery/Send.antt =====
-- BG96Interface.cpp: socket_send of a whole buffer, from the first call to the one that reports it.
use bg96_driver.Prelude.{
  ℕ, suc, ◌*◌, ◌≤◌, ◌<◌, ◌≡◌, ◌⊎◌, refl, sym, ap, ◌∙◌, arith, inl, inr, ℤ, pos, Bool, false, none,
  some, List, ◌++◌, length, leb, Bool-cases,
}
use bg96_driver.At.{AtParser, nsapi_error_would_block}
use bg96_driver.Driver.Sockets.Channel.{IsChannel}
use bg96_driver.Interface.{Iface, Application, TxEvent, tx_idle}
use bg96_driver.Interface.Transfer.{socket_send, start_tx, finish_tx}
use bg96_driver.Interface.Transfer.Attempt.{start_tx-IsSending}
use bg96_driver.Interface.Transfer.Awake.{socket_send-IsAwake}
use bg96_driver.Interface.Poll.Awake.{IsAwake, Keeps}
use bg96_driver.Interface.Delivery.{IsDelivered, Delivers, Spares, Alone, serve_all, free_rounds}
use bg96_driver.Interface.Reach.{Reach, Reach-IsAwake}
use bg96_driver.Interface.Setup.{new_interface}
use bg96_driver.Interface.Setup.Start.{new_interface-IsAwake}
use bg96_driver.Interface.Delivery.First.{
  outcome, at_once, in_pieces, socket_send_idle, socket_send_complete,
}
use bg96_driver.Interface.Delivery.Serve.{serve_all-IsFlying}
use bg96_driver.Interface.Delivery.Table.{serve_all-sock}

over :
    {i : ℕ} {goal : List ℕ} {size : ℕ} {p : TxEvent} {taken : List ℕ}
    → Delivers i goal size 0 p taken
    → IsDelivered goal size p taken
over (inl d) = d
over (inr v) = absurd (omega (arith, v.enough, v.sending.unsent))

finish_tx-delivered :
    {D : Type 0} (sent : ℕ → D → List ℕ) (i : ℕ) {goal : List ℕ} {size : ℕ} (s : Iface D)
    → size < 2147483648
    → IsDelivered goal size (s.soc_tx i) (sent i s.bg96.dev)
    → let (n, t) = finish_tx i s in
      (n ≡ pos size) × (sent i t.bg96.dev ≡ goal) × ((t.soc_tx i).state ≡ tx_idle)
unfolding finish_tx
finish_tx-delivered sent i s lt d = (ground (arith, d), d.2, ground arith)

module _ {D : Type 0} {io : AtParser D} {target : D → ℤ} {sent : ℕ → D → List ℕ}
    (ch : IsChannel io target sent) {app : Application D} (spares : Spares sent app)
    (keeps : Keeps app) where
  -- The owner of an event that is under way is its own socket, so no other sends on this one.
  awake-Alone : (i : ℕ) (s : Iface D) → IsAwake false s → Alone i s
  awake-Alone i s a j lt ne act e = ne (sym (a.owned j lt act) ∙ e)

  -- From a state that keeps the queue and the transfers in step.
  delivers_awake :
      (h i : ℕ) (bytes : List ℕ) (size : ℕ) (rounds : List Bool) (s : Iface D)
      → (s.sock h).id ≡ some i
      → (s.sock h).callback ≡ none
      → (s.soc_tx i).state ≡ tx_idle
      → i < 5
      → IsAwake false s
      → 0 < size
      → size < 2147483648
      → length bytes ≡ size
      → size ≤ 1500 * suc (free_rounds rounds)
      → (v : Iface D) × ((socket_send io app h (some bytes) size s ≡ some (pos size, v))
          ⊎ ((t : Iface D) × (socket_send io app h (some bytes) size s
                ≡ some (nsapi_error_would_block, t))
              × (socket_send io app h (some bytes) size (serve_all io app rounds t)
                  ≡ some (pos size, v))))
        × (sent i v.bg96.dev ≡ sent i s.bg96.dev ++ bytes)
        × ((v.soc_tx i).state ≡ tx_idle)
  unfolding start_tx
  delivers_awake h i bytes size rounds s id cb idle lt awake pos_size w l enough =
      let p = start_tx (s.soc_tx i) (s.sock h) i bytes size in
      let v = start_tx-IsSending (s.soc_tx i) (s.sock h) i bytes size pos_size (omega arith) l in
      let e = socket_send_idle io app h i bytes size s pos_size id idle in
      let o : ℤ × Iface D = outcome ch app i p s v cb refl refl in
      elim (Bool-cases (leb size 1500)) [
        | inl le ↦
            let d = at_once ch app i p s v cb refl refl (ground arith) in
            (o.1, inl (e ∙ ap (λ n. some (n, o.1)) (d.0 ∙ ground arith)), d.1, d.2)
        | inr more ↦
            let d =
              in_pieces ch app i p s v cb refl refl (free_rounds rounds) enough (ground arith)
                (awake-Alone i s awake) in
            let e₁ : socket_send io app h (some bytes) size s
                ≡ some (nsapi_error_would_block, o.1) =
              e ∙ ap (λ n. some (n, o.1)) d.0 in
            let a = socket_send-IsAwake io keeps h (some bytes) size s awake e₁ in
            let f =
              serve_all-IsFlying ch spares keeps lt (free_rounds rounds) rounds o.1 a d.1
                (omega arith) in
            let u = serve_all io app rounds o.1 in
            let g = finish_tx-delivered sent i u w (over f.status) in
            let id' : (u.sock h).id ≡ some i =
              rw (serve_all-sock app spares.keeps_sockets io rounds o.1 ∙ d.2) id in
            (
              (finish_tx i u).1,
              inr (
                o.1,
                e₁,
                socket_send_complete io app h i bytes size u pos_size id' (over f.status).0
                    ∙ ap (λ n. some (n, (finish_tx i u).1)) g.0,
              ),
              g.1,
              g.2,
            )
      ]

  -- The modem answers AT+QISEND by the prompt, takes the data and confirms them, and keeps them for
  -- the socket; the application's callbacks send nothing, leave the table of sockets alone and keep
  -- the queue and the transfers in step. Take any state that the driver reaches from its constructor
  -- by calls of the application and of the event queue, and a socket_send of a whole buffer of less
  -- than 2 ^ 31 bytes on a socket that is open, idle and without a callback. Either all is sent at
  -- once, and the result is the size; or the result is NSAPI_ERROR_WOULD_BLOCK, and after at least as
  -- many calls of the queue that find the mutex free as there are further pieces, with any number
  -- that do not among them, the same call gives the size. In the end the modem has taken exactly the
  -- bytes of the buffer, each once and in order, and the socket is idle, whatever the other sockets
  -- do.
  pub socket_send_delivers :
      (m : Iface D) (h i : ℕ) (bytes : List ℕ) (size : ℕ) (rounds : List Bool) (s : Iface D)
      → Reach io app (new_interface m) s
      → (s.sock h).id ≡ some i
      → (s.sock h).callback ≡ none
      → (s.soc_tx i).state ≡ tx_idle
      → i < 5
      → 0 < size
      → size < 2147483648
      → length bytes ≡ size
      → size ≤ 1500 * suc (free_rounds rounds)
      → (v : Iface D) × ((socket_send io app h (some bytes) size s ≡ some (pos size, v))
          ⊎ ((t : Iface D) × (socket_send io app h (some bytes) size s
                ≡ some (nsapi_error_would_block, t))
              × (socket_send io app h (some bytes) size (serve_all io app rounds t)
                  ≡ some (pos size, v))))
        × (sent i v.bg96.dev ≡ sent i s.bg96.dev ++ bytes)
        × ((v.soc_tx i).state ≡ tx_idle)
  socket_send_delivers m h i bytes size rounds s r id cb idle lt =
      delivers_awake h i bytes size rounds s id cb idle lt
        (Reach-IsAwake io app keeps r (new_interface-IsAwake m))
