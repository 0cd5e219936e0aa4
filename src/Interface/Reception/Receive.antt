-- ===== src/Interface/Reception/Receive.antt =====
-- BG96Interface.cpp: socket_recv, from the first call to the one that reports what was received.
use bg96_driver.Prelude.{
  ℕ, ◌<◌, ◌≡◌, ◌⊎◌, refl, ◌∙◌, arith, inl, inr, ℤ, pos, Bool, true, false, some, List, [], ◌∷◌,
  take, length, ltb, Bool-cases,
}
use bg96_driver.At.{AtParser, nsapi_error_would_block}
use bg96_driver.Driver.Sockets.Source.{IsSource, length-zero}
use bg96_driver.Interface.{
  Iface, Application, RxState, read_init, read_start, read_active, read_docb, data_available,
}
use bg96_driver.Interface.Events.{clamp}
use bg96_driver.Interface.Transfer.{socket_recv, finish_rx, is_read_docb}
use bg96_driver.Interface.Transfer.Awake.{socket_recv-IsAwake}
use bg96_driver.Interface.Poll.Awake.{IsAwake, Keeps}
use bg96_driver.Interface.Delivery.Table.{serve-sock}
use bg96_driver.Interface.Reach.{Reach, Reach-IsAwake}
use bg96_driver.Interface.Setup.{new_interface}
use bg96_driver.Interface.Setup.Start.{new_interface-IsAwake}
use bg96_driver.Interface.Reception.Told.{IsTold, receive_all-IsTold}
use bg96_driver.Interface.Reception.{
  Chance, is_complete, IsReading, Received, Leaves, Brings, receive_all, arrived, is_served,
}
use bg96_driver.Interface.Reception.Serve.{receive_all-IsReading}
use bg96_driver.Interface.Reception.First.{
  recv_found, recv_nothing, socket_recv_complete, socket_recv_active, clamp-bounds,
  finish_rx-Received,
}

told_complete : (t : RxState) → is_complete t ≡ true → is_read_docb t ≡ false → t ≡ data_available
told_complete data_available c d = refl
told_complete read_docb c d = absurd (cc)
told_complete read_init c d = absurd (cc)
told_complete read_start c d = absurd (cc)
told_complete read_active c d = absurd (cc)

module _ {D : Type 0} {io : AtParser D} {target room : D → ℕ} {ready : D → Bool}
    {inbox : ℕ → D → List ℕ} (src : IsSource io target room ready inbox) {app : Application D}
    (leaves : Leaves inbox app) (keeps : Keeps app) {arrive : (ℕ → List ℕ) → D → D}
    (brings : Brings inbox arrive) where
  receive_all-sock :
      (cs : List Chance) (s : Iface D) → (receive_all io app arrive cs s).sock ≡ s.sock
  unfolding receive_all
  receive_all-sock [] s = refl
  receive_all-sock (c ∷ cs) s =
      receive_all-sock cs _ ∙ serve-sock app leaves.keeps_sockets io c.locked _

  -- The call that finds the read complete or still under way.
  last_call :
      (h i : ℕ) {buffer stream : List ℕ} (size limit : ℕ) {may_wait : Bool} (u : Iface D)
      → 0 < size
      → limit < 2147483648
      → (u.sock h).id ≡ some i
      → IsTold i u
      → IsReading inbox i buffer stream limit may_wait u
      → (n : ℤ) × (v : Iface D) × (socket_recv io app h (some buffer) size u ≡ some (n, v))
        × (Received inbox i buffer stream limit n v
            ⊎ ((may_wait ≡ true) × (n ≡ nsapi_error_would_block) × (inbox i v.bg96.dev ≡ stream)))
  last_call h i {buffer} size limit u lt small id told w = elim w.status [
    | inl v ↦ (
      (finish_rx i u).0,
      (finish_rx i u).1,
      socket_recv_complete io app h i buffer size u lt id (told_complete _ v.complete told),
      inl (finish_rx-Received inbox i u small v),
    )
    | inr (t, v) ↦ (
      nsapi_error_would_block,
      u,
      socket_recv_active io app h i buffer size u lt id v.0,
      inr (t, refl, v.1.whole),
    )
  ]

  -- The modem hands the driver what has come for a socket when it is asked, in order and once, and data
  -- come at any time; the application's callbacks read nothing, leave the table of sockets alone and
  -- keep the queue and the transfers in step. Take any state that the driver reaches from its
  -- constructor by calls of the application and of the event queue, and a socket_recv on a socket that
  -- is open, not listening and idle, with or without a callback. If the modem has something for the socket,
  -- the result is the number of bytes that it has, at most the size of the buffer and at most 1500.
  -- Otherwise the result is NSAPI_ERROR_WOULD_BLOCK, and after whatever data and calls of the queue
  -- the same call gives a number of bytes; or NSAPI_ERROR_WOULD_BLOCK again, but not if some call found
  -- the mutex free after something had come. With each number, these bytes stand at the start of the
  -- buffer, and with those that the modem still has they are exactly what has come for the socket, in
  -- order; with NSAPI_ERROR_WOULD_BLOCK the modem still has all, whatever the other sockets do.
  pub socket_recv_receives :
      (m : Iface D) (h i : ℕ) (buffer : List ℕ) (size : ℕ) (cs : List Chance) (s : Iface D)
      → Reach io app (new_interface m) s
      → (s.sock h).id ≡ some i
      → (s.sock h).dis_to ≡ false
      → (s.soc_rx i).state ≡ read_start
      → i < 5
      → 0 < size
      → let stream = inbox i s.bg96.dev in
        ((0 < length stream)
          × (v : Iface D) × (socket_recv io app h (some buffer) size s
              ≡ some (pos (length (take (clamp size) stream)), v))
          × Received inbox i buffer stream (clamp size) (pos (length (take (clamp size) stream))) v)
        ⊎ ((stream ≡ [])
            × (t : Iface D) × (socket_recv io app h (some buffer) size s
                ≡ some (nsapi_error_would_block, t))
            × (n : ℤ) × (v : Iface D) × (socket_recv io app h
                  (some buffer)
                  size
                  (receive_all io app arrive cs t)
                ≡ some (n, v))
            × (Received inbox i buffer (arrived i cs) (clamp size) n v
                ⊎ ((is_served i false cs ≡ false)
                    × (n ≡ nsapi_error_would_block)
                    × (inbox i v.bg96.dev ≡ arrived i cs))))
  socket_recv_receives m h i buffer size cs s r id deaf idle in_table lt =
      let a = Reach-IsAwake io app keeps r (new_interface-IsAwake m) in
      let stream = inbox i s.bg96.dev in
      elim (Bool-cases (ltb 0 (length stream))) [
        | inl found ↦
            let l : 0 < length stream = ground arith in
            let f = recv_found src leaves h i buffer size s a.heard id deaf idle lt l in
            inl (l, f.0, f.1, f.2)
        | inr nothing ↦
            let empty : stream ≡ [] = length-zero stream (ground arith) in
            let (t, e, v, k) = recv_nothing src leaves h i buffer size s id deaf idle lt empty in
            let a' : IsAwake false t = socket_recv-IsAwake io keeps h (some buffer) size s a e in
            let w : IsReading inbox i buffer [] (clamp size) true t = record {
              heard = a'.heard;
              status = inr (refl, v);
            } in
            let c = clamp-bounds size lt in
            let u = receive_all-IsReading src leaves keeps brings in_table c.1 c.0 cs t a' w in
            let id' : ((receive_all io app arrive cs t).sock h).id ≡ some i =
              rw (receive_all-sock cs t ∙ k) id in
            let told : IsTold i (receive_all io app arrive cs t) =
              receive_all-IsTold app leaves.keeps_events io arrive i cs t in_table (rw v.0 refl) in
            let f = last_call h i {buffer = buffer} size (clamp size) _ lt c.1 id' told u in
            inr (
              empty,
              t,
              e,
              f.0,
              f.1,
              f.2,
              elim f.3 [ inl d ↦ inl d | inr (g, n, l) ↦ inr (ground (arith, g), n, l) ],
            )
      ]
