-- ===== src/Interface/Reach.antt =====
-- BG96Interface.cpp: the states that a driver reaches, by calls of the application and by the calls
-- that the event queue makes, in any order.
use bg96_driver.Prelude.{ℕ, ◌<◌, ◌≤◌, ◌≡◌, arith, ℤ, Bool, true, false, Option, some, List}
use bg96_driver.At.{AtParser}
use bg96_driver.Interface.{Iface, Application, Callback, Address, Protocol}
use bg96_driver.Interface.Sockets.{
  socket_open, socket_attach, socket_listen, socket_bind, socket_close, socket_connect,
}
use bg96_driver.Interface.Transfer.{socket_send, socket_recv, socket_sendto, socket_recvfrom}
use bg96_driver.Interface.Poll.{dispatch}
use bg96_driver.Interface.Poll.Awake.{IsAwake, Keeps}
use bg96_driver.Interface.Poll.Steps.{busy}
use bg96_driver.Interface.Poll.Dispatch.{dispatch-IsAwake}
use bg96_driver.Interface.Transfer.Awake.{socket_send-IsAwake, socket_recv-IsAwake}
use bg96_driver.Interface.Transfer.Datagrams.{socket_sendto-IsAwake, socket_recvfrom-IsAwake}
use bg96_driver.Interface.Sockets.Awake.{
  socket_open-IsAwake, socket_attach-IsAwake, socket_listen-IsAwake, socket_close-IsAwake,
  socket_connect-IsAwake,
}

module _ {D : Type 0} (io : AtParser D) (app : Application D) where
  pub data Step : Iface D → Iface D → Type 0 where
    opens : (p : Protocol) (s : Iface D) → Step s (socket_open p s).1
    closes : (h : ℕ) (s : Iface D) → Step s (socket_close io h s).1
    attaches : (h : ℕ) (f : Callback) (d : ℕ) (s : Iface D) → Step s (socket_attach h f d s)
    listens : (h : ℕ) (s : Iface D) → Step s (socket_listen h s).1
    connects :
        (rounds h : ℕ) (addr : Address) {n : ℤ} {s t : Iface D}
        → socket_connect io app rounds h addr s ≡ some (n, t)
        → Step s t
    sends :
        (h : ℕ) (bytes : Option (List ℕ)) (size : ℕ) {n : ℤ} {s t : Iface D}
        → socket_send io app h bytes size s ≡ some (n, t)
        → Step s t
    recvs :
        (h : ℕ) (buffer : Option (List ℕ)) (size : ℕ) {n : ℤ} {s t : Iface D}
        → socket_recv io app h buffer size s ≡ some (n, t)
        → Step s t
    sends_to :
        (rounds h : ℕ) (addr : Address) (bytes : Option (List ℕ)) (size : ℕ) {n : ℤ} {s t : Iface D}
        → socket_sendto io app rounds h addr bytes size s ≡ some (n, t)
        → Step s t
    recvs_from :
        (h : ℕ) (buffer : Option (List ℕ)) (size : ℕ) {n : ℤ × Option Address} {s t : Iface D}
        → socket_recvfrom io app h buffer size s ≡ some (n, t)
        → Step s t
    binds : (h : ℕ) (s : Iface D) → Step s (socket_bind h s).1
    dispatches : (locked : Bool) (s : Iface D) → 0 < s.pending → Step s (dispatch io app locked s)

  pub data Reach (s : Iface D) : Iface D → Type 0 where
    here : Reach s s
    next : {t u : Iface D} → Reach s t → Step t u → Reach s u

  module _ (keeps : Keeps app) where
    Step-IsAwake : {s t : Iface D} → Step s t → IsAwake false s → IsAwake false t
    unfolding socket_bind socket_listen
    Step-IsAwake (opens p s) a = socket_open-IsAwake p s a
    Step-IsAwake (closes h s) a = socket_close-IsAwake io h s a
    Step-IsAwake (attaches h f d s) a = socket_attach-IsAwake h f d s a
    Step-IsAwake (listens h s) a = socket_listen-IsAwake h s a
    Step-IsAwake (connects rounds h addr e) a = socket_connect-IsAwake io keeps rounds h addr _ a e
    Step-IsAwake (sends h bytes size e) a = socket_send-IsAwake io keeps h bytes size _ a e
    Step-IsAwake (recvs h buffer size e) a = socket_recv-IsAwake io keeps h buffer size _ a e
    Step-IsAwake (sends_to rounds h addr bytes size e) a =
        socket_sendto-IsAwake io keeps rounds h addr bytes size _ a e
    Step-IsAwake (recvs_from h buffer size e) a =
        socket_recvfrom-IsAwake io keeps h buffer size _ a e
    Step-IsAwake (binds h s) a = socket_listen-IsAwake h s a
    Step-IsAwake (dispatches locked s h) a = dispatch-IsAwake io keeps locked s a h

    pub Reach-IsAwake : {s t : Iface D} → Reach s t → IsAwake false s → IsAwake false t
    Reach-IsAwake here a = a
    Reach-IsAwake (next r st) a = Step-IsAwake st (Reach-IsAwake r a)

    -- No wake-up is lost. From a state that keeps the queue and `scheduled_events` in step and has a
    -- call waiting if a transfer is under way, with callbacks that keep this, in whatever order the
    -- application and the event queue call the driver: as long as a read or a send of some socket is
    -- under way a call of g_eq_event waits in the queue, and never more than BG96_SOCKET_COUNT of
    -- them.
    pub Reach-pending :
        {s t : Iface D} (j : ℕ)
        → IsAwake false s
        → Reach s t
        → j < 5
        → busy j t ≡ true
        → (0 < t.pending) × (t.pending ≤ 5)
    Reach-pending {s} {t} j a r lt b =
        let w = Reach-IsAwake r a in ground (arith, w.covered j lt b, w.bound, w.counted)
