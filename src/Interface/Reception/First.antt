-- ===== src/Interface/Reception/First.antt =====
-- BG96Interface.cpp: the single calls of socket_recv, by the state of the read.
use bg96_driver.Prelude.{
  ℕ, zero, suc, ◌≤◌, ◌<◌, ◌≡◌, refl, ap, ◌∙◌, arith, inl, inr, pos, Bool, true, false, some, List,
  [], take, length, length-take,
}
use bg96_driver.At.{AtParser, Bg96, nsapi_error_would_block}
use bg96_driver.Driver.Sockets.Source.{IsSource}
use bg96_driver.Interface.{
  Iface, Application, RxEvent, Socket, read_start, read_active, data_available, set_rx,
}
use bg96_driver.Interface.Events.{rx_event, clamp, eq_schedule}
use bg96_driver.Interface.Transfer.{socket_recv, recv_in, start_rx, after_rx, finish_rx, notify_rx}
use bg96_driver.Interface.Reception.{
  IsReading, IsFetched, IsWaiting, IsBegun, Reads, Received, Leaves,
}
use bg96_driver.Interface.Poll.Steps.{Heard, rx_event-kept}
use bg96_driver.Interface.Reception.Queue.{set_same, notify_rx-IsReading}
use bg96_driver.Interface.Reception.Told.{notify_rx-return_cnt}
use bg96_driver.Interface.Reception.Attempt.{rx_event-Attempted, rx_event_first}

set_Heard :
    {D : Type 0} (i : ℕ) (q : RxEvent) (s : Iface D)
    → Heard s
    → q.socket_id ≡ i
    → Heard (set_rx i q s)
set_Heard i q s h own j lt = ground (arith, h j lt, own)

only-IsFetched :
    {i : ℕ} {buffer stream left : List ℕ} {size : ℕ} {p : RxEvent}
    → Reads i buffer stream size false p left
    → IsFetched buffer stream size p left
only-IsFetched (inl v) = v
only-IsFetched (inr (w, v)) = absurd (cc)

take-nil : (n : ℕ) → take {A = ℕ} n [] ≡ []
take-nil zero = refl
take-nil (suc n) = refl

pub clamp-bounds :
    (size : ℕ) → 0 < size → (0 < clamp size) × (clamp size < 2147483648) × (clamp size ≤ size)
clamp-bounds size h = (ground arith, ground arith, ground arith)

begun_waits :
    {i : ℕ} {buffer left : List ℕ} {size k : ℕ} {p : RxEvent}
    → IsBegun i buffer [] size p left
    → IsWaiting i buffer [] size (record p { timer = k; state = read_active }) []
begun_waits v = (
  refl,
  record {
    deaf = v.deaf;
    of_socket = v.of_socket;
    uncounted = v.uncounted;
    stored = v.stored;
    asked = v.asked;
    whole = refl;
  },
)

waits_moved :
    {i : ℕ} {buffer left more : List ℕ} {size k : ℕ} {p q x : RxEvent}
    → x ≡ record q { state = read_active }
    → q ≡ record p { timer = k }
    → left ≡ []
    → IsBegun i buffer [] size p more
    → IsWaiting i buffer [] size x left
waits_moved e f l v = rw (e, f, l) (begun_waits v)

start_rx-IsBegun :
    (p : RxEvent) (sock : Socket) (i : ℕ) (buffer : List ℕ) (size : ℕ) (left : List ℕ)
    → sock.dis_to ≡ false
    → IsBegun i buffer left (clamp size) (start_rx p sock i buffer size) left
unfolding start_rx
start_rx-IsBegun p sock i buffer size left deaf = record {
  deaf = deaf;
  of_socket = refl;
  uncounted = refl;
  stored = refl;
  asked = refl;
  whole = refl;
}

module _ {D : Type 0} (io : AtParser D) (app : Application D) where
  -- The calls on an event that is idle, complete and under way.
  socket_recv_idle :
      (h i : ℕ) (buffer : List ℕ) (size : ℕ) (s : Iface D)
      → 0 < size
      → (s.sock h).id ≡ some i
      → (s.soc_rx i).state ≡ read_start
      → let ((more, q), b) = rx_event io (start_rx (s.soc_rx i) (s.sock h) i buffer size) s.bg96 in
        socket_recv io app h (some buffer) size s
        ≡ some (after_rx io app i more (set_rx i q (record s { bg96 = b })))
  unfolding socket_recv recv_in
  socket_recv_idle h i buffer size s lt e c = ground arith

  pub socket_recv_complete :
      (h i : ℕ) (buffer : List ℕ) (size : ℕ) (s : Iface D)
      → 0 < size
      → (s.sock h).id ≡ some i
      → (s.soc_rx i).state ≡ data_available
      → socket_recv io app h (some buffer) size s ≡ some (finish_rx i s)
  unfolding socket_recv recv_in
  socket_recv_complete h i buffer size s lt e c = ground arith

  pub socket_recv_active :
      (h i : ℕ) (buffer : List ℕ) (size : ℕ) (s : Iface D)
      → 0 < size
      → (s.sock h).id ≡ some i
      → (s.soc_rx i).state ≡ read_active
      → socket_recv io app h (some buffer) size s ≡ some (nsapi_error_would_block, s)
  unfolding socket_recv recv_in
  socket_recv_active h i buffer size s lt e c = ground arith

  after_rx_done :
      (i : ℕ) (s : Iface D) → after_rx io app i false s ≡ finish_rx i (notify_rx app i s)
  unfolding after_rx
  after_rx_done i s = refl

  after_rx_more :
      (i : ℕ) (q : RxEvent) (s : Iface D)
      → let (r, t) = after_rx io app i true (set_rx i q s) in
        (r ≡ nsapi_error_would_block)
        × (t.soc_rx i ≡ record q { state = read_active })
        × (t.bg96 ≡ s.bg96)
        × (t.sock ≡ s.sock)
  unfolding after_rx eq_schedule
  after_rx_more i q s = (refl, ground arith, ground arith, ground arith)

finish_rx-result :
    {D : Type 0} (i : ℕ) (s : Iface D) (n : ℕ)
    → n < 2147483648
    → (s.soc_rx i).return_cnt ≡ n
    → (finish_rx i s).0 ≡ pos n
unfolding finish_rx
finish_rx-result i s n lt e = ground arith

pub finish_rx-Received :
    {D : Type 0} (inbox : ℕ → D → List ℕ) (i : ℕ) {buffer stream : List ℕ} {size : ℕ} (s : Iface D)
    → size < 2147483648
    → IsFetched buffer stream size (s.soc_rx i) (inbox i s.bg96.dev)
    → let (n, t) = finish_rx i s in Received inbox i buffer stream size n t
unfolding finish_rx
finish_rx-Received inbox i s lt v = (
  v.got,
  ground (arith, v.counted, v.fits),
  ground (arith, v.stored),
  v.split,
  v.fits,
  ground arith,
)

module _ {D : Type 0} {io : AtParser D} {target room : D → ℕ} {ready : D → Bool}
    {inbox : ℕ → D → List ℕ} (src : IsSource io target room ready inbox) {app : Application D}
    (leaves : Leaves inbox app) where
  -- The read that the first attempt leaves.
  first_attempt :
      (h i : ℕ) (buffer : List ℕ) (size : ℕ) (s : Iface D)
      → Heard s
      → (s.sock h).dis_to ≡ false
      → 0 < size
      → let stream = inbox i s.bg96.dev in
        0 < length stream
        → let ((more, q), b) =
            rx_event io (start_rx (s.soc_rx i) (s.sock h) i buffer size) s.bg96 in
          (more ≡ false)
          × IsReading inbox i buffer stream (clamp size) false (set_rx i q (record s { bg96 = b }))
          × (q.return_cnt ≡ length (take (clamp size) stream))
  unfolding start_rx
  first_attempt h i buffer size s heard deaf lt some_left =
      let stream = inbox i s.bg96.dev in
      let p = start_rx (s.soc_rx i) (s.sock h) i buffer size in
      let c = clamp-bounds size lt in
      let ((more, q), b) = rx_event io p s.bg96 in
      let own : q.socket_id ≡ i = (rx_event-kept io p s.bg96).0 in
      elim (rx_event-Attempted src s.bg96 c.1
        (start_rx-IsBegun (s.soc_rx i) (s.sock h) i buffer size stream deaf)) [
          | inr (m, z, w, l) ↦
              absurd (ground (arith, length-take (clamp size) stream, ap (λ x. length x) z))
          | inl (m, v, n) ↦ (
            m,
            record {
              heard = set_Heard i q (record s { bg96 = b }) heard own;
              status = inl (rw (set_same i q s.soc_rx) v);
            },
            n,
          )
        ]

  -- The first call on a modem that has something for the socket.
  pub recv_found :
      (h i : ℕ) (buffer : List ℕ) (size : ℕ) (s : Iface D)
      → Heard s
      → (s.sock h).id ≡ some i
      → (s.sock h).dis_to ≡ false
      → (s.soc_rx i).state ≡ read_start
      → 0 < size
      → let stream = inbox i s.bg96.dev in
        0 < length stream
        → (v : Iface D) × (socket_recv io app h (some buffer) size s
            ≡ some (pos (length (take (clamp size) stream)), v))
          × Received inbox i buffer stream (clamp size) (pos (length (take (clamp size) stream))) v
  recv_found h i buffer size s heard id deaf idle lt some_left =
      let stream = inbox i s.bg96.dev in
      let c = clamp-bounds size lt in
      let ((more, q), b) = rx_event io (start_rx (s.soc_rx i) (s.sock h) i buffer size) s.bg96 in
      let u = set_rx i q (record s { bg96 = b }) in
      let t = notify_rx app i u in
      let (m, v, n) = first_attempt h i buffer size s heard deaf lt some_left in
      let fetched = only-IsFetched (notify_rx-IsReading src leaves c.1 i v).status in
      let few : length (take (clamp size) stream) < 2147483648 =
        ground (arith, length-take (clamp size) stream, c.1) in
      let f : (finish_rx i t).0 ≡ pos (length (take (clamp size) stream)) =
        finish_rx-result i t _ few
          (notify_rx-return_cnt app leaves.keeps_events i u ∙ rw (set_same i q s.soc_rx) n) in
      let r = finish_rx-Received inbox i t c.1 fetched in
      (
        (finish_rx i t).1,
        socket_recv_idle io app h i buffer size s lt id idle
            ∙ ap (λ x. some (after_rx io app i x u)) m
            ∙ ap (λ x. some x) (after_rx_done io app i u)
            ∙ ap (λ x. some (x, (finish_rx i t).1)) f,
        rw f at r,
      )

  -- The first call on a modem that has nothing.
  pub recv_nothing :
      (h i : ℕ) (buffer : List ℕ) (size : ℕ) (s : Iface D)
      → (s.sock h).id ≡ some i
      → (s.sock h).dis_to ≡ false
      → (s.soc_rx i).state ≡ read_start
      → 0 < size
      → inbox i s.bg96.dev ≡ []
      → (t : Iface D) × (socket_recv io app h (some buffer) size s
          ≡ some (nsapi_error_would_block, t))
        × IsWaiting i buffer [] (clamp size) (t.soc_rx i) (inbox i t.bg96.dev)
        × (t.sock ≡ s.sock)
  unfolding start_rx
  recv_nothing h i buffer size s id deaf idle lt empty =
      let p = start_rx (s.soc_rx i) (s.sock h) i buffer size in
      let c = clamp-bounds size lt in
      let ((more, q), b) = rx_event io p s.bg96 in
      let u = set_rx i q (record s { bg96 = b }) in
      let z : take (clamp size) [] ≡ [] = take-nil (clamp size) in
      let v : IsBegun i buffer [] (clamp size) p (inbox i s.bg96.dev) =
        rw empty (start_rx-IsBegun (s.soc_rx i) (s.sock h) i buffer size [] deaf) in
      let m : more ≡ true = rx_event_first src s.bg96 c.1 refl z v in
      let e = socket_recv_idle io app h i buffer size s lt id idle in
      let r = after_rx_more io app i q (record s { bg96 = b }) in
      elim (rx_event-Attempted src s.bg96 c.1 v) [
        | inl (f, w, n) ↦ absurd (cc (f, m))
        | inr (f, y, w, l) ↦ (
          (after_rx io app i true u).1,
          e
              ∙ ap (λ x. some (after_rx io app i x u)) m
              ∙ ap (λ n. some (n, (after_rx io app i true u).1)) r.0,
          waits_moved r.1 w (ap (λ (x : Bg96 D). inbox i x.dev) r.2 ∙ l) v,
          r.3,
        )
      ]
